-- ===== src/Networking/Payload/RoundTrip.antt =====
-- The payload that one peer deserializes is the one that another serialized.
use theblockchainkiller.Base.{
  ℕ, suc, ◌+◌, ◌%◌, ◌^◌, ◌≤◌, ◌<◌, ◌≡◌, refl, [], ◌++◌, append-nil, arith, length, length-append,
  le→leb, lt→ltb, ==_refl, ==_iff,
}
use theblockchainkiller.Runtime.{ok}
use theblockchainkiller.Endian.{Host, Bytes}
use theblockchainkiller.Buffer.{cursor, malloc, allocate, allocate_bytes, take_bytes, be64}
use theblockchainkiller.Buffer.Laws.{read_u64-be64, take_bytes-append, length-be64, split_all}
use theblockchainkiller.Networking.{CommandPayload, leo_prefix, header_size}
use theblockchainkiller.Networking.Payload.{
  copy_out, require_payload, payload_serialize, payload_deserialize,
}
use theblockchainkiller.Networking.Header.Written.{
  IsHeader, header_bytes, with_len, command_header_serialize-bytes,
  command_header_deserialize-bytes, length-header_bytes,
}

-- A payload whose length is right and whose fields the C types can hold.
pub record IsPayload (number : ℕ) (c : CommandPayload) : Type 0 where
  pub has_prefix : c.header.command_prefix ≡ leo_prefix
  pub has_number : c.header.command ≡ number
  pub number_fits : number < 2 ^ 32
  pub len_is : c.data_len ≡ length c.payload
  pub len_fits : c.data_len < 2 ^ 63

abbrev pub sent_payload : CommandPayload → CommandPayload
sent_payload c = record c { header = with_len c.header (8 + c.data_len) }

abbrev pub payload_bytes : Host → CommandPayload → Bytes
payload_bytes h c =
    header_bytes h (with_len c.header (8 + c.data_len)) ++ (be64 h c.data_len ++ c.payload)

require_payload-enough :
    (n a : ℕ) (bs : Bytes)
    → n ≤ length bs
    → n < 2 ^ 63
    → require_payload n (cursor a bs) ≡ ok (tt, cursor a bs)
unfolding require_payload
require_payload-enough n a bs h small =
    rw (le→leb ((24 + n) % 2 ^ 64) (24 + length bs) (omega arith))

allocate_bytes-suc :
    (n a : ℕ) (bs : Bytes)
    → n < 2 ^ 63
    → allocate_bytes n (cursor (suc a) bs) ≡ ok (tt, cursor a bs)
unfolding allocate_bytes allocate malloc
allocate_bytes-suc n a bs small = rw (lt→ltb n (2 ^ 63) small)

take_bytes_all :
    (n a : ℕ) (bs : Bytes) → length bs ≡ n → take_bytes n (cursor a bs) ≡ ok (bs, cursor a [])
take_bytes_all n a bs e = rw append-nil at (take_bytes-append n bs [] a e)

copy_out_all : (n s : ℕ) (bs : Bytes) → length bs ≡ n → copy_out n bs s ≡ ok (bs, s)
unfolding copy_out
copy_out_all n s bs e = rw (split_all n bs e, copy_out)

pub payload_deserialize-bytes :
    (h from : Host) (number : ℕ) (c : CommandPayload) (a : ℕ)
    → IsPayload number c
    → payload_deserialize h number (cursor (suc a) (payload_bytes from c))
      ≡ ok (sent_payload c, cursor a [])
unfolding payload_deserialize
payload_deserialize-bytes h from number c a w = rw (
  command_header_deserialize-bytes h from (with_len c.header (8 + c.data_len)) (suc a) _
      (record { has_prefix = w.has_prefix; command_fits = omega arith; len_fits = omega arith }),
  w.has_number,
  ==_refl number,
  read_u64-be64 h from c.data_len (suc a) c.payload (omega arith),
  require_payload-enough c.data_len (suc a) c.payload (omega arith) w.len_fits,
  allocate_bytes-suc c.data_len a c.payload w.len_fits,
  take_bytes_all c.data_len a c.payload (omega arith),
)

-- The header and the length that the serializer writes are those of the command.
sent-IsHeader :
    (number : ℕ) (c : CommandPayload)
    → IsPayload number c
    → IsHeader (with_len c.header (8 + c.data_len))
sent-IsHeader number c w = record {
  has_prefix = w.has_prefix;
  command_fits = omega arith;
  len_fits = omega arith;
}

pub payload_serialize-bytes :
    (h : Host) (number : ℕ) (c : CommandPayload) (n : ℕ)
    → IsPayload number c
    → payload_serialize h number c (suc (suc (suc n))) ≡ ok ((sent_payload c, payload_bytes h c), n)
unfolding payload_serialize malloc
payload_serialize-bytes h number c n w =
    let sent = with_len c.header (8 + c.data_len) in
    let whole : (8 + c.data_len) % 2 ^ 64 ≡ 8 + c.data_len = omega arith in
    rw (
      (==_iff c.header.command number).1 w.has_number,
      whole,
      command_header_serialize-bytes h sent (suc n) (sent-IsHeader number c w),
      copy_out_all c.data_len n c.payload (omega arith),
    )

pub length-payload_bytes :
    (h : Host) (c : CommandPayload)
    → length (payload_bytes h c) ≡ header_size + (8 + length c.payload)
length-payload_bytes h c =
    let sent = with_len c.header (8 + c.data_len) in
    rw
      (
        length-append (header_bytes h sent) (be64 h c.data_len ++ c.payload),
        length-header_bytes h sent,
        length-append (be64 h c.data_len) c.payload,
        length-be64 h c.data_len,
      )
      refl

-- Given three allocations, a command with a payload that the C types can hold is serialized into as
-- many bytes as a header and the length in the header say, and any host that can allocate the
-- payload reads from them the same command, with that length filled in, and nothing stays unread.
pub payload-round_trip :
    (from to : Host) (number : ℕ) (c : CommandPayload) (n a : ℕ)
    → IsPayload number c
    → (bytes : Bytes) × (payload_serialize from number c (suc (suc (suc n)))
        ≡ ok ((sent_payload c, bytes), n))
      × (payload_deserialize to number (cursor (suc a) bytes) ≡ ok (sent_payload c, cursor a []))
      × (length bytes ≡ header_size + (sent_payload c).header.command_len)
payload-round_trip from to number c n a w = (
  payload_bytes from c,
  payload_serialize-bytes from number c n w,
  payload_deserialize-bytes to from number c a w,
  omega (arith, length-payload_bytes from c, w.len_is),
)
