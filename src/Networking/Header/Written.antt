-- ===== src/Networking/Header/Written.antt =====
-- What `command_header_serialize` writes, and what `command_header_deserialize` reads from it.
use theblockchainkiller.Base.{
  ℕ, suc, ◌^◌, ◌<◌, ◌≡◌, refl, [], ◌∷◌, ◌++◌, append_assoc, arith, length, length-append, ==_refl,
}
use theblockchainkiller.Runtime.{ok}
use theblockchainkiller.Endian.{Host, Bytes}
use theblockchainkiller.Buffer.{cursor, malloc, be64, net}
use theblockchainkiller.Buffer.Laws.{
  read_u64-be64, read_net-net, take_bytes-append, require-append, length-be64, length-net,
}
use theblockchainkiller.Networking.{CommandHeader, leo_prefix, command_prefix_len, header_size}
use theblockchainkiller.Networking.Header.{
  copy_prefix, command_header_serialize, command_header_deserialize,
}

-- A header that the C type can hold, with the prefix of the protocol.
pub record IsHeader (c : CommandHeader) : Type 0 where
  pub has_prefix : c.command_prefix ≡ leo_prefix
  pub command_fits : c.command < 2 ^ 32
  pub len_fits : c.command_len < 2 ^ 64

abbrev pub header_bytes : Host → CommandHeader → Bytes
header_bytes h c = leo_prefix ++ (net h 4 c.command ++ be64 h c.command_len)

copy_prefix_self : {S : Type 0} (p : Bytes) (s : S) → copy_prefix p p s ≡ ok (p, s)
unfolding copy_prefix
copy_prefix_self [] s = refl
copy_prefix_self (b ∷ p) s = rw (==_refl b, copy_prefix_self p s)

pub command_header_serialize-bytes :
    (h : Host) (c : CommandHeader) (n : ℕ)
    → IsHeader c
    → command_header_serialize h c (suc n) ≡ ok (header_bytes h c, n)
unfolding command_header_serialize malloc
command_header_serialize-bytes h c n w = rw (w.has_prefix, copy_prefix_self leo_prefix n)

pub command_header_deserialize-bytes :
    (h from : Host) (c : CommandHeader) (a : ℕ) (rest : Bytes)
    → IsHeader c
    → command_header_deserialize h (cursor a (header_bytes from c ++ rest)) ≡ ok (c, cursor a rest)
unfolding command_header_deserialize
command_header_deserialize-bytes h from c a rest w =
    rw
      (
        require-append command_prefix_len leo_prefix
            (net from 4 c.command ++ be64 from c.command_len ++ rest) a refl,
        take_bytes-append command_prefix_len leo_prefix
            (net from 4 c.command ++ be64 from c.command_len ++ rest) a refl,
        copy_prefix_self leo_prefix
            (cursor a (net from 4 c.command ++ be64 from c.command_len ++ rest)),
      )
      (simp append_assoc (
        rw (
          read_net-net h from 4 c.command a (be64 from c.command_len ++ rest) w.command_fits,
          read_u64-be64 h from c.command_len a rest w.len_fits,
          w.has_prefix,
        )))

pub length-header_bytes : (h : Host) (c : CommandHeader) → length (header_bytes h c) ≡ header_size
length-header_bytes h c = omega (
  arith,
  length-append (net h 4 c.command) (be64 h c.command_len),
  length-net h 4 c.command,
  length-be64 h c.command_len,
)

-- The header with the length that the serializer fills in.
abbrev pub with_len : CommandHeader → ℕ → CommandHeader
with_len c n = record c { command_len = n }
