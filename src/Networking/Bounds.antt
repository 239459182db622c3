-- ===== src/Networking/Bounds.antt =====
-- The deserializers of src/networking.c never read outside the buffer, whatever a peer has sent.
use theblockchainkiller.Base.{ℕ, ◌+◌, ◌%◌, ◌^◌, ◌≤◌, ◌<◌, ◌≡◌, ◌≢◌, [], ◌∷◌, arith, length}
use theblockchainkiller.Runtime.{ok, fault, buffer_too_small}
use theblockchainkiller.Endian.{Host, Bytes}
use theblockchainkiller.Buffer.{
  Cursor, Run, ◌>>=◌, ◌>>◌, allocate, allocate_bytes, take_bytes, malloc,
}
use theblockchainkiller.Buffer.Safe
use theblockchainkiller.Buffer.Safe.{
  Safe, safe, never_faults, safe_rules, Safe-require_take, and_then-ne-fault, Safe-take, Safe-guard,
  Safe-pure, Safe-read_net, Safe-read_u64,
}
use theblockchainkiller.Networking.{
  leo_prefix, command_prefix_len, command_send_peer_list, command_send_blockchain,
}
use theblockchainkiller.Networking.Header.{copy_prefix, command_header_deserialize}
use theblockchainkiller.Networking.Register.{command_register_peer_deserialize}
use theblockchainkiller.Networking.Payload.{
  payload_deserialize, require_payload, command_send_peer_list_deserialize,
  command_send_blockchain_deserialize,
}

Safe-copy_prefix :
    (expected prefix : Bytes) → length expected ≤ length prefix → Safe (copy_prefix expected prefix)
unfolding copy_prefix
Safe-copy_prefix [] prefix h = Safe-pure []
Safe-copy_prefix (e ∷ expected) [] h = absurd (omega arith)
Safe-copy_prefix (e ∷ expected) (b ∷ prefix) h =
    let rest = Safe-copy_prefix expected prefix (omega arith) in search (safe_rules, rest)

require_payload-ok :
    (n : ℕ) (c c' : Cursor) (u : Unit {0})
    → require_payload n c ≡ ok (u, c')
    → (c' ≡ c) × ((24 + n) % 2 ^ 64 ≤ 24 + length c.unread)
unfolding require_payload
require_payload-ok n c c' u e = ground arith

Safe-require_payload : (n : ℕ) → Safe (require_payload n)
unfolding require_payload
Safe-require_payload n = safe (λ c. never_faults (Safe-guard _ buffer_too_small) c)

allocate_bytes-ok :
    (n : ℕ) (c c' : Cursor) (u : Unit {0})
    → allocate_bytes n c ≡ ok (u, c')
    → (c'.unread ≡ c.unread) × (n < 2 ^ 63)
unfolding allocate_bytes allocate malloc
allocate_bytes-ok n c c' u e = ground arith

-- The check of the payload's length is made in 64 bits and can wrap round, but then the
-- allocation fails, so that the copy stays in the buffer.
Safe-payload_copy :
    {A : Type 0} (n : ℕ) {f : Bytes → Run Cursor A}
    → ((bs : Bytes) → Safe (f bs))
    → Safe (require_payload n >> (allocate_bytes n >> (take_bytes n >>= f)))
Safe-payload_copy n {f} k = safe λ c.
    and_then-ne-fault (require_payload n c) _ (never_faults (Safe-require_payload n) c) λ u c' e.
      and_then-ne-fault (allocate_bytes n c') _ (never_faults (Safe.Safe-allocate_bytes n) c')
        λ u' c'' e'.
          and_then-ne-fault (take_bytes n c'') f
            (Safe-take n c''
              (ground (arith, require_payload-ok n c c' u e, allocate_bytes-ok n c' c'' u' e')))
            (λ bs d _. never_faults (k bs) d)

module _ (h : Host) where
  Safe-header : Safe (command_header_deserialize h)
  unfolding command_header_deserialize
  Safe-header = Safe-require_take command_prefix_len (λ bs e.
      let copied = Safe-copy_prefix leo_prefix bs (omega arith) in
      search (safe_rules, copied) depth 12)

  Safe-register : Safe (command_register_peer_deserialize h)
  unfolding command_register_peer_deserialize
  Safe-register = search (safe_rules, Safe-header) depth 20

  Safe-payload : (number : ℕ) → Safe (payload_deserialize h number)
  unfolding payload_deserialize
  Safe-payload number = Safe.bind Safe-header λ header.
      Safe.bind (Safe-guard _ _)
        λ _. Safe.bind (Safe-read_u64 h) λ n. Safe-payload_copy n (λ bs. Safe-pure _)

  -- `command_header_deserialize`, `command_register_peer_deserialize` and the two deserializers of
  -- commands with a payload read no byte outside the buffer, for any contents of the buffer and any
  -- number of allocations that succeed.
  pub deserialize-ne-fault :
      (c : Cursor)
      → (command_header_deserialize h c ≢ fault)
        × (command_register_peer_deserialize h c ≢ fault)
        × (command_send_peer_list_deserialize h c ≢ fault)
        × (command_send_blockchain_deserialize h c ≢ fault)
  deserialize-ne-fault c = (
    never_faults Safe-header c,
    never_faults Safe-register c,
    never_faults (Safe-payload command_send_peer_list) c,
    never_faults (Safe-payload command_send_blockchain) c,
  )
