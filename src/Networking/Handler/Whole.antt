-- ===== src/Networking/Handler/Whole.antt =====
-- A handler that gets a whole command.
use theblockchainkiller.Base.{
  ℕ, suc, ◌+◌, ◌^◌, ◌≤◌, ◌<◌, ◌≡◌, refl, List, ◌++◌, All, length, length-append, arith, ==_iff, [],
  append-nil, append_assoc, ap, lt→ltb, ◌∙◌,
}
use theblockchainkiller.Runtime.{Outcome, ok}
use theblockchainkiller.Endian.{Host, Bytes}
use theblockchainkiller.Buffer.{cursor, malloc, be64}
use theblockchainkiller.Buffer.Laws.{length-be64}
use theblockchainkiller.Networking.{CommandHeader, CommandPayload, header_size}
use theblockchainkiller.Networking.Socket.{Call, recv_all}
use theblockchainkiller.Networking.Socket.Stream.{Progress}
use theblockchainkiller.Networking.Socket.Prefix.{transfer-Prefix}
use theblockchainkiller.Networking.Header.{command_header_deserialize}
use theblockchainkiller.Networking.Header.Written.{
  IsHeader, header_bytes, with_len, command_header_deserialize-bytes, length-header_bytes,
}
use theblockchainkiller.Networking.Payload.RoundTrip.{IsPayload, payload_bytes}
use theblockchainkiller.Networking.Handler.{Handled, grow, receive_command}

-- A growth of the buffer that succeeds as long as the command is not too long.
abbrev pub Grows : (ℕ → ℕ → Outcome ℕ) → Type 0
Grows grow_by = (len n : ℕ) → header_size + len < 2 ^ 63 → grow_by len (suc n) ≡ ok n

pub grow-Grows : Grows grow
unfolding malloc
grow-Grows len n small = rw (lt→ltb (header_size + len) (2 ^ 63) small)

module _ {S : Type 0} (grow_by : ℕ → ℕ → Outcome ℕ) (grows : Grows grow_by) (h : Host) (number : ℕ)
    (calls : List Call) (rest : Bytes) (n : ℕ) (s : S) (next : Bytes → ℕ → Handled S)
    (p : All Progress calls) where
  -- A command of which the header and what follows it are known.
  pub receive_parts :
      (head body : Bytes) (c : CommandHeader)
      → length head ≡ header_size
      → command_header_deserialize h (cursor (suc n) head) ≡ ok (c, cursor (suc n) [])
      → c.command ≡ number
      → length body ≡ c.command_len
      → length head + length body ≤ length calls
      → header_size + c.command_len < 2 ^ 63
      → receive_command h grow_by number calls (head ++ (body ++ rest)) (suc (suc n)) s next
        ≡ next (head ++ body) n
  unfolding receive_command recv_all malloc
  receive_parts head body c size read same_number len many small =
      let first = transfer-Prefix calls head (body ++ rest) [] p (omega arith) in
      let second =
        transfer-Prefix first.left body rest [] first.progress (omega (arith, first.enough)) in
      rw
        (
          rw size at first.over,
          read,
          (==_iff c.command number).1 same_number,
          grows c.command_len n small,
          rw len at second.over,
        )
        refl

  -- If the peer sends a command with a payload that the C types can hold, then a handler that can make
  -- two allocations gets all of its bytes, whatever follows them.
  pub receive_command-whole :
      (from : Host) (c : CommandPayload)
      → IsPayload number c
      → length (payload_bytes from c) ≤ length calls
      → header_size + (8 + c.data_len) < 2 ^ 63
      → receive_command h grow_by number calls (payload_bytes from c ++ rest) (suc (suc n)) s next
        ≡ next (payload_bytes from c) n
  receive_command-whole from c w many small =
      let sent = with_len c.header (8 + c.data_len) in
      let body = be64 from c.data_len ++ c.payload in
      let fits : IsHeader sent = record {
        has_prefix = w.has_prefix;
        command_fits = omega (arith, w.has_number, w.number_fits);
        len_fits = omega arith;
      } in
      let read : command_header_deserialize h (cursor (suc n) (header_bytes from sent))
          ≡ ok (sent, cursor (suc n) []) =
        rw append-nil at (command_header_deserialize-bytes h from sent (suc n) [] fits) in
      let len : length body ≡ 8 + c.data_len = omega (
        arith,
        length-append (be64 from c.data_len) c.payload,
        length-be64 from c.data_len,
        w.len_is,
      ) in
      ap (λ stream. receive_command h grow_by number calls stream (suc (suc n)) s next)
        (append_assoc (header_bytes from sent) body rest)
      ∙ receive_parts (header_bytes from sent) body sent (length-header_bytes from sent) read
          w.has_number len (omega (arith, length-append (header_bytes from sent) body, many)) small
