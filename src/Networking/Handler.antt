-- ===== src/Networking/Handler.antt =====
-- What the handlers of src/consensus_peer_server_thread.c, src/consensus_peer_client_thread.c,
-- src/peer_discovery_bootstrap_server_thread.c and src/peer_discovery_thread.c have in common.
pub mod Leaves
pub mod Whole
use theblockchainkiller.Base.{
  ℕ, ◌+◌, ◌^◌, Option, none, some, List, [], ◌++◌, ◌==◌, ltb, if◌then◌else◌,
}
use theblockchainkiller.Runtime.{
  ReturnCode, could_not_malloc, network_function, invalid_command, Outcome, ok, err, fault,
}
use theblockchainkiller.Endian.{Host, Bytes}
use theblockchainkiller.Buffer.{cursor, malloc}
use theblockchainkiller.Networking.{header_size}
use theblockchainkiller.Networking.Header.{command_header_deserialize}
use theblockchainkiller.Networking.Socket.{Call, Transfer, done, network_error, waits, recv_all}

-- A handler returns a code and leaves the state that it shares with other threads, and the bytes that it has sent if the code
-- is SUCCESS; or its behaviour is undefined; or it still waits for the peer when the calls in the
-- script are used up.
pub data Handled (S : Type 0) : Type 0 where
  returned : ReturnCode → S → Bytes → Handled S
  undefined : Handled S
  blocked : Handled S

-- The rest of a handler behind a call, which ends with the call's code if that is not SUCCESS.
abbrev pub after : {S A : Type 0} → Outcome A → S → (A → Handled S) → Handled S
after (ok a) s next = next a
after (err c) s next = returned c s []
after fault s next = undefined

abbrev pub after_mutex : {S : Type 0} → Option ReturnCode → S → Handled S → Handled S
after_mutex none s next = next
after_mutex (some c) s next = returned c s []

-- The rest behind `recv_all` or `send_all`, whose failures become FAILURE_NETWORK_FUNCTION.
abbrev pub after_transfer :
    {S : Type 0} → Transfer → S → (Bytes → Bytes → List Call → Handled S) → Handled S
after_transfer (done moved left calls) s next = next moved left calls
after_transfer network_error s next = returned network_function s []
after_transfer waits s next = blocked

-- `realloc(recv_buf, sizeof(command_header_t) + command_len)`: nobody looks at a NULL, and the sum
-- can wrap round to less than the header. The pointers that follow are undefined then.
abbrev pub grow : ℕ → ℕ → Outcome ℕ
grow command_len n =
    if ltb (header_size + command_len) (2 ^ 63)
    then elim (malloc n) as (λ _. Outcome ℕ) [ ok (_, n') ↦ ok n' | _ ↦ fault ]
    else fault

module _ (h : Host) {S : Type 0} where
  -- From the allocation of `recv_buf` to the second `recv_all`: `next` gets the buffer with the
  -- whole command, of which the header's number has been tested, and the allocator.
  unfoldable pub receive_command :
      (ℕ → ℕ → Outcome ℕ) → ℕ → List Call → Bytes → ℕ → S → (Bytes → ℕ → Handled S) → Handled S
  receive_command grow_by number calls stream n s next = after (malloc n) s λ (_, n1).
      after_transfer (recv_all calls header_size stream) s λ head stream' calls'.
        after (command_header_deserialize h (cursor n1 head)) s λ (header, c).
          if header.command == number
          then after (grow_by header.command_len c.allocs) s (λ n2.
            after_transfer (recv_all calls' header.command_len stream') s
              λ body _ _. next (head ++ body) n2)
          else returned invalid_command s []
