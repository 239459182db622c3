-- ===== src/Networking/Socket.antt =====
-- `recv_all` and `send_all` of src/networking.c. The kernel decides how many bytes each call of
-- `recv` or `send` moves: a script lists what the calls return.
pub mod Stream
pub mod Prefix
use theblockchainkiller.Base.{
  ℕ, zero, suc, ◌+◌, ◌-◌, Bool, true, false, List, [], ◌∷◌, ◌++◌, ◌==◌, if◌then◌else◌, length, ltb,
}
use theblockchainkiller.Endian.{Bytes}

-- A negative result, or a number of bytes that are ready (or fit the send buffer): the call moves
-- that many, but no more than it is asked for.
pub data Call : Type 0 where
  fails : Call
  moves : ℕ → Call

-- `done` carries the bytes moved, those of the stream that are left and the calls not made.
-- `network_error` is FAILURE_NETWORK_FUNCTION, and `waits` says that the script has ended before
-- the loop.
pub data Transfer : Type 0 where
  done : Bytes → Bytes → List Call → Transfer
  network_error : Transfer
  waits : Transfer

-- At most `n` bytes off the front of `src`, put behind `dst`, and how many are still wanted.
pub record Moved : Type 0 where
  pub dst : Bytes
  pub src : Bytes
  pub wanted : ℕ

unfoldable pub move : ℕ → ℕ → Bytes → Bytes → Moved
move zero wanted dst src = record { dst = dst; src = src; wanted = wanted }
move (suc n) zero dst src = record { dst = dst; src = src; wanted = zero }
move (suc n) (suc wanted) dst [] = record { dst = dst; src = []; wanted = suc wanted }
move (suc n) (suc wanted) dst (b ∷ src) = move n wanted (dst ++ (b ∷ [])) src

-- The loop of `recv_all`, in which the bytes come from the peer, and that of `send_all`, in which
-- they come from the buffer: `while (total != len) { … total += moved; }` with `wanted` for
-- `len - total`.
unfoldable pub transfer : List Call → ℕ → Bytes → Bytes → Transfer
transfer calls zero dst src = done dst src calls
transfer [] (suc wanted) dst src = waits
transfer (fails ∷ calls) (suc wanted) dst src = network_error
transfer (moves n ∷ calls) (suc wanted) dst src =
    let m = move n (suc wanted) dst src in transfer calls m.wanted m.dst m.src

unfoldable pub recv_all : List Call → ℕ → Bytes → Transfer
recv_all calls len stream = transfer calls len [] stream

unfoldable pub send_all : List Call → Bytes → Transfer
send_all calls buf = transfer calls (length buf) [] buf
