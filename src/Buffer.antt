-- ===== src/Buffer.antt =====
-- The serialization buffers of src/blockchain.c, src/peer_discovery.c and src/networking.c: what
-- the functions there do with `malloc`, `total_read_size` and `next_spot_in_buffer`.
pub mod Laws
pub mod Safe
pub mod Yields
use theblockchainkiller.Base.{
  ℕ, zero, suc, Bool, true, false, Option, none, some, [], ◌∷◌, ◌^◌, leb, ltb, length,
}
use theblockchainkiller.Runtime.{
  ReturnCode, Outcome, ok, err, fault, could_not_malloc, buffer_too_small,
}
use theblockchainkiller.Endian.{
  Host, Bytes, store, load, htobe64, betoh64, to_network, from_network,
}

-- A function that runs over a state returns its result and the new state.
abbrev pub Run : Type 0 → Type 0 → Type 0
Run S A = S → Outcome (A × S)

module _ {S : Type 0} where
  abbrev pub pure : {A : Type 0} → A → Run S A
  pure a s = ok (a, s)

  abbrev pub and_then : {A B : Type 0} → Outcome (A × S) → (A → Run S B) → Outcome (B × S)
  and_then (ok (a, s)) f = f a s
  and_then (err c) f = err c
  and_then fault f = fault

  infixl 5 ◌>>=◌ ◌>>◌
  abbrev pub ◌>>=◌ : {A B : Type 0} → Run S A → (A → Run S B) → Run S B
  m >>= f = λ s. and_then (m s) f

  abbrev pub ◌>>◌ : {B : Type 0} → Run S (Unit {0}) → Run S B → Run S B
  m >> k = m >>= λ _. k

  abbrev pub guard : Bool → ReturnCode → Run S (Unit {0})
  guard true c s = ok (tt, s)
  guard false c s = err c

-- The allocator as a run sees it: the number of calls of `malloc`, `calloc` and `realloc` that
-- succeed before the first that fails. Every function here gives up at that one.
unfoldable pub malloc : Run ℕ (Unit {0})
malloc zero = err could_not_malloc
malloc (suc n) = ok (tt, n)

-- A reader's state: the allocator, and the bytes from `next_spot_in_buffer` to the end of the
-- buffer, which is `buffer_size` bytes long.
pub record Cursor : Type 0 where
  pub allocs : ℕ
  pub unread : Bytes

abbrev pub cursor : ℕ → Bytes → Cursor
cursor n bs = record { allocs = n; unread = bs }

-- An allocation by a reader.
unfoldable pub allocate : Run Cursor (Unit {0})
unfolding malloc
allocate c = elim (malloc c.allocs) [
  | ok (_, n) ↦ ok (tt, cursor n c.unread)
  | err e ↦ err e
  | fault ↦ fault
]

-- `calloc(n, 1)` for a number that a peer has sent: no object is larger than PTRDIFF_MAX bytes.
unfoldable pub allocate_bytes : ℕ → Run Cursor (Unit {0})
allocate_bytes n = guard (ltb n (2 ^ 63)) could_not_malloc >> allocate

-- `total_read_size = next_spot_in_buffer + n - buffer;`
-- `if (total_read_size > buffer_size) { return_code = FAILURE_BUFFER_TOO_SMALL; … }`
unfoldable pub require : ℕ → Run Cursor (Unit {0})
require n c = guard (leb n (length c.unread)) buffer_too_small c

-- The first `n` bytes and what follows them.
unfoldable pub split : ℕ → Bytes → Option (Bytes × Bytes)
split zero bs = some ([], bs)
split (suc n) [] = none
split (suc n) (b ∷ bs) = elim (split n bs) [ none ↦ none | some (xs, rest) ↦ some (b ∷ xs, rest) ]

-- A copy of `n` bytes out of the buffer, or a load of an `n`-byte integer, which moves
-- `next_spot_in_buffer` on. Past the end of the buffer it is undefined.
unfoldable pub take_bytes : ℕ → Run Cursor Bytes
unfolding split
take_bytes n c = elim (split n c.unread) [
  | none ↦ fault
  | some (xs, rest) ↦ ok (xs, cursor c.allocs rest)
]

module _ (h : Host) where
  -- `*(uint64_t *)next_spot_in_buffer = htobe64(x)`
  unfoldable pub be64 : ℕ → Bytes
  be64 x = store h 8 (htobe64 h x)

  -- The same with `htonl` on four bytes or `htons` on two.
  unfoldable pub net : ℕ → ℕ → Bytes
  net n x = store h n (to_network h n x)

  -- The check of `total_read_size`, then `betoh64(*(uint64_t *)next_spot_in_buffer)`.
  unfoldable pub read_u64 : Run Cursor ℕ
  read_u64 = do require 8; bs ← take_bytes 8; pure (betoh64 h (load h bs))

  -- The same with `ntohl` or `ntohs`.
  unfoldable pub read_net : ℕ → Run Cursor ℕ
  read_net n = do require n; bs ← take_bytes n; pure (from_network h n (load h bs))

-- The check of `total_read_size`, then the loop that copies an array of `n` bytes.
unfoldable pub read_array : ℕ → Run Cursor Bytes
read_array n = do require n; take_bytes n
