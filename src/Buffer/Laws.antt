-- ===== src/Buffer/Laws.antt =====
-- What a reader gets from bytes that a writer left, and that its reads stay in the buffer.
use theblockchainkiller.Base.{
  ℕ, ◌^◌, ◌≤◌, ◌<◌, ◌≡◌, refl, ◌++◌, [], ◌∷◌, append-nil, some, arith, length, length-append,
  le→leb,
}
use theblockchainkiller.Runtime.{ok}
use theblockchainkiller.Endian.{Host, Bytes, load, betoh64, from_network}
use theblockchainkiller.Endian.Laws.{length-store, betoh64-htobe64, from_network-to_network}
use theblockchainkiller.Buffer.{
  cursor, require, split, take_bytes, be64, net, read_u64, read_net, read_array,
}

split-append : (xs rest : Bytes) → split (length xs) (xs ++ rest) ≡ some (xs, rest)
unfolding split
split-append [] rest = refl
split-append (x ∷ xs) rest = rw (split-append xs rest, split)

pub split_all : (n : ℕ) (bs : Bytes) → length bs ≡ n → split n bs ≡ some (bs, [])
split_all n bs e = rw (← e) (rw append-nil at (split-append bs []))

module _ (n : ℕ) (xs rest : Bytes) (a : ℕ) (e : length xs ≡ n) where
  pub take_bytes-append : take_bytes n (cursor a (xs ++ rest)) ≡ ok (xs, cursor a rest)
  unfolding take_bytes
  take_bytes-append = rw (← e) (rw (split-append xs rest, take_bytes))

  pub require-append : require n (cursor a (xs ++ rest)) ≡ ok (tt, cursor a (xs ++ rest))
  unfolding require
  require-append = rw (le→leb n (length (xs ++ rest)) (omega (arith, length-append xs rest)))

  pub read_array-append : read_array n (cursor a (xs ++ rest)) ≡ ok (xs, cursor a rest)
  unfolding read_array
  read_array-append = rw (require-append, take_bytes-append)

pub require_enough :
    (n a : ℕ) (bs : Bytes) → n ≤ length bs → require n (cursor a bs) ≡ ok (tt, cursor a bs)
unfolding require
require_enough n a bs h = rw (le→leb n (length bs) h)

module _ (h : Host) where
  pub length-be64 : (x : ℕ) → length (be64 h x) ≡ 8
  unfolding be64
  length-be64 x = length-store h 8 _

  pub length-net : (n x : ℕ) → length (net h n x) ≡ n
  unfolding net
  length-net n x = length-store h n _

  betoh64-be64 : (from : Host) (x : ℕ) → x < 2 ^ 64 → betoh64 h (load h (be64 from x)) ≡ x
  unfolding be64
  betoh64-be64 from x b = betoh64-htobe64 from h x b

  from_network-net :
      (from : Host) (n x : ℕ) → x < 256 ^ n → from_network h n (load h (net from n x)) ≡ x
  unfolding net
  from_network-net from n x b = from_network-to_network from h n x b

module _ (h from : Host) where
  -- What any host wrote, any other reads back.
  pub read_u64-be64 :
      (x a : ℕ) (rest : Bytes)
      → x < 2 ^ 64
      → read_u64 h (cursor a (be64 from x ++ rest)) ≡ ok (x, cursor a rest)
  unfolding read_u64
  read_u64-be64 x a rest b = rw (
    require-append 8 (be64 from x) rest a (length-be64 from x),
    take_bytes-append 8 (be64 from x) rest a (length-be64 from x),
    betoh64-be64 h from x b,
  )

  pub read_net-net :
      (n x a : ℕ) (rest : Bytes)
      → x < 256 ^ n
      → read_net h n (cursor a (net from n x ++ rest)) ≡ ok (x, cursor a rest)
  unfolding read_net
  read_net-net n x a rest b = rw (
    require-append n (net from n x) rest a (length-net from n x),
    take_bytes-append n (net from n x) rest a (length-net from n x),
    from_network-net h from n x b,
  )
