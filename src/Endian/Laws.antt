-- ===== src/Endian/Laws.antt =====
-- The conversions of src/endian.c undo each other, on every host and between hosts.
use theblockchainkiller.Base.{
  ℕ, zero, suc, ◌*◌, ◌/◌, ◌%◌, ◌^◌, ◌<◌, ◌≡◌, refl, ap, ◌∙◌, bit_or, [], ◌∷◌, reverse, arith,
  length, length-append, All, All-append, reverse-cons, bit_or-disjoint,
}
use theblockchainkiller.Endian.{
  Host, little, big, IsByte, Bytes, low_first, value, store, load, shifted_bytes, joined_bytes,
  htobe64, betoh64, to_network, from_network,
}
use mathlib.Core.List.{reverse-reverse}
use native.Mathlib.Nat.{pow-suc}

length-low_first : (n x : ℕ) → length (low_first n x) ≡ n
unfolding low_first
length-low_first zero x = refl
length-low_first (suc n) x = ap suc (length-low_first n (x / 256))

low_first-IsByte : (n x : ℕ) → All IsByte (low_first n x)
unfolding low_first
low_first-IsByte zero x = tt
low_first-IsByte (suc n) x = (omega arith, low_first-IsByte n (x / 256))

low_first-value : (n : ℕ) (bs : Bytes) → length bs ≡ n → All IsByte bs → low_first n (value bs) ≡ bs
unfolding low_first value
low_first-value zero [] e h = refl
low_first-value zero (b ∷ bs) e h = absurd (omega arith)
low_first-value (suc n) [] e h = absurd (omega arith)
low_first-value (suc n) (b ∷ bs) e h = ground (arith, low_first-value n bs (omega arith) h.1)

value-low_first : (n x : ℕ) → x < 256 ^ n → value (low_first n x) ≡ x
unfolding low_first value
value-low_first zero x h = omega arith
value-low_first (suc n) x h =
    omega (arith, pow-suc 256 n, value-low_first n (x / 256) (omega (arith, pow-suc 256 n)))

length-reverse : (bs : Bytes) → length (reverse bs) ≡ length bs
length-reverse [] = refl
length-reverse (b ∷ bs) =
    rw (reverse-cons b bs) (omega (arith, length-append (reverse bs) (b ∷ []), length-reverse bs))

reverse-IsByte : (bs : Bytes) → All IsByte bs → All IsByte (reverse bs)
reverse-IsByte [] h = tt
reverse-IsByte (b ∷ bs) h =
    rw (reverse-cons b bs)
      (All-append IsByte (reverse bs) (b ∷ []) (reverse-IsByte bs h.1) (h.0, tt))

pub length-store : (h : Host) (n x : ℕ) → length (store h n x) ≡ n
unfolding store
length-store little n x = length-low_first n x
length-store big n x = length-reverse (low_first n x) ∙ length-low_first n x

store-IsByte : (h : Host) (n x : ℕ) → All IsByte (store h n x)
unfolding store
store-IsByte little n x = low_first-IsByte n x
store-IsByte big n x = reverse-IsByte _ (low_first-IsByte n x)

-- A store after a load of `n` bytes writes the same bytes.
store-load :
    (h : Host) (n : ℕ) (bs : Bytes) → length bs ≡ n → All IsByte bs → store h n (load h bs) ≡ bs
unfolding store load
store-load little n bs e b = low_first-value n bs e b
store-load big n bs e b =
    rw (low_first-value n (reverse bs) (length-reverse bs ∙ e) (reverse-IsByte bs b))
      (reverse-reverse bs)

-- A load of what a store left gives the stored number.
pub load-store : (h : Host) (n x : ℕ) → x < 256 ^ n → load h (store h n x) ≡ x
unfolding store load
load-store little n x b = value-low_first n x b
load-store big n x b = rw (reverse-reverse (low_first n x)) (value-low_first n x b)

shifted_bytes-store : (x : ℕ) → shifted_bytes x ≡ store big 8 x
unfolding shifted_bytes store low_first
shifted_bytes-store x = ground (arith)

-- One assignment `decoded |= …` adds the next byte below the bits that are there.
abbrev step : ℕ → ℕ → ℕ → ℕ
step x k s = bit_or (x / 2 ^ k * 2 ^ k) (x / 2 ^ s % 256 * 2 ^ s)

joined_bytes-shifted : (x : ℕ) → x < 2 ^ 64 → joined_bytes (shifted_bytes x) ≡ x
unfolding joined_bytes shifted_bytes
joined_bytes-shifted x h = rw (s0, s1, s2, s3, s4, s5, s6, s7) (omega arith)
  where
    s0 : bit_or 0 (x / 2 ^ 56 % 256 * 2 ^ 56) ≡ x / 2 ^ 56 * 2 ^ 56
    s0 = omega (arith, bit_or-disjoint 64 0 (x / 2 ^ 56 % 256 * 2 ^ 56) (omega arith))

    s1 : step x 56 48 ≡ x / 2 ^ 48 * 2 ^ 48
    s1 = omega (arith, bit_or-disjoint 56 (x / 2 ^ 56) (x / 2 ^ 48 % 256 * 2 ^ 48) (omega arith))

    s2 : step x 48 40 ≡ x / 2 ^ 40 * 2 ^ 40
    s2 = omega (arith, bit_or-disjoint 48 (x / 2 ^ 48) (x / 2 ^ 40 % 256 * 2 ^ 40) (omega arith))

    s3 : step x 40 32 ≡ x / 2 ^ 32 * 2 ^ 32
    s3 = omega (arith, bit_or-disjoint 40 (x / 2 ^ 40) (x / 2 ^ 32 % 256 * 2 ^ 32) (omega arith))

    s4 : step x 32 24 ≡ x / 2 ^ 24 * 2 ^ 24
    s4 = omega (arith, bit_or-disjoint 32 (x / 2 ^ 32) (x / 2 ^ 24 % 256 * 2 ^ 24) (omega arith))

    s5 : step x 24 16 ≡ x / 2 ^ 16 * 2 ^ 16
    s5 = omega (arith, bit_or-disjoint 24 (x / 2 ^ 24) (x / 2 ^ 16 % 256 * 2 ^ 16) (omega arith))

    s6 : step x 16 8 ≡ x / 2 ^ 8 * 2 ^ 8
    s6 = omega (arith, bit_or-disjoint 16 (x / 2 ^ 16) (x / 2 ^ 8 % 256 * 2 ^ 8) (omega arith))

    s7 : step x 8 0 ≡ x / 2 ^ 0 * 2 ^ 0
    s7 = omega (arith, bit_or-disjoint 8 (x / 2 ^ 8) (x / 2 ^ 0 % 256 * 2 ^ 0) (omega arith))

store-load_shifted : (h : Host) (x : ℕ) → store h 8 (load h (shifted_bytes x)) ≡ shifted_bytes x
store-load_shifted h x =
    rw (shifted_bytes-store x)
      (store-load h 8 (store big 8 x) (length-store big 8 x) (store-IsByte big 8 x))

-- Storing what `htobe64` returns leaves the bytes of the number in network order, on every host.
store-htobe64 : (h : Host) (x : ℕ) → store h 8 (htobe64 h x) ≡ shifted_bytes x
unfolding htobe64
store-htobe64 h x = store-load_shifted h x

-- A host that loads eight bytes in network order and converts gets the number.
betoh64-load_shifted : (h : Host) (x : ℕ) → x < 2 ^ 64 → betoh64 h (load h (shifted_bytes x)) ≡ x
unfolding betoh64
betoh64-load_shifted h x b = rw (store-load_shifted h x) (joined_bytes-shifted x b)

-- A 64-bit number in network order that one host loads and converts is the number that another
-- converted and stored.
pub betoh64-htobe64 :
    (from to : Host) (x : ℕ) → x < 2 ^ 64 → betoh64 to (load to (store from 8 (htobe64 from x))) ≡ x
betoh64-htobe64 from to x h = rw (store-htobe64 from x) (betoh64-load_shifted to x h)

-- The same for the C library's conversions of `n`-byte integers.
pub from_network-to_network :
    (from to : Host) (n x : ℕ)
    → x < 256 ^ n
    → from_network to n (load to (store from n (to_network from n x))) ≡ x
unfolding from_network to_network
from_network-to_network from to n x h =
    rw
      (
        store-load from n (store big n x) (length-store big n x) (store-IsByte big n x),
        store-load to n (store big n x) (length-store big n x) (store-IsByte big n x),
      )
      (load-store big n x h)
