-- ===== src/Endian.antt =====
-- src/endian.c: the conversions between host and network byte order. An unsigned integer of `n`
-- bytes in memory is its object representation, a list of bytes, whose order is the host's.
pub mod Laws
use theblockchainkiller.Base.{
  ℕ, zero, suc, ◌+◌, ◌*◌, ◌/◌, ◌%◌, ◌^◌, ◌<◌, bit_or, List, [], ◌∷◌, reverse,
}

-- The byte order of the machine that runs the code.
pub data Host : Type 0 where
  little big : Host

abbrev pub IsByte : ℕ → Type 0
IsByte b = b < 256

abbrev pub Bytes : Type 0
Bytes = List ℕ

-- The `n` lowest digits of `x` to base 256, the lowest first.
unfoldable pub low_first : ℕ → ℕ → Bytes
low_first zero x = []
low_first (suc n) x = (x % 256) ∷ low_first n (x / 256)

unfoldable pub value : Bytes → ℕ
value [] = 0
value (b ∷ bs) = b + 256 * value bs

-- What a store of an `n`-byte integer leaves in memory, and what a load from these bytes gives.
unfoldable pub store : Host → ℕ → ℕ → Bytes
store little n x = low_first n x
store big n x = reverse (low_first n x)

unfoldable pub load : Host → Bytes → ℕ
load little bs = value bs
load big bs = value (reverse bs)

-- `p[i]`, for `i` in range.
abbrev at : Bytes → ℕ → ℕ
at [] i = 0
at (b ∷ bs) zero = b
at (b ∷ bs) (suc i) = at bs i

-- The bytes that the eight assignments `p[i] = data >> …` leave; the conversion to `uint8_t` is
-- `% 256`.
unfoldable pub shifted_bytes : ℕ → Bytes
shifted_bytes x =
    (x / 2 ^ 56 % 256)
    ∷ (x / 2 ^ 48 % 256)
    ∷ (x / 2 ^ 40 % 256)
    ∷ (x / 2 ^ 32 % 256)
    ∷ (x / 2 ^ 24 % 256)
    ∷ (x / 2 ^ 16 % 256)
    ∷ (x / 2 ^ 8 % 256)
    ∷ (x / 2 ^ 0 % 256)
    ∷ []

-- The value of `decoded` after the eight assignments `decoded |= (uint64_t)p[i] << …`. A byte
-- shifted by at most 56 stays below 2 ^ 64.
unfoldable pub joined_bytes : Bytes → ℕ
joined_bytes p =
    let d0 = bit_or 0 (at p 0 * 2 ^ 56) in
    let d1 = bit_or d0 (at p 1 * 2 ^ 48) in
    let d2 = bit_or d1 (at p 2 * 2 ^ 40) in
    let d3 = bit_or d2 (at p 3 * 2 ^ 32) in
    let d4 = bit_or d3 (at p 4 * 2 ^ 24) in
    let d5 = bit_or d4 (at p 5 * 2 ^ 16) in
    let d6 = bit_or d5 (at p 6 * 2 ^ 8) in bit_or d6 (at p 7 * 2 ^ 0)

unfoldable pub htobe64 : Host → ℕ → ℕ
htobe64 h x = load h (shifted_bytes x)

unfoldable pub betoh64 : Host → ℕ → ℕ
betoh64 h x = joined_bytes (store h 8 x)

-- The C library's `htonl` and `ntohl`, `htons` and `ntohs`: an integer of `n` bytes whose object
-- representation has the highest byte first.
unfoldable pub to_network : Host → ℕ → ℕ → ℕ
to_network h n x = load h (store big n x)

unfoldable pub from_network : Host → ℕ → ℕ → ℕ
from_network h n x = load big (store h n x)
