-- ===== src/Printing.antt =====
-- `hash_print` of src/hash.c and `blockchain_print` of src/blockchain.c: what they write to the
-- standard output, as the codes of its characters.
pub mod ReadBack
use theblockchainkiller.Base.{ℕ, zero, suc, ◌+◌, ◌/◌, ◌%◌, List, [], ◌∷◌, ◌++◌, ltb, if◌then◌else◌}
use theblockchainkiller.Endian.{Bytes}
use theblockchainkiller.Blockchain.{Block, Blockchain}

abbrev pub newline : ℕ
newline = 10

-- A digit of a number in base 16, with small letters.
unfoldable pub hex_digit : ℕ → ℕ
hex_digit n = if ltb n 10 then 48 + n else 87 + n

-- The loop over the digest, with `printf("%02hhx")`.
unfoldable pub hex_bytes : Bytes → Bytes
hex_bytes [] = newline ∷ []
hex_bytes (b ∷ digest) = hex_digit (b / 16) ∷ hex_digit (b % 16) ∷ hex_bytes digest

unfoldable pub hash_print : Bytes → Bytes
hash_print digest = hex_bytes digest

-- `printf("%"PRIu64)` in front of other characters: a 64-bit number has 20 digits at most.
unfoldable pub decimal : (digits n : ℕ) → Bytes → Bytes
decimal zero n rest = rest
decimal (suc digits) n rest =
    let longer = decimal digits (n / 10) ((48 + n % 10) ∷ rest) in
    if ltb n 10 then (48 + n) ∷ rest else longer

-- The loop over the blocks.
unfoldable pub print_blocks : List Block → Bytes
print_blocks [] = newline ∷ []
print_blocks (b ∷ bs) = decimal 20 b.proof_of_work (45 ∷ 62 ∷ print_blocks bs)

unfoldable pub blockchain_print : Blockchain → Bytes
blockchain_print c = print_blocks c.block_list
