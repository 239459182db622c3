-- ===== src/Printing/ReadBack.antt =====
-- What is printed can be read back.
use theblockchainkiller.Base.{
  ℕ, zero, suc, ◌+◌, ◌-◌, ◌*◌, ◌/◌, ◌%◌, ◌^◌, ◌<◌, ◌≡◌, refl, false, List, [], ◌∷◌, ltb, ◌==◌, All,
  arith, if◌then◌else◌, inl, inr, Bool-cases,
}
use theblockchainkiller.Endian.{Bytes}
use theblockchainkiller.Blockchain.{Block, Blockchain}
use theblockchainkiller.Printing.{
  newline, hex_digit, hex_bytes, hash_print, decimal, print_blocks, blockchain_print,
}

-- A reader of numbers in base 16 and of two digits each.
abbrev digit_value : ℕ → ℕ
digit_value c = if ltb c 58 then c - 48 else c - 87

abbrev read_hash : Bytes → Bytes
read_hash [] = []
read_hash (c ∷ []) = []
read_hash (c ∷ d ∷ text) = (digit_value c * 16 + digit_value d) ∷ read_hash text

-- A reader of numbers in base 10, which ignores what follows the dash that ends a number.
abbrev pub read_numbers : ℕ → Bytes → List ℕ
read_numbers n [] = []
read_numbers n (c ∷ text) =
    let more = read_numbers (n * 10 + (c - 48)) text in
    let next = read_numbers 0 text in
    if c == 45 then n ∷ next else if c == 62 then next else if c == newline then [] else more

digit_value-hex_digit : (n : ℕ) → n < 16 → digit_value (hex_digit n) ≡ n
unfolding hex_digit
digit_value-hex_digit n small = ground arith

-- A digest can be read back from what `hash_print` prints.
read_hash-hash_print :
    (digest : Bytes) → All (λ b. b < 2 ^ 8) digest → read_hash (hash_print digest) ≡ digest
unfolding hash_print hex_bytes
read_hash-hash_print [] w = refl
read_hash-hash_print (b ∷ digest) w =
    let whole : b / 16 * 16 + b % 16 ≡ b = omega arith in
    rw
      (
        digit_value-hex_digit (b / 16) (omega arith),
        digit_value-hex_digit (b % 16) (omega arith),
        whole,
        read_hash-hash_print digest w.1,
      )
      refl

-- A digit goes behind the ones that have been read.
read_numbers-digit :
    (n d : ℕ) (rest : Bytes)
    → d < 10
    → read_numbers n ((48 + d) ∷ rest) ≡ read_numbers (n * 10 + d) rest
read_numbers-digit n d rest small =
    let no_dash : ((48 + d) == 45) ≡ false = ground arith in
    let no_arrow : ((48 + d) == 62) ≡ false = ground arith in
    let no_end : ((48 + d) == newline) ≡ false = ground arith in
    let same : 48 + d - 48 ≡ d = omega arith in rw (no_dash, no_arrow, no_end, same) refl

read_numbers-decimal :
    (digits n : ℕ) (rest : Bytes)
    → n < 10 ^ digits
    → read_numbers 0 (decimal digits n rest) ≡ read_numbers n rest
unfolding decimal
read_numbers-decimal zero n rest small = let none_left : n ≡ 0 = omega arith in rw none_left refl
read_numbers-decimal (suc digits) n rest small = elim (Bool-cases (ltb n 10)) [
  | inl e ↦
      let alone : 0 * 10 + n ≡ n = omega arith in
      rw (e, read_numbers-digit 0 n rest (ground arith), alone) refl
  | inr e ↦
      let whole : n / 10 * 10 + n % 10 ≡ n = omega arith in
      rw (e, read_numbers-decimal digits (n / 10) ((48 + n % 10) ∷ rest) (omega arith))
        (rw (read_numbers-digit (n / 10) (n % 10) rest (omega arith), whole) refl)
]

abbrev pub proofs : List Block → List ℕ
proofs [] = []
proofs (b ∷ bs) = b.proof_of_work ∷ proofs bs

-- If each proof of work is a 64-bit number, then `blockchain_print` prints them all and in order:
-- they can be read back from the text.
pub read_numbers-blockchain_print :
    (c : Blockchain)
    → All (λ (b : Block). b.proof_of_work < 2 ^ 64) c.block_list
    → read_numbers 0 (blockchain_print c) ≡ proofs c.block_list
unfolding blockchain_print print_blocks
read_numbers-blockchain_print c = go c.block_list
  where
    go :
        (bs : List Block)
        → All (λ (b : Block). b.proof_of_work < 2 ^ 64) bs
        → read_numbers 0 (print_blocks bs) ≡ proofs bs
    go [] w = refl
    go (b ∷ bs) w =
        rw
          (
            read_numbers-decimal 20 b.proof_of_work (45 ∷ 62 ∷ print_blocks bs) (omega arith),
            go bs w.1,
          )
          refl
