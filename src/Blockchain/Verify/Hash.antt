-- ===== src/Blockchain/Verify/Hash.antt =====
-- The two tests of a block hash, the loop in `blockchain_is_valid_block_hash` and the `memcmp` in
-- `blockchain_verify`, against what they mean.
use theblockchainkiller.Base.{
  ℕ, zero, suc, ◌≤◌, ◌≡◌, refl, ◌↔◌, Bool, true, false, length, ◌==◌, if◌then◌else◌, [], ◌∷◌, arith,
  replicate,
}
use theblockchainkiller.Runtime.{ok}
use theblockchainkiller.Endian.{Bytes}
use theblockchainkiller.Memory.{memcmp_differs}
use theblockchainkiller.Blockchain.Verify.{blockchain_is_valid_block_hash}

-- The first `n` bytes are there and are zero.
abbrev pub LeadingZeros : ℕ → Bytes → Type 0
LeadingZeros zero digest = Unit
LeadingZeros (suc n) [] = ⊥
LeadingZeros (suc n) (b ∷ digest) = (b ≡ 0) × LeadingZeros n digest

pub is_valid_block_hash_iff :
    (n : ℕ) (digest : Bytes)
    → (blockchain_is_valid_block_hash n digest ≡ ok true) ↔ LeadingZeros n digest
unfolding blockchain_is_valid_block_hash
is_valid_block_hash_iff zero digest = (λ _. tt, λ _. refl)
is_valid_block_hash_iff (suc n) [] = (λ e. cc, λ z. absurd z)
is_valid_block_hash_iff (suc n) (b ∷ digest) = (
  λ e. ground (arith, is_valid_block_hash_iff n digest),
  λ z. ground (arith, is_valid_block_hash_iff n digest),
)

-- Within the digest the loop returns an answer.
pub is_valid_block_hash-ok :
    (n : ℕ) (digest : Bytes)
    → n ≤ length digest
    → (v : Bool) × (blockchain_is_valid_block_hash n digest ≡ ok v)
unfolding blockchain_is_valid_block_hash
is_valid_block_hash-ok zero digest h = (true, refl)
is_valid_block_hash-ok (suc n) [] h = absurd (omega arith)
is_valid_block_hash-ok (suc n) (b ∷ digest) h =
    let (v, e) = is_valid_block_hash-ok n digest (omega arith) in
    (if b == 0 then v else false, ground (arith, e))

pub memcmp_zero_iff :
    (n k : ℕ) (digest : Bytes)
    → n ≤ k
    → (memcmp_differs digest (replicate k 0) n ≡ ok false) ↔ LeadingZeros n digest
unfolding memcmp_differs
memcmp_zero_iff zero k digest h = (λ _. tt, λ _. refl)
memcmp_zero_iff (suc n) zero digest h = absurd (omega arith)
memcmp_zero_iff (suc n) (suc k) [] h = (λ e. cc, λ z. absurd z)
memcmp_zero_iff (suc n) (suc k) (b ∷ digest) h = (
  λ e. ground (arith, memcmp_zero_iff n k digest),
  λ z. ground (arith, memcmp_zero_iff n k digest),
)
