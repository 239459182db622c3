-- ===== src/Blockchain/Verify.antt =====
-- `blockchain_verify` and `blockchain_is_valid_block_hash` of src/blockchain.c.
pub mod Hash
pub mod Valid
pub mod Check
pub mod First
pub mod Accepts
use theblockchainkiller.Base.{
  ℕ, zero, suc, Bool, true, false, not, ◌||◌, Option, none, some, List, [], ◌∷◌, ◌==◌,
  if◌then◌else◌,
}
use theblockchainkiller.Runtime.{Outcome, ok, fault, ◌>>=◌}
use theblockchainkiller.Endian.{Host, Bytes}
use theblockchainkiller.Crypto.{OpenSsl, max_ssh_key_length, sha256_digest_length}
use theblockchainkiller.Memory.{memcmp_differs}
use theblockchainkiller.Blockchain.{Transaction, Block, Blockchain, genesis_block_proof_of_work}
use theblockchainkiller.Transaction.{amount_generated_during_minting, transaction_verify_signature}
use theblockchainkiller.Block.{zero_hash, block_hash}

-- The loop over the first `n` bytes of the digest; an index past its end is undefined.
unfoldable pub blockchain_is_valid_block_hash : ℕ → Bytes → Outcome Bool
blockchain_is_valid_block_hash zero digest = ok true
blockchain_is_valid_block_hash (suc n) [] = fault
blockchain_is_valid_block_hash (suc n) (b ∷ digest) =
    let rest = blockchain_is_valid_block_hash n digest in if b == 0 then rest else ok false

-- What a call that returns SUCCESS writes: `*is_valid_blockchain`, and `*first_invalid_block`
-- unless that is left as it was.
pub record Verdict : Type 0 where
  pub is_valid_blockchain : Bool
  pub first_invalid_block : Option Block

abbrev pub valid : Verdict
valid = record { is_valid_blockchain = true; first_invalid_block = none }

abbrev pub invalid_at : Block → Verdict
invalid_at b = record { is_valid_blockchain = false; first_invalid_block = some b }

-- The branch for a block with no transaction does not write the block.
abbrev pub invalid_unreported : Verdict
invalid_unreported = record { is_valid_blockchain = false; first_invalid_block = none }

module _ (h : Host) (ssl : OpenSsl) where
  -- The loop over the transactions of a block: whether all signatures are valid.
  unfoldable pub verify_signatures : List Transaction → Outcome Bool
  verify_signatures [] = ok true
  verify_signatures (t ∷ ts) = do
    is_valid_signature ← transaction_verify_signature h ssl t
    let rest = verify_signatures ts
    if is_valid_signature then rest else ok false

  -- `AMOUNT_GENERATED_DURING_MINTING != amount || 0 != memcmp(sender, recipient, …)`
  unfoldable pub minting_is_invalid : Transaction → Outcome Bool
  minting_is_invalid t =
      if t.amount == amount_generated_during_minting
      then memcmp_differs t.sender_public_key t.recipient_public_key max_ssh_key_length
      else ok true

  -- From the test that the transaction list is empty on.
  unfoldable pub check_transactions : Block → List Transaction → Outcome (Option Verdict)
  check_transactions b [] = ok (some invalid_unreported)
  check_transactions b (t ∷ ts) = do
    bad_minting ← minting_is_invalid t
    let checked = do
      signed ← verify_signatures (t ∷ ts)
      ok (if signed then none else some (invalid_at b))
    if bad_minting then ok (some (invalid_at b)) else checked

  -- One round of the loop over the blocks behind the genesis block: `none` where it goes on.
  unfoldable pub check_block : ℕ → Bytes → Block → Outcome (Option Verdict)
  check_block required previous_block_hash b = do
    bad_hash ← memcmp_differs (block_hash h ssl b) zero_hash required
    let checked = do
      bad_link ← memcmp_differs b.previous_block_hash previous_block_hash sha256_digest_length
      if bad_link then ok (some (invalid_at b)) else check_transactions b b.transaction_list
    if bad_hash then ok (some (invalid_at b)) else checked

  unfoldable pub verify_blocks : ℕ → Bytes → List Block → Outcome Verdict
  verify_blocks required previous_block_hash [] = ok valid
  verify_blocks required previous_block_hash (b ∷ bs) = do
    r ← check_block required previous_block_hash b
    elim r [ some v ↦ ok v | none ↦ verify_blocks required (block_hash h ssl b) bs ]

  -- The test of the genesis block.
  unfoldable pub genesis_is_invalid : Block → Outcome Bool
  genesis_is_invalid g = elim g.transaction_list [
    | t ∷ ts ↦ ok true
    | [] ↦
        if g.proof_of_work == genesis_block_proof_of_work
        then memcmp_differs g.previous_block_hash zero_hash sha256_digest_length
        else ok true
  ]

  unfoldable pub verify_list : ℕ → List Block → Outcome Verdict
  verify_list required [] = ok valid
  verify_list required (g ∷ bs) = do
    bad_genesis ← genesis_is_invalid g
    if bad_genesis then ok (invalid_at g) else verify_blocks required (block_hash h ssl g) bs

  unfoldable pub blockchain_verify : Blockchain → Outcome Verdict
  blockchain_verify c = verify_list c.num_leading_zero_bytes_required_in_block_hash c.block_list
