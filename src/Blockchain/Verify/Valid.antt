-- ===== src/Blockchain/Verify/Valid.antt =====
-- What a valid blockchain is, independent of how `blockchain_verify` goes through it.
use theblockchainkiller.Base.{ℕ, ◌≡◌, true, List, [], ◌∷◌, All}
use theblockchainkiller.Runtime.{ok}
use theblockchainkiller.Endian.{Host, Bytes}
use theblockchainkiller.Crypto.{OpenSsl}
use theblockchainkiller.Blockchain.{Transaction, Block, Blockchain, genesis_block_proof_of_work}
use theblockchainkiller.Transaction.{amount_generated_during_minting, transaction_verify_signature}
use theblockchainkiller.Block.{zero_hash, block_hash}
use theblockchainkiller.Blockchain.Verify.Hash.{LeadingZeros}

-- The first transaction of a block pays the fixed amount to its sender.
abbrev pub Minted : List Transaction → Type 0
Minted [] = ⊥
Minted (t ∷ ts) =
    (t.amount ≡ amount_generated_during_minting) × (t.sender_public_key ≡ t.recipient_public_key)

pub record IsGenesis (g : Block) : Type 0 where
  pub no_transaction : g.transaction_list ≡ []
  pub proof : g.proof_of_work ≡ genesis_block_proof_of_work
  pub no_previous : g.previous_block_hash ≡ zero_hash

module _ (h : Host) (ssl : OpenSsl) where
  abbrev pub IsSigned : Transaction → Type 0
  IsSigned t = transaction_verify_signature h ssl t ≡ ok true

  -- A block that may follow one with the hash `previous`.
  pub record IsNext (required : ℕ) (previous : Bytes) (b : Block) : Type 0 where
    pub leading : LeadingZeros required (block_hash h ssl b)
    pub linked : b.previous_block_hash ≡ previous
    pub minted : Minted b.transaction_list
    pub signed : All IsSigned b.transaction_list

  abbrev pub AreNext : ℕ → Bytes → List Block → Type 0
  AreNext required previous [] = Unit
  AreNext required previous (b ∷ bs) =
      IsNext required previous b × AreNext required (block_hash h ssl b) bs

  abbrev pub IsValidList : ℕ → List Block → Type 0
  IsValidList required [] = Unit
  IsValidList required (g ∷ bs) = IsGenesis g × AreNext required (block_hash h ssl g) bs

  abbrev pub IsValid : Blockchain → Type 0
  IsValid c = IsValidList c.num_leading_zero_bytes_required_in_block_hash c.block_list
