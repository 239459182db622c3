-- ===== src/MiningThread/Loop.antt =====
-- What the other threads share with `mine_blocks`, and what a round makes of it, is valid.
use theblockchainkiller.Base.{
  ◌≤◌, ◌≡◌, refl, ◌∙◌, Bool, true, false, Option, none, some, inl, inr, arith, length,
  if◌then◌else◌, ℕ,
}
use theblockchainkiller.Runtime.{pthread_function, Outcome, ok, err}
use theblockchainkiller.Endian.{Host, Bytes}
use theblockchainkiller.Crypto.{OpenSsl, max_ssh_key_length, sha256_digest_length}
use theblockchainkiller.Blockchain.{Block, Blockchain, blockchain_add_block}
use theblockchainkiller.Blockchain.Shape.{IsShaped}
use theblockchainkiller.Blockchain.Verify.Valid.{IsValid}
use theblockchainkiller.Transaction.Signing.{KeyPair}
use theblockchainkiller.MiningThread.{Mining, take_blockchain}
use theblockchainkiller.MiningThread.Valid.{Extended}

module _ (h : Host) (ssl : OpenSsl) (zeros : ℕ) where
  -- A valid blockchain of a given difficulty.
  pub record IsMineable (c : Blockchain) : Type 0 where
    pub is_valid : IsValid h ssl c
    pub is_shaped : IsShaped c
    pub same_zeros : c.num_leading_zero_bytes_required_in_block_hash ≡ zeros

  abbrev Switches : Option Blockchain → Type 0
  Switches none = Unit
  Switches (some d) = IsMineable d

  -- The other threads only ever share valid blockchains of that difficulty.
  pub record IsFair (m : Mining) : Type 0 where
    pub switches : Switches m.switched
    pub synced_zeros : m.synced.num_leading_zero_bytes_required_in_block_hash ≡ zeros

  pub take_blockchain-IsMineable :
      (m : Mining) (c d : Blockchain)
      → IsFair m
      → IsMineable c
      → take_blockchain m c ≡ ok d
      → IsMineable d
  unfolding take_blockchain
  take_blockchain-IsMineable m c d f w e = go m.switched m.switch_locked f.switches e
    where
      go :
          (o : Option Blockchain) (b : Bool)
          → Switches o
          → elim o as (λ _. Outcome Blockchain) [
            | none ↦ ok c
            | some d' ↦ if b then ok d' else err pthread_function
          ]
            ≡ ok d
          → IsMineable d
      go none b s e = let same : c ≡ d = ground arith in rw (← same) w
      go (some d') true s e = let same : d' ≡ d = ground arith in rw (← same) s
      go (some d') false s e = cc

  zeros-add_block :
      (c : Blockchain) (b : Block)
      → (blockchain_add_block c b).num_leading_zero_bytes_required_in_block_hash
        ≡ c.num_leading_zero_bytes_required_in_block_hash
  unfolding blockchain_add_block
  zeros-add_block c b = refl

  module _ (public_key private_key : Bytes) (in_digest : zeros ≤ sha256_digest_length)
      (pair : KeyPair ssl private_key public_key)
      (key_fits : length public_key ≡ max_ssh_key_length) where
    pub Extended-IsMineable :
        (c c' : Blockchain)
        → Extended h ssl public_key private_key c c'
        → IsMineable c
        → IsMineable c'
    Extended-IsMineable c c' e w = record {
      is_valid = e.is_valid;
      is_shaped = e.is_shaped;
      same_zeros = elim e.grown [
        | inl kept ↦ rw kept w.same_zeros
        | inr (b, added) ↦ rw added (zeros-add_block c b ∙ w.same_zeros)
      ];
    }
