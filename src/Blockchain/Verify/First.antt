-- ===== src/Blockchain/Verify/First.antt =====
-- Which block `blockchain_verify` reports.
use theblockchainkiller.Base.{
  ℕ, ◌≡◌, refl, ap, true, false, ◌⊎◌, inl, inr, none, some, List, [], ◌∷◌, ◌++◌, arith,
}
use theblockchainkiller.Runtime.{Outcome, ok}
use theblockchainkiller.Endian.{Host, Bytes}
use theblockchainkiller.Crypto.{OpenSsl}
use theblockchainkiller.Blockchain.{Transaction, Block, Blockchain}
use theblockchainkiller.Block.{block_hash}
use theblockchainkiller.Blockchain.Verify.{
  Verdict, valid, invalid_at, invalid_unreported, check_transactions, check_block, verify_blocks,
  genesis_is_invalid, verify_list, blockchain_verify,
}

-- The verdict at a block: the block is reported, but where its transaction list is empty it may
-- not be.
abbrev Reports : Verdict → Block → Type 0
Reports v b = (v ≡ invalid_at b) ⊎ ((v ≡ invalid_unreported) × (b.transaction_list ≡ []))

module _ (h : Host) (ssl : OpenSsl) where
  check_transactions-Reports :
      (b : Block) (ts : List Transaction) (v : Verdict)
      → b.transaction_list ≡ ts
      → check_transactions h ssl b ts ≡ ok (some v)
      → Reports v b
  unfolding check_transactions
  check_transactions-Reports b [] v e s = inr (ground arith, e)
  check_transactions-Reports b (t ∷ ts) v e s = inl (ground arith)

  check_block-Reports :
      (required : ℕ) (previous : Bytes) (b : Block) (v : Verdict)
      → check_block h ssl required previous b ≡ ok (some v)
      → Reports v b
  unfolding check_block
  check_block-Reports required previous b v e =
      ground (arith, check_transactions-Reports b b.transaction_list v refl)

  -- `blocks` stop with `v` at a block behind `before`, which `verify` accepts.
  pub record Stops (verify : List Block → Outcome Verdict) (blocks : List Block) (v : Verdict)
      : Type 0 where
    pub before : List Block
    pub at : Block
    pub after : List Block
    blocks_split : blocks ≡ before ++ (at ∷ after)
    pub passed : verify before ≡ ok valid
    pub stopped : verify (before ++ (at ∷ [])) ≡ ok v
    pub reports : Reports v at

  verify_blocks-cons :
      (required : ℕ) (previous : Bytes) (b : Block) (bs : List Block) (v : Verdict)
      → verify_blocks h ssl required previous (b ∷ bs) ≡ ok v
      → ((check_block h ssl required previous b ≡ ok none)
          × (verify_blocks h ssl required (block_hash h ssl b) bs ≡ ok v))
        ⊎ (check_block h ssl required previous b ≡ ok (some v))
  unfolding verify_blocks
  verify_blocks-cons required previous b bs v e = ground arith

  verify_blocks-Stops :
      (required : ℕ) (previous : Bytes) (bs : List Block) (v : Verdict)
      → v.is_valid_blockchain ≡ false
      → verify_blocks h ssl required previous bs ≡ ok v
      → Stops (verify_blocks h ssl required previous) bs v
  unfolding verify_blocks
  verify_blocks-Stops required previous [] v f e = absurd (ground arith)
  verify_blocks-Stops required previous (b ∷ bs) v f e =
      elim (verify_blocks-cons required previous b bs v e) [
        | inr stop ↦ record {
          before = [];
          at = b;
          after = bs;
          blocks_split = refl;
          passed = refl;
          stopped = rw stop;
          reports = check_block-Reports required previous b v stop;
        }
        | inl (pass, rest) ↦
            let s = verify_blocks-Stops required (block_hash h ssl b) bs v f rest in
            record {
              before = b ∷ s.before;
              at = s.at;
              after = s.after;
              blocks_split = ap (λ l. b ∷ l) s.blocks_split;
              passed = rw pass s.passed;
              stopped = rw pass s.stopped;
              reports = s.reports;
            }
      ]

  verify_list-cons :
      (required : ℕ) (g : Block) (bs : List Block) (v : Verdict)
      → verify_list h ssl required (g ∷ bs) ≡ ok v
      → ((genesis_is_invalid h ssl g ≡ ok false)
          × (verify_blocks h ssl required (block_hash h ssl g) bs ≡ ok v))
        ⊎ ((genesis_is_invalid h ssl g ≡ ok true) × (v ≡ invalid_at g))
  unfolding verify_list
  verify_list-cons required g bs v e = ground arith

  verify_list-Stops :
      (required : ℕ) (bs : List Block) (v : Verdict)
      → v.is_valid_blockchain ≡ false
      → verify_list h ssl required bs ≡ ok v
      → Stops (verify_list h ssl required) bs v
  unfolding verify_list verify_blocks
  verify_list-Stops required [] v f e = absurd (ground arith)
  verify_list-Stops required (g ∷ bs) v f e = elim (verify_list-cons required g bs v e) [
    | inr (bad, r) ↦ record {
      before = [];
      at = g;
      after = bs;
      blocks_split = refl;
      passed = refl;
      stopped = rw (bad, r);
      reports = inl r;
    }
    | inl (good, rest) ↦
        let s = verify_blocks-Stops required (block_hash h ssl g) bs v f rest in
        record {
          before = g ∷ s.before;
          at = s.at;
          after = s.after;
          blocks_split = ap (λ l. g ∷ l) s.blocks_split;
          passed = rw good s.passed;
          stopped = rw good s.stopped;
          reports = s.reports;
        }
  ]

  -- The same chain with other blocks.
  abbrev pub verify_only : Blockchain → List Block → Outcome Verdict
  verify_only c bs = blockchain_verify h ssl (record c { block_list = bs })

  -- When `blockchain_verify` says that a blockchain is invalid, its blocks split at one such that
  -- the blocks before it are a valid blockchain, and with it added they are not. That block is the
  -- one reported, unless its transaction list is empty: then nothing may be reported.
  pub blockchain_verify-Stops :
      (c : Blockchain) (v : Verdict)
      → blockchain_verify h ssl c ≡ ok v
      → v.is_valid_blockchain ≡ false
      → Stops (verify_only c) c.block_list v
  unfolding blockchain_verify
  blockchain_verify-Stops c v e f = verify_list-Stops _ c.block_list v f e
