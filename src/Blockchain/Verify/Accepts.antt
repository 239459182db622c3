-- ===== src/Blockchain/Verify/Accepts.antt =====
-- When `blockchain_verify` says that a blockchain is valid, it reports no block.
use theblockchainkiller.Base.{ℕ, ◌≡◌, true, List, [], ◌∷◌, arith}
use theblockchainkiller.Runtime.{ok}
use theblockchainkiller.Endian.{Host, Bytes}
use theblockchainkiller.Crypto.{OpenSsl}
use theblockchainkiller.Blockchain.{Block, Blockchain}
use theblockchainkiller.Block.{block_hash}
use theblockchainkiller.Blockchain.Verify.{
  Verdict, valid, verify_blocks, verify_list, blockchain_verify,
}
use theblockchainkiller.Blockchain.Verify.Check.{check_block_rejects}

module _ (h : Host) (ssl : OpenSsl) where
  verify_blocks-valid :
      (required : ℕ) (previous : Bytes) (bs : List Block) (v : Verdict)
      → verify_blocks h ssl required previous bs ≡ ok v
      → v.is_valid_blockchain ≡ true
      → v ≡ valid
  unfolding verify_blocks
  verify_blocks-valid required previous [] v e t = ground arith
  verify_blocks-valid required previous (b ∷ bs) v e t = ground (
    arith,
    check_block_rejects h ssl required previous b v,
    verify_blocks-valid required (block_hash h ssl b) bs v,
  )

  verify_list-valid :
      (required : ℕ) (bs : List Block) (v : Verdict)
      → verify_list h ssl required bs ≡ ok v
      → v.is_valid_blockchain ≡ true
      → v ≡ valid
  unfolding verify_list
  verify_list-valid required [] v e t = ground arith
  verify_list-valid required (g ∷ bs) v e t =
      ground (arith, verify_blocks-valid required (block_hash h ssl g) bs v)

  pub blockchain_verify-valid :
      (c : Blockchain) (v : Verdict)
      → blockchain_verify h ssl c ≡ ok v
      → v.is_valid_blockchain ≡ true
      → v ≡ valid
  unfolding blockchain_verify
  blockchain_verify-valid c v e t = verify_list-valid _ c.block_list v e t
