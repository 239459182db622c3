-- ===== src/MiningThread/Extend.antt =====
-- A block that may follow the last one extends a valid blockchain to a valid one.
use theblockchainkiller.Base.{ℕ, ◌≡◌, some, List, [], ◌∷◌, ◌++◌, All-append, arith}
use theblockchainkiller.Endian.{Host}
use theblockchainkiller.Crypto.{OpenSsl}
use theblockchainkiller.Blockchain.{Block, Blockchain, blockchain_add_block}
use theblockchainkiller.Blockchain.Shape.{IsShapedBlock, IsShaped}
use theblockchainkiller.Block.{block_hash}
use theblockchainkiller.Blockchain.Verify.Valid.{IsNext, AreNext, IsValid}
use theblockchainkiller.MiningThread.{last}

module _ (h : Host) (ssl : OpenSsl) where
  AreNext-append :
      (required : ℕ) (g p b : Block) (bs : List Block)
      → last (g ∷ bs) ≡ some p
      → AreNext h ssl required (block_hash h ssl g) bs
      → IsNext h ssl required (block_hash h ssl p) b
      → AreNext h ssl required (block_hash h ssl g) (bs ++ (b ∷ []))
  AreNext-append required g p b [] e a n = let same : g ≡ p = ground arith in (rw same n, tt)
  AreNext-append required g p b (c ∷ bs) e a n = (a.0, AreNext-append required c p b bs e a.1 n)

  pub add_block-IsValid :
      (c : Blockchain) (p b : Block)
      → last c.block_list ≡ some p
      → IsValid h ssl c
      → IsNext h ssl c.num_leading_zero_bytes_required_in_block_hash (block_hash h ssl p) b
      → IsValid h ssl (blockchain_add_block c b)
  unfolding blockchain_add_block
  add_block-IsValid c p b e v n = go c.block_list e v
    where
      go :
          (bs : List Block)
          → last bs ≡ some p
          → IsValid h ssl (record c { block_list = bs })
          → IsValid h ssl (record c { block_list = bs ++ (b ∷ []) })
      go [] e v = cc
      go (g ∷ bs) e v = (v.0, AreNext-append _ g p b bs e v.1 n)

  pub add_block-IsShaped :
      (c : Blockchain) (b : Block)
      → IsShaped c
      → IsShapedBlock b
      → IsShaped (blockchain_add_block c b)
  unfolding blockchain_add_block
  add_block-IsShaped c b w k = All-append IsShapedBlock c.block_list (b ∷ []) w (k, tt)
