-- ===== src/Blockchain.antt =====
-- The structs of include/transaction.h, include/block.h and include/blockchain.h. A linked list is
-- the list of what its nodes hold.
pub mod Serialize
pub mod Deserialize
pub mod Format
pub mod Shape
pub mod RoundTrip
pub mod File
pub mod Verify
pub mod Mine
use theblockchainkiller.Base.{ℕ, List, ◌++◌, [], ◌∷◌}
use theblockchainkiller.Endian.{Bytes}
use theblockchainkiller.Crypto.{Signature}
use theblockchainkiller.Buffer.{Run, pure, ◌>>◌, malloc}

pub record Transaction : Type 0 where
  pub created_at : ℕ
  pub sender_public_key : Bytes
  pub recipient_public_key : Bytes
  pub amount : ℕ
  pub sender_signature : Signature

pub record Block : Type 0 where
  pub created_at : ℕ
  pub transaction_list : List Transaction
  pub proof_of_work : ℕ
  pub previous_block_hash : Bytes

pub record Blockchain : Type 0 where
  pub block_list : List Block
  pub num_leading_zero_bytes_required_in_block_hash : ℕ

abbrev pub genesis_block_proof_of_work : ℕ
genesis_block_proof_of_work = 2017

unfoldable pub blockchain_create : ℕ → Run ℕ Blockchain
blockchain_create num_leading_zero_bytes_required_in_block_hash = do
  malloc
  malloc
  pure (record {
    block_list = [];
    num_leading_zero_bytes_required_in_block_hash = num_leading_zero_bytes_required_in_block_hash;
  })

-- `linked_list_append(blockchain->block_list, block)`
unfoldable pub blockchain_add_block : Blockchain → Block → Blockchain
blockchain_add_block c b = record c { block_list = c.block_list ++ (b ∷ []) }
