-- ===== src/Blockchain/Serialize.antt =====
-- `blockchain_serialize` of src/blockchain.c.
pub mod Cost
use theblockchainkiller.Base.{ℕ, List, [], ◌∷◌, ◌++◌, length}
use theblockchainkiller.Endian.{Host, Bytes}
use theblockchainkiller.Buffer.{Run, pure, ◌>>=◌, ◌>>◌, malloc, be64}
use theblockchainkiller.Blockchain.{Transaction, Block, Blockchain}

module _ (h : Host) where
  -- The bytes that one round of the inner loop writes behind the buffer.
  unfoldable pub transaction_bytes : Transaction → Bytes
  transaction_bytes t =
      be64 h t.created_at
      ++ (t.sender_public_key
          ++ (t.recipient_public_key
              ++ (be64 h t.amount ++ (be64 h t.sender_signature.size ++ t.sender_signature.bytes))))

  -- The fields of a block and the number of its transactions, before the inner loop.
  unfoldable pub block_header_bytes : Block → Bytes
  block_header_bytes b =
      be64 h b.created_at
      ++ (b.previous_block_hash ++ (be64 h b.proof_of_work ++ be64 h (length b.transaction_list)))

  -- The inner loop: `buf` is what is written so far, and each round reallocates it.
  unfoldable pub serialize_transactions : List Transaction → Bytes → Run ℕ Bytes
  serialize_transactions [] buf = pure buf
  serialize_transactions (t ∷ ts) buf = do
    malloc
    serialize_transactions ts (buf ++ transaction_bytes t)

  unfoldable pub serialize_blocks : List Block → Bytes → Run ℕ Bytes
  serialize_blocks [] buf = pure buf
  serialize_blocks (b ∷ bs) buf = do
    malloc
    buf' ← serialize_transactions b.transaction_list (buf ++ block_header_bytes b)
    serialize_blocks bs buf'

  unfoldable pub blockchain_serialize : Blockchain → Run ℕ Bytes
  blockchain_serialize c = do
    malloc
    serialize_blocks c.block_list
        (be64 h c.num_leading_zero_bytes_required_in_block_hash ++ be64 h (length c.block_list))
