-- ===== src/Blockchain/Deserialize.antt =====
-- `blockchain_deserialize` of src/blockchain.c.
pub mod Reads
pub mod Shaped
pub mod Overread
use theblockchainkiller.Base.{ℕ, zero, suc, List, [], ◌∷◌, ◌++◌, leb}
use theblockchainkiller.Runtime.{signature_too_long}
use theblockchainkiller.Endian.{Host}
use theblockchainkiller.Crypto.{max_ssh_key_length, max_ssh_signature_length, sha256_digest_length}
use theblockchainkiller.Buffer.{
  Cursor, Run, pure, ◌>>=◌, ◌>>◌, guard, allocate, require, take_bytes, read_u64, read_array,
}
use theblockchainkiller.Blockchain.{Transaction, Block, Blockchain, blockchain_add_block}

module _ (h : Host) where
  -- One round of the inner loop. The length of the signature is tested against
  -- MAX_SSH_KEY_LENGTH, that many bytes are asked of the buffer, and the loop behind it copies
  -- `sizeof(sender_signature.bytes)` bytes.
  pub read_transaction : Run Cursor Transaction
  read_transaction = do
    allocate
    created_at ← read_u64 h
    sender ← read_array max_ssh_key_length
    recipient ← read_array max_ssh_key_length
    amount ← read_u64 h
    size ← read_u64 h
    guard (leb size max_ssh_key_length) signature_too_long
    require size
    bytes ← take_bytes max_ssh_signature_length
    pure (record {
      created_at = created_at;
      sender_public_key = sender;
      recipient_public_key = recipient;
      amount = amount;
      sender_signature = record { size = size; bytes = bytes };
    })

  -- `num_transactions` rounds. Each allocates the node that `linked_list_append` adds.
  unfoldable pub read_transactions : ℕ → List Transaction → Run Cursor (List Transaction)
  read_transactions zero ts = pure ts
  read_transactions (suc n) ts = do
    t ← read_transaction
    allocate
    read_transactions n (ts ++ (t ∷ []))

  -- One round of the outer loop, up to the call of `blockchain_add_block`: the allocations are
  -- the transaction list's and the block's.
  unfoldable pub read_block : Run Cursor Block
  read_block = do
    created_at ← read_u64 h
    hash ← read_array sha256_digest_length
    proof ← read_u64 h
    num_transactions ← read_u64 h
    allocate
    ts ← read_transactions num_transactions []
    allocate
    pure (record {
      created_at = created_at;
      transaction_list = ts;
      proof_of_work = proof;
      previous_block_hash = hash;
    })

  unfoldable pub read_blocks : ℕ → Blockchain → Run Cursor Blockchain
  read_blocks zero c = pure c
  read_blocks (suc n) c = do b ← read_block; allocate; read_blocks n (blockchain_add_block c b)

  -- `blockchain_create` allocates the blockchain and its list.
  unfoldable pub blockchain_deserialize : Run Cursor Blockchain
  blockchain_deserialize = do
    zeros ← read_u64 h
    allocate
    allocate
    num_blocks ← read_u64 h
    read_blocks num_blocks
        (record { block_list = []; num_leading_zero_bytes_required_in_block_hash = zeros })
