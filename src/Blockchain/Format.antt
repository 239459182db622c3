-- ===== src/Blockchain/Format.antt =====
-- The byte format of a blockchain, independent of how src/blockchain.c writes and reads it, and
-- the blockchains that the C types can hold.
use theblockchainkiller.Base.{ℕ, ◌+◌, ◌*◌, ◌^◌, ◌≤◌, ◌<◌, ◌≡◌, List, [], ◌∷◌, ◌++◌, length, All}
use theblockchainkiller.Endian.{Host, Bytes}
use theblockchainkiller.Crypto.{max_ssh_key_length, max_ssh_signature_length, sha256_digest_length}
use theblockchainkiller.Buffer.{be64}
use theblockchainkiller.Blockchain.{Transaction, Block, Blockchain}
use theblockchainkiller.Blockchain.Serialize.{transaction_bytes, block_header_bytes}

module _ (h : Host) where
  unfoldable pub transactions_bytes : List Transaction → Bytes
  transactions_bytes [] = []
  transactions_bytes (t ∷ ts) = transaction_bytes h t ++ transactions_bytes ts

  unfoldable pub blocks_bytes : List Block → Bytes
  blocks_bytes [] = []
  blocks_bytes (b ∷ bs) =
      block_header_bytes h b ++ (transactions_bytes b.transaction_list ++ blocks_bytes bs)

  unfoldable pub chain_bytes : Blockchain → Bytes
  chain_bytes c =
      be64 h c.num_leading_zero_bytes_required_in_block_hash
      ++ (be64 h (length c.block_list) ++ blocks_bytes c.block_list)

pub record IsTransaction (t : Transaction) : Type 0 where
  pub created_at_fits : t.created_at < 2 ^ 64
  pub sender_fits : length t.sender_public_key ≡ max_ssh_key_length
  pub recipient_fits : length t.recipient_public_key ≡ max_ssh_key_length
  pub amount_fits : t.amount < 2 ^ 64
  pub signature_fits : t.sender_signature.size ≤ max_ssh_signature_length
  pub signature_array : length t.sender_signature.bytes ≡ max_ssh_signature_length

pub record IsBlock (b : Block) : Type 0 where
  pub created_at_fits : b.created_at < 2 ^ 64
  pub transactions : All IsTransaction b.transaction_list
  pub count_fits : length b.transaction_list < 2 ^ 64
  pub proof_fits : b.proof_of_work < 2 ^ 64
  pub hash_fits : length b.previous_block_hash ≡ sha256_digest_length

pub record IsBlockchain (c : Blockchain) : Type 0 where
  pub zeros_fit : c.num_leading_zero_bytes_required_in_block_hash < 2 ^ 64
  pub count_fits : length c.block_list < 2 ^ 64
  pub blocks : All IsBlock c.block_list

-- The allocations of a whole serialization: one, one for each block and one for each transaction.
abbrev pub blocks_write_cost : List Block → ℕ
blocks_write_cost [] = 0
blocks_write_cost (b ∷ bs) = 1 + length b.transaction_list + blocks_write_cost bs

abbrev pub write_cost : Blockchain → ℕ
write_cost c = 1 + blocks_write_cost c.block_list

-- Those of a whole deserialization: two, three for each block and two for each transaction.
abbrev pub blocks_read_cost : List Block → ℕ
blocks_read_cost [] = 0
blocks_read_cost (b ∷ bs) = 3 + 2 * length b.transaction_list + blocks_read_cost bs

abbrev pub read_cost : Blockchain → ℕ
read_cost c = 2 + blocks_read_cost c.block_list
