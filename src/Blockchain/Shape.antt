-- ===== src/Blockchain/Shape.antt =====
-- Blockchains whose keys and hashes fill the arrays that the structs have for them.
use theblockchainkiller.Base.{◌≡◌, length, All}
use theblockchainkiller.Crypto.{max_ssh_key_length, sha256_digest_length}
use theblockchainkiller.Blockchain.{Transaction, Block, Blockchain}

pub record HasKeys (t : Transaction) : Type 0 where
  pub sender_fits : length t.sender_public_key ≡ max_ssh_key_length
  pub recipient_fits : length t.recipient_public_key ≡ max_ssh_key_length

pub record IsShapedBlock (b : Block) : Type 0 where
  pub keys : All HasKeys b.transaction_list
  pub hash_fits : length b.previous_block_hash ≡ sha256_digest_length

abbrev pub IsShaped : Blockchain → Type 0
IsShaped c = All IsShapedBlock c.block_list
