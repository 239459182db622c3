-- ===== src/Blockchain/Deserialize/Shaped.antt =====
-- The arrays of a deserialized blockchain are full, whatever the buffer holds.
use theblockchainkiller.Base.{ℕ, zero, suc, List, [], ◌∷◌, ◌++◌, ◌≡◌, All, All-append}
use theblockchainkiller.Runtime.{ok}
use theblockchainkiller.Endian.{Host}
use theblockchainkiller.Crypto.{max_ssh_key_length, max_ssh_signature_length, sha256_digest_length}
use theblockchainkiller.Buffer.{Cursor, allocate, guard, require, take_bytes, read_u64}
use theblockchainkiller.Buffer.Yields
use theblockchainkiller.Buffer.Yields.{Yields, skip, result_of, Yields-pure, Yields-read_array}
use theblockchainkiller.Blockchain.{Transaction, Blockchain, blockchain_add_block}
use theblockchainkiller.Blockchain.Shape.{HasKeys, IsShapedBlock, IsShaped}
use theblockchainkiller.Blockchain.Deserialize.{
  read_transaction, read_transactions, read_block, read_blocks, blockchain_deserialize,
}

module _ (h : Host) where
  Yields-read_transaction : Yields HasKeys (read_transaction h)
  unfolding read_transaction
  Yields-read_transaction = skip allocate λ _. skip (read_u64 h) λ _.
      Yields.bind (Yields-read_array max_ssh_key_length) λ sender sender_fits.
        Yields.bind (Yields-read_array max_ssh_key_length) λ recipient recipient_fits.
          skip (read_u64 h) λ _. skip (read_u64 h) λ size. skip (guard _ _) λ _.
            skip (require size) λ _. skip (take_bytes max_ssh_signature_length) λ _.
              Yields-pure _ (record { sender_fits = sender_fits; recipient_fits = recipient_fits })

  Yields-read_transactions :
      (n : ℕ) (ts : List Transaction)
      → All HasKeys ts
      → Yields (All HasKeys) (read_transactions h n ts)
  unfolding read_transactions
  Yields-read_transactions zero ts w = Yields-pure ts w
  Yields-read_transactions (suc n) ts w = Yields.bind Yields-read_transaction λ t k.
      skip allocate
        λ _. Yields-read_transactions n (ts ++ (t ∷ [])) (All-append HasKeys ts (t ∷ []) w (k, tt))

  Yields-read_block : Yields IsShapedBlock (read_block h)
  unfolding read_block
  Yields-read_block = skip (read_u64 h) λ _.
      Yields.bind (Yields-read_array sha256_digest_length) λ hash hash_fits. skip (read_u64 h) λ _.
        skip (read_u64 h) λ n. skip allocate λ _.
          Yields.bind (Yields-read_transactions n [] tt) λ ts keys.
            skip allocate λ _. Yields-pure _ (record { keys = keys; hash_fits = hash_fits })

  Yields-read_blocks : (n : ℕ) (c : Blockchain) → IsShaped c → Yields IsShaped (read_blocks h n c)
  unfolding read_blocks blockchain_add_block
  Yields-read_blocks zero c w = Yields-pure c w
  Yields-read_blocks (suc n) c w = Yields.bind Yields-read_block λ b k. skip allocate λ _.
      Yields-read_blocks n (blockchain_add_block c b)
        (All-append IsShapedBlock c.block_list (b ∷ []) w (k, tt))

  -- Whenever `blockchain_deserialize` returns SUCCESS, all keys and hashes of the blockchain have
  -- the lengths of their arrays.
  pub blockchain_deserialize-IsShaped :
      (s s' : Cursor) (c : Blockchain) → blockchain_deserialize h s ≡ ok (c, s') → IsShaped c
  unfolding blockchain_deserialize
  blockchain_deserialize-IsShaped = result_of (
      skip (read_u64 h) λ zeros.
        skip allocate λ _. skip allocate λ _. skip (read_u64 h) λ n. Yields-read_blocks n _ tt)
