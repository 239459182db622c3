-- ===== src/Block.antt =====
-- src/block.c.
use theblockchainkiller.Base.{ℕ, List, [], ◌∷◌, ◌++◌, replicate}
use theblockchainkiller.Endian.{Host, Bytes, store}
use theblockchainkiller.Crypto.{OpenSsl, sha256_digest_length}
use theblockchainkiller.Buffer.{Run, pure, ◌>>◌, malloc}
use theblockchainkiller.Blockchain.{Transaction, Block, genesis_block_proof_of_work}
use theblockchainkiller.Transaction.{struct_bytes}

-- `now` is what `time(NULL)` returns.
unfoldable pub block_create : ℕ → List Transaction → ℕ → Bytes → Run ℕ Block
block_create now ts proof_of_work previous_block_hash = do
  malloc
  pure (record {
    created_at = now;
    transaction_list = ts;
    proof_of_work = proof_of_work;
    previous_block_hash = previous_block_hash;
  })

-- `sha_256_t hash = {0}`
abbrev pub zero_hash : Bytes
zero_hash = replicate sha256_digest_length 0

-- The first allocation is the transaction list's.
unfoldable pub block_create_genesis_block : ℕ → Run ℕ Block
unfolding block_create
block_create_genesis_block now = do
  malloc
  block_create now [] genesis_block_proof_of_work zero_hash

module _ (h : Host) where
  unfoldable pub structs_bytes : List Transaction → Bytes
  structs_bytes [] = []
  structs_bytes (t ∷ ts) = struct_bytes h t ++ structs_bytes ts

  -- What `block_hash` passes to `EVP_DigestUpdate`, in the host's object representations.
  unfoldable pub hashed_bytes : Block → Bytes
  hashed_bytes b =
      store h 8 b.created_at
      ++ (store h 8 b.proof_of_work ++ (b.previous_block_hash ++ structs_bytes b.transaction_list))

  -- The return codes of OpenSSL's functions are not looked at, so `block_hash` always succeeds.
  unfoldable pub block_hash : OpenSsl → Block → Bytes
  block_hash ssl b = ssl.sha256 (hashed_bytes b)
