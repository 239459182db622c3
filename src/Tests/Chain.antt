-- ===== src/Tests/Chain.antt =====
-- Serialization, verification and mining of the sample blockchain.
use theblockchainkiller.Base.{ℕ, ◌≡◌, ◌↔◌, refl, Bool, true, false, [], ◌∷◌, arith, replicate}
use theblockchainkiller.Runtime.{ok, fault, success}
use theblockchainkiller.Endian.{low_first, little, big, store, load, htobe64, betoh64}
use theblockchainkiller.Endian.Laws.{betoh64-htobe64}
use theblockchainkiller.Buffer.{cursor}
use theblockchainkiller.Blockchain.{Transaction, Block, Blockchain}
use theblockchainkiller.Block.{block_hash, structs_bytes, hashed_bytes}
use theblockchainkiller.Transaction.{
  transaction_verify_signature, verify_with, signed_bytes, struct_bytes,
}
use theblockchainkiller.Memory.{memcmp_differs}
use theblockchainkiller.Blockchain.Serialize.{transaction_bytes, blockchain_serialize}
use theblockchainkiller.Blockchain.Serialize.Cost.{spend, blockchain_serialize-spend}
use theblockchainkiller.Blockchain.Deserialize.{read_transaction, blockchain_deserialize}
use theblockchainkiller.Blockchain.Deserialize.Overread.{read_transaction_overreads}
use theblockchainkiller.Blockchain.Format.{chain_bytes, write_cost, IsBlockchain}
use theblockchainkiller.Blockchain.Shape.{IsShaped}
use theblockchainkiller.Blockchain.RoundTrip.{deserialize-serialize}
use theblockchainkiller.Blockchain.Verify.{
  valid, invalid_at, blockchain_verify, verify_list, genesis_is_invalid, verify_blocks, check_block,
  check_transactions, minting_is_invalid, verify_signatures,
}
use theblockchainkiller.Blockchain.Verify.Valid.{IsValid}
use theblockchainkiller.Blockchain.Verify.Check.{blockchain_verify_iff}
use theblockchainkiller.Blockchain.Verify.{blockchain_is_valid_block_hash}
use theblockchainkiller.Blockchain.Verify.First.{Stops, verify_only, blockchain_verify-Stops}
use theblockchainkiller.Blockchain.Mine.{
  uint64_max, with_proof, mine_loop, stop_requested, switch_requested, blockchain_mine_block,
  synchronized_blockchain_mine_block,
}
use theblockchainkiller.Blockchain.Mine.Search.{
  Found, blockchain_mine_block-Found, blockchain_mine_block-finds,
  synchronized_blockchain_mine_block-Found,
}
use theblockchainkiller.Tests.Sample.{
  toy, toy_sha256, checksum, toy_accepts, minting, next_block, chain_of, minting-IsTransaction,
  next_block-IsBlock, chain_of-IsBlockchain,
}

abbrev linked : Block
linked = next_block (minting 6) (0 ∷ 0 ∷ 235 ∷ replicate 29 7)

abbrev pub sample : Blockchain
sample = chain_of linked

pub sample-IsBlockchain : IsBlockchain sample
sample-IsBlockchain =
    chain_of-IsBlockchain linked (next_block-IsBlock (minting 6) _ (minting-IsTransaction 6) refl)

sample-IsShaped : IsShaped sample
sample-IsShaped = (
  record { keys = tt; hash_fits = refl },
  (
    record { keys = (record { sender_fits = refl; recipient_fits = refl }, tt); hash_fits = refl },
    tt,
  ),
)

linked_valid : blockchain_verify little toy sample ≡ ok valid
unfolding blockchain_verify verify_list genesis_is_invalid verify_blocks check_block
    check_transactions minting_is_invalid verify_signatures transaction_verify_signature verify_with
    signed_bytes struct_bytes structs_bytes hashed_bytes block_hash memcmp_differs store low_first
    toy_sha256 checksum toy_accepts
linked_valid = refl

betoh64-htobe64_example :
    betoh64 big (load big (store little 8 (htobe64 little 0x0102_0304_0506_0708)))
    ≡ 0x0102_0304_0506_0708
betoh64-htobe64_example = betoh64-htobe64 little big 0x0102_0304_0506_0708 (omega arith)

deserialize-serialize_example :
    blockchain_deserialize big (cursor 13 (chain_bytes little sample)) ≡ ok (sample, cursor 3 [])
deserialize-serialize_example =
    deserialize-serialize little big sample 4 0 13 (chain_bytes little sample) sample-IsBlockchain
      (blockchain_serialize-spend little sample 4) (omega arith)

blockchain_serialize-spend_example :
    blockchain_serialize little sample 9 ≡ spend (write_cost sample) 9 (chain_bytes little sample)
blockchain_serialize-spend_example = blockchain_serialize-spend little sample 9

blockchain_verify_iff_example :
    (blockchain_verify little toy sample ≡ ok valid) ↔ IsValid little toy sample
blockchain_verify_iff_example =
    blockchain_verify_iff little toy sample sample-IsShaped (omega arith)

-- The second block does not name the hash of the first.
abbrev unlinked : Block
unlinked = next_block (minting 6) (replicate 32 7)

unlinked_invalid : blockchain_verify little toy (chain_of unlinked) ≡ ok (invalid_at unlinked)
unfolding linked_valid
unlinked_invalid = refl

blockchain_verify-Stops_example :
    Stops little toy
      (verify_only little toy (chain_of unlinked))
      (chain_of unlinked).block_list
      (invalid_at unlinked)
blockchain_verify-Stops_example =
    blockchain_verify-Stops little toy (chain_of unlinked) (invalid_at unlinked) unlinked_invalid
      refl

never : ℕ → Bool
never p = false

mined_at_once :
    blockchain_mine_block little toy never sample linked ≡ ok (success, with_proof linked 0)
unfolding linked_valid blockchain_mine_block mine_loop never blockchain_is_valid_block_hash
mined_at_once = refl

blockchain_mine_block-Found_example :
    (p : ℕ) × (with_proof linked 0 ≡ with_proof linked p)
    × Found little toy 2 (stop_requested little toy never) linked 0 uint64_max p
blockchain_mine_block-Found_example =
    blockchain_mine_block-Found little toy never sample linked (with_proof linked 0) mined_at_once

blockchain_mine_block-finds_example :
    (b' : Block) × (blockchain_mine_block little toy never sample linked ≡ ok (success, b'))
unfolding never block_hash toy_sha256
blockchain_mine_block-finds_example =
    blockchain_mine_block-finds little toy never sample linked 7 (omega arith) (λ p. refl)
      (omega arith) (refl, (refl, tt))

same_version : ℕ → ℕ
same_version p = 1

mined_with_lock :
    synchronized_blockchain_mine_block little toy true true never same_version same_version sample
      linked
    ≡ ok (success, with_proof linked 0)
unfolding mined_at_once synchronized_blockchain_mine_block same_version
mined_with_lock = refl

synchronized_blockchain_mine_block-Found_example :
    (true ≡ true)
    × (true ≡ true)
    × ((p : ℕ) × (with_proof linked 0 ≡ with_proof linked p)
        × Found little toy 2
            (switch_requested little toy never same_version same_version)
            linked
            0
            uint64_max
            p)
synchronized_blockchain_mine_block-Found_example =
    synchronized_blockchain_mine_block-Found little toy true true never same_version same_version
      sample linked (with_proof linked 0) mined_with_lock

abbrev short_signature : Transaction
short_signature = record (minting 6) { sender_signature = record { size = 1; bytes = 6 ∷ [] } }

read_transaction_overreads_example :
    read_transaction big (cursor 1 (transaction_bytes little short_signature)) ≡ fault
read_transaction_overreads_example =
    read_transaction_overreads big little short_signature 0 (omega arith) refl refl (omega arith)
      (omega arith) (omega arith)
