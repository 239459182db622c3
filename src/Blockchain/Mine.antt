-- ===== src/Blockchain/Mine.antt =====
-- `blockchain_mine_block` and `synchronized_blockchain_mine_block` of src/blockchain.c. What they
-- print is not modelled.
pub mod Search
use theblockchainkiller.Base.{
  ℕ, zero, suc, ◌+◌, ◌-◌, ◌^◌, Bool, true, false, not, Option, none, some, ◌==◌, if◌then◌else◌,
}
use theblockchainkiller.Runtime.{
  ReturnCode, success, could_not_find_valid_proof_of_work, stopped_early,
  longer_blockchain_detected, pthread_function, Outcome, ok, fault, ◌>>=◌,
}
use theblockchainkiller.Endian.{Host, Bytes}
use theblockchainkiller.Crypto.{OpenSsl}
use theblockchainkiller.Blockchain.{Block, Blockchain}
use theblockchainkiller.Block.{block_hash}
use theblockchainkiller.Blockchain.Verify.{blockchain_is_valid_block_hash}

abbrev pub uint64_max : ℕ
uint64_max = 2 ^ 64 - 1

-- The block with `block->proof_of_work = proof`.
abbrev pub with_proof : Block → ℕ → Block
with_proof b proof = record b { proof_of_work = proof }

module _ (h : Host) (ssl : OpenSsl) where
  -- The loop over the proofs, with `n` rounds left. `interrupt` says what the tests at the start of
  -- the round for a proof return, which other threads decide. The result is the return code and the
  -- block, which keeps the last proof tried.
  unfoldable pub mine_loop :
      (ℕ → Option ReturnCode) → ℕ → ℕ → ℕ → Block → Outcome (ReturnCode × Block)
  mine_loop interrupt required zero proof b = ok (could_not_find_valid_proof_of_work, b)
  mine_loop interrupt required (suc n) proof b =
      let tried = with_proof b proof in
      let rest = mine_loop interrupt required n (proof + 1) tried in
      elim (interrupt proof) [
        | some c ↦ ok (c, b)
        | none ↦ do
          is_valid ← blockchain_is_valid_block_hash required (block_hash h ssl tried)
          if is_valid then ok (success, tried) else rest
      ]

  -- `*should_stop`, as it reads in the round for a proof.
  abbrev pub stop_requested : (ℕ → Bool) → ℕ → Option ReturnCode
  stop_requested should_stop proof = if should_stop proof then some stopped_early else none

  unfoldable pub blockchain_mine_block :
      (ℕ → Bool) → Blockchain → Block → Outcome (ReturnCode × Block)
  blockchain_mine_block should_stop c b =
      mine_loop (stop_requested should_stop) c.num_leading_zero_bytes_required_in_block_hash
        uint64_max 0 b

  -- The two tests of the synchronized loop: the request to stop, then the versions.
  abbrev pub switch_requested : (ℕ → Bool) → (ℕ → ℕ) → (ℕ → ℕ) → ℕ → Option ReturnCode
  switch_requested should_stop mined_version sync_version proof =
      if should_stop proof
      then some stopped_early
      else if mined_version proof == sync_version proof
      then none
      else some longer_blockchain_detected

  -- `locked` and `unlocked` say whether the calls on `sync->mutex` succeed, and `c` is
  -- `sync->blockchain` between them.
  unfoldable pub synchronized_blockchain_mine_block :
      (locked unlocked : Bool)
      → (ℕ → Bool)
      → (mined_version sync_version : ℕ → ℕ) → Blockchain
      → Block
      → Outcome (ReturnCode × Block)
  synchronized_blockchain_mine_block locked unlocked should_stop mined_version sync_version c b =
      let search =
        mine_loop (switch_requested should_stop mined_version sync_version)
          c.num_leading_zero_bytes_required_in_block_hash uint64_max 0 b in
      if not locked
      then ok (pthread_function, b)
      else if not unlocked
      then ok (pthread_function, b)
      else search
