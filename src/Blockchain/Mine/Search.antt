-- ===== src/Blockchain/Mine/Search.antt =====
-- What the search for a proof of work finds.
use theblockchainkiller.Base.{
  ℕ, zero, suc, ◌+◌, ◌≤◌, ◌<◌, ◌≡◌, ◌≢◌, refl, Bool, true, false, Option, none, some, arith, length,
  ◌⊎◌, inl, inr, Bool-cases, if◌then◌else◌,
}
use native.Mathlib.Decide.{ℕ_discrete}
use theblockchainkiller.Runtime.{ReturnCode, success, ok}
use theblockchainkiller.Endian.{Host}
use theblockchainkiller.Crypto.{OpenSsl, sha256_digest_length}
use theblockchainkiller.Blockchain.{Block, Blockchain}
use theblockchainkiller.Block.{block_hash}
use theblockchainkiller.Blockchain.Verify.{blockchain_is_valid_block_hash}
use theblockchainkiller.Blockchain.Verify.Hash.{
  LeadingZeros, is_valid_block_hash_iff, is_valid_block_hash-ok,
}
use theblockchainkiller.Blockchain.Verify.Check.{length-block_hash}
use theblockchainkiller.Blockchain.Mine.{
  uint64_max, with_proof, mine_loop, stop_requested, switch_requested, blockchain_mine_block,
  synchronized_blockchain_mine_block,
}

module _ (h : Host) (ssl : OpenSsl) (required : ℕ) where
  -- The proof solves the block.
  abbrev pub Solves : Block → ℕ → Type 0
  Solves b proof = LeadingZeros required (block_hash h ssl (with_proof b proof))

  -- The outcome of a search that tried `first`, `first + 1`, … in order.
  abbrev pub Found : (ℕ → Option ReturnCode) → Block → ℕ → ℕ → ℕ → Type 0
  Found interrupt b first end proof =
      (first ≤ proof)
      × (proof < end)
      × Solves b proof
      × ((q : ℕ) → first ≤ q → q < proof → ¬ Solves b q)
      × ((q : ℕ) → first ≤ q → q ≤ proof → interrupt q ≡ none)

  -- A search that succeeds was not interrupted in its first round, and the proof of that round
  -- either solves the block or does not and the search goes on.
  mine_loop-suc :
      (interrupt : ℕ → Option ReturnCode) (n proof : ℕ) (b b' : Block)
      → interrupt proof ≢ some success
      → mine_loop h ssl interrupt required (suc n) proof b ≡ ok (success, b')
      → (interrupt proof ≡ none)
        × ((Solves b proof × (b' ≡ with_proof b proof))
            ⊎ ((¬ Solves b proof)
                × (mine_loop h ssl interrupt required n (proof + 1) (with_proof b proof)
                    ≡ ok (success, b'))))
  unfolding mine_loop
  mine_loop-suc interrupt n proof b b' ne e =
      ground (arith, is_valid_block_hash_iff required (block_hash h ssl (with_proof b proof)))

  -- From one proof on, if it holds there and behind it.
  above {ℓ} :
      (P : ℕ → Type ℓ) (first : ℕ)
      → P first
      → ((q : ℕ) → first + 1 ≤ q → P q)
      → (q : ℕ) → first ≤ q
      → P q
  above P first here there q le = elim (ℕ_discrete q first) [
    | yes e ↦ rw e here
    | no ne ↦ there q (omega arith)
  ]

  mine_loop-Found :
      (interrupt : ℕ → Option ReturnCode)
      → ((q : ℕ) → interrupt q ≢ some success)
      → (n proof : ℕ) (b b' : Block)
      → mine_loop h ssl interrupt required n proof b ≡ ok (success, b')
      → (p : ℕ) × (b' ≡ with_proof b p) × Found interrupt b proof (proof + n) p
  unfolding mine_loop
  mine_loop-Found interrupt ne zero proof b b' e = cc
  mine_loop-Found interrupt ne (suc n) proof b b' e =
      let (go, round) = mine_loop-suc interrupt n proof b b' (ne proof) e in
      elim round [
        | inl (solved, made) ↦ (
          proof,
          made,
          (
            omega arith,
            omega arith,
            solved,
            λ q lo hi. absurd (omega arith),
            above (λ q. q ≤ proof → interrupt q ≡ none) proof (λ _. go)
                (λ q lo hi. absurd (omega arith)),
          ),
        )
        | inr (unsolved, rest) ↦
            let (p, made, (lo, hi, solved, before, calm)) =
              mine_loop-Found interrupt ne n (proof + 1) (with_proof b proof) b' rest in
            (
              p,
              made,
              (
                omega arith,
                omega arith,
                solved,
                above (λ q. q < p → ¬ Solves b q) proof (λ _. unsolved) before,
                above (λ q. q ≤ p → interrupt q ≡ none) proof (λ _. go) calm,
              ),
            )
      ]

  mine_loop_round :
      (interrupt : ℕ → Option ReturnCode) (n proof : ℕ) (b : Block) (v : Bool)
      → interrupt proof ≡ none
      → blockchain_is_valid_block_hash required (block_hash h ssl (with_proof b proof)) ≡ ok v
      → mine_loop h ssl interrupt required (suc n) proof b ≡ (
          if v
          then ok (success, with_proof b proof)
          else mine_loop h ssl interrupt required n (proof + 1) (with_proof b proof))
  unfolding mine_loop
  mine_loop_round interrupt n proof b v calm e = ground arith

  -- Within the digest, a search that is never interrupted finds a proof if one solves the block.
  mine_loop-finds :
      (interrupt : ℕ → Option ReturnCode)
      → required ≤ sha256_digest_length
      → ((q : ℕ) → interrupt q ≡ none)
      → (n proof : ℕ) (b : Block) (q : ℕ) → proof ≤ q
      → q < proof + n
      → Solves b q
      → (b' : Block) × (mine_loop h ssl interrupt required n proof b ≡ ok (success, b'))
  mine_loop-finds interrupt in_digest calm zero proof b q lo hi s = absurd (omega arith)
  mine_loop-finds interrupt in_digest calm (suc n) proof b q lo hi s =
      let solved = is_valid_block_hash_iff required (block_hash h ssl (with_proof b proof)) in
      let fits : required ≤ length (block_hash h ssl (with_proof b proof)) =
        omega (arith, length-block_hash h ssl (with_proof b proof)) in
      let (v, e) = is_valid_block_hash-ok required (block_hash h ssl (with_proof b proof)) fits in
      elim (Bool-cases v) [
        | inl t ↦ (with_proof b proof, rw (mine_loop_round interrupt n proof b v (calm proof) e, t))
        | inr f ↦ elim (ℕ_discrete q proof) [
          | yes same ↦ absurd (cc (e, f, solved.1 (rw same at s)))
          | no other ↦
              let (b', found) =
                mine_loop-finds interrupt in_digest calm n (proof + 1) (with_proof b proof) q
                  (omega arith) (omega arith) s in
              (b', rw (mine_loop_round interrupt n proof b v (calm proof) e, f) found)
        ]
      ]

module _ (h : Host) (ssl : OpenSsl) where
  -- When mining succeeds, the block has got the smallest proof of work below UINT64_MAX whose hash
  -- begins with the required zero bytes, nothing else in it has changed, and no request to stop was
  -- seen up to that proof.
  pub blockchain_mine_block-Found :
      (should_stop : ℕ → Bool) (c : Blockchain) (b b' : Block)
      → blockchain_mine_block h ssl should_stop c b ≡ ok (success, b')
      → (p : ℕ) × (b' ≡ with_proof b p)
        × Found h ssl c.num_leading_zero_bytes_required_in_block_hash
            (stop_requested h ssl should_stop)
            b
            0
            uint64_max
            p
  unfolding blockchain_mine_block
  blockchain_mine_block-Found should_stop c b b' e =
      mine_loop-Found h ssl _ (stop_requested h ssl should_stop) (λ q s. ground arith) uint64_max 0
        b b' e

  -- Mining succeeds if the required zero bytes are within the digest, no request to stop is seen,
  -- and some proof of work below UINT64_MAX solves the block.
  pub blockchain_mine_block-finds :
      (should_stop : ℕ → Bool) (c : Blockchain) (b : Block) (q : ℕ)
      → c.num_leading_zero_bytes_required_in_block_hash ≤ sha256_digest_length
      → ((p : ℕ) → should_stop p ≡ false)
      → q < uint64_max
      → Solves h ssl c.num_leading_zero_bytes_required_in_block_hash b q
      → (b' : Block) × (blockchain_mine_block h ssl should_stop c b ≡ ok (success, b'))
  unfolding blockchain_mine_block
  blockchain_mine_block-finds should_stop c b q in_digest calm hi s =
      mine_loop-finds h ssl _ (stop_requested h ssl should_stop) in_digest
        (λ p. ground (arith, calm p)) uint64_max 0 b q (omega arith) hi s

  -- When the synchronized search succeeds, the mutex could be locked and unlocked, the block has
  -- got the smallest proof of work that solves it for the chain that was current under the lock,
  -- and up to that proof no request to stop and no change of the version was seen.
  pub synchronized_blockchain_mine_block-Found :
      (locked unlocked : Bool) (should_stop : ℕ → Bool) (mined_version sync_version : ℕ → ℕ)
      (c : Blockchain) (b b' : Block)
      → synchronized_blockchain_mine_block h ssl locked unlocked should_stop mined_version
          sync_version c b
        ≡ ok (success, b')
      → (locked ≡ true)
        × (unlocked ≡ true)
        × ((p : ℕ) × (b' ≡ with_proof b p)
            × Found h ssl c.num_leading_zero_bytes_required_in_block_hash
                (switch_requested h ssl should_stop mined_version sync_version)
                b
                0
                uint64_max
                p)
  unfolding synchronized_blockchain_mine_block
  synchronized_blockchain_mine_block-Found true true should_stop mined_version sync_version c b b'
        e =
      (
        refl,
        refl,
        mine_loop-Found h ssl _ (switch_requested h ssl should_stop mined_version sync_version)
            (λ q s. ground arith) uint64_max 0 b b' e,
      )
  synchronized_blockchain_mine_block-Found true false should_stop mined sync c b b' e = cc
  synchronized_blockchain_mine_block-Found false unlocked should_stop mined sync c b b' e = cc
