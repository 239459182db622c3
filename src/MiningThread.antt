-- ===== src/MiningThread.antt =====
-- `mine_blocks` of src/mining_thread.c.
pub mod Leads
pub mod Extend
pub mod Valid
pub mod Loop
pub mod Files
pub mod Exit
use theblockchainkiller.Base.{
  ℕ, Bool, true, false, Option, none, some, List, [], ◌∷◌, if◌then◌else◌,
}
use theblockchainkiller.Runtime.{
  ReturnCode, success, could_not_find_valid_proof_of_work, longer_blockchain_detected,
  stopped_early, invalid_blockchain, linked_list_empty, pthread_function, Outcome, ok, err, fault,
}
use theblockchainkiller.Endian.{Host, Bytes}
use theblockchainkiller.Crypto.{OpenSsl}
use theblockchainkiller.Buffer.{malloc}
use theblockchainkiller.Blockchain.{Block, Blockchain, blockchain_add_block}
use theblockchainkiller.Blockchain.File.{File, Writing, blockchain_write_to_file}
use theblockchainkiller.Blockchain.Verify.{Verdict, blockchain_verify}
use theblockchainkiller.Blockchain.Mine.{synchronized_blockchain_mine_block}
use theblockchainkiller.Transaction.{amount_generated_during_minting, transaction_create}
use theblockchainkiller.Block.{block_create, block_hash}

-- What the environment does during one round: what `*args->should_stop` reads in the loop's test;
-- `sync->blockchain`, if the versions differ at the round's start, and whether the calls on the two
-- mutexes succeed then; what `time(NULL)` returns for the transaction and for the block; the number
-- of allocations that succeed; what the search for a proof of work sees; and what happens to the
-- file that is written.
pub record Mining : Type 0 where
  pub stop : Bool
  pub switched : Option Blockchain
  pub switch_locked : Bool
  pub transaction_time : ℕ
  pub block_time : ℕ
  pub allocs : ℕ
  pub locked : Bool
  pub unlocked : Bool
  pub should_stop : ℕ → Bool
  pub mined_version : ℕ → ℕ
  pub sync_version : ℕ → ℕ
  pub synced : Blockchain
  pub writing : Writing

-- A round goes on to the next with a return code and a blockchain, either the one it started with or
-- one with a mined block and so many allocations that still succeed; or it jumps to the end with a
-- code; or its behaviour is undefined.
pub data Round : Type 0 where
  continues : ReturnCode → Blockchain → Round
  mined : Blockchain → ℕ → Round
  ends : ReturnCode → Round
  undefined : Round

-- The code and the blockchain with which a round goes on.
abbrev pub went_on : Round → Option (ReturnCode × Blockchain)
went_on (continues code c) = some (code, c)
went_on (mined c n) = some (success, c)
went_on (ends code) = none
went_on undefined = none

abbrev pub round_after : {A : Type 0} → Outcome A → (A → Round) → Round
round_after (ok a) next = next a
round_after (err c) next = ends c
round_after fault next = undefined

-- `mine_blocks` returns a code, with `*args->exit_ready` set or not, and leaves a file; or it still
-- runs when its list of rounds is used up; or its behaviour is undefined.
pub data Progress : Type 0 where
  runs : ReturnCode → Blockchain → File → Progress
  returns : (exit_ready : Bool) → ReturnCode → File → Progress
  undefined : Progress

abbrev pub progress_after : {A : Type 0} → Outcome A → File → (A → Progress) → Progress
progress_after (ok a) file next = next a
progress_after (err code) file next = returns false code file
progress_after fault file next = Progress.undefined

abbrev pub written : Outcome ℕ × File → (File → Progress) → Progress
written (ok n, file) next = next file
written (err code, file) next = next file
written (fault, file) next = Progress.undefined

-- `malloc(sizeof(return_code_t))`, whose result is not tested.
abbrev pub with_return_code : Bool → Progress → Progress
with_return_code true r = r
with_return_code false (returns exit_ready code file) = Progress.undefined
with_return_code false r = r

-- The start of a round: where the versions differ, the miner takes `sync->blockchain`.
unfoldable pub take_blockchain : Mining → Blockchain → Outcome Blockchain
take_blockchain m c = elim m.switched [
  | none ↦ ok c
  | some d ↦ if m.switch_locked then ok d else err pthread_function
]

-- `linked_list_get_last`
abbrev pub last : List Block → Option Block
last [] = none
last (b ∷ []) = some b
last (b ∷ c ∷ bs) = last (c ∷ bs)

-- What follows the search: the three codes that let the loop go on, and any other.
unfoldable pub after_search : Blockchain → ℕ → ReturnCode → Block → Round
after_search c n success b = round_after (malloc n) λ (_, n'). mined (blockchain_add_block c b) n'
after_search c n could_not_find_valid_proof_of_work b =
    continues could_not_find_valid_proof_of_work c
after_search c n longer_blockchain_detected b = continues success c
after_search c n stopped_early b = continues success c
after_search c n code b = ends code

-- `first_invalid_block` is NULL at first, and the block's fields are printed.
pub report_invalid : Option Block → Round
report_invalid none = undefined
report_invalid (some b) = ends invalid_blockchain

module _ (h : Host) (ssl : OpenSsl) (miner_public_key miner_private_key : Bytes) where
  -- The block that is mined next: a minting transaction behind the last block.
  unfoldable pub mine_next : Mining → Blockchain → Block → Round
  mine_next m c previous = round_after (malloc m.allocs) λ (_, n1).
      round_after
        (transaction_create h ssl m.transaction_time miner_public_key miner_public_key
          amount_generated_during_minting miner_private_key n1)
        λ (t, n2). round_after (malloc n2) λ (_, n3).
          round_after (block_create m.block_time (t ∷ []) 0 (block_hash h ssl previous) n3)
            λ (b, n4).
              round_after
                (synchronized_blockchain_mine_block h ssl m.locked m.unlocked m.should_stop
                  m.mined_version m.sync_version m.synced b)
                λ (code, b'). after_search c n4 code b'

  unfoldable pub mine_behind : Mining → Blockchain → Option Block → Round
  mine_behind m c none = ends linked_list_empty
  mine_behind m c (some previous) = mine_next m c previous

  -- From `blockchain_verify` to the end of the loop's body.
  unfoldable pub mine_round : Mining → Blockchain → Round
  mine_round m c = round_after (blockchain_verify h ssl c) λ v.
      if v.is_valid_blockchain
      then mine_behind m c (last c.block_list)
      else report_invalid v.first_invalid_block

  module _ (outfile : Bool) where
    -- The file, if there is one. What `blockchain_write_to_file` returns is not looked at.
    unfoldable pub write_outfile : Writing → Blockchain → ℕ → File → (File → Progress) → Progress
    write_outfile x c n file next =
        if outfile then written (blockchain_write_to_file h c x n file) next else next file

    unfoldable pub next_round :
        Writing → Round → File → (ReturnCode → Blockchain → File → Progress) → Progress
    next_round x (continues code c) file next = next code c file
    next_round x (mined c n) file next = write_outfile x c n file λ file'. next success c file'
    next_round x (ends code) file next = returns false code file
    next_round x Round.undefined file next = Progress.undefined

    -- The loop, for a list of rounds, and the signal behind it.
    unfoldable pub mine_rounds : List Mining → ReturnCode → Blockchain → File → Progress
    mine_rounds [] code c file = runs code c file
    mine_rounds (m ∷ ms) code c file = elim m.stop [
      | true ↦ returns true code file
      | false ↦ progress_after (take_blockchain m c) file λ d.
          next_round m.writing (mine_round m d) file λ code' c' file'. mine_rounds ms code' c' file'
    ]

    -- From the first read of `sync->blockchain` on.
    unfoldable pub mine_blocks :
        (locked unlocked exit_malloc : Bool) → List Mining → Blockchain → File → Progress
    mine_blocks locked unlocked exit_malloc ms c file = with_return_code exit_malloc (
        if locked
        then (if unlocked
            then mine_rounds ms success c file
            else returns false pthread_function file)
        else returns false pthread_function file)
