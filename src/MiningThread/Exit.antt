-- ===== src/MiningThread/Exit.antt =====
-- The codes with which `mine_blocks` signals that it is done.
use theblockchainkiller.Base.{
  ℕ, ◌≡◌, refl, Bool, true, false, Option, none, some, List, [], ◌∷◌, ◌⊎◌, inl, inr, if◌then◌else◌,
  Bool-cases,
}
use theblockchainkiller.Runtime.{
  ReturnCode, success, could_not_find_valid_proof_of_work, pthread_function,
  longer_blockchain_detected, stopped_early, Outcome, ok, err, fault,
}
use theblockchainkiller.Endian.{Host, Bytes}
use theblockchainkiller.Crypto.{OpenSsl}
use theblockchainkiller.Buffer.{malloc}
use theblockchainkiller.Block.{block_create, block_hash}
use theblockchainkiller.Transaction.{amount_generated_during_minting, transaction_create}
use theblockchainkiller.Blockchain.Mine.{synchronized_blockchain_mine_block}
use theblockchainkiller.Blockchain.Verify.{blockchain_verify}
use theblockchainkiller.Blockchain.{Block, Blockchain}
use theblockchainkiller.Blockchain.File.{File, Writing, blockchain_write_to_file}
use theblockchainkiller.MiningThread.{
  Mining, Round, continues, mined, ends, round_after, Progress, runs, returns, progress_after,
  with_return_code, written, take_blockchain, last, after_search, report_invalid, mine_next,
  mine_behind, mine_round, write_outfile, next_round, mine_rounds, mine_blocks,
}

abbrev IsOrdinary : ReturnCode → Type 0
IsOrdinary code = (code ≡ success) ⊎ (code ≡ could_not_find_valid_proof_of_work)

abbrev GoesOn : Round → Type 0
GoesOn (continues code c) = IsOrdinary code
GoesOn (mined c n) = Unit
GoesOn (ends code) = Unit
GoesOn Round.undefined = Unit

-- A signal comes with one of the two codes, and the loop goes on with them alone.
abbrev pub Signals : Progress → Type 0
Signals (runs code c file) = IsOrdinary code
Signals (returns true code file) = IsOrdinary code
Signals (returns false code file) = Unit
Signals Progress.undefined = Unit

with_return_code-Signals :
    (exit_malloc : Bool) (r : Progress) → Signals r → Signals (with_return_code exit_malloc r)
with_return_code-Signals true r w = w
with_return_code-Signals false (runs code c file) w = w
with_return_code-Signals false (returns exit_ready code file) w = tt
with_return_code-Signals false Progress.undefined w = tt

after-GoesOn :
    {A : Type 0} (o : Outcome A) (next : A → Round)
    → ((a : A) → GoesOn (next a))
    → GoesOn (round_after o next)
after-GoesOn (ok a) next k = k a
after-GoesOn (err code) next k = tt
after-GoesOn fault next k = tt

after_search-GoesOn :
    (c : Blockchain) (n : ℕ) (code : ReturnCode) (b : Block) → GoesOn (after_search c n code b)
unfolding after_search
after_search-GoesOn c n success b = after-GoesOn (malloc n) _ λ _. tt
after_search-GoesOn c n could_not_find_valid_proof_of_work b = inr refl
after_search-GoesOn c n longer_blockchain_detected b = inl refl
after_search-GoesOn c n stopped_early b = inl refl
after_search-GoesOn c n code b = tt

module _ (h : Host) (ssl : OpenSsl) (public_key private_key : Bytes) where
  mine_next-GoesOn :
      (m : Mining) (c : Blockchain) (previous : Block)
      → GoesOn (mine_next h ssl public_key private_key m c previous)
  unfolding mine_next
  mine_next-GoesOn m c previous = after-GoesOn (malloc m.allocs) _ λ (_, n1).
      after-GoesOn
        (transaction_create h ssl m.transaction_time public_key public_key
          amount_generated_during_minting private_key n1)
        _
        λ (t, n2). after-GoesOn (malloc n2) _ λ (_, n3).
          after-GoesOn (block_create m.block_time (t ∷ []) 0 (block_hash h ssl previous) n3) _
            λ (b, n4).
              after-GoesOn
                (synchronized_blockchain_mine_block h ssl m.locked m.unlocked m.should_stop
                  m.mined_version m.sync_version m.synced b)
                _ λ (code, b'). after_search-GoesOn c n4 code b'

  mine_round-GoesOn :
      (m : Mining) (c : Blockchain) → GoesOn (mine_round h ssl public_key private_key m c)
  unfolding mine_round mine_behind report_invalid
  mine_round-GoesOn m c =
      after-GoesOn (blockchain_verify h ssl c) _
        λ v. passed v.is_valid_blockchain (last c.block_list) v.first_invalid_block
    where
      passed :
          (is_valid : Bool) (previous first_invalid : Option Block)
          → GoesOn (
              if is_valid
              then mine_behind h ssl public_key private_key m c previous
              else report_invalid first_invalid)
      passed true none first_invalid = tt
      passed true (some previous) first_invalid = mine_next-GoesOn m c previous
      passed false previous none = tt
      passed false previous (some b) = tt

  module _ (outfile : Bool) where
    written-Signals :
        (r : Outcome ℕ × File) (next : File → Progress)
        → ((file : File) → Signals (next file))
        → Signals (written r next)
    written-Signals (ok n, file) next k = k file
    written-Signals (err code, file) next k = k file
    written-Signals (fault, file) next k = tt

    next_round-Signals :
        (x : Writing) (r : Round) (file : File) (next : ReturnCode → Blockchain → File → Progress)
        → GoesOn r
        → ((code : ReturnCode) (c : Blockchain) (file' : File)
            → IsOrdinary code
            → Signals (next code c file'))
        → Signals (next_round h ssl public_key private_key outfile x r file next)
    unfolding next_round write_outfile
    next_round-Signals x (continues code c) file next w k = k code c file w
    next_round-Signals x (mined c n) file next w k = elim (Bool-cases outfile) [
      | inl e ↦ rw e (
          written-Signals (blockchain_write_to_file h c x n file) (next success c)
            λ file'. k success c file' (inl refl))
      | inr e ↦ rw e (k success c file (inl refl))
    ]
    next_round-Signals x (ends code) file next w k = tt
    next_round-Signals x Round.undefined file next w k = tt

    mine_rounds-Signals :
        (ms : List Mining) (code : ReturnCode) (c : Blockchain) (file : File)
        → IsOrdinary code
        → Signals (mine_rounds h ssl public_key private_key outfile ms code c file)
    unfolding mine_rounds
    mine_rounds-Signals [] code c file w = w
    mine_rounds-Signals (m ∷ ms) code c file w = elim (Bool-cases m.stop) [
      | inl e ↦ rw e w
      | inr e ↦ rw e (
          taken (take_blockchain m c) _ λ d.
            next_round-Signals m.writing (mine_round h ssl public_key private_key m d) file _
              (mine_round-GoesOn m d) λ code' c' file' w'. mine_rounds-Signals ms code' c' file' w')
    ]
      where
        taken :
            (o : Outcome Blockchain) (next : Blockchain → Progress)
            → ((d : Blockchain) → Signals (next d))
            → Signals (progress_after o file next)
        taken (ok d) next k = k d
        taken (err code') next k = tt
        taken fault next k = tt

    -- Whatever fails, and whatever other threads do: if `mine_blocks` sets `*args->exit_ready`, then
    -- it returns SUCCESS or FAILURE_COULD_NOT_FIND_VALID_PROOF_OF_WORK, and while it runs, its code is
    -- one of these two.
    pub mine_blocks-Signals :
        (locked unlocked exit_malloc : Bool) (ms : List Mining) (c : Blockchain) (file : File)
        → Signals
            (mine_blocks h ssl public_key private_key outfile locked unlocked exit_malloc ms c file)
    unfolding mine_blocks
    mine_blocks-Signals true true exit_malloc ms c file =
        with_return_code-Signals exit_malloc _ (mine_rounds-Signals ms success c file (inl refl))
    mine_blocks-Signals true false exit_malloc ms c file =
        with_return_code-Signals exit_malloc (returns false pthread_function file) tt
    mine_blocks-Signals false unlocked exit_malloc ms c file =
        with_return_code-Signals exit_malloc (returns false pthread_function file) tt
