-- ===== src/Miner/Run.antt =====
-- The whole of src/miner.c's `main`: the creation of the two other threads and the call of
-- `mine_blocks`, behind the start.
use theblockchainkiller.Base.{◌≤◌, ◌≡◌, refl, Bool, true, Option, List, All, arith}
use theblockchainkiller.Runtime.{ReturnCode, Outcome, ok, err, fault, ◌>>=◌, ◌>>◌}
use theblockchainkiller.Endian.{Host}
use theblockchainkiller.Crypto.{OpenSsl, sha256_digest_length}
use theblockchainkiller.Base64.{DecodeBlock, IsDecodeBlock}
use theblockchainkiller.Transaction.Signing.{KeyPair}
use theblockchainkiller.Blockchain.File.{File}
use theblockchainkiller.MiningThread.{Mining, Progress, mine_blocks}
use theblockchainkiller.MiningThread.Loop.{IsFair}
use theblockchainkiller.MiningThread.Files.{Kept, mine_blocks-Kept}
use theblockchainkiller.Miner.{Environment, Started, all_initialised, main_start}
use theblockchainkiller.Miner.Start.{main_start-IsReady}

behind_call : {A : Type 0} (o : Outcome Unit) (r q : A) → (o >> ok r) ≡ ok q → r ≡ q
behind_call (ok tt) r q e = ground arith
behind_call (err code) r q e = cc
behind_call fault r q e = cc

-- `created` is what `pthread_create` returns for the two threads, and the rest what happens in
-- `mine_blocks`: around its first read, and around its rounds.
pub record Threads : Type 0 where
  pub created : List (Option ReturnCode)
  pub locked : Bool
  pub unlocked : Bool
  pub exit_malloc : Bool
  pub rounds : List Mining

module _ (h : Host) (ssl : OpenSsl) (decode : DecodeBlock) where
  -- `file` is blockchain.bin.
  unfoldable pub run_mining : Threads → File → Started → Outcome Progress
  run_mining x file s = do
    all_initialised x.created
    ok (
        mine_blocks h ssl s.miner_public_key s.miner_private_key true x.locked x.unlocked
          x.exit_malloc x.rounds s.sync.blockchain file)

  unfoldable pub miner_main : Environment → Threads → File → Outcome Progress
  miner_main e x file = main_start h decode e >>= run_mining x file

  pub miner_main-Kept :
      IsDecodeBlock decode
      → (e : Environment) (s : Started) (x : Threads) (file : File) (r : Progress)
      → main_start h decode e ≡ ok s
      → (in_digest : s.sync.blockchain.num_leading_zero_bytes_required_in_block_hash
          ≤ sha256_digest_length)
      → KeyPair ssl s.miner_private_key s.miner_public_key
      → All (IsFair h ssl s.sync.blockchain.num_leading_zero_bytes_required_in_block_hash) x.rounds
      → miner_main e x file ≡ ok r
      → Kept h ssl s.sync.blockchain.num_leading_zero_bytes_required_in_block_hash file r
  unfolding miner_main run_mining
  miner_main-Kept within e s x file r started in_digest pair fair ran =
      let ready = main_start-IsReady h ssl decode within e s started in
      let went_on : run_mining x file s ≡ ok r = rw started at ran in
      rw (← behind_call (all_initialised x.created) _ r went_on) (
        mine_blocks-Kept h ssl s.sync.blockchain.num_leading_zero_bytes_required_in_block_hash
          s.miner_public_key s.miner_private_key in_digest pair ready.public_fits file true x.locked
          x.unlocked x.exit_malloc x.rounds s.sync.blockchain fair
          (record {
            is_valid = ready.holds.is_valid;
            is_shaped = ready.holds.is_shaped;
            same_zeros = refl;
          }))
