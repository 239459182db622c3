-- ===== src/Tests/Mining.antt =====
-- A miner from its command line to its first block.
use theblockchainkiller.Base.{ℕ, ◌≡◌, refl, true, none, some, List, [], ◌∷◌, arith}
use theblockchainkiller.Runtime.{success, Outcome, ok}
use theblockchainkiller.Endian.{little}
use theblockchainkiller.Blockchain.{Blockchain}
use theblockchainkiller.MiningThread.{
  mine_behind, mine_next, after_search, Round, continues, mined, ends, mine_blocks, take_blockchain,
  mine_round, mine_rounds, next_round, write_outfile, written, runs, Mining,
}
use theblockchainkiller.MiningThread.Files.{Kept}
use theblockchainkiller.MiningThread.Exit.{Signals, mine_blocks-Signals}
use theblockchainkiller.Blockchain.File.{File, blockchain_write_to_file}
use theblockchainkiller.Miner.Run.{Threads, run_mining, miner_main, miner_main-Kept}
use theblockchainkiller.Tests.Sample.{toy}
use theblockchainkiller.Blockchain.Verify.{
  blockchain_verify, verify_list, genesis_is_invalid, verify_blocks, blockchain_is_valid_block_hash,
  check_block, check_transactions, minting_is_invalid, verify_signatures,
}
use theblockchainkiller.Memory.{memcmp_differs, overwrite}
use theblockchainkiller.Buffer.{malloc}
use theblockchainkiller.Transaction.{
  transaction_create, transaction_generate_signature, sign_with, signed_bytes, struct_bytes,
}
use theblockchainkiller.Block.{block_create, block_hash, hashed_bytes, structs_bytes}
use theblockchainkiller.Blockchain.Mine.{synchronized_blockchain_mine_block, mine_loop}
use theblockchainkiller.Blockchain.{blockchain_add_block}
use theblockchainkiller.Endian.{store, low_first}
use theblockchainkiller.Tests.Sample.{checksum, toy_sha256}
use theblockchainkiller.Tests.Exchange.{mining, toy_pair}
use theblockchainkiller.Tests.Programs.{
  environment, started, toy_key, toy_decode, toy_decode-IsDecodeBlock, miner_starts,
}

chain_after : Round → Blockchain
chain_after (continues code c) = c
chain_after (mined c n) = c
chain_after (ends code) = started.sync.blockchain
chain_after Round.undefined = started.sync.blockchain

first_mined : Blockchain
first_mined = chain_after (mine_round little toy toy_key toy_key mining started.sync.blockchain)

first_round :
    mine_round little toy toy_key toy_key mining started.sync.blockchain ≡ mined first_mined 4
unfolding first_mined chain_after blockchain_verify verify_list genesis_is_invalid verify_blocks
    blockchain_is_valid_block_hash check_block check_transactions minting_is_invalid
    verify_signatures memcmp_differs overwrite mine_behind mine_next after_search mine_round malloc
    transaction_create transaction_generate_signature sign_with signed_bytes struct_bytes
    block_create block_hash hashed_bytes structs_bytes synchronized_blockchain_mine_block mine_loop
    blockchain_add_block store low_first checksum toy_sha256
first_round = refl

-- What the disk does with the first block's blockchain.
abbrev first_written : Outcome ℕ × File
first_written = blockchain_write_to_file little first_mined mining.writing 4 (some (7 ∷ []))

abbrev threads : Threads
threads = record {
  created = none ∷ none ∷ [];
  locked = true;
  unlocked = true;
  exit_malloc = true;
  rounds = mining ∷ [];
}

miner_runs :
    miner_main little toy toy_decode environment threads (some (7 ∷ []))
    ≡ ok (written first_written (runs success first_mined))
unfolding miner_main run_mining mine_blocks mine_rounds take_blockchain next_round write_outfile
miner_runs = rw (miner_starts, first_round) refl

miner_main-Kept_example :
    Kept little toy 2 (some (7 ∷ [])) (written first_written (runs success first_mined))
miner_main-Kept_example =
    miner_main-Kept little toy toy_decode toy_decode-IsDecodeBlock environment started threads
      (some (7 ∷ [])) (written first_written (runs success first_mined)) miner_starts (omega arith)
      (toy_pair toy_key) (record { switches = tt; synced_zeros = refl }, tt) miner_runs

-- A block is mined, and then the miner is told to stop.
abbrev two_rounds : List Mining
two_rounds = mining ∷ record mining { stop = true } ∷ []

mine_blocks-Signals_example : Signals (
    mine_blocks little toy toy_key toy_key true true true true two_rounds started.sync.blockchain
      none)
mine_blocks-Signals_example =
    mine_blocks-Signals little toy toy_key toy_key true true true true two_rounds
      started.sync.blockchain none
