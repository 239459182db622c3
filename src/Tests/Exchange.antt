-- ===== src/Tests/Exchange.antt =====
-- A peer that switches to a longer blockchain, and then mines a block for it.
use theblockchainkiller.Base.{
  ℕ, ◌≡◌, refl, ap, none, [], ◌∷◌, ◌++◌, arith, ==_refl, true, false, some,
}
use theblockchainkiller.Runtime.{success, Outcome, ok, err, fault}
use theblockchainkiller.Endian.{
  little, Bytes, low_first, store, value, load, shifted_bytes, joined_bytes, htobe64, betoh64,
  to_network, from_network,
}
use theblockchainkiller.Buffer.{
  be64, net, malloc, split, read_u64, read_net, read_array, require, take_bytes, allocate,
  allocate_bytes,
}
use theblockchainkiller.Blockchain.Deserialize.{
  read_block, read_blocks, read_transactions, blockchain_deserialize,
}
use theblockchainkiller.Blockchain.Verify.{
  blockchain_is_valid_block_hash, blockchain_verify, verify_list, genesis_is_invalid, verify_blocks,
}
use theblockchainkiller.Networking.Header.{
  copy_prefix, command_header_serialize, command_header_deserialize,
}
use theblockchainkiller.Networking.Payload.{
  copy_out, require_payload, payload_serialize, payload_deserialize,
}
use theblockchainkiller.Memory.{memcmp_differs, overwrite}
use theblockchainkiller.Blockchain.{
  blockchain_create, Transaction, Blockchain, blockchain_add_block,
}
use theblockchainkiller.Blockchain.Format.{chain_bytes, blocks_bytes, transactions_bytes}
use theblockchainkiller.Blockchain.Serialize.{
  blockchain_serialize, serialize_blocks, serialize_transactions, block_header_bytes,
}
use theblockchainkiller.Transaction.{
  transaction_verify_signature, transaction_create, transaction_generate_signature, sign_with,
  signed_bytes, struct_bytes,
}
use theblockchainkiller.Block.{
  block_create, block_create_genesis_block, block_hash, structs_bytes, hashed_bytes,
}
use theblockchainkiller.Blockchain.Mine.{synchronized_blockchain_mine_block, mine_loop}
use theblockchainkiller.Transaction.Signing.{KeyPair, unsigned, transaction_create-IsSigned}
use theblockchainkiller.Networking.{header_of, command_send_blockchain}
use theblockchainkiller.Networking.Header.Written.{header_bytes}
use theblockchainkiller.Networking.Socket.{moves, move, transfer, recv_all, send_all}
use theblockchainkiller.Networking.Handler.{Handled, returned, blocked, receive_command}
use theblockchainkiller.Consensus.{
  Sync, Exchange, switch_to_longer, receive_blockchain, handle_one_consensus_request,
  run_consensus_peer_client_once,
}
use theblockchainkiller.Consensus.Adopt.{
  KeptOrAdopted, handle_one_consensus_request-KeptOrAdopted,
  run_consensus_peer_client_once-KeptOrAdopted,
}
use theblockchainkiller.MiningThread.{
  Mining, Round, continues, ends, after_search, mine_next, mine_behind, mine_round, take_blockchain,
  mine_blocks, mine_rounds, next_round, write_outfile, went_on, runs,
}
use theblockchainkiller.MiningThread.Valid.{Extended, mine_round-Extended}
use theblockchainkiller.Blockchain.Format.{chain_bytes}
use theblockchainkiller.Peer.{served, mined, start, then}
use theblockchainkiller.Peer.Invariant.{Holds, Reach-Holds}
use theblockchainkiller.Peer.Start.{create_genesis-Holds}
use theblockchainkiller.Tests.Sample.{toy, toy_sha256, checksum, toy_accepts, key, genesis}

abbrev pub shorter : Blockchain
shorter = record { block_list = []; num_leading_zero_bytes_required_in_block_hash = 2 }

abbrev pub longer : Blockchain
longer = record { block_list = genesis ∷ []; num_leading_zero_bytes_required_in_block_hash = 2 }

abbrev pub before : Sync
before = record { blockchain = shorter; version = 5 }

abbrev pub behind : Sync
behind = record { blockchain = longer; version = 6 }

-- The other peer sends its blockchain of 72 bytes in two pieces.
abbrev pub exchange : Exchange
exchange = record {
  connected = true;
  locked = none;
  unlocked = none;
  relocked = none;
  reunlocked = none;
  recv_calls = moves 16 ∷ moves 30 ∷ moves 90 ∷ [];
  send_calls = moves 200 ∷ [];
  stream =
      header_bytes little (record (header_of command_send_blockchain) { command_len = 80 })
      ++ (be64 little 72 ++ chain_bytes little longer);
  allocs = 20;
}

unfoldable pub sent_bytes : {S : Type 0} → Handled S → Bytes
sent_bytes (returned c s sent) = sent
sent_bytes Handled.undefined = []
sent_bytes blocked = []

server_switches :
    handle_one_consensus_request little toy exchange before
    ≡ returned success behind (sent_bytes (handle_one_consensus_request little toy exchange before))
unfolding handle_one_consensus_request receive_command receive_blockchain switch_to_longer recv_all
    send_all transfer move malloc chain_bytes blocks_bytes transactions_bytes block_header_bytes
    be64 net store low_first value load shifted_bytes joined_bytes htobe64 betoh64 to_network
    from_network split read_u64 read_net read_array require take_bytes allocate allocate_bytes
    read_block read_blocks read_transactions blockchain_deserialize command_header_deserialize
    command_header_serialize copy_prefix copy_out require_payload payload_serialize
    payload_deserialize blockchain_serialize serialize_blocks serialize_transactions
    blockchain_verify verify_list genesis_is_invalid verify_blocks memcmp_differs
    blockchain_add_block sent_bytes
server_switches = refl

handle_one_consensus_request-KeptOrAdopted_example : KeptOrAdopted little toy before behind
handle_one_consensus_request-KeptOrAdopted_example =
    handle_one_consensus_request-KeptOrAdopted little toy before (omega arith) exchange success
      behind (sent_bytes (handle_one_consensus_request little toy exchange before)) server_switches

client_switches :
    run_consensus_peer_client_once little toy exchange shorter before
    ≡ returned success behind
        (sent_bytes (run_consensus_peer_client_once little toy exchange shorter before))
unfolding server_switches run_consensus_peer_client_once
client_switches = refl

run_consensus_peer_client_once-KeptOrAdopted_example : KeptOrAdopted little toy before behind
run_consensus_peer_client_once-KeptOrAdopted_example =
    run_consensus_peer_client_once-KeptOrAdopted little toy before (omega arith) exchange shorter
      success behind
      (sent_bytes (run_consensus_peer_client_once little toy exchange shorter before))
      client_switches

pub toy_pair : (k : Bytes) → KeyPair toy k k
unfolding toy_accepts
toy_pair k = record {
  public = k;
  public_read = refl;
  context = λ m. m;
  context_made = λ m. refl;
  accepts = λ k m s rest read signed. accepted m s rest signed;
}
  where
    accepted :
        (m s rest : Bytes) → some (checksum m ∷ []) ≡ some s → toy_accepts m (s ++ rest) ≡ true
    accepted m [] rest e = cc
    accepted m (b ∷ s) rest e =
        let same : checksum m ≡ b = ground arith in rw (← same) (==_refl (checksum m))

created : Outcome (Transaction × ℕ) → Transaction
created (ok (t, n)) = t
created (err c) = unsigned little toy 0 [] [] 0
created fault = unsigned little toy 0 [] [] 0

transaction_made : Transaction
transaction_made = created (transaction_create little toy 7 key key 1 key 3)

transaction_create_runs : transaction_create little toy 7 key key 1 key 3 ≡ ok (transaction_made, 2)
unfolding transaction_made created transaction_create transaction_generate_signature sign_with
    signed_bytes overwrite malloc store low_first checksum
transaction_create_runs = refl

transaction_create-IsSigned_example :
    (transaction_verify_signature little toy transaction_made ≡ ok true)
    × (record transaction_made {
      sender_signature = (unsigned little toy 7 key key 1).sender_signature;
    }
        ≡ unsigned little toy 7 key key 1)
transaction_create-IsSigned_example =
    transaction_create-IsSigned little toy 7 key key 1 key 3 2 transaction_made (toy_pair key)
      transaction_create_runs

abbrev pub mining : Mining
mining = record {
  stop = false;
  switched = none;
  switch_locked = true;
  transaction_time = 7;
  block_time = 8;
  allocs = 9;
  locked = true;
  unlocked = true;
  should_stop = λ _. false;
  mined_version = λ _. 6;
  sync_version = λ _. 6;
  synced = longer;
  writing = record { opened = true; accepted = 10; kept = 9 };
}

chain_after : Round → Blockchain
chain_after (continues code c) = c
chain_after (Round.mined c n) = c
chain_after (ends code) = shorter
chain_after Round.undefined = shorter

grown : Blockchain
grown = chain_after (mine_round little toy key key mining longer)

miner_mines : mine_round little toy key key mining longer ≡ Round.mined grown 4
unfolding server_switches transaction_create_runs grown chain_after mine_round mine_behind mine_next
    after_search block_create block_hash toy_sha256 synchronized_blockchain_mine_block mine_loop
    blockchain_is_valid_block_hash structs_bytes hashed_bytes struct_bytes
miner_mines = refl

mine_round-Extended_example : Extended little toy key key longer grown
mine_round-Extended_example =
    mine_round-Extended little toy key key (toy_pair key) refl mining longer
      (record { keys = tt; hash_fits = refl }, tt) refl success grown (omega arith)
      (ap went_on miner_mines)

Reach-Holds_example : Holds little toy key key 2 0 grown
Reach-Holds_example =
    Reach-Holds little toy key key 2 0 (omega arith) (toy_pair key) refl
      (then
        (then start (
          served before behind exchange success
            (sent_bytes (handle_one_consensus_request little toy exchange before)) server_switches))
        (mined behind mining success grown refl (ap went_on miner_mines)))
      (record { is_valid = tt; is_shaped = tt; same_zeros = refl; no_shorter = omega arith })

mining_switched : Mining
mining_switched = record mining { switched = some longer }

mined_from_switched :
    mine_blocks little toy key key false true true true (mining_switched ∷ []) shorter none
    ≡ runs success grown none
unfolding miner_mines mine_blocks mine_rounds take_blockchain mining_switched next_round
    write_outfile
mined_from_switched = refl

create_genesis-Holds_example : Holds little toy key key 2 1 (blockchain_add_block shorter genesis)
unfolding blockchain_create block_create_genesis_block block_create malloc
create_genesis-Holds_example =
    create_genesis-Holds little toy key key 2 3 4 2 0 shorter genesis refl refl
