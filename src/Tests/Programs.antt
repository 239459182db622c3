-- ===== src/Tests/Programs.antt =====
-- The start of a miner, and a key in base64.
use theblockchainkiller.Base.{◌≡◌, refl, true, none, some, [], ◌∷◌, arith, length, replicate}
use theblockchainkiller.Runtime.{ok}
use theblockchainkiller.Endian.{little, Bytes}
use theblockchainkiller.Buffer.{malloc}
use theblockchainkiller.Memory.{overwrite}
use theblockchainkiller.Base64.{DecodeBlock, IsDecodeBlock, base64_decode}
use theblockchainkiller.Blockchain.{blockchain_create, blockchain_add_block}
use theblockchainkiller.Block.{block_create, block_create_genesis_block}
use theblockchainkiller.Crypto.{max_ssh_key_length}
use theblockchainkiller.Peer.{start}
use theblockchainkiller.Peer.Invariant.{Holds}
use theblockchainkiller.CommandLine.{microseconds_of, sockaddr_of}
use theblockchainkiller.Miner.{
  Environment, Started, read_options, private_key, leading_zeros, decode_key,
  synchronized_blockchain_create, first_blockchain, parse_arguments, main_start,
}
use theblockchainkiller.Miner.Keys.{Defined, decode_key-Defined}
use theblockchainkiller.Miner.Start.{IsReady, main_start-IsReady, main-Holds}
use theblockchainkiller.Tests.Sample.{toy, genesis}
use theblockchainkiller.Tests.Exchange.{toy_pair}

-- A decoder that takes only the first four characters.
abbrev pub toy_decode : DecodeBlock
toy_decode (a ∷ b ∷ c ∷ d ∷ text) = some (a ∷ b ∷ c ∷ [])
toy_decode _ = none

pub toy_decode-IsDecodeBlock : IsDecodeBlock toy_decode
toy_decode-IsDecodeBlock [] bytes e = cc
toy_decode-IsDecodeBlock (a ∷ []) bytes e = cc
toy_decode-IsDecodeBlock (a ∷ b ∷ []) bytes e = cc
toy_decode-IsDecodeBlock (a ∷ b ∷ c ∷ []) bytes e = cc
toy_decode-IsDecodeBlock (a ∷ b ∷ c ∷ d ∷ text) bytes e =
    let same : a ∷ b ∷ c ∷ [] ≡ bytes = ground arith in rw (← same) (omega arith)

decode_key-Defined_example :
    Defined
      (λ key. length key ≡ max_ssh_key_length)
      (decode_key toy_decode (65 ∷ 66 ∷ 67 ∷ 68 ∷ []))
decode_key-Defined_example =
    decode_key-Defined toy_decode toy_decode-IsDecodeBlock (65 ∷ 66 ∷ 67 ∷ 68 ∷ [])

abbrev pub environment : Environment
environment = record {
  argc = 9;
  peer_address = [];
  peer_port = [];
  server_address = [];
  server_port = [];
  options = leading_zeros [] ∷ private_key (65 ∷ 66 ∷ 67 ∷ 68 ∷ []) ∷ [];
  private_variable = none;
  public_variable = some (65 ∷ 66 ∷ 67 ∷ 68 ∷ []);
  strtol = λ arg. 2;
  inet_pton = λ arg. some (replicate 16 0);
  allocs = 20;
  list_mutex = true;
  discovery_cond = true;
  discovery_mutex = true;
  now = 3;
  mining_inits = none ∷ none ∷ none ∷ none ∷ [];
  server_cond = true;
  server_mutex = true;
}

abbrev pub toy_key : Bytes
toy_key = 65 ∷ 66 ∷ 67 ∷ replicate 4093 0

abbrev pub started : Started
started = record {
  sync = record {
    blockchain = record {
      block_list = genesis ∷ [];
      num_leading_zero_bytes_required_in_block_hash = 2;
    };
    version = 0;
  };
  miner_public_key = toy_key;
  miner_private_key = toy_key;
  interval_microseconds = 20_000_000;
  peer_addr = sockaddr_of little (λ arg. 2) (replicate 16 0) [];
  bootstrap_server_addr = sockaddr_of little (λ arg. 2) (replicate 16 0) [];
}

pub miner_starts : main_start little toy_decode environment ≡ ok started
unfolding main_start parse_arguments read_options decode_key base64_decode overwrite microseconds_of
    malloc first_blockchain blockchain_create block_create_genesis_block block_create
    blockchain_add_block synchronized_blockchain_create
miner_starts = refl

main_start-IsReady_example : IsReady little toy started
main_start-IsReady_example =
    main_start-IsReady little toy toy_decode toy_decode-IsDecodeBlock environment started
      miner_starts

main-Holds_example : Holds little toy toy_key toy_key 2 1 started.sync.blockchain
main-Holds_example =
    main-Holds little toy toy_decode toy_decode-IsDecodeBlock environment started started.sync
      miner_starts (omega arith) (toy_pair toy_key) start
