-- ===== src/Miner.antt =====
-- src/miner.c: from the command line to the call of `mine_blocks`. What is printed is left out, and
-- what concerns Windows alone.
pub mod Keys
pub mod Run
pub mod Start
use theblockchainkiller.Base.{
  ℕ, ◌+◌, ◌*◌, ◌/◌, ◌%◌, ◌^◌, ◌≤◌, Bool, true, false, Option, none, some, List, [], ◌∷◌, length,
  ltb, replicate, if◌then◌else◌, not,
}
use theblockchainkiller.Runtime.{
  ReturnCode, Outcome, ok, err, fault, ◌>>=◌, ◌>>◌, guard, invalid_command_line_args, invalid_input,
  pthread_function,
}
use theblockchainkiller.Endian.{Host, Bytes, to_network}
use theblockchainkiller.Buffer.{malloc}
use theblockchainkiller.Crypto.{max_ssh_key_length}
use theblockchainkiller.Base64.{DecodeBlock, base64_decode}
use theblockchainkiller.CommandLine.{
  default_communication_interval_seconds, microseconds_of, parsed_address, untested_malloc,
  refused_malloc, sockaddr_of,
}
use theblockchainkiller.Blockchain.{Blockchain, blockchain_create, blockchain_add_block}
use theblockchainkiller.Block.{block_create_genesis_block}
use theblockchainkiller.Consensus.{Sync}
use theblockchainkiller.PeerDiscovery.{SockAddr}

abbrev num_leading_zero_bytes_in_block_hash : ℕ
num_leading_zero_bytes_in_block_hash = 3

-- What `getopt` gives for "i:p:k:n:": an option with its argument, or anything else.
pub data Opt : Type 0 where
  interval private_key public_key leading_zeros : Bytes → Opt
  other : Opt

pub record Settings : Type 0 where
  pub communication_interval_seconds : ℕ
  pub num_leading_zeros : ℕ
  pub private_base64 : Option Bytes
  pub public_base64 : Option Bytes

abbrev default_settings : Settings
default_settings = record {
  communication_interval_seconds = default_communication_interval_seconds;
  num_leading_zeros = num_leading_zero_bytes_in_block_hash;
  private_base64 = none;
  public_base64 = none;
}

-- What the environment gives: the number of arguments and the positional ones, the options, the two
-- environment variables, `strtol` in base 10 (its result as a 64-bit number) and `inet_pton`; the
-- number of allocations that succeed; whether each of the calls that initialise a mutex or a
-- condition succeeds (`none` is 0 where the result is taken for a return code); and the time.
pub record Environment : Type 0 where
  pub argc : ℕ
  pub peer_address : Bytes
  pub peer_port : Bytes
  pub server_address : Bytes
  pub server_port : Bytes
  pub options : List Opt
  pub private_variable : Option Bytes
  pub public_variable : Option Bytes
  pub strtol : Bytes → ℕ
  pub inet_pton : Bytes → Option Bytes
  pub allocs : ℕ
  pub list_mutex : Bool
  pub discovery_cond : Bool
  pub discovery_mutex : Bool
  pub now : ℕ
  pub mining_inits : List (Option ReturnCode)
  pub server_cond : Bool
  pub server_mutex : Bool

-- What `mine_blocks` and the other two threads are started with.
pub record Started : Type 0 where
  pub sync : Sync
  pub miner_public_key : Bytes
  pub miner_private_key : Bytes
  pub interval_microseconds : ℕ
  pub peer_addr : SockAddr
  pub bootstrap_server_addr : SockAddr

-- The loop over the options: the last one of a kind counts.
unfoldable pub read_options : (Bytes → ℕ) → List Opt → Settings → Outcome Settings
read_options strtol [] s = ok s
read_options strtol (interval arg ∷ opts) s =
    read_options strtol opts (record s { communication_interval_seconds = strtol arg })
read_options strtol (private_key arg ∷ opts) s =
    read_options strtol opts (record s { private_base64 = some arg })
read_options strtol (public_key arg ∷ opts) s =
    read_options strtol opts (record s { public_base64 = some arg })
read_options strtol (leading_zeros arg ∷ opts) s =
    read_options strtol opts (record s { num_leading_zeros = strtol arg })
read_options strtol (other ∷ opts) s = err invalid_command_line_args

-- A key from the options, or else from the environment.
abbrev key_text : Option Bytes → Option Bytes → Outcome Bytes
key_text (some text) variable = ok text
key_text none (some text) = ok text
key_text none none = err invalid_command_line_args

-- An `ssh_key_t` of zeros that gets the decoded key. The quotient is one of integers, which `ceil`
-- leaves as it is.
unfoldable pub decode_key : DecodeBlock → Bytes → Outcome Bytes
decode_key decode text = do
  guard (not (ltb max_ssh_key_length (length text * 3 / 4 + 1))) invalid_command_line_args
  base64_decode decode text (replicate max_ssh_key_length 0)

-- The calls of `pthread_cond_init` and `pthread_mutex_init` whose results are taken for return codes.
abbrev pub all_initialised : List (Option ReturnCode) → Outcome (Unit {0})
all_initialised [] = ok tt
all_initialised (none ∷ inits) = all_initialised inits
all_initialised (some code ∷ inits) = err code

-- `synchronized_blockchain_create`, which writes to what `malloc` gives without a test.
unfoldable pub synchronized_blockchain_create : Blockchain → ℕ → Outcome (Sync × ℕ)
synchronized_blockchain_create initial_blockchain n = do
  n' ← untested_malloc n
  ok (record { blockchain = initial_blockchain; version = 0 }, n')

-- From `blockchain_create` to `synchronized_blockchain_create`: a blockchain with a genesis block.
unfoldable pub first_blockchain : (zeros now : ℕ) → ℕ → Outcome (Sync × ℕ)
first_blockchain zeros now n = do
  (c, n1) ← blockchain_create zeros n
  (g, n2) ← block_create_genesis_block now n1
  (_, n3) ← malloc n2
  synchronized_blockchain_create (blockchain_add_block c g) n3

-- What `main` has when it comes to the keys.
pub record Parsed : Type 0 where
  pub num_leading_zeros : ℕ
  pub private_text : Bytes
  pub public_text : Bytes
  pub peer_addr : SockAddr
  pub bootstrap_server_addr : SockAddr
  pub interval_microseconds : ℕ
  pub allocs : ℕ

-- `main` up to the initialisation of what belongs to the discovery of peers.
unfoldable pub parse_arguments : Host → Environment → Outcome Parsed
parse_arguments h x = do
  guard (not (ltb x.argc 5)) invalid_command_line_args
  s ← read_options x.strtol x.options default_settings
  private_text ← key_text s.private_base64 x.private_variable
  public_text ← key_text s.public_base64 x.public_variable
  server_addr ← parsed_address (x.inet_pton x.server_address)
  peer_addr ← parsed_address (x.inet_pton x.peer_address)
  interval_microseconds ← microseconds_of s.communication_interval_seconds
  n1 ← refused_malloc x.allocs
  (_, n2) ← malloc n1
  n3 ← untested_malloc n2
  guard x.list_mutex pthread_function
  guard x.discovery_cond pthread_function
  guard x.discovery_mutex pthread_function
  ok (record {
    num_leading_zeros = s.num_leading_zeros;
    private_text = private_text;
    public_text = public_text;
    peer_addr = sockaddr_of h x.strtol peer_addr x.peer_port;
    bootstrap_server_addr = sockaddr_of h x.strtol server_addr x.server_port;
    interval_microseconds = interval_microseconds;
    allocs = n3;
  })

-- `main` up to the creation of the threads.
unfoldable pub main_start : Host → DecodeBlock → Environment → Outcome Started
main_start h decode x = do
  p ← parse_arguments h x
  miner_public_key ← decode_key decode p.public_text
  miner_private_key ← decode_key decode p.private_text
  (sync, _) ← first_blockchain p.num_leading_zeros x.now p.allocs
  all_initialised x.mining_inits
  guard x.server_cond pthread_function
  guard x.server_mutex pthread_function
  ok (record {
    sync = sync;
    miner_public_key = miner_public_key;
    miner_private_key = miner_private_key;
    interval_microseconds = p.interval_microseconds;
    peer_addr = p.peer_addr;
    bootstrap_server_addr = p.bootstrap_server_addr;
  })
