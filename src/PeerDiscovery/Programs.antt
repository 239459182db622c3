-- ===== src/PeerDiscovery/Programs.antt =====
-- The programs of src/peer_discovery_bootstrap_server.c and src/peer_discovery_client.c. What is
-- printed is left out, and what concerns Windows alone.
pub mod Endless
use theblockchainkiller.Base.{
  ℕ, ◌+◌, ◌*◌, ◌^◌, ◌==◌, Bool, true, false, Option, none, some, List, [], ◌∷◌, replicate, ltb,
  if◌then◌else◌, not,
}
use theblockchainkiller.Runtime.{
  Outcome, ok, err, ◌>>=◌, ◌>>◌, guard, invalid_command_line_args, pthread_function,
}
use theblockchainkiller.Endian.{Host, Bytes}
use theblockchainkiller.Buffer.{malloc}
use theblockchainkiller.CommandLine.{
  default_communication_interval_seconds, microseconds_of, parsed_address, refused_malloc,
  sockaddr_of,
}
use theblockchainkiller.Networking.Listener.{Thread, ended, go_on, Setup, Event, Turn}
use theblockchainkiller.PeerDiscovery.{PeerInfo, SockAddr}
use theblockchainkiller.PeerDiscovery.Server.{PeerList, intact, Request}
use theblockchainkiller.PeerDiscovery.Client.{Discovery}
use theblockchainkiller.PeerDiscovery.Threads.{
  DiscoveryTurn, handle_peer_discovery_requests, discover_peers,
}

abbrev default_peer_keepalive_seconds : ℕ
default_peer_keepalive_seconds = 60

-- What the bootstrap server's environment gives: the number of arguments and the first one, `strtol`
-- (its result as a 64-bit number), the number of allocations that succeed before the loop, whether
-- the calls that initialise mutexes and a condition succeed, whether the loop's function can
-- allocate its return code, and what its socket gives.
pub record BootstrapEnvironment : Type 0 where
  pub argc : ℕ
  pub port : Bytes
  pub strtol : Bytes → ℕ
  pub allocs : ℕ
  pub list_mutex : Bool
  pub exit_cond : Bool
  pub exit_mutex : Bool
  pub exit_malloc : Bool
  pub setup : Setup
  pub events : List (Event Request)

-- What the server's function is called with, besides an empty list of peers.
pub record BootstrapArgs : Type 0 where
  pub peer_discovery_bootstrap_server_addr : SockAddr
  pub peer_keepalive_microseconds : ℕ

pub bootstrap_args : Host → BootstrapEnvironment → Outcome BootstrapArgs
bootstrap_args h x = do
  peer_keepalive_microseconds ← microseconds_of default_peer_keepalive_seconds
  (_, _) ← malloc x.allocs
  guard x.list_mutex pthread_function
  guard x.exit_cond pthread_function
  guard x.exit_mutex pthread_function
  ok (record {
    peer_discovery_bootstrap_server_addr = sockaddr_of h x.strtol (replicate 16 0) x.port;
    peer_keepalive_microseconds = peer_keepalive_microseconds;
  })

-- The rounds of a loop that is the program's only thread: nothing else changes the list, and
-- nothing sets `should_stop`.
abbrev pub alone : List (Event Request) → List (Turn Request PeerList)
alone [] = []
alone (e ∷ es) = record { event = e; others = λ s. s; stop = false } ∷ alone es

pub run_peer_discovery_bootstrap_server : Host → BootstrapEnvironment → Thread PeerList
run_peer_discovery_bootstrap_server h x = go_on true (bootstrap_args h x) (intact []) λ args.
    handle_peer_discovery_requests h args.peer_keepalive_microseconds x.exit_malloc x.setup false
      (alone x.events) (intact [])

unfoldable pub bootstrap_server_main : Host → BootstrapEnvironment → Thread PeerList
bootstrap_server_main h x =
    if x.argc == 2
    then run_peer_discovery_bootstrap_server h x
    else ended invalid_command_line_args (intact [])

-- What the client's environment gives: the number of arguments and the positional ones, the options
-- that `getopt` gives for "i:" (`none` is anything else), `strtol`, `inet_pton`, and as above.
pub record ClientEnvironment : Type 0 where
  pub argc : ℕ
  pub server_address : Bytes
  pub server_port : Bytes
  pub peer_address : Bytes
  pub peer_port : Bytes
  pub options : List (Option Bytes)
  pub strtol : Bytes → ℕ
  pub inet_pton : Bytes → Option Bytes
  pub allocs : ℕ
  pub list_mutex : Bool
  pub exit_cond : Bool
  pub exit_mutex : Bool
  pub exit_malloc : Bool
  pub exchanges : List Discovery

-- What `discover_peers` is called with, besides an empty list of peers.
pub record ClientArgs : Type 0 where
  pub peer_discovery_bootstrap_server_addr : SockAddr
  pub peer_addr : SockAddr
  pub communication_interval_microseconds : ℕ

-- The loop over the options: the last one counts.
unfoldable pub read_intervals : (Bytes → ℕ) → List (Option Bytes) → ℕ → Outcome ℕ
read_intervals strtol [] seconds = ok seconds
read_intervals strtol (some arg ∷ opts) seconds = read_intervals strtol opts (strtol arg)
read_intervals strtol (none ∷ opts) seconds = err invalid_command_line_args

unfoldable pub client_args : Host → ClientEnvironment → Outcome ClientArgs
client_args h x = do
  guard (not (ltb x.argc 5)) invalid_command_line_args
  seconds ← read_intervals x.strtol x.options default_communication_interval_seconds
  server_addr ← parsed_address (x.inet_pton x.server_address)
  peer_addr ← parsed_address (x.inet_pton x.peer_address)
  interval_microseconds ← microseconds_of seconds
  n1 ← refused_malloc x.allocs
  (_, _) ← malloc n1
  guard x.list_mutex pthread_function
  guard x.exit_cond pthread_function
  guard x.exit_mutex pthread_function
  ok (record {
    peer_discovery_bootstrap_server_addr = sockaddr_of h x.strtol server_addr x.server_port;
    peer_addr = sockaddr_of h x.strtol peer_addr x.peer_port;
    communication_interval_microseconds = interval_microseconds;
  })

-- The rounds of a loop that nothing stops.
abbrev pub endless : List Discovery → List DiscoveryTurn
endless [] = []
endless (d ∷ ds) = record { discovery = d; stop = false } ∷ endless ds

unfoldable pub client_main : Host → ClientEnvironment → Thread (List PeerInfo)
client_main h x =
    go_on true (client_args h x) []
      λ args. discover_peers h x.exit_malloc args.peer_addr false (endless x.exchanges) []
