-- ===== src/Tests/Mains.antt =====
-- Runs of the bootstrap server and of the discovery client.
use theblockchainkiller.Base.{◌≡◌, refl, true, false, none, some, List, [], ◌∷◌, replicate}
use theblockchainkiller.Runtime.{invalid_input, invalid_command_line_args}
use theblockchainkiller.Endian.{little}
use theblockchainkiller.Buffer.{malloc}
use theblockchainkiller.CommandLine.{microseconds_of}
use theblockchainkiller.Networking.Listener.{ended, timeout, connection}
use theblockchainkiller.Networking.Listener.Keeps.{Shares}
use theblockchainkiller.PeerDiscovery.Server.Keep.{DifferentPeers}
use theblockchainkiller.PeerDiscovery.Server.{intact}
use theblockchainkiller.PeerDiscovery.Threads.{DiscoveryTurn, discover_peers}
use theblockchainkiller.PeerDiscovery.Threads.Retries.{Retries, discover_peers-Retries}
use theblockchainkiller.PeerDiscovery.Programs.{
  BootstrapEnvironment, bootstrap_server_main, ClientEnvironment, read_intervals, client_args,
  client_main,
}
use theblockchainkiller.PeerDiscovery.Programs.Endless.{
  NoSuccess, bootstrap_server_main-DifferentPeers,
}
use theblockchainkiller.Tests.Discovery.{request, discovery, address}
use theblockchainkiller.Tests.Threads.{all_set_up}

abbrev bootstrap_environment : BootstrapEnvironment
bootstrap_environment = record {
  argc = 2;
  port = [];
  strtol = λ arg. 12345;
  allocs = 1;
  list_mutex = true;
  exit_cond = true;
  exit_mutex = true;
  exit_malloc = true;
  setup = all_set_up;
  events = timeout ∷ connection request ∷ connection request ∷ [];
}

abbrev client_environment : ClientEnvironment
client_environment = record {
  argc = 5;
  server_address = [];
  server_port = [];
  peer_address = [];
  peer_port = [];
  options = some [] ∷ [];
  strtol = λ arg. 5;
  inet_pton = λ arg. some (replicate 16 0);
  allocs = 2;
  list_mutex = true;
  exit_cond = true;
  exit_mutex = true;
  exit_malloc = true;
  exchanges = discovery ∷ discovery ∷ [];
}

bootstrap_server_main-DifferentPeers_example :
    Shares DifferentPeers (bootstrap_server_main little bootstrap_environment)
    × NoSuccess (bootstrap_server_main little bootstrap_environment)
bootstrap_server_main-DifferentPeers_example =
    bootstrap_server_main-DifferentPeers little bootstrap_environment

-- The server cannot be reached, then it sends its list, and then the thread is told to stop.
abbrev exchanges : List DiscoveryTurn
exchanges =
    record { discovery = record discovery { connected = false }; stop = false }
    ∷ record { discovery = discovery; stop = true }
    ∷ []

discover_peers-Retries_example :
    Retries little
      (address 80)
      []
      exchanges
      (discover_peers little true (address 80) false exchanges [])
discover_peers-Retries_example = discover_peers-Retries little (address 80) exchanges []

no_port :
    bootstrap_server_main little (record bootstrap_environment { argc = 1 })
    ≡ ended invalid_command_line_args (intact [])
unfolding bootstrap_server_main
no_port = refl

no_pointer : client_main little (record client_environment { allocs = 0 }) ≡ ended invalid_input []
unfolding client_main client_args read_intervals microseconds_of malloc
no_pointer = refl

unknown_option :
    client_main little (record client_environment { options = some [] ∷ none ∷ [] })
    ≡ ended invalid_command_line_args []
unfolding client_main client_args read_intervals
unknown_option = refl
