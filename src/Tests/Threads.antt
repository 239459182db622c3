-- ===== src/Tests/Threads.antt =====
-- Threads of a peer and of the bootstrap server.
use theblockchainkiller.Base.{◌≡◌, refl, true, false, none, List, [], ◌∷◌, arith, reverse}
use theblockchainkiller.Runtime.{success, network_function}
use theblockchainkiller.Endian.{little}
use theblockchainkiller.Networking.Handler.{returned}
use theblockchainkiller.Networking.Listener.{
  Setup, Event, poll_error, timeout, connection, Turn, ended, serve,
}
use theblockchainkiller.Networking.Listener.Keeps.{Shares}
use theblockchainkiller.Networking.Listener.Ends.{Explained, serve-Explained}
use theblockchainkiller.Consensus.{
  Sync, Exchange, handle_one_consensus_request, run_consensus_peer_client_once,
}
use theblockchainkiller.Consensus.Threads.{
  ClientRun, asked_of, run_consensus_peer_client, run_consensus_peer_server,
}
use theblockchainkiller.Consensus.Threads.Asks.{run_consensus_peer_client-asks}
use theblockchainkiller.Peer.Threads.{
  SyncHolds, AskedHolds, run_consensus_peer_server-Holds, run_consensus_peer_client-Holds,
}
use theblockchainkiller.Tests.Sample.{toy, key}
use theblockchainkiller.Tests.Exchange.{before, exchange, shorter}
use theblockchainkiller.Tests.Discovery.{known}

abbrev pub all_set_up : Setup
all_set_up = record {
  socket = true;
  reuse_address = true;
  ipv6_only = true;
  bind = true;
  listen = true;
}

abbrev turn : {X S : Type 0} → Event X → Turn X S
turn e = record { event = e; others = λ s. s; stop = false }

abbrev turns : List (Turn Exchange Sync)
turns =
    turn timeout ∷ turn (connection exchange) ∷ turn (connection exchange) ∷ turn poll_error ∷ []

before-Holds : SyncHolds little toy key key 2 0 (omega arith) before
before-Holds = record { is_valid = tt; is_shaped = tt; same_zeros = refl; no_shorter = omega arith }

run_consensus_peer_server-Holds_example :
    Shares
      (SyncHolds little toy key key 2 0 (omega arith))
      (run_consensus_peer_server little toy true all_set_up false turns before)
run_consensus_peer_server-Holds_example =
    run_consensus_peer_server-Holds little toy key key 2 0 (omega arith) true all_set_up false turns
      before ((λ s w. w), ((λ s w. w), ((λ s w. w), ((λ s w. w), tt)))) before-Holds

-- The server answers two requests and ends when `poll` fails.
serve-Explained_example :
    Explained
      (handle_one_consensus_request little toy)
      turns
      (serve (handle_one_consensus_request little toy) true turns success before)
serve-Explained_example =
    serve-Explained (handle_one_consensus_request little toy) turns success before

-- No peer can be reached.
abbrev client_run : ClientRun
client_run = record {
  allocs = 7;
  locked = none;
  unlocked = none;
  stop = false;
  contact = λ k p. record {
    others = λ s. s;
    ours = shorter;
    exchange = record exchange { connected = false };
    stop = false;
  };
  exit_malloc = true;
}

run_consensus_peer_client-Holds_example :
    Shares
      (AskedHolds little toy key key 2 0 (omega arith))
      (run_consensus_peer_client little toy client_run known before)
run_consensus_peer_client-Holds_example =
    run_consensus_peer_client-Holds little toy key key 2 0 (omega arith) client_run (λ k p s w. w)
      known before before-Holds

nobody_answers :
    (s : Sync)
    → run_consensus_peer_client_once little toy (record exchange { connected = false }) shorter s
      ≡ returned network_function s []
unfolding run_consensus_peer_client_once
nobody_answers s = refl

run_consensus_peer_client-asks_example :
    (s : Sync) × (run_consensus_peer_client little toy client_run known before
      ≡ ended success (asked_of s (reverse known)))
run_consensus_peer_client-asks_example =
    run_consensus_peer_client-asks little toy client_run (λ k p. refl)
      (λ k p s. (network_function, s, [], nobody_answers s)) known before refl refl refl refl
      (omega arith)
