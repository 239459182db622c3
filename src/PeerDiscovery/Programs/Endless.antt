-- ===== src/PeerDiscovery/Programs/Endless.antt =====
-- The program of src/peer_discovery_bootstrap_server.c does not return SUCCESS.
use theblockchainkiller.Base.{ℕ, ◌==◌, ◌≢◌, Bool, true, false, ◌&&◌, List, [], ◌∷◌, if◌then◌else◌}
use theblockchainkiller.Runtime.{
  ReturnCode, success, network_function, Outcome, ok, err, fault, ◌>>◌, guard, pthread_function,
}
use theblockchainkiller.CommandLine.Failure.{
  NamesFailure, names_ok, names_err, NamesFailure-bind, NamesFailure-guard, NamesFailure-malloc,
  NamesFailure-microseconds_of,
}
use theblockchainkiller.Endian.{Host}
use theblockchainkiller.Networking.Handler.{Handled, returned, undefined, blocked}
use theblockchainkiller.Networking.Listener.{
  Thread, ended, running, waiting, faulty, finish, go_on, behind, Setup, Event, poll_error, timeout,
  accept_error, other_address, unnamed, connection, serve_event, serve, run_server,
}
use theblockchainkiller.Networking.Listener.Keeps.{
  Shares, shares_ended, Shares-go_on, Shares-if, OthersKeep,
}
use theblockchainkiller.PeerDiscovery.Server.{
  PeerList, intact, Request, handle_one_peer_discovery_request,
}
use theblockchainkiller.PeerDiscovery.Server.Keep.{DifferentPeers}
use theblockchainkiller.PeerDiscovery.Threads.{
  handle_peer_discovery_requests, handle_peer_discovery_requests-DifferentPeers,
}
use theblockchainkiller.PeerDiscovery.Programs.{
  BootstrapEnvironment, bootstrap_args, alone, run_peer_discovery_bootstrap_server,
  bootstrap_server_main,
}

-- A thread that has not returned SUCCESS.
pub data NoSuccess {S : Type 0} : Thread S → Type 0 where
  failed : {code : ReturnCode} {s : S} → code ≢ success → NoSuccess (ended code s)
  still_running : {code : ReturnCode} {s : S} → NoSuccess (running code s)
  still_waiting : NoSuccess waiting
  is_faulty : NoSuccess faulty

NoSuccess-finish :
    {S : Type 0} (exit_malloc : Bool) (code : ReturnCode) (s : S)
    → code ≢ success
    → NoSuccess (finish exit_malloc code s)
NoSuccess-finish true code s w = failed w
NoSuccess-finish false code s w = is_faulty

NoSuccess-behind :
    {S T : Type 0} (r : Handled S) (next : ReturnCode → S → Thread T)
    → ((code : ReturnCode) (s : S) → NoSuccess (next code s))
    → NoSuccess (behind r next)
NoSuccess-behind (returned code s sent) next w = w code s
NoSuccess-behind undefined next w = is_faulty
NoSuccess-behind blocked next w = still_waiting

NoSuccess-if :
    {S : Type 0} {t u : Thread S} (b : Bool)
    → NoSuccess t
    → NoSuccess u
    → NoSuccess (if b then t else u)
NoSuccess-if true w v = w
NoSuccess-if false w v = v

NoSuccess-go_on :
    {S A : Type 0} (o : Outcome A) (s : S) (next : A → Thread S)
    → NamesFailure o
    → ((a : A) → NoSuccess (next a))
    → NoSuccess (go_on true o s next)
NoSuccess-go_on (ok a) s next w v = v a
NoSuccess-go_on (err code) s next (names_err w) v = failed w
NoSuccess-go_on fault s next w v = is_faulty

NamesFailure-guards :
    {A : Type 0} (a b c : Bool) (x : A)
    → NamesFailure
        (do guard a pthread_function; guard b pthread_function; guard c pthread_function; ok x)
NamesFailure-guards a b c x = NamesFailure-bind (NamesFailure-guard a _ λ e. cc) λ _.
    NamesFailure-bind (NamesFailure-guard b _ λ e. cc)
      λ _. NamesFailure-bind (NamesFailure-guard c _ λ e. cc) λ _. names_ok

module _ (h : Host) where
  serve-NoSuccess :
      (keepalive : ℕ) (exit_malloc : Bool) (es : List (Event Request)) (code : ReturnCode)
      (s : PeerList)
      → NoSuccess
          (serve (handle_one_peer_discovery_request h keepalive) exit_malloc (alone es) code s)
  unfolding serve serve_event
  serve-NoSuccess keepalive exit_malloc [] code s = still_running
  serve-NoSuccess keepalive exit_malloc (poll_error ∷ es) code s =
      NoSuccess-finish exit_malloc _ s (λ e. cc)
  serve-NoSuccess keepalive exit_malloc (timeout ∷ es) code s =
      serve-NoSuccess keepalive exit_malloc es code s
  serve-NoSuccess keepalive exit_malloc (accept_error ∷ es) code s =
      NoSuccess-finish exit_malloc _ s (λ e. cc)
  serve-NoSuccess keepalive exit_malloc (other_address ∷ es) code s =
      NoSuccess-finish exit_malloc _ s (λ e. cc)
  serve-NoSuccess keepalive exit_malloc (unnamed ∷ es) code s =
      NoSuccess-finish exit_malloc _ s (λ e. cc)
  serve-NoSuccess keepalive exit_malloc (connection x ∷ es) code s =
      NoSuccess-behind (handle_one_peer_discovery_request h keepalive x s) _
        (serve-NoSuccess keepalive exit_malloc es)

  alone-OthersKeep : (es : List (Event Request)) → OthersKeep DifferentPeers (alone es)
  alone-OthersKeep [] = tt
  alone-OthersKeep (e ∷ es) = ((λ s w. w), alone-OthersKeep es)

  NamesFailure-bootstrap_args : (x : BootstrapEnvironment) → NamesFailure (bootstrap_args h x)
  unfolding bootstrap_args
  NamesFailure-bootstrap_args x = NamesFailure-bind (NamesFailure-microseconds_of _) λ _.
      NamesFailure-bind (NamesFailure-malloc x.allocs)
        λ _. NamesFailure-guards x.list_mutex x.exit_cond x.exit_mutex _

  requests-NoSuccess :
      (keepalive : ℕ) (exit_malloc : Bool) (u : Setup) (es : List (Event Request))
      → NoSuccess
          (handle_peer_discovery_requests h keepalive exit_malloc u false (alone es) (intact []))
  unfolding handle_peer_discovery_requests run_server
  requests-NoSuccess keepalive exit_malloc u es =
      NoSuccess-if (u.socket && (u.reuse_address && (u.ipv6_only && (u.bind && u.listen))))
        (serve-NoSuccess keepalive exit_malloc es success (intact []))
        (NoSuccess-finish exit_malloc network_function (intact []) λ e. cc)

  -- Whatever the command line is and whatever peers connect and send, unless the behaviour is
  -- undefined: no two peers in the bootstrap server's list have the same address all along its loop
  -- and when it returns, where one that has been freed in the list does not count; and the program
  -- does not return SUCCESS: it returns another code, or it still runs or waits for a peer.
  pub bootstrap_server_main-DifferentPeers :
      (x : BootstrapEnvironment)
      → Shares DifferentPeers (bootstrap_server_main h x) × NoSuccess (bootstrap_server_main h x)
  unfolding bootstrap_server_main run_peer_discovery_bootstrap_server
  bootstrap_server_main-DifferentPeers x = (
    Shares-if (x.argc == 2)
        (Shares-go_on true (bootstrap_args h x) (intact []) _ tt λ args.
          handle_peer_discovery_requests-DifferentPeers h args.peer_keepalive_microseconds
            x.exit_malloc x.setup false (alone x.events) (intact []) (alone-OthersKeep x.events) tt)
        (shares_ended tt),
    NoSuccess-if (x.argc == 2)
        (NoSuccess-go_on (bootstrap_args h x) (intact []) _ (NamesFailure-bootstrap_args x) λ args.
          requests-NoSuccess args.peer_keepalive_microseconds x.exit_malloc x.setup x.events)
        (failed λ e. cc),
  )
