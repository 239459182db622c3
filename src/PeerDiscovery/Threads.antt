-- ===== src/PeerDiscovery/Threads.antt =====
-- The loops of src/peer_discovery_bootstrap_server_thread.c and src/peer_discovery_thread.c.
pub mod Retries
use theblockchainkiller.Base.{ℕ, Bool, List, [], ◌∷◌, All, if◌then◌else◌}
use theblockchainkiller.Runtime.{ReturnCode, success}
use theblockchainkiller.Endian.{Host}
use theblockchainkiller.Networking.Listener.{
  Thread, running, finish, behind, Setup, Turn, run_server,
}
use theblockchainkiller.Networking.Listener.Keeps.{
  Shares, shares_running, Shares-finish, Shares-if, Shares-behind, OthersKeep, run_server-Shares,
}
use theblockchainkiller.PeerDiscovery.{PeerInfo, SockAddr}
use theblockchainkiller.PeerDiscovery.Server.{PeerList, Request, handle_one_peer_discovery_request}
use theblockchainkiller.PeerDiscovery.Server.Keep.{
  DifferentPeers, handle_one_peer_discovery_request-DifferentPeers,
}
use theblockchainkiller.PeerDiscovery.Client.{Discovery, discover_peers_once}

-- One exchange with the bootstrap server, and what `*args->should_stop` reads after the sleep.
pub record DiscoveryTurn : Type 0 where
  pub discovery : Discovery
  pub stop : Bool

module _ (h : Host) where
  unfoldable pub handle_peer_discovery_requests :
      (peer_keepalive_microseconds : ℕ)
      → Bool
      → Setup
      → Bool
      → List (Turn Request PeerList)
      → PeerList
      → Thread PeerList
  handle_peer_discovery_requests keepalive exit_malloc u stop ts s =
      run_server (handle_one_peer_discovery_request h keepalive) exit_malloc u stop ts s

  unfoldable pub discover_loop :
      Bool → SockAddr → List DiscoveryTurn → ReturnCode → List PeerInfo → Thread (List PeerInfo)
  discover_loop exit_malloc peer_addr [] code ps = running code ps
  discover_loop exit_malloc peer_addr (t ∷ ts) code ps =
      behind (discover_peers_once h t.discovery peer_addr ps) λ code' ps'.
        let rest = discover_loop exit_malloc peer_addr ts code' ps' in
        if t.stop then finish exit_malloc code' ps' else rest

  unfoldable pub discover_peers :
      Bool → SockAddr → (stop : Bool) → List DiscoveryTurn → List PeerInfo → Thread (List PeerInfo)
  discover_peers exit_malloc peer_addr stop ts ps =
      let rest = discover_loop exit_malloc peer_addr ts success ps in
      if stop then finish exit_malloc success ps else rest

  -- Whatever peers connect and send, if no two peers in the bootstrap server's list have the same
  -- address at its start, then none have all along its loop and when it returns, as long as what
  -- other threads do keeps this too.
  pub handle_peer_discovery_requests-DifferentPeers :
      (keepalive : ℕ) (exit_malloc : Bool) (u : Setup) (stop : Bool)
      (ts : List (Turn Request PeerList)) (s : PeerList)
      → OthersKeep DifferentPeers ts
      → DifferentPeers s
      → Shares DifferentPeers (handle_peer_discovery_requests keepalive exit_malloc u stop ts s)
  unfolding handle_peer_discovery_requests
  handle_peer_discovery_requests-DifferentPeers keepalive exit_malloc =
      run_server-Shares (handle_one_peer_discovery_request h keepalive) exit_malloc DifferentPeers
        λ x s s' code sent w e.
          handle_one_peer_discovery_request-DifferentPeers h keepalive x s s' code sent w e
