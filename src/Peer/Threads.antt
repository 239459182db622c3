-- ===== src/Peer/Threads.antt =====
-- What the threads of a peer keep of its blockchain, each from its start to its end, while the other
-- threads do what keeps it too.
use theblockchainkiller.Base.{ℕ, suc, ◌≤◌, ◌≡◌, Bool, ◌&&◌, List, [], ◌∷◌, ◌++◌}
use theblockchainkiller.Runtime.{ReturnCode, success}
use theblockchainkiller.Endian.{Host, Bytes}
use theblockchainkiller.Crypto.{OpenSsl, sha256_digest_length}
use theblockchainkiller.Buffer.{malloc}
use theblockchainkiller.Networking.Handler.{returned}
use theblockchainkiller.Blockchain.{Blockchain}
use theblockchainkiller.Networking.Listener.{Thread, ended, running, waiting, faulty, Setup, Turn}
use theblockchainkiller.Networking.Listener.Keeps.{
  Shares, shares_ended, Shares-finish, Shares-if, Shares-go_on, Shares-go_on_mutex, Shares-behind,
  OthersKeep, run_server-Shares,
}
use theblockchainkiller.PeerDiscovery.{PeerInfo}
use theblockchainkiller.Consensus.{
  Sync, Exchange, handle_one_consensus_request, run_consensus_peer_client_once,
}
use theblockchainkiller.Consensus.Adopt.{
  handle_one_consensus_request-KeptOrAdopted, run_consensus_peer_client_once-KeptOrAdopted,
}
use theblockchainkiller.Consensus.Threads.{
  Copy, copied, stopped, copy_peers, ClientRun, Asked, without_code, exchange_all, ask_copied,
  run_consensus_peer_client, run_consensus_peer_server, broadcast_blockchain,
}
use theblockchainkiller.Peer.Invariant.{Holds, KeptOrAdopted-Holds}

module _ (h : Host) (ssl : OpenSsl) (public_key private_key : Bytes) (zeros blocks : ℕ)
    (in_digest : zeros ≤ sha256_digest_length) where
  -- The invariant of the shared blockchain.
  abbrev pub SyncHolds : Sync → Type 0
  SyncHolds s = Holds h ssl public_key private_key zeros blocks s.blockchain

  served-Holds :
      (x : Exchange) (s s' : Sync) (c : ReturnCode) (sent : Bytes)
      → SyncHolds s
      → handle_one_consensus_request h ssl x s ≡ returned c s' sent
      → SyncHolds s'
  served-Holds x s s' c sent w e =
      KeptOrAdopted-Holds h ssl public_key private_key zeros blocks s s'
        (handle_one_consensus_request-KeptOrAdopted h ssl s (rw w.same_zeros in_digest) x c s' sent
          e)
        w

  -- If the required zero bytes are within the digest and the other threads keep the invariant, then
  -- whatever peers connect and send, the consensus server keeps it from its start to its return: the
  -- shared blockchain is valid, its keys and hashes fill their arrays, and it has the same difficulty
  -- and no fewer blocks than it had at least.
  pub run_consensus_peer_server-Holds :
      (exit_malloc : Bool) (u : Setup) (stop : Bool) (ts : List (Turn Exchange Sync)) (s : Sync)
      → OthersKeep SyncHolds ts
      → SyncHolds s
      → Shares SyncHolds (run_consensus_peer_server h ssl exit_malloc u stop ts s)
  unfolding run_consensus_peer_server
  run_consensus_peer_server-Holds exit_malloc =
      run_server-Shares (handle_one_consensus_request h ssl) exit_malloc SyncHolds served-Holds

  asked-Holds :
      (x : Exchange) (ours : Blockchain) (s s' : Sync) (c : ReturnCode) (sent : Bytes)
      → SyncHolds s
      → run_consensus_peer_client_once h ssl x ours s ≡ returned c s' sent
      → SyncHolds s'
  asked-Holds x ours s s' c sent w e =
      KeptOrAdopted-Holds h ssl public_key private_key zeros blocks s s'
        (run_consensus_peer_client_once-KeptOrAdopted h ssl s (rw w.same_zeros in_digest) x ours c
          s' sent e)
        w

  abbrev pub AskedHolds : Asked → Type 0
  AskedHolds a = SyncHolds a.sync

  module _ (x : ClientRun)
      (others : (k : ℕ) (p : PeerInfo) (s : Sync)
        → SyncHolds s
        → SyncHolds ((x.contact k p).others s)) where
    exchange_all-Holds :
        (stop : Bool) (k : ℕ) (ps asked : List PeerInfo) (s : Sync)
        → SyncHolds s
        → Shares AskedHolds (exchange_all h ssl x stop k ps s asked)
    unfolding exchange_all
    exchange_all-Holds stop k [] asked s w = Shares-finish x.exit_malloc success _ w
    exchange_all-Holds stop k (p ∷ ps) asked s w =
        let c = x.contact k p in
        Shares-if stop (Shares-finish x.exit_malloc success _ w) (
          Shares-behind (run_consensus_peer_client_once h ssl c.exchange c.ours (c.others s)) _
            (λ code s' sent.
              asked-Holds c.exchange c.ours (c.others s) s' code sent (others k p s w))
            λ code s' w'. exchange_all-Holds c.stop (suc k) ps (asked ++ (p ∷ [])) s' w')

    ask_copied-Holds :
        (copy : Copy) (s : Sync) → SyncHolds s → Shares AskedHolds (ask_copied h ssl x copy s)
    unfolding ask_copied
    ask_copied-Holds (stopped code) s w = Shares-finish x.exit_malloc code _ w
    ask_copied-Holds (copied ps n) s w =
        Shares-go_on_mutex x.exit_malloc x.unlocked _ w (exchange_all-Holds x.stop 0 ps [] s w)

    -- If the required zero bytes are within the digest and the other threads keep the invariant, then
    -- whichever peers the client asks, whatever they answer and on whatever path it returns, the
    -- client keeps it: the shared blockchain is valid, its keys and hashes fill their arrays, and it
    -- has the same difficulty and no fewer blocks than it had at least.
    pub run_consensus_peer_client-Holds :
        (ps : List PeerInfo) (s : Sync)
        → SyncHolds s
        → Shares AskedHolds (run_consensus_peer_client h ssl x ps s)
    unfolding run_consensus_peer_client
    run_consensus_peer_client-Holds ps s w =
        Shares-go_on x.exit_malloc (malloc x.allocs) _ _ w λ (_, n).
          Shares-go_on_mutex x.exit_malloc x.locked _ w (ask_copied-Holds (copy_peers ps [] n) s w)

    without_code-Holds :
        (t : Thread Asked) → Shares AskedHolds t → Shares AskedHolds (without_code t)
    without_code-Holds (ended code a) (shares_ended w) = shares_ended w
    without_code-Holds (running code a) w = w
    without_code-Holds waiting w = w
    without_code-Holds faulty w = w

    broadcast_blockchain-Holds :
        (cond_init mutex_init : Bool) (ps : List PeerInfo) (s : Sync)
        → SyncHolds s
        → Shares AskedHolds (broadcast_blockchain h ssl cond_init mutex_init x ps s)
    unfolding broadcast_blockchain
    broadcast_blockchain-Holds cond_init mutex_init ps s w =
        Shares-if (cond_init && mutex_init)
          (without_code-Holds _ (run_consensus_peer_client-Holds ps s w)) (shares_ended w)
