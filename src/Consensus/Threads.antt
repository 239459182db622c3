-- ===== src/Consensus/Threads.antt =====
-- The threads of src/consensus_peer_server_thread.c and src/consensus_peer_client_thread.c, and
-- `broadcast_blockchain` of src/mining_thread.c, which starts the second.

pub mod Asks
use theblockchainkiller.Base.{
  ℕ, suc, Bool, true, false, ◌&&◌, Option, none, some, List, [], ◌∷◌, ◌++◌, if◌then◌else◌,
}
use theblockchainkiller.Runtime.{
  ReturnCode, success, could_not_malloc, pthread_function, Outcome, ok, err, fault,
}
use theblockchainkiller.Endian.{Host}
use theblockchainkiller.Crypto.{OpenSsl}
use theblockchainkiller.Buffer.{malloc}
use theblockchainkiller.Blockchain.{Blockchain}
use theblockchainkiller.Networking.Handler.{Handled}
use theblockchainkiller.Networking.Listener.{
  Thread, ended, faulty, finish, go_on, go_on_mutex, behind, Setup, Turn, run_server,
}
use theblockchainkiller.PeerDiscovery.{PeerInfo}
use theblockchainkiller.Consensus.{
  Sync, Exchange, handle_one_consensus_request, run_consensus_peer_client_once,
}

-- The copy of the list of peers, or the code with which the client gives up.
pub data Copy : Type 0 where
  copied : List PeerInfo → ℕ → Copy
  stopped : ReturnCode → Copy

-- The copy's order is reversed. `return_code` is still SUCCESS where a copy cannot be allocated.
pub copy_peers : List PeerInfo → List PeerInfo → ℕ → Copy
copy_peers [] copy n = copied copy n
copy_peers (p ∷ ps) copy n = elim (malloc n) as (λ _. Copy) [
  | ok (_, n1) ↦ elim (malloc n1) as (λ _. Copy) [
    | ok (_, n2) ↦ copy_peers ps (p ∷ copy) n2
    | _ ↦ stopped could_not_malloc
  ]
  | _ ↦ stopped success
]

-- What happens during one exchange with a peer: what other threads have done to the shared state
-- before, the blockchain that is sent, the exchange, and what `*args->should_stop` reads after it.
pub record Contact : Type 0 where
  pub others : Sync → Sync
  pub ours : Blockchain
  pub exchange : Exchange
  pub stop : Bool

-- The shared state, and the peers with which the client has exchanged blockchains.
pub record Asked : Type 0 where
  pub sync : Sync
  pub asked : List PeerInfo

abbrev pub asked_of : Sync → List PeerInfo → Asked
asked_of s ps = record { sync = s; asked = ps }

abbrev pub without_code : Thread Asked → Thread Asked
without_code (ended code a) = ended success a
without_code t = t

-- What the environment does while the client runs.
pub record ClientRun : Type 0 where
  pub allocs : ℕ
  pub locked : Option ReturnCode
  pub unlocked : Option ReturnCode
  pub stop : Bool
  pub contact : ℕ → PeerInfo → Contact
  pub exit_malloc : Bool

module _ (h : Host) (ssl : OpenSsl) where
  unfoldable pub run_consensus_peer_server :
      Bool → Setup → Bool → List (Turn Exchange Sync) → Sync → Thread Sync
  run_consensus_peer_server exit_malloc u stop ts s =
      run_server (handle_one_consensus_request h ssl) exit_malloc u stop ts s

  -- The loop over the copied peers, `k` of which have been asked, and the destruction of the copy.
  unfoldable pub exchange_all :
      ClientRun → Bool → ℕ → List PeerInfo → Sync → List PeerInfo → Thread Asked
  exchange_all x stop k [] s asked = finish x.exit_malloc success (asked_of s asked)
  exchange_all x stop k (p ∷ ps) s asked =
      let c = x.contact k p in
      let rest = λ (s' : Sync). exchange_all x c.stop (suc k) ps s' (asked ++ (p ∷ [])) in
      if stop
      then finish x.exit_malloc success (asked_of s asked)
      else behind (run_consensus_peer_client_once h ssl c.exchange c.ours (c.others s))
          λ code s'. rest s'

  -- From the copy of the list to the end.
  unfoldable pub ask_copied : ClientRun → Copy → Sync → Thread Asked
  ask_copied x (stopped code) s = finish x.exit_malloc code (asked_of s [])
  ask_copied x (copied ps n) s =
      go_on_mutex x.exit_malloc x.unlocked (asked_of s []) (exchange_all x x.stop 0 ps s [])

  unfoldable pub run_consensus_peer_client : ClientRun → List PeerInfo → Sync → Thread Asked
  run_consensus_peer_client x ps s = go_on x.exit_malloc (malloc x.allocs) (asked_of s []) λ (_, n).
      go_on_mutex x.exit_malloc x.locked (asked_of s []) (ask_copied x (copy_peers ps [] n) s)

  -- The code is that of `return_code`, which nobody gets; what the client returns is only freed.
  unfoldable pub broadcast_blockchain :
      (cond_init mutex_init : Bool) → ClientRun → List PeerInfo → Sync → Thread Asked
  broadcast_blockchain cond_init mutex_init x ps s =
      let client = run_consensus_peer_client x ps s in
      if cond_init && mutex_init
      then without_code client
      else ended pthread_function (asked_of s [])
