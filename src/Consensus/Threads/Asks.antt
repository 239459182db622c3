-- ===== src/Consensus/Threads/Asks.antt =====
-- Whom `run_consensus_peer_client` asks.
use theblockchainkiller.Base.{
  ℕ, zero, suc, ◌+◌, ◌*◌, ◌-◌, ◌≤◌, ◌≡◌, refl, true, false, none, List, [], ◌∷◌, ◌++◌, append_assoc,
  append-nil, reverse, reverse-cons, length, arith, ◌∙◌,
}
use theblockchainkiller.Runtime.{ReturnCode, success, ok}
use theblockchainkiller.Endian.{Host, Bytes}
use theblockchainkiller.Crypto.{OpenSsl}
use theblockchainkiller.Buffer.{malloc}
use theblockchainkiller.Networking.Handler.{returned}
use theblockchainkiller.Networking.Listener.{ended}
use theblockchainkiller.PeerDiscovery.{PeerInfo}
use theblockchainkiller.Consensus.{Sync, run_consensus_peer_client_once}
use theblockchainkiller.Consensus.Threads.{
  copied, copy_peers, ClientRun, asked_of, exchange_all, ask_copied, run_consensus_peer_client,
}

-- With two allocations for each peer the copy is the list in reverse.
copy_peers-reverse :
    (ps copy : List PeerInfo) (n : ℕ)
    → 2 * length ps ≤ n
    → (left : ℕ) × (copy_peers ps copy n ≡ copied (reverse ps ++ copy) left)
unfolding copy_peers malloc
copy_peers-reverse [] copy n enough = (n, refl)
copy_peers-reverse (p ∷ ps) copy zero enough = absurd (omega arith)
copy_peers-reverse (p ∷ ps) copy (suc zero) enough = absurd (omega arith)
copy_peers-reverse (p ∷ ps) copy (suc (suc n)) enough =
    let (left, rest) = copy_peers-reverse ps (p ∷ copy) n (omega arith) in
    (left, rw (rest, reverse-cons, append_assoc) refl)

malloc-some : (n : ℕ) → 1 ≤ n → malloc n ≡ ok (tt, n - 1)
unfolding malloc
malloc-some zero enough = absurd (omega arith)
malloc-some (suc n) enough = let same : suc n - 1 ≡ n = omega arith in rw same refl

module _ (h : Host) (ssl : OpenSsl) (x : ClientRun)
    (goes_on : (k : ℕ) (p : PeerInfo) → (x.contact k p).stop ≡ false)
    (returns : (k : ℕ) (p : PeerInfo) (s : Sync)
      → (code : ReturnCode) × (s' : Sync) × (sent : Bytes) × (run_consensus_peer_client_once h ssl
            (x.contact k p).exchange
            (x.contact k p).ours
            ((x.contact k p).others s)
          ≡ returned code s' sent)) where
  exchange_all-asks :
      (k : ℕ) (ps asked : List PeerInfo) (s : Sync)
      → x.exit_malloc ≡ true
      → (s' : Sync) × (exchange_all h ssl x false k ps s asked
          ≡ ended success (asked_of s' (asked ++ ps)))
  unfolding exchange_all
  exchange_all-asks k [] asked s e = (s, rw (e, append-nil) refl)
  exchange_all-asks k (p ∷ ps) asked s e =
      let (code, s1, sent, run) = returns k p s in
      let (s', rest) = exchange_all-asks (suc k) ps (asked ++ (p ∷ [])) s1 e in
      (s', rw (run, goes_on k p, rest, append_assoc) refl)

  ask_copied-copied :
      (ps : List PeerInfo) (left : ℕ) (s : Sync)
      → x.unlocked ≡ none
      → x.stop ≡ false
      → ask_copied h ssl x (copied ps left) s ≡ exchange_all h ssl x false 0 ps s []
  unfolding ask_copied exchange_all
  ask_copied-copied ps left s unlocked going = rw (ask_copied, unlocked, going) refl

  -- If the client can allocate what it needs, its calls on the mutex succeed, no other thread sets
  -- `should_stop` and every exchange returns, with whatever code, then the client returns SUCCESS
  -- and has exchanged blockchains with every peer in the list, once each, the last one first: a peer
  -- that fails is no reason to leave out another.
  pub run_consensus_peer_client-asks :
      (ps : List PeerInfo) (s : Sync)
      → x.stop ≡ false
      → x.locked ≡ none
      → x.unlocked ≡ none
      → x.exit_malloc ≡ true
      → 2 * length ps + 1 ≤ x.allocs
      → (s' : Sync) × (run_consensus_peer_client h ssl x ps s
          ≡ ended success (asked_of s' (reverse ps)))
  unfolding run_consensus_peer_client ask_copied
  run_consensus_peer_client-asks ps s going locked unlocked e enough =
      let first = malloc-some x.allocs (omega arith) in
      let (left, same) = copy_peers-reverse ps [] (x.allocs - 1) (omega arith) in
      let (s', run) = exchange_all-asks 0 (reverse ps) [] s e in
      (
        s',
        rw (run_consensus_peer_client, first)
            (simp (locked, same, append-nil)
              (ask_copied-copied (reverse ps) left s unlocked going ∙ run)),
      )
