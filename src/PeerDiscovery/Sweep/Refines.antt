-- ===== src/PeerDiscovery/Sweep/Refines.antt =====
-- On the nodes, the loop removes the peers that `remove_expired` removes from their list.
use theblockchainkiller.Base.{
  ℕ, zero, suc, ◌<◌, ◌≡◌, refl, Bool, true, false, List, [], ◌∷◌, ◌++◌, ◌==◌, arith, All, inl, inr,
  Bool-cases, length, append-nil, append_assoc,
}
use theblockchainkiller.Store.{Ptr, null, Heap, Memory, memory, Result, done}
use theblockchainkiller.Store.Objects.{Objects, at_free}
use theblockchainkiller.Store.Chain.{Nodes, Owned}
use theblockchainkiller.LinkedList.Walk.{load_list-ok}
use theblockchainkiller.PeerDiscovery.{PeerInfo}
use theblockchainkiller.PeerDiscovery.Server.{remove_expired}
use theblockchainkiller.PeerDiscovery.Server.Keep.{without, remove_expired-without}
use theblockchainkiller.PeerDiscovery.Sweep.{sweep, sweep_list}
use theblockchainkiller.PeerDiscovery.Sweep.Visit.{
  node_here, Removed-then, visit-removes, visit-keeps,
}
use theblockchainkiller.PeerDiscovery.Sweep.Owns.{
  OwnsPeers, no_peer, a_peer, OwnsPeers-here, OwnsPeers-release, OwnsPeers-snoc, peer-Splits,
}
use theblockchainkiller.PeerDiscovery.Sweep.Middle.{next_of, prev_of, Chain-next_of}

prev_of-snoc : (ks : Nodes) (n : Ptr × Ptr) → prev_of (ks ++ (n ∷ [])) ≡ n.0
prev_of-snoc [] n = refl
prev_of-snoc (k ∷ []) n = refl
prev_of-snoc (k ∷ k' ∷ ks) n = prev_of-snoc (k' ∷ ks) n

-- The memory that the loop leaves: the list has these peers, and apart from it there is what there
-- was.
pub data Swept (rest : Heap) (l c : Ptr) (left : Objects PeerInfo) (g : List Bool)
    (ps : List PeerInfo) : Result (Memory (Objects PeerInfo)) (Unit {0}) → Type 0 where
  swept :
      {ns : Nodes} {head : Ptr} {h : Heap} {o : Objects PeerInfo}
      → Owned rest l at_free c ns head h
      → OwnsPeers ns ps o left
      → Swept rest l c left g ps (done tt (memory h o g))

module _ (fresh : Heap → Ptr) (expired named : PeerInfo → Bool) (l : Ptr) where
  module _ (rest : Heap) (c : Ptr) (left : Objects PeerInfo) (g : List Bool) where
    sweep-Swept :
        (rounds : ℕ) (ks ns : Nodes) {head : Ptr} {h : Heap} (kept ps : List PeerInfo)
        {o o1 : Objects PeerInfo}
        → Owned rest l at_free c (ks ++ ns) head h
        → OwnsPeers ks kept o o1
        → OwnsPeers ns ps o1 left
        → All (λ p. named p ≡ true) ps
        → length ns < rounds
        → Swept rest l c left g
            (kept ++ without expired ps)
            (sweep fresh expired named l rounds (prev_of ks) (next_of ns) (memory h o g))
    unfolding sweep
    sweep-Swept zero ks ns kept ps owned w v is_named enough = absurd (omega arith)
    sweep-Swept (suc rounds) ks [] kept [] owned w no_peer is_named enough =
        let all = rw append-nil at owned in rw append-nil (swept all w)
    sweep-Swept (suc rounds) ks [] kept (p ∷ ps) owned w v is_named enough = elim v [ ]
    sweep-Swept (suc rounds) ks (n ∷ ns) kept [] owned w v is_named enough = elim v [ ]
    sweep-Swept (suc rounds) ks (n ∷ ns) {head} {h} kept (p ∷ ps) {o} owned w (a_peer v others)
          is_named enough =
        let not_null : (n.0 == null) ≡ false =
          let ne = (node_here ks n ns owned.chain).0 in ground arith in
        rw not_null (elim (Bool-cases (expired p)) [
          | inl e ↦ rw e (
              Removed-then l rest c ns _ g ks _ (Swept rest l c left g (kept ++ without expired ps))
                (visit-removes fresh expired named l n ns g is_named.0 (peer-Splits v w) e ks _
                  owned)
                λ _ _ owned'.
                  sweep-Swept rounds ks ns kept ps owned' (OwnsPeers-release v w) others is_named.1
                    (omega arith))
          | inr e ↦
              let owned' : Owned rest l at_free c ((ks ++ (n ∷ [])) ++ ns) head h =
                rw (append_assoc ks (n ∷ []) ns) owned in
              let kept' =
                sweep-Swept rounds (ks ++ (n ∷ [])) ns (kept ++ (p ∷ [])) ps owned'
                  (OwnsPeers-snoc v n.0 w) others is_named.1 (omega arith) in
              rw (e, visit-keeps fresh expired named l n ns g (OwnsPeers-here v w) e ks _ owned)
                (rw (prev_of-snoc, append_assoc) at kept')
        ])

    -- If the memory is a list of peers in fewer nodes than `rounds`, made with `free`, with a
    -- `peer_info_t` behind each node, and apart from that anything, and the names of all peers can
    -- be found, then the loop ends. It has left a list of exactly the peers that `remove_expired`
    -- keeps, in that order, has freed each other peer and its node once, and has changed nothing
    -- else.
    pub sweep_list-Swept :
        (rounds : ℕ) (ns : Nodes) {head : Ptr} {h : Heap} (ps : List PeerInfo)
        (o : Objects PeerInfo)
        → Owned rest l at_free c ns head h
        → OwnsPeers ns ps o left
        → All (λ p. named p ≡ true) ps
        → length ns < rounds
        → Swept rest l c left g
            (remove_expired expired named [] ps).1
            (sweep_list fresh expired named l rounds (memory h o g))
    unfolding sweep_list
    sweep_list-Swept rounds ns {h} ps o owned v is_named enough =
        rw
          (
            load_list-ok h o g l owned.struct,
            Chain-next_of ns owned.chain,
            remove_expired-without expired named ps is_named,
          )
          (sweep-Swept rounds [] ns [] ps owned no_peer v is_named enough)
