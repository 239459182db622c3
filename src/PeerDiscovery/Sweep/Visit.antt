-- ===== src/PeerDiscovery/Sweep/Visit.antt =====
-- One round of the loop on the nodes.
use theblockchainkiller.Base.{
  ◌≡◌, ◌≢◌, refl, Bool, true, false, some, List, [], ◌∷◌, ◌++◌, ◌==◌, arith,
}
use theblockchainkiller.Store.{
  Ptr, null, node, linked_list, Heap, Memory, memory, Result, done, look, put, drop, Call, ◌>>◌,
}
use theblockchainkiller.Store.Cells.{look-put, look-drop}
use theblockchainkiller.Store.Objects.{Objects, at_free, Splits, free_object-Splits}
use theblockchainkiller.Store.Chain.{
  Nodes, among, Chain, linked, Owned, at_head, at_first, last_node,
}
use theblockchainkiller.LinkedList.{call_free}
use theblockchainkiller.LinkedList.Owned.{pop-Owned, list_not_among}
use theblockchainkiller.LinkedList.Walk.{
  load_list-ok, load_node-ok, free_node-ok, set_head-ok, set_next-ok,
}
use theblockchainkiller.PeerDiscovery.{PeerInfo}
use theblockchainkiller.PeerDiscovery.Sweep.{
  on_peers, load_peer, unlink, look_up, free_node, advance, visit,
}
use theblockchainkiller.PeerDiscovery.Sweep.Middle.{
  next_of, prev_of, behind_Chain, link_behind, bridge-Owned, Chain-next_of, last_among,
  alone_in_Chain, null_not_among,
}

-- The node that the loop looks at.
pub node_here :
    {h : Heap} {p : Ptr} (ks : Nodes) (n : Ptr × Ptr) (ns : Nodes)
    → Chain h (ks ++ (n ∷ ns)) p
    → (n.0 ≢ null) × (look n.0 h ≡ some (node n.1 (next_of ns)))
node_here ks n ns chain = at (behind_Chain ks (n ∷ ns) chain)
  where
    at :
        {h : Heap} {p : Ptr}
        → Chain h (n ∷ ns) p
        → (n.0 ≢ null) × (look n.0 h ≡ some (node n.1 (next_of ns)))
    at (linked rest ne out here) = (ne, rw (← Chain-next_of ns rest) here)

module _ {rest h : Heap} {l f c head : Ptr} (n : Ptr × Ptr) (ns : Nodes) where
  popped :
      Owned rest l f c (n ∷ ns) head h
      → Owned rest l f c ns (next_of ns) (drop n.0 (put l (linked_list f c (next_of ns)) h))
  popped o =
      let (q, here, chain, out) = at_head o.chain in
      rw (← Chain-next_of ns chain, ← at_first o.chain) (pop-Owned o here chain out)

module _ (l : Ptr) (rest : Heap) (c : Ptr) (ns : Nodes) (o : Objects PeerInfo) (g : List Bool)
    (ks : Nodes) (next : Ptr → Ptr → Call (Memory (Objects PeerInfo)) (Unit {0})) where
  -- The rest of the loop runs on a list without the node.
  pub data Removed : Result (Memory (Objects PeerInfo)) (Unit {0}) → Type 0 where
    removed :
        {head : Ptr} {h : Heap}
        → Owned rest l at_free c (ks ++ ns) head h
        → Removed (next (prev_of ks) (next_of ns) (memory h o g))

  pub Removed-then :
      (P : Result (Memory (Objects PeerInfo)) (Unit {0}) → Type 0)
      {r : Result (Memory (Objects PeerInfo)) (Unit {0})}
      → Removed r
      → ((head : Ptr) (h : Heap)
          → Owned rest l at_free c (ks ++ ns) head h
          → P (next (prev_of ks) (next_of ns) (memory h o g)))
      → P r
  Removed-then P (removed owned) run = run _ _ owned

module _ (fresh : Heap → Ptr) (expired named : PeerInfo → Bool) (l : Ptr) where
  module _ (h : Heap) (o : Objects PeerInfo) (g : List Bool) where
    load_peer-ok :
        {d : Ptr} {p : PeerInfo} → o d ≡ some p → load_peer d (memory h o g) ≡ done p (memory h o g)
    unfolding load_peer
    load_peer-ok e = rw (load_peer, e) refl

    free_node-frees :
        {c head q : Ptr} (a d : Ptr) {p : PeerInfo} {o' : Objects PeerInfo}
        → look l h ≡ some (linked_list at_free c head)
        → look a h ≡ some (node d q)
        → Splits d p o o'
        → free_node fresh expired named l a d (memory h o g) ≡ done tt (memory (drop a h) o' g)
    unfolding free_node call_free
    free_node-frees a d struct here w =
        let not_null : (d == null) ≡ false = let ne = w.ne_null in ground arith in
        rw
          (
            load_list-ok h o g l struct,
            call_free,
            not_null,
            free_object-Splits w,
            free_node-ok h _ g a here,
          )
          refl

  module _ {rest h : Heap} {c head : Ptr} (n : Ptr × Ptr) (ns : Nodes) {o o' : Objects PeerInfo}
      {p : PeerInfo} (g : List Bool) (is_named : named p ≡ true) (w : Splits n.1 p o o') where
    removal :
        (ks : Nodes) (next : Ptr → Ptr → Call (Memory (Objects PeerInfo)) (Unit {0}))
        → Owned rest l at_free c (ks ++ (n ∷ ns)) head h
        → Removed l rest c ns o' g ks next (
            (do
              unlink fresh expired named l (prev_of ks) (next_of ns)
              look_up fresh expired named l p
              free_node fresh expired named l n.0 n.1
              advance fresh expired named l (prev_of ks) (prev_of ks) next)
              (memory h o g))
    unfolding unlink look_up advance
    removal [] next owned =
        let at_n = (node_here [] n ns owned.chain).1 in
        let after = popped n ns owned in
        let other : (n.0 == l) ≡ false = let at_l = owned.struct in ground arith in
        let h1 : Heap = put l (linked_list at_free c (next_of ns)) h in
        let struct : look l h1 ≡ some (linked_list at_free c (next_of ns)) =
          rw look-put (ground arith) in
        let here : look n.0 h1 ≡ some (node n.1 (next_of ns)) = rw look-put (ground arith) in
        rw
          (
            set_head-ok fresh on_peers h o g l (next_of ns) owned.struct,
            is_named,
            free_node-frees h1 o g n.0 n.1 struct here w,
            load_list-ok (drop n.0 h1) o' g l after.struct,
          )
          (removed after)
    removal (k ∷ ks) next owned =
        let at_n = (node_here (k ∷ ks) n ns owned.chain).1 in
        let at_last = link_behind k ks (n ∷ ns) owned.chain in
        let after = bridge-Owned k n ks ns owned in
        let not_l = list_not_among after in
        let e : Ptr = (last_node k ks).0 in
        let among_e : among ((k ∷ ks) ++ ns) e ≡ true = last_among k n ks ns owned in
        let alone = alone_in_Chain (k ∷ ks) n ns owned.chain in
        let not_null = null_not_among ((k ∷ ks) ++ ns) after.chain in
        let ne : (e == null) ≡ false = ground arith in
        let h1 : Heap = put e (node (last_node k ks).1 (next_of ns)) h in
        let struct : look l h1 ≡ some (linked_list at_free c head) =
          rw look-put (ground (arith, owned.struct)) in
        let here : look n.0 h1 ≡ some (node n.1 (next_of ns)) = rw look-put (ground arith) in
        let link : look e (drop n.0 h1) ≡ some (node (last_node k ks).1 (next_of ns)) =
          rw (look-drop, look-put) (ground arith) in
        rw
          (
            ne,
            set_next-ok fresh on_peers h o g e (next_of ns) at_last,
            is_named,
            free_node-frees h1 o g n.0 n.1 struct here w,
            load_node-ok (drop n.0 h1) o' g e link,
          )
          (removed after)

    pub visit-removes :
        expired p ≡ true
        → (ks : Nodes) (next : Ptr → Ptr → Call (Memory (Objects PeerInfo)) (Unit {0}))
        → Owned rest l at_free c (ks ++ (n ∷ ns)) head h
        → Removed l rest c ns o' g ks next
            (visit fresh expired named l (prev_of ks) n.0 next (memory h o g))
    unfolding visit
    visit-removes e ks next owned =
        let here = (node_here ks n ns owned.chain).1 in
        rw (load_node-ok h o g n.0 here, load_peer-ok h o g w.here, e) (removal ks next owned)

  pub visit-keeps :
      {rest h : Heap} {c head : Ptr} (n : Ptr × Ptr) (ns : Nodes) {o : Objects PeerInfo}
      {p : PeerInfo} (g : List Bool)
      → o n.1 ≡ some p
      → expired p ≡ false
      → (ks : Nodes) (next : Ptr → Ptr → Call (Memory (Objects PeerInfo)) (Unit {0}))
      → Owned rest l at_free c (ks ++ (n ∷ ns)) head h
      → visit fresh expired named l (prev_of ks) n.0 next (memory h o g)
        ≡ next n.0 (next_of ns) (memory h o g)
  unfolding visit advance
  visit-keeps {h} n ns {o} g peer e ks next owned =
      let (ne, here) = node_here ks n ns owned.chain in
      let not_null : (n.0 == null) ≡ false = ground arith in
      rw
        (
          load_node-ok h o g n.0 here,
          load_peer-ok h o g peer,
          e,
          not_null,
          load_node-ok h o g n.0 here,
        )
        refl
