-- ===== src/PeerDiscovery/Sweep/Middle.antt =====
-- A node in the middle of a list, and the list without it.
use theblockchainkiller.Base.{◌≡◌, refl, true, false, ◌||◌, some, [], ◌∷◌, ◌++◌, ◌==◌, arith}
use theblockchainkiller.Store.{Ptr, null, node, Heap, look, put, drop}
use theblockchainkiller.Store.Cells.{look-put, look-drop}
use theblockchainkiller.LinkedList.Owned.{list_not_among}
use theblockchainkiller.Store.Chain.{
  Nodes, among, Chain, empty, linked, Owned, Chain-same, last_node, among-last_node,
}

-- The address of the first of the nodes that are left, and of the last of those before.
abbrev pub next_of : Nodes → Ptr
next_of [] = null
next_of (n ∷ ns) = n.0

abbrev pub prev_of : Nodes → Ptr
prev_of [] = null
prev_of (k ∷ ks) = (last_node k ks).0

among_both : (ks ns : Nodes) (a : Ptr) → among (ks ++ ns) a ≡ (among ks a || among ns a)
among_both [] ns a = ground arith
among_both (k ∷ ks) ns a = ground (arith, among_both ks ns a)

pub Chain-next_of : {h : Heap} {p : Ptr} (ns : Nodes) → Chain h ns p → p ≡ next_of ns
Chain-next_of [] empty = refl
Chain-next_of (n ∷ ns) (linked rest ne out here) = refl

module _ {h : Heap} where
  -- The nodes from one on.
  pub behind_Chain : {p : Ptr} (ks ns : Nodes) → Chain h (ks ++ ns) p → Chain h ns (next_of ns)
  behind_Chain [] ns chain = rw (Chain-next_of ns chain) at chain
  behind_Chain (k ∷ ks) ns (linked rest ne out here) = behind_Chain ks ns rest

  -- The last node before one.
  pub link_behind :
      {p : Ptr} (k : Ptr × Ptr) (ks ns : Nodes)
      → Chain h ((k ∷ ks) ++ ns) p
      → look (last_node k ks).0 h ≡ some (node (last_node k ks).1 (next_of ns))
  link_behind k [] ns (linked rest ne out here) = rw (← Chain-next_of ns rest) here
  link_behind k (k' ∷ ks) ns (linked rest ne out here) = link_behind k' ks ns rest

module _ {h g : Heap} (n : Ptr × Ptr) (ns : Nodes) where
  -- A chain whose node before `n` now leads to the one behind it, with the others as they are.
  bridge-Chain :
      {p : Ptr} (k : Ptr × Ptr) (ks : Nodes)
      → Chain h ((k ∷ ks) ++ (n ∷ ns)) p
      → look (last_node k ks).0 g ≡ some (node (last_node k ks).1 (next_of ns))
      → ((a : Ptr)
          → (a == (last_node k ks).0) ≡ false
          → (a == n.0) ≡ false
          → among ((k ∷ ks) ++ (n ∷ ns)) a ≡ true
          → look a g ≡ look a h)
      → Chain g ((k ∷ ks) ++ ns) p
  bridge-Chain k [] (linked (linked rest ne' out' here') ne out here) end same =
      linked (Chain-same rest λ a i. same a (ground arith) (ground arith) (ground arith)) ne
        (ground arith) (rw (← Chain-next_of ns rest) at end)
  bridge-Chain k (k' ∷ ks) (linked rest ne out here) end same =
      let apart = rw among_both at out in
      linked (bridge-Chain k' ks rest end λ a e e' i. same a e e' (ground arith)) ne
        (rw among_both (ground arith)) (ground (arith, same k.0, among-last_node k' ks))

pub null_not_among : {h : Heap} {p : Ptr} (ns : Nodes) → Chain h ns p → among ns null ≡ false
null_not_among [] empty = refl
null_not_among (n ∷ ns) (linked rest ne out here) = ground (arith, null_not_among ns rest)

-- No node stands twice in a chain.
pub alone_in_Chain :
    {h : Heap} {p : Ptr} (ks : Nodes) (n : Ptr × Ptr) (ns : Nodes)
    → Chain h (ks ++ (n ∷ ns)) p
    → among (ks ++ ns) n.0 ≡ false
alone_in_Chain [] n ns (linked rest ne out here) = out
alone_in_Chain (k ∷ ks) n ns (linked rest ne out here) =
    let apart = rw among_both at out in ground (arith, alone_in_Chain ks n ns rest)

module _ {rest : Heap} {l f c head : Ptr} (k n : Ptr × Ptr) (ks ns : Nodes) {h : Heap}
    (o : Owned rest l f c ((k ∷ ks) ++ (n ∷ ns)) head h) where
  pub last_among : among ((k ∷ ks) ++ ns) (last_node k ks).0 ≡ true
  last_among = rw among_both (ground (arith, among-last_node k ks))

  -- The nodes are those that are left and the one that goes.
  among_whole :
      (a : Ptr) → among ((k ∷ ks) ++ (n ∷ ns)) a ≡ (among ((k ∷ ks) ++ ns) a || (a == n.0))
  among_whole a = ground (arith, among_both (k ∷ ks) ns a, among_both (k ∷ ks) (n ∷ ns) a)

  -- The list without a node that is not the first.
  pub bridge-Owned :
      Owned rest l f c
        ((k ∷ ks) ++ ns)
        head
        (drop n.0 (put (last_node k ks).0 (node (last_node k ks).1 (next_of ns)) h))
  bridge-Owned =
      let alone = alone_in_Chain (k ∷ ks) n ns o.chain in
      let not_l = list_not_among o in
      record {
        chain =
            bridge-Chain n ns k ks o.chain (rw (look-drop, look-put) (ground (arith, last_among)))
              λ a e e' i. rw (look-drop, look-put) (ground arith);
        ne_null = o.ne_null;
        struct =
            rw (look-drop, look-put)
              (ground (arith, o.struct, last_among, among_whole l, among_whole (last_node k ks).0));
        outside = λ a e i.
            rw (look-drop, look-put)
              (ground (arith, o.outside a, o.apart a, last_among, among_whole a));
        apart = λ a i. o.apart a (rw among_whole (ground arith));
        list_apart = o.list_apart;
      }
