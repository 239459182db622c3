-- ===== src/LinkedList/Owned.antt =====
-- What the writes of src/linked_list.c do to the nodes that a list owns.
use theblockchainkiller.Base.{◌≡◌, ◌≢◌, refl, true, false, none, some, [], ◌∷◌, ◌++◌, ◌==◌, arith}
use theblockchainkiller.Store.{Ptr, null, Cell, node, linked_list, Heap, look, put, drop}
use theblockchainkiller.Store.Cells.{look-put, look-drop}
use theblockchainkiller.Store.Chain.{
  Nodes, at_first, among, Chain, empty, linked, Owned, Chain-same, not-among, last_node,
  among-last_node, among-append,
}

module _ {rest : Heap} {l f c head : Ptr} {ns : Nodes} {h : Heap}
    (o : Owned rest l f c ns head h) where
  -- The list itself is at none of its nodes.
  pub list_not_among : among ns l ≡ false
  list_not_among = not-among l o.chain (rw o.struct refl)

  -- The list stays when an unused address gets a cell.
  pub struct-put :
      (p : Ptr) (cell : Cell)
      → look p h ≡ none
      → look l (put p cell h) ≡ some (linked_list f c head)
  struct-put p cell new = rw look-put (ground (arith, o.struct))

  pub push-Owned :
      (p d : Ptr)
      → p ≢ null
      → look p h ≡ none
      → Owned rest l f c ((p, d) ∷ ns) p (put l (linked_list f c p) (put p (node d head) h))
  push-Owned p d ne new =
      let out = not-among p o.chain (rw new refl) in
      let other : (p == l) ≡ false = ground (arith, o.struct) in
      record {
        chain =
            linked
              (Chain-same o.chain λ a i. rw (look-put, look-put) (ground (arith, list_not_among)))
              ne out (rw (look-put, look-put) (ground arith));
        ne_null = o.ne_null;
        struct = rw look-put (ground arith);
        outside = λ a e i. rw (look-put, look-put) (ground (arith, o.outside a));
        apart = λ a i. ground (arith, o.apart a, o.outside p);
        list_apart = o.list_apart;
      }

module _ {rest : Heap} {l f c head p d q : Ptr} {ns : Nodes} {h : Heap} where
  pub pop-Owned :
      Owned rest l f c ((p, d) ∷ ns) head h
      → look head h ≡ some (node d q)
      → Chain h ns q
      → among ns head ≡ false
      → Owned rest l f c ns q (drop head (put l (linked_list f c q) h))
  pop-Owned o here chain out =
      let same = at_first o.chain in
      let apart_l = list_not_among o in
      record {
        chain = Chain-same chain λ a i. rw (look-drop, look-put) (ground arith);
        ne_null = o.ne_null;
        struct = rw (look-drop, look-put) (ground arith);
        outside = λ a e i. rw (look-drop, look-put) (ground (arith, o.outside a, o.apart a));
        apart = λ a i. o.apart a (ground arith);
        list_apart = o.list_apart;
      }

-- The last node has NULL behind it.
pub at_last :
    {h : Heap} {head : Ptr} (n : Ptr × Ptr) (ns : Nodes)
    → Chain h (n ∷ ns) head
    → look (last_node n ns).0 h ≡ some (node (last_node n ns).1 null)
at_last n [] (linked empty ne out here) = here
at_last n (n' ∷ ns) (linked rest ne out here) = at_last n' ns rest

module _ {h g : Heap} {p d : Ptr} (ne : p ≢ null) (here : look p g ≡ some (node d null)) where
  -- A chain whose last node gets a new node behind it, and whose other nodes stay as they are.
  snoc-Chain :
      {head : Ptr} (n : Ptr × Ptr) (ns : Nodes)
      → Chain h (n ∷ ns) head
      → among (n ∷ ns) p ≡ false
      → look (last_node n ns).0 g ≡ some (node (last_node n ns).1 p)
      → ((a : Ptr)
          → (a == (last_node n ns).0) ≡ false
          → among (n ∷ ns) a ≡ true
          → look a g ≡ look a h)
      → Chain g ((n ∷ ns) ++ ((p, d) ∷ [])) head
  snoc-Chain n [] (linked empty ne' out' here') out end same =
      linked (linked empty ne refl here) ne' (ground arith) end
  snoc-Chain n (n' ∷ ns) (linked {p} rest ne' out' here') out end same =
      linked (snoc-Chain n' ns rest (ground arith) end λ a e i. same a e (ground arith)) ne'
        (rw among-append (ground arith)) (ground (arith, same n.0, among-last_node n' ns))

module _ {rest : Heap} {l f c head : Ptr} {n : Ptr × Ptr} {ns : Nodes} {h : Heap}
    (o : Owned rest l f c (n ∷ ns) head h) where
  -- The last node stays when an unused address gets a cell.
  pub last_after_put :
      (p : Ptr) (cell : Cell)
      → look p h ≡ none
      → look (last_node n ns).0 (put p cell h) ≡ some (node (last_node n ns).1 null)
  last_after_put p cell new = let here = at_last n ns o.chain in rw look-put (ground arith)

  pub append-Owned :
      (p d : Ptr)
      → p ≢ null
      → look p h ≡ none
      → Owned rest l f c
          ((n ∷ ns) ++ ((p, d) ∷ []))
          head
          (put (last_node n ns).0 (node (last_node n ns).1 p) (put p (node d null) h))
  append-Owned p d ne new =
      let out = not-among p o.chain (rw new refl) in
      let last_in = among-last_node n ns in
      let other : (p == l) ≡ false = ground (arith, o.struct) in
      let apart_l = list_not_among o in
      let not_last : (p == (last_node n ns).0) ≡ false = ground arith in
      record {
        chain =
            snoc-Chain ne (rw (look-put, look-put) (ground arith)) n ns o.chain out
              (rw (look-put) (ground arith)) λ a e i. rw (look-put, look-put) (ground arith);
        ne_null = o.ne_null;
        struct = rw (look-put, look-put) (ground (arith, o.struct));
        outside = λ a e i.
            let j = rw among-append at i in rw (look-put, look-put) (ground (arith, o.outside a));
        apart = λ a i. let j = rw among-append at i in ground (arith, o.apart a, o.outside p);
        list_apart = o.list_apart;
      }
