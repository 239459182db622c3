-- ===== src/LinkedList/Walk.antt =====
-- The loads of src/linked_list.c at known cells, and its loops over the nodes.
use theblockchainkiller.Base.{
  ℕ, zero, suc, ◌+◌, ◌%◌, ◌^◌, ◌<◌, ◌≡◌, ◌≢◌, refl, Bool, false, some, List, [], ◌∷◌, ◌==◌, length,
  arith,
}
use theblockchainkiller.Store.{
  Ptr, null, node, linked_list, Heap, memory, done, look, drop, put, load_list, load_node, store,
  free, given,
}
use theblockchainkiller.Store.Chain.{Nodes, Chain, empty, linked, last_node}
use theblockchainkiller.LinkedList.{Functions, set_head, set_next, last_from, count_from}

module _ {D : Type 0} (h : Heap) (u : D) (g : List Bool) where
  pub given-ok : (p : Ptr) → p ≢ null → given p (memory h u g) ≡ done tt (memory h u g)
  unfolding given
  given-ok p ne = let no : (p == null) ≡ false = ground arith in rw no

  module _ (p : Ptr) {f c q : Ptr} (here : look p h ≡ some (linked_list f c q)) where
    pub load_list-ok : load_list p (memory h u g) ≡ done (f, c, q) (memory h u g)
    unfolding load_list
    load_list-ok = rw (load_list, here) refl

    pub free_list-ok : free p (memory h u g) ≡ done tt (memory (drop p h) u g)
    unfolding free
    free_list-ok = rw (free, here) refl

  module _ (p : Ptr) {d q : Ptr} (here : look p h ≡ some (node d q)) where
    pub load_node-ok : load_node p (memory h u g) ≡ done (d, q) (memory h u g)
    unfolding load_node
    load_node-ok = rw (load_node, here) refl

    pub free_node-ok : free p (memory h u g) ≡ done tt (memory (drop p h) u g)
    unfolding free
    free_node-ok = rw (free, here) refl

module _ {D : Type 0} (fresh : Heap → Ptr) (functions : Functions D) (h : Heap) (u : D)
    (g : List Bool) where
  pub set_head-ok :
      (l : Ptr) {f c p : Ptr} (q : Ptr)
      → look l h ≡ some (linked_list f c p)
      → set_head fresh functions l q (memory h u g)
        ≡ done tt (memory (put l (linked_list f c q) h) u g)
  unfolding set_head store
  set_head-ok l q here = rw (load_list-ok h u g l here)

  pub set_next-ok :
      (p : Ptr) {d next : Ptr} (q : Ptr)
      → look p h ≡ some (node d next)
      → set_next fresh functions p q (memory h u g) ≡ done tt (memory (put p (node d q) h) u g)
  unfolding set_next store
  set_next-ok p q here = rw (load_node-ok h u g p here)

  pub last_from-ok :
      (rounds : ℕ) (n : Ptr × Ptr) (ns : Nodes) {p : Ptr}
      → Chain h (n ∷ ns) p
      → length ns < rounds
      → last_from fresh functions rounds p (memory h u g) ≡ done (last_node n ns).0 (memory h u g)
  unfolding last_from
  last_from-ok zero n ns chain enough = absurd (omega arith)
  last_from-ok (suc rounds) n [] (linked empty ne out here) enough =
      rw (load_node-ok h u g n.0 here)
  last_from-ok (suc rounds) n (n' ∷ ns) (linked (linked rest ne' out' here') ne out here) enough =
      let no : (n'.0 == null) ≡ false = ground arith in
      rw (load_node-ok h u g n.0 here, no)
        (last_from-ok rounds n' ns (linked rest ne' out' here') (omega arith))

  pub count_from-ok :
      (rounds : ℕ) (ns : Nodes) {p : Ptr} (result : ℕ)
      → Chain h ns p
      → length ns < rounds
      → result < 2 ^ 64
      → count_from fresh functions rounds p result (memory h u g)
        ≡ done ((result + length ns) % 2 ^ 64) (memory h u g)
  unfolding count_from
  count_from-ok zero ns result chain enough in_range = absurd (omega arith)
  count_from-ok (suc rounds) [] result empty enough in_range = ground arith
  count_from-ok (suc rounds) (n ∷ ns) result (linked rest ne out here) enough in_range =
      let no : (n.0 == null) ≡ false = ground arith in
      let wraps : ((result + 1) % 2 ^ 64 + length ns) % 2 ^ 64
          ≡ (result + suc (length ns)) % 2 ^ 64 =
        omega arith in
      rw (
        no,
        load_node-ok h u g n.0 here,
        count_from-ok rounds ns ((result + 1) % 2 ^ 64) rest (omega arith) (omega arith),
        wraps,
      )
