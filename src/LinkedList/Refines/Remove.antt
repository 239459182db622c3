-- ===== src/LinkedList/Refines/Remove.antt =====
-- linked_list_remove_first and linked_list_destroy.
use theblockchainkiller.Base.{
  ℕ, zero, suc, ◌<◌, ◌≡◌, refl, Bool, none, some, List, [], ◌∷◌, length, arith, inl, inr,
  Option-cases,
}
use theblockchainkiller.Store.{
  Ptr, node, linked_list, Heap, Memory, memory, done, undefined, on_success, look, put, drop, free,
}
use theblockchainkiller.Store.Cells.{look-put, look-drop}
use theblockchainkiller.Store.Chain.{Nodes, at_head, data_of, Owned}
use theblockchainkiller.LinkedList.{
  Functions, linked_list_remove_first, linked_list_destroy, remove_all, call_free, local,
}
use theblockchainkiller.LinkedList.Spec.{
  remove_first, perform, Contents, contents, free_item, free_items, promised,
}
use theblockchainkiller.LinkedList.Owned.{pop-Owned}
use theblockchainkiller.LinkedList.Walk.{
  given-ok, load_list-ok, free_list-ok, load_node-ok, free_node-ok, set_head-ok,
}
use theblockchainkiller.LinkedList.Refines.{
  Refines, both_done, both_failed, both_undefined, holds, Meets,
}
use theblockchainkiller.LinkedList.Refines.Query.{is_empty-ok, get_first-ok, get_first-empty}

module _ {D : Type 0} (fresh : Heap → Ptr) (functions : Functions D) (rounds : ℕ) (rest : Heap)
    (l f c : Ptr) where
  module _ (h : Heap) (u : D) (g : List Bool) where
    call_free-none :
        (d : Ptr)
        → functions.free_data f d u ≡ none
        → call_free fresh functions f d (memory h u g) ≡ undefined
    unfolding call_free
    call_free-none d e = rw (call_free, e) refl

    call_free-some :
        (d : Ptr) (u' : D)
        → functions.free_data f d u ≡ some u'
        → call_free fresh functions f d (memory h u g) ≡ done tt (memory h u' g)
    unfolding call_free
    call_free-some d u' e = rw (call_free, e) refl

  -- The heap without the first node.
  abbrev popped : Ptr → Ptr → Heap → Heap
  popped head q h = drop head (put l (linked_list f c q) h)

  module _ {head : Ptr} {h : Heap} (n : Ptr × Ptr) (ns : Nodes)
      (o : Owned rest l f c (n ∷ ns) head h) (u : D) (g : List Bool) where
    remove_first-none :
        functions.free_data f n.1 u ≡ none
        → linked_list_remove_first fresh functions l (memory h u g) ≡ undefined
    unfolding linked_list_remove_first
    remove_first-none e =
        let (q, here, chain, out) = at_head o.chain in
        let h' = put l (linked_list f c q) h in
        let struct' : look l h' ≡ some (linked_list f c q) = rw look-put (ground arith) in
        let here' : look head h' ≡ some (node n.1 q) = rw look-put (ground (arith, o.struct)) in
        rw
          (
            given-ok h u g l o.ne_null,
            get_first-ok fresh functions rounds rest l f c u g n ns local o refl,
            load_node-ok h u g head here,
          )
          (rw
            (
              set_head-ok fresh functions h u g l q o.struct,
              load_list-ok h' u g l struct',
              load_node-ok h' u g head here',
              call_free-none h' u g n.1 e,
            )
            refl)

    -- The first node goes, and its data goes before it.
    remove_first-some :
        (u' : D)
        → functions.free_data f n.1 u ≡ some u'
        → (q : Ptr) × (linked_list_remove_first fresh functions l (memory h u g)
            ≡ done tt (memory (popped head q h) u' g))
          × Owned rest l f c ns q (popped head q h)
    unfolding linked_list_remove_first
    remove_first-some u' e =
        let (q, here, chain, out) = at_head o.chain in
        let h' = put l (linked_list f c q) h in
        let struct' : look l h' ≡ some (linked_list f c q) = rw look-put (ground arith) in
        let here' : look head h' ≡ some (node n.1 q) = rw look-put (ground (arith, o.struct)) in
        (
          q,
          rw
              (
                given-ok h u g l o.ne_null,
                get_first-ok fresh functions rounds rest l f c u g n ns local o refl,
                load_node-ok h u g head here,
              )
              (rw
                (
                  set_head-ok fresh functions h u g l q o.struct,
                  load_list-ok h' u g l struct',
                  load_node-ok h' u g head here',
                  call_free-some h' u g n.1 u' e,
                  free_node-ok h' u' g head here',
                )
                refl),
          pop-Owned o here chain out,
        )

  module _ {head : Ptr} {h : Heap} (u : D) (g : List Bool) where
    pub remove_first-Refines :
        (ns : Nodes)
        → Owned rest l f c ns head h
        → Meets fresh functions rounds rest l f c remove_first
            (memory h u g)
            (contents (data_of ns) u g)
    unfolding perform promised free_item linked_list_remove_first
    remove_first-Refines [] o =
        rw
          (
            linked_list_remove_first,
            given-ok h u g l o.ne_null,
            get_first-empty fresh functions rounds rest l f c u g local o refl,
          )
          (both_failed (holds o))
    remove_first-Refines (n ∷ ns) o = elim (Option-cases (functions.free_data f n.1 u)) [
      | inl e ↦ rw (remove_first-none n ns o u g e, free_item, e) both_undefined
      | inr (u', e) ↦
          let (q, run, o') = remove_first-some n ns o u g u' e in
          rw (run, free_item, e) (both_done (holds o'))
    ]

-- A memory is `rest` again, and the data are as promised.
pub data Restored {D : Type 0} (rest : Heap) : Memory D → Contents D → Type 0 where
  restored :
      {ds : List Ptr} {h : Heap} {u : D} {g : List Bool}
      → ((a : Ptr) → look a h ≡ look a rest)
      → Restored rest (memory h u g) (contents ds u g)

module _ {D : Type 0} (fresh : Heap → Ptr) (functions : Functions D) (rounds : ℕ) (rest : Heap)
    (l f c : Ptr) where
  free-Restored :
      {head : Ptr} {h : Heap}
      → Owned rest l f c [] head h
      → (a : Ptr) → look a (drop l h) ≡ look a rest
  free-Restored o a = rw look-drop (ground (arith, o.outside a, o.list_apart))

  -- Every node goes and its data before it, and at last the list.
  destroy_loop-Restored :
      (m : ℕ) (ns : Nodes) {head : Ptr} {h : Heap} (u : D) (g : List Bool)
      → Owned rest l f c ns head h
      → length ns < m
      → Refines
          (Restored rest)
          (on_success (remove_all fresh functions m l (memory h u g)) λ _. free l)
          (free_items functions f c (data_of ns) (contents (data_of ns) u g))
  unfolding remove_all free_items free_item
  destroy_loop-Restored zero ns u g o enough = absurd (omega arith)
  destroy_loop-Restored (suc m) [] {h} u g o enough =
      rw
        (
          is_empty-ok fresh functions rounds rest l f c o u g local refl,
          free_list-ok h u g l o.struct,
        )
        (both_done (restored (free-Restored o)))
  destroy_loop-Restored (suc m) (n ∷ ns) u g o enough =
      rw (is_empty-ok fresh functions rounds rest l f c o u g local refl)
        (elim (Option-cases (functions.free_data f n.1 u)) [
          | inl e ↦
              rw (remove_first-none fresh functions rounds rest l f c n ns o u g e, free_item, e)
                both_undefined
          | inr (u', e) ↦
              let (q, run, o') =
                remove_first-some fresh functions rounds rest l f c n ns o u g u' e in
              rw (run, free_item, e) (destroy_loop-Restored m ns u' g o' (omega arith))
        ])

  pub destroy-Restored :
      (ns : Nodes) {head : Ptr} {h : Heap} (u : D) (g : List Bool)
      → Owned rest l f c ns head h
      → length ns < rounds
      → Refines
          (Restored rest)
          (linked_list_destroy fresh functions rounds l (memory h u g))
          (free_items functions f c (data_of ns) (contents (data_of ns) u g))
  unfolding linked_list_destroy
  destroy-Restored ns {h} u g o enough =
      rw (given-ok h u g l o.ne_null) (destroy_loop-Restored rounds ns u g o enough)
