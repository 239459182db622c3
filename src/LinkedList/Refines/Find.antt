-- ===== src/LinkedList/Refines/Find.antt =====
-- linked_list_find.
use theblockchainkiller.Base.{
  ℕ, zero, suc, ◌<◌, ◌≡◌, refl, Bool, true, false, none, some, List, [], ◌∷◌, ◌==◌, length, arith,
  inl, inr, Bool-cases, Option-cases,
}
use theblockchainkiller.Store.{Ptr, null, Heap, memory, done, undefined, on_success, given}
use theblockchainkiller.Store.Chain.{Nodes, data_of, Chain, empty, linked, Owned}
use theblockchainkiller.LinkedList.{
  Functions, linked_list_find, compare_function, find_from, has_compare,
}
use theblockchainkiller.LinkedList.Spec.{
  find, see_node, see_found, perform, contents, find_item, promised,
}
use theblockchainkiller.LinkedList.Walk.{given-ok, load_list-ok, load_node-ok}
use theblockchainkiller.LinkedList.Refines.{
  Refines, both_done, both_failed, both_undefined, Holds, holds, Meets,
}

module _ {D : Type 0} (fresh : Heap → Ptr) (functions : Functions D) (rounds : ℕ) (rest : Heap)
    (l f c : Ptr) where
  module _ (h : Heap) (u : D) (g : List Bool) where
    compare-none :
        (d d' : Ptr)
        → functions.compare_equal c d d' u ≡ none
        → compare_function fresh functions c d d' (memory h u g) ≡ undefined
    unfolding compare_function
    compare-none d d' e = rw (compare_function, e) refl

    compare-some :
        (d d' : Ptr) (b : Bool)
        → functions.compare_equal c d d' u ≡ some b
        → compare_function fresh functions c d d' (memory h u g) ≡ done b (memory h u g)
    unfolding compare_function
    compare-some d d' b e = rw (compare_function, e) refl

    find_from-Refines :
        (m : ℕ) (ns : Nodes) {p head : Ptr} (d : Ptr) {owned : Nodes}
        → Owned rest l f c owned head h
        → Chain h ns p
        → length ns < m
        → Refines
            (Holds rest l f c)
            (on_success
              (find_from fresh functions m c d p (memory h u g))
              λ found. see_found fresh functions rounds found)
            (find_item functions f c d (data_of ns) (contents (data_of owned) u g))
    unfolding find_from find_item see_found see_node
    find_from-Refines zero ns d o chain enough = absurd (omega arith)
    find_from-Refines (suc m) [] d o empty enough = both_done (holds o)
    find_from-Refines (suc m) (n ∷ ns) d o (linked chain ne out here) enough =
        let no : (n.0 == null) ≡ false = ground arith in
        let loaded = load_node-ok h u g n.0 here in
        elim (Option-cases (functions.compare_equal c d n.1 u)) [
          | inl e ↦ rw (no, loaded, compare-none d n.1 e, e) both_undefined
          | inr (true, e) ↦
              rw (no, loaded, compare-some d n.1 true e, loaded, e) (both_done (holds o))
          | inr (false, e) ↦
              rw (no, loaded, compare-some d n.1 false e, e)
                (find_from-Refines m ns d o chain (omega arith))
        ]

    pub find_tested :
        {ns : Nodes} {head : Ptr} (d out : Ptr)
        → Owned rest l f c ns head h
        → (d == null) ≡ false
        → (out == null) ≡ false
        → length ns < rounds
        → Meets fresh functions rounds rest l f c
            (find d out)
            (memory h u g)
            (contents (data_of ns) u g)
    unfolding perform promised given linked_list_find has_compare
    find_tested {ns} d out o e e' enough = elim (Bool-cases (c == null)) [
      | inl w ↦
          rw (given-ok h u g l o.ne_null, e, e', load_list-ok h u g l o.struct, w)
            (both_failed (holds o))
      | inr w ↦
          rw (given-ok h u g l o.ne_null, e, e', load_list-ok h u g l o.struct, w)
            (find_from-Refines rounds ns d o o.chain enough)
    ]
