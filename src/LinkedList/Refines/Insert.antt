-- ===== src/LinkedList/Refines/Insert.antt =====
-- linked_list_prepend and linked_list_append.
use theblockchainkiller.Base.{
  ℕ, ◌<◌, ◌≡◌, refl, Bool, true, false, List, [], ◌∷◌, ◌==◌, length, arith, inl, inr, Bool-cases,
}
use theblockchainkiller.Store.{Ptr, null, node, Heap, memory, put, store, given, malloc}
use theblockchainkiller.Store.Cells.{IsAllocator}
use theblockchainkiller.Store.Chain.{Nodes, data_of, Owned, last_node, data_of-append}
use theblockchainkiller.LinkedList.{
  Functions, linked_list_prepend, linked_list_append, append_behind, local,
}
use theblockchainkiller.LinkedList.Spec.{
  prepend, append, perform, contents, grant, put_items, promised,
}
use theblockchainkiller.LinkedList.Owned.{push-Owned, struct-put, append-Owned, last_after_put}
use theblockchainkiller.LinkedList.Walk.{given-ok, load_list-ok, set_head-ok, set_next-ok}
use theblockchainkiller.LinkedList.Refines.{both_done, both_failed, holds, Meets}
use theblockchainkiller.LinkedList.Refines.Query.{is_empty-ok, get_last-ok}

module _ {D : Type 0} (fresh : Heap → Ptr) (functions : Functions D) (rounds : ℕ)
    (allocator : IsAllocator fresh) (rest : Heap) (l f c : Ptr) where
  module _ {ns : Nodes} {head : Ptr} {h : Heap} (o : Owned rest l f c ns head h) (u : D) where
    prepend_given :
        (d : Ptr) (g : List Bool)
        → (d == null) ≡ false
        → Meets fresh functions rounds rest l f c
            (prepend d)
            (memory h u g)
            (contents (data_of ns) u g)
    unfolding perform linked_list_prepend promised grant malloc store put_items given
    prepend_given d [] e = rw (given-ok h u [] l o.ne_null, e) (both_failed (holds o))
    prepend_given d (false ∷ g) e =
        rw (given-ok h u (false ∷ g) l o.ne_null, e) (both_failed (holds o))
    prepend_given d (true ∷ g) e =
        let new = push-Owned o (fresh h) d (allocator.ne_null h) (allocator.unused h) in
        let still = struct-put o (fresh h) (node d head) (allocator.unused h) in
        rw (given-ok h u (true ∷ g) l o.ne_null, e, load_list-ok h u g l o.struct)
          (rw (set_head-ok fresh functions (put (fresh h) (node d head) h) u g l (fresh h) still)
            (both_done (holds new)))

    pub prepend-Refines :
        (d : Ptr) (g : List Bool)
        → Meets fresh functions rounds rest l f c
            (prepend d)
            (memory h u g)
            (contents (data_of ns) u g)
    unfolding perform linked_list_prepend promised given
    prepend-Refines d g = elim (Bool-cases (d == null)) [
      | inl e ↦ rw (given-ok h u g l o.ne_null, e) (both_failed (holds o))
      | inr e ↦ prepend_given d g e
    ]

  append_to_none :
      (d : Ptr) (u : D) (g : List Bool)
      → promised functions f c (append d) (contents [] u g)
        ≡ promised functions f c (prepend d) (contents [] u g)
  unfolding promised given grant put_items
  append_to_none d u [] = elim (Bool-cases (d == null)) [ inl e ↦ rw e refl | inr e ↦ rw e refl ]
  append_to_none d u (false ∷ g) = elim (Bool-cases (d == null)) [
    | inl e ↦ rw e refl
    | inr e ↦ rw e refl
  ]
  append_to_none d u (true ∷ g) = elim (Bool-cases (d == null)) [
    | inl e ↦ rw e refl
    | inr e ↦ rw e refl
  ]

  module _ {head : Ptr} {h : Heap} (u : D) where
    append_first :
        (d : Ptr) (g : List Bool)
        → Owned rest l f c [] head h
        → (d == null) ≡ false
        → Meets fresh functions rounds rest l f c (append d) (memory h u g) (contents [] u g)
    unfolding perform linked_list_append given
    append_first d g o e =
        rw
          (
            append_to_none d u g,
            given-ok h u g l o.ne_null,
            e,
            is_empty-ok fresh functions rounds rest l f c o u g local refl,
          )
          (prepend_given o u d g e)

    append_tested :
        (ns : Nodes) (d : Ptr) (g : List Bool)
        → Owned rest l f c ns head h
        → (d == null) ≡ false
        → length ns < rounds
        → Meets fresh functions rounds rest l f c
            (append d)
            (memory h u g)
            (contents (data_of ns) u g)
    unfolding perform linked_list_append append_behind promised grant malloc store put_items given
    append_tested [] d g o e enough = append_first d g o e
    append_tested (n ∷ ns) d [] o e enough =
        rw
          (
            given-ok h u [] l o.ne_null,
            e,
            is_empty-ok fresh functions rounds rest l f c o u [] local refl,
            get_last-ok fresh functions rounds rest l f c u [] n ns local o refl (omega arith),
          )
          (both_failed (holds o))
    append_tested (n ∷ ns) d (false ∷ g) o e enough =
        rw
          (
            given-ok h u (false ∷ g) l o.ne_null,
            e,
            is_empty-ok fresh functions rounds rest l f c o u (false ∷ g) local refl,
            get_last-ok fresh functions rounds rest l f c u (false ∷ g) n ns local o refl
                (omega arith),
          )
          (both_failed (holds o))
    append_tested (n ∷ ns) d (true ∷ g) o e enough =
        let last = last_node n ns in
        let h' = put (fresh h) (node d null) h in
        let still = last_after_put o (fresh h) (node d null) (allocator.unused h) in
        let new = append-Owned o (fresh h) d (allocator.ne_null h) (allocator.unused h) in
        rw
          (
            given-ok h u (true ∷ g) l o.ne_null,
            e,
            is_empty-ok fresh functions rounds rest l f c o u (true ∷ g) local refl,
            get_last-ok fresh functions rounds rest l f c u (true ∷ g) n ns local o refl
                (omega arith),
          )
          (rw
            (
              set_next-ok fresh functions h' u g last.0 (fresh h) still,
              ← data_of-append (n ∷ ns) (fresh h) d,
            )
            (both_done (holds new)))

    pub append-Refines :
        (ns : Nodes) (d : Ptr) (g : List Bool)
        → Owned rest l f c ns head h
        → length ns < rounds
        → Meets fresh functions rounds rest l f c
            (append d)
            (memory h u g)
            (contents (data_of ns) u g)
    unfolding perform linked_list_append promised given
    append-Refines ns d g o enough = elim (Bool-cases (d == null)) [
      | inl e ↦ rw (given-ok h u g l o.ne_null, e) (both_failed (holds o))
      | inr e ↦ append_tested ns d g o e enough
    ]
