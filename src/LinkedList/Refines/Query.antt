-- ===== src/LinkedList/Refines/Query.antt =====
-- The functions that leave the list as it is.
use theblockchainkiller.Base.{
  ℕ, ◌+◌, ◌<◌, ◌≡◌, refl, Bool, false, List, [], ◌∷◌, ◌==◌, length, arith,
}
use theblockchainkiller.Runtime.{linked_list_empty}
use theblockchainkiller.Store.{Ptr, null, Heap, memory, done, failed, given}
use theblockchainkiller.Store.Chain.{
  Nodes, at_head, data_of, Owned, last_node, is_nil, head-is_nil, length-data_of,
}
use theblockchainkiller.LinkedList.{
  Functions, linked_list_is_empty, linked_list_get_first, linked_list_get_last, linked_list_length,
  unless_empty,
}
use theblockchainkiller.LinkedList.Spec.{
  is_empty, get_first, get_last, count, see_node, perform, contents, last_item, promised,
}
use theblockchainkiller.LinkedList.Owned.{at_last}
use theblockchainkiller.LinkedList.Walk.{
  given-ok, load_list-ok, load_node-ok, last_from-ok, count_from-ok,
}
use theblockchainkiller.LinkedList.Refines.{both_done, both_failed, holds, Meets}

last_item-data_of : (n : Ptr × Ptr) (ns : Nodes) → last_item n.1 (data_of ns) ≡ (last_node n ns).1
unfolding last_item
last_item-data_of n [] = refl
last_item-data_of n (n' ∷ ns) = last_item-data_of n' ns

module _ {D : Type 0} (fresh : Heap → Ptr) (functions : Functions D) (rounds : ℕ) (rest : Heap)
    (l f c : Ptr) where
  module _ {ns : Nodes} {head : Ptr} {h : Heap} (o : Owned rest l f c ns head h) (u : D)
      (g : List Bool) where
    pub is_empty-ok :
        (out : Ptr)
        → (out == null) ≡ false
        → linked_list_is_empty fresh functions l out (memory h u g)
          ≡ done (is_nil ns) (memory h u g)
    unfolding linked_list_is_empty given
    is_empty-ok out e =
        rw (given-ok h u g l o.ne_null, e, load_list-ok h u g l o.struct, head-is_nil o.chain) refl

  module _ {head : Ptr} {h : Heap} (u : D) (g : List Bool) where
    pub get_first-ok :
        (n : Ptr × Ptr) (ns : Nodes) (out : Ptr)
        → Owned rest l f c (n ∷ ns) head h
        → (out == null) ≡ false
        → linked_list_get_first fresh functions l out (memory h u g) ≡ done head (memory h u g)
    unfolding linked_list_get_first unless_empty given
    get_first-ok n ns out o e =
        rw (given-ok h u g l o.ne_null, e, is_empty-ok o u g out e, load_list-ok h u g l o.struct)
          refl

    pub get_first-empty :
        (out : Ptr)
        → Owned rest l f c [] head h
        → (out == null) ≡ false
        → linked_list_get_first fresh functions l out (memory h u g)
          ≡ failed linked_list_empty (memory h u g)
    unfolding linked_list_get_first unless_empty given
    get_first-empty out o e = rw (given-ok h u g l o.ne_null, e, is_empty-ok o u g out e) refl

    pub get_last-ok :
        (n : Ptr × Ptr) (ns : Nodes) (out : Ptr)
        → Owned rest l f c (n ∷ ns) head h
        → (out == null) ≡ false
        → length ns < rounds
        → linked_list_get_last fresh functions rounds l out (memory h u g)
          ≡ done (last_node n ns).0 (memory h u g)
    unfolding linked_list_get_last unless_empty given
    get_last-ok n ns out o e enough =
        rw (given-ok h u g l o.ne_null, e, is_empty-ok o u g out e, load_list-ok h u g l o.struct)
          (last_from-ok fresh functions h u g rounds n ns o.chain enough)

    pub is_empty_tested :
        (ns : Nodes) (out : Ptr)
        → Owned rest l f c ns head h
        → (out == null) ≡ false
        → Meets fresh functions rounds rest l f c
            (is_empty out)
            (memory h u g)
            (contents (data_of ns) u g)
    unfolding perform promised given
    is_empty_tested [] out o e = rw (is_empty-ok o u g out e, e) (both_done (holds o))
    is_empty_tested (n ∷ ns) out o e = rw (is_empty-ok o u g out e, e) (both_done (holds o))

    pub get_first_tested :
        (ns : Nodes) (out : Ptr)
        → Owned rest l f c ns head h
        → (out == null) ≡ false
        → Meets fresh functions rounds rest l f c
            (get_first out)
            (memory h u g)
            (contents (data_of ns) u g)
    unfolding perform promised given linked_list_get_first unless_empty see_node
    get_first_tested [] out o e = rw (get_first-empty out o e, e) (both_failed (holds o))
    get_first_tested (n ∷ ns) out o e =
        let (q, here, _, _) = at_head o.chain in
        rw (get_first-ok n ns out o e, e, load_node-ok h u g head here) (both_done (holds o))

    pub get_last_tested :
        (ns : Nodes) (out : Ptr)
        → Owned rest l f c ns head h
        → (out == null) ≡ false
        → length ns < rounds
        → Meets fresh functions rounds rest l f c
            (get_last out)
            (memory h u g)
            (contents (data_of ns) u g)
    unfolding perform promised given linked_list_get_last unless_empty see_node
    get_last_tested [] out o e enough =
        rw (given-ok h u g l o.ne_null, e, is_empty-ok o u g out e) (both_failed (holds o))
    get_last_tested (n ∷ ns) out o e enough =
        rw
          (
            get_last-ok n ns out o e (omega arith),
            e,
            load_node-ok h u g (last_node n ns).0 (at_last n ns o.chain),
            last_item-data_of n ns,
          )
          (both_done (holds o))

    pub count_tested :
        (ns : Nodes) (out : Ptr)
        → Owned rest l f c ns head h
        → (out == null) ≡ false
        → length ns < rounds
        → Meets fresh functions rounds rest l f c
            (count out)
            (memory h u g)
            (contents (data_of ns) u g)
    unfolding perform promised given linked_list_length
    count_tested ns out o e enough =
        let none_before : 0 + length ns ≡ length ns = omega arith in
        rw
          (
            given-ok h u g l o.ne_null,
            e,
            load_list-ok h u g l o.struct,
            count_from-ok fresh functions h u g rounds ns 0 o.chain enough (omega arith),
            length-data_of ns,
            none_before,
          )
          (both_done (holds o))
