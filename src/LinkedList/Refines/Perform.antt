-- ===== src/LinkedList/Refines/Perform.antt =====
-- Every call that a user of a list makes, and every sequence of them.
use theblockchainkiller.Base.{ℕ, ◌<◌, ◌==◌, length, inl, inr, Bool-cases}
use theblockchainkiller.Store.{Ptr, null, Heap, Memory, memory, given}
use theblockchainkiller.Store.Cells.{IsAllocator}
use theblockchainkiller.Store.Chain.{data_of, length-data_of}
use theblockchainkiller.LinkedList.{
  Functions, linked_list_is_empty, linked_list_get_first, linked_list_get_last, linked_list_length,
  linked_list_find,
}
use theblockchainkiller.LinkedList.Spec.{
  Op, prepend, append, remove_first, is_empty, get_first, get_last, count, find, perform, Contents,
  contents, promised,
}
use theblockchainkiller.LinkedList.Walk.{given-ok}
use theblockchainkiller.LinkedList.Refines.{both_failed, Holds, holds, Meets}
use theblockchainkiller.LinkedList.Refines.Query.{
  is_empty_tested, get_first_tested, get_last_tested, count_tested,
}
use theblockchainkiller.LinkedList.Refines.Find.{find_tested}
use theblockchainkiller.LinkedList.Refines.Insert.{prepend-Refines, append-Refines}
use theblockchainkiller.LinkedList.Refines.Remove.{remove_first-Refines}

module _ {D : Type 0} (fresh : Heap → Ptr) (functions : Functions D) (rounds : ℕ)
    (allocator : IsAllocator fresh) (rest : Heap) (l f c : Ptr) where
  pub perform-Refines :
      (op : Op) (m : Memory D) (s : Contents D)
      → Holds rest l f c m s
      → length s.items < rounds
      → Meets fresh functions rounds rest l f c op m s
  unfolding perform promised given linked_list_is_empty linked_list_get_first linked_list_get_last
      linked_list_length linked_list_find
  perform-Refines op m s (holds {ns} {h} {u} {g} o) enough =
      let enough' : length ns < rounds = rw length-data_of at enough in by_op op enough'
    where
      by_op :
          (op : Op)
          → length ns < rounds
          → Meets fresh functions rounds rest l f c op (memory h u g) (contents (data_of ns) u g)
      by_op (prepend d) lt = prepend-Refines fresh functions rounds allocator rest l f c o u d g
      by_op (append d) lt = append-Refines fresh functions rounds allocator rest l f c u ns d g o lt
      by_op remove_first lt = remove_first-Refines fresh functions rounds rest l f c u g ns o
      by_op (is_empty out) lt = elim (Bool-cases (out == null)) [
        | inl e ↦ rw (given-ok h u g l o.ne_null, e) (both_failed (holds o))
        | inr e ↦ is_empty_tested fresh functions rounds rest l f c u g ns out o e
      ]
      by_op (get_first out) lt = elim (Bool-cases (out == null)) [
        | inl e ↦ rw (given-ok h u g l o.ne_null, e) (both_failed (holds o))
        | inr e ↦ get_first_tested fresh functions rounds rest l f c u g ns out o e
      ]
      by_op (get_last out) lt = elim (Bool-cases (out == null)) [
        | inl e ↦ rw (given-ok h u g l o.ne_null, e) (both_failed (holds o))
        | inr e ↦ get_last_tested fresh functions rounds rest l f c u g ns out o e lt
      ]
      by_op (count out) lt = elim (Bool-cases (out == null)) [
        | inl e ↦ rw (given-ok h u g l o.ne_null, e) (both_failed (holds o))
        | inr e ↦ count_tested fresh functions rounds rest l f c u g ns out o e lt
      ]
      by_op (find d out) lt = elim (Bool-cases (d == null)) [
        | inl e ↦ rw (given-ok h u g l o.ne_null, e) (both_failed (holds o))
        | inr e ↦ elim (Bool-cases (out == null)) [
          | inl e' ↦ rw (given-ok h u g l o.ne_null, e, e') (both_failed (holds o))
          | inr e' ↦ find_tested fresh functions rounds rest l f c h u g d out o e e' lt
        ]
      ]
