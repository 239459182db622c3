-- ===== src/LinkedList/Refines.antt =====
-- What it means that a run on nodes does what a run on the list of their data promises.
pub mod Find
pub mod Insert
pub mod Query
pub mod Remove
pub mod Perform
use theblockchainkiller.Base.{
  ℕ, zero, suc, ◌+◌, ◌%◌, ◌^◌, ◌<◌, ◌≡◌, ◌≢◌, refl, sym, Bool, true, false, none, some, Option,
  List, [], ◌∷◌, ◌++◌, ◌==◌, if◌then◌else◌, length, arith, inl, inr, Bool-cases,
}
use theblockchainkiller.Runtime.{ReturnCode}
use theblockchainkiller.Store.{
  Ptr, null, node, linked_list, Heap, Memory, memory, Result, done, failed, undefined, Call,
  on_success, give, look, drop, put, load_list, load_node, store, free, given, malloc,
}
use theblockchainkiller.Store.Cells.{IsAllocator}
use theblockchainkiller.Store.Chain.{
  Nodes, data_of, Chain, empty, linked, Owned, last_node, data_of-append, length-data_of,
}
use theblockchainkiller.LinkedList.{
  Functions, linked_list_prepend, linked_list_is_empty, linked_list_get_first, linked_list_get_last,
  linked_list_length, linked_list_find, linked_list_remove_first, linked_list_append, append_behind,
  unless_empty, call_free, compare_function, find_from, has_compare, local,
}
use theblockchainkiller.LinkedList.Spec.{
  Op, prepend, append, remove_first, is_empty, get_first, get_last, count, find, Seen, flag,
  see_node, see_found, perform, Contents, contents, grant, free_item, last_item, find_item,
  put_items, promised,
}
use theblockchainkiller.LinkedList.Owned.{push-Owned, struct-put, pop-Owned, append-Owned, at_last}
use theblockchainkiller.LinkedList.Walk.{
  given-ok, load_list-ok, load_node-ok, free_node-ok, set_head-ok, set_next-ok, last_from-ok,
  count_from-ok,
}

-- Both runs end in the same way, with the same result, and in related states.
pub data Refines {M S A : Type 0} (R : M → S → Type 0) : Result M A → Result S A → Type 0 where
  both_done : {a : A} {m : M} {s : S} → R m s → Refines R (done a m) (done a s)
  both_failed : {c : ReturnCode} {m : M} {s : S} → R m s → Refines R (failed c m) (failed c s)
  both_undefined : Refines R undefined undefined

-- A memory is the list at `l` with the given items, and apart from it `rest`.
pub data Holds {D : Type 0} (rest : Heap) (l f c : Ptr) : Memory D → Contents D → Type 0 where
  holds :
      {ns : Nodes} {head : Ptr} {h : Heap} {u : D} {g : List Bool}
      → Owned rest l f c ns head h
      → Holds rest l f c (memory h u g) (contents (data_of ns) u g)

module _ {D : Type 0} (fresh : Heap → Ptr) (functions : Functions D) (rounds : ℕ) (rest : Heap)
    (l f c : Ptr) where
  -- What remains to be shown of a call.
  abbrev pub Meets : Op → Memory D → Contents D → Type 0
  Meets op m s =
      Refines (Holds rest l f c) (perform fresh functions rounds l op m)
        (promised functions f c op s)
