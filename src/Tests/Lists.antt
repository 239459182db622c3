-- ===== src/Tests/Lists.antt =====
-- A linked list in use.
use theblockchainkiller.Base.{
  ◌+◌, ◌<◌, ◌≡◌, refl, Bool, true, false, none, some, List, [], ◌∷◌, ◌==◌, arith,
}
use theblockchainkiller.Runtime.{linked_list_empty, could_not_malloc}
use theblockchainkiller.Store.{
  Ptr, Heap, memory, done, look, put, drop, load_list, load_node, store, free, malloc, given,
}
use theblockchainkiller.Store.Cells.{IsAllocator}
use theblockchainkiller.LinkedList.{
  Functions, linked_list_create, linked_list_is_empty, set_head, set_next, linked_list_prepend,
  unless_empty, linked_list_get_first, call_free, linked_list_remove_first, remove_all,
  linked_list_destroy, compare_function, find_from, has_compare, linked_list_find, last_from,
  linked_list_get_last, append_behind, linked_list_append, count_from, linked_list_length,
}
use theblockchainkiller.LinkedList.Spec.{
  Op, prepend, append, remove_first, is_empty, get_first, get_last, count, find, nothing, flag,
  item, number, code, see_node, see_found, perform, perform_all, whole_life, contents,
  promised_life,
}
use theblockchainkiller.LinkedList.Refines.{Refines}
use theblockchainkiller.LinkedList.Refines.Remove.{Restored}
use theblockchainkiller.LinkedList.Client.{whole_life-Refines}

-- An address above all that are in use.
abbrev pub above : Heap → Ptr
above [] = 1
above ((p, _) ∷ h) = p + above h

above_positive : (h : Heap) → 0 < above h
above_positive [] = omega arith
above_positive ((p, c) ∷ h) = omega (arith, above_positive h)

look-above : (a : Ptr) (h : Heap) → above h < a + 1 → look a h ≡ none
unfolding look
look-above a [] e = refl
look-above a ((p, c) ∷ h) e = ground (arith, look-above a h, above_positive h)

pub above-IsAllocator : IsAllocator above
above-IsAllocator = record {
  ne_null = λ h. ground (arith, above_positive h);
  unused = λ h. look-above (above h) h (omega arith);
}

-- The user keeps a record of what is freed, and compares pointers.
abbrev recorded : Functions (List Ptr)
recorded = record {
  free_data = λ f d freed. some (d ∷ freed);
  compare_equal = λ c d1 d2 freed. some (d1 == d2);
}

abbrev calls : List Op
calls =
    remove_first
    ∷ append 50
    ∷ prepend 40
    ∷ append 60
    ∷ append 70
    ∷ find 50 1
    ∷ find 80 1
    ∷ remove_first
    ∷ count 1
    ∷ get_first 1
    ∷ get_last 1
    ∷ is_empty 1
    ∷ []

abbrev grants : List Bool
grants = true ∷ true ∷ true ∷ true ∷ false ∷ []

whole_life_run :
    whole_life above recorded 20 7 8 calls (memory [] [] grants)
    ≡ done
        (code linked_list_empty
          ∷ nothing
          ∷ nothing
          ∷ nothing
          ∷ code could_not_malloc
          ∷ item 50
          ∷ nothing
          ∷ nothing
          ∷ number 2
          ∷ item 50
          ∷ item 60
          ∷ flag false
          ∷ [])
        (memory [] (60 ∷ 50 ∷ 40 ∷ []) [])
unfolding whole_life perform_all perform see_node see_found linked_list_create linked_list_is_empty
    set_head set_next linked_list_prepend unless_empty linked_list_get_first call_free
    linked_list_remove_first remove_all linked_list_destroy compare_function find_from has_compare
    linked_list_find last_from linked_list_get_last append_behind linked_list_append count_from
    linked_list_length look put drop load_list load_node store free malloc given
whole_life_run = refl

whole_life-Refines_example :
    Refines
      (Restored [])
      (whole_life above recorded 20 7 8 calls (memory [] [] grants))
      (promised_life recorded 7 8 calls (contents [] [] grants))
whole_life-Refines_example =
    whole_life-Refines above recorded 20 above-IsAllocator [] 7 8 calls [] grants (omega arith)
