-- ===== src/LinkedList/Client.antt =====
-- A list from its creation to its destruction.
use theblockchainkiller.Base.{
  ℕ, suc, ◌+◌, ◌≤◌, ◌<◌, ◌≡◌, refl, Bool, true, false, List, [], ◌∷◌, ◌==◌, length, length-append,
  arith, inl, inr, Bool-cases, Option-cases,
}
use theblockchainkiller.Store.{
  Ptr, null, linked_list, Heap, Memory, memory, Result, done, failed, undefined, unfinished,
  on_success, given, Call, give, store, malloc, put,
}
use theblockchainkiller.Store.Cells.{IsAllocator, look-put}
use theblockchainkiller.Store.Chain.{length-data_of, empty, Owned}
use theblockchainkiller.LinkedList.{Functions, linked_list_create, linked_list_destroy}
use theblockchainkiller.LinkedList.Spec.{
  Op, prepend, append, remove_first, is_empty, get_first, get_last, count, find, Seen, caught,
  perform_all, whole_life, Contents, contents, grant, put_items, free_item, free_items, find_item,
  promised, promised_all, promised_life,
}
use theblockchainkiller.LinkedList.Refines.{
  Refines, both_done, both_failed, both_undefined, Holds, holds,
}
use theblockchainkiller.LinkedList.Refines.Remove.{Restored, restored, destroy-Restored}
use theblockchainkiller.LinkedList.Refines.Perform.{perform-Refines}

-- A call leaves no more than `n` items.
abbrev pub Leaves : {D A : Type 0} → ℕ → Result (Contents D) A → Type 0
Leaves n (done a s) = length s.items ≤ n
Leaves n (failed code s) = length s.items ≤ n
Leaves n undefined = Unit
Leaves n unfinished = Unit

module _ {D : Type 0} (functions : Functions D) (f c : Ptr) where
  find_item-Leaves :
      (d : Ptr) (ds : List Ptr) (s : Contents D)
      → Leaves (suc (length s.items)) (find_item functions f c d ds s)
  unfolding find_item
  find_item-Leaves d [] s = omega arith
  find_item-Leaves d (d' ∷ ds) s = elim (Option-cases (functions.compare_equal c d d' s.user)) [
    | inl e ↦ rw (Leaves, e) tt
    | inr (true, e) ↦ rw (Leaves, e) (omega arith)
    | inr (false, e) ↦ rw (Leaves, e) (find_item-Leaves d ds s)
  ]

  -- A call adds at most one item.
  promised-Leaves :
      (op : Op) (ds : List Ptr) (u : D) (g : List Bool)
      → Leaves (suc (length ds)) (promised functions f c op (contents ds u g))
  unfolding promised given grant put_items free_item
  promised-Leaves (prepend d) ds u g = ground arith
  promised-Leaves (append d) ds u g = ground (arith, length-append ds (d ∷ []))
  promised-Leaves remove_first [] u g = omega arith
  promised-Leaves remove_first (d ∷ ds) u g = elim (Option-cases (functions.free_data f d u)) [
    | inl e ↦ rw (Leaves, e) tt
    | inr (u', e) ↦ rw (Leaves, e) (omega arith)
  ]
  promised-Leaves (is_empty out) ds u g = ground arith
  promised-Leaves (get_first out) ds u g = ground arith
  promised-Leaves (get_last out) ds u g = ground arith
  promised-Leaves (count out) ds u g = ground arith
  promised-Leaves (find d out) ds u g = ground (arith, find_item-Leaves d ds (contents ds u g))

-- A list that is not as long as the number of rounds.
data Short {D : Type 0} (rounds : ℕ) (rest : Heap) (l f c : Ptr)
    : Memory D → Contents D → Type 0 where
  short :
      {m : Memory D} {s : Contents D}
      → Holds rest l f c m s
      → length s.items < rounds
      → Short rounds rest l f c m s

-- The run of both sides ends, without a failure, in related states; or both are undefined.
data Ends {M S A : Type 0} (R : M → S → Type 0) : Result M A → Result S A → Type 0 where
  both_end : {a : A} {m : M} {s : S} → R m s → Ends R (done a m) (done a s)
  end_undefined : Ends R undefined undefined

Ends-then :
    {M S A B : Type 0} {R R' : M → S → Type 0} {x : Result M A} {y : Result S A}
    {next : A → Call M B} {next' : A → Call S B}
    → Ends R x y
    → ((a : A) (m : M) (s : S) → R m s → Refines R' (next a m) (next' a s))
    → Refines R' (on_success x next) (on_success y next')
Ends-then (both_end w) k = k _ _ _ w
Ends-then end_undefined k = both_undefined

Ends-give :
    {M S A B : Type 0} {R : M → S → Type 0} {x : Result M A} {y : Result S A} (b : A → B)
    → Ends R x y
    → Ends R (on_success x λ a. give (b a)) (on_success y λ a. give (b a))
Ends-give b (both_end w) = both_end w
Ends-give b end_undefined = end_undefined

Ends-caught :
    {M D B : Type 0} {n : ℕ} {R R' : M → Contents D → Type 0} {x : Result M Seen}
    {y : Result (Contents D) Seen} {next : Seen → Call M B} {next' : Seen → Call (Contents D) B}
    → Refines R x y
    → Leaves n y
    → ((seen : Seen) (m : M) (s : Contents D)
        → R m s
        → length s.items ≤ n
        → Ends R' (next seen m) (next' seen s))
    → Ends R' (on_success (caught x) next) (on_success (caught y) next')
Ends-caught (both_done w) few k = k _ _ _ w few
Ends-caught (both_failed w) few k = k _ _ _ w few
Ends-caught both_undefined few k = end_undefined

Refines-give :
    {M S A B : Type 0} {R : M → S → Type 0} {x : Result M A} {y : Result S A} (b : B)
    → Refines R x y
    → Refines R (on_success x λ _. give b) (on_success y λ _. give b)
Refines-give b (both_done w) = both_done w
Refines-give b (both_failed w) = both_failed w
Refines-give b both_undefined = both_undefined

-- The new list is empty.
new-Owned :
    (fresh : Heap → Ptr)
    → IsAllocator fresh
    → (rest : Heap) (f c : Ptr)
    → Owned rest (fresh rest) f c [] null (put (fresh rest) (linked_list f c null) rest)
new-Owned fresh allocator rest f c = record {
  chain = empty;
  ne_null = allocator.ne_null rest;
  struct = rw look-put (ground arith);
  outside = λ a e i. rw look-put (ground arith);
  apart = λ a i. cc;
  list_apart = allocator.unused rest;
}

module _ {D : Type 0} (fresh : Heap → Ptr) (functions : Functions D) (rounds : ℕ)
    (allocator : IsAllocator fresh) (rest : Heap) (f c : Ptr) where
  perform_all-Ends :
      (l : Ptr) (ops : List Op) (m : Memory D) (s : Contents D)
      → Holds rest l f c m s
      → length s.items + length ops < rounds
      → Ends
          (Short rounds rest l f c)
          (perform_all fresh functions rounds l ops m)
          (promised_all functions f c ops s)
  unfolding perform_all promised_all
  perform_all-Ends l [] m s w enough = both_end (short w (omega arith))
  perform_all-Ends l (op ∷ ops) m s w enough =
      Ends-caught
        (perform-Refines fresh functions rounds allocator rest l f c op m s w (omega arith))
        (promised-Leaves functions f c op s.items s.user s.grants)
        λ seen m' s' w' few.
          Ends-give (λ others. seen ∷ others) (perform_all-Ends l ops m' s' w' (omega arith))

  destroyed :
      (l : Ptr) (seen : List Seen) (m : Memory D) (s : Contents D)
      → Short rounds rest l f c m s
      → Refines
          (Restored rest)
          (on_success (linked_list_destroy fresh functions rounds l m) λ _. give seen)
          (on_success (free_items functions f c s.items s) λ _. give seen)
  destroyed l seen m s (short (holds {ns} {u} {g} o) enough) =
      let enough' : length ns < rounds = rw length-data_of at enough in
      Refines-give seen (destroy-Restored fresh functions rounds rest l f c ns u g o enough')

  created :
      (ops : List Op) (u : D) (g : List Bool)
      → length ops < rounds
      → (f == null) ≡ false
      → Refines
          (Restored rest)
          (whole_life fresh functions rounds f c ops (memory rest u g))
          (promised_life functions f c ops (contents [] u g))
  unfolding whole_life promised_life linked_list_create given malloc grant store
  created ops u [] enough e = rw e (both_failed (restored λ a. refl))
  created ops u (false ∷ g) enough e = rw e (both_failed (restored λ a. refl))
  created ops u (true ∷ g) enough e =
      let l = fresh rest in
      rw e (
        Ends-then
          (perform_all-Ends l ops (memory (put l (linked_list f c null) rest) u g) (contents [] u g)
            (holds (new-Owned fresh allocator rest f c)) (omega arith))
          λ seen m s w. destroyed l seen m s w)

  -- If the allocator gives addresses that are not NULL and not in use, and `rounds` exceeds the number
  -- of calls, then a program that creates a list, makes any calls on it and destroys it sees what is
  -- promised of the list of data pointers alone: the same code and result of every call, and the same
  -- calls of the free function, in the same order. At the end every address of the heap holds what it
  -- held before. The run is undefined only where a call of the user's own functions is.
  pub whole_life-Refines :
      (ops : List Op) (u : D) (g : List Bool)
      → length ops < rounds
      → Refines
          (Restored rest)
          (whole_life fresh functions rounds f c ops (memory rest u g))
          (promised_life functions f c ops (contents [] u g))
  unfolding whole_life promised_life linked_list_create given
  whole_life-Refines ops u g enough = elim (Bool-cases (f == null)) [
    | inl e ↦ rw e (both_failed (restored λ a. refl))
    | inr e ↦ created ops u g enough e
  ]
