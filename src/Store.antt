-- ===== src/Store.antt =====
-- The memory that src/linked_list.c works on: nodes and lists at addresses, with what the users of
-- a list keep behind its data pointers.
pub mod Cells
pub mod Chain
pub mod Objects
use theblockchainkiller.Base.{
  ℕ, zero, suc, Bool, true, false, Option, none, some, List, [], ◌∷◌, ◌==◌, not, if◌then◌else◌,
}
use theblockchainkiller.Runtime.{ReturnCode, could_not_malloc, invalid_input}

abbrev pub Ptr : Type 0
Ptr = ℕ

abbrev pub null : Ptr
null = 0

-- An object that `malloc` has given to the list: a `node_t` with its data and next pointers, or a
-- `linked_list_t` with its free function, compare function and head.
pub data Cell : Type 0 where
  node : (data_at next : Ptr) → Cell
  linked_list : (free_function compare_function head : Ptr) → Cell

abbrev pub Heap : Type 0
Heap = List (Ptr × Cell)

unfoldable pub look : Ptr → Heap → Option Cell
look a [] = none
look a ((p, c) ∷ h) = if a == p then some c else look a h

unfoldable pub put : Ptr → Cell → Heap → Heap
put p c h = (p, c) ∷ h

unfoldable pub drop : Ptr → Heap → Heap
drop p [] = []
drop p ((q, c) ∷ h) = let rest = drop p h in if q == p then rest else (q, c) ∷ rest

-- `grants` says which of the calls of `malloc` to come succeed, and `user` is the part of the memory
-- behind the data pointers.
pub record Memory (D : Type 0) : Type 0 where
  pub heap : Heap
  pub user : D
  pub grants : List Bool

abbrev pub memory : {D : Type 0} → Heap → D → List Bool → Memory D
memory h d g = record { heap = h; user = d; grants = g }

-- How a call ends: it returns SUCCESS and a result, or the code of a failure; or its behaviour is
-- undefined; or a loop is not done after the given number of rounds.
pub data Result (S A : Type 0) : Type 0 where
  done : A → S → Result S A
  failed : ReturnCode → S → Result S A
  undefined : Result S A
  unfinished : Result S A

abbrev pub Call : Type 0 → Type 0 → Type 0
Call S A = S → Result S A

module _ {S : Type 0} where
  abbrev pub give : {A : Type 0} → A → Call S A
  give = done

  abbrev pub on_success : {A B : Type 0} → Result S A → (A → Call S B) → Result S B
  on_success (done a s) next = next a s
  on_success (failed c s) next = failed c s
  on_success undefined next = undefined
  on_success unfinished next = unfinished

  infixl 5 ◌>>=◌ ◌>>◌
  abbrev pub ◌>>=◌ : {A B : Type 0} → Call S A → (A → Call S B) → Call S B
  m >>= next = λ s. on_success (m s) next

  abbrev pub ◌>>◌ : {B : Type 0} → Call S (Unit {0}) → Call S B → Call S B
  m >> next = m >>= λ _. next

  -- `if (NULL == p) { return_code = FAILURE_INVALID_INPUT; goto end; }`
  unfoldable pub given : Ptr → Call S (Unit {0})
  given p s = if p == null then failed invalid_input s else done tt s

module _ {D : Type 0} where
  unfoldable pub load_list : Ptr → Call (Memory D) (Ptr × Ptr × Ptr)
  load_list p m = elim (look p m.heap) as (λ _. Result (Memory D) (Ptr × Ptr × Ptr)) [
    | some (linked_list f c q) ↦ done (f, c, q) m
    | _ ↦ undefined
  ]

  unfoldable pub load_node : Ptr → Call (Memory D) (Ptr × Ptr)
  load_node p m = elim (look p m.heap) as (λ _. Result (Memory D) (Ptr × Ptr)) [
    | some (node d q) ↦ done (d, q) m
    | _ ↦ undefined
  ]

  unfoldable pub store : Ptr → Cell → Call (Memory D) (Unit {0})
  store p c m = done tt (record m { heap = put p c m.heap })

  -- `free` of a node or a list
  unfoldable pub free : Ptr → Call (Memory D) (Unit {0})
  free p m = elim (look p m.heap) as (λ _. Result (Memory D) (Unit {0})) [
    | some _ ↦ done tt (record m { heap = drop p m.heap })
    | none ↦ undefined
  ]

-- `malloc` of a node or a list: `fresh` is the address that the allocator picks.
unfoldable pub malloc : {D : Type 0} → (Heap → Ptr) → Call (Memory D) Ptr
malloc fresh m = elim m.grants [
  | true ∷ g ↦ done (fresh m.heap) (record m { grants = g })
  | false ∷ g ↦ failed could_not_malloc (record m { grants = g })
  | [] ↦ failed could_not_malloc m
]
