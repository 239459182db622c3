-- ===== src/LinkedList/Spec.antt =====
-- What the functions of src/linked_list.c promise, in terms of the list of the data pointers alone.
use theblockchainkiller.Base.{
  ℕ, ◌%◌, ◌^◌, Bool, true, false, Option, none, some, List, [], ◌∷◌, ◌++◌, length, ◌==◌,
  if◌then◌else◌,
}
use theblockchainkiller.Runtime.{
  ReturnCode, could_not_malloc, linked_list_empty, linked_list_no_compare_function,
}
use theblockchainkiller.Store.{
  Ptr, null, Memory, Heap, Result, done, failed, undefined, Call, on_success, give, ◌>>=◌, ◌>>◌,
  given, load_node,
}
use theblockchainkiller.LinkedList.{
  Functions, linked_list_create, linked_list_is_empty, linked_list_prepend, linked_list_append,
  linked_list_remove_first, linked_list_get_first, linked_list_get_last, linked_list_find,
  linked_list_length, linked_list_destroy, local,
}

-- The calls that a user of a list makes, apart from its creation and destruction.
pub data Op : Type 0 where
  prepend append : Ptr → Op
  remove_first : Op
  is_empty get_first get_last count : (out : Ptr) → Op
  find : (data_at out : Ptr) → Op

-- What the user sees of a call: of a node, its data pointer.
pub data Seen : Type 0 where
  nothing : Seen
  flag : Bool → Seen
  item : Ptr → Seen
  number : ℕ → Seen
  code : ReturnCode → Seen

-- A failure is seen by the user, who goes on.
abbrev pub caught : {S : Type 0} → Result S Seen → Result S Seen
caught (failed c s) = done (code c) s
caught r = r

module _ {D : Type 0} (fresh : Heap → Ptr) (functions : Functions D) (rounds : ℕ) where
  unfoldable pub see_node : Ptr → Call (Memory D) Seen
  see_node p = do (d, q) ← load_node p; give (item d)

  unfoldable pub see_found : Option Ptr → Call (Memory D) Seen
  see_found none = give nothing
  see_found (some p) = see_node p

  unfoldable pub perform : Ptr → Op → Call (Memory D) Seen
  perform l (prepend d) = linked_list_prepend fresh functions l d >> give nothing
  perform l (append d) = linked_list_append fresh functions rounds l d >> give nothing
  perform l remove_first = linked_list_remove_first fresh functions l >> give nothing
  perform l (is_empty out) = do b ← linked_list_is_empty fresh functions l out; give (flag b)
  perform l (get_first out) = do p ← linked_list_get_first fresh functions l out; see_node p
  perform l (get_last out) = do p ← linked_list_get_last fresh functions rounds l out; see_node p
  perform l (count out) = do n ← linked_list_length fresh functions rounds l out; give (number n)
  perform l (find d out) = do p ← linked_list_find fresh functions rounds l d out; see_found p

  unfoldable pub perform_all : Ptr → List Op → Call (Memory D) (List Seen)
  perform_all l [] = give []
  perform_all l (op ∷ ops) = λ m.
      on_success (caught (perform l op m))
        λ seen. (do others ← perform_all l ops; give (seen ∷ others))

  -- A list's life: it is created, used and destroyed.
  unfoldable pub whole_life :
      (free_function compare_function : Ptr) → List Op → Call (Memory D) (List Seen)
  whole_life f c ops = do
    l ← linked_list_create fresh functions local f c
    seen ← perform_all l ops
    linked_list_destroy fresh functions rounds l
    give seen

pub record Contents (D : Type 0) : Type 0 where
  pub items : List Ptr
  pub user : D
  pub grants : List Bool

abbrev pub contents : {D : Type 0} → List Ptr → D → List Bool → Contents D
contents ds u g = record { items = ds; user = u; grants = g }

unfoldable pub last_item : Ptr → List Ptr → Ptr
last_item d [] = d
last_item d (d' ∷ ds) = last_item d' ds

module _ {D : Type 0} (functions : Functions D) (f c : Ptr) where
  unfoldable pub grant : Call (Contents D) (Unit {0})
  grant s = elim s.grants [
    | true ∷ g ↦ done tt (record s { grants = g })
    | false ∷ g ↦ failed could_not_malloc (record s { grants = g })
    | [] ↦ failed could_not_malloc s
  ]

  unfoldable pub free_item : Ptr → List Ptr → Call (Contents D) (Unit {0})
  free_item d ds s = elim (functions.free_data f d s.user) [
    | some user' ↦ done tt (contents ds user' s.grants)
    | none ↦ undefined
  ]

  unfoldable pub find_item : Ptr → List Ptr → Call (Contents D) Seen
  find_item d [] s = done nothing s
  find_item d (d' ∷ ds) s =
      elim (functions.compare_equal c d d' s.user) as (λ _. Result (Contents D) Seen) [
        | none ↦ undefined
        | some true ↦ done (item d') s
        | some false ↦ find_item d ds s
      ]

  unfoldable pub put_items : List Ptr → Call (Contents D) Seen
  put_items ds s = done nothing (record s { items = ds })

  unfoldable pub promised : Op → Call (Contents D) Seen
  promised (prepend d) = do given d; grant; λ s. put_items (d ∷ s.items) s
  promised (append d) = do given d; grant; λ s. put_items (s.items ++ (d ∷ [])) s
  promised remove_first = λ s. elim s.items [
    | [] ↦ failed linked_list_empty s
    | d ∷ ds ↦ on_success (free_item d ds s) λ _. give nothing
  ]
  promised (is_empty out) = do
    given out
    λ s. elim s.items [ [] ↦ done (flag true) s | _ ∷ _ ↦ done (flag false) s ]
  promised (get_first out) = do
    given out
    λ s. elim s.items [ [] ↦ failed linked_list_empty s | d ∷ _ ↦ done (item d) s ]
  promised (get_last out) = do
    given out
    λ s. elim s.items [ [] ↦ failed linked_list_empty s | d ∷ ds ↦ done (item (last_item d ds)) s ]
  promised (count out) = do given out; λ s. done (number (length s.items % 2 ^ 64)) s
  promised (find d out) = do
    given d
    given out
    λ s. if c == null then failed linked_list_no_compare_function s else find_item d s.items s

  unfoldable pub promised_all : List Op → Call (Contents D) (List Seen)
  promised_all [] = give []
  promised_all (op ∷ ops) = λ s.
      on_success (caught (promised op s))
        λ seen. (do others ← promised_all ops; give (seen ∷ others))

  -- The data of every item is freed once, from the front.
  unfoldable pub free_items : List Ptr → Call (Contents D) (Unit {0})
  free_items [] s = done tt s
  free_items (d ∷ ds) s = on_success (free_item d ds s) λ _. free_items ds

  unfoldable pub promised_life : List Op → Call (Contents D) (List Seen)
  promised_life ops = do
    given f
    grant
    seen ← promised_all ops
    λ s. (free_items s.items >> give seen) s
