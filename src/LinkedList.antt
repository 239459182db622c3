-- ===== src/LinkedList.antt =====
-- The functions of src/linked_list.c. Where a function is given the place for a result, `out` is
-- its address, which is only tested: the result is returned.
pub mod Spec
pub mod Owned
pub mod Walk
pub mod Refines
pub mod Client
use theblockchainkiller.Base.{
  ℕ, zero, suc, ◌+◌, ◌%◌, ◌^◌, Bool, true, false, Option, none, some, ◌==◌, if◌then◌else◌,
}
use theblockchainkiller.Runtime.{linked_list_empty, linked_list_no_compare_function}
use theblockchainkiller.Store.{
  Ptr, null, node, linked_list, Heap, Memory, Result, done, failed, undefined, unfinished, Call,
  give, ◌>>=◌, ◌>>◌, given, load_list, load_node, store, free, malloc,
}

-- What the functions of a list do when they are called: the free function at an address, on the
-- memory of the list's user, and whether the compare function at an address finds its two arguments
-- equal. `none` is undefined behaviour.
pub record Functions (D : Type 0) : Type 0 where
  pub free_data : Ptr → Ptr → D → Option D
  pub compare_equal : Ptr → (data1 data2 : Ptr) → D → Option Bool

-- The address of a local variable.
abbrev pub local : Ptr
local = 1

module _ {D : Type 0} (fresh : Heap → Ptr) (functions : Functions D) where
  unfoldable pub linked_list_create :
      (out free_function compare_function : Ptr) → Call (Memory D) Ptr
  linked_list_create out f c = do
    given out
    given f
    l ← malloc fresh
    store l (linked_list f c null)
    give l

  unfoldable pub linked_list_is_empty : (l out : Ptr) → Call (Memory D) Bool
  linked_list_is_empty l out = do
    given l
    given out
    (f, c, head) ← load_list l
    give (head == null)

  -- `list->head = p`
  unfoldable pub set_head : Ptr → Ptr → Call (Memory D) (Unit {0})
  set_head l p = do (f, c, head) ← load_list l; store l (linked_list f c p)

  -- `node->next = q`
  unfoldable pub set_next : Ptr → Ptr → Call (Memory D) (Unit {0})
  set_next p q = do (d, next) ← load_node p; store p (node d q)

  unfoldable pub linked_list_prepend : (l data_at : Ptr) → Call (Memory D) (Unit {0})
  linked_list_prepend l d = do
    given l
    given d
    p ← malloc fresh
    (f, c, head) ← load_list l
    store p (node d head)
    set_head l p

  unfoldable pub unless_empty : Bool → Call (Memory D) (Unit {0})
  unless_empty b m = if b then failed linked_list_empty m else done tt m

  unfoldable pub linked_list_get_first : (l out : Ptr) → Call (Memory D) Ptr
  linked_list_get_first l out = do
    given l
    given out
    is_empty ← linked_list_is_empty l out
    unless_empty is_empty
    (f, c, head) ← load_list l
    give head

  -- `linked_list->free_function(data)`
  unfoldable pub call_free : Ptr → Ptr → Call (Memory D) (Unit {0})
  call_free f d m = elim (functions.free_data f d m.user) [
    | some user' ↦ done tt (record m { user = user' })
    | none ↦ undefined
  ]

  unfoldable pub linked_list_remove_first : Ptr → Call (Memory D) (Unit {0})
  linked_list_remove_first l = do
    given l
    first ← linked_list_get_first l local
    (d, next) ← load_node first
    set_head l next
    (f, c, head) ← load_list l
    (d', next') ← load_node first
    call_free f d'
    free first

  unfoldable pub remove_all : ℕ → Ptr → Call (Memory D) (Unit {0})
  remove_all zero l m = unfinished
  remove_all (suc rounds) l m =
      let rest = remove_all rounds l in
      (do
        is_empty ← linked_list_is_empty l local
        if is_empty then give tt else (linked_list_remove_first l >> rest))
        m

  unfoldable pub linked_list_destroy : ℕ → Ptr → Call (Memory D) (Unit {0})
  linked_list_destroy rounds l = do given l; remove_all rounds l; free l

  unfoldable pub compare_function : Ptr → Ptr → Ptr → Call (Memory D) Bool
  compare_function c d1 d2 m = elim (functions.compare_equal c d1 d2 m.user) [
    | some b ↦ done b m
    | none ↦ undefined
  ]

  -- The node that is found, or `none`: the place for the result is left as it is.
  unfoldable pub find_from : ℕ → Ptr → Ptr → Ptr → Call (Memory D) (Option Ptr)
  find_from zero c d p m = unfinished
  find_from (suc rounds) c d p m =
      let rest = λ (q : Ptr). find_from rounds c d q in
      (if p == null then give none else do
        (d', q) ← load_node p
        equal ← compare_function c d d'
        if equal then give (some p) else rest q)
        m

  unfoldable pub has_compare : Ptr → Call (Memory D) (Unit {0})
  has_compare c m = if c == null then failed linked_list_no_compare_function m else done tt m

  unfoldable pub linked_list_find : ℕ → (l data_at out : Ptr) → Call (Memory D) (Option Ptr)
  linked_list_find rounds l d out = do
    given l
    given d
    given out
    (f, c, head) ← load_list l
    has_compare c
    find_from rounds c d head

  unfoldable pub last_from : ℕ → Ptr → Call (Memory D) Ptr
  last_from zero p m = unfinished
  last_from (suc rounds) p m =
      let rest = λ (q : Ptr). last_from rounds q in
      (do (d, q) ← load_node p; if q == null then give p else rest q) m

  unfoldable pub linked_list_get_last : ℕ → (l out : Ptr) → Call (Memory D) Ptr
  linked_list_get_last rounds l out = do
    given l
    given out
    is_empty ← linked_list_is_empty l out
    unless_empty is_empty
    (f, c, head) ← load_list l
    last_from rounds head

  unfoldable pub append_behind : ℕ → (l data_at : Ptr) → Call (Memory D) (Unit {0})
  append_behind rounds l d = do
    last ← linked_list_get_last rounds l local
    p ← malloc fresh
    store p (node d null)
    set_next last p

  unfoldable pub linked_list_append : ℕ → (l data_at : Ptr) → Call (Memory D) (Unit {0})
  linked_list_append rounds l d = do
    given l
    given d
    is_empty ← linked_list_is_empty l local
    if is_empty then linked_list_prepend l d else append_behind rounds l d

  unfoldable pub count_from : ℕ → Ptr → ℕ → Call (Memory D) ℕ
  count_from zero p result m = unfinished
  count_from (suc rounds) p result m =
      let rest = λ (q : Ptr). count_from rounds q ((result + 1) % 2 ^ 64) in
      (if p == null then give result else do (d, q) ← load_node p; rest q) m

  unfoldable pub linked_list_length : ℕ → (l out : Ptr) → Call (Memory D) ℕ
  linked_list_length rounds l out = do
    given l
    given out
    (f, c, head) ← load_list l
    count_from rounds head 0
