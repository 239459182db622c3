-- ===== src/Store/Objects.antt =====
-- Objects of one type, apart from the nodes of lists: their memory is a partial function.
use theblockchainkiller.Base.{
  ◌≡◌, ◌≢◌, refl, sym, Option, none, some, List, [], ◌∷◌, ◌==◌, if◌then◌else◌,
}
use mathlib.Core.Path.{fun_ext}
use theblockchainkiller.Store.{Ptr, null, Result, done, failed, undefined, unfinished, Call}

abbrev pub Objects : Type 0 → Type 0
Objects A = Ptr → Option A

unfoldable pub release : {A : Type 0} → Ptr → Objects A → Objects A
release p o a = if a == p then none else o a

-- `free` of an object: undefined if there is none, as after an earlier `free`.
unfoldable pub free_object : {A : Type 0} → Ptr → Call (Objects A) (Unit {0})
free_object p o = elim (o p) [ some _ ↦ done tt (release p o) | none ↦ undefined ]

-- The address of the C library's `free`, as a function that is given to `linked_list_create`.
abbrev pub at_free : Ptr
at_free = 1

-- A list ignores the code that its free function returns. A loop that is not done does not return.
abbrev pub ignoring_code : {S : Type 0} → Result S (Unit {0}) → Option S
ignoring_code (done _ s) = some s
ignoring_code (failed _ s) = some s
ignoring_code undefined = none
ignoring_code unfinished = none

-- `free(NULL)` does nothing.
abbrev pub library_free : {A : Type 0} → Ptr → Call (Objects A) (Unit {0})
library_free p o = if p == null then done tt o else free_object p o

-- `o` is the object `x` at `p`, and apart from it `rest`.
pub record Splits {A : Type 0} (p : Ptr) (x : A) (o rest : Objects A) : Type 0 where
  pub ne_null : p ≢ null
  pub here : o p ≡ some x
  pub others : (a : Ptr) → rest a ≡ (if a == p then none else o a)

-- `o` is one object at each address of the list, and apart from them `rest`.
pub data OwnsAll {A : Type 0} : List Ptr → Objects A → Objects A → Type 0 where
  nothing : {o : Objects A} → OwnsAll [] o o
  another :
      {p : Ptr} {ps : List Ptr} {x : A} {o o' rest : Objects A}
      → Splits p x o o'
      → OwnsAll ps o' rest
      → OwnsAll (p ∷ ps) o rest

pub Splits-same :
    {A : Type 0} {p : Ptr} {x : A} {o o' rest : Objects A}
    → o' ≡ o
    → Splits p x o rest
    → Splits p x o' rest
Splits-same same w = record {
  ne_null = w.ne_null;
  here = rw same w.here;
  others = λ a. rw same (w.others a);
}

module _ {A : Type 0} {p : Ptr} {x : A} {o rest : Objects A} (w : Splits p x o rest) where
  -- What is left when an object is freed.
  pub release-Splits : release p o ≡ rest
  unfolding release
  release-Splits = fun_ext λ a. sym (w.others a)

  pub free_object-Splits : free_object p o ≡ done tt rest
  unfolding free_object
  free_object-Splits = rw (free_object, w.here, release-Splits) refl
