-- ===== src/Store/Cells.antt =====
-- What a store and a free leave at each address.
use theblockchainkiller.Base.{
  ℕ, ◌≡◌, ◌≢◌, refl, Bool, true, false, Option, none, some, List, [], ◌∷◌, ◌==◌, if◌then◌else◌,
  arith,
}
use theblockchainkiller.Store.{Ptr, null, Cell, Heap, look, put, drop}

module _ (a p : Ptr) where
  pub look-put : (c : Cell) (h : Heap) → look a (put p c h) ≡ (if a == p then some c else look a h)
  unfolding look put
  look-put c h = refl

  pub look-drop : (h : Heap) → look a (drop p h) ≡ (if a == p then none else look a h)
  unfolding look drop
  look-drop [] = ground arith
  look-drop ((q, c) ∷ h) = ground (arith, look-drop h)

-- The allocator gives an address that is not NULL and not in use.
pub record IsAllocator (fresh : Heap → Ptr) : Type 0 where
  pub ne_null : (h : Heap) → fresh h ≢ null
  pub unused : (h : Heap) → look (fresh h) h ≡ none

pub ruleset cells = (arith, look-put, look-drop)
