-- ===== src/Memory.antt =====
-- `memcmp` and `memcpy` of the C library, as the program calls them.
pub mod Laws
use theblockchainkiller.Base.{ℕ, zero, suc, Bool, true, false, not, ◌||◌, [], ◌∷◌, ◌==◌}
use theblockchainkiller.Runtime.{Outcome, ok, fault, ◌>>=◌}
use theblockchainkiller.Endian.{Bytes}

-- `0 != memcmp(a, b, n)`. Both objects have to hold `n` bytes: C leaves the call undefined
-- otherwise.
unfoldable pub memcmp_differs : Bytes → Bytes → ℕ → Outcome Bool
memcmp_differs a b zero = ok false
memcmp_differs [] b (suc n) = fault
memcmp_differs (x ∷ a) [] (suc n) = fault
memcmp_differs (x ∷ a) (y ∷ b) (suc n) = do rest ← memcmp_differs a b n; ok (not (x == y) || rest)

-- The array `old` after a write of `new` at its beginning.
unfoldable pub overwrite : Bytes → Bytes → Bytes
overwrite [] old = old
overwrite (x ∷ new) [] = []
overwrite (x ∷ new) (y ∷ old) = x ∷ overwrite new old
