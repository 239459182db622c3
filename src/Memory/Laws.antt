-- ===== src/Memory/Laws.antt =====
-- `memcmp` on objects that are large enough compares them, and reads nothing else.
use theblockchainkiller.Base.{ℕ, zero, suc, ◌≤◌, ◌≡◌, refl, false, [], ◌∷◌, arith, length, ==_refl}
use theblockchainkiller.Runtime.{ok}
use theblockchainkiller.Endian.{Bytes}
use theblockchainkiller.Memory.{memcmp_differs}

pub memcmp_differs_self : (a : Bytes) (n : ℕ) → n ≤ length a → memcmp_differs a a n ≡ ok false
unfolding memcmp_differs
memcmp_differs_self a zero h = refl
memcmp_differs_self [] (suc n) h = absurd (omega arith)
memcmp_differs_self (x ∷ a) (suc n) h = rw (memcmp_differs_self a n (omega arith), ==_refl x)

-- Objects of `n` bytes that `memcmp` takes for equal are equal.
pub memcmp_differs-eq :
    (a b : Bytes) (n : ℕ) → length a ≡ n → length b ≡ n → memcmp_differs a b n ≡ ok false → a ≡ b
unfolding memcmp_differs
memcmp_differs-eq [] [] zero ha hb e = refl
memcmp_differs-eq [] (y ∷ b) zero ha hb e = absurd (omega arith)
memcmp_differs-eq (x ∷ a) b zero ha hb e = absurd (omega arith)
memcmp_differs-eq [] b (suc n) ha hb e = absurd (omega arith)
memcmp_differs-eq (x ∷ a) [] (suc n) ha hb e = absurd (omega arith)
memcmp_differs-eq (x ∷ a) (y ∷ b) (suc n) ha hb e =
    ground (arith, memcmp_differs-eq a b n (omega arith) (omega arith))
