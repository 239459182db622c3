-- ===== src/Runtime/Gives.antt =====
-- What holds of the result of a chain of calls, if there is one.
use theblockchainkiller.Base.{◌≡◌, refl, arith}
use theblockchainkiller.Runtime.{Outcome, fault, err, ok, ◌>>=◌}

pub data Gives {u} {A : Type u} (P : A → Type 0) (r : Outcome A) : Type u where
  gives : ((a : A) → r ≡ ok a → P a) → Gives P r

pub given_by {u} :
    {A : Type u} {P : A → Type 0} {r : Outcome A} → Gives P r → (a : A) → r ≡ ok a → P a
given_by (gives g) = g

pub Gives-ok {u} : {A : Type u} {P : A → Type 0} (a : A) → P a → Gives P (ok a)
Gives-ok a p = gives λ b e. let same : a ≡ b = ground arith in rw (← same) p

-- The next call, and that the one before it has given `a`.
pub Gives-bind {u v} :
    {A : Type u} {B : Type v} {P : B → Type 0} {next : A → Outcome B} (r : Outcome A)
    → ((a : A) → r ≡ ok a → Gives P (next a))
    → Gives P (r >>= next)
Gives-bind (ok a) k = k a refl
Gives-bind (err code) k = gives λ b e. cc
Gives-bind fault k = gives λ b e. cc

pub skip {u v} :
    {A : Type u} {B : Type v} {P : B → Type 0} {next : A → Outcome B} (r : Outcome A)
    → ((a : A) → Gives P (next a))
    → Gives P (r >>= next)
skip r k = Gives-bind r λ a _. k a
