-- ===== src/Buffer/Yields.antt =====
-- What holds of everything that a function over a state can return.
use theblockchainkiller.Base.{ℕ, ◌≡◌, refl, none, some, arith, length, Option}
use theblockchainkiller.Runtime.{Outcome, ok, err, fault}
use theblockchainkiller.Endian.{Bytes}
use theblockchainkiller.Buffer.{
  Cursor, cursor, Run, pure, ◌>>=◌, and_then, require, split, take_bytes, read_array,
}
use theblockchainkiller.Buffer.Safe.{length-split}

pub data Yields {S A : Type 0} (P : A → Type 0) (r : Run S A) : Type 0 where
  yields : ((s s' : S) (a : A) → r s ≡ ok (a, s') → P a) → Yields P r

pub result_of :
    {S A : Type 0} {P : A → Type 0} {r : Run S A}
    → Yields P r
    → (s s' : S) (a : A) → r s ≡ ok (a, s')
    → P a
result_of (yields y) = y

-- The inverse of a successful chain.
and_then-eq-ok :
    {S A B : Type 0} (o : Outcome (A × S)) (f : A → Run S B) (b : B) (s' : S)
    → and_then o f ≡ ok (b, s')
    → (a : A) × (s : S) × (o ≡ ok (a, s)) × (f a s ≡ ok (b, s'))
and_then-eq-ok (ok (a, s)) f b s' e = (a, s, refl, e)
and_then-eq-ok (err c) f b s' e = cc
and_then-eq-ok fault f b s' e = cc

pub bind :
    {S A B : Type 0} {P : A → Type 0} {Q : B → Type 0} {m : Run S A} {f : A → Run S B}
    → Yields P m
    → ((a : A) → P a → Yields Q (f a))
    → Yields Q (m >>= f)
bind y k = yields λ s s' b e.
    let (a, s1, first, second) = and_then-eq-ok _ _ b s' e in
    result_of (k a (result_of y s s1 a first)) s1 s' b second

-- Where nothing needs to be known of the first result.
pub skip :
    {S A B : Type 0} {Q : B → Type 0} (m : Run S A) {f : A → Run S B}
    → ((a : A) → Yields Q (f a))
    → Yields Q (m >>= f)
skip m k = yields λ s s' b e.
    let (a, s1, first, second) = and_then-eq-ok (m s) _ b s' e in result_of (k a) s1 s' b second

pub Yields-pure : {S A : Type 0} {P : A → Type 0} (a : A) → P a → Yields {S = S} P (pure a)
Yields-pure {P = P} a p = yields λ s s' b e. let same : a ≡ b = ground arith in rw (← same) p

Yields-take_bytes : (n : ℕ) → Yields (λ bs. length bs ≡ n) (take_bytes n)
unfolding take_bytes
Yields-take_bytes n = yields λ c c' bs e. front_length c c' bs (split n c.unread) refl e
  where
    front_length :
        (c c' : Cursor) (bs : Bytes) (o : Option (Bytes × Bytes))
        → split n c.unread ≡ o
        → elim o as (λ _. Outcome (Bytes × Cursor)) [
          | none ↦ fault
          | some (xs, rest) ↦ ok (xs, cursor c.allocs rest)
        ]
          ≡ ok (bs, c')
        → length bs ≡ n
    front_length c c' bs none e e' = cc
    front_length c c' bs (some p) e e' =
        let same : p.0 ≡ bs = ground arith in rw (← same) (length-split n c.unread p e)

pub Yields-read_array : (n : ℕ) → Yields (λ bs. length bs ≡ n) (read_array n)
unfolding read_array
Yields-read_array n = skip (require n) (λ _. Yields-take_bytes n)
