-- ===== src/Buffer/Safe.antt =====
-- Readers that never read outside the buffer, whatever bytes are in it.
use theblockchainkiller.Base.{
  ℕ, zero, suc, ◌≤◌, ◌≡◌, ◌≢◌, refl, ap, Bool, true, false, ◌∷◌, [], some, arith, length, leb,
  leb→le, Bool-cases, inl, inr,
}
use theblockchainkiller.Runtime.{ReturnCode, Outcome, ok, err, fault}
use theblockchainkiller.Endian.{Host, Bytes}
use theblockchainkiller.Buffer.{
  Cursor, cursor, Run, pure, ◌>>=◌, ◌>>◌, and_then, guard, malloc, allocate, allocate_bytes,
  require, split, take_bytes, read_u64, read_net, read_array,
}

pub data Safe {A : Type 0} (r : Run Cursor A) : Type 0 where
  safe : ((c : Cursor) → r c ≢ fault) → Safe r

pub never_faults : {A : Type 0} {r : Run Cursor A} → Safe r → (c : Cursor) → r c ≢ fault
never_faults (safe s) = s

pub and_then-ne-fault :
    {A B : Type 0} (o : Outcome (A × Cursor)) (f : A → Run Cursor B)
    → o ≢ fault
    → ((a : A) (c : Cursor) → o ≡ ok (a, c) → f a c ≢ fault)
    → and_then o f ≢ fault
and_then-ne-fault (ok (a, c)) f n k = k a c refl
and_then-ne-fault (err e) f n k = λ p. cc
and_then-ne-fault fault f n k = absurd (n refl)

pub bind :
    {A B : Type 0} {m : Run Cursor A} {f : A → Run Cursor B}
    → Safe m
    → ((a : A) → Safe (f a))
    → Safe (m >>= f)
bind {m} {f} (safe s) k =
    safe (λ c. and_then-ne-fault (m c) f (s c) (λ a c' _. never_faults (k a) c'))

pub Safe-pure : {A : Type 0} (a : A) → Safe (pure a)
Safe-pure a = safe (λ c p. cc)

pub Safe-guard : (b : Bool) (e : ReturnCode) → Safe (guard b e)
Safe-guard true e = safe (λ c p. cc)
Safe-guard false e = safe (λ c p. cc)

pub Safe-allocate : Safe allocate
unfolding allocate malloc
Safe-allocate = safe (λ c p. ground arith)

pub Safe-require : (n : ℕ) → Safe (require n)
unfolding require
Safe-require n = safe (λ c. never_faults (Safe-guard (leb n (length c.unread)) _) c)

pub Safe-allocate_bytes : (n : ℕ) → Safe (allocate_bytes n)
unfolding allocate_bytes
Safe-allocate_bytes n = bind (Safe-guard _ _) (λ _. Safe-allocate)

split-some : (n : ℕ) (bs : Bytes) → n ≤ length bs → (p : Bytes × Bytes) × (split n bs ≡ some p)
unfolding split
split-some zero bs h = (([], bs), refl)
split-some (suc n) [] h = absurd (omega arith)
split-some (suc n) (b ∷ bs) h =
    let (p, e) = split-some n bs (omega arith) in ((b ∷ p.0, p.1), ground (arith, e))

split-suc :
    (n b : ℕ) (bs : Bytes) (p : Bytes × Bytes)
    → split (suc n) (b ∷ bs) ≡ some p
    → (q : Bytes × Bytes) × (split n bs ≡ some q) × (p.0 ≡ b ∷ q.0)
unfolding split
split-suc n b bs p e = ground arith

pub length-split : (n : ℕ) (bs : Bytes) (p : Bytes × Bytes) → split n bs ≡ some p → length p.0 ≡ n
unfolding split
length-split zero bs p e = ground arith
length-split (suc n) [] p e = cc
length-split (suc n) (b ∷ bs) p e =
    let (q, e', cut) = split-suc n b bs p e in omega (arith, length-split n bs q e', ap length cut)

length-take_bytes :
    (n : ℕ) (c c' : Cursor) (bs : Bytes) → take_bytes n c ≡ ok (bs, c') → length bs ≡ n
unfolding take_bytes
length-take_bytes n c c' bs e = ground (arith, length-split n c.unread (bs, c'.unread))

take_bytes-ok :
    (n : ℕ) (c : Cursor) → n ≤ length c.unread → (r : Bytes × Cursor) × (take_bytes n c ≡ ok r)
unfolding take_bytes
take_bytes-ok n c h =
    let (p, e) = split-some n c.unread h in ((p.0, cursor c.allocs p.1), ground (arith, e))

pub Safe-take : (n : ℕ) (c : Cursor) → n ≤ length c.unread → take_bytes n c ≢ fault
Safe-take n c h = let (r, e) = take_bytes-ok n c h in λ p. cc (e, p)

Safe-checked : (n : ℕ) (c : Cursor) → (require n >> take_bytes n) c ≢ fault
unfolding require
Safe-checked n c = elim (Bool-cases (leb n (length c.unread))) [
  | inr short ↦ rw short (λ p. cc)
  | inl enough ↦ rw enough (Safe-take n c (leb→le _ _ enough))
]

-- A copy behind the check that asks for as many bytes, with what follows.
pub Safe-require_take :
    {A : Type 0} (n : ℕ) {f : Bytes → Run Cursor A}
    → ((bs : Bytes) → length bs ≡ n → Safe (f bs))
    → Safe (require n >> (take_bytes n >>= f))
unfolding require
Safe-require_take n {f} k = safe (λ c. elim (Bool-cases (leb n (length c.unread))) [
  | inr short ↦ rw short (λ p. cc)
  | inl enough ↦ rw enough (
      and_then-ne-fault (take_bytes n c) f (Safe-take n c (leb→le _ _ enough))
        (λ bs c' e. never_faults (k bs (length-take_bytes n c c' bs e)) c'))
])

pub Safe-read_array : (n : ℕ) → Safe (read_array n)
unfolding read_array
Safe-read_array n = safe (Safe-checked n)

pub Safe-read_u64 : (h : Host) → Safe (read_u64 h)
unfolding read_u64
Safe-read_u64 h = Safe-require_take 8 (λ bs _. Safe-pure _)

pub Safe-read_net : (h : Host) (n : ℕ) → Safe (read_net h n)
unfolding read_net
Safe-read_net h n = Safe-require_take n (λ bs _. Safe-pure _)

pub ruleset safe_rules = (
  bind, Safe-pure, Safe-guard, Safe-allocate, Safe-allocate_bytes, Safe-require, Safe-read_array,
  Safe-read_u64, Safe-read_net,
)
