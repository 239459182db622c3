-- ===== src/Networking/Socket/Prefix.antt =====
-- How `recv_all` takes the front of a stream, and how many calls that takes.
use theblockchainkiller.Base.{
  ℕ, zero, suc, ◌+◌, ◌≤◌, ◌≡◌, refl, List, [], ◌∷◌, ◌++◌, All, length, append_assoc, append-nil,
  arith, ap, sym, ◌∙◌, length-append,
}
use theblockchainkiller.Endian.{Bytes}
use theblockchainkiller.Networking.Socket.{Call, fails, moves, done, move, transfer, send_all}
use theblockchainkiller.Networking.Socket.Stream.{Progress}

-- What one call moves, and what it leaves.
record Taken (n : ℕ) (xs rest dst : Bytes) : Type 0 where
  front : Bytes
  back : Bytes
  both : xs ≡ front ++ back
  moved :
      move n (length xs) dst (xs ++ rest)
      ≡ record { dst = dst ++ front; src = back ++ rest; wanted = length back }

move-Taken : (n : ℕ) (xs rest dst : Bytes) → Taken n xs rest dst
unfolding move
move-Taken zero xs rest dst = record {
  front = [];
  back = xs;
  both = refl;
  moved = rw append-nil refl;
}
move-Taken (suc n) [] rest dst = record {
  front = [];
  back = [];
  both = refl;
  moved = rw append-nil refl;
}
move-Taken (suc n) (x ∷ xs) rest dst =
    let t = move-Taken n xs rest (dst ++ (x ∷ [])) in
    record {
      front = x ∷ t.front;
      back = t.back;
      both = rw (← t.both) refl;
      moved = rw (t.moved, append_assoc) refl;
    }

-- A transfer that is over, with the calls that it has not made: a call moves a byte at least.
pub record Prefix (calls : List Call) (xs rest dst : Bytes) : Type 0 where
  pub left : List Call
  pub progress : All Progress left
  pub enough : length calls ≤ length left + length xs
  pub over : transfer calls (length xs) dst (xs ++ rest) ≡ done (dst ++ xs) rest left

-- If each call of `recv` or `send` moves a byte at least and there are as many as bytes, then the
-- whole of the wanted bytes is moved.
pub transfer-Prefix :
    (calls : List Call) (xs rest dst : Bytes)
    → All Progress calls
    → length xs ≤ length calls
    → Prefix calls xs rest dst
unfolding transfer move
transfer-Prefix calls [] rest dst p many = record {
  left = calls;
  progress = p;
  enough = omega arith;
  over = rw append-nil refl;
}
transfer-Prefix [] (x ∷ xs) rest dst p many = absurd (omega arith)
transfer-Prefix (fails ∷ calls) (x ∷ xs) rest dst p many = absurd p.0
transfer-Prefix (moves zero ∷ calls) (x ∷ xs) rest dst p many = absurd (omega (arith, p.0))
transfer-Prefix (moves (suc n) ∷ calls) (x ∷ xs) rest dst p many =
    let t = move-Taken n xs rest (dst ++ (x ∷ [])) in
    let size : length xs ≡ length t.front + length t.back =
      ap length t.both ∙ length-append t.front t.back in
    let r =
      transfer-Prefix calls t.back rest ((dst ++ (x ∷ [])) ++ t.front) p.1 (omega (arith, size)) in
    let joined : ((dst ++ (x ∷ [])) ++ t.front) ++ t.back ≡ dst ++ (x ∷ xs) =
      append_assoc (dst ++ (x ∷ [])) t.front t.back
      ∙ ap (λ ys. (dst ++ (x ∷ [])) ++ ys) (sym t.both)
      ∙ append_assoc dst (x ∷ []) xs in
    record {
      left = r.left;
      progress = r.progress;
      enough = omega (arith, size, r.enough);
      over = rw (move, t.moved, r.over, joined) refl;
    }

pub send_all-Prefix :
    (calls : List Call) (buf : Bytes)
    → All Progress calls
    → length buf ≤ length calls
    → (left : List Call) × (send_all calls buf ≡ done buf [] left)
unfolding send_all
send_all-Prefix calls buf p many =
    let r = transfer-Prefix calls buf [] [] p many in (r.left, rw append-nil at r.over)
