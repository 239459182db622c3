-- ===== src/Networking/Socket/Stream.antt =====
-- The bytes that `recv_all` and `send_all` move do not depend on how the kernel splits them.
use theblockchainkiller.Base.{
  ℕ, zero, suc, ◌+◌, ◌≤◌, ◌<◌, ◌≡◌, refl, sym, ap, ◌∙◌, List, [], ◌∷◌, ◌++◌, append_assoc,
  append-nil, arith, length, length-append, replicate, All,
}
use theblockchainkiller.Endian.{Bytes}
use theblockchainkiller.Networking.Socket.{
  Call, fails, moves, done, waits, move, transfer, recv_all, send_all,
}

-- A move keeps the bytes and their order, and what is wanted and what is there stay in step.
move_keeps :
    (n wanted : ℕ) (dst src : Bytes)
    → ((move n wanted dst src).dst ++ (move n wanted dst src).src ≡ dst ++ src)
      × (length (move n wanted dst src).dst + (move n wanted dst src).wanted ≡ length dst + wanted)
unfolding move
move_keeps zero wanted dst src = (refl, refl)
move_keeps (suc n) zero dst src = (refl, refl)
move_keeps (suc n) (suc wanted) dst [] = (refl, refl)
move_keeps (suc n) (suc wanted) dst (b ∷ src) =
    let (kept, step) = move_keeps n wanted (dst ++ (b ∷ [])) src in
    (kept ∙ append_assoc dst (b ∷ []) src, omega (arith, step, length-append dst (b ∷ [])))

transfer_keeps :
    (calls : List Call) (wanted : ℕ) (dst src out rest : Bytes) (left : List Call)
    → transfer calls wanted dst src ≡ done out rest left
    → (out ++ rest ≡ dst ++ src) × (length out ≡ length dst + wanted)
unfolding transfer
transfer_keeps calls zero dst src out rest left e = ground (arith)
transfer_keeps [] (suc wanted) dst src out rest left e = cc
transfer_keeps (fails ∷ calls) (suc wanted) dst src out rest left e = cc
transfer_keeps (moves n ∷ calls) (suc wanted) dst src out rest left e =
    let m = move n (suc wanted) dst src in
    let (kept, step) = move_keeps n (suc wanted) dst src in
    let (kept', step') = transfer_keeps calls m.wanted m.dst m.src out rest left e in
    (kept' ∙ kept, omega (arith, step, step'))

-- When `recv_all` returns SUCCESS, the buffer holds the next `len` bytes of the stream in their
-- order, and the rest of the stream is still to be received, however the kernel has split it.
pub recv_all-stream :
    (calls : List Call) (len : ℕ) (stream out rest : Bytes) (left : List Call)
    → recv_all calls len stream ≡ done out rest left
    → (out ++ rest ≡ stream) × (length out ≡ len)
unfolding recv_all
recv_all-stream calls len stream out rest left e =
    let (kept, size) = transfer_keeps calls len [] stream out rest left e in
    (kept, omega (arith, size))

-- When `send_all` returns SUCCESS, it has sent all of the buffer, in order.
pub send_all-whole :
    (calls : List Call) (buf out rest : Bytes) (left : List Call)
    → send_all calls buf ≡ done out rest left
    → (out ≡ buf) × (rest ≡ [])
unfolding send_all
send_all-whole calls buf out rest left e =
    let (kept, size) = transfer_keeps calls (length buf) [] buf out rest left e in
    let none_left : rest ≡ [] =
      empty rest (omega (arith, ap length kept, length-append out rest, size)) in
    (sym (append-nil out) ∙ rw none_left at kept, none_left)
  where
    empty : (bs : Bytes) → length bs ≡ 0 → bs ≡ []
    empty [] h = refl
    empty (b ∷ bs) h = absurd (omega arith)

-- Behind a peer that has closed the connection `recv` returns 0, and `recv_all` never returns when
-- it still wants a byte: it has not returned after any number of calls.
pub recv_all_closed :
    (calls len : ℕ) (stream : Bytes) → recv_all (replicate calls (moves 0)) (suc len) stream ≡ waits
unfolding recv_all transfer move
recv_all_closed zero len stream = refl
recv_all_closed (suc calls) len stream = recv_all_closed calls len stream

-- Calls that move at least one byte each.
abbrev pub Progress : Call → Type 0
Progress fails = ⊥
Progress (moves n) = 0 < n

move_progress :
    (n wanted : ℕ) (dst src : Bytes)
    → wanted ≤ length src
    → ((move n wanted dst src).wanted ≤ wanted)
      × ((move n wanted dst src).wanted ≤ length (move n wanted dst src).src)
unfolding move
move_progress zero wanted dst src h = (omega arith, h)
move_progress (suc n) zero dst src h = (omega arith, omega arith)
move_progress (suc n) (suc wanted) dst [] h = absurd (omega arith)
move_progress (suc n) (suc wanted) dst (b ∷ src) h =
    let (less, there) = move_progress n wanted (dst ++ (b ∷ [])) src (omega arith) in
    (omega (arith, less), there)

transfer-done :
    (calls : List Call) (wanted : ℕ) (dst src : Bytes)
    → All Progress calls
    → wanted ≤ length calls
    → wanted ≤ length src
    → (out : Bytes) × (rest : Bytes) × (left : List Call) × (transfer calls wanted dst src
        ≡ done out rest left)
unfolding transfer move
transfer-done calls zero dst src p many enough = (dst, src, calls, refl)
transfer-done [] (suc wanted) dst src p many enough = absurd (omega arith)
transfer-done (fails ∷ calls) (suc wanted) dst src p many enough = absurd p.0
transfer-done (moves zero ∷ calls) (suc wanted) dst src p many enough = absurd (omega arith)
transfer-done (moves (suc n) ∷ calls) (suc wanted) dst [] p many enough = absurd (omega arith)
transfer-done (moves (suc n) ∷ calls) (suc wanted) dst (b ∷ src) p many enough =
    let m = move n wanted (dst ++ (b ∷ [])) src in
    let (less, there) = move_progress n wanted (dst ++ (b ∷ [])) src (omega arith) in
    transfer-done calls m.wanted m.dst m.src p.1 (omega (arith, less)) there

-- `recv_all` returns SUCCESS if each call moves a byte at least, the stream has at least as many
-- bytes as are asked for, and there are at least as many calls.
recv_all-done :
    (calls : List Call) (len : ℕ) (stream : Bytes)
    → All Progress calls
    → len ≤ length calls
    → len ≤ length stream
    → (out : Bytes) × (rest : Bytes) × (left : List Call) × (recv_all calls len stream
        ≡ done out rest left)
unfolding recv_all
recv_all-done calls len stream p many enough = transfer-done calls len [] stream p many enough
