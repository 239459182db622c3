-- ===== src/Miner/Keys.antt =====
-- The keys of src/miner.c stay within their arrays.
use theblockchainkiller.Base.{
  ℕ, ◌+◌, ◌*◌, ◌/◌, ◌<◌, ◌≡◌, refl, [], ◌∷◌, ◌++◌, length, length-replicate, replicate, ltb, lt→ltb,
  arith, inl, inr, Bool-cases, Option-cases,
}
use theblockchainkiller.Runtime.{Outcome, ok, err, fault}
use theblockchainkiller.Endian.{Bytes}
use theblockchainkiller.Memory.{overwrite}
use theblockchainkiller.Crypto.{max_ssh_key_length}
use theblockchainkiller.Base64.{DecodeBlock, IsDecodeBlock, base64_decode}
use theblockchainkiller.Miner.{decode_key}

length-overwrite : (new old : Bytes) → length (overwrite new old) ≡ length old
unfolding overwrite
length-overwrite [] old = refl
length-overwrite (x ∷ new) [] = refl
length-overwrite (x ∷ new) (y ∷ old) = rw (length-overwrite new old) refl

-- A result that is not undefined, and of which a predicate holds if there is one.
abbrev pub Defined {u} : {A : Type u} → (A → Type 0) → Outcome A → Type 0
Defined P (ok a) = P a
Defined P (err code) = Unit
Defined P fault = ⊥

module _ (decode : DecodeBlock) (within : IsDecodeBlock decode) where
  base64_decode-Defined :
      (text array : Bytes)
      → 3 * (length text / 4) < length array
      → Defined (λ key. length key ≡ length array) (base64_decode decode text array)
  unfolding base64_decode
  base64_decode-Defined text array fits = elim (Option-cases (decode text)) [
    | inl e ↦ rw (Defined, e) tt
    | inr (bytes, e) ↦
        let le = within text bytes e in
        rw (Defined, e, lt→ltb (length bytes) (length array) (omega arith))
          (length-overwrite (bytes ++ (0 ∷ [])) array)
  ]

  base64_decode_zeros :
      (text : Bytes) (n : ℕ)
      → 3 * (length text / 4) < n
      → Defined (λ key. length key ≡ n) (base64_decode decode text (replicate n 0))
  base64_decode_zeros text n fits =
      let same : length (replicate {A = ℕ} n 0) ≡ n = length-replicate n 0 in
      rw same at (base64_decode-Defined text (replicate n 0) (omega (arith, same)))

  -- If OpenSSL gives at most three bytes for each four of a text, then the decoding of any text is
  -- defined: the bytes and the zero byte behind them are written within the array of a key, whose
  -- length stays that of a key.
  pub decode_key-Defined :
      (text : Bytes) → Defined (λ key. length key ≡ max_ssh_key_length) (decode_key decode text)
  unfolding decode_key
  decode_key-Defined text = elim (Bool-cases (ltb max_ssh_key_length (length text * 3 / 4 + 1))) [
    | inl e ↦ rw e tt
    | inr e ↦ rw e (base64_decode_zeros text max_ssh_key_length (ground arith))
  ]
