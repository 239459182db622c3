-- ===== src/Transaction.antt =====
-- src/transaction.c.
pub mod Signing
use theblockchainkiller.Base.{
  ℕ, Bool, true, false, Option, none, some, ◌++◌, leb, length, replicate, if◌then◌else◌,
}
use theblockchainkiller.Runtime.{Outcome, ok, err, fault, openssl_function, could_not_malloc}
use theblockchainkiller.Endian.{Host, Bytes, store}
use theblockchainkiller.Crypto.{OpenSsl, Signature, max_ssh_signature_length}
use theblockchainkiller.Memory.{overwrite}
use theblockchainkiller.Buffer.{Run, and_then, malloc}
use theblockchainkiller.Blockchain.{Transaction}

abbrev pub amount_generated_during_minting : ℕ
amount_generated_during_minting = 1

module _ (h : Host) where
  -- The object representation of a transaction up to `offsetof(transaction_t, sender_signature)`.
  unfoldable pub signed_bytes : Transaction → Bytes
  signed_bytes t =
      store h 8 t.created_at
      ++ (t.sender_public_key ++ (t.recipient_public_key ++ store h 8 t.amount))

  -- The whole object representation: the struct has no padding.
  unfoldable pub struct_bytes : Transaction → Bytes
  struct_bytes t = signed_bytes t ++ (store h 8 t.sender_signature.size ++ t.sender_signature.bytes)

module _ (h : Host) (ssl : OpenSsl) where
  open ssl use {
    Key, Context, read_private_key, is_rsa, digest_sign, read_public_key, verify_update,
    verify_final,
  }

  -- `EVP_DigestSignFinal` writes the signature over the array `signature->bytes`, past its end if
  -- the signature is longer.
  unfoldable pub sign_with : Signature → Bytes → Key → Outcome Signature
  sign_with old message key = elim (digest_sign key message) [
    | none ↦ err openssl_function
    | some s ↦
        if leb (length s) max_ssh_signature_length
        then ok (record { size = length s; bytes = overwrite s old.bytes })
        else fault
  ]

  unfoldable pub transaction_generate_signature :
      Signature → Transaction → Bytes → Outcome Signature
  transaction_generate_signature old t sender_private_key =
      elim (read_private_key sender_private_key) [
        | none ↦ err openssl_function
        | some key ↦
            if is_rsa key then sign_with old (signed_bytes h t) key else err openssl_function
      ]

  -- `now` is what `time(NULL)` returns.
  unfoldable pub transaction_create : ℕ → Bytes → Bytes → ℕ → Bytes → Run ℕ Transaction
  transaction_create now sender recipient amount sender_private_key n =
      let blank : Signature = record { size = 0; bytes = replicate max_ssh_signature_length 0 } in
      let t : Transaction = record {
        created_at = now;
        sender_public_key = sender;
        recipient_public_key = recipient;
        amount = amount;
        sender_signature = blank;
      } in
      and_then (malloc n) (λ _ n'.
        elim (transaction_generate_signature blank t sender_private_key) [
          | ok s ↦ ok (record t { sender_signature = s }, n')
          | err c ↦ err c
          | fault ↦ fault
        ])

  -- `EVP_VerifyFinal` reads `sender_signature.length` bytes of the array.
  unfoldable pub verify_with : Transaction → Key → Outcome Bool
  verify_with t key = elim (verify_update (signed_bytes h t)) [
    | none ↦ err openssl_function
    | some ctx ↦
        if leb t.sender_signature.size max_ssh_signature_length
        then ok (verify_final ctx t.sender_signature.bytes t.sender_signature.size key)
        else fault
  ]

  unfoldable pub transaction_verify_signature : Transaction → Outcome Bool
  transaction_verify_signature t = elim (read_public_key t.sender_public_key) [
    | none ↦ err openssl_function
    | some key ↦ verify_with t key
  ]
