-- ===== src/Transaction/Signing.antt =====
-- A transaction that `transaction_create` returns has a signature that `transaction_verify_signature`
-- accepts.
use theblockchainkiller.Base.{
  ℕ, ◌≤◌, ◌≡◌, refl, true, some, [], ◌∷◌, ◌++◌, arith, length, length-replicate, replicate,
}
use theblockchainkiller.Runtime.{ok}
use theblockchainkiller.Endian.{Host, Bytes}
use theblockchainkiller.Crypto.{OpenSsl, Signature, max_ssh_signature_length}
use theblockchainkiller.Memory.{overwrite}
use theblockchainkiller.Buffer.{malloc}
use theblockchainkiller.Blockchain.{Transaction}
use theblockchainkiller.Transaction.{
  signed_bytes, sign_with, transaction_generate_signature, transaction_create, verify_with,
  transaction_verify_signature,
}

-- What the code relies on for a pair of keys: the public key can be read, and for any message a
-- context can be set up in which verification accepts the signature that the private key makes,
-- whatever stands behind it in the array.
pub record KeyPair (ssl : OpenSsl) (private_key public_key : Bytes) : Type 0 where
  pub public : ssl.Key
  pub public_read : ssl.read_public_key public_key ≡ some public
  pub context : Bytes → ssl.Context
  pub context_made : (message : Bytes) → ssl.verify_update message ≡ some (context message)
  pub accepts :
      (key : ssl.Key) (message signature rest : Bytes)
      → ssl.read_private_key private_key ≡ some key
      → ssl.digest_sign key message ≡ some signature
      → ssl.verify_final (context message) (signature ++ rest) (length signature) public ≡ true

overwrite-append :
    (new old : Bytes) → length new ≤ length old → (rest : Bytes) × (overwrite new old ≡ new ++ rest)
unfolding overwrite
overwrite-append [] old h = (old, refl)
overwrite-append (x ∷ new) [] h = absurd (omega arith)
overwrite-append (x ∷ new) (y ∷ old) h =
    let (rest, e) = overwrite-append new old (omega arith) in (rest, rw e)

module _ (h : Host) (ssl : OpenSsl) where
  sign_with-ok :
      (old : Signature) (message : Bytes) (key : ssl.Key) (g : Signature)
      → sign_with h ssl old message key ≡ ok g
      → (s : Bytes) × (ssl.digest_sign key message ≡ some s)
        × (length s ≤ max_ssh_signature_length)
        × (g ≡ record { size = length s; bytes = overwrite s old.bytes })
  unfolding sign_with
  sign_with-ok old message key g e = ground arith

  generate_signature-ok :
      (old : Signature) (t : Transaction) (private_key : Bytes) (g : Signature)
      → transaction_generate_signature h ssl old t private_key ≡ ok g
      → (key : ssl.Key) × (ssl.read_private_key private_key ≡ some key)
        × (sign_with h ssl old (signed_bytes h t) key ≡ ok g)
  unfolding transaction_generate_signature
  generate_signature-ok old t private_key g e = ground arith

  -- A transaction before it is signed.
  abbrev pub unsigned : ℕ → Bytes → Bytes → ℕ → Transaction
  unsigned now sender recipient amount = record {
    created_at = now;
    sender_public_key = sender;
    recipient_public_key = recipient;
    amount = amount;
    sender_signature = record { size = 0; bytes = replicate max_ssh_signature_length 0 };
  }

  create-ok :
      (now : ℕ) (sender recipient : Bytes) (amount : ℕ) (private_key : Bytes) (n n' : ℕ)
      (t : Transaction)
      → transaction_create h ssl now sender recipient amount private_key n ≡ ok (t, n')
      → (g : Signature) × (transaction_generate_signature h ssl
            (unsigned now sender recipient amount).sender_signature
            (unsigned now sender recipient amount)
            private_key
          ≡ ok g)
        × (t ≡ record (unsigned now sender recipient amount) { sender_signature = g })
  unfolding transaction_create malloc
  create-ok now sender recipient amount private_key n n' t e = ground arith

  verify_signature-accepts :
      (t : Transaction) (public : ssl.Key) (context : ssl.Context)
      → ssl.read_public_key t.sender_public_key ≡ some public
      → ssl.verify_update (signed_bytes h t) ≡ some context
      → t.sender_signature.size ≤ max_ssh_signature_length
      → ssl.verify_final context t.sender_signature.bytes t.sender_signature.size public ≡ true
      → transaction_verify_signature h ssl t ≡ ok true
  unfolding transaction_verify_signature verify_with
  verify_signature-accepts t public context read made fits accepted = ground arith

  -- If the key pair is one for OpenSSL, a transaction that `transaction_create` returns has the
  -- fields it was asked for and a signature that `transaction_verify_signature` accepts.
  pub transaction_create-IsSigned :
      (now : ℕ) (sender recipient : Bytes) (amount : ℕ) (private_key : Bytes) (n n' : ℕ)
      (t : Transaction)
      → KeyPair ssl private_key sender
      → transaction_create h ssl now sender recipient amount private_key n ≡ ok (t, n')
      → (transaction_verify_signature h ssl t ≡ ok true)
        × (record t { sender_signature = (unsigned now sender recipient amount).sender_signature }
            ≡ unsigned now sender recipient amount)
  unfolding signed_bytes
  transaction_create-IsSigned now sender recipient amount private_key n n' t pair e =
      let blank = unsigned now sender recipient amount in
      let (g, made, is_t) = create-ok now sender recipient amount private_key n n' t e in
      let (key, read, signed) =
        generate_signature-ok blank.sender_signature blank private_key g made in
      let (s, digest, fits, is_g) =
        sign_with-ok blank.sender_signature (signed_bytes h blank) key g signed in
      let (rest, whole) =
        overwrite-append s blank.sender_signature.bytes
          (omega (arith, length-replicate {A = ℕ} max_ssh_signature_length 0)) in
      (
        rw (is_t, is_g)
            (verify_signature-accepts
              (record blank {
                sender_signature = record {
                  size = length s;
                  bytes = overwrite s blank.sender_signature.bytes;
                };
              })
              pair.public (pair.context (signed_bytes h blank)) pair.public_read
              (pair.context_made (signed_bytes h blank)) fits
              (rw whole (pair.accepts key (signed_bytes h blank) s rest read digest))),
        rw is_t,
      )
