-- ===== src/Crypto.antt =====
-- include/cryptography.h, and what src/transaction.c and src/block.c use of OpenSSL. OpenSSL is
-- not part of the repository: its functions are a parameter of everything that calls them.
use theblockchainkiller.Base.{ℕ, ◌≡◌, Bool, Option, length}
use theblockchainkiller.Endian.{Bytes}

abbrev pub max_ssh_key_length : ℕ
max_ssh_key_length = 4096

abbrev pub max_ssh_signature_length : ℕ
max_ssh_signature_length = 512

abbrev pub sha256_digest_length : ℕ
sha256_digest_length = 32

-- A signature: `bytes` is the whole array, of which the first `size` bytes are meant (`length` in
-- the source).
pub record Signature : Type 0 where
  pub size : ℕ
  pub bytes : Bytes

-- `read_private_key` is `PEM_read_bio_PrivateKey` on a key's bytes, `is_rsa` the test of its base
-- id, and `digest_sign` the calls from `EVP_MD_CTX_new` to `EVP_DigestSignFinal`.
-- `read_public_key` is `PEM_read_bio_PUBKEY`, `verify_update` the calls from `EVP_MD_CTX_new` to
-- `EVP_VerifyUpdate`, and `verify_final` says whether `EVP_VerifyFinal` returns 1 for the first
-- bytes of a signature's array, as many as the number. `none` is a failure of any of the calls.
-- `sha256` is the digest of all bytes passed to `EVP_DigestUpdate`.
pub record OpenSsl : Type 1 where
  pub Key : Type 0
  pub Context : Type 0
  pub sha256 : Bytes → Bytes
  pub read_private_key : Bytes → Option Key
  pub is_rsa : Key → Bool
  pub digest_sign : Key → Bytes → Option Bytes
  pub read_public_key : Bytes → Option Key
  pub verify_update : Bytes → Option Context
  pub verify_final : Context → Bytes → ℕ → Key → Bool
  pub length-sha256 : (m : Bytes) → length (sha256 m) ≡ sha256_digest_length
