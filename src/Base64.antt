-- ===== src/Base64.antt =====
-- `base64_decode` of src/base64.c. `EVP_DecodeBlock` of OpenSSL is a parameter: it gives the decoded
-- bytes, or `none` where it returns a negative number.
use theblockchainkiller.Base.{
  ◌*◌, ◌/◌, ◌≤◌, ◌≡◌, Option, none, some, [], ◌∷◌, ◌++◌, length, ltb, if◌then◌else◌,
}
use theblockchainkiller.Runtime.{Outcome, ok, err, fault, openssl_function}
use theblockchainkiller.Endian.{Bytes}
use theblockchainkiller.Memory.{overwrite}

abbrev pub DecodeBlock : Type 0
DecodeBlock = Bytes → Option Bytes

-- It gives three bytes for each four that it reads, or fewer.
abbrev pub IsDecodeBlock : DecodeBlock → Type 0
IsDecodeBlock decode =
    (encoded bytes : Bytes) → decode encoded ≡ some bytes → length bytes ≤ 3 * (length encoded / 4)

-- The decoded bytes and a zero byte behind them, written to the array `decoded`.
unfoldable pub base64_decode : DecodeBlock → (encoded decoded : Bytes) → Outcome Bytes
base64_decode decode encoded decoded = elim (decode encoded) as (λ _. Outcome Bytes) [
  | none ↦ err openssl_function
  | some bytes ↦
      if ltb (length bytes) (length decoded)
      then ok (overwrite (bytes ++ (0 ∷ [])) decoded)
      else fault
]
