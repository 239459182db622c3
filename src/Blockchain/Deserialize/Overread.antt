-- ===== src/Blockchain/Deserialize/Overread.antt =====
-- The loop of `blockchain_deserialize` that copies a signature does not stay in the buffer.
use theblockchainkiller.Base.{
  ℕ, zero, suc, ◌^◌, ◌≤◌, ◌<◌, ◌≡◌, refl, none, [], ◌∷◌, arith, length, le→leb,
}
use theblockchainkiller.Runtime.{fault}
use theblockchainkiller.Endian.{Host, Bytes}
use theblockchainkiller.Crypto.{max_ssh_key_length, max_ssh_signature_length}
use theblockchainkiller.Buffer.{cursor, malloc, allocate, split, take_bytes}
use theblockchainkiller.Buffer.Laws.{read_u64-be64, read_array-append, require_enough}
use theblockchainkiller.Blockchain.{Transaction}
use theblockchainkiller.Blockchain.Serialize.{transaction_bytes}
use theblockchainkiller.Blockchain.Deserialize.{read_transaction}

split_short : (n : ℕ) (bs : Bytes) → length bs < n → split n bs ≡ none
unfolding split
split_short zero bs h = absurd (omega arith)
split_short (suc n) [] h = refl
split_short (suc n) (b ∷ bs) h = rw (split_short n bs (omega arith))

take_bytes_short : (n a : ℕ) (bs : Bytes) → length bs < n → take_bytes n (cursor a bs) ≡ fault
unfolding take_bytes
take_bytes_short n a bs h = rw (take_bytes, split_short n bs h) refl

module _ (h from : Host) where
  -- Given an allocation, a transaction whose keys have their arrays' lengths and whose integers
  -- fit 64 bits is read outside the buffer if it is the last in the buffer and its signature's bytes
  -- there are at least as many as its length says but fewer than the 512 of the array.
  pub read_transaction_overreads :
      (t : Transaction) (a : ℕ)
      → t.created_at < 2 ^ 64
      → length t.sender_public_key ≡ max_ssh_key_length
      → length t.recipient_public_key ≡ max_ssh_key_length
      → t.amount < 2 ^ 64
      → t.sender_signature.size ≤ length t.sender_signature.bytes
      → length t.sender_signature.bytes < max_ssh_signature_length
      → read_transaction h (cursor (suc a) (transaction_bytes from t)) ≡ fault
  unfolding read_transaction transaction_bytes allocate malloc
  read_transaction_overreads t a created sender recipient amount enough short = rw (
    read_u64-be64 h from t.created_at a _ created,
    read_array-append _ t.sender_public_key _ a sender,
    read_array-append _ t.recipient_public_key _ a recipient,
    read_u64-be64 h from t.amount a _ amount,
    read_u64-be64 h from t.sender_signature.size a _ (omega arith),
    le→leb t.sender_signature.size max_ssh_key_length (omega arith),
    require_enough t.sender_signature.size a _ enough,
    take_bytes_short max_ssh_signature_length a t.sender_signature.bytes short,
  )
