-- ===== src/Tests/Sample.antt =====
-- A stand-in for OpenSSL, and a blockchain of a genesis block and one block behind it.
use theblockchainkiller.Base.{
  ℕ, suc, ◌+◌, ◌%◌, ◌≡◌, refl, ap, Bool, true, false, some, [], ◌∷◌, length, arith, replicate,
  length-replicate, ◌==◌,
}
use theblockchainkiller.Endian.{Bytes}
use theblockchainkiller.Crypto.{OpenSsl}
use theblockchainkiller.Blockchain.{Transaction, Block, Blockchain}
use theblockchainkiller.Blockchain.Format.{IsTransaction, IsBlock, IsBlockchain}

unfoldable pub checksum : Bytes → ℕ
checksum [] = 0
checksum (b ∷ bs) = (b + checksum bs) % 256

-- A digest that begins with two zero bytes and the checksum of the message.
unfoldable pub toy_sha256 : Bytes → Bytes
unfolding checksum
toy_sha256 m = 0 ∷ 0 ∷ checksum m ∷ replicate 29 7

unfoldable pub toy_accepts : Bytes → Bytes → Bool
unfolding checksum
toy_accepts m [] = false
toy_accepts m (b ∷ bs) = b == checksum m

pub length-toy_sha256 : (m : Bytes) → length (toy_sha256 m) ≡ 32
unfolding toy_sha256
length-toy_sha256 m = refl

-- A signature is the checksum of the message.
abbrev pub toy : OpenSsl
toy = record {
  Key = Bytes;
  Context = Bytes;
  sha256 = toy_sha256;
  read_private_key = some;
  is_rsa = λ _. true;
  digest_sign = λ _ m. some (checksum m ∷ []);
  read_public_key = some;
  verify_update = some;
  verify_final = λ m s _ _. toy_accepts m s;
  length-sha256 = length-toy_sha256;
}

abbrev pub key : Bytes
key = replicate 4096 1

abbrev pub minting : ℕ → Transaction
minting first = record {
  created_at = 5;
  sender_public_key = key;
  recipient_public_key = key;
  amount = 1;
  sender_signature = record { size = 1; bytes = first ∷ replicate 511 0 };
}

abbrev pub genesis : Block
genesis = record {
  created_at = 3;
  transaction_list = [];
  proof_of_work = 2017;
  previous_block_hash = replicate 32 0;
}

abbrev pub chain_of : Block → Blockchain
chain_of b = record {
  block_list = genesis ∷ b ∷ [];
  num_leading_zero_bytes_required_in_block_hash = 2;
}

abbrev pub next_block : Transaction → Bytes → Block
next_block t previous = record {
  created_at = 9;
  transaction_list = t ∷ [];
  proof_of_work = 4;
  previous_block_hash = previous;
}

pub minting-IsTransaction : (first : ℕ) → IsTransaction (minting first)
minting-IsTransaction first = record {
  created_at_fits = omega arith;
  sender_fits = length-replicate {A = ℕ} 4096 1;
  recipient_fits = length-replicate {A = ℕ} 4096 1;
  amount_fits = omega arith;
  signature_fits = omega arith;
  signature_array = ap suc (length-replicate {A = ℕ} 511 0);
}

pub next_block-IsBlock :
    (t : Transaction) (previous : Bytes)
    → IsTransaction t
    → length previous ≡ 32
    → IsBlock (next_block t previous)
next_block-IsBlock t previous w e = record {
  created_at_fits = omega arith;
  transactions = (w, tt);
  count_fits = omega arith;
  proof_fits = omega arith;
  hash_fits = e;
}

genesis-IsBlock : IsBlock genesis
genesis-IsBlock = record {
  created_at_fits = omega arith;
  transactions = tt;
  count_fits = omega arith;
  proof_fits = omega arith;
  hash_fits = refl;
}

pub chain_of-IsBlockchain : (b : Block) → IsBlock b → IsBlockchain (chain_of b)
chain_of-IsBlockchain b w = record {
  zeros_fit = omega arith;
  count_fits = omega arith;
  blocks = (genesis-IsBlock, (w, tt));
}
