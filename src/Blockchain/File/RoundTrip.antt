-- ===== src/Blockchain/File/RoundTrip.antt =====
-- A blockchain that is read from the file it was written to.
use theblockchainkiller.Base.{
  ℕ, suc, zero, ◌+◌, ◌-◌, ◌^◌, ◌≤◌, ◌<◌, ◌≡◌, refl, true, some, [], ◌∷◌, length, take, arith,
  lt→ltb, ==_refl, ◌∙◌,
}
use theblockchainkiller.Runtime.{ok}
use theblockchainkiller.Endian.{Host, Bytes}
use theblockchainkiller.Buffer.{cursor, malloc, allocate, allocate_bytes}
use theblockchainkiller.Blockchain.{Blockchain}
use theblockchainkiller.Blockchain.Serialize.Cost.{blockchain_serialize-spend}
use theblockchainkiller.Blockchain.Deserialize.{blockchain_deserialize}
use theblockchainkiller.Blockchain.Serialize.{blockchain_serialize}
use theblockchainkiller.Blockchain.RoundTrip.{deserialize-serialize}
use theblockchainkiller.Blockchain.Format.{chain_bytes, IsBlockchain, read_cost, write_cost}
use theblockchainkiller.Blockchain.File.{
  File, Writing, Reading, smaller, write_buffer, blockchain_write_to_file, read_opened,
  blockchain_read_from_file,
}

take-all : (n : ℕ) (bytes : Bytes) → length bytes ≤ n → take n bytes ≡ bytes
take-all zero [] le = refl
take-all zero (b ∷ bytes) le = absurd (omega arith)
take-all (suc n) [] le = refl
take-all (suc n) (b ∷ bytes) le = rw (take-all n bytes (omega arith)) refl

pub serialize-ok :
    (h : Host) (c : Blockchain) (n : ℕ)
    → write_cost c ≤ n
    → blockchain_serialize h c n ≡ ok (chain_bytes h c, n - write_cost c)
serialize-ok h c n enough = ground (arith, blockchain_serialize-spend h c n)

smaller-all : (a b : ℕ) → b ≤ a → smaller a b ≡ b
smaller-all a b le = ground arith

module _ (x : Writing) (bytes : Bytes) where
  write_buffer-all :
      (n : ℕ) (file : File)
      → x.opened ≡ true
      → length bytes ≤ x.accepted
      → length bytes ≤ x.kept
      → write_buffer x bytes n file ≡ (ok n, some bytes)
  unfolding write_buffer
  write_buffer-all n file opened accepted kept =
      rw
        (
          opened,
          smaller-all x.accepted (length bytes) accepted,
          ==_refl (length bytes),
          take-all (length bytes) bytes (omega arith),
          take-all x.kept bytes kept,
        )
        refl

module _ (r : Reading) (bytes : Bytes) where
  read_opened-all :
      (h : Host) (a : ℕ)
      → r.told ≡ true
      → length bytes ≤ r.given
      → length bytes < 2 ^ 63
      → read_opened h r bytes (suc a) ≡ blockchain_deserialize h (cursor a bytes)
  unfolding read_opened allocate_bytes allocate malloc
  read_opened-all h a told given small =
      rw
        (
          told,
          lt→ltb (length bytes) (2 ^ 63) small,
          smaller-all r.given (length bytes) given,
          ==_refl (length bytes),
          take-all (length bytes) bytes (omega arith),
        )
        refl

  read_from_file-all :
      (h : Host) (a : ℕ)
      → r.opened ≡ true
      → r.told ≡ true
      → length bytes ≤ r.given
      → length bytes < 2 ^ 63
      → blockchain_read_from_file h r (suc a) (some bytes)
        ≡ blockchain_deserialize h (cursor a bytes)
  unfolding blockchain_read_from_file read_opened
  read_from_file-all h a opened told given small = rw opened (read_opened-all h a told given small)

write_to_file-all :
    (h : Host) (c : Blockchain) (x : Writing) (n : ℕ) (file : File)
    → write_cost c ≤ n
    → x.opened ≡ true
    → length (chain_bytes h c) ≤ x.accepted
    → length (chain_bytes h c) ≤ x.kept
    → blockchain_write_to_file h c x n file ≡ (ok (n - write_cost c), some (chain_bytes h c))
unfolding blockchain_write_to_file
write_to_file-all h c x n file enough opened accepted kept =
    rw (blockchain_write_to_file, serialize-ok h c n enough)
      (write_buffer-all x (chain_bytes h c) (n - write_cost c) file opened accepted kept)

-- If the numbers of a blockchain fit their C types, its keys and hashes fill their arrays, its
-- signatures are no longer than their arrays of 512 bytes, and its wire format has fewer than 2^63
-- bytes; and if
-- `blockchain_write_to_file` can make its allocations and the file takes all bytes and keeps them:
-- then it returns SUCCESS, whatever was in the file; and a host of any byte order that can open the
-- file, learn its size, make the allocations and is given all bytes reads that same blockchain from
-- it.
pub read_from_file-write_to_file :
    (from to : Host) (c : Blockchain) (x : Writing) (r : Reading) (n a : ℕ) (file : File)
    → IsBlockchain c
    → write_cost c ≤ n
    → read_cost c + 1 ≤ a
    → x.opened ≡ true
    → length (chain_bytes from c) ≤ x.accepted
    → length (chain_bytes from c) ≤ x.kept
    → r.opened ≡ true
    → r.told ≡ true
    → length (chain_bytes from c) ≤ r.given
    → length (chain_bytes from c) < 2 ^ 63
    → let (result, written) = blockchain_write_to_file from c x n file in
      (result ≡ ok (n - write_cost c))
      × (blockchain_read_from_file to r a written ≡ ok (c, cursor (a - 1 - read_cost c) []))
read_from_file-write_to_file from to c x r n zero file w enough enough' opened accepted kept
      r_opened told given small =
    absurd (omega arith)
read_from_file-write_to_file from to c x r n (suc a) file w enough enough' opened accepted kept
      r_opened told given small =
    let same : suc a - 1 ≡ a = omega arith in
    let read =
      deserialize-serialize from to c n (n - write_cost c) a (chain_bytes from c) w
        (serialize-ok from c n enough) (omega arith) in
    rw (write_to_file-all from c x n file enough opened accepted kept, same)
      (refl, read_from_file-all r (chain_bytes from c) to a r_opened told given small ∙ read)
