-- ===== src/Blockchain/File/Leaves.antt =====
-- A file that is written holds a part from the front of a blockchain in its wire format.
use theblockchainkiller.Base.{
  ℕ, zero, suc, ◌≡◌, refl, ap, length, List, [], ◌∷◌, ◌⊎◌, inl, inr, some, take, leb, Bool-cases,
}
use theblockchainkiller.Endian.{Host}
use theblockchainkiller.Blockchain.{Blockchain}
use theblockchainkiller.Blockchain.Format.{chain_bytes, write_cost}
use theblockchainkiller.Blockchain.Serialize.Cost.{blockchain_serialize-spend}
use theblockchainkiller.Blockchain.File.{
  File, Writing, write_buffer, blockchain_write_to_file, smaller,
}

-- A part of a part from the front is one of the whole.
take_twice : {A : Type 0} (a b : ℕ) (xs : List A) → (k : ℕ) × (take a (take b xs) ≡ take k xs)
take_twice zero b xs = (zero, refl)
take_twice (suc a) zero xs = (zero, refl)
take_twice (suc a) (suc b) [] = (zero, refl)
take_twice (suc a) (suc b) (x ∷ xs) = let (k, same) = take_twice a b xs in (suc k, rw same)

-- What `blockchain_write_to_file` leaves of a file, whatever happens.
pub write_to_file-leaves :
    (h : Host) (c : Blockchain) (x : Writing) (n : ℕ) (file : File)
    → ((blockchain_write_to_file h c x n file).1 ≡ file)
      ⊎ ((k : ℕ) × ((blockchain_write_to_file h c x n file).1 ≡ some (take k (chain_bytes h c))))
unfolding blockchain_write_to_file write_buffer
write_to_file-leaves h c x n file =
    rw (blockchain_write_to_file, blockchain_serialize-spend)
      (elim (Bool-cases (leb (write_cost c) n)) [
        | inl e ↦ rw e (elim (Bool-cases x.opened) [
          | inl o ↦
              let (k, same) =
                take_twice x.kept (smaller x.accepted (length (chain_bytes h c)))
                  (chain_bytes h c) in
              rw o (inr (k, ap some same))
          | inr o ↦ rw o (inl refl)
        ])
        | inr e ↦ rw e (inl refl)
      ])
