-- ===== src/MiningThread/Files.antt =====
-- `mine_blocks` keeps the blockchain and its file valid, round after round.
use theblockchainkiller.Base.{
  ◌≤◌, ◌≡◌, refl, sym, ◌∙◌, Bool, true, false, some, List, [], ◌∷◌, inl, inr, length, All, ℕ, take,
  ◌⊎◌, Bool-cases,
}
use theblockchainkiller.Runtime.{ReturnCode, success, Outcome, ok, err, fault}
use theblockchainkiller.Endian.{Host, Bytes}
use theblockchainkiller.Crypto.{OpenSsl, max_ssh_key_length, sha256_digest_length}
use theblockchainkiller.Blockchain.{Blockchain}
use theblockchainkiller.Blockchain.File.{File, Writing, blockchain_write_to_file}
use theblockchainkiller.Blockchain.File.Leaves.{write_to_file-leaves}
use theblockchainkiller.Blockchain.Format.{chain_bytes}
use theblockchainkiller.Transaction.Signing.{KeyPair}
use theblockchainkiller.MiningThread.{
  Mining, Round, continues, mined, ends, went_on, Progress, runs, returns, progress_after,
  with_return_code, written, next_round, take_blockchain, mine_round, mine_rounds, mine_blocks,
  write_outfile,
}
use theblockchainkiller.MiningThread.Valid.{mine_round-Extended}
use theblockchainkiller.MiningThread.Loop.{
  IsMineable, IsFair, take_blockchain-IsMineable, Extended-IsMineable,
}

module _ (h : Host) (ssl : OpenSsl) (zeros : ℕ) (first : File) where
  -- The file that there was, or one with a part from the front of a valid blockchain in its wire
  -- format: all of it, unless the file does not take or keep all bytes.
  pub data Saved : File → Type 0 where
    as_before : Saved first
    saved :
        (c : Blockchain) (n : ℕ)
        → IsMineable h ssl zeros c
        → Saved (some (take n (chain_bytes h c)))

  -- While `mine_blocks` runs, its blockchain is valid, and the file is always as above.
  abbrev pub Kept : Progress → Type 0
  Kept (runs code c file) = IsMineable h ssl zeros c × Saved file
  Kept (returns exit_ready code file) = Saved file
  Kept Progress.undefined = Unit

  written-Kept :
      (c : Blockchain) (r : Outcome ℕ × File) (file : File) (next : File → Progress)
      → IsMineable h ssl zeros c
      → Saved file
      → (r.1 ≡ file) ⊎ ((n : ℕ) × (r.1 ≡ some (take n (chain_bytes h c))))
      → ((file' : File) → Saved file' → Kept (next file'))
      → Kept (written r next)
  written-Kept c (o, file') file next w v leaves k = go o (k file' is_saved)
    where
      is_saved : Saved file'
      is_saved = elim leaves [ inl same ↦ rw same v | inr (n, same) ↦ rw same (saved c n w) ]

      go : (o : Outcome ℕ) → Kept (next file') → Kept (written (o, file') next)
      go (ok n) v' = v'
      go (err code) v' = v'
      go fault v' = tt

  with_return_code-Kept :
      (exit_malloc : Bool) (r : Progress) → Kept r → Kept (with_return_code exit_malloc r)
  with_return_code-Kept true r w = w
  with_return_code-Kept false (runs code c file) w = w
  with_return_code-Kept false (returns exit_ready code file) w = tt
  with_return_code-Kept false Progress.undefined w = tt

module _ (h : Host) (ssl : OpenSsl) (zeros : ℕ) (public_key private_key : Bytes)
    (in_digest : zeros ≤ sha256_digest_length) (pair : KeyPair ssl private_key public_key)
    (key_fits : length public_key ≡ max_ssh_key_length) (first : File) (outfile : Bool) where
  next_round-Kept :
      (x : Writing) (r : Round) (file : File) (next : ReturnCode → Blockchain → File → Progress)
      → ((code : ReturnCode) (c : Blockchain)
          → went_on r ≡ some (code, c)
          → IsMineable h ssl zeros c)
      → Saved h ssl zeros first file
      → ((code : ReturnCode) (c : Blockchain) (file' : File)
          → IsMineable h ssl zeros c
          → Saved h ssl zeros first file'
          → Kept h ssl zeros first (next code c file'))
      → Kept h ssl zeros first (next_round h ssl public_key private_key outfile x r file next)
  unfolding next_round write_outfile
  next_round-Kept x (continues code c) file next w v k = k code c file (w code c refl) v
  next_round-Kept x (mined c n) file next w v k = elim (Bool-cases outfile) [
    | inl e ↦ rw e (
        written-Kept h ssl zeros first c (blockchain_write_to_file h c x n file) file
          (next success c) (w success c refl) v (write_to_file-leaves h c x n file)
          λ file' v'. k success c file' (w success c refl) v')
    | inr e ↦ rw e (k success c file (w success c refl) v)
  ]
  next_round-Kept x (ends code) file next w v k = v
  next_round-Kept x Round.undefined file next w v k = tt

  mine_rounds-Kept :
      (ms : List Mining) (code : ReturnCode) (c : Blockchain) (file : File)
      → All (IsFair h ssl zeros) ms
      → IsMineable h ssl zeros c
      → Saved h ssl zeros first file
      → Kept h ssl zeros first (mine_rounds h ssl public_key private_key outfile ms code c file)
  unfolding mine_rounds
  mine_rounds-Kept [] code c file f w v = (w, v)
  mine_rounds-Kept (m ∷ ms) code c file f w v = elim (Bool-cases m.stop) [
    | inl e ↦ rw e v
    | inr e ↦ rw e (
        taken (take_blockchain m c) _ λ d is_taken.
          let u = take_blockchain-IsMineable h ssl zeros m c d f.0 w is_taken in
          next_round-Kept m.writing (mine_round h ssl public_key private_key m d) file _
            (λ code' c' on.
              Extended-IsMineable h ssl zeros public_key private_key in_digest pair key_fits d c'
                (mine_round-Extended h ssl public_key private_key pair key_fits m d u.is_shaped
                  (f.0.synced_zeros ∙ sym u.same_zeros) code' c' (rw u.same_zeros in_digest) on)
                u)
            v λ code' c' file' w' v'. mine_rounds-Kept ms code' c' file' f.1 w' v')
  ]
    where
      taken :
          (o : Outcome Blockchain) (next : Blockchain → Progress)
          → ((d : Blockchain) → o ≡ ok d → Kept h ssl zeros first (next d))
          → Kept h ssl zeros first (progress_after o file next)
      taken (ok d) next k = k d refl
      taken (err code) next k = v
      taken fault next k = tt

  -- If the key pair is one for OpenSSL, the public key fills its array, the required zero
  -- bytes are within the digest, and the other threads only share valid blockchains of the
  -- same difficulty whose keys and hashes fill their arrays, as the first one is, then after
  -- any number of rounds, whatever fails, so is the blockchain with which `mine_blocks` goes
  -- on; and the file, also where `mine_blocks` has returned, is as it was before or holds
  -- such a blockchain, cut off where bytes were not taken or not kept.
  pub mine_blocks-Kept :
      (locked unlocked exit_malloc : Bool) (ms : List Mining) (c : Blockchain)
      → All (IsFair h ssl zeros) ms
      → IsMineable h ssl zeros c
      → Kept h ssl zeros first
          (mine_blocks h ssl public_key private_key outfile locked unlocked exit_malloc ms c first)
  unfolding mine_blocks
  mine_blocks-Kept true true exit_malloc ms c f w =
      with_return_code-Kept h ssl zeros first exit_malloc _
        (mine_rounds-Kept ms success c first f w as_before)
  mine_blocks-Kept true false exit_malloc ms c f w =
      with_return_code-Kept h ssl zeros first exit_malloc _ as_before
  mine_blocks-Kept false unlocked exit_malloc ms c f w =
      with_return_code-Kept h ssl zeros first exit_malloc _ as_before
