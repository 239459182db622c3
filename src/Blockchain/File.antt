-- ===== src/Blockchain/File.antt =====
-- `blockchain_write_to_file` and `blockchain_read_from_file` of src/blockchain.c.
pub mod Leaves
pub mod RoundTrip
use theblockchainkiller.Base.{
  ℕ, ◌-◌, ◌^◌, Bool, true, false, Option, none, some, [], ◌==◌, ltb, length, take, if◌then◌else◌,
}
use theblockchainkiller.Runtime.{Outcome, ok, err, fault, file_io}
use theblockchainkiller.Endian.{Host, Bytes}
use theblockchainkiller.Buffer.{Cursor, cursor, malloc, allocate_bytes, and_then}
use theblockchainkiller.Blockchain.{Blockchain}
use theblockchainkiller.Blockchain.Serialize.{blockchain_serialize}
use theblockchainkiller.Blockchain.Deserialize.{blockchain_deserialize}

-- The file of the given name: its bytes, if there is one.
abbrev pub File : Type 0
File = Option Bytes

-- What happens to a file that is written: whether `fopen` succeeds, how many bytes `fwrite` accepts
-- at most, and how many of them are in the file behind `fclose`, whose result is not looked at.
pub record Writing : Type 0 where
  pub opened : Bool
  pub accepted : ℕ
  pub kept : ℕ

-- The same for one that is read: whether `fopen` and `ftell` succeed, and how many bytes `fread`
-- gives at most.
pub record Reading : Type 0 where
  pub opened : Bool
  pub told : Bool
  pub given : ℕ

abbrev pub smaller : ℕ → ℕ → ℕ
smaller a b = if ltb a b then a else b

-- From `fopen` to the end. Mode "wb" leaves nothing of what was in the file.
pub write_buffer : Writing → Bytes → ℕ → File → Outcome ℕ × File
write_buffer x buffer n file =
    let bytes_written = smaller x.accepted (length buffer) in
    if x.opened
    then (
      if bytes_written == length buffer then ok n else err file_io,
      some (take x.kept (take bytes_written buffer)),
    )
    else (err file_io, file)

-- `ftell` gives -1 where it fails.
abbrev buffer_size_of : Bool → Bytes → ℕ
buffer_size_of true bytes = length bytes
buffer_size_of false bytes = 2 ^ 64 - 1

module _ (h : Host) where
  pub blockchain_write_to_file : Blockchain → Writing → ℕ → File → Outcome ℕ × File
  blockchain_write_to_file c x n file =
      elim (blockchain_serialize h c n) as (λ _. Outcome ℕ × File) [
        | ok (buffer, n') ↦ write_buffer x buffer n' file
        | err code ↦ (err code, file)
        | fault ↦ (fault, file)
      ]

  -- From `ftell` to the end.
  pub read_opened : Reading → Bytes → ℕ → Outcome (Blockchain × Cursor)
  read_opened x bytes n =
      let buffer_size = buffer_size_of x.told bytes in
      let read_size = smaller x.given (length bytes) in
      and_then (allocate_bytes buffer_size (cursor n [])) λ _ c.
        if read_size == buffer_size
        then blockchain_deserialize h (cursor c.allocs (take read_size bytes))
        else err file_io

  pub blockchain_read_from_file : Reading → ℕ → File → Outcome (Blockchain × Cursor)
  blockchain_read_from_file x n none = err file_io
  blockchain_read_from_file x n (some bytes) =
      if x.opened then read_opened x bytes n else err file_io
