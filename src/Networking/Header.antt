-- ===== src/Networking/Header.antt =====
-- `command_header_serialize` and `command_header_deserialize` of src/networking.c.
pub mod Written
use theblockchainkiller.Base.{ℕ, [], ◌∷◌, ◌++◌, ◌==◌}
use theblockchainkiller.Runtime.{fault, invalid_command_prefix}
use theblockchainkiller.Endian.{Host, Bytes}
use theblockchainkiller.Buffer.{
  Cursor, Run, pure, ◌>>=◌, ◌>>◌, guard, malloc, require, take_bytes, be64, net, read_u64, read_net,
}
use theblockchainkiller.Networking.{CommandHeader, leo_prefix, command_prefix_len}

-- The loop that compares each byte with COMMAND_PREFIX and copies it.
unfoldable pub copy_prefix : {S : Type 0} → Bytes → Bytes → Run S Bytes
copy_prefix [] prefix = pure []
copy_prefix (e ∷ expected) [] = λ _. fault
copy_prefix (e ∷ expected) (b ∷ prefix) = do
  guard (b == e) invalid_command_prefix
  rest ← copy_prefix expected prefix
  pure (b ∷ rest)

module _ (h : Host) where
  unfoldable pub command_header_serialize : CommandHeader → Run ℕ Bytes
  command_header_serialize c = do
    malloc
    prefix ← copy_prefix leo_prefix c.command_prefix
    pure (prefix ++ (net h 4 c.command ++ be64 h c.command_len))

  unfoldable pub command_header_deserialize : Run Cursor CommandHeader
  command_header_deserialize = do
    require command_prefix_len
    bytes ← take_bytes command_prefix_len
    prefix ← copy_prefix leo_prefix bytes
    command ← read_net h 4
    len ← read_u64 h
    pure (record { command_prefix = prefix; command = command; command_len = len })
