-- ===== src/Networking/Payload.antt =====
-- `command_send_peer_list_serialize`, `command_send_blockchain_serialize` and their counterparts
-- of src/networking.c: the two pairs differ in the command's number alone.
pub mod RoundTrip
use theblockchainkiller.Base.{ℕ, ◌+◌, ◌%◌, ◌^◌, none, some, ◌++◌, ◌==◌, leb, length}
use theblockchainkiller.Runtime.{fault, invalid_command, buffer_too_small}
use theblockchainkiller.Endian.{Host, Bytes}
use theblockchainkiller.Buffer.{
  Cursor, Run, pure, ◌>>=◌, ◌>>◌, guard, malloc, allocate_bytes, split, take_bytes, be64, read_u64,
}
use theblockchainkiller.Networking.{
  CommandHeader, CommandPayload, command_send_peer_list, command_send_blockchain, header_size,
}
use theblockchainkiller.Networking.Header.{command_header_serialize, command_header_deserialize}

-- `memcpy` of `n` bytes out of an array.
unfoldable pub copy_out : ℕ → Bytes → Run ℕ Bytes
copy_out n bytes s = elim (split n bytes) [ none ↦ fault | some (front, _) ↦ pure front s ]

-- `total_read_size += data_len`, in 64 bits, behind the header and the length, against
-- `buffer_size`.
unfoldable pub require_payload : ℕ → Run Cursor (Unit {0})
require_payload n c =
    let read = header_size + 8 in
    guard (leb ((read + n) % 2 ^ 64) (read + length c.unread)) buffer_too_small c

module _ (h : Host) where
  unfoldable pub payload_serialize : ℕ → CommandPayload → Run ℕ (CommandPayload × Bytes)
  payload_serialize number c = do
    guard (c.header.command == number) invalid_command
    malloc
    let header : CommandHeader = record (c.header) { command_len = (8 + c.data_len) % 2 ^ 64 }
    header_buffer ← command_header_serialize h header
    malloc
    bytes ← copy_out c.data_len c.payload
    pure (record c { header = header }, header_buffer ++ (be64 h c.data_len ++ bytes))

  unfoldable pub payload_deserialize : ℕ → Run Cursor CommandPayload
  payload_deserialize number = do
    header ← command_header_deserialize h
    guard (header.command == number) invalid_command
    len ← read_u64 h
    require_payload len
    allocate_bytes len
    bytes ← take_bytes len
    pure (record { header = header; data_len = len; payload = bytes })

  abbrev pub command_send_peer_list_serialize : CommandPayload → Run ℕ (CommandPayload × Bytes)
  command_send_peer_list_serialize = payload_serialize command_send_peer_list

  abbrev pub command_send_peer_list_deserialize : Run Cursor CommandPayload
  command_send_peer_list_deserialize = payload_deserialize command_send_peer_list

  abbrev pub command_send_blockchain_serialize : CommandPayload → Run ℕ (CommandPayload × Bytes)
  command_send_blockchain_serialize = payload_serialize command_send_blockchain

  abbrev pub command_send_blockchain_deserialize : Run Cursor CommandPayload
  command_send_blockchain_deserialize = payload_deserialize command_send_blockchain
