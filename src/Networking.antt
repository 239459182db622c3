-- ===== src/Networking.antt =====
-- The commands of include/networking.h, as src/networking.c serializes and deserializes them.
pub mod Header
pub mod Register
pub mod Payload
pub mod Bounds
pub mod Socket
pub mod Listener
pub mod Handler
use theblockchainkiller.Base.{ℕ, [], ◌∷◌}
use theblockchainkiller.Endian.{Bytes}

abbrev command_ok : ℕ
command_ok = 0

abbrev command_error : ℕ
command_error = 1

abbrev pub command_register_peer : ℕ
command_register_peer = 2

abbrev pub command_send_peer_list : ℕ
command_send_peer_list = 3

abbrev pub command_send_blockchain : ℕ
command_send_blockchain = 4

-- "LEO\0"
abbrev pub leo_prefix : Bytes
leo_prefix = b'L' ∷ b'E' ∷ b'O' ∷ 0 ∷ []

abbrev pub command_prefix_len : ℕ
command_prefix_len = 4

-- `sizeof(command_header_t)`
abbrev pub header_size : ℕ
header_size = 16

pub record CommandHeader : Type 0 where
  pub command_prefix : Bytes
  pub command : ℕ
  pub command_len : ℕ

-- `COMMAND_HEADER_INITIALIZER` with the command filled in.
abbrev pub header_of : ℕ → CommandHeader
header_of n = record { command_prefix = leo_prefix; command = n; command_len = 0 }

pub record CommandRegisterPeer : Type 0 where
  pub header : CommandHeader
  pub sin6_family : ℕ
  pub sin6_port : ℕ
  pub sin6_flowinfo : ℕ
  pub addr : Bytes
  pub sin6_scope_id : ℕ

-- `command_send_peer_list_t` and `command_send_blockchain_t` have the same layout: a length, and a
-- pointer to that many bytes.
pub record CommandPayload : Type 0 where
  pub header : CommandHeader
  pub data_len : ℕ
  pub payload : Bytes
