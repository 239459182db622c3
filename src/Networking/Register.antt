-- ===== src/Networking/Register.antt =====
-- `command_register_peer_serialize` and `command_register_peer_deserialize` of src/networking.c.
pub mod RoundTrip
use theblockchainkiller.Base.{ℕ, ◌++◌, ◌==◌, replicate}
use theblockchainkiller.Runtime.{invalid_command}
use theblockchainkiller.Endian.{Host, Bytes}
use theblockchainkiller.Buffer.{
  Cursor, Run, pure, ◌>>=◌, ◌>>◌, guard, malloc, net, read_net, read_array,
}
use theblockchainkiller.Networking.{CommandHeader, CommandRegisterPeer, command_register_peer}
use theblockchainkiller.Networking.Header.{command_header_serialize, command_header_deserialize}

-- `sizeof(IN6_ADDR)`
abbrev pub in6_addr_size : ℕ
in6_addr_size = 16

-- `sizeof(command_register_peer_t) - sizeof(command_header_t)`: the fields take 28 bytes, and the
-- struct is padded to a multiple of eight.
abbrev pub register_peer_size : ℕ
register_peer_size = 32

module _ (h : Host) where
  -- The fields, and the rest of the buffer as `calloc` left it.
  unfoldable pub register_bytes : CommandRegisterPeer → Bytes
  register_bytes c =
      net h 2 c.sin6_family
      ++ (net h 2 c.sin6_port
          ++ (net h 4 c.sin6_flowinfo ++ (c.addr ++ (net h 4 c.sin6_scope_id ++ replicate 4 0))))

  -- The command whose header has got its length, and the buffer.
  unfoldable pub command_register_peer_serialize :
      CommandRegisterPeer → Run ℕ (CommandRegisterPeer × Bytes)
  command_register_peer_serialize c = do
    guard (c.header.command == command_register_peer) invalid_command
    malloc
    let header : CommandHeader = record (c.header) { command_len = register_peer_size }
    header_buffer ← command_header_serialize h header
    malloc
    pure (record c { header = header }, header_buffer ++ register_bytes c)

  unfoldable pub command_register_peer_deserialize : Run Cursor CommandRegisterPeer
  command_register_peer_deserialize = do
    header ← command_header_deserialize h
    guard (header.command == command_register_peer) invalid_command
    family ← read_net h 2
    port ← read_net h 2
    flowinfo ← read_net h 4
    addr ← read_array in6_addr_size
    scope ← read_net h 4
    pure (record {
      header = header;
      sin6_family = family;
      sin6_port = port;
      sin6_flowinfo = flowinfo;
      addr = addr;
      sin6_scope_id = scope;
    })
