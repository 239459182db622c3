-- ===== src/Tests/Network.antt =====
-- Commands, lists of peers and transfers over a socket.
use theblockchainkiller.Base.{◌+◌, ◌≡◌, ◌≢◌, refl, List, [], ◌∷◌, ◌++◌, arith, length, replicate}
use theblockchainkiller.Runtime.{ok, fault}
use theblockchainkiller.Endian.{little, big, Bytes}
use theblockchainkiller.Buffer.{cursor}
use theblockchainkiller.Networking.{
  CommandRegisterPeer, CommandPayload, header_of, header_size, command_register_peer,
  command_send_blockchain,
}
use theblockchainkiller.Networking.Header.{command_header_deserialize}
use theblockchainkiller.Networking.Register.{
  command_register_peer_serialize, command_register_peer_deserialize,
}
use theblockchainkiller.Networking.Payload.{
  payload_serialize, payload_deserialize, command_send_peer_list_deserialize,
  command_send_blockchain_deserialize,
}
use theblockchainkiller.Networking.Register.RoundTrip.{sent_register, register-round_trip}
use theblockchainkiller.Networking.Payload.RoundTrip.{sent_payload, payload-round_trip}
use theblockchainkiller.Networking.Bounds.{deserialize-ne-fault}
use theblockchainkiller.Networking.Socket.{Call, moves, waits, move, transfer, recv_all, send_all}
use theblockchainkiller.Networking.Socket.Stream.{recv_all-stream, send_all-whole, recv_all_closed}
use theblockchainkiller.PeerDiscovery.{
  PeerInfo, peer_info_list_serialize, peer_info_list_deserialize,
}
use theblockchainkiller.PeerDiscovery.RoundTrip.{IsPeer, peer_list-round_trip}
use theblockchainkiller.PeerDiscovery.Bounds.{peer_info_list_deserialize-ne-fault}

abbrev registration : CommandRegisterPeer
registration = record {
  header = header_of command_register_peer;
  sin6_family = 10;
  sin6_port = 12345;
  sin6_flowinfo = 0;
  addr = replicate 16 1;
  sin6_scope_id = 7;
}

register-round_trip_example :
    (bytes : Bytes) × (command_register_peer_serialize little registration 3
      ≡ ok ((sent_register registration, bytes), 0))
    × (command_register_peer_deserialize big (cursor 0 bytes)
        ≡ ok (sent_register registration, cursor 0 (replicate 4 0)))
    × (length bytes ≡ header_size + (sent_register registration).header.command_len)
register-round_trip_example = register-round_trip little big registration 0 0 (record {
  has_prefix = refl;
  is_register = refl;
  family_fits = omega arith;
  port_fits = omega arith;
  flowinfo_fits = omega arith;
  addr_fits = refl;
  scope_fits = omega arith;
})

abbrev blockchain_payload : CommandPayload
blockchain_payload = record {
  header = header_of command_send_blockchain;
  data_len = 3;
  payload = 1 ∷ 2 ∷ 3 ∷ [];
}

payload-round_trip_example :
    (bytes : Bytes) × (payload_serialize little command_send_blockchain blockchain_payload 5
      ≡ ok ((sent_payload blockchain_payload, bytes), 2))
    × (payload_deserialize big command_send_blockchain (cursor 1 bytes)
        ≡ ok (sent_payload blockchain_payload, cursor 0 []))
    × (length bytes ≡ header_size + (sent_payload blockchain_payload).header.command_len)
payload-round_trip_example =
    payload-round_trip little big command_send_blockchain blockchain_payload 2 0 (record {
      has_prefix = refl;
      has_number = refl;
      number_fits = omega arith;
      len_is = refl;
      len_fits = omega arith;
    })

abbrev garbage : Bytes
garbage = b'L' ∷ b'E' ∷ 9 ∷ []

deserialize-ne-fault_example :
    (command_header_deserialize little (cursor 2 garbage) ≢ fault)
    × (command_register_peer_deserialize little (cursor 2 garbage) ≢ fault)
    × (command_send_peer_list_deserialize little (cursor 2 garbage) ≢ fault)
    × (command_send_blockchain_deserialize little (cursor 2 garbage) ≢ fault)
deserialize-ne-fault_example = deserialize-ne-fault little (cursor 2 garbage)

abbrev pieces : List Call
pieces = moves 2 ∷ moves 5 ∷ []

abbrev front : Bytes
front = 1 ∷ 2 ∷ 3 ∷ []

abbrev behind : Bytes
behind = 4 ∷ []

recv_all-stream_example : (front ++ behind ≡ front ++ behind) × (length front ≡ 3)
unfolding recv_all transfer move
recv_all-stream_example = recv_all-stream pieces 3 (front ++ behind) front behind [] refl

abbrev nothing : Bytes
nothing = []

send_all-whole_example : (front ≡ front) × (nothing ≡ nothing)
unfolding send_all transfer move
send_all-whole_example = send_all-whole pieces front front nothing [] refl

recv_all_closed_example : recv_all (replicate 100 (moves 0)) 16 [] ≡ waits
recv_all_closed_example = recv_all_closed 100 15 []

abbrev peer : PeerInfo
peer = record {
  listen_addr = record {
    sin6_family = 10;
    sin6_port = 23456;
    sin6_flowinfo = 0;
    sin6_addr = replicate 16 3;
    sin6_scope_id = 0;
  };
  last_connected = 1700000000;
}

peer-IsPeer : IsPeer peer
peer-IsPeer = record {
  addr = record {
    family_fits = omega arith;
    port_fits = omega arith;
    flowinfo_fits = omega arith;
    addr_fits = refl;
    scope_fits = omega arith;
  };
  time_fits = omega arith;
}

peer_list-round_trip_example :
    (bytes : Bytes) × (peer_info_list_serialize little (peer ∷ []) 2 ≡ ok (bytes, 0))
    × (peer_info_list_deserialize big (cursor 3 bytes) ≡ ok (peer ∷ [], cursor 0 []))
peer_list-round_trip_example =
    peer_list-round_trip little big (peer ∷ []) 0 0 (peer-IsPeer, tt) (omega arith)

peer_info_list_deserialize-ne-fault_example :
    peer_info_list_deserialize little (cursor 2 garbage) ≢ fault
peer_info_list_deserialize-ne-fault_example =
    peer_info_list_deserialize-ne-fault little (cursor 2 garbage)
