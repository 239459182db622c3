-- ===== src/Tests/Discovery.antt =====
-- A bootstrap server that registers a peer and drops another, and a peer that gets the list.
use theblockchainkiller.Base.{ℕ, ◌≡◌, refl, true, false, none, List, [], ◌∷◌, ◌++◌, replicate}
use theblockchainkiller.Runtime.{success, network_function}
use theblockchainkiller.Endian.{
  little, low_first, store, value, load, shifted_bytes, joined_bytes, htobe64, betoh64, to_network,
  from_network,
}
use theblockchainkiller.Buffer.{
  be64, net, malloc, split, read_u64, read_net, read_array, require, take_bytes, allocate,
  allocate_bytes,
}
use theblockchainkiller.Memory.{memcmp_differs}
use theblockchainkiller.Networking.Header.{
  copy_prefix, command_header_serialize, command_header_deserialize,
}
use theblockchainkiller.Networking.Payload.{
  copy_out, require_payload, payload_serialize, payload_deserialize,
}
use theblockchainkiller.Networking.{header_of, command_register_peer, command_send_peer_list}
use theblockchainkiller.Networking.Register.{
  register_bytes, command_register_peer_serialize, command_register_peer_deserialize,
}
use theblockchainkiller.Networking.Header.Written.{header_bytes}
use theblockchainkiller.Networking.Socket.{moves, move, transfer, recv_all, send_all}
use theblockchainkiller.Networking.Handler.{returned, undefined, receive_command}
use theblockchainkiller.PeerDiscovery.{
  SockAddr, PeerInfo, sockaddr_bytes, compare_peer_info_differs, peer_bytes, serialize_peers,
  peer_info_list_serialize, read_peer, read_peers, peer_info_list_deserialize,
}
use theblockchainkiller.PeerDiscovery.RoundTrip.{list_bytes, peers_bytes}
use theblockchainkiller.PeerDiscovery.Server.{
  intact, dangling, Request, update_found, remove_expired, after_find, answer, new_peer_info,
  handle_one_peer_discovery_request,
}
use theblockchainkiller.PeerDiscovery.Client.{Discovery, registration_of, discover_peers_once}
use theblockchainkiller.Tests.Exchange.{sent_bytes}

abbrev pub address : ℕ → SockAddr
address port = record {
  sin6_family = 10;
  sin6_port = port;
  sin6_flowinfo = 0;
  sin6_addr = replicate 16 3;
  sin6_scope_id = 0;
}

abbrev pub seen : ℕ → ℕ → PeerInfo
seen port time = record { listen_addr = address port; last_connected = time }

abbrev pub request : Request
request = record {
  locked = none;
  unlocked = none;
  recv_calls = moves 16 ∷ moves 32 ∷ [];
  send_calls = moves 200 ∷ [];
  stream =
      header_bytes little (record (header_of command_register_peer) { command_len = 32 })
      ++ register_bytes little (registration_of (address 80));
  allocs = 20;
  connected_time = 1000;
  current_time = 1001;
  named = λ _. true;
}

-- The peer at port 90 was seen 901 seconds ago, and is kept for 600.
abbrev pub known : List PeerInfo
known = seen 90 100 ∷ seen 80 200 ∷ seen 70 900 ∷ []

abbrev kept : List PeerInfo
kept = seen 80 1000 ∷ seen 70 900 ∷ []

server_keeps :
    handle_one_peer_discovery_request little 600_000_000 request (intact known)
    ≡ returned success
        (intact kept)
        (sent_bytes (handle_one_peer_discovery_request little 600_000_000 request (intact known)))
unfolding receive_command recv_all send_all transfer move malloc be64 net store low_first value load
    shifted_bytes joined_bytes htobe64 betoh64 to_network from_network split read_u64 read_net
    read_array require take_bytes allocate allocate_bytes command_header_deserialize
    command_header_serialize copy_prefix copy_out require_payload payload_serialize
    payload_deserialize memcmp_differs sent_bytes register_bytes command_register_peer_deserialize
    sockaddr_bytes compare_peer_info_differs peer_bytes serialize_peers peer_info_list_serialize
    update_found remove_expired after_find answer new_peer_info handle_one_peer_discovery_request
server_keeps = refl

-- The name of a new peer cannot be found: the list has one that has been freed. The next request
-- that is received is undefined.
abbrev first_request : Request
first_request = record request { named = λ _. false }

server_frees :
    handle_one_peer_discovery_request little 600_000_000 first_request (intact [])
    ≡ returned network_function (dangling []) []
unfolding server_keeps
server_frees = refl

server_reads_freed :
    handle_one_peer_discovery_request little 600_000_000 request (dangling []) ≡ undefined
unfolding server_keeps
server_reads_freed = refl

abbrev pub discovery : Discovery
discovery = record {
  connected = true;
  locked = true;
  unlocked = true;
  shown = true;
  recv_calls = moves 16 ∷ moves 200 ∷ [];
  send_calls = moves 200 ∷ [];
  stream =
      header_bytes little (record (header_of command_send_peer_list) { command_len = 88 })
      ++ (be64 little 80 ++ list_bytes little kept);
  allocs = 20;
}

client_replaces :
    discover_peers_once little discovery (address 80) []
    ≡ returned success kept (sent_bytes (discover_peers_once little discovery (address 80) []))
unfolding server_keeps register_bytes command_register_peer_serialize peer_bytes peers_bytes
    read_peer read_peers peer_info_list_deserialize discover_peers_once
client_replaces = refl
