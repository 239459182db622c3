-- ===== src/PeerDiscovery/Smooth.antt =====
-- Registrations and lists of peers that are sent whole, where no call fails.
pub mod Server
pub mod Client
use theblockchainkiller.Base.{
  append_assoc, ℕ, suc, ◌+◌, ◌*◌, ◌-◌, ◌^◌, ◌≤◌, ◌<◌, ◌≡◌, refl, true, false, Bool, Option, none,
  some, List, [], ◌∷◌, ◌++◌, All, length, length-append, arith, append-nil, lt→ltb, replicate, ◌∙◌,
}
use theblockchainkiller.Runtime.{success, ok}
use theblockchainkiller.Endian.{Host, Bytes}
use theblockchainkiller.Buffer.{cursor, malloc}
use theblockchainkiller.Networking.{
  CommandPayload, header_of, header_size, command_register_peer, command_send_peer_list,
}
use theblockchainkiller.Networking.Header.Written.{
  IsHeader, header_bytes, with_len, command_header_deserialize-bytes, length-header_bytes,
}
use theblockchainkiller.Networking.Header.{command_header_deserialize}
use theblockchainkiller.Networking.Register.{register_peer_size, register_bytes}
use theblockchainkiller.Networking.Register.RoundTrip.{
  IsRegister, sent_register, registration_bytes, register_bytes-read, length-register_bytes,
  length-registration_bytes, command_register_peer_serialize-bytes,
}
use theblockchainkiller.Networking.Payload.RoundTrip.{
  IsPayload, sent_payload, payload_bytes, length-payload_bytes, payload_serialize-bytes,
  payload_deserialize-bytes,
}
use theblockchainkiller.Networking.Socket.{Call}
use theblockchainkiller.Networking.Socket.Stream.{Progress}
use theblockchainkiller.Networking.Socket.Prefix.{send_all-Prefix}
use theblockchainkiller.Networking.Handler.{Handled, returned, grow, receive_command}
use theblockchainkiller.Networking.Handler.Whole.{
  Grows, grow-Grows, receive_parts, receive_command-whole,
}
use theblockchainkiller.PeerDiscovery.{SockAddr, PeerInfo, peer_bytes}
use theblockchainkiller.Buffer.{be64, net}
use theblockchainkiller.Buffer.Laws.{length-be64, length-net}
use theblockchainkiller.PeerDiscovery.RoundTrip.{
  IsSockAddr, IsPeer, peers_bytes, list_bytes, peer_info_list_serialize-bytes,
  peer_info_list_deserialize-bytes,
}
use theblockchainkiller.PeerDiscovery.Server.{
  Request, peer_of, peer_expired, remove_expired, after_find, answer, new_peer_info,
  handle_one_peer_discovery_request,
}
use theblockchainkiller.PeerDiscovery.Server.Keep.{without, remove_expired-without}
use theblockchainkiller.PeerDiscovery.Client.{
  Discovery, grow_tested, registration_of, discover_peers_once,
}
use theblockchainkiller.PeerDiscovery.Registered.{
  Registered, chosen, Lists, update_found-Registered, Registered-IsPeer, Registered-Lists,
  All-without,
}

-- The command in which a host sends a list of peers.
abbrev pub listed : Host → List PeerInfo → CommandPayload
listed h ps = record {
  header = header_of command_send_peer_list;
  data_len = length (list_bytes h ps);
  payload = list_bytes h ps;
}

-- A request and an exchange in which no call fails.
abbrev pub smooth_request :
    (recv_calls send_calls : List Call) (stream : Bytes) (allocs connected_time current_time : ℕ)
    → Request
smooth_request recv_calls send_calls stream allocs connected_time current_time = record {
  locked = none;
  unlocked = none;
  recv_calls = recv_calls;
  send_calls = send_calls;
  stream = stream;
  allocs = allocs;
  connected_time = connected_time;
  current_time = current_time;
  named = λ _. true;
}

abbrev pub smooth_discovery :
    (recv_calls send_calls : List Call) (stream : Bytes) (allocs : ℕ) → Discovery
smooth_discovery recv_calls send_calls stream allocs = record {
  connected = true;
  locked = true;
  unlocked = true;
  shown = true;
  recv_calls = recv_calls;
  send_calls = send_calls;
  stream = stream;
  allocs = allocs;
}

pub registration_of-IsRegister : (a : SockAddr) → IsSockAddr a → IsRegister (registration_of a)
registration_of-IsRegister a w = record {
  has_prefix = refl;
  is_register = refl;
  family_fits = w.family_fits;
  port_fits = w.port_fits;
  flowinfo_fits = w.flowinfo_fits;
  addr_fits = w.addr_fits;
  scope_fits = w.scope_fits;
}

pub listed-IsPayload :
    (h : Host) (ps : List PeerInfo)
    → length (list_bytes h ps) < 2 ^ 63
    → IsPayload command_send_peer_list (listed h ps)
listed-IsPayload h ps fits = record {
  has_prefix = refl;
  has_number = refl;
  number_fits = omega arith;
  len_is = refl;
  len_fits = fits;
}

length-peers_bytes :
    (h : Host) (ps : List PeerInfo) → All IsPeer ps → length (peers_bytes h ps) ≡ 36 * length ps
unfolding peers_bytes peer_bytes
length-peers_bytes h [] w = omega arith
length-peers_bytes h (p ∷ ps) w =
    let a = p.listen_addr in
    rw
      (
        length-append (peer_bytes h p) (peers_bytes h ps),
        length-append (net h 2 a.sin6_family) _,
        length-append (net h 2 a.sin6_port) _,
        length-append (net h 4 a.sin6_flowinfo) _,
        length-append a.sin6_addr _,
        length-append (net h 4 a.sin6_scope_id) _,
      )
      (omega (
        arith,
        length-net h 2 a.sin6_family,
        length-net h 2 a.sin6_port,
        length-net h 4 a.sin6_flowinfo,
        length-net h 4 a.sin6_scope_id,
        length-be64 h p.last_connected,
        w.0.addr.addr_fits,
        length-peers_bytes h ps w.1,
      ))

pub length-list_bytes :
    (h : Host) (ps : List PeerInfo) → All IsPeer ps → length (list_bytes h ps) ≡ 8 + 36 * length ps
length-list_bytes h ps w =
    rw (length-append (be64 h (length ps)) (peers_bytes h ps))
      (omega (arith, length-be64 h (length ps), length-peers_bytes h ps w))

-- A command with a list of peers.
pub length-listed :
    (h : Host) (ps : List PeerInfo)
    → All IsPeer ps
    → length (payload_bytes h (listed h ps)) ≡ header_size + (16 + 36 * length ps)
length-listed h ps w = omega (arith, length-payload_bytes h (listed h ps), length-list_bytes h ps w)
