-- ===== src/PeerDiscovery/Client.antt =====
-- `discover_peers_once` of src/peer_discovery_thread.c, but for what it prints.
use theblockchainkiller.Base.{ℕ, ◌+◌, ◌^◌, Bool, List, [], ltb, if◌then◌else◌}
use theblockchainkiller.Runtime.{
  success, could_not_malloc, network_function, pthread_function, Outcome, ok, err, fault,
}
use theblockchainkiller.Endian.{Host, Bytes}
use theblockchainkiller.Buffer.{cursor, malloc}
use theblockchainkiller.Networking.{
  CommandRegisterPeer, header_of, header_size, command_register_peer, command_send_peer_list,
}
use theblockchainkiller.Networking.Register.{command_register_peer_serialize}
use theblockchainkiller.Networking.Payload.{command_send_peer_list_deserialize}
use theblockchainkiller.Networking.Socket.{Call, send_all}
use theblockchainkiller.Networking.Handler.{
  Handled, returned, after, after_transfer, receive_command,
}
use theblockchainkiller.PeerDiscovery.{SockAddr, PeerInfo, peer_info_list_deserialize}

-- What the environment does during one exchange with the bootstrap server: whether `socket` and
-- `wrap_connect`, `pthread_mutex_lock` and `pthread_mutex_unlock` succeed; whether the mutex can be
-- locked and unlocked again for the progress that is printed, which is true without that; and the
-- results of the socket and the allocator.
pub record Discovery : Type 0 where
  pub connected : Bool
  pub locked : Bool
  pub unlocked : Bool
  pub shown : Bool
  pub recv_calls : List Call
  pub send_calls : List Call
  pub stream : Bytes
  pub allocs : ℕ

-- `realloc(recv_buf, sizeof(command_header_t) + command_len)`, whose NULL is tested here; a sum that
-- wraps round is less than the header.
abbrev pub grow_tested : ℕ → ℕ → Outcome ℕ
grow_tested command_len n =
    if ltb (header_size + command_len) (2 ^ 64)
    then (if ltb (header_size + command_len) (2 ^ 63)
        then elim (malloc n) as (λ _. Outcome ℕ) [
          | ok (_, n') ↦ ok n'
          | err c ↦ err c
          | fault ↦ fault
        ]
        else err could_not_malloc)
    else fault

-- The command that registers the peer's own address.
abbrev pub registration_of : SockAddr → CommandRegisterPeer
registration_of a = record {
  header = header_of command_register_peer;
  sin6_family = a.sin6_family;
  sin6_port = a.sin6_port;
  sin6_flowinfo = a.sin6_flowinfo;
  addr = a.sin6_addr;
  sin6_scope_id = a.sin6_scope_id;
}

module _ (h : Host) where
  unfoldable pub discover_peers_once :
      Discovery → SockAddr → List PeerInfo → Handled (List PeerInfo)
  discover_peers_once x peer_addr ps =
      if x.connected
      then after (command_register_peer_serialize h (registration_of peer_addr) x.allocs) ps
          (λ ((_, buf), n). after_transfer (send_all x.send_calls buf) ps λ sent _ _.
            receive_command h grow_tested command_send_peer_list x.recv_calls x.stream n ps
              λ recv_buf n1.
                after (command_send_peer_list_deserialize h (cursor n1 recv_buf)) ps λ (command, c).
                  after (peer_info_list_deserialize h (cursor c.allocs command.payload)) ps
                    λ (new_ps, _).
                      if x.locked
                      then (if x.unlocked
                          then (if x.shown
                              then returned success new_ps sent
                              else returned pthread_function new_ps [])
                          else returned pthread_function new_ps [])
                      else returned pthread_function ps [])
      else returned network_function ps []
