-- ===== src/PeerDiscovery/Smooth/Client.antt =====
-- `discover_peers_once` with a bootstrap server that sends its list whole.
use theblockchainkiller.Base.{
  ℕ, suc, ◌+◌, ◌*◌, ◌^◌, ◌≤◌, ◌<◌, ◌≡◌, refl, List, ◌++◌, All, length, arith, lt→ltb, ◌∙◌,
}
use theblockchainkiller.Runtime.{success}
use theblockchainkiller.Endian.{Host, Bytes}
use theblockchainkiller.Buffer.{malloc}
use theblockchainkiller.Networking.{header_size, command_send_peer_list}
use theblockchainkiller.Networking.Register.RoundTrip.{
  registration_bytes, length-registration_bytes, command_register_peer_serialize-bytes,
}
use theblockchainkiller.Networking.Payload.RoundTrip.{payload_bytes, payload_deserialize-bytes}
use theblockchainkiller.Networking.Socket.{Call}
use theblockchainkiller.Networking.Socket.Stream.{Progress}
use theblockchainkiller.Networking.Socket.Prefix.{send_all-Prefix}
use theblockchainkiller.Networking.Handler.{returned}
use theblockchainkiller.Networking.Handler.Whole.{Grows, receive_command-whole}
use theblockchainkiller.PeerDiscovery.{SockAddr, PeerInfo}
use theblockchainkiller.PeerDiscovery.RoundTrip.{
  IsSockAddr, IsPeer, list_bytes, peer_info_list_deserialize-bytes,
}
use theblockchainkiller.PeerDiscovery.Client.{grow_tested, registration_of, discover_peers_once}
use theblockchainkiller.PeerDiscovery.Smooth.{
  listed, smooth_discovery, registration_of-IsRegister, listed-IsPayload,
}

grow_tested-Grows : Grows grow_tested
unfolding malloc
grow_tested-Grows len n small =
    let below : header_size + len < 2 ^ 64 = omega arith in
    rw (lt→ltb _ _ below, lt→ltb _ _ small) refl

module _ (h k : Host) (a : SockAddr) (w : IsSockAddr a) where
  pub discover_peers_once-listed :
      (recv_calls send_calls : List Call) (qs old : List PeerInfo) (rest : Bytes) (n : ℕ)
      → All IsPeer qs
      → All Progress recv_calls
      → length (payload_bytes k (listed k qs)) ≤ length recv_calls
      → All Progress send_calls
      → 48 ≤ length send_calls
      → length qs < 2 ^ 64
      → header_size + (8 + length (list_bytes k qs)) < 2 ^ 63
      → discover_peers_once h
          (smooth_discovery recv_calls send_calls
            (payload_bytes k (listed k qs) ++ rest)
            (suc (suc (suc (suc (suc (suc (suc (2 * length qs + n)))))))))
          a
          old
        ≡ returned success qs (registration_bytes h (registration_of a))
  unfolding discover_peers_once
  discover_peers_once-listed recv_calls send_calls qs old rest n v p many p' many' few fits =
      let c = registration_of a in
      let is_register = registration_of-IsRegister a w in
      let size = length-registration_bytes h c is_register in
      let (unsent, sent) = send_all-Prefix send_calls (registration_bytes h c) p' (omega arith) in
      let payload = listed-IsPayload k qs (omega arith) in
      rw (command_register_peer_serialize-bytes h c _ is_register, sent)
        (receive_command-whole grow_tested grow_tested-Grows h command_send_peer_list recv_calls
            rest (suc (suc (2 * length qs + n))) old _ p k (listed k qs) payload many fits
          ∙ rw
              (
                payload_deserialize-bytes h k command_send_peer_list (listed k qs)
                    (suc (2 * length qs + n)) payload,
                peer_info_list_deserialize-bytes h k qs n v few,
              )
              refl)
