-- ===== src/PeerDiscovery/Exchange.antt =====
-- A peer that registers with the bootstrap server: `discover_peers_once` on one side and
-- `handle_one_peer_discovery_request` on the other.
use theblockchainkiller.Base.{
  ℕ, suc, ◌+◌, ◌*◌, ◌-◌, ◌^◌, ◌≤◌, ◌<◌, ◌≡◌, refl, false, List, [], All, length, arith, append-nil,
}
use theblockchainkiller.Runtime.{success}
use theblockchainkiller.Endian.{Host, Bytes}
use theblockchainkiller.Networking.Register.RoundTrip.{registration_bytes}
use theblockchainkiller.Networking.Payload.RoundTrip.{payload_bytes}
use theblockchainkiller.Networking.Socket.{Call}
use theblockchainkiller.Networking.Socket.Stream.{Progress}
use theblockchainkiller.Networking.Handler.{returned}
use theblockchainkiller.PeerDiscovery.{SockAddr, PeerInfo}
use theblockchainkiller.PeerDiscovery.RoundTrip.{IsSockAddr, IsPeer}
use theblockchainkiller.PeerDiscovery.Server.{
  intact, peer_expired, handle_one_peer_discovery_request,
}
use theblockchainkiller.PeerDiscovery.Server.Keep.{without}
use theblockchainkiller.PeerDiscovery.Client.{registration_of, discover_peers_once}
use theblockchainkiller.PeerDiscovery.Registered.{
  Registered, Lists, Registered-IsPeer, Registered-Lists, All-without, length-without,
  Registered-length,
}
use theblockchainkiller.PeerDiscovery.Smooth.{listed, smooth_request, smooth_discovery}
use theblockchainkiller.PeerDiscovery.Smooth.{length-list_bytes, length-listed}
use theblockchainkiller.PeerDiscovery.Smooth.Server.{handle_one_peer_discovery_request-listed}
use theblockchainkiller.PeerDiscovery.Smooth.Client.{discover_peers_once-listed}

-- The two ends of one exchange, where what each gets is what the other has sent.
pub record Met (h k : Host) (a : SockAddr) (keepalive connected_time current_time : ℕ)
    (ps ps' old : List PeerInfo) (client_recv client_send server_recv server_send : List Call)
    (client_allocs server_allocs : ℕ) : Type 0 where
  pub peers : List PeerInfo
  pub request : Bytes
  pub answer : Bytes
  pub swept : peers ≡ without (peer_expired keepalive current_time) ps'
  pub asked :
      discover_peers_once h (smooth_discovery client_recv client_send answer client_allocs) a old
      ≡ returned success peers request
  pub served :
      handle_one_peer_discovery_request k keepalive
        (smooth_request server_recv server_send request server_allocs connected_time current_time)
        (intact ps)
      ≡ returned success (intact peers) answer
  pub lists : Lists a peers

module _ (h k : Host) (a : SockAddr) (w : IsSockAddr a) (keepalive connected_time current_time : ℕ)
    {ps ps' : List PeerInfo} (time_fits : connected_time < 2 ^ 64) (v : All IsPeer ps)
    (few : length ps < 2 ^ 56)
    (r : Registered (record { listen_addr = a; last_connected = connected_time }) ps ps')
    (fresh : peer_expired keepalive current_time
        (record { listen_addr = a; last_connected = connected_time })
      ≡ false) where
  -- If the peer's address and those in the bootstrap server's list fit the C types, the server's
  -- list is shorter than 2^56, and the time of the registration has not expired at the end of the
  -- request; if no call fails, each recv and send moves a byte at least and there are enough of them,
  -- and the allocations are enough: then `discover_peers_once` and the bootstrap server, where each
  -- gets what the other has sent, both return SUCCESS, for hosts of any byte order. Both then have the
  -- same list, whatever the peer had before: that of the server in which the peer's own address has
  -- been added in front or its time refreshed, without the expired peers; and the peer is in it.
  pub discover_peers_once-Lists :
      (client_recv client_send server_recv server_send : List Call) (old : List PeerInfo)
      (client_allocs server_allocs : ℕ)
      → All Progress client_recv
      → 68 + 36 * length ps ≤ length client_recv
      → All Progress client_send
      → 48 ≤ length client_send
      → All Progress server_recv
      → 48 ≤ length server_recv
      → All Progress server_send
      → 68 + 36 * length ps ≤ length server_send
      → 9 + 2 * length ps ≤ client_allocs
      → 9 + length ps ≤ server_allocs
      → Met h k a keepalive connected_time current_time ps ps' old client_recv client_send
          server_recv server_send client_allocs server_allocs
  discover_peers_once-Lists client_recv client_send server_recv server_send old client_allocs
        server_allocs p1 l1 p2 l2 p3 l3 p4 l4 enough enough' =
      let peer : PeerInfo = record { listen_addr = a; last_connected = connected_time } in
      let qs = without (peer_expired keepalive current_time) ps' in
      let are_peers : All IsPeer qs =
        All-without _ IsPeer ps'
          (Registered-IsPeer peer (record { addr = w; time_fits = time_fits }) v r) in
      let length_qs : length qs ≤ length ps + 1 = omega (
        arith,
        length-without (peer_expired keepalive current_time) ps',
        Registered-length peer r,
      ) in
      let size = length-list_bytes k qs are_peers in
      let sent_size = length-listed k qs are_peers in
      let client_left = client_allocs - (7 + 2 * length qs) in
      let split : client_allocs
          ≡ suc (suc (suc (suc (suc (suc (suc (2 * length qs + client_left))))))) =
        omega arith in
      let split' : server_allocs ≡ suc (suc (suc (suc (server_allocs - 4)))) = omega arith in
      record {
        peers = qs;
        request = registration_bytes h (registration_of a);
        answer = payload_bytes k (listed k qs);
        swept = refl;
        asked =
            rw (append-nil, ← split) at
              (discover_peers_once-listed h k a w client_recv client_send qs old [] client_left
                are_peers p1 (omega arith) p2 l2 (omega arith) (omega arith));
        served =
            rw (append-nil, ← split') at
              (handle_one_peer_discovery_request-listed h k a w keepalive connected_time
                current_time time_fits v r server_recv server_send [] (server_allocs - 4)
                (omega arith) p3 l3 p4 (omega arith) (omega arith));
        lists = Registered-Lists peer keepalive current_time fresh r;
      }
