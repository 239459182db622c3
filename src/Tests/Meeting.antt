-- ===== src/Tests/Meeting.antt =====
-- A peer that registers with a bootstrap server whose host has the other byte order.
use theblockchainkiller.Base.{ℕ, ◌<◌, ◌^◌, ◌≡◌, ◌≢◌, refl, List, [], ◌∷◌, replicate, ap, arith}
use theblockchainkiller.Endian.{little, big}
use theblockchainkiller.Networking.Socket.{Call, moves}
use theblockchainkiller.PeerDiscovery.{SockAddr}
use theblockchainkiller.PeerDiscovery.RoundTrip.{IsSockAddr, IsPeer}
use theblockchainkiller.PeerDiscovery.Registered.{known, later, here}
use theblockchainkiller.PeerDiscovery.Exchange.{Met, discover_peers_once-Lists}
use theblockchainkiller.Tests.Discovery
use theblockchainkiller.Tests.Discovery.{address, seen}
use theblockchainkiller.Tests.Honest.{Progress-replicate}

abbrev long_enough : List Call
long_enough = replicate 200 (moves 1)

address-IsSockAddr : (port : ℕ) → port < 2 ^ 16 → IsSockAddr (address port)
address-IsSockAddr port fits = record {
  family_fits = omega arith;
  port_fits = fits;
  flowinfo_fits = omega arith;
  addr_fits = refl;
  scope_fits = omega arith;
}

seen-IsPeer : (port time : ℕ) → port < 2 ^ 16 → time < 2 ^ 64 → IsPeer (seen port time)
seen-IsPeer port time fits time_fits = record {
  addr = address-IsSockAddr port fits;
  time_fits = time_fits;
}

discover_peers_once-Lists_example :
    Met little big
      (address 80)
      600_000_000
      1000
      1001
      Discovery.known
      (seen 90 100 ∷ seen 80 1000 ∷ seen 70 900 ∷ [])
      []
      long_enough
      long_enough
      long_enough
      long_enough
      20
      20
discover_peers_once-Lists_example =
    discover_peers_once-Lists little big (address 80) (address-IsSockAddr 80 (omega arith))
      600_000_000 1000 1001 (omega arith)
      (
        seen-IsPeer 90 100 (omega arith) (omega arith),
        (
          seen-IsPeer 80 200 (omega arith) (omega arith),
          (seen-IsPeer 70 900 (omega arith) (omega arith), tt),
        ),
      )
      (omega arith) (known (later (λ e. absurd (different e)) (here refl))) refl long_enough
      long_enough long_enough long_enough [] 20 20 (Progress-replicate 200) (omega arith)
      (Progress-replicate 200) (omega arith) (Progress-replicate 200) (omega arith)
      (Progress-replicate 200) (omega arith) (omega arith) (omega arith)
  where
    different : address 80 ≢ address 90
    different e =
        let ports : 80 ≡ 90 = ap (λ (s : SockAddr). s.sin6_port) e in absurd (omega (arith, ports))
