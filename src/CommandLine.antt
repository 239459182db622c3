-- ===== src/CommandLine.antt =====
-- What the three programs do with their command lines alike: src/miner.c,
-- src/peer_discovery_bootstrap_server.c and src/peer_discovery_client.c.
pub mod Failure
use theblockchainkiller.Base.{ℕ, ◌*◌, ◌^◌, ◌%◌, Option, none, some, ltb, if◌then◌else◌}
use theblockchainkiller.Runtime.{Outcome, ok, err, fault, invalid_command_line_args, invalid_input}
use theblockchainkiller.Endian.{Host, Bytes, to_network}
use theblockchainkiller.Buffer.{malloc}
use theblockchainkiller.PeerDiscovery.{SockAddr}

abbrev pub default_communication_interval_seconds : ℕ
default_communication_interval_seconds = 20

-- `communication_interval_seconds * 1e6`, without the rounding of `double`; the conversion back is
-- undefined where the product is too large.
unfoldable pub microseconds_of : ℕ → Outcome ℕ
microseconds_of seconds = if ltb (seconds * 10 ^ 6) (2 ^ 64) then ok (seconds * 10 ^ 6) else fault

abbrev pub parsed_address : Option Bytes → Outcome Bytes
parsed_address (some addr) = ok addr
parsed_address none = err invalid_command_line_args

-- `malloc` whose NULL goes to a call that is undefined for it, or to one that refuses it.
abbrev pub untested_malloc : ℕ → Outcome ℕ
untested_malloc n = elim (malloc n) as (λ _. Outcome ℕ) [ ok (_, n') ↦ ok n' | _ ↦ fault ]

abbrev pub refused_malloc : ℕ → Outcome ℕ
refused_malloc n = elim (malloc n) as (λ _. Outcome ℕ) [
  | ok (_, n') ↦ ok n'
  | _ ↦ err invalid_input
]

abbrev af_inet6 : ℕ
af_inet6 = 10

-- The address that stands in `struct sockaddr_in6` for a parsed one and a port.
abbrev pub sockaddr_of : Host → (strtol : Bytes → ℕ) → (addr port : Bytes) → SockAddr
sockaddr_of h strtol addr port = record {
  sin6_family = af_inet6;
  sin6_port = to_network h 2 (strtol port % 2 ^ 16);
  sin6_flowinfo = 0;
  sin6_addr = addr;
  sin6_scope_id = 0;
}
