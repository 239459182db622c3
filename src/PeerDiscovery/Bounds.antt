-- ===== src/PeerDiscovery/Bounds.antt =====
-- `peer_info_list_deserialize` never reads outside the buffer.
use theblockchainkiller.Base.{ℕ, zero, suc, ◌≢◌, List, [], ◌∷◌, ◌++◌}
use theblockchainkiller.Runtime.{fault}
use theblockchainkiller.Endian.{Host}
use theblockchainkiller.Buffer.{Cursor}
use theblockchainkiller.Buffer.Safe
use theblockchainkiller.Buffer.Safe.{
  Safe, never_faults, safe_rules, Safe-pure, Safe-allocate, Safe-read_u64,
}
use theblockchainkiller.PeerDiscovery.{PeerInfo, read_peer, read_peers, peer_info_list_deserialize}

module _ (h : Host) where
  Safe-read_peer : Safe (read_peer h)
  unfolding read_peer
  Safe-read_peer = search safe_rules depth 20

  Safe-read_peers : (n : ℕ) (ps : List PeerInfo) → Safe (read_peers h n ps)
  unfolding read_peers
  Safe-read_peers zero ps = Safe-pure ps
  Safe-read_peers (suc n) ps =
      Safe.bind Safe-read_peer λ p. Safe.bind Safe-allocate λ _. Safe-read_peers n (ps ++ (p ∷ []))

  -- `peer_info_list_deserialize` reads no byte outside the buffer, for any contents of the buffer,
  -- any number of peers that it announces and any number of allocations that succeed.
  pub peer_info_list_deserialize-ne-fault : (c : Cursor) → peer_info_list_deserialize h c ≢ fault
  unfolding peer_info_list_deserialize
  peer_info_list_deserialize-ne-fault =
      never_faults
        (Safe.bind (Safe-read_u64 h) λ n. Safe.bind Safe-allocate λ _. Safe-read_peers n [])
