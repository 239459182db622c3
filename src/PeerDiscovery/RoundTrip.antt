-- ===== src/PeerDiscovery/RoundTrip.antt =====
-- The list of peers that a peer deserializes is the one that the bootstrap server serialized.
use theblockchainkiller.Base.{
  ℕ, suc, ◌+◌, ◌*◌, ◌^◌, ◌<◌, ◌≡◌, List, [], ◌∷◌, ◌++◌, append_assoc, append-nil, arith, length,
  All,
}
use theblockchainkiller.Runtime.{ok}
use theblockchainkiller.Endian.{Host, Bytes}
use theblockchainkiller.Buffer.{cursor, malloc, allocate, be64}
use theblockchainkiller.Buffer.Laws.{read_u64-be64, read_net-net, read_array-append}
use theblockchainkiller.Networking.Register.{in6_addr_size}
use theblockchainkiller.PeerDiscovery.{
  SockAddr, PeerInfo, peer_bytes, serialize_peers, peer_info_list_serialize, read_peer, read_peers,
  peer_info_list_deserialize,
}

-- An address and a peer that the C types can hold.
pub record IsSockAddr (a : SockAddr) : Type 0 where
  pub family_fits : a.sin6_family < 2 ^ 16
  pub port_fits : a.sin6_port < 2 ^ 16
  pub flowinfo_fits : a.sin6_flowinfo < 2 ^ 32
  pub addr_fits : length a.sin6_addr ≡ in6_addr_size
  pub scope_fits : a.sin6_scope_id < 2 ^ 32

pub record IsPeer (p : PeerInfo) : Type 0 where
  pub addr : IsSockAddr p.listen_addr
  pub time_fits : p.last_connected < 2 ^ 64

unfoldable pub peers_bytes : Host → List PeerInfo → Bytes
peers_bytes h [] = []
peers_bytes h (p ∷ ps) = peer_bytes h p ++ peers_bytes h ps

abbrev pub list_bytes : Host → List PeerInfo → Bytes
list_bytes h ps = be64 h (length ps) ++ peers_bytes h ps

serialize_peers-bytes :
    (h : Host) (ps : List PeerInfo) (buf : Bytes) (n : ℕ)
    → serialize_peers h ps buf (length ps + n) ≡ ok (buf ++ peers_bytes h ps, n)
unfolding serialize_peers peers_bytes malloc
serialize_peers-bytes h [] buf n = let e : 0 + n ≡ n = omega arith in rw (e, append-nil)
serialize_peers-bytes h (p ∷ ps) buf n =
    let e : suc (length ps) + n ≡ suc (length ps + n) = omega arith in
    rw (
      e,
      serialize_peers-bytes h ps (buf ++ peer_bytes h p) n,
      append_assoc buf (peer_bytes h p) (peers_bytes h ps),
    )

module _ (h from : Host) where
  read_peer-bytes :
      (p : PeerInfo) (a : ℕ) (rest : Bytes)
      → IsPeer p
      → read_peer h (cursor (suc a) (peer_bytes from p ++ rest)) ≡ ok (p, cursor a rest)
  unfolding read_peer peer_bytes allocate malloc
  read_peer-bytes p a rest w =
      let addr = p.listen_addr in
      simp append_assoc (
        rw (
          read_net-net h from 2 addr.sin6_family (suc a) _ w.addr.family_fits,
          read_net-net h from 2 addr.sin6_port (suc a) _ w.addr.port_fits,
          read_net-net h from 4 addr.sin6_flowinfo (suc a) _ w.addr.flowinfo_fits,
          read_array-append in6_addr_size addr.sin6_addr _ (suc a) w.addr.addr_fits,
          read_net-net h from 4 addr.sin6_scope_id (suc a) _ w.addr.scope_fits,
          read_u64-be64 h from p.last_connected (suc a) rest w.time_fits,
        ))

  read_peers-bytes :
      (ps acc : List PeerInfo) (a : ℕ) (rest : Bytes)
      → All IsPeer ps
      → read_peers h (length ps) acc (cursor (2 * length ps + a) (peers_bytes from ps ++ rest))
        ≡ ok (acc ++ ps, cursor a rest)
  unfolding read_peers peers_bytes allocate malloc
  read_peers-bytes [] acc a rest w = let e : 0 + a ≡ a = omega arith in rw (e, append-nil)
  read_peers-bytes (p ∷ ps) acc a rest w =
      let e : 2 * suc (length ps) + a ≡ suc (suc (2 * length ps + a)) = omega arith in
      rw (
        e,
        append_assoc (peer_bytes from p) (peers_bytes from ps) rest,
        read_peer-bytes p _ (peers_bytes from ps ++ rest) w.0,
        read_peers-bytes ps (acc ++ (p ∷ [])) a rest w.1,
        append_assoc acc (p ∷ []) ps,
      )

pub peer_info_list_serialize-bytes :
    (h : Host) (ps : List PeerInfo) (n : ℕ)
    → peer_info_list_serialize h ps (suc (length ps + n)) ≡ ok (list_bytes h ps, n)
unfolding peer_info_list_serialize malloc
peer_info_list_serialize-bytes h ps n = serialize_peers-bytes h ps (be64 h (length ps)) n

pub peer_info_list_deserialize-bytes :
    (h from : Host) (ps : List PeerInfo) (a : ℕ)
    → All IsPeer ps
    → length ps < 2 ^ 64
    → peer_info_list_deserialize h (cursor (suc (2 * length ps + a)) (list_bytes from ps))
      ≡ ok (ps, cursor a [])
unfolding peer_info_list_deserialize allocate malloc
peer_info_list_deserialize-bytes h from ps a w fits = rw (
  read_u64-be64 h from (length ps) (suc (2 * length ps + a)) (peers_bytes from ps) fits,
  ← append-nil (peers_bytes from ps),
  read_peers-bytes h from ps [] a [] w,
)

-- Given an allocation for the buffer and one for each peer, a list of peers that the C types can
-- hold is serialized, and any host with an allocation for the list and two for each peer reads back
-- the same list, in the same order, and nothing stays unread.
pub peer_list-round_trip :
    (from to : Host) (ps : List PeerInfo) (n a : ℕ)
    → All IsPeer ps
    → length ps < 2 ^ 64
    → (bytes : Bytes) × (peer_info_list_serialize from ps (suc (length ps + n)) ≡ ok (bytes, n))
      × (peer_info_list_deserialize to (cursor (suc (2 * length ps + a)) bytes)
          ≡ ok (ps, cursor a []))
peer_list-round_trip from to ps n a w fits = (
  list_bytes from ps,
  peer_info_list_serialize-bytes from ps n,
  peer_info_list_deserialize-bytes to from ps a w fits,
)
