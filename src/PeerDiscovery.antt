-- ===== src/PeerDiscovery.antt =====
-- src/peer_discovery.c: the list of peers that the bootstrap server sends.
pub mod RoundTrip
pub mod Bounds
pub mod Compare
pub mod Registered
pub mod Smooth
pub mod Exchange
pub mod Sweep
pub mod Server
pub mod Client
pub mod Programs
pub mod Threads
use theblockchainkiller.Base.{ℕ, zero, suc, Bool, List, [], ◌∷◌, ◌++◌, length}
use theblockchainkiller.Runtime.{Outcome}
use theblockchainkiller.Endian.{Host, Bytes, store}
use theblockchainkiller.Memory.{memcmp_differs}
use theblockchainkiller.Buffer.{
  Cursor, Run, pure, ◌>>=◌, ◌>>◌, malloc, allocate, be64, net, read_u64, read_net, read_array,
}
use theblockchainkiller.Networking.Register.{in6_addr_size}

-- `struct sockaddr_in6`
pub record SockAddr : Type 0 where
  pub sin6_family : ℕ
  pub sin6_port : ℕ
  pub sin6_flowinfo : ℕ
  pub sin6_addr : Bytes
  pub sin6_scope_id : ℕ

pub record PeerInfo : Type 0 where
  pub listen_addr : SockAddr
  pub last_connected : ℕ

-- `sizeof(struct sockaddr_in6)`
abbrev sockaddr_size : ℕ
sockaddr_size = 28

module _ (h : Host) where
  -- The object representation of an address; the struct has no padding.
  unfoldable pub sockaddr_bytes : SockAddr → Bytes
  sockaddr_bytes a =
      store h 2 a.sin6_family
      ++ (store h 2 a.sin6_port
          ++ (store h 4 a.sin6_flowinfo ++ (a.sin6_addr ++ store h 4 a.sin6_scope_id)))

  -- Whether `compare_peer_info_t` returns a number other than 0.
  unfoldable pub compare_peer_info_differs : PeerInfo → PeerInfo → Outcome Bool
  compare_peer_info_differs p q =
      memcmp_differs (sockaddr_bytes p.listen_addr) (sockaddr_bytes q.listen_addr) sockaddr_size

  -- The bytes that one round of the loop writes behind the buffer.
  unfoldable pub peer_bytes : PeerInfo → Bytes
  peer_bytes p =
      net h 2 p.listen_addr.sin6_family
      ++ (net h 2 p.listen_addr.sin6_port
          ++ (net h 4 p.listen_addr.sin6_flowinfo
              ++ (p.listen_addr.sin6_addr
                  ++ (net h 4 p.listen_addr.sin6_scope_id ++ be64 h p.last_connected))))

  -- Each round reallocates the buffer.
  unfoldable pub serialize_peers : List PeerInfo → Bytes → Run ℕ Bytes
  serialize_peers [] buf = pure buf
  serialize_peers (p ∷ ps) buf = do malloc; serialize_peers ps (buf ++ peer_bytes p)

  unfoldable pub peer_info_list_serialize : List PeerInfo → Run ℕ Bytes
  peer_info_list_serialize ps = do malloc; serialize_peers ps (be64 h (length ps))

  unfoldable pub read_peer : Run Cursor PeerInfo
  read_peer = do
    family ← read_net h 2
    port ← read_net h 2
    flowinfo ← read_net h 4
    addr ← read_array in6_addr_size
    scope ← read_net h 4
    last_connected ← read_u64 h
    allocate
    pure (record {
      listen_addr = record {
        sin6_family = family;
        sin6_port = port;
        sin6_flowinfo = flowinfo;
        sin6_addr = addr;
        sin6_scope_id = scope;
      };
      last_connected = last_connected;
    })

  -- `num_peers` rounds; the allocation behind a peer's own is the list node's.
  unfoldable pub read_peers : ℕ → List PeerInfo → Run Cursor (List PeerInfo)
  read_peers zero ps = pure ps
  read_peers (suc n) ps = do p ← read_peer; allocate; read_peers n (ps ++ (p ∷ []))

  -- The allocation in front of the loop is the list's.
  unfoldable pub peer_info_list_deserialize : Run Cursor (List PeerInfo)
  peer_info_list_deserialize = do num_peers ← read_u64 h; allocate; read_peers num_peers []
