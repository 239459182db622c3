-- ===== src/Networking/Register/RoundTrip.antt =====
-- The registration that a server deserializes is the one that a peer serialized.
use theblockchainkiller.Base.{
  ℕ, suc, ◌+◌, ◌^◌, ◌<◌, ◌≡◌, ◌++◌, arith, length, length-append, ==_iff, replicate,
}
use theblockchainkiller.Runtime.{ok}
use theblockchainkiller.Endian.{Host, Bytes}
use theblockchainkiller.Buffer.{cursor, malloc, net}
use theblockchainkiller.Buffer.Laws.{read_net-net, read_array-append, length-net}
use theblockchainkiller.Networking.{
  CommandRegisterPeer, leo_prefix, command_register_peer, header_size,
}
use theblockchainkiller.Networking.Register.{
  in6_addr_size, register_peer_size, register_bytes, command_register_peer_serialize,
  command_register_peer_deserialize,
}
use theblockchainkiller.Networking.Header.Written.{
  IsHeader, header_bytes, with_len, command_header_serialize-bytes,
  command_header_deserialize-bytes, length-header_bytes,
}

-- A registration whose fields the C types can hold.
pub record IsRegister (c : CommandRegisterPeer) : Type 0 where
  pub has_prefix : c.header.command_prefix ≡ leo_prefix
  pub is_register : c.header.command ≡ command_register_peer
  pub family_fits : c.sin6_family < 2 ^ 16
  pub port_fits : c.sin6_port < 2 ^ 16
  pub flowinfo_fits : c.sin6_flowinfo < 2 ^ 32
  pub addr_fits : length c.addr ≡ in6_addr_size
  pub scope_fits : c.sin6_scope_id < 2 ^ 32

abbrev pub sent_register : CommandRegisterPeer → CommandRegisterPeer
sent_register c = record c { header = with_len c.header register_peer_size }

pub register_bytes-read :
    (h from : Host) (c : CommandRegisterPeer) (a : ℕ)
    → IsRegister c
    → command_register_peer_deserialize h (
        cursor a
          (header_bytes from (with_len c.header register_peer_size) ++ register_bytes from c))
      ≡ ok (sent_register c, cursor a (replicate 4 0))
unfolding command_register_peer_deserialize register_bytes
register_bytes-read h from c a w = rw (
  command_header_deserialize-bytes h from (with_len c.header register_peer_size) a _
      (record { has_prefix = w.has_prefix; command_fits = omega arith; len_fits = omega arith }),
  w.is_register,
  read_net-net h from 2 c.sin6_family a _ w.family_fits,
  read_net-net h from 2 c.sin6_port a _ w.port_fits,
  read_net-net h from 4 c.sin6_flowinfo a _ w.flowinfo_fits,
  read_array-append in6_addr_size c.addr _ a w.addr_fits,
  read_net-net h from 4 c.sin6_scope_id a _ w.scope_fits,
)

pub length-register_bytes :
    (h : Host) (c : CommandRegisterPeer)
    → IsRegister c
    → length (register_bytes h c) ≡ register_peer_size
unfolding register_bytes
length-register_bytes h c w =
    rw
      (
        length-append (net h 2 c.sin6_family) _,
        length-append (net h 2 c.sin6_port) _,
        length-append (net h 4 c.sin6_flowinfo) _,
        length-append c.addr _,
        length-append (net h 4 c.sin6_scope_id) _,
      )
      (omega (
        arith,
        length-net h 2 c.sin6_family,
        length-net h 2 c.sin6_port,
        length-net h 4 c.sin6_flowinfo,
        length-net h 4 c.sin6_scope_id,
        w.addr_fits,
      ))

-- The registration as it is sent.
abbrev pub registration_bytes : Host → CommandRegisterPeer → Bytes
registration_bytes h c = header_bytes h (with_len c.header register_peer_size) ++ register_bytes h c

pub command_register_peer_serialize-bytes :
    (h : Host) (c : CommandRegisterPeer) (n : ℕ)
    → IsRegister c
    → command_register_peer_serialize h c (suc (suc (suc n)))
      ≡ ok ((sent_register c, registration_bytes h c), n)
unfolding command_register_peer_serialize malloc
command_register_peer_serialize-bytes h c n w =
    let fits : IsHeader (with_len c.header register_peer_size) = record {
      has_prefix = w.has_prefix;
      command_fits = omega arith;
      len_fits = omega arith;
    } in
    rw (
      (==_iff c.header.command command_register_peer).1 w.is_register,
      command_header_serialize-bytes h (with_len c.header register_peer_size) (suc n) fits,
    )

pub length-registration_bytes :
    (h : Host) (c : CommandRegisterPeer)
    → IsRegister c
    → length (registration_bytes h c) ≡ header_size + register_peer_size
length-registration_bytes h c w =
    let sent = with_len c.header register_peer_size in
    rw (length-append (header_bytes h sent) (register_bytes h c), length-header_bytes h sent)
      (omega (arith, length-register_bytes h c w))

-- Given three allocations, a registration that the C types can hold is serialized into as many
-- bytes as a header and the length in the header say, and any host reads from them the same
-- registration with that length filled in. The four bytes of padding stay unread.
pub register-round_trip :
    (from to : Host) (c : CommandRegisterPeer) (n a : ℕ)
    → IsRegister c
    → (bytes : Bytes) × (command_register_peer_serialize from c (suc (suc (suc n)))
        ≡ ok ((sent_register c, bytes), n))
      × (command_register_peer_deserialize to (cursor a bytes)
          ≡ ok (sent_register c, cursor a (replicate 4 0)))
      × (length bytes ≡ header_size + (sent_register c).header.command_len)
register-round_trip from to c n a w = (
  registration_bytes from c,
  command_register_peer_serialize-bytes from c n w,
  register_bytes-read to from c a w,
  length-registration_bytes from c w,
)
