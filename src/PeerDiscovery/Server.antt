-- ===== src/PeerDiscovery/Server.antt =====
-- `handle_one_peer_discovery_request` of src/peer_discovery_bootstrap_server_thread.c.
pub mod Keep
use theblockchainkiller.Base.{
  ℕ, ◌-◌, ◌*◌, ◌^◌, Bool, true, false, Option, none, some, List, [], ◌∷◌, ◌++◌, ltb, length,
  if◌then◌else◌,
}
use theblockchainkiller.Runtime.{
  ReturnCode, success, network_function, Outcome, ok, err, fault, ◌>>=◌,
}
use theblockchainkiller.Endian.{Host, Bytes}
use theblockchainkiller.Buffer.{cursor, malloc}
use theblockchainkiller.Networking.{
  CommandRegisterPeer, CommandPayload, header_of, command_register_peer, command_send_peer_list,
}
use theblockchainkiller.Networking.Register.{command_register_peer_deserialize}
use theblockchainkiller.Networking.Payload.{command_send_peer_list_serialize}
use theblockchainkiller.Networking.Socket.{Call, send_all}
use theblockchainkiller.Networking.Handler.{
  Handled, returned, undefined, after, after_mutex, after_transfer, grow, receive_command,
}
use theblockchainkiller.PeerDiscovery.{
  PeerInfo, compare_peer_info_differs, peer_info_list_serialize,
}

-- What the environment does during one request: the results of the mutex, the socket and the
-- allocator; the two results of `time(NULL)`; and whether the calls of `getnameinfo` and `inet_ntop`
-- for a peer succeed. They are made for the progress that is printed, so without it this is true.
pub record Request : Type 0 where
  pub locked : Option ReturnCode
  pub unlocked : Option ReturnCode
  pub recv_calls : List Call
  pub send_calls : List Call
  pub stream : Bytes
  pub allocs : ℕ
  pub connected_time : ℕ
  pub current_time : ℕ
  pub named : PeerInfo → Bool

abbrev pub peer_of : CommandRegisterPeer → ℕ → PeerInfo
peer_of c now = record {
  listen_addr = record {
    sin6_family = c.sin6_family;
    sin6_port = c.sin6_port;
    sin6_flowinfo = c.sin6_flowinfo;
    sin6_addr = c.addr;
    sin6_scope_id = c.sin6_scope_id;
  };
  last_connected = now;
}

-- `current_time - peer->last_connected > args->peer_keepalive_microseconds / 1e6`, without the
-- rounding of the quotient. A negative difference is not greater.
abbrev pub peer_expired : ℕ → ℕ → PeerInfo → Bool
peer_expired keepalive now p = ltb keepalive ((now - p.last_connected) * 10 ^ 6)

abbrev put_in_front : PeerInfo → Outcome (Option (List PeerInfo)) → Outcome (Option (List PeerInfo))
put_in_front q (ok none) = ok none
put_in_front q (ok (some qs)) = ok (some (q ∷ qs))
put_in_front q (err c) = err c
put_in_front q fault = fault

-- `linked_list_find`, and the write to `last_connected` of the peer it finds; `none` if it finds
-- none.
unfoldable pub update_found : Host → PeerInfo → List PeerInfo → Outcome (Option (List PeerInfo))
update_found h p [] = ok none
update_found h p (q ∷ qs) = do
  differs ← compare_peer_info_differs h p q
  let rest = update_found h p qs
  if differs
      then put_in_front q rest
      else ok (some (record q { last_connected = p.last_connected } ∷ qs))

-- The loop over the peers: `kept` are the nodes up to `prev`, and the other list those from `node`
-- on. An expired peer's node is unlinked, and the names of the peer are looked up after that.
unfoldable pub remove_expired :
    (PeerInfo → Bool)
    → (PeerInfo → Bool)
    → List PeerInfo
    → List PeerInfo
    → Option ReturnCode × List PeerInfo
remove_expired expired named kept [] = (none, kept)
remove_expired expired named kept (p ∷ ps) =
    let without = remove_expired expired named kept ps in
    let with_it = remove_expired expired named (kept ++ (p ∷ [])) ps in
    if expired p
    then (if named p then without else (some network_function, kept ++ ps))
    else with_it

-- The list of peers: all its nodes have a peer; or a node in front of these peers has one that has been
-- freed.
pub data PeerList : Type 0 where
  intact dangling : List PeerInfo → PeerList

-- A call that reads all peers from the first on.
abbrev pub reading : PeerList → (List PeerInfo → Handled PeerList) → Handled PeerList
reading (intact ps) next = next ps
reading (dangling ps) next = undefined

module _ (h : Host) (peer_keepalive_microseconds : ℕ) where
  -- From the test of `found_node` to the loop: the new or updated peer, and the list. The new peer is
  -- freed while it is in the list if its name cannot be found.
  unfoldable pub after_find :
      Request
      → PeerInfo
      → List PeerInfo
      → Option (List PeerInfo)
      → ℕ
      → (List PeerInfo → ℕ → Handled PeerList)
      → Handled PeerList
  after_find x p ps none n next =
      after (malloc n) (intact ps) λ (_, n').
        if x.named p then next (p ∷ ps) n' else returned network_function (dangling ps) []
  after_find x p ps (some ps') n next =
      if x.named p then next ps' n else returned network_function (intact ps') []

  -- From the loop that removes peers to the end.
  unfoldable pub answer : Request → Option ReturnCode × List PeerInfo → ℕ → Handled PeerList
  answer x (some c, ps) n = returned c (intact ps) []
  answer x (none, ps) n = after (peer_info_list_serialize h ps n) (intact ps) λ (bytes, n1).
      after_mutex x.unlocked (intact ps) (
        let command : CommandPayload = record {
          header = header_of command_send_peer_list;
          data_len = length bytes;
          payload = bytes;
        } in
        after (command_send_peer_list_serialize h command n1) (intact ps) λ ((_, buf), _).
          after_transfer (send_all x.send_calls buf) (intact ps)
            λ sent _ _. returned success (intact ps) sent)

  -- `malloc(sizeof(peer_info_t))` is used without a test.
  unfoldable pub new_peer_info : ℕ → Outcome ℕ
  new_peer_info n = elim (malloc n) as (λ _. Outcome ℕ) [ ok (_, n') ↦ ok n' | _ ↦ fault ]

  unfoldable pub handle_one_peer_discovery_request : Request → PeerList → Handled PeerList
  handle_one_peer_discovery_request x s =
      receive_command h grow command_register_peer x.recv_calls x.stream x.allocs s λ buf n.
        after (command_register_peer_deserialize h (cursor n buf)) s λ (command, c).
          after (new_peer_info c.allocs) s λ n1.
            let p = peer_of command x.connected_time in
            after_mutex x.locked s (
              reading s λ ps. after (update_found h p ps) (intact ps) λ found.
                after_find x p ps found n1 λ ps' n2.
                  answer x
                    (remove_expired (peer_expired peer_keepalive_microseconds x.current_time)
                      x.named [] ps')
                    n2)
