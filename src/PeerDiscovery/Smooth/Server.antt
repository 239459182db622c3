-- ===== src/PeerDiscovery/Smooth/Server.antt =====
-- The bootstrap server with a peer that sends its registration whole.
use theblockchainkiller.Base.{
  append_assoc, ℕ, suc, ◌+◌, ◌-◌, ◌^◌, ◌≤◌, ◌<◌, ◌≡◌, refl, true, Option, none, some, List, [], ◌∷◌,
  ◌++◌, All, length, arith, append-nil, ◌∙◌,
}
use theblockchainkiller.Runtime.{success, ok}
use theblockchainkiller.Endian.{Host, Bytes}
use theblockchainkiller.Buffer.{cursor, malloc}
use theblockchainkiller.Networking.{command_register_peer, command_send_peer_list}
use theblockchainkiller.Networking.Header.Written.{
  IsHeader, header_bytes, with_len, command_header_deserialize-bytes, length-header_bytes,
}
use theblockchainkiller.Networking.Header.{command_header_deserialize}
use theblockchainkiller.Networking.Register.{register_peer_size, register_bytes}
use theblockchainkiller.Networking.Register.RoundTrip.{
  registration_bytes, register_bytes-read, length-register_bytes,
}
use theblockchainkiller.Networking.Payload.RoundTrip.{payload_bytes, payload_serialize-bytes}
use theblockchainkiller.Networking.Socket.{Call}
use theblockchainkiller.Networking.Socket.Stream.{Progress}
use theblockchainkiller.Networking.Socket.Prefix.{send_all-Prefix}
use theblockchainkiller.Networking.Handler.{Handled, returned, grow, receive_command}
use theblockchainkiller.Networking.Handler.Whole.{grow-Grows, receive_parts}
use theblockchainkiller.PeerDiscovery.{SockAddr, PeerInfo}
use theblockchainkiller.PeerDiscovery.RoundTrip.{
  IsSockAddr, IsPeer, list_bytes, peer_info_list_serialize-bytes,
}
use theblockchainkiller.PeerDiscovery.Server.{
  PeerList, intact, Request, peer_expired, remove_expired, after_find, answer, new_peer_info,
  handle_one_peer_discovery_request,
}
use theblockchainkiller.PeerDiscovery.Server.Keep.{without, remove_expired-without}
use theblockchainkiller.PeerDiscovery.Client.{registration_of}
use theblockchainkiller.PeerDiscovery.Registered.{Registered, chosen, update_found-Registered}
use theblockchainkiller.PeerDiscovery.Smooth.{
  listed, smooth_request, registration_of-IsRegister, listed-IsPayload,
}

module _ (k : Host) (keepalive : ℕ) (x : Request) (ps : List PeerInfo) (n : ℕ) where
  -- The new or refreshed peer; where it is new, its node is allocated.
  after_find-chosen :
      (p : PeerInfo) (found : Option (List PeerInfo)) (next : List PeerInfo → ℕ → Handled PeerList)
      → x.named p ≡ true
      → (n' : ℕ) × (n ≤ n')
        × (after_find k keepalive x p ps found (suc n) next ≡ next (chosen p ps found) n')
  unfolding after_find malloc
  after_find-chosen p none next named = (n, omega arith, rw named refl)
  after_find-chosen p (some ps') next named = (suc n, omega arith, rw named refl)

answer-listed :
    (k : Host) (keepalive : ℕ) (x : Request) (ps : List PeerInfo) (n : ℕ)
    → x.unlocked ≡ none
    → length ps + 4 ≤ n
    → All Progress x.send_calls
    → length (payload_bytes k (listed k ps)) ≤ length x.send_calls
    → length (list_bytes k ps) < 2 ^ 63
    → answer k keepalive x (none, ps) n
      ≡ returned success (intact ps) (payload_bytes k (listed k ps))
unfolding answer
answer-listed k keepalive x ps n unlocked enough p many fits =
    let left = n - (length ps + 4) in
    let split : n ≡ suc (length ps + suc (suc (suc left))) = omega arith in
    let (unsent, sent) = send_all-Prefix x.send_calls (payload_bytes k (listed k ps)) p many in
    rw
      (
        split,
        peer_info_list_serialize-bytes k ps (suc (suc (suc left))),
        unlocked,
        payload_serialize-bytes k command_send_peer_list (listed k ps) left
            (listed-IsPayload k ps fits),
        sent,
      )
      refl

All-named : (ps : List PeerInfo) → All (λ _. true ≡ true) ps
All-named [] = tt
All-named (p ∷ ps) = (refl, All-named ps)

module _ (h k : Host) (a : SockAddr) (w : IsSockAddr a) where
  receive_registration :
      {S : Type 0} (calls : List Call) (rest : Bytes) (n : ℕ) (s : S) (next : Bytes → ℕ → Handled S)
      → All Progress calls
      → 48 ≤ length calls
      → receive_command k grow command_register_peer calls
          (registration_bytes h (registration_of a) ++ rest)
          (suc (suc n))
          s
          next
        ≡ next (registration_bytes h (registration_of a)) n
  receive_registration calls rest n s next p many =
      let c = registration_of a in
      let sent = with_len c.header register_peer_size in
      let fits : IsHeader sent = record {
        has_prefix = refl;
        command_fits = omega arith;
        len_fits = omega arith;
      } in
      let size = length-header_bytes h sent in
      let len = length-register_bytes h c (registration_of-IsRegister a w) in
      let read : command_header_deserialize k (cursor (suc n) (header_bytes h sent))
          ≡ ok (sent, cursor (suc n) []) =
        rw append-nil at (command_header_deserialize-bytes k h sent (suc n) [] fits) in
      rw (append_assoc (header_bytes h sent) (register_bytes h c) rest) (
        receive_parts grow grow-Grows k command_register_peer calls rest n s next p
          (header_bytes h sent) (register_bytes h c) sent size read refl len (omega arith)
          (omega arith))

  module _ (keepalive connected_time current_time : ℕ) {ps ps' : List PeerInfo}
      (time_fits : connected_time < 2 ^ 64) (v : All IsPeer ps)
      (r : Registered (record { listen_addr = a; last_connected = connected_time }) ps ps') where
    -- The list that the server keeps and sends.
    abbrev pub kept : List PeerInfo
    kept = without (peer_expired keepalive current_time) ps'

    pub handle_one_peer_discovery_request-listed :
        (recv_calls send_calls : List Call) (rest : Bytes) (n : ℕ)
        → length kept + 4 ≤ n
        → All Progress recv_calls
        → 48 ≤ length recv_calls
        → All Progress send_calls
        → length (payload_bytes k (listed k kept)) ≤ length send_calls
        → length (list_bytes k kept) < 2 ^ 63
        → handle_one_peer_discovery_request k keepalive
            (smooth_request recv_calls send_calls
              (registration_bytes h (registration_of a) ++ rest)
              (suc (suc (suc (suc n))))
              connected_time
              current_time)
            (intact ps)
          ≡ returned success (intact kept) (payload_bytes k (listed k kept))
    unfolding handle_one_peer_discovery_request new_peer_info malloc
    handle_one_peer_discovery_request-listed recv_calls send_calls rest n enough p many p' many'
          fits =
        let x =
          smooth_request recv_calls send_calls (registration_bytes h (registration_of a) ++ rest)
            (suc (suc (suc (suc n)))) connected_time current_time in
        let peer : PeerInfo = record { listen_addr = a; last_connected = connected_time } in
        let (found, searched, is_chosen) = update_found-Registered k peer w v r in
        let next = λ (qs : List PeerInfo) (m : ℕ).
          answer k keepalive x (remove_expired (peer_expired keepalive current_time) x.named [] qs)
            m in
        let (m, more, went_on) = after_find-chosen k keepalive x ps n peer found next refl in
        let swept =
          remove_expired-without (peer_expired keepalive current_time) x.named ps'
            (All-named ps') in
        receive_registration recv_calls rest (suc (suc n)) (intact ps) _ p many
        ∙ rw
            (
              register_bytes-read k h (registration_of a) (suc (suc n))
                  (registration_of-IsRegister a w),
              searched,
              went_on,
              is_chosen,
              swept,
            )
            (answer-listed k keepalive x kept m refl (omega arith) p' many' fits)
