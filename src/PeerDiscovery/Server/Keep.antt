-- ===== src/PeerDiscovery/Server/Keep.antt =====
-- The bootstrap server keeps at most one entry for each address, and drops the expired ones.
use theblockchainkiller.Base.{
  ℕ, zero, suc, ◌≡◌, ◌≢◌, Bool, true, false, Option, none, some, List, [], ◌∷◌, ◌++◌, append_assoc,
  append-nil, inl, inr, ◌⊎◌, arith, length, Bool-cases, All, if◌then◌else◌, ==_refl,
}
use theblockchainkiller.Runtime.{ReturnCode, ok, success, network_function}
use theblockchainkiller.Endian.{Host, Bytes}
use theblockchainkiller.Buffer.{cursor, malloc}
use theblockchainkiller.Memory.{memcmp_differs}
use theblockchainkiller.Networking.{
  CommandPayload, header_of, command_register_peer, command_send_peer_list,
}
use theblockchainkiller.Networking.Register.{command_register_peer_deserialize}
use theblockchainkiller.Networking.Payload.{command_send_peer_list_serialize}
use theblockchainkiller.Networking.Socket.{send_all}
use theblockchainkiller.Networking.Handler.{Handled, returned, grow}
use theblockchainkiller.Networking.Handler.Leaves.{
  Leaves, Leaves-undefined, Leaves-if, left_by, Leaves-returned, Leaves-after, Leaves-after_mutex,
  Leaves-after_transfer, Leaves-receive_command,
}
use theblockchainkiller.PeerDiscovery.{
  PeerInfo, SockAddr, compare_peer_info_differs, sockaddr_bytes, peer_info_list_serialize,
}
use theblockchainkiller.PeerDiscovery.Server.{
  PeerList, intact, dangling, reading, Request, peer_of, peer_expired, update_found, remove_expired,
  after_find, answer, new_peer_info, handle_one_peer_discovery_request,
}

-- No two peers have the same address.
abbrev pub Different : List PeerInfo → Type 0
Different [] = Unit
Different (p ∷ ps) = All (λ q. p.listen_addr ≢ q.listen_addr) ps × Different ps

memcmp_self-ne : (a : Bytes) (n : ℕ) → memcmp_differs a a n ≢ ok true
unfolding memcmp_differs
memcmp_self-ne a zero = λ e. cc
memcmp_self-ne [] (suc n) = λ e. cc
memcmp_self-ne (x ∷ a) (suc n) = λ e. ground (arith, memcmp_self-ne a n, ==_refl x)

module _ (h : Host) (p : PeerInfo) where
  compare-ne :
      (q : PeerInfo) → compare_peer_info_differs h p q ≡ ok true → p.listen_addr ≢ q.listen_addr
  unfolding compare_peer_info_differs
  compare-ne q e = λ same. memcmp_self-ne (sockaddr_bytes h p.listen_addr) 28 (rw (← same) at e)

  update_found-none :
      (q : PeerInfo) (qs : List PeerInfo)
      → update_found h p (q ∷ qs) ≡ ok none
      → (compare_peer_info_differs h p q ≡ ok true) × (update_found h p qs ≡ ok none)
  unfolding update_found
  update_found-none q qs e = ground arith

  update_found-some :
      (q : PeerInfo) (qs ps' : List PeerInfo)
      → update_found h p (q ∷ qs) ≡ ok (some ps')
      → (ps' ≡ record q { last_connected = p.last_connected } ∷ qs)
        ⊎ ((qs' : List PeerInfo) × (update_found h p qs ≡ ok (some qs')) × (ps' ≡ q ∷ qs'))
  unfolding update_found
  update_found-some q qs ps' e = ground arith

  -- If no peer is found, the new one has an address of its own.
  not_found-ne :
      (qs : List PeerInfo)
      → update_found h p qs ≡ ok none
      → All (λ q. p.listen_addr ≢ q.listen_addr) qs
  not_found-ne [] e = tt
  not_found-ne (q ∷ qs) e =
      let (differs, rest) = update_found-none q qs e in (compare-ne q differs, not_found-ne qs rest)

  -- An update changes no address.
  updated-ne :
      (a : SockAddr) (qs ps' : List PeerInfo)
      → update_found h p qs ≡ ok (some ps')
      → All (λ q. a ≢ q.listen_addr) qs
      → All (λ q. a ≢ q.listen_addr) ps'
  unfolding update_found
  updated-ne a [] ps' e w = cc
  updated-ne a (q ∷ qs) ps' e w = elim (update_found-some q qs ps' e) [
    | inl here ↦ rw here w
    | inr (qs', found, there) ↦ rw there (w.0, updated-ne a qs qs' found w.1)
  ]

  updated-Different :
      (qs ps' : List PeerInfo) → update_found h p qs ≡ ok (some ps') → Different qs → Different ps'
  unfolding update_found
  updated-Different [] ps' e w = cc
  updated-Different (q ∷ qs) ps' e w = elim (update_found-some q qs ps' e) [
    | inl here ↦ rw here w
    | inr (qs', found, there) ↦
        rw there (updated-ne q.listen_addr qs qs' found w.0, updated-Different qs qs' found w.1)
  ]

-- The peers for which a test fails, in order.
abbrev pub without : (PeerInfo → Bool) → List PeerInfo → List PeerInfo
without test [] = []
without test (p ∷ ps) = if test p then without test ps else (p ∷ without test ps)

remove_expired-kept :
    (expired named : PeerInfo → Bool) (kept ps : List PeerInfo)
    → All (λ p. named p ≡ true) ps
    → remove_expired expired named kept ps ≡ (none, kept ++ without expired ps)
unfolding remove_expired
remove_expired-kept expired named kept [] w = rw (append-nil kept)
remove_expired-kept expired named kept (p ∷ ps) w = elim (Bool-cases (expired p)) [
  | inl e ↦ rw (e, w.0) (remove_expired-kept expired named kept ps w.1)
  | inr e ↦
      rw (e, remove_expired-kept expired named (kept ++ (p ∷ [])) ps w.1)
        (rw (append_assoc kept (p ∷ []) (without expired ps)))
]

-- If the names of all peers can be found, the loop over the list of peers removes exactly the
-- expired ones, keeps the others in their order, and does not fail.
pub remove_expired-without :
    (expired named : PeerInfo → Bool) (ps : List PeerInfo)
    → All (λ p. named p ≡ true) ps
    → remove_expired expired named [] ps ≡ (none, without expired ps)
remove_expired-without expired named ps w = remove_expired-kept expired named [] ps w

All-remove :
    (P : PeerInfo → Type 0) (front bs : List PeerInfo) (p : PeerInfo)
    → All P (front ++ (p ∷ bs))
    → All P (front ++ bs)
All-remove P [] bs p w = w.1
All-remove P (a ∷ front) bs p w = (w.0, All-remove P front bs p w.1)

Different-remove :
    (front bs : List PeerInfo) (p : PeerInfo)
    → Different (front ++ (p ∷ bs))
    → Different (front ++ bs)
Different-remove [] bs p w = w.1
Different-remove (a ∷ front) bs p w = (All-remove _ front bs p w.0, Different-remove front bs p w.1)

remove_expired-Different :
    (expired named : PeerInfo → Bool) (kept ps : List PeerInfo)
    → Different (kept ++ ps)
    → Different (remove_expired expired named kept ps).1
unfolding remove_expired
remove_expired-Different expired named kept [] w = rw append-nil at w
remove_expired-Different expired named kept (p ∷ ps) w =
    removed (expired p) (named p) (remove_expired expired named kept ps)
      (some network_function, kept ++ ps) (remove_expired expired named (kept ++ (p ∷ [])) ps)
      (remove_expired-Different expired named kept ps (Different-remove kept ps p w))
      (Different-remove kept ps p w)
      (remove_expired-Different expired named (kept ++ (p ∷ [])) ps
        (rw (append_assoc kept (p ∷ []) ps) w))
  where
    removed :
        (b c : Bool) (x y z : Option ReturnCode × List PeerInfo)
        → Different x.1
        → Different y.1
        → Different z.1
        → Different (if b then (if c then x else y) else z).1
    removed true true x y z p q r = p
    removed true false x y z p q r = q
    removed false c x y z p q r = r

-- No two peers that have not been freed have the same address.
abbrev pub DifferentPeers : PeerList → Type 0
DifferentPeers (intact ps) = Different ps
DifferentPeers (dangling ps) = Different ps

module _ (h : Host) (keepalive : ℕ) (x : Request) where
  answer-Leaves :
      (r : Option ReturnCode × List PeerInfo) (n : ℕ)
      → Different r.1
      → Leaves DifferentPeers (answer h keepalive x r n)
  unfolding answer
  answer-Leaves (some c, ps) n w = Leaves-returned c (intact ps) _ w
  answer-Leaves (none, ps) n w =
      Leaves-after (peer_info_list_serialize h ps n) (intact ps) w λ (bytes, n1) _.
        Leaves-after_mutex x.unlocked (intact ps) w (
          let command : CommandPayload = record {
            header = header_of command_send_peer_list;
            data_len = length bytes;
            payload = bytes;
          } in
          Leaves-after (command_send_peer_list_serialize h command n1) (intact ps) w
            λ ((_, buf), _) _.
              Leaves-after_transfer (send_all x.send_calls buf) (intact ps) w
                λ sent _ _. Leaves-returned success (intact ps) sent w)

  after_find-Leaves :
      (p : PeerInfo) (ps : List PeerInfo) (found : Option (List PeerInfo)) (n : ℕ)
      (next : List PeerInfo → ℕ → Handled PeerList)
      → Different ps
      → update_found h p ps ≡ ok found
      → ((ps' : List PeerInfo) (n' : ℕ) → Different ps' → Leaves DifferentPeers (next ps' n'))
      → Leaves DifferentPeers (after_find h keepalive x p ps found n next)
  unfolding after_find
  after_find-Leaves p ps none n next w e k = Leaves-after (malloc n) (intact ps) w λ (_, n') _.
      Leaves-if (x.named p) (k (p ∷ ps) n' (not_found-ne h p ps e, w))
        (Leaves-returned _ (dangling ps) _ w)
  after_find-Leaves p ps (some ps') n next w e k =
      let v = updated-Different h p ps ps' e w in
      Leaves-if (x.named p) (k ps' n v) (Leaves-returned _ (intact ps') _ v)

  reading-Leaves :
      (s : PeerList) (next : List PeerInfo → Handled PeerList)
      → DifferentPeers s
      → ((ps : List PeerInfo) → Different ps → Leaves DifferentPeers (next ps))
      → Leaves DifferentPeers (reading s next)
  reading-Leaves (intact ps) next w k = k ps w
  reading-Leaves (dangling ps) next w k = Leaves-undefined

  -- Whatever a peer sends, if no two peers in the list have the same address, then none have when
  -- the server returns from the request, with whatever code; a peer that has been freed does not
  -- count.
  pub handle_one_peer_discovery_request-DifferentPeers :
      (s s' : PeerList) (c : ReturnCode) (sent : Bytes)
      → DifferentPeers s
      → handle_one_peer_discovery_request h keepalive x s ≡ returned c s' sent
      → DifferentPeers s'
  unfolding handle_one_peer_discovery_request
  handle_one_peer_discovery_request-DifferentPeers s s' c sent w =
      left_by
        (Leaves-receive_command h grow command_register_peer x.recv_calls x.stream x.allocs s w
          λ buf n.
            Leaves-after (command_register_peer_deserialize h (cursor n buf)) s w λ (command, c) _.
              Leaves-after (new_peer_info h keepalive c.allocs) s w λ n1 _.
                Leaves-after_mutex x.locked s w (
                  let p = peer_of command x.connected_time in
                  reading-Leaves s _ w λ ps v.
                    Leaves-after (update_found h p ps) (intact ps) v λ found e.
                      after_find-Leaves p ps found n1 _ v e λ ps'' n2 u.
                        answer-Leaves
                          (remove_expired (peer_expired keepalive x.current_time) x.named [] ps'')
                          n2
                          (remove_expired-Different (peer_expired keepalive x.current_time) x.named
                            [] ps'' u)))
        c s' sent
