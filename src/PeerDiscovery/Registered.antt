-- ===== src/PeerDiscovery/Registered.antt =====
-- What a registration does to the list of peers, in terms of addresses.
use theblockchainkiller.Base.{
  ℕ, ◌+◌, ◌≤◌, ◌≡◌, ◌≢◌, refl, Bool, false, Option, none, some, List, [], ◌∷◌, ◌⊎◌, inl, inr, arith,
  length, All, Bool-cases, sym,
}
use theblockchainkiller.Runtime.{ok}
use theblockchainkiller.Endian.{Host}
use theblockchainkiller.PeerDiscovery.{SockAddr, PeerInfo}
use theblockchainkiller.PeerDiscovery.RoundTrip.{IsSockAddr, IsPeer}
use theblockchainkiller.PeerDiscovery.Compare.{compare_peer_info-same, compare_peer_info-other}
use theblockchainkiller.PeerDiscovery.Server.{update_found, peer_expired}
use theblockchainkiller.PeerDiscovery.Server.Keep.{without}

-- The first peer with the address gets the new time.
pub data Refreshed (p : PeerInfo) : List PeerInfo → List PeerInfo → Type 0 where
  here :
      {q : PeerInfo} {qs : List PeerInfo}
      → p.listen_addr ≡ q.listen_addr
      → Refreshed p (q ∷ qs) (record q { last_connected = p.last_connected } ∷ qs)
  later :
      {q : PeerInfo} {qs qs' : List PeerInfo}
      → p.listen_addr ≢ q.listen_addr
      → Refreshed p qs qs'
      → Refreshed p (q ∷ qs) (q ∷ qs')

-- A peer of a new address comes in front.
pub data Registered (p : PeerInfo) (ps : List PeerInfo) : List PeerInfo → Type 0 where
  added : All (λ q. p.listen_addr ≢ q.listen_addr) ps → Registered p ps (p ∷ ps)
  known : {ps' : List PeerInfo} → Refreshed p ps ps' → Registered p ps ps'

-- The list after the search for the peer's address.
abbrev pub chosen : PeerInfo → List PeerInfo → Option (List PeerInfo) → List PeerInfo
chosen p ps none = p ∷ ps
chosen p ps (some ps') = ps'

-- A peer of that address is in the list.
abbrev pub Lists : SockAddr → List PeerInfo → Type 0
Lists a [] = ⊥
Lists a (q ∷ qs) = (q.listen_addr ≡ a) ⊎ Lists a qs

module _ (h : Host) (p : PeerInfo) (w : IsSockAddr p.listen_addr) where
  update_found-other :
      (ps : List PeerInfo)
      → All IsPeer ps
      → All (λ q. p.listen_addr ≢ q.listen_addr) ps
      → update_found h p ps ≡ ok none
  unfolding update_found
  update_found-other [] v ne = refl
  update_found-other (q ∷ qs) v ne =
      rw (compare_peer_info-other h p q w v.0.addr ne.0, update_found-other qs v.1 ne.1) refl

  update_found-Refreshed :
      {ps ps' : List PeerInfo}
      → All IsPeer ps
      → Refreshed p ps ps'
      → update_found h p ps ≡ ok (some ps')
  unfolding update_found
  update_found-Refreshed v (here {q} same) = rw (compare_peer_info-same h p q w v.0.addr same) refl
  update_found-Refreshed v (later {q} ne r) =
      rw (compare_peer_info-other h p q w v.0.addr ne, update_found-Refreshed v.1 r) refl

  pub update_found-Registered :
      {ps ps' : List PeerInfo}
      → All IsPeer ps
      → Registered p ps ps'
      → (found : Option (List PeerInfo)) × (update_found h p ps ≡ ok found)
        × (chosen p ps found ≡ ps')
  update_found-Registered {ps} v (added ne) = (none, update_found-other ps v ne, refl)
  update_found-Registered {ps'} v (known r) = (some ps', update_found-Refreshed v r, refl)

module _ (p : PeerInfo) where
  Refreshed-length : {ps ps' : List PeerInfo} → Refreshed p ps ps' → length ps' ≡ length ps
  Refreshed-length (here same) = refl
  Refreshed-length (later ne r) = omega (arith, Refreshed-length r)

  pub Registered-length :
      {ps ps' : List PeerInfo} → Registered p ps ps' → length ps' ≤ length ps + 1
  Registered-length (added ne) = omega arith
  Registered-length (known r) = omega (arith, Refreshed-length r)

  Refreshed-IsPeer :
      {ps ps' : List PeerInfo} → IsPeer p → All IsPeer ps → Refreshed p ps ps' → All IsPeer ps'
  Refreshed-IsPeer w v (here same) = (record { addr = v.0.addr; time_fits = w.time_fits }, v.1)
  Refreshed-IsPeer w v (later ne r) = (v.0, Refreshed-IsPeer w v.1 r)

  pub Registered-IsPeer :
      {ps ps' : List PeerInfo} → IsPeer p → All IsPeer ps → Registered p ps ps' → All IsPeer ps'
  Registered-IsPeer w v (added ne) = (w, v)
  Registered-IsPeer w v (known r) = Refreshed-IsPeer w v r

  -- A peer that has just registered is listed, unless it has already expired.
  module _ (keepalive now : ℕ) (fresh : peer_expired keepalive now p ≡ false) where
    Refreshed-Lists :
        {ps ps' : List PeerInfo}
        → Refreshed p ps ps'
        → Lists p.listen_addr (without (peer_expired keepalive now) ps')
    Refreshed-Lists (here same) = rw fresh (inl (sym same))
    Refreshed-Lists (later {q} ne r) = elim (Bool-cases (peer_expired keepalive now q)) [
      | inl e ↦ rw e (Refreshed-Lists r)
      | inr e ↦ rw e (inr (Refreshed-Lists r))
    ]

    pub Registered-Lists :
        {ps ps' : List PeerInfo}
        → Registered p ps ps'
        → Lists p.listen_addr (without (peer_expired keepalive now) ps')
    Registered-Lists (added ne) = rw fresh (inl refl)
    Registered-Lists (known r) = Refreshed-Lists r

module _ (test : PeerInfo → Bool) where
  pub length-without : (ps : List PeerInfo) → length (without test ps) ≤ length ps
  length-without [] = omega arith
  length-without (p ∷ ps) = ground (arith, length-without ps)

  pub All-without :
      (P : PeerInfo → Type 0) (ps : List PeerInfo) → All P ps → All P (without test ps)
  All-without P [] w = tt
  All-without P (p ∷ ps) w = elim (Bool-cases (test p)) [
    | inl e ↦ rw e (All-without P ps w.1)
    | inr e ↦ rw e (w.0, All-without P ps w.1)
  ]
