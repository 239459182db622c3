-- ===== src/PeerDiscovery/Compare.antt =====
-- `compare_peer_info_t` returns 0 for equal addresses, and for no others.
use theblockchainkiller.Base.{
  ℕ, zero, suc, ◌≤◌, ◌<◌, ◌^◌, ◌≡◌, ◌≢◌, refl, ap, true, false, [], ◌∷◌, ◌++◌, ◌⊎◌, inl, inr, arith,
  length, length-append, append-nil,
}
use theblockchainkiller.Runtime.{ok}
use theblockchainkiller.Endian.{Host, Bytes, store, load}
use theblockchainkiller.Endian.Laws.{length-store, load-store}
use theblockchainkiller.Memory.{memcmp_differs}
use theblockchainkiller.Memory.Laws.{memcmp_differs_self, memcmp_differs-eq}
use theblockchainkiller.PeerDiscovery.{
  SockAddr, PeerInfo, sockaddr_bytes, compare_peer_info_differs,
}
use theblockchainkiller.PeerDiscovery.RoundTrip.{IsSockAddr}

-- `memcmp` gives an answer for objects that are large enough.
memcmp_differs-either :
    (a b : Bytes) (n : ℕ)
    → n ≤ length a
    → n ≤ length b
    → (memcmp_differs a b n ≡ ok true) ⊎ (memcmp_differs a b n ≡ ok false)
unfolding memcmp_differs
memcmp_differs-either a b zero ha hb = inr refl
memcmp_differs-either [] b (suc n) ha hb = absurd (omega arith)
memcmp_differs-either (x ∷ a) [] (suc n) ha hb = absurd (omega arith)
memcmp_differs-either (x ∷ a) (y ∷ b) (suc n) ha hb =
    ground (arith, memcmp_differs-either a b n (omega arith) (omega arith))

append_cancel :
    (xs ys r s : Bytes) → length xs ≡ length ys → xs ++ r ≡ ys ++ s → (xs ≡ ys) × (r ≡ s)
append_cancel [] [] r s len e = (refl, e)
append_cancel [] (y ∷ ys) r s len e = absurd (omega arith)
append_cancel (x ∷ xs) [] r s len e = absurd (omega arith)
append_cancel (x ∷ xs) (y ∷ ys) r s len e = ground (arith, append_cancel xs ys r s (omega arith))

module _ (h : Host) where
  -- A field that is stored in front of others.
  store_cancel :
      (n x y : ℕ) (r s : Bytes)
      → x < 256 ^ n
      → y < 256 ^ n
      → store h n x ++ r ≡ store h n y ++ s
      → (x ≡ y) × (r ≡ s)
  store_cancel n x y r s hx hy e =
      let (same, rest) =
        append_cancel (store h n x) (store h n y) r s
          (omega (arith, length-store h n x, length-store h n y)) e in
      (rw (load-store h n x hx, load-store h n y hy) at (ap (load h) same), rest)

  length-sockaddr_bytes : (a : SockAddr) → IsSockAddr a → length (sockaddr_bytes h a) ≡ 28
  unfolding sockaddr_bytes
  length-sockaddr_bytes a w =
      rw
        (
          length-append (store h 2 a.sin6_family) _,
          length-append (store h 2 a.sin6_port) _,
          length-append (store h 4 a.sin6_flowinfo) _,
          length-append a.sin6_addr _,
        )
        (omega (
          arith,
          length-store h 2 a.sin6_family,
          length-store h 2 a.sin6_port,
          length-store h 4 a.sin6_flowinfo,
          length-store h 4 a.sin6_scope_id,
          w.addr_fits,
        ))

  -- No two addresses that the C types can hold are stored alike.
  sockaddr_bytes_injective :
      (a b : SockAddr)
      → IsSockAddr a
      → IsSockAddr b
      → sockaddr_bytes h a ≡ sockaddr_bytes h b
      → a ≡ b
  unfolding sockaddr_bytes
  sockaddr_bytes_injective a b w v e =
      let (family, e1) =
        store_cancel 2 a.sin6_family b.sin6_family _ _ w.family_fits v.family_fits e in
      let (port, e2) = store_cancel 2 a.sin6_port b.sin6_port _ _ w.port_fits v.port_fits e1 in
      let (flowinfo, e3) =
        store_cancel 4 a.sin6_flowinfo b.sin6_flowinfo _ _ w.flowinfo_fits v.flowinfo_fits e2 in
      let (addr, e4) =
        append_cancel a.sin6_addr b.sin6_addr _ _ (omega (arith, w.addr_fits, v.addr_fits)) e3 in
      let (scope, _) =
        store_cancel 4 a.sin6_scope_id b.sin6_scope_id [] [] w.scope_fits v.scope_fits
          (rw (append-nil, append-nil) e4) in
      cc (family, port, flowinfo, addr, scope)

  module _ (p q : PeerInfo) (w : IsSockAddr p.listen_addr) (v : IsSockAddr q.listen_addr) where
    pub compare_peer_info-same :
        p.listen_addr ≡ q.listen_addr → compare_peer_info_differs h p q ≡ ok false
    unfolding compare_peer_info_differs
    compare_peer_info-same e = rw (← e) (
        memcmp_differs_self (sockaddr_bytes h p.listen_addr) 28
          (omega (arith, length-sockaddr_bytes p.listen_addr w)))

    pub compare_peer_info-other :
        p.listen_addr ≢ q.listen_addr → compare_peer_info_differs h p q ≡ ok true
    unfolding compare_peer_info_differs
    compare_peer_info-other ne =
        let p_len = length-sockaddr_bytes p.listen_addr w in
        let q_len = length-sockaddr_bytes q.listen_addr v in
        elim (memcmp_differs-either (sockaddr_bytes h p.listen_addr)
          (sockaddr_bytes h q.listen_addr) 28 (omega arith) (omega arith)) [
            | inl e ↦ e
            | inr e ↦ absurd (
                ne (
                  sockaddr_bytes_injective p.listen_addr q.listen_addr w v
                    (memcmp_differs-eq _ _ 28 p_len q_len e)))
          ]
