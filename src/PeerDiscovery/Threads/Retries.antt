-- ===== src/PeerDiscovery/Threads/Retries.antt =====
-- `discover_peers` goes on behind an exchange that has failed.
use theblockchainkiller.Base.{
  ◌≡◌, refl, Bool, true, false, List, [], ◌∷◌, All, ◌⊎◌, inl, inr, if◌then◌else◌,
}
use theblockchainkiller.Runtime.{ReturnCode, success}
use theblockchainkiller.Endian.{Host, Bytes}
use theblockchainkiller.Networking.Handler.{Handled, returned, undefined, blocked}
use theblockchainkiller.Networking.Listener.{
  Thread, ended, running, waiting, faulty, finish, behind,
}
use theblockchainkiller.Networking.Listener.Ends.{Somewhere, here, later}
use theblockchainkiller.PeerDiscovery.{PeerInfo, SockAddr}
use theblockchainkiller.PeerDiscovery.Client.{discover_peers_once}
use theblockchainkiller.PeerDiscovery.Threads.{DiscoveryTurn, discover_loop, discover_peers}

module _ (h : Host) (a : SockAddr) where
  -- An exchange, from some list of peers, that comes to this result.
  abbrev pub Exchanged : Handled (List PeerInfo) → DiscoveryTurn → Type 0
  Exchanged r t = (ps : List PeerInfo) × (discover_peers_once h t.discovery a ps ≡ r)

  -- An exchange that leaves this list, with whatever code.
  abbrev pub Leaving : List PeerInfo → DiscoveryTurn → Type 0
  Leaving ps t = (code : ReturnCode) × (sent : Bytes) × Exchanged (returned code ps sent) t

  -- The list of peers is the first one or has been left by an exchange.
  abbrev pub LeftBy : List PeerInfo → List DiscoveryTurn → List PeerInfo → Type 0
  LeftBy old ts ps = (ps ≡ old) ⊎ Somewhere (Leaving ps) ts

  -- How the loop goes, with a reason among its rounds.
  pub data Retries (old : List PeerInfo) (ts : List DiscoveryTurn)
      : Thread (List PeerInfo) → Type 0 where
    goes_on :
        {code : ReturnCode} {ps : List PeerInfo}
        → All (λ (t : DiscoveryTurn). t.stop ≡ false) ts
        → LeftBy old ts ps
        → Retries old ts (running code ps)
    stopped :
        {code : ReturnCode} {ps : List PeerInfo}
        → Somewhere (λ (t : DiscoveryTurn). t.stop ≡ true) ts
        → LeftBy old ts ps
        → Retries old ts (ended code ps)
    stuck : Somewhere (Exchanged blocked) ts → Retries old ts waiting
    broken : Somewhere (Exchanged undefined) ts → Retries old ts faulty

  module _ (t : DiscoveryTurn) (ts : List DiscoveryTurn) (old : List PeerInfo) where
    later-LeftBy :
        (code : ReturnCode) (ps ps' : List PeerInfo) (sent : Bytes)
        → discover_peers_once h t.discovery a old ≡ returned code ps sent
        → LeftBy ps ts ps'
        → LeftBy old (t ∷ ts) ps'
    later-LeftBy code ps ps' sent e (inl same) = inr (here (code, sent, (old, rw same e)))
    later-LeftBy code ps ps' sent e (inr w) = inr (later w)

    later-Retries :
        (code : ReturnCode) (ps : List PeerInfo) (sent : Bytes) {r : Thread (List PeerInfo)}
        → discover_peers_once h t.discovery a old ≡ returned code ps sent
        → t.stop ≡ false
        → Retries ps ts r
        → Retries old (t ∷ ts) r
    later-Retries code ps sent e f (goes_on w v) = goes_on (f, w) (later-LeftBy code ps _ sent e v)
    later-Retries code ps sent e f (stopped w v) =
        stopped (later w) (later-LeftBy code ps _ sent e v)
    later-Retries code ps sent e f (stuck w) = stuck (later w)
    later-Retries code ps sent e f (broken w) = broken (later w)

    round-Retries :
        (r : Handled (List PeerInfo)) (next : ReturnCode → List PeerInfo → Thread (List PeerInfo))
        → discover_peers_once h t.discovery a old ≡ r
        → ((code : ReturnCode) (ps : List PeerInfo) → Retries ps ts (next code ps))
        → Retries old
            (t ∷ ts)
            (behind r λ code ps. if t.stop then finish true code ps else next code ps)
    round-Retries (returned code ps sent) next e k = go t.stop refl
      where
        go :
            (b : Bool)
            → t.stop ≡ b
            → Retries old (t ∷ ts) (if b then finish true code ps else next code ps)
        go true f = stopped (here f) (inr (here (code, sent, (old, e))))
        go false f = later-Retries code ps sent e f (k code ps)
    round-Retries undefined next e k = broken (here (old, e))
    round-Retries blocked next e k = stuck (here (old, e))

  pub discover_peers-Retries :
      (ts : List DiscoveryTurn) (ps : List PeerInfo)
      → Retries ps ts (discover_peers h true a false ts ps)
  unfolding discover_peers discover_loop
  discover_peers-Retries ts ps = go ts success ps
    where
      go :
          (ts : List DiscoveryTurn) (code : ReturnCode) (ps : List PeerInfo)
          → Retries ps ts (discover_loop h true a ts code ps)
      go [] code ps = goes_on tt (inl refl)
      go (t ∷ ts) code ps =
          round-Retries t ts ps (discover_peers_once h t.discovery a ps) _ refl (go ts)
