-- ===== src/PeerDiscovery/Sweep/Owns.antt =====
-- Nodes whose data are peers.
use theblockchainkiller.Base.{◌≡◌, refl, false, some, List, [], ◌∷◌, ◌++◌, ◌==◌, arith}
use theblockchainkiller.Store.{Ptr}
use theblockchainkiller.Store.Objects.{Objects, Splits, release, release-Splits}
use theblockchainkiller.Store.Chain.{Nodes}
use theblockchainkiller.PeerDiscovery.{PeerInfo}

-- The data of the nodes are these peers, one each, and apart from them there is `rest`.
pub data OwnsPeers : Nodes → List PeerInfo → Objects PeerInfo → Objects PeerInfo → Type 0 where
  no_peer : {o : Objects PeerInfo} → OwnsPeers [] [] o o
  a_peer :
      {a d : Ptr} {p : PeerInfo} {ns : Nodes} {ps : List PeerInfo} {o o' rest : Objects PeerInfo}
      → Splits d p o o'
      → OwnsPeers ns ps o' rest
      → OwnsPeers ((a, d) ∷ ns) (p ∷ ps) o rest

-- An object that is apart from a first one.
module _ {A : Type 0} {k d : Ptr} {x y : A} {o o' : Objects A} (w : Splits k y o o')
    (there : o' d ≡ some x) where
  apart_ne : (d == k) ≡ false
  apart_ne = ground (arith, w.others d)

  apart_here : o d ≡ some x
  apart_here = ground (arith, w.others d)

  release_apart : Splits k y (release d o) (release d o')
  unfolding release
  release_apart = record {
    ne_null = w.ne_null;
    here = ground (arith, w.here, w.others d);
    others = λ a. ground (arith, w.others a, w.others d);
  }

module _ {d : Ptr} {p : PeerInfo} {o1 o2 : Objects PeerInfo} (v : Splits d p o1 o2) where
  pub OwnsPeers-here :
      {ks : Nodes} {kps : List PeerInfo} {o : Objects PeerInfo}
      → OwnsPeers ks kps o o1
      → o d ≡ some p
  OwnsPeers-here no_peer = v.here
  OwnsPeers-here (a_peer w rest) = apart_here w (OwnsPeers-here rest)

  pub peer-Splits :
      {ks : Nodes} {kps : List PeerInfo} {o : Objects PeerInfo}
      → OwnsPeers ks kps o o1
      → Splits d p o (release d o)
  unfolding release
  peer-Splits w = record { ne_null = v.ne_null; here = OwnsPeers-here w; others = λ a. refl }

  -- A peer behind others is freed.
  pub OwnsPeers-release :
      {ks : Nodes} {kps : List PeerInfo} {o : Objects PeerInfo}
      → OwnsPeers ks kps o o1
      → OwnsPeers ks kps (release d o) o2
  OwnsPeers-release no_peer = rw (release-Splits v) no_peer
  OwnsPeers-release (a_peer w rest) =
      a_peer (release_apart w (OwnsPeers-here rest)) (OwnsPeers-release rest)

  -- It is one of those that are kept.
  pub OwnsPeers-snoc :
      {ks : Nodes} {kps : List PeerInfo} {o : Objects PeerInfo} (a : Ptr)
      → OwnsPeers ks kps o o1
      → OwnsPeers (ks ++ ((a, d) ∷ [])) (kps ++ (p ∷ [])) o o2
  OwnsPeers-snoc a no_peer = a_peer v no_peer
  OwnsPeers-snoc a (a_peer w rest) = a_peer w (OwnsPeers-snoc a rest)
