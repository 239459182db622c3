-- ===== src/Tests/Sweep.antt =====
-- A list of three peers, of which the first and the last have expired, in a memory with a node and a
-- peer that are not its own.
use theblockchainkiller.Base.{
  ℕ, ◌≡◌, refl, true, false, Bool, suc, ◌⊎◌, none, some, List, [], ◌∷◌, ◌==◌, if◌then◌else◌, arith,
}
use theblockchainkiller.Store.{
  Ptr, null, Memory, done, failed, undefined, node, linked_list, Heap, memory, look,
}
use theblockchainkiller.Store.Chain.{Nodes, empty, linked, Owned}
use theblockchainkiller.Store.Objects.{Objects, at_free, Splits}
use theblockchainkiller.PeerDiscovery.{PeerInfo}
use theblockchainkiller.PeerDiscovery.Server.{peer_expired, remove_expired}
use theblockchainkiller.PeerDiscovery.Sweep.{sweep_list, add_peer}
use theblockchainkiller.PeerDiscovery.Sweep.Owns.{OwnsPeers, no_peer, a_peer}
use theblockchainkiller.PeerDiscovery.Sweep.Refines.{Swept, sweep_list-Swept}
use theblockchainkiller.PeerDiscovery.Sweep.Dangling.{Added, add_peer-Added}
use theblockchainkiller.Runtime.{network_function}
use theblockchainkiller.Tests.Lists.{above, above-IsAllocator}
use theblockchainkiller.Tests.Discovery.{seen}

abbrev place : Ptr → PeerInfo → Objects PeerInfo → Objects PeerInfo
place p x o a = if a == p then some x else o a

abbrev not_listed : Objects PeerInfo
not_listed = place 29 (seen 50 10) (λ a. none)

abbrev behind_second : Objects PeerInfo
behind_second = place 23 (seen 60 50) not_listed

abbrev behind_first : Objects PeerInfo
behind_first = place 22 (seen 70 900) behind_second

abbrev listed : Objects PeerInfo
listed = place 21 (seen 90 100) behind_first

abbrev other_node : Heap
other_node = (5, node 29 0) ∷ []

abbrev three_nodes : Heap
three_nodes =
    (10, linked_list at_free 2 11)
    ∷ (11, node 21 12)
    ∷ (12, node 22 13)
    ∷ (13, node 23 null)
    ∷ other_node

abbrev the_nodes : Nodes
the_nodes = (11, 21) ∷ (12, 22) ∷ (13, 23) ∷ []

abbrev three_peers : List PeerInfo
three_peers = seen 90 100 ∷ seen 70 900 ∷ seen 60 50 ∷ []

three-Owned : Owned other_node 10 at_free 2 the_nodes 11 three_nodes
unfolding look
three-Owned = record {
  chain =
      linked (linked (linked empty (omega arith) refl refl) (omega arith) refl refl) (omega arith)
        refl refl;
  ne_null = omega arith;
  struct = refl;
  outside = λ a e i. ground arith;
  apart = λ a i. ground arith;
  list_apart = refl;
}

three-OwnsPeers : OwnsPeers the_nodes three_peers listed not_listed
three-OwnsPeers =
    a_peer {o' = behind_first}
      (record { ne_null = omega arith; here = refl; others = λ a. ground arith })
      (a_peer {o' = behind_second}
        (record { ne_null = omega arith; here = refl; others = λ a. ground arith })
        (a_peer {o' = not_listed}
          (record { ne_null = omega arith; here = refl; others = λ a. ground arith }) no_peer))

sweep_list-Swept_example : Swept other_node 10 2 not_listed [] (seen 70 900 ∷ []) (
    sweep_list
      (λ _. 99)
      (peer_expired 600_000_000 1001)
      (λ _. true)
      10
      4
      (memory three_nodes listed []))
unfolding remove_expired
sweep_list-Swept_example =
    sweep_list-Swept (λ _. 99) (peer_expired 600_000_000 1001) (λ _. true) 10 other_node 2
      not_listed [] 4 the_nodes three_peers listed three-Owned three-OwnsPeers
      (refl, (refl, (refl, tt))) (omega arith)

-- A fourth peer, whose name cannot be found.
abbrev with_fourth : Objects PeerInfo
with_fourth = place 24 (seen 40 1000) listed

fourth-Splits : Splits 24 (seen 40 1000) with_fourth listed
fourth-Splits = record { ne_null = omega arith; here = refl; others = λ a. ground arith }

add_peer-Added_example :
    (m : Memory (Objects PeerInfo)) × (((false ≡ true)
        × (add_peer above
              (λ _. false)
              (λ _. false)
              10
              24
              (seen 40 1000)
              (memory three_nodes with_fourth (true ∷ []))
            ≡ done tt m)
        × Added other_node 10 2
            (above three_nodes, 24)
            the_nodes
            (seen 40 1000 ∷ three_peers)
            not_listed
            m)
      ⊎ ((false ≡ false)
          × (add_peer above
                (λ _. false)
                (λ _. false)
                10
                24
                (seen 40 1000)
                (memory three_nodes with_fourth (true ∷ []))
              ≡ failed network_function m)
          × ((expired' named' : PeerInfo → Bool) (rounds : ℕ)
              → sweep_list above expired' named' 10 (suc rounds) m ≡ undefined)))
add_peer-Added_example =
    add_peer-Added above above-IsAllocator 10 [] three-Owned fourth-Splits (λ _. false) (λ _. false)
      three_peers not_listed three-OwnsPeers
