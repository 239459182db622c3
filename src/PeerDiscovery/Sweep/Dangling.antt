-- ===== src/PeerDiscovery/Sweep/Dangling.antt =====
-- A peer whose name cannot be found is freed while it is in the list.
use theblockchainkiller.Base.{
  ℕ, suc, ◌≡◌, refl, Bool, true, false, none, List, [], ◌∷◌, ◌==◌, arith, ◌⊎◌, inl, inr, Bool-cases,
}
use theblockchainkiller.Runtime.{ReturnCode, network_function}
use theblockchainkiller.Store.{
  Ptr, null, node, linked_list, Heap, Memory, memory, done, failed, undefined, put, store, malloc,
  Call,
}
use theblockchainkiller.Store.Cells.{IsAllocator}
use theblockchainkiller.Store.Objects.{Objects, at_free, Splits, free_object-Splits}
use theblockchainkiller.Store.Chain.{Nodes, Owned}
use theblockchainkiller.LinkedList.{linked_list_prepend}
use theblockchainkiller.LinkedList.Owned.{push-Owned, struct-put}
use theblockchainkiller.LinkedList.Walk.{given-ok, load_list-ok, load_node-ok, set_head-ok}
use theblockchainkiller.PeerDiscovery.{PeerInfo}
use theblockchainkiller.PeerDiscovery.Sweep.{
  on_peers, load_peer, look_up, freeing, add_peer, visit, sweep, sweep_list,
}
use theblockchainkiller.PeerDiscovery.Sweep.Owns.{OwnsPeers, a_peer}
use theblockchainkiller.PeerDiscovery.Sweep.Visit.{node_here}

-- The list of peers has a node in front.
pub record Added (rest : Heap) (l c : Ptr) (n : Ptr × Ptr) (ns : Nodes) (ps : List PeerInfo)
    (left : Objects PeerInfo) (m : Memory (Objects PeerInfo)) : Type 0 where
  nodes : Owned rest l at_free c (n ∷ ns) n.0 m.heap
  peers : OwnsPeers (n ∷ ns) ps m.user left

module _ (fresh : Heap → Ptr) (allocator : IsAllocator fresh) (l : Ptr) {rest h : Heap}
    {c head d : Ptr} {p : PeerInfo} {ns : Nodes} {o o' : Objects PeerInfo} (g : List Bool)
    (owned : Owned rest l at_free c ns head h) (w : Splits d p o o') where
  abbrev with_node : Heap
  with_node = put l (linked_list at_free c (fresh h)) (put (fresh h) (node d head) h)

  prepend-ok :
      linked_list_prepend fresh on_peers l d (memory h o (true ∷ g))
      ≡ done tt (memory with_node o g)
  unfolding linked_list_prepend malloc store
  prepend-ok =
      let not_null : (d == null) ≡ false = let ne = w.ne_null in ground arith in
      let still = struct-put owned (fresh h) (node d head) (allocator.unused h) in
      rw
        (
          given-ok h o (true ∷ g) l owned.ne_null,
          given-ok h o (true ∷ g) d w.ne_null,
          load_list-ok h o g l owned.struct,
          set_head-ok fresh on_peers (put (fresh h) (node d head) h) o g l (fresh h) still,
        )
        refl

  module _ (expired named : PeerInfo → Bool) where
    look_up-fails :
        (m : Memory (Objects PeerInfo))
        → named p ≡ false
        → look_up fresh expired named l p m ≡ failed network_function m
    unfolding look_up
    look_up-fails m e = rw e refl

    freeing-done :
        (call : Call (Memory (Objects PeerInfo)) (Unit {0})) (m m' : Memory (Objects PeerInfo))
        → call m ≡ done tt m'
        → freeing fresh expired named l d call m ≡ done tt m'
    unfolding freeing
    freeing-done call m m' e = rw (freeing, e) refl

    freeing-failed :
        (call : Call (Memory (Objects PeerInfo)) (Unit {0})) (m : Memory (Objects PeerInfo))
        (h' : Heap) (code : ReturnCode)
        → call m ≡ failed code (memory h' o g)
        → freeing fresh expired named l d call m ≡ failed code (memory h' o' g)
    unfolding freeing
    freeing-failed call m h' code e =
        let not_null : (d == null) ≡ false = let ne = w.ne_null in ground arith in
        rw (freeing, e, not_null, free_object-Splits w) refl

    add_peer-fails :
        named p ≡ false
        → add_peer fresh expired named l d p (memory h o (true ∷ g))
          ≡ failed network_function (memory with_node o' g)
    unfolding add_peer
    add_peer-fails e =
        rw
          (
            freeing-done (linked_list_prepend fresh on_peers l d) (memory h o (true ∷ g))
                (memory with_node o g) prepend-ok,
            freeing-failed (look_up fresh expired named l p) (memory with_node o g) with_node
                network_function (look_up-fails (memory with_node o g) e),
          )
          refl

    load_peer-undefined : load_peer d (memory with_node o' g) ≡ undefined
    unfolding load_peer
    load_peer-undefined =
        let gone : o' d ≡ none = ground (arith, w.others d) in rw (load_peer, gone) refl

    sweep_list-undefined :
        (rounds : ℕ)
        → sweep_list fresh expired named l (suc rounds) (memory with_node o' g) ≡ undefined
    unfolding sweep_list sweep visit
    sweep_list-undefined rounds =
        let new = push-Owned owned (fresh h) d (allocator.ne_null h) (allocator.unused h) in
        let (ne, here) = node_here [] (fresh h, d) ns new.chain in
        let not_null : (fresh h == null) ≡ false = ground arith in
        rw
          (
            load_list-ok with_node o' g l new.struct,
            not_null,
            load_node-ok with_node o' g (fresh h) here,
            load_peer-undefined,
          )
          refl

  -- If the new peer has an object of its own and a node for it can be allocated, then either its name
  -- can be found, and the list of peers has it in front of the others; or the server returns
  -- FAILURE_NETWORK_FUNCTION with the peer in the list and freed, so that the loop that removes
  -- expired peers is undefined from then on, whatever has expired: it reads what has been freed.
  pub add_peer-Added :
      (expired named : PeerInfo → Bool) (ps : List PeerInfo) (left : Objects PeerInfo)
      → OwnsPeers ns ps o' left
      → (m : Memory (Objects PeerInfo)) × (((named p ≡ true)
            × (add_peer fresh expired named l d p (memory h o (true ∷ g)) ≡ done tt m)
            × Added rest l c (fresh h, d) ns (p ∷ ps) left m)
          ⊎ ((named p ≡ false)
              × (add_peer fresh expired named l d p (memory h o (true ∷ g))
                  ≡ failed network_function m)
              × ((expired' named' : PeerInfo → Bool) (rounds : ℕ)
                  → sweep_list fresh expired' named' l (suc rounds) m ≡ undefined)))
  unfolding add_peer look_up
  add_peer-Added expired named ps left v = elim (Bool-cases (named p)) [
    | inl e ↦ (
      memory with_node o g,
      inl (
        e,
        rw
            (
              freeing-done expired named (linked_list_prepend fresh on_peers l d)
                  (memory h o (true ∷ g)) (memory with_node o g) prepend-ok,
              freeing-done expired named (look_up fresh expired named l p) (memory with_node o g)
                  (memory with_node o g) (rw e refl),
            )
            refl,
        record {
          nodes = push-Owned owned (fresh h) d (allocator.ne_null h) (allocator.unused h);
          peers = a_peer w v;
        },
      ),
    )
    | inr e ↦ (
      memory with_node o' g,
      inr (
        e,
        add_peer-fails expired named e,
        λ expired' named'. sweep_list-undefined expired' named',
      ),
    )
  ]
