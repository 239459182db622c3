-- ===== src/PeerDiscovery/Sweep.antt =====
-- What src/peer_discovery_bootstrap_server_thread.c does with the nodes of the list of peers: a new
-- peer gets one, and a loop removes those of the expired ones.
pub mod Dangling
pub mod Middle
pub mod Owns
pub mod Refines
pub mod Visit
use theblockchainkiller.Base.{ℕ, zero, suc, Bool, none, some, ◌==◌, if◌then◌else◌}
use theblockchainkiller.Runtime.{network_function}
use theblockchainkiller.Store.{
  Ptr, null, Heap, Memory, Result, done, failed, undefined, unfinished, Call, give, ◌>>=◌, ◌>>◌,
  load_list, load_node, free,
}
use theblockchainkiller.Store.Objects.{Objects, at_free, ignoring_code, library_free}
use theblockchainkiller.LinkedList.{Functions, set_head, set_next, call_free, linked_list_prepend}
use theblockchainkiller.PeerDiscovery.{PeerInfo}

-- The list of peers is made with `free`. The loop compares no peers.
abbrev pub on_peers : Functions (Objects PeerInfo)
on_peers = record {
  free_data = λ f p o. if f == at_free then ignoring_code (library_free p o) else none;
  compare_equal = λ c d1 d2 o. none;
}

unfoldable pub load_peer : Ptr → Call (Memory (Objects PeerInfo)) PeerInfo
load_peer d m = elim (m.user d) as (λ _. Result (Memory (Objects PeerInfo)) PeerInfo) [
  | some p ↦ done p m
  | none ↦ undefined
]

module _ (fresh : Heap → Ptr) (expired named : PeerInfo → Bool) (l : Ptr) where
  -- The node behind `prev`, or the first one, becomes `next`.
  unfoldable pub unlink : (prev next : Ptr) → Call (Memory (Objects PeerInfo)) (Unit {0})
  unlink prev next =
      if prev == null then set_head fresh on_peers l next else set_next fresh on_peers prev next

  -- The names that are looked up where progress is printed.
  unfoldable pub look_up : PeerInfo → Call (Memory (Objects PeerInfo)) (Unit {0})
  look_up p m = if named p then done tt m else failed network_function m

  -- The jump to the end behind a call that fails, with a `free`.
  unfoldable pub freeing :
      Ptr
      → Call (Memory (Objects PeerInfo)) (Unit {0})
      → Call (Memory (Objects PeerInfo)) (Unit {0})
  freeing d call m = elim (call m) [
    | failed code m' ↦ elim (library_free d m'.user) [
      | done _ o ↦ failed code (record m' { user = o })
      | _ ↦ undefined
    ]
    | result ↦ result
  ]

  -- A peer that was not found in the list.
  unfoldable pub add_peer : Ptr → PeerInfo → Call (Memory (Objects PeerInfo)) (Unit {0})
  add_peer d p = freeing d (linked_list_prepend fresh on_peers l d) >> freeing d (look_up p)

  -- The free function on the data, and the node.
  unfoldable pub free_node : (node data_at : Ptr) → Call (Memory (Objects PeerInfo)) (Unit {0})
  free_node p d = do (f, c, head) ← load_list l; call_free fresh on_peers f d; free p

  -- `node = prev`, or `node` as it is; then `prev` and `node` move on.
  unfoldable pub advance :
      (prev node : Ptr)
      → (Ptr → Ptr → Call (Memory (Objects PeerInfo)) (Unit {0}))
      → Call (Memory (Objects PeerInfo)) (Unit {0})
  advance prev node next =
      if node == null
      then (do (f, c, head) ← load_list l; next prev head)
      else (do (d, q) ← load_node node; next node q)

  -- The body of the loop, for a node.
  unfoldable pub visit :
      (prev node : Ptr)
      → (Ptr → Ptr → Call (Memory (Objects PeerInfo)) (Unit {0}))
      → Call (Memory (Objects PeerInfo)) (Unit {0})
  visit prev node next = do
    (d, q) ← load_node node
    p ← load_peer d
    if expired p
        then (do unlink prev q; look_up p; free_node node d; advance prev prev next)
        else advance prev node next

  unfoldable pub sweep : ℕ → (prev node : Ptr) → Call (Memory (Objects PeerInfo)) (Unit {0})
  sweep zero prev node m = unfinished
  sweep (suc rounds) prev node m =
      let rest = λ (prev' node' : Ptr). sweep rounds prev' node' in
      (if node == null then give tt else visit prev node rest) m

  -- From `node_t *prev = NULL` on.
  unfoldable pub sweep_list : ℕ → Call (Memory (Objects PeerInfo)) (Unit {0})
  sweep_list rounds = do (f, c, head) ← load_list l; sweep rounds null head
