-- ===== src/Destroy/Frees.antt =====
-- The destroy functions free what they own, once, and nothing else.
use theblockchainkiller.Base.{
  ℕ, ◌<◌, ◌≡◌, ◌≢◌, refl, Bool, false, some, List, [], ◌==◌, ◌⊎◌, inl, inr, length, arith,
}
use theblockchainkiller.Blockchain.{Transaction}
use theblockchainkiller.Store.{Ptr, null, Heap, Memory, memory, Result, done, Call, given}
use theblockchainkiller.Store.Objects.{
  Objects, at_free, Splits, OwnsAll, nothing, another, Splits-same, free_object-Splits,
}
use theblockchainkiller.Store.Chain.{Nodes, data_of, Owned}
use theblockchainkiller.LinkedList.{Functions, linked_list_destroy}
use theblockchainkiller.LinkedList.Spec.{Contents, contents, free_item, free_items}
use theblockchainkiller.LinkedList.Refines.{Refines, both_done, both_failed, both_undefined}
use theblockchainkiller.LinkedList.Refines.Remove.{Restored, restored, destroy-Restored}
use theblockchainkiller.Destroy.{
  Owners, Syncs, at_transaction_destroy, at_block_destroy, on_transactions, on_blocks, load_owner,
  free_owner, destroy_owned, transaction_destroy, block_destroy, blockchain_destroy, load_sync,
  free_sync, on_chains, synchronized_blockchain_destroy,
}
use theblockchainkiller.Destroy.Owns.{
  SameHeap, SameMemory, OwnsTransactions, made_with, Blocks, SameBlocks, OwnsBlocks, no_block,
  a_block, Chains, SameChains, OwnsChain, OwnsSync, SameSyncs, OwnsTransactions-same,
  SameBlocks-trans,
}

given-not_null : {S : Type 0} {p : Ptr} (s : S) → p ≢ null → given p s ≡ done tt s
unfolding given
given-not_null s ne = ground arith

load_owner-Splits :
    {D : Type 0} {p l : Ptr} (s : Owners D) {rest : Objects Ptr}
    → Splits p l s.objects rest
    → load_owner p s ≡ done l s
unfolding load_owner
load_owner-Splits s w = rw (load_owner, w.here) refl

load_sync-Splits :
    {p c : Ptr} (s : Syncs) {rest : Objects Ptr}
    → Splits p c s.syncs rest
    → load_sync p s ≡ done c s
unfolding load_sync
load_sync-Splits s w = rw (load_sync, w.here) refl

Refines-done :
    {M S A : Type 0} {R : M → S → Type 0} {x : Result M A} {y : Result S A} {a : A} {s : S}
    → Refines R x y
    → y ≡ done a s
    → (m : M) × (x ≡ done a m) × R m s
Refines-done {a} {s} (both_done {a = b} {m} {s = t} w) e =
    let results : b ≡ a = cc in let states : t ≡ s = cc in (m, rw results refl, rw (← states) w)
Refines-done (both_failed w) e = cc
Refines-done both_undefined e = cc

Restored-memory :
    {D : Type 0} {rest : Heap} {m : Memory D} {s : Contents D}
    → Restored rest m s
    → (h : Heap) × (m ≡ memory h s.user s.grants) × SameHeap h rest
Restored-memory (restored {h} same) = (h, refl, same)

module _ {D : Type 0} (fresh : Heap → Ptr) (functions : Functions D) (rounds : ℕ) where
  -- The list is freed, if its data are.
  linked_list_destroy-frees :
      {rest : Heap} {l f c head : Ptr} (ns : Nodes) {h : Heap} (u u' : D) (g : List Bool)
      → Owned rest l f c ns head h
      → length ns < rounds
      → free_items functions f c (data_of ns) (contents (data_of ns) u g)
        ≡ done tt (contents [] u' g)
      → (h' : Heap) × (linked_list_destroy fresh functions rounds l (memory h u g)
          ≡ done tt (memory h' u' g))
        × SameHeap h' rest
  linked_list_destroy-frees {rest} {l} {f} {c} ns u u' g o short e =
      let (m, run, w) =
        Refines-done (destroy-Restored fresh functions rounds rest l f c ns u g o short) e in
      let (h', is_memory, same) = Restored-memory w in (h', rw is_memory at run, same)

  destroy_owned-frees :
      {p l : Ptr} {s : Owners D} {objects : Objects Ptr} {m : Memory D}
      (call : Call (Memory D) (Unit {0}))
      → Splits p l s.objects objects
      → call s.lists ≡ done tt m
      → destroy_owned call p s ≡ done tt (record { objects = objects; lists = m })
  unfolding destroy_owned free_owner
  destroy_owned-frees call w e = rw (e, free_object-Splits w) refl

-- A transaction that is freed by a list.
free_data-Splits :
    {p : Ptr} {x : Transaction} {o rest : Objects Transaction} (f : Ptr)
    → (f ≡ at_free) ⊎ (f ≡ at_transaction_destroy)
    → Splits p x o rest
    → on_transactions.free_data f p o ≡ some rest
unfolding transaction_destroy given
free_data-Splits {p} f is_free w =
    let not_null : (p == null) ≡ false = let ne = w.ne_null in ground arith in
    elim is_free [
      | inl e ↦ rw (e, not_null, free_object-Splits w) refl
      | inr e ↦ rw (e, not_null, free_object-Splits w) refl
    ]

free_items-OwnsAll :
    (f c : Ptr) (g : List Bool)
    → (f ≡ at_free) ⊎ (f ≡ at_transaction_destroy)
    → {ps : List Ptr} {o rest : Objects Transaction} → OwnsAll ps o rest
    → free_items on_transactions f c ps (contents ps o g) ≡ done tt (contents [] rest g)
unfolding free_items free_item
free_items-OwnsAll f c g is_free nothing = refl
free_items-OwnsAll f c g is_free (another w v) =
    rw (free_item, free_data-Splits f is_free w) (free_items-OwnsAll f c g is_free v)

module _ (fresh : Heap → Ptr) (rounds : ℕ) where
  transactions_destroyed :
      {l : Ptr} {m rest : Memory (Objects Transaction)}
      → OwnsTransactions rounds l m rest
      → (m' : Memory (Objects Transaction)) × (linked_list_destroy fresh on_transactions rounds l m
          ≡ done tt m')
        × SameMemory (◌≡◌) m' rest
  transactions_destroyed {m} {rest} (made_with f is_free w) =
      let (h', run, same) =
        linked_list_destroy-frees fresh on_transactions rounds w.nodes m.user rest.user m.grants
          w.owned w.short (free_items-OwnsAll f w.compare_function m.grants is_free w.its_data) in
      (
        memory h' rest.user m.grants,
        run,
        record { heaps = same; users = refl; grants = w.same_grants },
      )

  block_destroy-frees :
      {p l : Ptr} {s rest : Blocks}
      → Splits p l s.objects rest.objects
      → OwnsTransactions rounds l s.lists rest.lists
      → (s' : Blocks) × (block_destroy fresh rounds p s ≡ done tt s') × SameBlocks s' rest
  unfolding block_destroy
  block_destroy-frees {s} {rest} w v =
      let (m', run, same) = transactions_destroyed v in
      (
        record { objects = rest.objects; lists = m' },
        rw
            (
              given-not_null s w.ne_null,
              load_owner-Splits s w,
              destroy_owned-frees fresh on_transactions rounds _ w run,
            )
            refl,
        record { objects = refl; lists = same },
      )

  -- Each block is freed in the memory that is left by the ones before it.
  free_items-OwnsBlocks :
      (c : Ptr) (g : List Bool) {ps : List Ptr} {s rest : Blocks} (t : Blocks)
      → SameBlocks t s
      → OwnsBlocks rounds ps s rest
      → (s' : Blocks) × (free_items (on_blocks fresh rounds) at_block_destroy c ps (contents ps t g)
          ≡ done tt (contents [] s' g))
        × SameBlocks s' rest
  unfolding free_items free_item
  free_items-OwnsBlocks c g t same (no_block same') = (t, refl, SameBlocks-trans same same')
  free_items-OwnsBlocks c g t same (a_block {p} {s'} w v others) =
      let (t', run, same') =
        block_destroy-frees {s = t} (Splits-same same.objects w)
          (OwnsTransactions-same same.lists v) in
      let (s'', runs, same'') = free_items-OwnsBlocks c g t' same' others in
      (s'', rw (free_item, run) runs, same'')

  -- The blockchain's part of the memory is freed, and the rest is left.
  pub blockchain_destroy-Frees :
      {p : Ptr} {s rest : Chains}
      → OwnsChain rounds p s rest
      → (s' : Chains) × (blockchain_destroy fresh rounds p s ≡ done tt s') × SameChains s' rest
  unfolding blockchain_destroy
  blockchain_destroy-Frees {s} {rest} o =
      let w = o.struct in
      let b = o.blocks in
      let (u', freed, same) =
        free_items-OwnsBlocks b.compare_function s.lists.grants s.lists.user
          (record {
            objects = refl;
            lists = record { heaps = λ a. refl; users = refl; grants = refl };
          })
          b.its_data in
      let (h', run, heaps) =
        linked_list_destroy-frees fresh (on_blocks fresh rounds) rounds b.nodes s.lists.user u'
          s.lists.grants b.owned b.short freed in
      (
        record { objects = rest.objects; lists = memory h' u' s.lists.grants },
        rw
            (
              given-not_null s w.ne_null,
              load_owner-Splits s w,
              destroy_owned-frees fresh (on_blocks fresh rounds) rounds _ w run,
            )
            refl,
        record {
          objects = refl;
          lists = record { heaps = heaps; users = same; grants = b.same_grants };
        },
      )

  -- If the memory is a synchronized blockchain at `p` with its blockchain, the blocks and their
  -- transactions, in lists of fewer nodes than `rounds`, and apart from that anything, then
  -- `synchronized_blockchain_destroy` returns SUCCESS and leaves exactly the rest: each of these
  -- objects has been freed once, and nothing else has.
  pub synchronized_blockchain_destroy-Frees :
      {p : Ptr} {s rest : Syncs}
      → OwnsSync rounds p s rest
      → (s' : Syncs) × (synchronized_blockchain_destroy fresh rounds p s ≡ done tt s')
        × SameSyncs s' rest
  unfolding synchronized_blockchain_destroy on_chains free_sync
  synchronized_blockchain_destroy-Frees {s} {rest} o =
      let w = o.struct in
      let (c', run, same) = blockchain_destroy-Frees o.chain in
      (
        record { syncs = rest.syncs; chains = c' },
        rw (given-not_null s w.ne_null, load_sync-Splits s w, run, free_object-Splits w) refl,
        record { syncs = refl; chains = same },
      )
