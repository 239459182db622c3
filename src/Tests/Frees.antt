-- ===== src/Tests/Frees.antt =====
-- A blockchain of two blocks, of which the second has a transaction, in a memory with a block and a
-- node that are not its own.
use theblockchainkiller.Base.{◌≡◌, refl, none, some, [], ◌∷◌, ◌==◌, if◌then◌else◌, arith, inl, inr}
use theblockchainkiller.Store.{Ptr, null, node, linked_list, Heap, memory, look, done}
use theblockchainkiller.Store.Chain.{empty, linked, Owned}
use theblockchainkiller.Store.Objects.{Objects, at_free, nothing, another}
use theblockchainkiller.Destroy.{
  Syncs, at_transaction_destroy, at_block_destroy, synchronized_blockchain_destroy,
}
use theblockchainkiller.Destroy.Owns.{made_with, OwnsBlocks, no_block, a_block, OwnsSync, SameSyncs}
use theblockchainkiller.Destroy.Frees.{synchronized_blockchain_destroy-Frees}
use theblockchainkiller.Tests.Sample.{minting}

abbrev one : {A : Type 0} → Ptr → A → Objects A → Objects A
one p x o a = if a == p then some x else o a

abbrev only_ours : {A : Type 0} → Objects A
only_ours a = none

abbrev left_blocks : Objects Ptr
left_blocks = one 75 0 only_ours

abbrev left_heap : Heap
left_heap = (5, node 90 0) ∷ []

abbrev second_list : Heap
second_list = (81, linked_list at_free null 82) ∷ (82, node 91 null) ∷ left_heap

abbrev both_lists : Heap
both_lists = (80, linked_list at_transaction_destroy null null) ∷ second_list

abbrev block_nodes : Heap
block_nodes =
    (60, linked_list at_block_destroy null 61) ∷ (61, node 70 62) ∷ (62, node 71 null) ∷ []

abbrev full : Syncs
full = record {
  syncs = one 40 50 only_ours;
  chains = record {
    objects = one 50 60 only_ours;
    lists =
        memory block_nodes
          (record {
            objects = one 70 80 (one 71 81 left_blocks);
            lists = memory both_lists (one 91 (minting 1) only_ours) [];
          })
          [];
  };
}

abbrev left : Syncs
left = record {
  syncs = only_ours;
  chains = record {
    objects = only_ours;
    lists = memory [] (record { objects = left_blocks; lists = memory left_heap only_ours [] }) [];
  };
}

first-Owned : Owned second_list 80 at_transaction_destroy null [] null both_lists
unfolding look
first-Owned = record {
  chain = empty;
  ne_null = omega arith;
  struct = refl;
  outside = λ a e i. ground arith;
  apart = λ a i. cc;
  list_apart = refl;
}

second-Owned : Owned left_heap 81 at_free null ((82, 91) ∷ []) 82 second_list
unfolding look
second-Owned = record {
  chain = linked empty (omega arith) refl refl;
  ne_null = omega arith;
  struct = refl;
  outside = λ a e i. ground arith;
  apart = λ a i. ground arith;
  list_apart = refl;
}

blocks-Owned : Owned [] 60 at_block_destroy null ((61, 70) ∷ (62, 71) ∷ []) 61 block_nodes
unfolding look
blocks-Owned = record {
  chain = linked (linked empty (omega arith) refl refl) (omega arith) refl refl;
  ne_null = omega arith;
  struct = refl;
  outside = λ a e i. ground arith;
  apart = λ a i. refl;
  list_apart = refl;
}

both-OwnsBlocks : OwnsBlocks 5 (70 ∷ 71 ∷ []) full.chains.lists.user left.chains.lists.user
both-OwnsBlocks =
    a_block
      {s' = record {
        objects = one 71 81 left_blocks;
        lists = memory second_list (one 91 (minting 1) only_ours) [];
      }}
      (record { ne_null = omega arith; here = refl; others = λ a. ground arith })
      (made_with at_transaction_destroy (inr refl) (record {
        compare_function = null;
        nodes = [];
        head = null;
        owned = first-Owned;
        its_data = nothing;
        short = omega arith;
        same_grants = refl;
      }))
      (a_block {s' = left.chains.lists.user}
        (record { ne_null = omega arith; here = refl; others = λ a. ground arith })
        (made_with at_free (inl refl) (record {
          compare_function = null;
          nodes = (82, 91) ∷ [];
          head = 82;
          owned = second-Owned;
          its_data =
              another (record { ne_null = omega arith; here = refl; others = λ a. ground arith })
                nothing;
          short = omega arith;
          same_grants = refl;
        }))
        (no_block (record {
          objects = refl;
          lists = record { heaps = λ a. refl; users = refl; grants = refl };
        })))

full-OwnsSync : OwnsSync 5 40 full left
full-OwnsSync = record {
  blockchain = 50;
  struct = record { ne_null = omega arith; here = refl; others = λ a. ground arith };
  chain = record {
    block_list = 60;
    struct = record { ne_null = omega arith; here = refl; others = λ a. ground arith };
    blocks = record {
      compare_function = null;
      nodes = (61, 70) ∷ (62, 71) ∷ [];
      head = 61;
      owned = blocks-Owned;
      its_data = both-OwnsBlocks;
      short = omega arith;
      same_grants = refl;
    };
  };
}

synchronized_blockchain_destroy-Frees_example :
    (s : Syncs) × (synchronized_blockchain_destroy (λ h. 1) 5 40 full ≡ done tt s)
    × SameSyncs s left
synchronized_blockchain_destroy-Frees_example =
    synchronized_blockchain_destroy-Frees (λ h. 1) 5 full-OwnsSync
