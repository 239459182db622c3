-- ===== src/Destroy/Owns.antt =====
-- What it means that a part of the memory is a blockchain, and what is left of it without that.
use theblockchainkiller.Base.{ℕ, ◌<◌, ◌≡◌, ◌∙◌, List, [], ◌∷◌, ◌⊎◌, length}
use theblockchainkiller.Blockchain.{Transaction}
use theblockchainkiller.Store.{Ptr, Heap, Memory, look}
use theblockchainkiller.Store.Chain.{Nodes, data_of, Owned, Chain-same}
use theblockchainkiller.Store.Objects.{Objects, at_free, Splits, OwnsAll}
use theblockchainkiller.Destroy.{Owners, Syncs, at_transaction_destroy, at_block_destroy}

-- Two heaps with the same cell at every address, and two memories with such heaps.
abbrev pub SameHeap : Heap → Heap → Type 0
SameHeap h g = (a : Ptr) → look a h ≡ look a g

pub record SameMemory {D : Type 0} (same : D → D → Type 0) (m n : Memory D) : Type 0 where
  pub heaps : SameHeap m.heap n.heap
  pub users : same m.user n.user
  pub grants : m.grants ≡ n.grants

pub record SameOwners {D : Type 0} (same : D → D → Type 0) (s t : Owners D) : Type 0 where
  pub objects : s.objects ≡ t.objects
  pub lists : SameMemory same s.lists t.lists

-- `m` is a list at `l` with the free function `f`, of fewer than `rounds` nodes, with its data, and
-- apart from that `rest`.
pub record OwnsList {D : Type 0} (owns : List Ptr → D → D → Type 0) (rounds : ℕ) (l f : Ptr)
    (m rest : Memory D) : Type 0 where
  pub compare_function : Ptr
  pub nodes : Nodes
  pub head : Ptr
  pub owned : Owned rest.heap l f compare_function nodes head m.heap
  pub its_data : owns (data_of nodes) m.user rest.user
  pub short : length nodes < rounds
  pub same_grants : m.grants ≡ rest.grants

-- A list of transactions, made with either free function.
pub data OwnsTransactions (rounds : ℕ) (l : Ptr) (m rest : Memory (Objects Transaction))
    : Type 0 where
  made_with :
      (f : Ptr)
      → (f ≡ at_free) ⊎ (f ≡ at_transaction_destroy)
      → OwnsList OwnsAll rounds l f m rest
      → OwnsTransactions rounds l m rest

abbrev pub Blocks : Type 0
Blocks = Owners (Objects Transaction)

abbrev pub SameBlocks : Blocks → Blocks → Type 0
SameBlocks = SameOwners (◌≡◌)

-- A block at each address, with its list of transactions, and apart from them `rest`.
pub data OwnsBlocks (rounds : ℕ) : List Ptr → Blocks → Blocks → Type 0 where
  no_block : {s rest : Blocks} → SameBlocks s rest → OwnsBlocks rounds [] s rest
  a_block :
      {p l : Ptr} {ps : List Ptr} {s s' rest : Blocks}
      → Splits p l s.objects s'.objects
      → OwnsTransactions rounds l s.lists s'.lists
      → OwnsBlocks rounds ps s' rest
      → OwnsBlocks rounds (p ∷ ps) s rest

abbrev pub Chains : Type 0
Chains = Owners Blocks

abbrev pub SameChains : Chains → Chains → Type 0
SameChains = SameOwners SameBlocks

-- A blockchain at `p`, with all its blocks.
pub record OwnsChain (rounds : ℕ) (p : Ptr) (s rest : Chains) : Type 0 where
  pub block_list : Ptr
  pub struct : Splits p block_list s.objects rest.objects
  pub blocks : OwnsList (OwnsBlocks rounds) rounds block_list at_block_destroy s.lists rest.lists

pub record OwnsSync (rounds : ℕ) (p : Ptr) (s rest : Syncs) : Type 0 where
  pub blockchain : Ptr
  pub struct : Splits p blockchain s.syncs rest.syncs
  pub chain : OwnsChain rounds blockchain s.chains rest.chains

pub record SameSyncs (s t : Syncs) : Type 0 where
  pub syncs : s.syncs ≡ t.syncs
  pub chains : SameChains s.chains t.chains

-- Ownership looks at the cells of a heap, and not at their order.
Owned-same :
    {rest h g : Heap} {l f c head : Ptr} {ns : Nodes}
    → Owned rest l f c ns head h
    → SameHeap g h
    → Owned rest l f c ns head g
Owned-same {l} o same = record {
  chain = Chain-same o.chain λ a _. same a;
  ne_null = o.ne_null;
  struct = same l ∙ o.struct;
  outside = λ a e i. same a ∙ o.outside a e i;
  apart = o.apart;
  list_apart = o.list_apart;
}

pub OwnsTransactions-same :
    {rounds : ℕ} {l : Ptr} {m n rest : Memory (Objects Transaction)}
    → SameMemory (◌≡◌) n m
    → OwnsTransactions rounds l m rest
    → OwnsTransactions rounds l n rest
OwnsTransactions-same same (made_with f is_free w) = made_with f is_free (record {
  compare_function = w.compare_function;
  nodes = w.nodes;
  head = w.head;
  owned = Owned-same w.owned same.heaps;
  its_data = rw same.users w.its_data;
  short = w.short;
  same_grants = same.grants ∙ w.same_grants;
})

pub SameBlocks-trans : {s t u : Blocks} → SameBlocks s t → SameBlocks t u → SameBlocks s u
SameBlocks-trans e e' = record {
  objects = e.objects ∙ e'.objects;
  lists = record {
    heaps = λ a. e.lists.heaps a ∙ e'.lists.heaps a;
    users = e.lists.users ∙ e'.lists.users;
    grants = e.lists.grants ∙ e'.lists.grants;
  };
}
