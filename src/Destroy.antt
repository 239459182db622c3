-- ===== src/Destroy.antt =====
-- transaction_destroy of src/transaction.c, block_destroy of src/block.c, blockchain_destroy and
-- synchronized_blockchain_destroy of src/blockchain.c. Objects of one type never share memory with
-- those of another, so the objects of each type have a memory of their own, from an address to what
-- is there; for the lists of transactions and of blocks this is the heap of Store.
pub mod Owns
pub mod Frees
use theblockchainkiller.Base.{ℕ, Option, none, some, ◌==◌, if◌then◌else◌}
use theblockchainkiller.Blockchain.{Transaction}
use theblockchainkiller.Store.{
  Ptr, null, Heap, Memory, Result, done, failed, undefined, unfinished, Call, ◌>>=◌, ◌>>◌,
  on_success, given,
}
use theblockchainkiller.Store.Objects.{Objects, free_object, at_free, ignoring_code, library_free}
use theblockchainkiller.LinkedList.{Functions, linked_list_destroy}

unfoldable pub transaction_destroy : Ptr → Call (Objects Transaction) (Unit {0})
transaction_destroy p = do given p; free_object p

-- The functions that the program gives to `linked_list_create` to free data, at their addresses.
abbrev pub at_transaction_destroy : Ptr
at_transaction_destroy = 2

abbrev pub at_block_destroy : Ptr
at_block_destroy = 3

-- Lists of transactions are made with either of two free functions, and no compare function.
abbrev pub on_transactions : Functions (Objects Transaction)
on_transactions = record {
  free_data = λ f p o.
      if f == at_free
      then ignoring_code (library_free p o)
      else (if f == at_transaction_destroy then ignoring_code (transaction_destroy p o) else none);
  compare_equal = λ c d1 d2 o. none;
}

-- Objects that have a pointer to a list, such as `block_t` and `blockchain_t`: the pointer at each
-- address, and the memory of the lists.
pub record Owners (D : Type 0) : Type 0 where
  pub objects : Objects Ptr
  pub lists : Memory D

-- A call on a part of the memory.
abbrev pub inside : {S T : Type 0} → (S → T) → Result S (Unit {0}) → Result T (Unit {0})
inside whole (done _ s) = done tt (whole s)
inside whole (failed c s) = failed c (whole s)
inside whole undefined = undefined
inside whole unfinished = unfinished

-- A step behind a call, whatever the call's code is, which is returned.
abbrev pub then_always :
    {S : Type 0} → Result S (Unit {0}) → Call S (Unit {0}) → Result S (Unit {0})
then_always (done _ s) next = next s
then_always (failed c s) next = on_success (next s) λ _. failed c
then_always undefined next = undefined
then_always unfinished next = unfinished

module _ {D : Type 0} where
  unfoldable pub load_owner : Ptr → Call (Owners D) Ptr
  load_owner p s = elim (s.objects p) as (λ _. Result (Owners D) Ptr) [
    | some l ↦ done l s
    | none ↦ undefined
  ]

  unfoldable pub free_owner : Ptr → Call (Owners D) (Unit {0})
  free_owner p s = inside (λ o. record s { objects = o }) (free_object p s.objects)

  -- `linked_list_destroy` of the list at `l`, and the release of its owner behind it.
  unfoldable pub destroy_owned : Call (Memory D) (Unit {0}) → Ptr → Call (Owners D) (Unit {0})
  destroy_owned destroy_list p s =
      then_always (inside (λ m. record s { lists = m }) (destroy_list s.lists)) (free_owner p)

module _ (fresh : Heap → Ptr) (rounds : ℕ) where
  unfoldable pub block_destroy : Ptr → Call (Owners (Objects Transaction)) (Unit {0})
  block_destroy p = do
    given p
    l ← load_owner p
    destroy_owned (linked_list_destroy fresh on_transactions rounds l) p

  abbrev pub on_blocks : Functions (Owners (Objects Transaction))
  on_blocks = record {
    free_data = λ f p s. if f == at_block_destroy then ignoring_code (block_destroy p s) else none;
    compare_equal = λ c d1 d2 s. none;
  }

  unfoldable pub blockchain_destroy : Ptr → Call (Owners (Owners (Objects Transaction))) (Unit {0})
  blockchain_destroy p = do
    given p
    l ← load_owner p
    destroy_owned (linked_list_destroy fresh on_blocks rounds l) p

-- `synchronized_blockchain_t` at each address, with its blockchain's.
pub record Syncs : Type 0 where
  pub syncs : Objects Ptr
  pub chains : Owners (Owners (Objects Transaction))

unfoldable pub load_sync : Ptr → Call Syncs Ptr
load_sync p s = elim (s.syncs p) as (λ _. Result Syncs Ptr) [ some c ↦ done c s | none ↦ undefined ]

unfoldable pub free_sync : Ptr → Call Syncs (Unit {0})
free_sync p s = inside (λ o. record s { syncs = o }) (free_object p s.syncs)

unfoldable pub on_chains :
    Call (Owners (Owners (Objects Transaction))) (Unit {0}) → Call Syncs (Unit {0})
on_chains call s = inside (λ c. record s { chains = c }) (call s.chains)

module _ (fresh : Heap → Ptr) (rounds : ℕ) where
  unfoldable pub synchronized_blockchain_destroy : Ptr → Call Syncs (Unit {0})
  synchronized_blockchain_destroy p = do
    given p
    c ← load_sync p
    on_chains (blockchain_destroy fresh rounds c)
    free_sync p
