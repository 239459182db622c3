-- ===== src/Blockchain/Serialize/Cost.antt =====
-- What `blockchain_serialize` returns, for any number of allocations that succeed.
use theblockchainkiller.Base.{
  ℕ, zero, suc, ◌-◌, ◌≡◌, ◌∙◌, List, [], ◌∷◌, ◌++◌, append_assoc, append-nil, arith, length, leb,
  if◌then◌else◌,
}
use theblockchainkiller.Runtime.{Outcome, ok, err, could_not_malloc}
use theblockchainkiller.Endian.{Host, Bytes}
use theblockchainkiller.Buffer.{malloc}
use theblockchainkiller.Blockchain.{Transaction, Block, Blockchain}
use theblockchainkiller.Blockchain.Serialize.{
  transaction_bytes, block_header_bytes, serialize_transactions, serialize_blocks,
  blockchain_serialize,
}
use theblockchainkiller.Blockchain.Format.{
  transactions_bytes, blocks_bytes, chain_bytes, blocks_write_cost, write_cost,
}

-- A buffer with what is left of `n` allocations after `k`, or the failure of one.
abbrev pub spend : ℕ → ℕ → Bytes → Outcome (Bytes × ℕ)
spend k n bytes = if leb k n then ok (bytes, n - k) else err could_not_malloc

module _ (h : Host) where
  serialize_transactions-spend :
      (ts : List Transaction) (buf : Bytes) (n : ℕ)
      → serialize_transactions h ts buf n ≡ spend (length ts) n (buf ++ transactions_bytes h ts)
  unfolding serialize_transactions transactions_bytes malloc
  serialize_transactions-spend [] buf n = rw append-nil (ground arith)
  serialize_transactions-spend (t ∷ ts) buf zero = ground arith
  serialize_transactions-spend (t ∷ ts) buf (suc n) =
      serialize_transactions-spend ts (buf ++ transaction_bytes h t) n
      ∙ rw append_assoc (ground arith)

  serialize_blocks-spend :
      (bs : List Block) (buf : Bytes) (n : ℕ)
      → serialize_blocks h bs buf n ≡ spend (blocks_write_cost bs) n (buf ++ blocks_bytes h bs)
  unfolding serialize_blocks blocks_bytes malloc
  serialize_blocks-spend [] buf n = rw append-nil (ground arith)
  serialize_blocks-spend (b ∷ bs) buf zero = ground arith
  serialize_blocks-spend (b ∷ bs) buf (suc n) =
      rw (serialize_transactions-spend b.transaction_list (buf ++ block_header_bytes h b) n) (
        ground (
          arith,
          serialize_blocks-spend bs
              (buf ++ block_header_bytes h b ++ transactions_bytes h b.transaction_list)
              (n - length b.transaction_list),
          append_assoc (buf ++ block_header_bytes h b) (transactions_bytes h b.transaction_list)
              (blocks_bytes h bs),
          append_assoc buf (block_header_bytes h b)
              (transactions_bytes h b.transaction_list ++ blocks_bytes h bs),
        ))

  -- `blockchain_serialize` returns the bytes of the chain when one allocation, one for each block
  -- and one for each transaction succeed, and FAILURE_COULD_NOT_MALLOC when fewer do.
  pub blockchain_serialize-spend :
      (c : Blockchain) (n : ℕ)
      → blockchain_serialize h c n ≡ spend (write_cost c) n (chain_bytes h c)
  unfolding blockchain_serialize chain_bytes malloc
  blockchain_serialize-spend c zero = ground arith
  blockchain_serialize-spend c (suc n) =
      serialize_blocks-spend c.block_list _ n ∙ rw append_assoc (ground arith)
