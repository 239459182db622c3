-- ===== src/Blockchain/Deserialize/Reads.antt =====
-- What `blockchain_deserialize` gets from the bytes that `blockchain_serialize` writes.
use theblockchainkiller.Base.{
  ℕ, suc, ◌+◌, ◌*◌, ◌≤◌, ◌≡◌, List, [], ◌∷◌, ◌++◌, append_assoc, append-nil, arith, length,
  length-append, All, le→leb,
}
use theblockchainkiller.Runtime.{ok}
use theblockchainkiller.Endian.{Host, Bytes}
use theblockchainkiller.Crypto.{max_ssh_key_length}
use theblockchainkiller.Buffer.{cursor, malloc, allocate}
use theblockchainkiller.Buffer.Laws.{
  read_u64-be64, read_array-append, take_bytes-append, require_enough,
}
use theblockchainkiller.Blockchain.{Transaction, Block, Blockchain, blockchain_add_block}
use theblockchainkiller.Blockchain.Serialize.{transaction_bytes, block_header_bytes}
use theblockchainkiller.Blockchain.Deserialize.{
  read_transaction, read_transactions, read_block, read_blocks, blockchain_deserialize,
}
use theblockchainkiller.Blockchain.Format.{
  transactions_bytes, blocks_bytes, chain_bytes, IsTransaction, IsBlock, IsBlockchain,
  blocks_read_cost, read_cost,
}

module _ (h from : Host) where
  read_transaction-bytes :
      (t : Transaction) (a : ℕ) (rest : Bytes)
      → IsTransaction t
      → read_transaction h (cursor (suc a) (transaction_bytes from t ++ rest))
        ≡ ok (t, cursor a rest)
  unfolding read_transaction transaction_bytes allocate
  read_transaction-bytes t a rest w = simp append_assoc (
      rw (
        read_u64-be64 h from t.created_at a _ w.created_at_fits,
        read_array-append _ t.sender_public_key _ a w.sender_fits,
        read_array-append _ t.recipient_public_key _ a w.recipient_fits,
        read_u64-be64 h from t.amount a _ w.amount_fits,
        read_u64-be64 h from t.sender_signature.size a _ (omega arith),
        le→leb t.sender_signature.size max_ssh_key_length (omega arith),
        require_enough t.sender_signature.size a _ fits,
        take_bytes-append _ t.sender_signature.bytes rest a w.signature_array,
      ))
    where
      fits : t.sender_signature.size ≤ length (t.sender_signature.bytes ++ rest)
      fits = omega (arith, length-append t.sender_signature.bytes rest)

  read_transactions-bytes :
      (ts acc : List Transaction) (a : ℕ) (rest : Bytes)
      → All IsTransaction ts
      → read_transactions h
          (length ts)
          acc
          (cursor (2 * length ts + a) (transactions_bytes from ts ++ rest))
        ≡ ok (acc ++ ts, cursor a rest)
  unfolding read_transactions transactions_bytes allocate malloc
  read_transactions-bytes [] acc a rest w = let e : 0 + a ≡ a = omega arith in rw (e, append-nil)
  read_transactions-bytes (t ∷ ts) acc a rest w =
      let e : 2 * suc (length ts) + a ≡ suc (suc (2 * length ts + a)) = omega arith in
      rw (
        e,
        append_assoc (transaction_bytes from t) (transactions_bytes from ts) rest,
        read_transaction-bytes t _ (transactions_bytes from ts ++ rest) w.0,
        read_transactions-bytes ts (acc ++ (t ∷ [])) a rest w.1,
        append_assoc acc (t ∷ []) ts,
      )

  read_block-bytes :
      (b : Block) (a : ℕ) (rest : Bytes)
      → IsBlock b
      → read_block h (
          cursor
            (2 + 2 * length b.transaction_list + a)
            (block_header_bytes from b ++ (transactions_bytes from b.transaction_list ++ rest)))
        ≡ ok (b, cursor a rest)
  unfolding read_block block_header_bytes allocate malloc
  read_block-bytes b a rest w =
      let e : 2 + 2 * length b.transaction_list + a ≡ suc (2 * length b.transaction_list + suc a) =
        omega arith in
      simp append_assoc (
        rw (
          e,
          read_u64-be64 h from b.created_at _ _ w.created_at_fits,
          read_array-append _ b.previous_block_hash _ _ w.hash_fits,
          read_u64-be64 h from b.proof_of_work _ _ w.proof_fits,
          read_u64-be64 h from (length b.transaction_list) _ _ w.count_fits,
          read_transactions-bytes b.transaction_list [] (suc a) rest w.transactions,
        ))

  read_blocks-bytes :
      (bs : List Block) (c : Blockchain) (a : ℕ) (rest : Bytes)
      → All IsBlock bs
      → read_blocks h
          (length bs)
          c
          (cursor (blocks_read_cost bs + a) (blocks_bytes from bs ++ rest))
        ≡ ok (record c { block_list = c.block_list ++ bs }, cursor a rest)
  unfolding read_blocks blocks_bytes allocate malloc blockchain_add_block
  read_blocks-bytes [] c a rest w = let e : 0 + a ≡ a = omega arith in rw (e, append-nil)
  read_blocks-bytes (b ∷ bs) c a rest w =
      let e : blocks_read_cost (b ∷ bs) + a
          ≡ 2 + 2 * length b.transaction_list + suc (blocks_read_cost bs + a) =
        omega arith in
      rw (
        e,
        append_assoc (block_header_bytes from b)
            (transactions_bytes from b.transaction_list ++ blocks_bytes from bs) rest,
        append_assoc (transactions_bytes from b.transaction_list) (blocks_bytes from bs) rest,
        read_block-bytes b _ (blocks_bytes from bs ++ rest) w.0,
        read_blocks-bytes bs (blockchain_add_block c b) a rest w.1,
        append_assoc c.block_list (b ∷ []) bs,
      )

  -- `blockchain_deserialize` reads back any blockchain that the C types can hold from its bytes,
  -- which a host of any byte order may have written, and stops behind them, if the allocations
  -- that it makes succeed.
  pub blockchain_deserialize-bytes :
      (c : Blockchain) (a : ℕ) (rest : Bytes)
      → IsBlockchain c
      → blockchain_deserialize h (cursor (read_cost c + a) (chain_bytes from c ++ rest))
        ≡ ok (c, cursor a rest)
  unfolding blockchain_deserialize chain_bytes allocate malloc
  blockchain_deserialize-bytes c a rest w =
      let e : read_cost c + a ≡ suc (suc (blocks_read_cost c.block_list + a)) = omega arith in
      simp append_assoc (
        rw (
          e,
          read_u64-be64 h from c.num_leading_zero_bytes_required_in_block_hash _ _ w.zeros_fit,
          read_u64-be64 h from (length c.block_list) _ _ w.count_fits,
          read_blocks-bytes c.block_list _ a rest w.blocks,
        ))
