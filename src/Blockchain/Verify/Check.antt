-- ===== src/Blockchain/Verify/Check.antt =====
-- `blockchain_verify` accepts exactly the valid blockchains.
use theblockchainkiller.Base.{
  ℕ, ◌≤◌, ◌≡◌, refl, ◌↔◌, true, false, none, some, List, [], ◌∷◌, arith, All, length,
}
use theblockchainkiller.Runtime.{ok}
use theblockchainkiller.Endian.{Host, Bytes}
use theblockchainkiller.Crypto.{OpenSsl, max_ssh_key_length, sha256_digest_length}
use theblockchainkiller.Memory.{memcmp_differs}
use theblockchainkiller.Memory.Laws.{memcmp_differs_self, memcmp_differs-eq}
use theblockchainkiller.Blockchain.{Transaction, Block, Blockchain}
use theblockchainkiller.Blockchain.Shape.{HasKeys, IsShapedBlock, IsShaped}
use theblockchainkiller.Block.{zero_hash, block_hash}
use theblockchainkiller.Blockchain.Verify.{
  Verdict, valid, verify_signatures, minting_is_invalid, check_transactions, check_block,
  verify_blocks, genesis_is_invalid, verify_list, blockchain_verify,
}
use theblockchainkiller.Blockchain.Verify.Hash.{memcmp_zero_iff}
use theblockchainkiller.Blockchain.Verify.Valid.{
  Minted, IsGenesis, IsSigned, IsNext, AreNext, IsValidList, IsValid,
}

memcmp_iff :
    (a b : Bytes) (n : ℕ)
    → length a ≡ n
    → length b ≡ n
    → (memcmp_differs a b n ≡ ok false) ↔ (a ≡ b)
memcmp_iff a b n ha hb =
    (memcmp_differs-eq a b n ha hb, λ e. rw (← e) (memcmp_differs_self a n (omega arith)))

module _ (h : Host) (ssl : OpenSsl) where
  verify_signatures_iff :
      (ts : List Transaction) → (verify_signatures h ssl ts ≡ ok true) ↔ All (IsSigned h ssl) ts
  unfolding verify_signatures
  verify_signatures_iff [] = (λ _. tt, λ _. refl)
  verify_signatures_iff (t ∷ ts) =
      (λ e. ground (arith, verify_signatures_iff ts), λ s. ground (arith, verify_signatures_iff ts))

  minting_is_invalid_iff :
      (t : Transaction) (ts : List Transaction)
      → HasKeys t
      → (minting_is_invalid h ssl t ≡ ok false) ↔ Minted (t ∷ ts)
  unfolding minting_is_invalid
  minting_is_invalid_iff t ts w =
      let i =
        memcmp_iff t.sender_public_key t.recipient_public_key max_ssh_key_length w.sender_fits
          w.recipient_fits in
      (λ e. ground (arith, i), λ m. ground (arith, i))

  check_transactions_iff :
      (b : Block) (ts : List Transaction)
      → All HasKeys ts
      → (check_transactions h ssl b ts ≡ ok none) ↔ (Minted ts × All (IsSigned h ssl) ts)
  unfolding check_transactions
  check_transactions_iff b [] w = (λ e. cc, λ m. absurd m.0)
  check_transactions_iff b (t ∷ ts) w =
      let i = minting_is_invalid_iff t ts w.0 in
      let j = verify_signatures_iff (t ∷ ts) in
      (λ e. (i.0 (passed_minting e), j.0 (passed_signatures e)), λ m. rw (i.1 m.0, j.1 m.1))
    where
      passed_minting :
          check_transactions h ssl b (t ∷ ts) ≡ ok none → minting_is_invalid h ssl t ≡ ok false
      passed_minting e = ground arith

      passed_signatures :
          check_transactions h ssl b (t ∷ ts) ≡ ok none → verify_signatures h ssl (t ∷ ts) ≡ ok true
      passed_signatures e = ground arith

  -- A round that ends the loop does not accept the blockchain.
  check_transactions_rejects :
      (b : Block) (ts : List Transaction) (v : Verdict)
      → check_transactions h ssl b ts ≡ ok (some v)
      → v.is_valid_blockchain ≡ false
  unfolding check_transactions
  check_transactions_rejects b [] v e = ground arith
  check_transactions_rejects b (t ∷ ts) v e = ground arith

  pub check_block_rejects :
      (required : ℕ) (previous : Bytes) (b : Block) (v : Verdict)
      → check_block h ssl required previous b ≡ ok (some v)
      → v.is_valid_blockchain ≡ false
  unfolding check_block
  check_block_rejects required previous b v e =
      ground (arith, check_transactions_rejects b b.transaction_list v)

  pub length-block_hash : (b : Block) → length (block_hash h ssl b) ≡ sha256_digest_length
  unfolding block_hash
  length-block_hash b = ssl.length-sha256 _

  module _ (required : ℕ) (in_digest : required ≤ sha256_digest_length) where
    check_block_iff :
        (previous : Bytes) (b : Block)
        → IsShapedBlock b
        → length previous ≡ sha256_digest_length
        → (check_block h ssl required previous b ≡ ok none) ↔ IsNext h ssl required previous b
    unfolding check_block
    check_block_iff previous b w hp =
        let i = memcmp_zero_iff required sha256_digest_length (block_hash h ssl b) in_digest in
        let j = memcmp_iff b.previous_block_hash previous sha256_digest_length w.hash_fits hp in
        let k = check_transactions_iff b b.transaction_list w.keys in
        (
          λ e. (record {
            leading = i.0 (passed_hash e);
            linked = j.0 (passed_link e);
            minted = (k.0 (passed_transactions e)).0;
            signed = (k.0 (passed_transactions e)).1;
          }),
          λ v. rw (i.1 v.leading, j.1 v.linked, k.1 (v.minted, v.signed)),
        )
      where
        passed_hash :
            check_block h ssl required previous b ≡ ok none
            → memcmp_differs (block_hash h ssl b) zero_hash required ≡ ok false
        passed_hash e = ground arith

        passed_link :
            check_block h ssl required previous b ≡ ok none
            → memcmp_differs b.previous_block_hash previous sha256_digest_length ≡ ok false
        passed_link e = ground arith

        passed_transactions :
            check_block h ssl required previous b ≡ ok none
            → check_transactions h ssl b b.transaction_list ≡ ok none
        passed_transactions e = ground arith

    verify_blocks_iff :
        (previous : Bytes) (bs : List Block)
        → All IsShapedBlock bs
        → length previous ≡ sha256_digest_length
        → (verify_blocks h ssl required previous bs ≡ ok valid) ↔ AreNext h ssl required previous bs
    unfolding verify_blocks
    verify_blocks_iff previous [] w hp = (λ _. tt, λ _. refl)
    verify_blocks_iff previous (b ∷ bs) w hp =
        let i = check_block_iff previous b w.0 hp in
        let j = verify_blocks_iff (block_hash h ssl b) bs w.1 (length-block_hash b) in
        (λ e. (i.0 (passed_block e), j.0 (passed_rest e)), λ v. rw (i.1 v.0) (j.1 v.1))
      where
        passed_block :
            verify_blocks h ssl required previous (b ∷ bs) ≡ ok valid
            → check_block h ssl required previous b ≡ ok none
        passed_block e = ground (arith, check_block_rejects required previous b valid)

        passed_rest :
            verify_blocks h ssl required previous (b ∷ bs) ≡ ok valid
            → verify_blocks h ssl required (block_hash h ssl b) bs ≡ ok valid
        passed_rest e = ground (arith, check_block_rejects required previous b valid)

  genesis_is_invalid_iff :
      (g : Block) → IsShapedBlock g → (genesis_is_invalid h ssl g ≡ ok false) ↔ IsGenesis g
  unfolding genesis_is_invalid
  genesis_is_invalid_iff g w =
      let i = memcmp_iff g.previous_block_hash zero_hash sha256_digest_length w.hash_fits refl in
      (λ e. ground (arith, i), λ v. rw (v.no_transaction, v.proof) (i.1 v.no_previous))

  verify_list_iff :
      (required : ℕ)
      → required ≤ sha256_digest_length
      → (bs : List Block) → All IsShapedBlock bs
      → (verify_list h ssl required bs ≡ ok valid) ↔ IsValidList h ssl required bs
  unfolding verify_list
  verify_list_iff required in_digest [] w = (λ _. tt, λ _. refl)
  verify_list_iff required in_digest (g ∷ bs) w =
      let i = genesis_is_invalid_iff g w.0 in
      let j =
        verify_blocks_iff required in_digest (block_hash h ssl g) bs w.1 (length-block_hash g) in
      (λ e. (i.0 (passed_genesis e), j.0 (passed_rest e)), λ v. rw (i.1 v.0) (j.1 v.1))
    where
      passed_genesis :
          verify_list h ssl required (g ∷ bs) ≡ ok valid → genesis_is_invalid h ssl g ≡ ok false
      passed_genesis e = ground arith

      passed_rest :
          verify_list h ssl required (g ∷ bs) ≡ ok valid
          → verify_blocks h ssl required (block_hash h ssl g) bs ≡ ok valid
      passed_rest e = ground arith

  -- If the required number of zero bytes is within the digest, `blockchain_verify` returns SUCCESS
  -- and says that a blockchain whose keys and hashes have their arrays' lengths is valid exactly
  -- when it is.
  pub blockchain_verify_iff :
      (c : Blockchain)
      → IsShaped c
      → c.num_leading_zero_bytes_required_in_block_hash ≤ sha256_digest_length
      → (blockchain_verify h ssl c ≡ ok valid) ↔ IsValid h ssl c
  unfolding blockchain_verify
  blockchain_verify_iff c w in_digest = verify_list_iff _ in_digest c.block_list w
