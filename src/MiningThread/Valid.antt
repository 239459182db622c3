-- ===== src/MiningThread/Valid.antt =====
-- Mining keeps a blockchain valid.
use theblockchainkiller.Base.{
  ℕ, ◌≤◌, ◌≡◌, refl, sym, ap, ◌∙◌, Bool, true, false, Option, none, some, [], ◌∷◌, ◌⊎◌, inl, inr,
  arith, length, if◌then◌else◌,
}
use theblockchainkiller.Runtime.{ReturnCode, success, ok}
use theblockchainkiller.Endian.{Host, Bytes}
use theblockchainkiller.Crypto.{OpenSsl, max_ssh_key_length, sha256_digest_length}
use theblockchainkiller.Buffer.{malloc}
use theblockchainkiller.Blockchain.{Transaction, Block, Blockchain, blockchain_add_block}
use theblockchainkiller.Blockchain.Shape.{IsShaped}
use theblockchainkiller.Transaction.{amount_generated_during_minting, transaction_create}
use theblockchainkiller.Transaction.Signing.{KeyPair, unsigned, transaction_create-IsSigned}
use theblockchainkiller.Block.{block_create, block_hash}
use theblockchainkiller.Blockchain.Verify.{blockchain_verify}
use theblockchainkiller.Blockchain.Verify.Valid.{IsValid}
use theblockchainkiller.Blockchain.Verify.Check.{blockchain_verify_iff, length-block_hash}
use theblockchainkiller.Blockchain.Verify.Accepts.{blockchain_verify-valid}
use theblockchainkiller.Blockchain.Mine.{with_proof, synchronized_blockchain_mine_block}
use theblockchainkiller.Blockchain.Mine.Search.{Solves, synchronized_blockchain_mine_block-Found}
use theblockchainkiller.MiningThread.{
  Mining, went_on, last, after_search, report_invalid, mine_next, mine_behind, mine_round,
}
use theblockchainkiller.MiningThread.Leads.{
  Leads, leads, led_to, Leads-ends, Leads-undefined, Leads-after,
}
use theblockchainkiller.MiningThread.Extend.{add_block-IsValid, add_block-IsShaped}

module _ (h : Host) (ssl : OpenSsl) (public_key private_key : Bytes) where
  -- A valid blockchain that is the other one or has one more block.
  pub record Extended (c c' : Blockchain) : Type 0 where
    pub grown : (c' ≡ c) ⊎ ((b : Block) × (c' ≡ blockchain_add_block c b))
    pub is_valid : IsValid h ssl c'
    pub is_shaped : IsShaped c'

  after_search-continues :
      (c c' : Blockchain) (n : ℕ) (code code' : ReturnCode) (b : Block)
      → went_on (after_search c n code b) ≡ some (code', c')
      → (c' ≡ c) ⊎ ((code ≡ success) × (c' ≡ blockchain_add_block c b))
  unfolding after_search malloc
  after_search-continues c c' n code code' b e = ground arith

  -- The block that a round searches a proof of work for.
  abbrev candidate : ℕ → Transaction → Block → Block
  candidate time t previous = record {
    created_at = time;
    transaction_list = t ∷ [];
    proof_of_work = 0;
    previous_block_hash = block_hash h ssl previous;
  }

  block_create-candidate :
      (time n n' : ℕ) (t : Transaction) (previous b : Block)
      → block_create time (t ∷ []) 0 (block_hash h ssl previous) n ≡ ok (b, n')
      → b ≡ candidate time t previous
  unfolding block_create malloc
  block_create-candidate time n n' t previous b e = ground arith

  module _ (pair : KeyPair ssl private_key public_key)
      (key_fits : length public_key ≡ max_ssh_key_length) where
    minting : ℕ → Transaction
    minting now = unsigned h ssl now public_key public_key amount_generated_during_minting

    mined-Extended :
        (c : Blockchain) (previous : Block) (now time n n' p : ℕ) (t : Transaction)
        → IsValid h ssl c
        → IsShaped c
        → last c.block_list ≡ some previous
        → transaction_create h ssl now public_key public_key amount_generated_during_minting
            private_key n
          ≡ ok (t, n')
        → Solves h ssl c.num_leading_zero_bytes_required_in_block_hash (candidate time t previous) p
        → Extended c (blockchain_add_block c (with_proof (candidate time t previous) p))
    unfolding minting
    mined-Extended c previous now time n n' p t v w e created s =
        let b = with_proof (candidate time t previous) p in
        let (signed, fields) =
          transaction_create-IsSigned h ssl now public_key public_key
            amount_generated_during_minting private_key n n' t pair created in
        let is_amount : t.amount ≡ amount_generated_during_minting =
          ap (λ (u : Transaction). u.amount) fields in
        let is_sender : t.sender_public_key ≡ public_key =
          ap (λ (u : Transaction). u.sender_public_key) fields in
        let is_recipient : t.recipient_public_key ≡ public_key =
          ap (λ (u : Transaction). u.recipient_public_key) fields in
        record {
          grown = inr (b, refl);
          is_valid = add_block-IsValid h ssl c previous b e v (record {
            leading = s;
            linked = refl;
            minted = (is_amount, is_sender ∙ sym is_recipient);
            signed = (signed, tt);
          });
          is_shaped = add_block-IsShaped h ssl c b w (record {
            keys = (
              record {
                sender_fits = rw is_sender key_fits;
                recipient_fits = rw is_recipient key_fits;
              },
              tt,
            );
            hash_fits = length-block_hash h ssl previous;
          });
        }

    -- Where the search sees a blockchain of the same difficulty.
    module _ (m : Mining) (c : Blockchain) (w : IsShaped c)
        (same_zeros : m.synced.num_leading_zero_bytes_required_in_block_hash
          ≡ c.num_leading_zero_bytes_required_in_block_hash) where
      mine_next-Leads :
          (previous : Block)
          → IsValid h ssl c
          → last c.block_list ≡ some previous
          → Leads (Extended c) (mine_next h ssl public_key private_key m c previous)
      unfolding mine_next
      mine_next-Leads previous v e =
          let keys = amount_generated_during_minting in
          Leads-after (malloc m.allocs) λ (_, n1) _.
            Leads-after
              (transaction_create h ssl m.transaction_time public_key public_key keys private_key
                n1)
              λ (t, n2) created. Leads-after (malloc n2) λ (_, n3) _.
                Leads-after (block_create m.block_time (t ∷ []) 0 (block_hash h ssl previous) n3)
                  λ (b, n4) made.
                    Leads-after
                      (synchronized_blockchain_mine_block h ssl m.locked m.unlocked m.should_stop
                        m.mined_version m.sync_version m.synced b)
                      λ (code, b') searched. leads λ code' c' continued.
                        after_mining previous n1 n2 n3 n4 t b b' code code' c' v e created made
                          searched (after_search-continues c c' n4 code code' b' continued)
        where
          after_mining :
              (previous : Block) (n1 n2 n3 n4 : ℕ) (t : Transaction) (b b' : Block)
              (code code' : ReturnCode) (c' : Blockchain)
              → IsValid h ssl c
              → last c.block_list ≡ some previous
              → transaction_create h ssl m.transaction_time public_key public_key
                  amount_generated_during_minting private_key n1
                ≡ ok (t, n2)
              → block_create m.block_time (t ∷ []) 0 (block_hash h ssl previous) n3 ≡ ok (b, n4)
              → synchronized_blockchain_mine_block h ssl m.locked m.unlocked m.should_stop
                  m.mined_version m.sync_version m.synced b
                ≡ ok (code, b')
              → (c' ≡ c) ⊎ ((code ≡ success) × (c' ≡ blockchain_add_block c b'))
              → Extended c c'
          after_mining previous n1 n2 n3 n4 t b b' code code' c' v e created made searched
                (inl kept) =
              record { grown = inl kept; is_valid = rw kept v; is_shaped = rw kept w }
          after_mining previous n1 n2 n3 n4 t b b' code code' c' v e created made searched
                (inr (succeeded, extended)) =
              let (_, _, (p, is_solved, found)) =
                synchronized_blockchain_mine_block-Found h ssl m.locked m.unlocked m.should_stop
                  m.mined_version m.sync_version m.synced b b' (rw succeeded at searched) in
              let is_candidate = block_create-candidate m.block_time n3 n4 t previous b made in
              rw (extended, is_solved, is_candidate)
                (mined-Extended c previous m.transaction_time m.block_time n1 n2 p t v w e created
                  (rw (is_candidate, same_zeros) at found.2))

      -- If the key pair is one for OpenSSL, the public key fills its array, so do the keys and
      -- hashes of the blockchain, the required zero bytes are within the digest, and the search
      -- sees a shared blockchain of the same difficulty, then the blockchain with which a round of
      -- mining goes on is valid, its keys and hashes fill their arrays, and it is the one that the
      -- round started with or has one more block.
      pub mine_round-Extended :
          (code : ReturnCode) (c' : Blockchain)
          → c.num_leading_zero_bytes_required_in_block_hash ≤ sha256_digest_length
          → went_on (mine_round h ssl public_key private_key m c) ≡ some (code, c')
          → Extended c c'
      unfolding mine_round mine_behind report_invalid
      mine_round-Extended code c' in_digest =
          led_to
            (Leads-after (blockchain_verify h ssl c) λ v verified.
              passed v.is_valid_blockchain v.first_invalid_block λ t.
                (blockchain_verify_iff h ssl c w in_digest).0
                  (rw (blockchain_verify-valid h ssl c v verified t) at verified))
            code c'
        where
          behind :
              (o : Option Block)
              → last c.block_list ≡ o
              → IsValid h ssl c
              → Leads (Extended c) (mine_behind h ssl public_key private_key m c o)
          behind none e v = Leads-ends _
          behind (some previous) e v = mine_next-Leads previous v e

          reported : (o : Option Block) → Leads (Extended c) (report_invalid o)
          reported none = Leads-undefined
          reported (some b) = Leads-ends _

          passed :
              (is_valid : Bool) (o : Option Block)
              → (is_valid ≡ true → IsValid h ssl c)
              → Leads (Extended c) (
                  if is_valid
                  then mine_behind h ssl public_key private_key m c (last c.block_list)
                  else report_invalid o)
          passed true o v = behind (last c.block_list) refl (v refl)
          passed false o v = reported o
