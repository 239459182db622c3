-- ===== src/Miner/Start.antt =====
-- The state that src/miner.c starts its threads with, and what the threads make of it.
use theblockchainkiller.Base.{ℕ, ◌≤◌, ◌≡◌, refl, length}
use theblockchainkiller.Runtime.{ok, guard}
use theblockchainkiller.Runtime.Gives.{Gives, given_by, Gives-ok, Gives-bind, skip}
use theblockchainkiller.Endian.{Host, Bytes}
use theblockchainkiller.Buffer.{malloc}
use theblockchainkiller.Crypto.{OpenSsl, max_ssh_key_length, sha256_digest_length}
use theblockchainkiller.Base64.{DecodeBlock, IsDecodeBlock}
use theblockchainkiller.Blockchain.{blockchain_create}
use theblockchainkiller.Block.{block_create_genesis_block}
use theblockchainkiller.Transaction.Signing.{KeyPair}
use theblockchainkiller.Consensus.{Sync}
use theblockchainkiller.Peer.{Reach}
use theblockchainkiller.Peer.Invariant.{Holds, Reach-Holds}
use theblockchainkiller.Peer.Start.{create_genesis-Holds}
use theblockchainkiller.CommandLine.{untested_malloc}
use theblockchainkiller.Miner.{
  Environment, Started, decode_key, first_blockchain, all_initialised,
  synchronized_blockchain_create, parse_arguments, main_start,
}
use theblockchainkiller.Miner.Keys.{decode_key-Defined}

-- What `mine_blocks` needs: keys that fill their arrays, and a valid blockchain with one block, whose
-- version is 0.
pub record IsReady (h : Host) (ssl : OpenSsl) (s : Started) : Type 0 where
  pub public_fits : length s.miner_public_key ≡ max_ssh_key_length
  pub private_fits : length s.miner_private_key ≡ max_ssh_key_length
  pub holds :
      Holds h ssl s.miner_public_key s.miner_private_key
        s.sync.blockchain.num_leading_zero_bytes_required_in_block_hash 1 s.sync.blockchain
  pub first_version : s.sync.version ≡ 0

module _ (h : Host) (ssl : OpenSsl) where
  -- The blockchain holds for whatever keys.
  abbrev IsFirst : (zeros : ℕ) → Sync × ℕ → Type 0
  IsFirst zeros (s, n) =
      ((public_key private_key : Bytes) → Holds h ssl public_key private_key zeros 1 s.blockchain)
      × (s.version ≡ 0)

  first_blockchain-Gives : (zeros now n : ℕ) → Gives (IsFirst zeros) (first_blockchain zeros now n)
  unfolding first_blockchain synchronized_blockchain_create
  first_blockchain-Gives zeros now n = Gives-bind (blockchain_create zeros n) λ (c, n1) created.
      Gives-bind (block_create_genesis_block now n1) λ (g, n2) genesis.
        Gives-bind (malloc n2) λ (_, n3) _. Gives-bind (untested_malloc n3) λ n4 _. Gives-ok _ (
          λ public_key private_key.
              create_genesis-Holds h ssl public_key private_key zeros now n n1 n2 c g created
                genesis,
          refl,
        )

  module _ (decode : DecodeBlock) (within : IsDecodeBlock decode) where
    decode_key-fits :
        (text key : Bytes) → decode_key decode text ≡ ok key → length key ≡ max_ssh_key_length
    decode_key-fits text key e = rw e at (decode_key-Defined decode within text)

    main_start-Gives : (x : Environment) → Gives (IsReady h ssl) (main_start h decode x)
    unfolding main_start
    main_start-Gives x = skip (parse_arguments h x) λ p.
        Gives-bind (decode_key decode p.public_text) λ public_key public_read.
          Gives-bind (decode_key decode p.private_text) λ private_key private_read.
            Gives-bind (first_blockchain p.num_leading_zeros x.now p.allocs) λ (sync, n) first.
              skip (all_initialised x.mining_inits) λ _. skip (guard x.server_cond _) λ _.
                skip (guard x.server_mutex _) λ _.
                  let (holds, version) =
                    given_by (first_blockchain-Gives p.num_leading_zeros x.now p.allocs) (sync, n)
                      first in
                  let w = holds public_key private_key in
                  Gives-ok _ (record {
                    public_fits = decode_key-fits p.public_text public_key public_read;
                    private_fits = decode_key-fits p.private_text private_key private_read;
                    holds = record {
                      is_valid = w.is_valid;
                      is_shaped = w.is_shaped;
                      same_zeros = refl;
                      no_shorter = w.no_shorter;
                    };
                    first_version = version;
                  })

    -- If OpenSSL gives at most three bytes for each four of a base64 text, then whatever the command
    -- line and the environment are: when `main` comes to the threads, both keys fill their arrays, the
    -- shared blockchain is valid and has one block, and its version is 0.
    pub main_start-IsReady :
        (x : Environment) (s : Started) → main_start h decode x ≡ ok s → IsReady h ssl s
    main_start-IsReady x s = given_by (main_start-Gives x) s

    -- If in addition the two keys are a pair and the required zero bytes are within the digest, then
    -- after any sequence of requests answered, exchanges with peers and rounds of mining, whatever
    -- other peers have sent, the blockchain that `main` has started with has become one that is valid
    -- and has the same difficulty and at least one block, and its keys and hashes fill their arrays.
    pub main-Holds :
        (x : Environment) (s : Started) (sync : Sync)
        → main_start h decode x ≡ ok s
        → s.sync.blockchain.num_leading_zero_bytes_required_in_block_hash ≤ sha256_digest_length
        → KeyPair ssl s.miner_private_key s.miner_public_key
        → Reach h ssl s.miner_public_key s.miner_private_key s.sync sync
        → Holds h ssl s.miner_public_key s.miner_private_key
            s.sync.blockchain.num_leading_zero_bytes_required_in_block_hash 1 sync.blockchain
    main-Holds x s sync e in_digest pair reach =
        let ready = main_start-IsReady x s e in
        Reach-Holds h ssl s.miner_public_key s.miner_private_key
          s.sync.blockchain.num_leading_zero_bytes_required_in_block_hash 1 in_digest pair
          ready.public_fits reach ready.holds
