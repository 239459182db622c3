-- ===== src/Peer/Invariant.antt =====
-- Whatever other peers send and however the threads interleave, a peer's blockchain stays valid.
use theblockchainkiller.Base.{
  ℕ, ◌+◌, ◌≤◌, ◌≡◌, refl, sym, ◌∙◌, [], ◌∷◌, inl, inr, arith, length, length-append,
}
use theblockchainkiller.Endian.{Host, Bytes}
use theblockchainkiller.Crypto.{OpenSsl, max_ssh_key_length, sha256_digest_length}
use theblockchainkiller.Blockchain.{Block, Blockchain, blockchain_add_block}
use theblockchainkiller.Blockchain.Shape.{IsShaped}
use theblockchainkiller.Blockchain.Verify.Valid.{IsValid}
use theblockchainkiller.Transaction.Signing.{KeyPair}
use theblockchainkiller.Consensus.{Sync}
use theblockchainkiller.Consensus.Adopt.{
  KeptOrAdopted, handle_one_consensus_request-KeptOrAdopted,
  run_consensus_peer_client_once-KeptOrAdopted,
}
use theblockchainkiller.MiningThread.Valid.{Extended, mine_round-Extended}
use theblockchainkiller.Peer.{Step, served, asked, mined, Reach, start, then}

module _ (h : Host) (ssl : OpenSsl) (public_key private_key : Bytes) where
  -- A valid blockchain of a given difficulty, with no fewer blocks than a given number.
  pub record Holds (zeros blocks : ℕ) (c : Blockchain) : Type 0 where
    pub is_valid : IsValid h ssl c
    pub is_shaped : IsShaped c
    pub same_zeros : c.num_leading_zero_bytes_required_in_block_hash ≡ zeros
    pub no_shorter : blocks ≤ length c.block_list

  module _ (zeros blocks : ℕ) where
    pub KeptOrAdopted-Holds :
        (s s' : Sync)
        → KeptOrAdopted h ssl s s'
        → Holds zeros blocks s.blockchain
        → Holds zeros blocks s'.blockchain
    KeptOrAdopted-Holds s s' (inl kept) w = rw kept w
    KeptOrAdopted-Holds s s' (inr a) w = record {
      is_valid = a.is_valid;
      is_shaped = a.is_shaped;
      same_zeros = sym a.same_zeros ∙ w.same_zeros;
      no_shorter = omega (arith, a.longer, w.no_shorter);
    }

    length-add_block :
        (c : Blockchain) (b : Block)
        → length (blockchain_add_block c b).block_list ≡ length c.block_list + 1
    unfolding blockchain_add_block
    length-add_block c b = length-append c.block_list (b ∷ [])

    zeros-add_block :
        (c : Blockchain) (b : Block)
        → (blockchain_add_block c b).num_leading_zero_bytes_required_in_block_hash
          ≡ c.num_leading_zero_bytes_required_in_block_hash
    unfolding blockchain_add_block
    zeros-add_block c b = refl

    Extended-Holds :
        (c c' : Blockchain)
        → Extended h ssl public_key private_key c c'
        → Holds zeros blocks c
        → Holds zeros blocks c'
    Extended-Holds c c' e w = elim e.grown [
      | inl kept ↦ rw kept w
      | inr (b, added) ↦ record {
        is_valid = e.is_valid;
        is_shaped = e.is_shaped;
        same_zeros = rw added (zeros-add_block c b ∙ w.same_zeros);
        no_shorter = rw added (omega (arith, length-add_block c b, w.no_shorter));
      }
    ]

    module _ (in_digest : zeros ≤ sha256_digest_length) (pair : KeyPair ssl private_key public_key)
        (key_fits : length public_key ≡ max_ssh_key_length) where
      Step-Holds :
          {s s' : Sync}
          → Step h ssl public_key private_key s s'
          → Holds zeros blocks s.blockchain
          → Holds zeros blocks s'.blockchain
      Step-Holds (served s s' x c sent e) w =
          KeptOrAdopted-Holds s s'
            (handle_one_consensus_request-KeptOrAdopted h ssl s (rw w.same_zeros in_digest) x c s'
              sent e)
            w
      Step-Holds (asked s s' x ours c sent e) w =
          KeptOrAdopted-Holds s s'
            (run_consensus_peer_client_once-KeptOrAdopted h ssl s (rw w.same_zeros in_digest) x ours
              c s' sent e)
            w
      Step-Holds (mined s m code c same e) w =
          Extended-Holds s.blockchain c
            (mine_round-Extended h ssl public_key private_key pair key_fits m s.blockchain
              w.is_shaped (rw same) code c (rw w.same_zeros in_digest) e)
            w

      -- If the key pair is one for OpenSSL, the public key fills its array, and the required zero
      -- bytes are within the digest, then from a valid blockchain whose keys and hashes fill their
      -- arrays, after any sequence of requests answered, exchanges with peers and rounds of
      -- mining, whatever the other peers have sent, the shared blockchain is valid, its keys and
      -- hashes fill their arrays, it has the same difficulty and is no shorter than the number of
      -- blocks that the first one had at least.
      pub Reach-Holds :
          {s s' : Sync}
          → Reach h ssl public_key private_key s s'
          → Holds zeros blocks s.blockchain
          → Holds zeros blocks s'.blockchain
      Reach-Holds start w = w
      Reach-Holds (then r step) w = Step-Holds step (Reach-Holds r w)
