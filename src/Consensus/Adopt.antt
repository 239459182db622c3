-- ===== src/Consensus/Adopt.antt =====
-- A peer changes its blockchain for another's only if that is valid, longer and as hard to mine.
use theblockchainkiller.Base.{
  ℕ, ◌+◌, ◌%◌, ◌^◌, ◌<◌, ◌≤◌, ◌≡◌, refl, Bool, true, false, lt→ltb, ==_iff, length, arith, ◌⊎◌, inl,
  inr,
}
use native.Mathlib.Decide.{dec_lt, ℕ_discrete}
use theblockchainkiller.Runtime.{ReturnCode, success}
use theblockchainkiller.Endian.{Host, Bytes}
use theblockchainkiller.Crypto.{OpenSsl, sha256_digest_length}
use theblockchainkiller.Buffer.{cursor}
use theblockchainkiller.Blockchain.{Blockchain}
use theblockchainkiller.Blockchain.Shape.{IsShaped}
use theblockchainkiller.Blockchain.Deserialize.{blockchain_deserialize}
use theblockchainkiller.Networking.Payload.{
  command_send_blockchain_serialize, command_send_blockchain_deserialize,
}
use theblockchainkiller.Networking.Socket.{send_all}
use theblockchainkiller.Blockchain.Serialize.{blockchain_serialize}
use theblockchainkiller.Blockchain.Deserialize.Shaped.{blockchain_deserialize-IsShaped}
use theblockchainkiller.Blockchain.Verify.{blockchain_verify}
use theblockchainkiller.Blockchain.Verify.Valid.{IsValid}
use theblockchainkiller.Blockchain.Verify.Check.{blockchain_verify_iff}
use theblockchainkiller.Blockchain.Verify.Accepts.{blockchain_verify-valid}
use theblockchainkiller.Networking.{CommandPayload, header_of, command_send_blockchain}
use theblockchainkiller.Consensus.{
  Sync, Exchange, switch_to_longer, receive_blockchain, handle_one_consensus_request,
  run_consensus_peer_client_once,
}
use theblockchainkiller.Networking.Handler.{Handled, returned, grow}
use theblockchainkiller.Networking.Handler.Leaves.{
  Leaves-receive_command, Leaves, left_by, Leaves-returned, Leaves-after, Leaves-after_mutex,
  Leaves-after_transfer, Leaves-if,
}

module _ (h : Host) (ssl : OpenSsl) where
  -- The shared state after a switch from `s`.
  pub record Adopted (s s' : Sync) : Type 0 where
    pub longer : length s.blockchain.block_list < length s'.blockchain.block_list
    pub same_zeros :
        s.blockchain.num_leading_zero_bytes_required_in_block_hash
        ≡ s'.blockchain.num_leading_zero_bytes_required_in_block_hash
    pub is_valid : IsValid h ssl s'.blockchain
    pub is_shaped : IsShaped s'.blockchain
    counted : s'.version ≡ (s.version + 1) % 2 ^ 64

  abbrev pub KeptOrAdopted : Sync → Sync → Type 0
  KeptOrAdopted s s' = (s' ≡ s) ⊎ Adopted s s'

  switch_to_longer-KeptOrAdopted :
      (is_valid : Bool) (peer : Blockchain) (s : Sync)
      → (is_valid ≡ true
          → s.blockchain.num_leading_zero_bytes_required_in_block_hash
            ≡ peer.num_leading_zero_bytes_required_in_block_hash
          → IsValid h ssl peer)
      → IsShaped peer
      → KeptOrAdopted s (switch_to_longer is_valid peer s)
  unfolding switch_to_longer
  switch_to_longer-KeptOrAdopted false peer s v w = inl refl
  switch_to_longer-KeptOrAdopted true peer s v w =
      elim (dec_lt (length s.blockchain.block_list) (length peer.block_list)) [
        | no n ↦ inl (ground arith)
        | yes longer ↦
            elim (ℕ_discrete s.blockchain.num_leading_zero_bytes_required_in_block_hash
              peer.num_leading_zero_bytes_required_in_block_hash) [
                | no n ↦ inl (ground arith)
                | yes same ↦ inr (
                    rw
                      (
                        lt→ltb _ _ longer,
                        (==_iff s.blockchain.num_leading_zero_bytes_required_in_block_hash
                              peer.num_leading_zero_bytes_required_in_block_hash).1
                            same,
                      )
                      (record {
                        longer = longer;
                        same_zeros = same;
                        is_valid = v refl same;
                        is_shaped = w;
                        counted = refl;
                      }))
              ]
      ]

  module _ (s : Sync)
      (in_digest : s.blockchain.num_leading_zero_bytes_required_in_block_hash
        ≤ sha256_digest_length) where
    receive_blockchain-Leaves :
        (x : Exchange) (n : ℕ) (next : CommandPayload → Blockchain → Bool → ℕ → Handled Sync)
        → ((command : CommandPayload) (peer : Blockchain) (is_valid : Bool) (n' : ℕ)
            → KeptOrAdopted s (switch_to_longer is_valid peer s)
            → Leaves (KeptOrAdopted s) (next command peer is_valid n'))
        → Leaves (KeptOrAdopted s) (receive_blockchain h ssl x n s next)
    unfolding receive_blockchain
    receive_blockchain-Leaves x n next k =
        Leaves-receive_command h grow command_send_blockchain x.recv_calls x.stream n s (inl refl)
          λ buf n1.
            Leaves-after (command_send_blockchain_deserialize h (cursor n1 buf)) s (inl refl)
              λ (command, c) _.
                Leaves-after (blockchain_deserialize h (cursor c.allocs command.payload)) s
                  (inl refl)
                  λ (peer, c') read.
                    let shaped =
                      blockchain_deserialize-IsShaped h (cursor c.allocs command.payload) c' peer
                        read in
                    Leaves-after (blockchain_verify h ssl peer) s (inl refl) λ v verified.
                      k command peer v.is_valid_blockchain c'.allocs (
                        switch_to_longer-KeptOrAdopted v.is_valid_blockchain peer s
                          (λ t same.
                            (blockchain_verify_iff h ssl peer shaped (omega (arith, same))).0
                              (rw (blockchain_verify-valid h ssl peer v verified t) at verified))
                          shaped)

    -- If the required zero bytes are within the digest, then however a peer behaves, when the
    -- server returns from one request, with whatever code, the shared state is the same as before;
    -- or its blockchain is another that is valid, longer and has as many required zero bytes, its
    -- keys and hashes fill their arrays, and the version has gone up by one.
    pub handle_one_consensus_request-KeptOrAdopted :
        (x : Exchange) (c : ReturnCode) (s' : Sync) (sent : Bytes)
        → handle_one_consensus_request h ssl x s ≡ returned c s' sent
        → KeptOrAdopted s s'
    unfolding handle_one_consensus_request
    handle_one_consensus_request-KeptOrAdopted x = left_by (
        receive_blockchain-Leaves x x.allocs _ λ command peer is_valid n switched.
          Leaves-after_mutex x.locked s (inl refl) (
            let s' = switch_to_longer is_valid peer s in
            Leaves-after (blockchain_serialize h s'.blockchain n) s' switched λ (bytes, n1) _.
              Leaves-after_mutex x.unlocked s' switched (
                Leaves-after
                  (command_send_blockchain_serialize h
                    (record command { data_len = length bytes; payload = bytes }) n1)
                  s' switched
                  λ ((_, buf), _) _.
                    Leaves-after_transfer (send_all x.send_calls buf) s' switched
                      λ sent _ _. Leaves-returned success s' sent switched)))

    -- If the required zero bytes are within the digest, then however a peer behaves and whatever
    -- blockchain was sent to it, when the client returns from one exchange, with whatever code,
    -- the shared state is the same as before; or its blockchain is another that is valid, longer
    -- and has as many required zero bytes, its keys and hashes fill their arrays, and the version
    -- has gone up by one.
    pub run_consensus_peer_client_once-KeptOrAdopted :
        (x : Exchange) (ours : Blockchain) (c : ReturnCode) (s' : Sync) (sent : Bytes)
        → run_consensus_peer_client_once h ssl x ours s ≡ returned c s' sent
        → KeptOrAdopted s s'
    unfolding run_consensus_peer_client_once
    run_consensus_peer_client_once-KeptOrAdopted x ours = left_by (
        Leaves-if x.connected
          (Leaves-after_mutex x.locked s (inl refl) (
            Leaves-after (blockchain_serialize h ours x.allocs) s (inl refl) λ (bytes, n) _.
              Leaves-after_mutex x.unlocked s (inl refl) (
                Leaves-after
                  (command_send_blockchain_serialize h
                    (record {
                      header = header_of command_send_blockchain;
                      data_len = length bytes;
                      payload = bytes;
                    })
                    n)
                  s (inl refl)
                  λ ((_, buf), n1) _.
                    Leaves-after_transfer (send_all x.send_calls buf) s (inl refl) λ sent _ _.
                      receive_blockchain-Leaves x n1 _ λ _ peer is_valid _ switched.
                        Leaves-if is_valid
                          (Leaves-after_mutex x.relocked s (inl refl) (
                            Leaves-after_mutex x.reunlocked _ switched
                              (Leaves-returned success _ sent switched)))
                          (Leaves-returned success s sent (inl refl)))))
          (Leaves-returned _ s _ (inl refl)))
