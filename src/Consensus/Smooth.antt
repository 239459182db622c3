-- ===== src/Consensus/Smooth.antt =====
-- Exchanges of whole blockchains in which no call fails.
use theblockchainkiller.Base.{
  ℕ, suc, Bool, ◌+◌, ◌-◌, ◌^◌, ◌≤◌, ◌<◌, ◌≡◌, refl, true, none, List, [], ◌++◌, All, length,
  append-nil, arith, ◌∙◌,
}
use theblockchainkiller.Runtime.{ok, success}
use theblockchainkiller.Endian.{Host, Bytes}
use theblockchainkiller.Crypto.{OpenSsl, sha256_digest_length}
use theblockchainkiller.Buffer.{cursor}
use theblockchainkiller.Blockchain.{Blockchain}
use theblockchainkiller.Blockchain.Format.{chain_bytes, IsBlockchain, read_cost, write_cost}
use theblockchainkiller.Blockchain.Shape.{IsShaped}
use theblockchainkiller.Blockchain.Serialize.{blockchain_serialize}
use theblockchainkiller.Blockchain.Deserialize.{blockchain_deserialize}
use theblockchainkiller.Blockchain.Deserialize.Reads.{blockchain_deserialize-bytes}
use theblockchainkiller.Blockchain.File.RoundTrip.{serialize-ok}
use theblockchainkiller.Blockchain.Verify.Valid.{IsValid}
use theblockchainkiller.Blockchain.Verify.Check.{blockchain_verify_iff}
use theblockchainkiller.Networking.{CommandPayload, command_send_blockchain, header_of, header_size}
use theblockchainkiller.Networking.Payload.RoundTrip.{
  IsPayload, sent_payload, payload_bytes, payload_serialize-bytes, payload_deserialize-bytes,
}
use theblockchainkiller.Networking.Socket.{Call}
use theblockchainkiller.Networking.Socket.Stream.{Progress}
use theblockchainkiller.Networking.Socket.Prefix.{send_all-Prefix}
use theblockchainkiller.Networking.Handler.{Handled, returned, grow}
use theblockchainkiller.Networking.Handler.Whole.{grow-Grows, receive_command-whole}
use theblockchainkiller.Consensus.{
  Sync, Exchange, switch_to_longer, receive_blockchain, handle_one_consensus_request,
  run_consensus_peer_client_once,
}

-- The command in which a host sends a blockchain.
abbrev pub announced : Host → Blockchain → CommandPayload
announced h c = record {
  header = header_of command_send_blockchain;
  data_len = length (chain_bytes h c);
  payload = chain_bytes h c;
}

-- An exchange in which no call fails.
abbrev pub smooth : List Call → List Call → Bytes → ℕ → Exchange
smooth recv_calls send_calls stream allocs = record {
  connected = true;
  locked = none;
  unlocked = none;
  relocked = none;
  reunlocked = none;
  recv_calls = recv_calls;
  send_calls = send_calls;
  stream = stream;
  allocs = allocs;
}

announced-IsPayload :
    (h : Host) (c : Blockchain)
    → length (chain_bytes h c) < 2 ^ 63
    → IsPayload command_send_blockchain (announced h c)
announced-IsPayload h c fits = record {
  has_prefix = refl;
  has_number = refl;
  number_fits = omega arith;
  len_is = refl;
  len_fits = fits;
}

-- A blockchain that the C types can hold, also in a command.
pub record IsSendable (c : Blockchain) : Type 0 where
  pub can_hold : IsBlockchain c
  pub shaped : IsShaped c
  pub in_digest : c.num_leading_zero_bytes_required_in_block_hash ≤ sha256_digest_length
  pub fits : (host : Host) → header_size + (8 + length (chain_bytes host c)) < 2 ^ 63

-- A number of allocations, of which the last are those of a command's serialization.
abbrev pub serialize_allocs : ℕ → ℕ
serialize_allocs left = suc (suc (suc left))

abbrev pub receive_allocs : Blockchain → ℕ → ℕ
receive_allocs peer left = suc (suc (suc (read_cost peer + left)))

module _ (h : Host) (ssl : OpenSsl) (recv_calls send_calls : List Call) where
  -- A peer's whole blockchain is read and found valid.
  receive_blockchain-whole :
      (from : Host) (peer : Blockchain) (rest : Bytes) (allocs left : ℕ) (s : Sync)
      (next : CommandPayload → Blockchain → Bool → ℕ → Handled Sync)
      → IsSendable peer
      → IsValid h ssl peer
      → All Progress recv_calls
      → length (payload_bytes from (announced from peer)) ≤ length recv_calls
      → receive_blockchain h ssl
          (smooth recv_calls send_calls (payload_bytes from (announced from peer) ++ rest) allocs)
          (receive_allocs peer left)
          s
          next
        ≡ next (sent_payload (announced from peer)) peer true left
  unfolding receive_blockchain
  receive_blockchain-whole from peer rest allocs left s next w is_valid p many =
      let received = announced from peer in
      let from_fits = announced-IsPayload from peer (omega (arith, w.fits from)) in
      let read : blockchain_deserialize h (cursor (read_cost peer + left) (chain_bytes from peer))
          ≡ ok (peer, cursor left []) =
        rw append-nil at (blockchain_deserialize-bytes h from peer left [] w.can_hold) in
      receive_command-whole grow grow-Grows h command_send_blockchain recv_calls rest
        (suc (read_cost peer + left)) s _ p from received from_fits many (w.fits from)
      ∙ rw
          (
            payload_deserialize-bytes h from command_send_blockchain received
                (read_cost peer + left) from_fits,
            read,
            (blockchain_verify_iff h ssl peer w.shaped w.in_digest).1 is_valid,
          )
          refl

  -- What a peer announces is what it serializes and sends.
  serialize-announced :
      (c : Blockchain) (left : ℕ)
      → blockchain_serialize h c (write_cost c + left) ≡ ok (chain_bytes h c, left)
  serialize-announced c left =
      let unspent : write_cost c + left - write_cost c ≡ left = omega arith in
      rw unspent at (serialize-ok h c (write_cost c + left) (omega arith))

  -- The server's answer to a peer's whole blockchain.
  pub handle_one_consensus_request-whole :
      (from : Host) (peer : Blockchain) (rest : Bytes) (left : ℕ) (s : Sync)
      → IsSendable peer
      → IsValid h ssl peer
      → IsSendable (switch_to_longer true peer s).blockchain
      → All Progress recv_calls
      → length (payload_bytes from (announced from peer)) ≤ length recv_calls
      → All Progress send_calls
      → length (payload_bytes h (announced h (switch_to_longer true peer s).blockchain))
        ≤ length send_calls
      → handle_one_consensus_request h ssl
          (smooth recv_calls send_calls (payload_bytes from (announced from peer) ++ rest) (
            receive_allocs peer
              (write_cost (switch_to_longer true peer s).blockchain + serialize_allocs left)))
          s
        ≡ returned success
            (switch_to_longer true peer s)
            (payload_bytes h (announced h (switch_to_longer true peer s).blockchain))
  unfolding handle_one_consensus_request
  handle_one_consensus_request-whole from peer rest left s w is_valid w' p many p' many' =
      let s' = switch_to_longer true peer s in
      let c = s'.blockchain in
      let received = announced from peer in
      let answer : CommandPayload = record (sent_payload received) {
        data_len = length (chain_bytes h c);
        payload = chain_bytes h c;
      } in
      let answer_fits : IsPayload command_send_blockchain answer = record {
        has_prefix = refl;
        has_number = refl;
        number_fits = omega arith;
        len_is = refl;
        len_fits = omega (arith, w'.fits h);
      } in
      let (unsent, sent) = send_all-Prefix send_calls (payload_bytes h (announced h c)) p' many' in
      receive_blockchain-whole from peer rest _ (write_cost c + serialize_allocs left) s _ w
        is_valid p many
      ∙ rw
          (
            serialize-announced c (serialize_allocs left),
            payload_serialize-bytes h command_send_blockchain answer left answer_fits,
            sent,
          )
          refl

  -- The client's exchange with a peer that sends a whole blockchain.
  pub run_consensus_peer_client_once-whole :
      (from : Host) (peer ours : Blockchain) (rest : Bytes) (left : ℕ) (s : Sync)
      → IsSendable peer
      → IsValid h ssl peer
      → IsSendable ours
      → All Progress recv_calls
      → length (payload_bytes from (announced from peer)) ≤ length recv_calls
      → All Progress send_calls
      → length (payload_bytes h (announced h ours)) ≤ length send_calls
      → run_consensus_peer_client_once h ssl
          (smooth recv_calls send_calls
            (payload_bytes from (announced from peer) ++ rest)
            (write_cost ours + serialize_allocs (receive_allocs peer left)))
          ours
          s
        ≡ returned success (switch_to_longer true peer s) (payload_bytes h (announced h ours))
  unfolding run_consensus_peer_client_once
  run_consensus_peer_client_once-whole from peer ours rest left s w is_valid w' p many p' many' =
      let (unsent, sent) =
        send_all-Prefix send_calls (payload_bytes h (announced h ours)) p' many' in
      rw
        (
          serialize-announced ours (serialize_allocs (receive_allocs peer left)),
          payload_serialize-bytes h command_send_blockchain (announced h ours)
              (receive_allocs peer left) (announced-IsPayload h ours (omega (arith, w'.fits h))),
          sent,
        )
        (receive_blockchain-whole from peer rest _ left s _ w is_valid p many)
