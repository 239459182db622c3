-- ===== src/Consensus/Honest.antt =====
-- A server adopts the blockchain of an honest peer, and answers with it.
use theblockchainkiller.Base.{
  ℕ, suc, ◌+◌, ◌%◌, ◌^◌, ◌≤◌, ◌<◌, ◌≡◌, true, List, ◌++◌, All, length, arith, lt→ltb,
}
use theblockchainkiller.Runtime.{success}
use theblockchainkiller.Endian.{Host, Bytes}
use theblockchainkiller.Crypto.{OpenSsl, sha256_digest_length}
use theblockchainkiller.Blockchain.{Blockchain}
use theblockchainkiller.Blockchain.Format.{chain_bytes, IsBlockchain, read_cost, write_cost}
use theblockchainkiller.Blockchain.Shape.{IsShaped}
use theblockchainkiller.Blockchain.Verify.Valid.{IsValid}
use theblockchainkiller.Networking.{header_size}
use theblockchainkiller.Networking.Payload.RoundTrip.{payload_bytes}
use theblockchainkiller.Networking.Socket.{Call}
use theblockchainkiller.Networking.Socket.Stream.{Progress}
use theblockchainkiller.Networking.Handler.{returned}
use theblockchainkiller.Consensus.{Sync, switch_to_longer, handle_one_consensus_request}
use theblockchainkiller.Consensus.Smooth.{
  announced, smooth, IsSendable, handle_one_consensus_request-whole,
}

switch_to_longer-longer :
    (peer : Blockchain) (s : Sync)
    → length s.blockchain.block_list < length peer.block_list
    → s.blockchain.num_leading_zero_bytes_required_in_block_hash
      ≡ peer.num_leading_zero_bytes_required_in_block_hash
    → switch_to_longer true peer s
      ≡ record { blockchain = peer; version = (s.version + 1) % 2 ^ 64 }
unfolding switch_to_longer
switch_to_longer-longer peer s longer same =
    let wins = lt→ltb (length s.blockchain.block_list) (length peer.block_list) longer in
    ground (arith, wins, same)

module _ (h from : Host) (ssl : OpenSsl) (s : Sync) (peer : Blockchain) (w : IsBlockchain peer)
    (shaped : IsShaped peer)
    (in_digest : peer.num_leading_zero_bytes_required_in_block_hash ≤ sha256_digest_length)
    (is_valid : IsValid h ssl peer)
    (longer : length s.blockchain.block_list < length peer.block_list)
    (same : s.blockchain.num_leading_zero_bytes_required_in_block_hash
      ≡ peer.num_leading_zero_bytes_required_in_block_hash)
    (fits : (host : Host) → header_size + (8 + length (chain_bytes host peer)) < 2 ^ 63) where
  -- If the shape of the peer's blockchain fits the C types, its required number of zero bytes is
  -- at most that of the digest and is the server's own, it is valid and longer than the server's,
  -- and its command is shorter than 2^63 bytes in any byte order; if the peer, of any byte order,
  -- sends it, followed by any other bytes; and if no call fails, each recv and send moves a byte at
  -- least, there are as many of each as the command it moves has bytes, and the allocations are
  -- enough: then the server returns SUCCESS, it has that blockchain, with the version one higher
  -- (modulo 2^64), and what it has sent is that blockchain in a command of its own byte order.
  pub handle_one_consensus_request-adopts :
      (recv_calls send_calls : List Call) (rest : Bytes) (left : ℕ)
      → All Progress recv_calls
      → length (payload_bytes from (announced from peer)) ≤ length recv_calls
      → All Progress send_calls
      → length (payload_bytes h (announced h peer)) ≤ length send_calls
      → handle_one_consensus_request h ssl
          (smooth recv_calls send_calls
            (payload_bytes from (announced from peer) ++ rest)
            (suc (suc (suc (read_cost peer + (write_cost peer + suc (suc (suc left))))))))
          s
        ≡ returned success
            (record { blockchain = peer; version = (s.version + 1) % 2 ^ 64 })
            (payload_bytes h (announced h peer))
  handle_one_consensus_request-adopts recv_calls send_calls rest left p many p' many' =
      let e = switch_to_longer-longer peer s longer same in
      let w' : IsSendable peer = record {
        can_hold = w;
        shaped = shaped;
        in_digest = in_digest;
        fits = fits;
      } in
      rw e at (
        handle_one_consensus_request-whole h ssl recv_calls send_calls from peer rest left s w'
          is_valid (rw e w') p many p' (rw e many'))
