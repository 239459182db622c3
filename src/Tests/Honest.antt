-- ===== src/Tests/Honest.antt =====
-- A peer that sends a longer blockchain byte by byte, and two peers that exchange theirs.
use theblockchainkiller.Base.{
  ℕ, zero, suc, ◌+◌, ◌<◌, ◌^◌, ◌≡◌, refl, List, [], ◌∷◌, ◌++◌, All, length, replicate, arith,
}
use theblockchainkiller.Runtime.{success}
use theblockchainkiller.Endian.{Host, little, big, store, low_first}
use theblockchainkiller.Buffer.{be64, net}
use theblockchainkiller.Blockchain.Format.{
  chain_bytes, blocks_bytes, transactions_bytes, IsBlockchain,
}
use theblockchainkiller.Blockchain.Serialize.{block_header_bytes}
use theblockchainkiller.Networking.{header_size}
use theblockchainkiller.Networking.Payload.RoundTrip.{payload_bytes}
use theblockchainkiller.Networking.Socket.{Call, moves}
use theblockchainkiller.Networking.Socket.Stream.{Progress}
use theblockchainkiller.Networking.Handler.{returned}
use theblockchainkiller.Consensus.{handle_one_consensus_request}
use theblockchainkiller.Consensus.Smooth.{announced, smooth}
use theblockchainkiller.Consensus.Agree.{
  IsAccepted, IsLive, Exchanged, run_consensus_peer_client_once-Exchanged,
}
use theblockchainkiller.Consensus.Honest.{handle_one_consensus_request-adopts}
use theblockchainkiller.Tests.Sample.{toy}
use theblockchainkiller.Tests.Exchange.{before, behind, longer, shorter}

abbrev byte_by_byte : List Call
byte_by_byte = replicate 100 (moves 1)

pub Progress-replicate : (n : ℕ) → All Progress (replicate n (moves 1))
Progress-replicate zero = tt
Progress-replicate (suc n) = (omega arith, Progress-replicate n)

longer-IsBlockchain : IsBlockchain longer
longer-IsBlockchain = record {
  zeros_fit = omega arith;
  count_fits = omega arith;
  blocks = (
    record {
      created_at_fits = omega arith;
      transactions = tt;
      count_fits = omega arith;
      proof_fits = omega arith;
      hash_fits = refl;
    },
    tt,
  );
}

longer_fits : (host : Host) → header_size + (8 + length (chain_bytes host longer)) < 2 ^ 63
unfolding chain_bytes be64 store low_first blocks_bytes block_header_bytes transactions_bytes
longer_fits little = omega arith
longer_fits big = omega arith

handle_one_consensus_request-adopts_example :
    handle_one_consensus_request little toy
      (smooth byte_by_byte byte_by_byte (payload_bytes big (announced big longer) ++ (7 ∷ [])) 13)
      before
    ≡ returned success behind (payload_bytes little (announced little longer))
unfolding chain_bytes be64 net store low_first blocks_bytes block_header_bytes transactions_bytes
handle_one_consensus_request-adopts_example =
    handle_one_consensus_request-adopts little big toy before longer longer-IsBlockchain
      (record { keys = tt; hash_fits = refl }, tt) (omega arith)
      (record { no_transaction = refl; proof = refl; no_previous = refl }, tt) (omega arith) refl
      longer_fits byte_by_byte byte_by_byte (7 ∷ []) 0 (Progress-replicate 100) (omega arith)
      (Progress-replicate 100) (omega arith)

shorter_fits : (host : Host) → header_size + (8 + length (chain_bytes host shorter)) < 2 ^ 63
unfolding chain_bytes be64 store low_first blocks_bytes
shorter_fits little = omega arith
shorter_fits big = omega arith

shorter-IsAccepted : IsAccepted little big toy shorter
shorter-IsAccepted = record {
  sendable = record {
    can_hold = record { zeros_fit = omega arith; count_fits = omega arith; blocks = tt };
    shaped = tt;
    in_digest = omega arith;
    fits = shorter_fits;
  };
  valid_here = tt;
  valid_there = tt;
}

longer-IsAccepted : IsAccepted little big toy longer
longer-IsAccepted = record {
  sendable = record {
    can_hold = longer-IsBlockchain;
    shaped = (record { keys = tt; hash_fits = refl }, tt);
    in_digest = omega arith;
    fits = longer_fits;
  };
  valid_here = (record { no_transaction = refl; proof = refl; no_previous = refl }, tt);
  valid_there = (record { no_transaction = refl; proof = refl; no_previous = refl }, tt);
}

byte_by_byte-IsLive : (from : Host) → IsLive byte_by_byte from longer shorter
unfolding chain_bytes be64 net store low_first blocks_bytes block_header_bytes transactions_bytes
byte_by_byte-IsLive little = record {
  progress = Progress-replicate 100;
  first = omega arith;
  second = omega arith;
}
byte_by_byte-IsLive big = record {
  progress = Progress-replicate 100;
  first = omega arith;
  second = omega arith;
}

run_consensus_peer_client_once-Exchanged_example :
    Exchanged little big toy behind before byte_by_byte byte_by_byte byte_by_byte byte_by_byte 20 20
run_consensus_peer_client_once-Exchanged_example =
    run_consensus_peer_client_once-Exchanged little big toy behind before longer-IsAccepted
      shorter-IsAccepted refl byte_by_byte byte_by_byte byte_by_byte byte_by_byte 20 20
      (byte_by_byte-IsLive big) (byte_by_byte-IsLive little) (byte_by_byte-IsLive little)
      (byte_by_byte-IsLive big) (omega arith) (omega arith)
