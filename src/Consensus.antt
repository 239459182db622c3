-- ===== src/Consensus.antt =====
-- src/consensus_peer_server_thread.c and src/consensus_peer_client_thread.c: how two peers exchange
-- their blockchains, and when one switches to the other's.
pub mod Adopt
pub mod Smooth
pub mod Honest
pub mod Agree
pub mod Threads
use theblockchainkiller.Base.{
  ℕ, ◌+◌, ◌%◌, ◌^◌, Bool, true, false, Option, none, some, List, [], ◌++◌, ◌==◌, ltb, length,
  if◌then◌else◌,
}
use theblockchainkiller.Runtime.{
  ReturnCode, success, network_function, invalid_command, Outcome, ok, err, fault,
}
use theblockchainkiller.Endian.{Host, Bytes}
use theblockchainkiller.Crypto.{OpenSsl}
use theblockchainkiller.Buffer.{cursor, malloc}
use theblockchainkiller.Blockchain.{Blockchain}
use theblockchainkiller.Blockchain.Serialize.{blockchain_serialize}
use theblockchainkiller.Blockchain.Deserialize.{blockchain_deserialize}
use theblockchainkiller.Blockchain.Verify.{blockchain_verify}
use theblockchainkiller.Networking.{CommandPayload, command_send_blockchain, header_size, header_of}
use theblockchainkiller.Networking.Handler.{
  Handled, returned, after, after_mutex, after_transfer, grow, receive_command,
}
use theblockchainkiller.Networking.Payload.{
  command_send_blockchain_serialize, command_send_blockchain_deserialize,
}
use theblockchainkiller.Networking.Socket.{
  Call, Transfer, done, network_error, waits, recv_all, send_all,
}

-- `synchronized_blockchain_t`, without the mutex.
pub record Sync : Type 0 where
  pub blockchain : Blockchain
  pub version : ℕ

-- What the environment does during one exchange: whether the client's calls of `socket` and
-- `wrap_connect` succeed, the results of the calls of `pthread_mutex_lock` and
-- `pthread_mutex_unlock` (`none` for 0, and otherwise what the code takes for a return code; the
-- second pair is the client's alone), those of `recv` and `send`, the bytes that the peer sends,
-- and the number of allocations that succeed.
pub record Exchange : Type 0 where
  pub connected : Bool
  pub locked : Option ReturnCode
  pub unlocked : Option ReturnCode
  pub relocked : Option ReturnCode
  pub reunlocked : Option ReturnCode
  pub recv_calls : List Call
  pub send_calls : List Call
  pub stream : Bytes
  pub allocs : ℕ

-- The longer blockchain with as many required zero bytes wins.
unfoldable pub switch_to_longer : Bool → Blockchain → Sync → Sync
switch_to_longer is_valid peer s =
    if is_valid
    then (if ltb (length s.blockchain.block_list) (length peer.block_list)
        then (if s.blockchain.num_leading_zero_bytes_required_in_block_hash
              == peer.num_leading_zero_bytes_required_in_block_hash
            then record { blockchain = peer; version = (s.version + 1) % 2 ^ 64 }
            else s)
        else s)
    else s

module _ (h : Host) (ssl : OpenSsl) where
  -- From the allocation of `recv_buf` to `blockchain_verify`, which is the same in both files:
  -- `next` gets the peer's command and blockchain, whether that is valid, and the allocator.
  unfoldable pub receive_blockchain :
      Exchange → ℕ → Sync → (CommandPayload → Blockchain → Bool → ℕ → Handled Sync) → Handled Sync
  receive_blockchain x n s next =
      receive_command h grow command_send_blockchain x.recv_calls x.stream n s λ buf n1.
        after (command_send_blockchain_deserialize h (cursor n1 buf)) s λ (command, c).
          after (blockchain_deserialize h (cursor c.allocs command.payload)) s λ (peer, c').
            after (blockchain_verify h ssl peer) s
              λ v. next command peer v.is_valid_blockchain c'.allocs

  -- The peer's blockchain is answered with the one that the server then has.
  unfoldable pub handle_one_consensus_request : Exchange → Sync → Handled Sync
  handle_one_consensus_request x s = receive_blockchain x x.allocs s λ command peer is_valid n.
      after_mutex x.locked s (
        let s' = switch_to_longer is_valid peer s in
        after (blockchain_serialize h s'.blockchain n) s' λ (bytes, n1). after_mutex x.unlocked s' (
          let answer = record command { data_len = length bytes; payload = bytes } in
          after (command_send_blockchain_serialize h answer n1) s' λ ((_, buf), _).
            after_transfer (send_all x.send_calls buf) s' λ sent _ _. returned success s' sent))

  -- `ours` is `sync->blockchain` under the first lock, and `s` what is shared when the second is
  -- taken, or at the return if none is.
  unfoldable pub run_consensus_peer_client_once : Exchange → Blockchain → Sync → Handled Sync
  run_consensus_peer_client_once x ours s =
      if x.connected
      then after_mutex x.locked s (
          after (blockchain_serialize h ours x.allocs) s (λ (bytes, n). after_mutex x.unlocked s (
            let request : CommandPayload = record {
              header = header_of command_send_blockchain;
              data_len = length bytes;
              payload = bytes;
            } in
            after (command_send_blockchain_serialize h request n) s λ ((_, buf), n1).
              after_transfer (send_all x.send_calls buf) s λ sent _ _.
                receive_blockchain x n1 s λ _ peer is_valid _.
                  let s' = switch_to_longer is_valid peer s in
                  if is_valid
                  then after_mutex x.relocked s
                      (after_mutex x.reunlocked s' (returned success s' sent))
                  else returned success s sent)))
      else returned network_function s []
