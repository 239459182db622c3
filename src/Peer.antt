-- ===== src/Peer.antt =====
-- A peer as src/miner.c runs it: threads that share one blockchain. Its server
-- (src/consensus_peer_server_thread.c) answers requests, its client
-- (src/consensus_peer_client_thread.c) asks other peers, and its miner (src/mining_thread.c) adds
-- blocks.
pub mod Invariant
pub mod Start
pub mod Threads
use theblockchainkiller.Base.{ℕ, ◌≡◌, none, some}
use theblockchainkiller.Runtime.{ReturnCode}
use theblockchainkiller.Endian.{Host, Bytes}
use theblockchainkiller.Crypto.{OpenSsl}
use theblockchainkiller.Blockchain.{Blockchain}
use theblockchainkiller.Networking.Handler.{returned}
use theblockchainkiller.Consensus.{
  Sync, Exchange, handle_one_consensus_request, run_consensus_peer_client_once,
}
use theblockchainkiller.MiningThread.{Mining, went_on, mine_round}

module _ (h : Host) (ssl : OpenSsl) (miner_public_key miner_private_key : Bytes) where
  -- One thread at a time gets on: a request is answered, an exchange with a peer is over, or a round
  -- of mining on the shared blockchain goes on to the next, with the block it has added.
  pub data Step : Sync → Sync → Type 0 where
    served :
        (s s' : Sync) (x : Exchange) (c : ReturnCode) (sent : Bytes)
        → handle_one_consensus_request h ssl x s ≡ returned c s' sent
        → Step s s'
    asked :
        (s s' : Sync) (x : Exchange) (ours : Blockchain) (c : ReturnCode) (sent : Bytes)
        → run_consensus_peer_client_once h ssl x ours s ≡ returned c s' sent
        → Step s s'
    mined :
        (s : Sync) (m : Mining) (code : ReturnCode) (c : Blockchain)
        → m.synced ≡ s.blockchain
        → went_on (mine_round h ssl miner_public_key miner_private_key m s.blockchain)
          ≡ some (code, c)
        → Step s (record s { blockchain = c })

  pub data Reach (s : Sync) : Sync → Type 0 where
    start : Reach s s
    then : {t u : Sync} → Reach s t → Step t u → Reach s u
