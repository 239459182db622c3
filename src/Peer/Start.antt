-- ===== src/Peer/Start.antt =====
-- The blockchain that src/miner.c starts with: a new one with a genesis block.
use theblockchainkiller.Base.{ℕ, ◌≡◌, refl, [], arith}
use theblockchainkiller.Runtime.{ok}
use theblockchainkiller.Endian.{Host, Bytes}
use theblockchainkiller.Crypto.{OpenSsl}
use theblockchainkiller.Buffer.{malloc}
use theblockchainkiller.Blockchain.{
  Block, Blockchain, blockchain_create, blockchain_add_block, genesis_block_proof_of_work,
}
use theblockchainkiller.Block.{zero_hash, block_create, block_create_genesis_block}
use theblockchainkiller.Peer.Invariant.{Holds}

create-ok :
    (required n n' : ℕ) (c : Blockchain)
    → blockchain_create required n ≡ ok (c, n')
    → c ≡ record { block_list = []; num_leading_zero_bytes_required_in_block_hash = required }
unfolding blockchain_create malloc
create-ok required n n' c e = ground arith

abbrev genesis_at : ℕ → Block
genesis_at now = record {
  created_at = now;
  transaction_list = [];
  proof_of_work = genesis_block_proof_of_work;
  previous_block_hash = zero_hash;
}

genesis-ok :
    (now n n' : ℕ) (g : Block) → block_create_genesis_block now n ≡ ok (g, n') → g ≡ genesis_at now
unfolding block_create_genesis_block block_create malloc
genesis-ok now n n' g e = ground arith

-- A blockchain that `blockchain_create` returns is valid with the block added that
-- `block_create_genesis_block` returns, at any time, and has the difficulty asked for and one block.
pub create_genesis-Holds :
    (h : Host) (ssl : OpenSsl) (public_key private_key : Bytes) (required now n n1 n2 : ℕ)
    (c : Blockchain) (g : Block)
    → blockchain_create required n ≡ ok (c, n1)
    → block_create_genesis_block now n1 ≡ ok (g, n2)
    → Holds h ssl public_key private_key required 1 (blockchain_add_block c g)
unfolding blockchain_add_block
create_genesis-Holds h ssl public_key private_key required now n n1 n2 c g created genesis =
    rw (create-ok required n n1 c created, genesis-ok now n1 n2 g genesis)
      (record {
        is_valid = (record { no_transaction = refl; proof = refl; no_previous = refl }, tt);
        is_shaped = (record { keys = tt; hash_fits = refl }, tt);
        same_zeros = refl;
        no_shorter = omega arith;
      })
