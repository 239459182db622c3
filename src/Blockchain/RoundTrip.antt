-- ===== src/Blockchain/RoundTrip.antt =====
-- A blockchain that a peer deserializes is the one that another peer serialized.
use theblockchainkiller.Base.{ℕ, ◌+◌, ◌-◌, ◌≤◌, ◌≡◌, [], append-nil, arith}
use theblockchainkiller.Runtime.{ok}
use theblockchainkiller.Endian.{Host, Bytes}
use theblockchainkiller.Buffer.{cursor}
use theblockchainkiller.Blockchain.{Blockchain}
use theblockchainkiller.Blockchain.Serialize.{blockchain_serialize}
use theblockchainkiller.Blockchain.Serialize.Cost.{blockchain_serialize-spend}
use theblockchainkiller.Blockchain.Deserialize.{blockchain_deserialize}
use theblockchainkiller.Blockchain.Deserialize.Reads.{blockchain_deserialize-bytes}
use theblockchainkiller.Blockchain.Format.{chain_bytes, IsBlockchain, read_cost}

serialize-bytes :
    (h : Host) (c : Blockchain) (n left : ℕ) (bytes : Bytes)
    → blockchain_serialize h c n ≡ ok (bytes, left)
    → bytes ≡ chain_bytes h c
serialize-bytes h c n left bytes e = ground (arith, blockchain_serialize-spend h c n)

-- If a host of any byte order serializes a blockchain that the C types can hold, then a host of any
-- byte order that can make the allocations deserializes the buffer to that same blockchain, and
-- reads all of it.
pub deserialize-serialize :
    (from to : Host) (c : Blockchain) (n left a : ℕ) (bytes : Bytes)
    → IsBlockchain c
    → blockchain_serialize from c n ≡ ok (bytes, left)
    → read_cost c ≤ a
    → blockchain_deserialize to (cursor a bytes) ≡ ok (c, cursor (a - read_cost c) [])
deserialize-serialize from to c n left a bytes w e enough =
    let spent : a ≡ read_cost c + (a - read_cost c) = omega arith in
    ground (
      arith,
      spent,
      serialize-bytes from c n left bytes e,
      append-nil (chain_bytes from c),
      blockchain_deserialize-bytes to from c (a - read_cost c) [] w,
    )
