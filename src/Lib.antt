-- ===== src/Lib.antt =====
-- The LeoCoin peer: a blockchain with proof of work, its wire format, and the commands by which
-- peers find each other and exchange blockchains.
--
-- Parts of the program and the modules for them (paths from the repository's root):
--
-- - include/return_codes.h: Runtime. `ReturnCode` has the codes; the result of a call is an
--   `Outcome`, which is `ok` for SUCCESS, `err` with a code, or `fault` for behaviour that C leaves
--   undefined.
-- - src/endian.c: Endian. `htobe64` and `betoh64` work on the object representation of an integer,
--   whose byte order is the parameter `Host`.
-- - memcmp and memcpy: Memory. A read or write past the end of an object is a `fault`.
-- - The buffers of all serializers and deserializers: Buffer. A writer's state is the number of
--   allocations that succeed before the first that fails; a reader's is that number and the unread
--   bytes.
-- - include/cryptography.h: Crypto. OpenSSL is not part of the repository: the record `OpenSsl` is a
--   parameter, of which the length of a SHA-256 digest is assumed, and for signatures the record
--   `KeyPair` of Transaction.Signing.
-- - src/transaction.c: Transaction. src/block.c: Block. The destroy functions of both files and of
--   src/blockchain.c: Destroy, on the heap of Store, with Store.Objects for the objects that are not
--   nodes or lists.
-- - src/blockchain.c: Blockchain. Its child Verify is `blockchain_verify`, with the independent
--   description of a valid blockchain in Verify.Valid; Mine is the search for a proof of work;
--   Serialize and Deserialize are the wire format, with Format for its description; File is a
--   blockchain in a file.
-- - src/networking.c: Networking. Header, Register and Payload are the commands, Socket is
--   `recv_all` and `send_all`, Handler is what the handlers of all threads have in common, and
--   Listener the loop of poll and accept of both servers.
-- - src/peer_discovery.c: PeerDiscovery. Its child Server is the handler of
--   src/peer_discovery_bootstrap_server_thread.c, Client the exchange of
--   src/peer_discovery_thread.c, Threads the loops of both files, and Programs
--   src/peer_discovery_bootstrap_server.c and src/peer_discovery_client.c. The
--   server's `PeerList` may have a node in front whose peer has been freed: any call that reads the
--   list is undefined then. Sweep is what the server does with the nodes of the list: it adds one,
--   and its loop takes expired ones out. Compare, Registered, Smooth and Exchange are about a client
--   and a server that talk to each other.
-- - src/consensus_peer_server_thread.c and src/consensus_peer_client_thread.c: Consensus, the
--   exchange of blockchains with one peer and the switch to a longer one. Its child Threads is the
--   loop of the server, that of the client over its copy of the list of peers, and
--   `broadcast_blockchain`. Honest is about a peer that sends its blockchain, Smooth about an exchange
--   in which no call fails, and Agree about two peers that run the code for each other.
-- - src/mining_thread.c: MiningThread, from the first read of the shared blockchain to the return of
--   `mine_blocks`. Files is about the file that it writes, Exit about its signal.
-- - Peer: the threads of one peer as a step relation on the blockchain that they share; Peer.Threads
--   is about each thread from its start to its end.
-- - src/linked_list.c: LinkedList, on the heap of Store. LinkedList.Spec is what its functions promise
--   to their users, LinkedList.Refines compares the two, and LinkedList.Client is about a list from
--   its creation to its destruction.
-- - src/miner.c: Miner, from the command line to the state with which the threads start, and
--   Miner.Run, the whole of its main. CommandLine has what the three programs share. src/base64.c:
--   Base64. src/sleep.c: Sleep. src/hash.c, and blockchain_print of src/blockchain.c: Printing.
-- - Tests has concrete data and a stand-in for OpenSSL.
--
-- A block names the hash of the block before it, and `blockchain_verify` follows these names from
-- the genesis block on. A miner searches for a proof of work for its next block. A peer sends its
-- blockchain in a command with a payload, and the bootstrap server sends a list of peers in another.
-- A step of Peer is one exchange or one round of mining that no other step overlaps: the mutex of
-- the shared blockchain makes the switch to another one atomic, and the search for a proof of work
-- gives up when the version changes.
--
-- How the code is translated:
--
-- - An argument that is a pointer is the object it points to; tests for NULL are left out. A
--   `linked_list_t` is a List. In LinkedList, Destroy and PeerDiscovery.Sweep alone pointers are
--   addresses of a heap, which may be NULL: what the other modules take for granted of lists is
--   proved there. The loops over the nodes get a number of rounds, for which the number of items and
--   one more is enough; the memory behind the data pointers is that of the list's user, and so are
--   the free and the compare function.
-- - A function that returns a code and writes through pointers returns an `Outcome` of what it
--   writes. Functions run over a state in the monad `Run`.
-- - Each function gives up at the first allocation that fails, so an allocator is the number of
--   allocations that succeed before. `blockchain_add_block` has no failure of its own: its allocation
--   is made where it is called. What is freed or leaked is left out, but for LinkedList, Destroy
--   and PeerDiscovery.Sweep, where each call of `malloc` succeeds or fails on its own.
-- - Integers are natural numbers, with `% 2 ^ w` where the code's arithmetic can wrap round. `size_t`
--   and `time_t` have 64 bits, and structs are laid out as on x86-64.
-- - What other threads write into atomics during a search (`should_stop` and the two versions) is a
--   function of the round. What the kernel's `recv` and `send` return is a list of `Call`s, which
--   also bounds their loops; a call moves fewer than 2^31 bytes, as those of Linux do, so the `int`
--   that keeps its result does not change it. What another thread or a peer does during an exchange or a round of
--   mining is a record, such as `Exchange` or `Mining`; a file is its bytes, if there is one. The
--   rounds of `mine_blocks` and of the other threads' loops are a list, with what other threads do to
--   the shared state between them, and the search for a proof of work has 2 ^ 64 - 1 rounds, as in
--   the code.
--
-- Not modelled: printing, but for that of hashes and blockchains; freeing, but for that by the
-- functions of lists, by the destroy functions, and of the peers that the bootstrap server puts into
-- its list or takes out of it; the clean-up at the end of the programs; the thread that broadcasts
-- beside the loop of `mine_blocks`, with the join of it; and the functions that pass a thread's
-- arguments on to it.
-- An exchange that is undefined in C, such as one in which a peer announces a command that is too
-- long to be allocated, is the value `undefined` of a handler, and not a step of Peer.
pub mod Base
pub mod Runtime
pub mod Endian
pub mod Buffer
pub mod Crypto
pub mod Blockchain
pub mod Transaction
pub mod Block
pub mod Memory
pub mod Networking
pub mod PeerDiscovery
pub mod Consensus
pub mod MiningThread
pub mod Peer
pub mod Store
pub mod LinkedList
pub mod Destroy
pub mod Base64
pub mod Sleep
pub mod CommandLine
pub mod Printing
pub mod Miner
pub mod Tests
