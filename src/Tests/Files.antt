-- ===== src/Tests/Files.antt =====
-- A blockchain in a file.
use theblockchainkiller.Base.{◌≡◌, refl, true, none, [], arith}
use theblockchainkiller.Runtime.{ok}
use theblockchainkiller.Endian.{little, big, store, low_first}
use theblockchainkiller.Buffer.{cursor, be64}
use theblockchainkiller.Blockchain.Format.{chain_bytes, blocks_bytes, transactions_bytes}
use theblockchainkiller.Blockchain.Serialize.{block_header_bytes, transaction_bytes}
use theblockchainkiller.Blockchain.File.{
  Writing, Reading, blockchain_write_to_file, blockchain_read_from_file,
}
use theblockchainkiller.Blockchain.File.RoundTrip.{read_from_file-write_to_file}
use theblockchainkiller.Printing.{blockchain_print}
use theblockchainkiller.Printing.ReadBack.{read_numbers, proofs, read_numbers-blockchain_print}
use theblockchainkiller.Tests.Chain.{sample, sample-IsBlockchain}

abbrev writing : Writing
writing = record { opened = true; accepted = 10000; kept = 10000 }

abbrev reading : Reading
reading = record { opened = true; told = true; given = 10000 }

read_from_file-write_to_file_example :
    let (result, written) = blockchain_write_to_file little sample writing 9 none in
    (result ≡ ok 5) × (blockchain_read_from_file big reading 14 written ≡ ok (sample, cursor 3 []))
unfolding chain_bytes be64 store low_first blocks_bytes block_header_bytes transactions_bytes
    transaction_bytes
read_from_file-write_to_file_example =
    read_from_file-write_to_file little big sample writing reading 9 14 none sample-IsBlockchain
      (omega arith) (omega arith) refl (omega arith) (omega arith) refl refl (omega arith)
      (omega arith)

read_numbers-blockchain_print_example :
    read_numbers 0 (blockchain_print sample) ≡ proofs sample.block_list
read_numbers-blockchain_print_example =
    read_numbers-blockchain_print sample (omega arith, (omega arith, tt))
