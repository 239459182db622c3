-- ===== src/Consensus/Agree.antt =====
-- Two peers that exchange their blockchains: the client of one with the server of the other.
use theblockchainkiller.Base.{
  ℕ, ◌+◌, ◌-◌, ◌≤◌, ◌≡◌, refl, true, List, [], All, length, arith, append-nil, ltb, if◌then◌else◌,
  ◌⊎◌, inl, inr, ap, sym, ◌∙◌, false,
}
use native.Mathlib.Decide.{ℕ_discrete}
use theblockchainkiller.Runtime.{success}
use theblockchainkiller.Endian.{Host, Bytes}
use theblockchainkiller.Crypto.{OpenSsl}
use theblockchainkiller.Blockchain.{Blockchain}
use theblockchainkiller.Blockchain.Format.{read_cost, write_cost}
use theblockchainkiller.Blockchain.Verify.Valid.{IsValid}
use theblockchainkiller.Networking.Payload.RoundTrip.{payload_bytes}
use theblockchainkiller.Networking.Socket.{Call}
use theblockchainkiller.Networking.Socket.Stream.{Progress}
use theblockchainkiller.Networking.Handler.{returned}
use theblockchainkiller.Consensus.{
  Sync, switch_to_longer, handle_one_consensus_request, run_consensus_peer_client_once,
}
use theblockchainkiller.Consensus.Smooth.{
  announced, smooth, IsSendable, serialize_allocs, receive_allocs,
  handle_one_consensus_request-whole, run_consensus_peer_client_once-whole,
}

-- The longer of two blockchains, and the first if they are equally long.
abbrev pub longer_of : Blockchain → Blockchain → Blockchain
longer_of c d = if ltb (length c.block_list) (length d.block_list) then d else c

switch_to_longer-longer_of :
    (peer : Blockchain) (s : Sync)
    → s.blockchain.num_leading_zero_bytes_required_in_block_hash
      ≡ peer.num_leading_zero_bytes_required_in_block_hash
    → (switch_to_longer true peer s).blockchain ≡ longer_of s.blockchain peer
unfolding switch_to_longer
switch_to_longer-longer_of peer s same = ground (arith, same)

-- The calls of `recv` and `send` that a peer makes in one exchange: each moves a byte at least, and
-- there are enough of them for either blockchain.
pub record IsLive (calls : List Call) (from : Host) (c d : Blockchain) : Type 0 where
  pub progress : All Progress calls
  pub first : length (payload_bytes from (announced from c)) ≤ length calls
  pub second : length (payload_bytes from (announced from d)) ≤ length calls

-- What both hosts make of a blockchain.
pub record IsAccepted (h k : Host) (ssl : OpenSsl) (c : Blockchain) : Type 0 where
  pub sendable : IsSendable c
  pub valid_here : IsValid h ssl c
  pub valid_there : IsValid k ssl c

longer_of-le : (cost : Blockchain → ℕ) (c d : Blockchain) → cost (longer_of c d) ≤ cost c + cost d
longer_of-le cost c d =
    elim (ltb (length c.block_list) (length d.block_list))
      as (λ b. cost (if b then d else c) ≤ cost c + cost d) [
        | true ↦ omega arith
        | false ↦ omega arith
      ]

-- Whoever wins is the same for both.
longer_of_twice : (c d : Blockchain) → longer_of c (longer_of d c) ≡ longer_of c d
longer_of_twice c d = ground arith

longer_of_agree :
    (c d : Blockchain)
    → (length c.block_list ≡ length d.block_list) ⊎ (longer_of c d ≡ longer_of d c)
longer_of_agree c d = elim (ℕ_discrete (length c.block_list) (length d.block_list)) [
  | yes e ↦ inl e
  | no ne ↦ inr (ground arith)
]

longer_of-either : (P : Blockchain → Type 0) (c d : Blockchain) → P c → P d → P (longer_of c d)
longer_of-either P c d p q =
    elim (ltb (length c.block_list) (length d.block_list)) as (λ b. P (if b then d else c)) [
      | true ↦ q
      | false ↦ p
    ]

-- The two ends of one exchange, where what each gets is what the other has sent.
pub record Exchanged (h k : Host) (ssl : OpenSsl) (client server : Sync)
    (client_recv client_send server_recv server_send : List Call) (client_allocs server_allocs : ℕ)
    : Type 0 where
  pub client' : Sync
  pub server' : Sync
  pub request : Bytes
  pub answer : Bytes
  pub asked :
      run_consensus_peer_client_once h ssl
        (smooth client_recv client_send answer client_allocs)
        client.blockchain
        client
      ≡ returned success client' request
  pub served :
      handle_one_consensus_request k ssl
        (smooth server_recv server_send request server_allocs)
        server
      ≡ returned success server' answer
  pub client_has : client'.blockchain ≡ longer_of client.blockchain server.blockchain
  pub server_has : server'.blockchain ≡ longer_of server.blockchain client.blockchain
  pub agree :
      (length client.blockchain.block_list ≡ length server.blockchain.block_list)
      ⊎ (client'.blockchain ≡ server'.blockchain)

-- What an exchange needs of the blockchain that wins.
record IsWinner (h k : Host) (ssl : OpenSsl) (client : Sync) (client_recv server_send : List Call)
    (c : Blockchain) : Type 0 where
  accepted : IsAccepted h k ssl c
  same_zeros :
      client.blockchain.num_leading_zero_bytes_required_in_block_hash
      ≡ c.num_leading_zero_bytes_required_in_block_hash
  received : length (payload_bytes k (announced k c)) ≤ length client_recv
  sent : length (payload_bytes k (announced k c)) ≤ length server_send

module _ (h k : Host) (ssl : OpenSsl) (client server : Sync)
    (w : IsAccepted h k ssl client.blockchain) (v : IsAccepted h k ssl server.blockchain)
    (same : client.blockchain.num_leading_zero_bytes_required_in_block_hash
      ≡ server.blockchain.num_leading_zero_bytes_required_in_block_hash) where
  -- If both peers find both blockchains valid, which require as many zero bytes, within the digest,
  -- and which the C types can hold, also in a command of less than 2^63 bytes; if no call fails, each
  -- recv and send moves a byte at least, there are enough of them for either blockchain, and the
  -- allocations are enough: then the client of one peer and the server of the other, where each gets
  -- what the other has sent, both return SUCCESS. After that each has the longer of the two
  -- blockchains, and its own if they are equally long. So they agree if the lengths differ.
  pub run_consensus_peer_client_once-Exchanged :
      (client_recv client_send server_recv server_send : List Call)
      (client_allocs server_allocs : ℕ)
      → IsLive client_recv k client.blockchain server.blockchain
      → IsLive client_send h client.blockchain server.blockchain
      → IsLive server_recv h client.blockchain server.blockchain
      → IsLive server_send k client.blockchain server.blockchain
      → 6 + write_cost client.blockchain + read_cost client.blockchain + read_cost server.blockchain
        ≤ client_allocs
      → 6
          + read_cost client.blockchain
          + write_cost client.blockchain
          + write_cost server.blockchain
        ≤ server_allocs
      → Exchanged h k ssl client server client_recv client_send server_recv server_send
          client_allocs server_allocs
  run_consensus_peer_client_once-Exchanged client_recv client_send server_recv server_send
        client_allocs server_allocs cr cs sr ss enough enough' =
      let c = client.blockchain in
      let d = server.blockchain in
      let server' = switch_to_longer true c server in
      let winner = server'.blockchain in
      let client' = switch_to_longer true winner client in
      let wins : winner ≡ longer_of d c = switch_to_longer-longer_of c server (sym same) in
      let fit : IsWinner h k ssl client client_recv server_send winner = rw wins (
        longer_of-either (IsWinner h k ssl client client_recv server_send) d c
          (record { accepted = v; same_zeros = same; received = cr.second; sent = ss.second })
          (record { accepted = w; same_zeros = refl; received = cr.first; sent = ss.first })) in
      let client_has : client'.blockchain ≡ longer_of c d =
        switch_to_longer-longer_of winner client fit.same_zeros
        ∙ ap (λ e. longer_of c e) wins
        ∙ longer_of_twice c d in
      let read_le : read_cost winner ≤ read_cost d + read_cost c =
        rw wins (longer_of-le read_cost d c) in
      let write_le : write_cost winner ≤ write_cost d + write_cost c =
        rw wins (longer_of-le write_cost d c) in
      let client_left = client_allocs - (6 + write_cost c + read_cost winner) in
      let server_left = server_allocs - (6 + read_cost c + write_cost winner) in
      let client_split : write_cost c + serialize_allocs (receive_allocs winner client_left)
          ≡ client_allocs =
        omega arith in
      let server_split : receive_allocs c (write_cost winner + serialize_allocs server_left)
          ≡ server_allocs =
        omega arith in
      record {
        client' = client';
        server' = server';
        request = payload_bytes h (announced h c);
        answer = payload_bytes k (announced k winner);
        asked =
            rw (append-nil, client_split) at
              (run_consensus_peer_client_once-whole h ssl client_recv client_send k winner c []
                client_left client fit.accepted.sendable fit.accepted.valid_here w.sendable
                cr.progress fit.received cs.progress cs.first);
        served =
            rw (append-nil, server_split) at
              (handle_one_consensus_request-whole k ssl server_recv server_send h c [] server_left
                server w.sendable w.valid_there fit.accepted.sendable sr.progress sr.first
                ss.progress fit.sent);
        client_has = client_has;
        server_has = wins;
        agree = elim (longer_of_agree c d) [
          | inl e ↦ inl e
          | inr e ↦ inr (client_has ∙ e ∙ sym wins)
        ];
      }
