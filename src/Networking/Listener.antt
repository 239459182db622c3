-- ===== src/Networking/Listener.antt =====
-- The loop of poll and accept that `run_consensus_peer_server` of src/consensus_peer_server_thread.c
-- and `handle_peer_discovery_requests` of src/peer_discovery_bootstrap_server_thread.c have in
-- common.
pub mod Ends
pub mod Keeps
use theblockchainkiller.Base.{
  ℕ, Bool, true, false, ◌&&◌, Option, none, some, List, [], ◌∷◌, if◌then◌else◌,
}
use theblockchainkiller.Runtime.{
  ReturnCode, success, network_function, buffer_too_small, Outcome, ok, err, fault,
}
use theblockchainkiller.Networking.Handler.{Handled, returned, undefined, blocked}

-- How a thread's function goes: it returns a code, or is still in its loop when the list of rounds
-- is used up, or waits for a peer, or its behaviour is undefined. The state is what it shares with
-- other threads.
pub data Thread (S : Type 0) : Type 0 where
  ended : ReturnCode → S → Thread S
  running : ReturnCode → S → Thread S
  waiting : Thread S
  faulty : Thread S

-- `malloc(sizeof(return_code_t))`, whose result is not tested, and the return.
abbrev pub finish : {S : Type 0} → Bool → ReturnCode → S → Thread S
finish true code s = ended code s
finish false code s = faulty

-- The rest of a thread behind a call, or behind one on a mutex, which ends with the call's code if
-- that is not SUCCESS.
abbrev pub go_on : {S A : Type 0} → Bool → Outcome A → S → (A → Thread S) → Thread S
go_on exit_malloc (ok a) s next = next a
go_on exit_malloc (err code) s next = finish exit_malloc code s
go_on exit_malloc fault s next = faulty

abbrev pub go_on_mutex : {S : Type 0} → Bool → Option ReturnCode → S → Thread S → Thread S
go_on_mutex exit_malloc none s next = next
go_on_mutex exit_malloc (some code) s next = finish exit_malloc code s

-- A handler's return, behind which the loop goes on with its code, whatever it is.
abbrev pub behind : {S T : Type 0} → Handled S → (ReturnCode → S → Thread T) → Thread T
behind (returned code s sent) next = next code s
behind undefined next = faulty
behind blocked next = waiting

-- Which of the calls that set the socket up succeed.
pub record Setup : Type 0 where
  pub socket : Bool
  pub reuse_address : Bool
  pub ipv6_only : Bool
  pub bind : Bool
  pub listen : Bool

-- What `poll` and `accept` give in one round: an error, no connection before the timeout, an error of
-- `accept`, an address of another size, a peer whose name cannot be found (only where progress is
-- printed), or a connection with all that happens on it.
pub data Event (X : Type 0) : Type 0 where
  poll_error timeout accept_error other_address unnamed : Event X
  connection : X → Event X

-- A round, with the changes that other threads have made before it, and what `*args->should_stop`
-- reads at its end.
pub record Turn (X S : Type 0) : Type 0 where
  pub event : Event X
  pub others : S → S
  pub stop : Bool

module _ {X S : Type 0} (handle : X → S → Handled S) (exit_malloc : Bool) where
  unfoldable pub serve_event : Event X → ReturnCode → S → (ReturnCode → S → Thread S) → Thread S
  serve_event poll_error code s next = finish exit_malloc network_function s
  serve_event timeout code s next = next code s
  serve_event accept_error code s next = finish exit_malloc network_function s
  serve_event other_address code s next = finish exit_malloc buffer_too_small s
  serve_event unnamed code s next = finish exit_malloc network_function s
  serve_event (connection x) code s next = behind (handle x s) next

  unfoldable pub serve : List (Turn X S) → ReturnCode → S → Thread S
  serve [] code s = running code s
  serve (t ∷ ts) code s = serve_event t.event code (t.others s) λ code' s'.
      let rest = serve ts code' s' in if t.stop then finish exit_malloc code' s' else rest

  -- `stop` is what `*args->should_stop` reads before the loop.
  unfoldable pub run_server : Setup → Bool → List (Turn X S) → S → Thread S
  run_server u stop ts s =
      if u.socket && (u.reuse_address && (u.ipv6_only && (u.bind && u.listen)))
      then (if stop then finish exit_malloc success s else serve ts success s)
      else finish exit_malloc network_function s
