-- ===== src/Networking/Listener/Ends.antt =====
-- Why such a loop ends: no request that is answered, with whatever code, is a reason.
use theblockchainkiller.Base.{
  ◌≡◌, refl, Bool, true, false, Option, none, some, List, [], ◌∷◌, All, if◌then◌else◌,
}
use theblockchainkiller.Runtime.{ReturnCode, network_function, buffer_too_small}
use theblockchainkiller.Networking.Handler.{Handled, returned, undefined, blocked}
use theblockchainkiller.Networking.Listener.{
  Thread, ended, running, waiting, faulty, finish, behind, Event, poll_error, timeout, accept_error,
  other_address, unnamed, connection, Turn, serve_event, serve,
}

pub data Somewhere {A : Type 0} (P : A → Type 0) : List A → Type 0 where
  here : {x : A} {xs : List A} → P x → Somewhere P (x ∷ xs)
  later : {x : A} {xs : List A} → Somewhere P xs → Somewhere P (x ∷ xs)

-- The code of an event on which there is no request.
abbrev pub failure_of : {X : Type 0} → Event X → Option ReturnCode
failure_of poll_error = some network_function
failure_of timeout = none
failure_of accept_error = some network_function
failure_of other_address = some buffer_too_small
failure_of unnamed = some network_function
failure_of (connection x) = none

module _ {X S : Type 0} (handle : X → S → Handled S) where
  -- A request on which the handler comes to this result.
  abbrev pub Requested : Handled S → Turn X S → Type 0
  Requested r t = (x : X) × (s : S) × (t.event ≡ connection x) × (handle x s ≡ r)

  -- How the loop goes, with a reason among its rounds: it is not over, and then nothing has failed
  -- and `should_stop` was never set; it was stopped; it has the code of a failure; it waits for a
  -- peer; or a handler's behaviour is undefined.
  pub data Explained (ts : List (Turn X S)) : Thread S → Type 0 where
    goes_on :
        {code : ReturnCode} {s : S}
        → All (λ (t : Turn X S). (t.stop ≡ false) × (failure_of t.event ≡ none)) ts
        → Explained ts (running code s)
    stopped :
        {code : ReturnCode} {s : S}
        → Somewhere (λ (t : Turn X S). t.stop ≡ true) ts
        → Explained ts (ended code s)
    failed :
        {code : ReturnCode} {s : S}
        → Somewhere (λ (t : Turn X S). failure_of t.event ≡ some code) ts
        → Explained ts (ended code s)
    stuck : Somewhere (Requested blocked) ts → Explained ts waiting
    broken : Somewhere (Requested undefined) ts → Explained ts faulty

  later-Explained :
      {t : Turn X S} {ts : List (Turn X S)} {r : Thread S}
      → t.stop ≡ false
      → failure_of t.event ≡ none
      → Explained ts r
      → Explained (t ∷ ts) r
  later-Explained e f (goes_on w) = goes_on ((e, f), w)
  later-Explained e f (stopped w) = stopped (later w)
  later-Explained e f (failed w) = failed (later w)
  later-Explained e f (stuck w) = stuck (later w)
  later-Explained e f (broken w) = broken (later w)

  -- The end of a round in which nothing has failed.
  round-Explained :
      (t : Turn X S) (ts : List (Turn X S)) (code : ReturnCode) (s : S) {r : Thread S}
      → failure_of t.event ≡ none
      → Explained ts r
      → Explained (t ∷ ts) (if t.stop then finish true code s else r)
  round-Explained t ts code s {r} f w = go t.stop refl
    where
      go : (b : Bool) → t.stop ≡ b → Explained (t ∷ ts) (if b then finish true code s else r)
      go true e = stopped (here e)
      go false e = later-Explained e f w

  behind-Explained :
      (t : Turn X S) (ts : List (Turn X S)) (x : X) (s : S) (next : ReturnCode → S → Thread S)
      (r : Handled S)
      → t.event ≡ connection x
      → handle x s ≡ r
      → ((code' : ReturnCode) (s' : S) → Explained (t ∷ ts) (next code' s'))
      → Explained (t ∷ ts) (behind r next)
  behind-Explained t ts x s next (returned code s' sent) e is_r k = k code s'
  behind-Explained t ts x s next undefined e is_r k = broken (here (x, s, e, is_r))
  behind-Explained t ts x s next blocked e is_r k = stuck (here (x, s, e, is_r))

  serve_event-Explained :
      (t : Turn X S) (ts : List (Turn X S)) (e : Event X) (code : ReturnCode) (s : S)
      (next : ReturnCode → S → Thread S)
      → t.event ≡ e
      → (failure_of t.event ≡ none
          → (code' : ReturnCode) (s' : S) → Explained (t ∷ ts) (next code' s'))
      → Explained (t ∷ ts) (serve_event handle true e code s next)
  unfolding serve_event
  serve_event-Explained t ts poll_error code s next is_e k = failed (here (rw is_e refl))
  serve_event-Explained t ts timeout code s next is_e k = k (rw is_e refl) code s
  serve_event-Explained t ts accept_error code s next is_e k = failed (here (rw is_e refl))
  serve_event-Explained t ts other_address code s next is_e k = failed (here (rw is_e refl))
  serve_event-Explained t ts unnamed code s next is_e k = failed (here (rw is_e refl))
  serve_event-Explained t ts (connection x) code s next is_e k =
      behind-Explained t ts x s next (handle x s) is_e refl (k (rw is_e refl))

  -- If the loop returns, and it can allocate its return code, then `should_stop` was set at the end
  -- of a round, or it returns the code of a failure in one: of `poll` or `accept`, of an address of
  -- another size, or of the look-up of a peer's name for the progress that is printed. Otherwise it
  -- still runs, and nothing of that has happened; or on a connection the handler waits for the peer,
  -- or its behaviour is undefined. So whatever the peers send and whatever code the handler returns
  -- for it, the loop does not end for that.
  pub serve-Explained :
      (ts : List (Turn X S)) (code : ReturnCode) (s : S)
      → Explained ts (serve handle true ts code s)
  unfolding serve
  serve-Explained [] code s = goes_on tt
  serve-Explained (t ∷ ts) code s =
      serve_event-Explained t ts t.event code (t.others s) _ refl
        λ f code' s'. round-Explained t ts code' s' f (serve-Explained ts code' s')
