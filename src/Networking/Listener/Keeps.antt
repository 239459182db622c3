-- ===== src/Networking/Listener/Keeps.antt =====
-- What holds of the shared state all along such a loop.
use theblockchainkiller.Base.{
  ◌≡◌, refl, Bool, true, false, ◌&&◌, Option, none, some, List, [], ◌∷◌, All, if◌then◌else◌,
}
use theblockchainkiller.Runtime.{ReturnCode, success, network_function, Outcome, ok, err, fault}
use theblockchainkiller.Endian.{Bytes}
use theblockchainkiller.Networking.Handler.{Handled, returned, undefined, blocked}
use theblockchainkiller.Networking.Listener.{
  Thread, ended, running, waiting, faulty, finish, go_on, go_on_mutex, behind, Setup, Event,
  poll_error, timeout, accept_error, other_address, unnamed, connection, Turn, serve_event, serve,
  run_server,
}

-- The shared state of a thread that has returned or is in its loop.
pub data Shares {S : Type 0} (P : S → Type 0) : Thread S → Type 0 where
  shares_ended : {code : ReturnCode} {s : S} → P s → Shares P (ended code s)
  shares_running : {code : ReturnCode} {s : S} → P s → Shares P (running code s)
  shares_waiting : Shares P waiting
  shares_faulty : Shares P faulty

pub Shares-finish :
    {S : Type 0} {P : S → Type 0} (exit_malloc : Bool) (code : ReturnCode) (s : S)
    → P s
    → Shares P (finish exit_malloc code s)
Shares-finish true code s w = shares_ended w
Shares-finish false code s w = shares_faulty

pub Shares-if :
    {S : Type 0} {P : S → Type 0} {t u : Thread S} (b : Bool)
    → Shares P t
    → Shares P u
    → Shares P (if b then t else u)
Shares-if true w v = w
Shares-if false w v = v

pub Shares-go_on :
    {S A : Type 0} {P : S → Type 0} (exit_malloc : Bool) (o : Outcome A) (s : S)
    (next : A → Thread S)
    → P s
    → ((a : A) → Shares P (next a))
    → Shares P (go_on exit_malloc o s next)
Shares-go_on exit_malloc (ok a) s next w v = v a
Shares-go_on exit_malloc (err code) s next w v = Shares-finish exit_malloc code s w
Shares-go_on exit_malloc fault s next w v = shares_faulty

pub Shares-go_on_mutex :
    {S : Type 0} {P : S → Type 0} {t : Thread S} (exit_malloc : Bool) (o : Option ReturnCode)
    (s : S)
    → P s
    → Shares P t
    → Shares P (go_on_mutex exit_malloc o s t)
Shares-go_on_mutex exit_malloc none s w v = v
Shares-go_on_mutex exit_malloc (some code) s w v = Shares-finish exit_malloc code s w

pub Shares-behind :
    {S T : Type 0} {P : S → Type 0} {Q : T → Type 0} (r : Handled S)
    (next : ReturnCode → S → Thread T)
    → ((code : ReturnCode) (s : S) (sent : Bytes) → r ≡ returned code s sent → P s)
    → ((code : ReturnCode) (s : S) → P s → Shares Q (next code s))
    → Shares Q (behind r next)
Shares-behind (returned code s sent) next keeps w = w code s (keeps code s sent refl)
Shares-behind undefined next keeps w = shares_faulty
Shares-behind blocked next keeps w = shares_waiting

-- What other threads do keeps `P`.
abbrev pub OthersKeep : {X S : Type 0} → (S → Type 0) → List (Turn X S) → Type 0
OthersKeep P ts = All (λ t. (s : _) → P s → P (t.others s)) ts

module _ {X S : Type 0} (handle : X → S → Handled S) (exit_malloc : Bool) (P : S → Type 0)
    (keeps : (x : X) (s s' : S) (code : ReturnCode) (sent : Bytes)
      → P s
      → handle x s ≡ returned code s' sent
      → P s') where
  serve_event-Shares :
      (e : Event X) (code : ReturnCode) (s : S) (next : ReturnCode → S → Thread S)
      → P s
      → ((code' : ReturnCode) (s' : S) → P s' → Shares P (next code' s'))
      → Shares P (serve_event handle exit_malloc e code s next)
  unfolding serve_event
  serve_event-Shares poll_error code s next p w = Shares-finish exit_malloc _ s p
  serve_event-Shares timeout code s next p w = w code s p
  serve_event-Shares accept_error code s next p w = Shares-finish exit_malloc _ s p
  serve_event-Shares other_address code s next p w = Shares-finish exit_malloc _ s p
  serve_event-Shares unnamed code s next p w = Shares-finish exit_malloc _ s p
  serve_event-Shares (connection x) code s next p w =
      Shares-behind (handle x s) next (λ code' s' sent. keeps x s s' code' sent p) w

  serve-Shares :
      (ts : List (Turn X S)) (code : ReturnCode) (s : S)
      → OthersKeep P ts
      → P s
      → Shares P (serve handle exit_malloc ts code s)
  unfolding serve
  serve-Shares [] code s others p = shares_running p
  serve-Shares (t ∷ ts) code s others p =
      serve_event-Shares t.event code (t.others s) _ (others.0 s p) λ code' s' p'.
        Shares-if t.stop (Shares-finish exit_malloc code' s' p')
          (serve-Shares ts code' s' others.1 p')

  pub run_server-Shares :
      (u : Setup) (stop : Bool) (ts : List (Turn X S)) (s : S)
      → OthersKeep P ts
      → P s
      → Shares P (run_server handle exit_malloc u stop ts s)
  unfolding run_server
  run_server-Shares u stop ts s others p =
      Shares-if (u.socket && (u.reuse_address && (u.ipv6_only && (u.bind && u.listen))))
        (Shares-if stop (Shares-finish exit_malloc success s p)
          (serve-Shares ts success s others p))
        (Shares-finish exit_malloc network_function s p)
