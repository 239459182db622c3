-- ===== src/Networking/Handler/Leaves.antt =====
-- What holds of the state that a handler leaves, on whatever path it returns.
use theblockchainkiller.Base.{
  ℕ, ◌≡◌, refl, Bool, true, false, Option, none, some, List, arith, if◌then◌else◌,
}
use theblockchainkiller.Runtime.{ReturnCode, Outcome, ok, err, fault}
use theblockchainkiller.Endian.{Host, Bytes}
use theblockchainkiller.Networking.Socket.{Call, Transfer, done, network_error, waits, recv_all}
use theblockchainkiller.Buffer.{cursor, malloc}
use theblockchainkiller.Networking.{header_size}
use theblockchainkiller.Networking.Header.{command_header_deserialize}
use theblockchainkiller.Networking.Handler.{
  Handled, returned, undefined, after, after_mutex, after_transfer, receive_command,
}

pub data Leaves {S : Type 0} (P : S → Type 0) (r : Handled S) : Type 0 where
  leaves : ((c : ReturnCode) (s : S) (sent : Bytes) → r ≡ returned c s sent → P s) → Leaves P r

pub left_by :
    {S : Type 0} {P : S → Type 0} {r : Handled S}
    → Leaves P r
    → (c : ReturnCode) (s : S) (sent : Bytes) → r ≡ returned c s sent
    → P s
left_by (leaves l) = l

pub Leaves-returned :
    {S : Type 0} {P : S → Type 0} (c : ReturnCode) (s : S) (sent : Bytes)
    → P s
    → Leaves P (returned c s sent)
Leaves-returned c s sent p =
    leaves λ c' s' sent' e. let same : s ≡ s' = ground arith in rw (← same) p

pub Leaves-undefined : {S : Type 0} {P : S → Type 0} → Leaves {S = S} P undefined
Leaves-undefined = leaves λ c s sent e. cc

pub Leaves-after :
    {S : Type 0} {P : S → Type 0} {A : Type 0} (o : Outcome A) (s : S) {next : A → Handled S}
    → P s
    → ((a : A) → o ≡ ok a → Leaves P (next a))
    → Leaves P (after o s next)
Leaves-after (ok a) s p k = k a refl
Leaves-after (err c) s p k = Leaves-returned c _ _ p
Leaves-after fault s p k = leaves λ c s' sent e. cc

pub Leaves-after_mutex :
    {S : Type 0} {P : S → Type 0} (o : Option ReturnCode) (s : S) {next : Handled S}
    → P s
    → Leaves P next
    → Leaves P (after_mutex o s next)
Leaves-after_mutex none s p k = k
Leaves-after_mutex (some c) s p k = Leaves-returned c _ _ p

pub Leaves-after_transfer :
    {S : Type 0} {P : S → Type 0} (t : Transfer) (s : S)
    {next : Bytes → Bytes → List Call → Handled S}
    → P s
    → ((moved left : Bytes) (calls : List Call) → Leaves P (next moved left calls))
    → Leaves P (after_transfer t s next)
Leaves-after_transfer (done moved left calls) s p k = k moved left calls
Leaves-after_transfer network_error s p k = Leaves-returned _ _ _ p
Leaves-after_transfer waits s p k = leaves λ c s' sent e. cc

pub Leaves-if :
    {S : Type 0} {P : S → Type 0} (b : Bool) {r q : Handled S}
    → Leaves P r
    → Leaves P q
    → Leaves P (if b then r else q)
Leaves-if true y n = y
Leaves-if false y n = n

pub Leaves-receive_command :
    (h : Host) {S : Type 0} {P : S → Type 0} (grow_by : ℕ → ℕ → Outcome ℕ) (number : ℕ)
    (calls : List Call) (stream : Bytes) (n : ℕ) (s : S) {next : Bytes → ℕ → Handled S}
    → P s
    → ((buf : Bytes) (n' : ℕ) → Leaves P (next buf n'))
    → Leaves P (receive_command h grow_by number calls stream n s next)
unfolding receive_command
Leaves-receive_command h grow_by number calls stream n s p k =
    Leaves-after (malloc n) s p λ (_, n1) _.
      Leaves-after_transfer (recv_all calls header_size stream) s p λ head stream' calls'.
        Leaves-after (command_header_deserialize h (cursor n1 head)) s p λ (header, c) _.
          Leaves-if _
            (Leaves-after (grow_by header.command_len c.allocs) s p λ n2 _.
              Leaves-after_transfer (recv_all calls' header.command_len stream') s p
                λ body _ _. k _ n2)
            (Leaves-returned _ s _ p)
