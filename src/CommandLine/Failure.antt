-- ===== src/CommandLine/Failure.antt =====
-- The calls of the programs' starts that fail never have SUCCESS for their code.
use theblockchainkiller.Base.{
  ℕ, zero, suc, ◌*◌, ◌^◌, ◌≢◌, Bool, true, false, Option, none, some, ltb, if◌then◌else◌,
}
use theblockchainkiller.Runtime.{ReturnCode, success, Outcome, ok, err, fault, ◌>>=◌, guard}
use theblockchainkiller.Endian.{Bytes}
use theblockchainkiller.Buffer.{malloc}
use theblockchainkiller.CommandLine.{microseconds_of, parsed_address, refused_malloc}

-- A call whose failure never has the code SUCCESS.
pub data NamesFailure {A : Type 0} : Outcome A → Type 0 where
  names_ok : {a : A} → NamesFailure (ok a)
  names_err : {code : ReturnCode} → code ≢ success → NamesFailure (err code)
  names_fault : NamesFailure fault

pub NamesFailure-bind :
    {A B : Type 0} {r : Outcome A} {next : A → Outcome B}
    → NamesFailure r
    → ((a : A) → NamesFailure (next a))
    → NamesFailure (r >>= next)
NamesFailure-bind names_ok v = v _
NamesFailure-bind (names_err w) v = names_err w
NamesFailure-bind names_fault v = names_fault

pub NamesFailure-guard :
    (b : Bool) (code : ReturnCode) → code ≢ success → NamesFailure (guard b code)
NamesFailure-guard true code w = names_ok
NamesFailure-guard false code w = names_err w

pub NamesFailure-malloc : (n : ℕ) → NamesFailure (malloc n)
unfolding malloc
NamesFailure-malloc zero = names_err λ e. cc
NamesFailure-malloc (suc n) = names_ok

pub NamesFailure-refused_malloc : (n : ℕ) → NamesFailure (refused_malloc n)
unfolding malloc
NamesFailure-refused_malloc zero = names_err λ e. cc
NamesFailure-refused_malloc (suc n) = names_ok

pub NamesFailure-parsed_address : (addr : Option Bytes) → NamesFailure (parsed_address addr)
NamesFailure-parsed_address (some addr) = names_ok
NamesFailure-parsed_address none = names_err λ e. cc

pub NamesFailure-microseconds_of : (seconds : ℕ) → NamesFailure (microseconds_of seconds)
unfolding microseconds_of
NamesFailure-microseconds_of seconds =
    elim (ltb (seconds * 10 ^ 6) (2 ^ 64))
      as (λ b. NamesFailure (if b then ok (seconds * 10 ^ 6) else fault)) [
        | true ↦ names_ok
        | false ↦ names_fault
      ]
