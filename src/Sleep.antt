-- ===== src/Sleep.antt =====
-- `sleep_microseconds` of src/sleep.c. `nanosleep` is a parameter: whether it returns 0.
use theblockchainkiller.Base.{ℕ, ◌*◌, ◌/◌, ◌%◌, ◌+◌, ◌^◌, ◌<◌, ◌≡◌, Bool, if◌then◌else◌, arith}
use theblockchainkiller.Runtime.{Outcome, ok, err, sleep}

pub record Timespec : Type 0 where
  pub tv_sec : ℕ
  pub tv_nsec : ℕ

pub timespec_of : ℕ → Timespec
timespec_of microseconds = record {
  tv_sec = microseconds / 1_000_000;
  tv_nsec = microseconds % 1_000_000 * 1000;
}

pub sleep_microseconds : (Timespec → Bool) → ℕ → Outcome (Unit {0})
unfolding timespec_of
sleep_microseconds nanosleep microseconds =
    if nanosleep (timespec_of microseconds) then ok tt else err sleep

-- A time that `nanosleep` accepts: fewer nanoseconds than a second has, and seconds that fit in
-- `time_t`.
abbrev IsAccepted : Timespec → Type 0
IsAccepted ts = (ts.tv_nsec < 10 ^ 9) × (ts.tv_sec < 2 ^ 63)

-- For every 64-bit number of microseconds, the time that `nanosleep` gets is one that it accepts, and
-- is exactly that number of microseconds.
timespec_of-exact :
    (microseconds : ℕ)
    → microseconds < 2 ^ 64
    → IsAccepted (timespec_of microseconds)
      × ((timespec_of microseconds).tv_sec * 10 ^ 9 + (timespec_of microseconds).tv_nsec
          ≡ microseconds * 1000)
unfolding timespec_of
timespec_of-exact n in_range = ((omega arith, omega arith), omega arith)
