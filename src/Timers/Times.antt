-- ===== src/Timers/Times.antt =====
-- The arithmetic on `struct timespec` against time in nanoseconds.
use femc_driver.Prelude.{
  ℕ, ◌+◌, ◌*◌, ◌/◌, ◌%◌, ◌^◌, ◌≤◌, ◌<◌, ◌≡◌, ◌≢◌, refl, ◌↔◌, Bool, true, false, ◌||◌, Option, none,
  some, arith, ◌==◌, if◌then◌else◌,
}
use femc_driver.ErrorStack.{ErrorStack}
use femc_driver.Timers.{
  Timespec, reading, billion, million, carry, get_expiration_time, is_negative, expiration_compare,
  msec_between, expiration_msec, add_expiration_msec,
}

unfoldable pub nanos : Timespec → ℕ
nanos t = t.sec * billion + t.nsec

abbrev pub IsNormal : Timespec → Type 0
IsNormal t = t.nsec < billion

-- Less than 68 years on the clock, and no more than one second's nanoseconds.
abbrev pub InRange : Timespec → Type 0
InRange t = (t.sec < 2 ^ 31) × (t.nsec ≤ billion)

carry_lem :
    (t : Timespec) → t.nsec < 2 * billion → IsNormal (carry 2 t) × (nanos (carry 2 t) ≡ nanos t)
unfolding carry nanos
carry_lem t h = ground arith

abbrev pub Expires : Timespec → ℕ → Option Timespec → Type 0
Expires now msec none = ⊥
Expires now msec (some t) = IsNormal t × (nanos t ≡ nanos now + msec * million)

-- From a normal reading of the clock, the time of expiration is exactly `msec` milliseconds later,
-- and normal. Two rounds of the loop are enough.
pub get_expiration_time_lem :
    (now : Timespec) (msec : ℕ) (stack : ErrorStack)
    → IsNormal now
    → Expires now msec (get_expiration_time (reading now) msec stack).0
unfolding get_expiration_time nanos
get_expiration_time_lem now msec stack h =
    let start : Timespec = record {
      sec = now.sec + msec / 1000;
      nsec = now.nsec + msec % 1000 * million;
    } in
    let carried = carry_lem start (omega arith) in ground (arith, carried)

-- The comparison orders times in range as their nanoseconds do, where both are normal.
pub expiration_compare_lem :
    (a b : Timespec)
    → InRange a
    → InRange b
    → IsNormal a
    → IsNormal b
    → ((is_negative (expiration_compare a b) ≡ true) ↔ (nanos a < nanos b))
      × (((expiration_compare a b == 0) ≡ true) ↔ (nanos a ≡ nanos b))
unfolding expiration_compare nanos
expiration_compare_lem a b ha hb na nb = ground arith

-- What may be told to be left from `now` until `tv`, in milliseconds.
abbrev pub Left : Timespec → Timespec → Option ℕ → Type 0
Left now tv none = ⊥
Left now tv (some m) =
    (nanos tv ≤ nanos now → m ≡ 0)
    × (nanos now ≤ nanos tv
        → (nanos now + m * million < nanos tv + million)
          × (nanos tv < nanos now + m * million + million))

msec_between-Left :
    (now tv : Timespec)
    → InRange now
    → InRange tv
    → IsNormal now
    → nanos now < nanos tv
    → Left now tv (some (msec_between now tv))
unfolding nanos
msec_between-Left now tv hn ht nn h = (λ c. absurd (omega arith), λ c. ground arith)

choice-Left :
    (now tv : Timespec) (come : Bool)
    → InRange now
    → InRange tv
    → IsNormal now
    → (come ≡ true → nanos tv ≤ nanos now)
    → (come ≡ false → nanos now < nanos tv)
    → Left now tv (some (if come then 0 else msec_between now tv))
unfolding nanos
choice-Left now tv true hn ht nn came later =
    let h = came refl in (λ c. refl, λ c. (omega arith, omega arith))
choice-Left now tv false hn ht nn came later = msec_between-Left now tv hn ht nn (later refl)

-- The test of `expiration_msec` tells whether a time has come, also one with a whole second of
-- nanoseconds.
come_lem :
    (now tv : Timespec)
    → InRange now
    → InRange tv
    → IsNormal now
    → let c = expiration_compare tv now in
      ((is_negative c || c == 0) ≡ true → nanos tv ≤ nanos now)
      × ((is_negative c || c == 0) ≡ false → nanos now < nanos tv)
unfolding expiration_compare nanos
come_lem now tv hn ht nn = (λ h. ground arith, λ h. ground arith)

-- On a clock that can be read and is normal, between times in range, `expiration_msec` returns what is
-- left until the later one in milliseconds: off by less than one in either direction, and 0 for a
-- time that has come.
pub expiration_msec-Left :
    (now tv : Timespec) (stack : ErrorStack)
    → InRange now
    → InRange tv
    → IsNormal now
    → Left now tv (expiration_msec (reading now) tv stack).0
unfolding expiration_msec
expiration_msec-Left now tv stack hn ht nn =
    let (came, later) = come_lem now tv hn ht nn in choice-Left now tv _ hn ht nn came later

-- A recurring timer moves on by exactly its interval.
pub nanos-add_expiration_msec :
    (tv : Timespec) (msec : ℕ)
    → InRange tv
    → msec < 2 ^ 63
    → nanos (add_expiration_msec tv msec) ≡ nanos tv + msec * million
unfolding add_expiration_msec nanos
nanos-add_expiration_msec tv msec h hm = ground arith

pub add_expiration_msec-small :
    (tv : Timespec) (msec : ℕ)
    → InRange tv
    → msec < 2 ^ 63
    → (add_expiration_msec tv msec).nsec ≤ billion
unfolding add_expiration_msec
add_expiration_msec-small tv msec h hm = ground arith

-- The sum of a normal time is normal but in one case: where the nanoseconds make up just one second,
-- the carry is not taken.
pub add_expiration_msec-IsNormal :
    (tv : Timespec) (msec : ℕ)
    → IsNormal tv
    → (IsNormal (add_expiration_msec tv msec) ↔ (tv.nsec + msec % 1000 * million ≢ billion))
unfolding add_expiration_msec
add_expiration_msec-IsNormal tv msec h = ground arith
