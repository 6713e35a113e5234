-- ===== src/Dispatcher/Merging.antt =====
-- A recurring timer is set to its next time, and occurrences that are pending are merged into one.
use native.Mathlib.Nat.{mul-le-mul_right}
use femc_driver.Prelude.{◌≤◌, ◌*◌, ◌^◌, ℕ, zero, suc, ◌+◌, ◌<◌, ◌≡◌, ◌∙◌, ap, Bool, true, arith}
use femc_driver.Timers.{
  Timespec, Clock, million, billion, reading, failing, Timer, Timers, insert, add_expiration_msec,
}
use femc_driver.Timers.Times.{
  nanos, InRange, IsNormal, nanos-add_expiration_msec, add_expiration_msec-small,
}
use femc_driver.Dispatcher.{Main, Setting, merge, rearmed, rearm}
use femc_driver.Dispatcher.Rounds.Turns.{left_of, left_of-Left, due, to-come}
use femc_driver.Dispatcher.Pending.{later, IsPending, NotPending, Merged, merge-Merged}

-- The n-th occurrence of a timer behind its time, in nanoseconds.
abbrev pub occurrence : Timer → ℕ → ℕ
occurrence t n = nanos t.expires + n * (t.recurring * million)

-- The time is yet to come on a clock, by any amount or by a millisecond; or the clock fails.
abbrev pub IsAhead : ℕ → Clock → ℕ → Type 0
IsAhead by (failing errno) at = Unit
IsAhead by (reading now) at = nanos now + by < at

-- The time is past on a clock, or less than a millisecond is left until it.
abbrev pub IsDue : Clock → ℕ → Type 0
IsDue (failing errno) at = ⊥
IsDue (reading now) at = at < nanos now + million

-- A clock in range gives normal times.
abbrev pub IsClock : Clock → Type 0
IsClock (failing errno) = Unit
IsClock (reading now) = (now.sec < 2 ^ 31) × IsNormal now

later_lem :
    (j interval : ℕ) (tv : Timespec)
    → tv.nsec ≤ billion
    → interval < 2 ^ 32
    → nanos tv + j * (interval * million) < 2 ^ 31 * billion
    → (nanos (later j interval tv) ≡ nanos tv + j * (interval * million))
      × InRange (later j interval tv)
unfolding nanos
later_lem zero interval tv small few fits = (omega arith, (omega arith, small))
later_lem (suc j) interval tv small few fits =
    let range : InRange tv = (omega arith, small) in
    let step = nanos-add_expiration_msec tv interval range (omega arith) in
    let (e, r) =
      later_lem j interval (add_expiration_msec tv interval)
        (add_expiration_msec-small tv interval range (omega arith)) few (omega (arith, step)) in
    (omega (arith, e, step), r)

module _ {B : Type 0} (s : Setting B) (t : Timer) (m : Main B) (normal : InRange t.expires)
    (few : t.recurring < 2 ^ 32) (clocks : (i : ℕ) → IsClock (s.clock i)) where
  -- The n-th occurrence, as it is computed.
  abbrev at : ℕ → Timespec
  at n = later n t.recurring t.expires

  module _ (n : ℕ) (fits : occurrence t n < 2 ^ 31 * billion) where
    at_lem : (nanos (at n) ≡ occurrence t n) × InRange (at n)
    at_lem = later_lem n t.recurring t.expires normal.1 few fits

    ahead : (c : Clock) → IsClock c → NotPending c (at n) → IsAhead 0 c (occurrence t n)
    ahead (failing errno) ok h = tt
    ahead (reading now) ok h =
        let left = left_of-Left s now (at n) m.stack (ok.0, omega arith) at_lem.1 ok.1 in
        rw (← at_lem.0)
          (omega (arith, to-come (nanos now) (nanos (at n)) (left_of now (at n)) left.0 h))

    past : (c : Clock) → IsClock c → IsPending c (at n) → IsDue c (occurrence t n)
    past (failing errno) ok h = h
    past (reading now) ok h =
        let left = left_of-Left s now (at n) m.stack (ok.0, omega arith) at_lem.1 ok.1 in
        rw (← at_lem.0)
          (due (nanos now) (nanos (at n)) (left_of now (at n)) (λ le. (left.1 le).1) h)

    not_pending : (c : Clock) → IsClock c → IsAhead million c (occurrence t n) → NotPending c (at n)
    not_pending (failing errno) ok h = tt
    not_pending (reading now) ok h =
        let left = left_of-Left s now (at n) m.stack (ok.0, omega arith) at_lem.1 ok.1 in
        λ e. omega (
          arith,
          due (nanos now) (nanos (at n)) (left_of now (at n)) (λ le. (left.1 le).1) e,
          at_lem.0,
          h,
        )

  -- What is left of the others is the list with the timer at an occurrence of it.
  abbrev pub Rearms : ℕ → Bool × Main B → Type 0
  Rearms fuel r =
      ((j : ℕ) × (at : Timespec) × (j ≤ fuel)
        × (r.1.timers.active ≡ insert (record t { expires = at }) m.timers.active)
        × (nanos at ≡ occurrence t (suc j))
        × ((i : ℕ) → i < j → IsDue (s.clock (m.readings + i)) (occurrence t (suc (suc i))))
        × (r.0 ≡ true → IsAhead 0 (s.clock (m.readings + j)) (occurrence t (suc (suc j)))))
      × ((i : ℕ)
          → i < fuel
          → IsAhead million (s.clock (m.readings + i)) (occurrence t (suc (suc i)))
          → r.0 ≡ true)

  occurrence-le : (n k : ℕ) → n ≤ k → occurrence t n ≤ occurrence t k
  occurrence-le n k h = omega (arith, mul-le-mul_right (t.recurring * million) h)

  module _ (fuel : ℕ) (fits : occurrence t (2 + fuel) < 2 ^ 31 * billion) where
    rearmed-Rearms :
        (r : Bool × Timespec × Main B)
        → Merged s fuel t.recurring (add_expiration_msec t.expires t.recurring) m r
        → Rearms fuel (rearmed s t r)
    unfolding rearmed
    rearmed-Rearms (complete, now, m') ((j, le, e, ts, passed, last), ends) =
        let within : (n : ℕ) → n ≤ 2 + fuel → occurrence t n < 2 ^ 31 * billion =
          λ n h. omega (arith, occurrence-le n (2 + fuel) h) in
        (
          (
            j,
            now,
            le,
            ap (λ (x : Timers). insert (record t { expires = now }) x.active) ts,
            ap nanos e ∙ (at_lem (suc j) (within (suc j) (omega arith))).0,
            λ i lt.
                past (suc (suc i)) (within (suc (suc i)) (omega arith)) (s.clock (m.readings + i))
                  (clocks (m.readings + i)) (passed i lt),
            λ x.
                ahead (suc (suc j)) (within (suc (suc j)) (omega arith)) (s.clock (m.readings + j))
                  (clocks (m.readings + j)) (last x),
          ),
          λ i lt h. ends i lt (
              not_pending (suc (suc i)) (within (suc (suc i)) (omega arith))
                (s.clock (m.readings + i)) (clocks (m.readings + i)) h),
        )

    -- How `fdd_main` sets a recurring timer again, with fuel for the merging, where the interval
    -- is of 32 bits, the timer is in range, also after two intervals more than the fuel has
    -- rounds, and the clock fails or gives normal times in range. The timer is inserted at just
    -- one interval later, or `j` more. Each of these `j` steps was to an occurrence that was past
    -- when the clock was read for it, or less than a millisecond ahead; and if the merging came to
    -- its end, the next one was still ahead when the clock was read for the last time, or the
    -- clock failed. The merging comes to its end if, within the fuel, one of the occurrences is
    -- more than a millisecond ahead when the clock is read for it, or the clock fails then.
    pub rearm-Rearms : Rearms fuel (rearm s fuel t m)
    unfolding rearm
    rearm-Rearms =
        rearmed-Rearms (merge s fuel t.recurring (add_expiration_msec t.expires t.recurring) m)
          (merge-Merged s fuel t.recurring (add_expiration_msec t.expires t.recurring) m)
