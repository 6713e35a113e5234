-- ===== src/Dispatcher/Pending.antt =====
-- The loop that merges the occurrences of a recurring timer, in terms of the code's own sum and test.
use femc_driver.Prelude.{
  ◌≤◌, ℕ, zero, suc, ◌+◌, ◌<◌, ◌≡◌, ◌≢◌, refl, ◌∙◌, ap, ◌⊎◌, inl, inr, Bool, true, Option, none,
  some, arith, ◌==◌, Bool-cases, eq-==, ne-==,
}
use femc_driver.Timers.{Timespec, Clock, reading, failing, add_expiration_msec, expiration_msec}
use femc_driver.Dispatcher.{Main, Setting, read_msec, merge}
use femc_driver.Dispatcher.Rounds.Turns.{left_of, read_msec-reading}

-- The time after some more intervals.
abbrev pub later : ℕ → ℕ → Timespec → Timespec
later zero interval tv = tv
later (suc j) interval tv = later j interval (add_expiration_msec tv interval)

-- On a clock nothing is left of a time, and something is, or the clock fails.
abbrev pub IsPending : Clock → Timespec → Type 0
IsPending (failing errno) tv = ⊥
IsPending (reading now) tv = left_of now tv ≡ 0

abbrev pub NotPending : Clock → Timespec → Type 0
NotPending (failing errno) tv = Unit
NotPending (reading now) tv = left_of now tv ≢ 0

Clock-cases : (c : Clock) → ((e : ℕ) × (c ≡ failing e)) ⊎ ((now : Timespec) × (c ≡ reading now))
Clock-cases (failing e) = inl (e, refl)
Clock-cases (reading now) = inr (now, refl)

module _ {B : Type 0} (s : Setting B) where
  -- What the merging from `tv` leaves, with a number of intervals.
  abbrev pub Merged : ℕ → ℕ → Timespec → Main B → Bool × Timespec × Main B → Type 0
  Merged fuel interval tv m r =
      ((j : ℕ) × (j ≤ fuel)
        × (r.1 ≡ later j interval tv)
        × (r.2.timers ≡ m.timers)
        × ((i : ℕ) → i < j → IsPending (s.clock (m.readings + i)) (later (suc i) interval tv))
        × (r.0 ≡ true → NotPending (s.clock (m.readings + j)) (later (suc j) interval tv)))
      × ((i : ℕ)
          → i < fuel
          → NotPending (s.clock (m.readings + i)) (later (suc i) interval tv)
          → r.0 ≡ true)

  read-failing :
      (tv : Timespec) (m : Main B) (e : ℕ)
      → s.clock m.readings ≡ failing e
      → (read_msec s tv m).0 ≡ none
  unfolding read_msec expiration_msec
  read-failing tv m e h = ap (λ (c : Clock). (expiration_msec c tv m.stack).0) h

  read-reading :
      (tv : Timespec) (m : Main B) (now : Timespec)
      → s.clock m.readings ≡ reading now
      → (read_msec s tv m).0 ≡ some (left_of now tv)
  read-reading tv m now h = ap (λ (r : Option ℕ × Main B). r.0) (read_msec-reading s now tv m h)

  read-readings : (tv : Timespec) (m : Main B) → (read_msec s tv m).1.readings ≡ m.readings + 1
  unfolding read_msec
  read-readings tv m = refl

  read-timers : (tv : Timespec) (m : Main B) → (read_msec s tv m).1.timers ≡ m.timers
  unfolding read_msec
  read-timers tv m = refl

  at-once :
      (m : Main B) (tv : Timespec)
      → NotPending (s.clock m.readings) tv
      → NotPending (s.clock (m.readings + 0)) tv
  at-once m tv h = let e : m.readings + 0 ≡ m.readings = omega arith in rw e h

  -- One interval more.
  Merged-suc :
      (fuel interval : ℕ) (tv : Timespec) (m m' : Main B) (r : Bool × Timespec × Main B)
      → m'.readings ≡ m.readings + 1
      → m'.timers ≡ m.timers
      → (NotPending (s.clock (m.readings + 0)) (later 1 interval tv) → ⊥)
      → IsPending (s.clock (m.readings + 0)) (later 1 interval tv)
      → Merged fuel interval (add_expiration_msec tv interval) m' r
      → Merged (suc fuel) interval tv m r
  Merged-suc fuel interval tv m m' r n t pending past ((j, le, at, ts, passed, last), ends) =
      ((suc j, omega arith, at, ts ∙ t, gone, λ e. rw (index j) at (last e)), enough)
    where
      index : (i : ℕ) → m'.readings + i ≡ m.readings + suc i
      index i = omega (arith, n)

      gone : (i : ℕ) → i < suc j → IsPending (s.clock (m.readings + i)) (later (suc i) interval tv)
      gone zero lt = past
      gone (suc i) lt = rw (index i) at (passed i (omega arith))

      enough :
          (i : ℕ)
          → i < suc fuel
          → NotPending (s.clock (m.readings + i)) (later (suc i) interval tv)
          → r.0 ≡ true
      enough zero lt h = absurd (pending h)
      enough (suc i) lt h = ends i (omega arith) (rw (index i) h)

  pub merge-Merged :
      (fuel interval : ℕ) (tv : Timespec) (m : Main B)
      → Merged fuel interval tv m (merge s fuel interval tv m)
  unfolding merge
  merge-Merged zero interval tv m = (
    (0, omega arith, refl, refl, λ i lt. absurd (omega arith), λ e. absurd (cc)),
    λ i lt h. absurd (omega arith),
  )
  merge-Merged (suc fuel) interval tv m =
      let next = add_expiration_msec tv interval in
      elim (Clock-cases (s.clock m.readings)) [
        | inl (e, h) ↦
            rw (read-failing next m e h, merge)
              (
                (
                  0,
                  omega arith,
                  refl,
                  read-timers next m,
                  λ i lt. absurd (omega arith),
                  λ x. at-once m next (rw h tt),
                ),
                λ i lt k. refl,
              )
        | inr (now, h) ↦ elim (Bool-cases (left_of now next == 0)) [
          | inl q ↦
              rw (read-reading next m now h, merge)
                (rw (q, merge)
                  (Merged-suc fuel interval tv m (read_msec s next m).1
                    (merge s fuel interval next (read_msec s next m).1) (read-readings next m)
                    (read-timers next m) (λ p. never now next q (rw h at (same_clock m next p)))
                    (pending_now m next (rw h (eq-== (left_of now next) 0 q)))
                    (merge-Merged fuel interval next (read_msec s next m).1)))
          | inr q ↦
              rw (read-reading next m now h, merge)
                (rw (q, merge)
                  (
                    (
                      0,
                      omega arith,
                      refl,
                      read-timers next m,
                      λ i lt. absurd (omega arith),
                      λ x. at-once m next (rw h (ne-== (left_of now next) 0 q)),
                    ),
                    λ i lt k. refl,
                  ))
        ]
      ]
    where
      same_clock :
          (m : Main B) (tv : Timespec)
          → NotPending (s.clock (m.readings + 0)) tv
          → NotPending (s.clock m.readings) tv
      same_clock m tv h = let e : m.readings + 0 ≡ m.readings = omega arith in rw e at h

      pending_now :
          (m : Main B) (tv : Timespec)
          → IsPending (s.clock m.readings) tv
          → IsPending (s.clock (m.readings + 0)) tv
      pending_now m tv h = let e : m.readings + 0 ≡ m.readings = omega arith in rw e h

      never : (now tv : Timespec) → left_of now tv == 0 ≡ true → NotPending (reading now) tv → ⊥
      never now tv q p = p (eq-== (left_of now tv) 0 q)
