-- ===== src/Dispatcher/Rounds/Turns.antt =====
-- A turn of the main loop: the first timer is fired when it is due, and the poll ends before it.
use femc_driver.Prelude.{
  ℕ, ◌+◌, ◌*◌, ◌<◌, ◌≤◌, ◌≡◌, ◌≢◌, ap, ◌⊎◌, inl, inr, ◌||◌, some, List, arith, ◌==◌, if◌then◌else◌,
  Bool-cases, leb, lt-leb, le-leb,
}
use femc_driver.ErrorStack.{ErrorStack}
use femc_driver.Timers.{
  Timespec, Clock, reading, Timer, million, is_negative, expiration_compare, msec_between,
  expiration_msec,
}
use femc_driver.Timers.Times.{nanos, InRange, IsNormal, Left, expiration_msec-Left}
use femc_driver.Dispatcher.{Main, Setting, fdd_infinite, read_msec}
use femc_driver.Dispatcher.Rounds.{Loop, fire, after_poll, turn}

-- The milliseconds that `expiration_msec` returns.
pub left_of : Timespec → Timespec → ℕ
left_of now tv =
    let c = expiration_compare tv now in if is_negative c || c == 0 then 0 else msec_between now tv

-- A time that is due, and one that is not, by what is left until it.
pub due : (a b k : ℕ) → (a ≤ b → b < a + k * million + million) → k ≡ 0 → b < a + million
due a b k h e = elim (Bool-cases (leb a b)) [
  | inl q ↦ omega (arith, h (le-leb a b q), e)
  | inr q ↦ omega (arith, lt-leb a b q)
]

pub to-come : (a b k : ℕ) → (b ≤ a → k ≡ 0) → k ≢ 0 → a < b
to-come a b k z n = elim (Bool-cases (leb b a)) [
  | inl q ↦ absurd (n (z (le-leb b a q)))
  | inr q ↦ lt-leb b a q
]

module _ {B : Type 0} (s : Setting B) where
  -- The clock was read once more.
  abbrev pub ticked : Loop B → Loop B
  ticked l = record l { main = record l.main { readings = l.main.readings + 1 } }

  pub read_msec-reading :
      (now tv : Timespec) (m : Main B)
      → s.clock m.readings ≡ reading now
      → read_msec s tv m ≡ (some (left_of now tv), record m { readings = m.readings + 1 })
  unfolding read_msec left_of expiration_msec
  read_msec-reading now tv m h =
      ap
        (λ (c : Clock). (
          (expiration_msec c tv m.stack).0,
          record m { stack = (expiration_msec c tv m.stack).1; readings = m.readings + 1 },
        ))
        h

  pub left_of-Left :
      (now tv : Timespec) (stack : ErrorStack)
      → InRange now
      → InRange tv
      → IsNormal now
      → Left now tv (some (left_of now tv))
  unfolding left_of expiration_msec
  left_of-Left now tv stack a b c = expiration_msec-Left now tv stack a b c

  -- The first timer is due within a millisecond and its callback is called; or it is still to come,
  -- and the poll waits no longer than until less than a millisecond behind it, and not for 0 unless
  -- `max_msec` is.
  abbrev pub Serves : ℕ → Timespec → Timer → List Timer → Loop B → Type 0
  Serves fuel now t rest l =
      ((nanos t.expires < nanos now + million) × (turn s fuel l ≡ fire s fuel t rest (ticked l)))
      ⊎ ((j : ℕ) × (nanos now < nanos t.expires)
          × (nanos now + j * million < nanos t.expires + million)
          × (l.max_msec ≢ 0 → j ≢ 0)
          × (l.max_msec < fdd_infinite → j ≤ l.max_msec)
          × (turn s fuel l ≡ after_poll s (ticked l) (s.poll j (ticked l).main)))
