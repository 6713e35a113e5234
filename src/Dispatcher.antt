-- ===== src/Dispatcher.antt =====
-- dispatcher.c: the main loop, with its timers and the backend, and what it does with the errors of
-- a callback.
--
-- The n-th reading of the clock is given, and so are the callbacks, the error resolver and the poll
-- of the backend, all of which may change the whole state.
pub mod Rounds
pub mod Merging
pub mod Pending
mod Tests
use femc_driver.Prelude.{
  ℕ, zero, suc, ◌+◌, ◌-◌, ◌%◌, ◌^◌, Bool, true, false, not, ◌&&◌, ◌||◌, Option, none, some, List,
  [], ◌∷◌, ltb, leb, ◌==◌, if◌then◌else◌, length, drop, min,
}
use femc_driver.ErrorStack.{
  ErrorStack, Node, push_context, push_stdlib_error, fde_errors, reset_context, safe_pop_context,
  get_last_error, consistency_failure_b, fdd_context_main, kill_recurring_timer,
}
use femc_driver.Timers.{
  Timespec, Clock, reading, failing, Timer, Timers, insert, get_expiration_time, expiration_msec,
  add_expiration_msec,
}

-- What the loop works on: the statics of the file, the state of the backend, and the number of
-- readings of the clock so far.
pub record Main (B : Type 0) : Type 0 where
  pub timers : Timers
  pub backend : B
  pub running : Bool
  pub initialized : Bool
  pub main_error_context : Option ℕ
  pub stack : ErrorStack
  pub readings : ℕ

-- `notify` is that of the timer; `sigpipe` is the errno of `signal`, if it fails; `reopened` is the
-- reopening of the log file where a signal has asked for it, true where none has.
pub record Setting (B : Type 0) : Type 0 where
  pub clock : ℕ → Clock
  pub notify : Timer → Main B → Bool × Main B
  pub resolver : Bool → Main B → Bool × Main B
  pub init : B → B
  pub empty : B → Bool
  pub poll : ℕ → Main B → Bool × Main B
  pub sigpipe : Option ℕ
  pub reopened : Main B → Bool × Main B

abbrev pub fdd_infinite : ℕ
fdd_infinite = 2 ^ 64 - 1

module _ {B : Type 0} where
  -- `fde_reset_context(this_error_context, main_error_context)`
  reset : Main B → Bool × Main B
  reset m =
      let (ok, stack) = reset_context fdd_context_main m.main_error_context m.stack in
      (ok, record m { stack = stack })

  abbrev with_active : List Timer → Main B → Main B
  with_active ts m = record m { timers = record m.timers { active = ts } }

  free_timer_node : Main B → Main B
  free_timer_node m = record m { timers = record m.timers { free = m.timers.free + 1 } }

module _ {B : Type 0} (s : Setting B) where
  -- `error_resolver(notify_ok)`, and the reset behind it.
  resolved : Bool × Main B → Bool × Main B
  unfolding reset
  resolved (false, m) = (false, m)
  resolved (true, m) = reset m

  -- Behind the first reset, if there was one.
  resolve_after : Bool → Bool × Main B → Bool × Main B
  unfolding resolved
  resolve_after notify_ok (true, m) = (true, m)
  resolve_after notify_ok (false, m) = resolved (s.resolver notify_ok m)

  pub resolve_notify_return : Bool → Main B → Bool × Main B
  unfolding resolve_after reset
  resolve_notify_return notify_ok m =
      resolve_after notify_ok (if notify_ok && fde_errors m.stack == 0 then reset m else (false, m))

  -- `expiration_msec` at the next reading of the clock.
  unfoldable pub read_msec : Timespec → Main B → Option ℕ × Main B
  read_msec tv m =
      let (msec, stack) = expiration_msec (s.clock m.readings) tv m.stack in
      (msec, record m { stack = stack; readings = m.readings + 1 })

  -- The loop that merges the occurrences of a timer that are pending: from `expires`, with
  -- `next_recurring` at the same time. Whether it came to its end is said, too.
  pub merge : ℕ → ℕ → Timespec → Main B → Bool × Timespec × Main B
  unfolding read_msec
  merge zero recurring expires m = (false, expires, m)
  merge (suc fuel) recurring expires m =
      let next = add_expiration_msec expires recurring in
      let (msec, m') = read_msec next m in
      elim msec [
        | none ↦ (true, expires, m')
        | some k ↦ elim (k == 0) [
          | true ↦ merge fuel recurring next m'
          | false ↦ (true, expires, m')
        ]
      ]

  -- The consistency failure by which a callback ends its timer.
  abbrev kills : List Node → Bool
  kills [] = false
  kills (n ∷ rest) = elim n.text [ none ↦ n.id == kill_recurring_timer | some t ↦ false ]

  killed : ErrorStack → Bool
  killed stack = elim (get_last_error consistency_failure_b stack) [
    | none ↦ false
    | some i ↦ kills (drop (length stack.nodes - (i + 1)) stack.nodes)
  ]

  -- Behind the reset of a timer that was killed.
  ended : Bool → Bool × Main B → Bool × Main B
  ended timer_ok (reset_ok, m) = (timer_ok || reset_ok, free_timer_node m)

  -- The timer goes on: its next time, and its place in the list.
  pub rearmed : Timer → Bool × Timespec × Main B → Bool × Main B
  rearmed t (complete, expires, m) =
      (complete, with_active (insert (record t { expires = expires }) m.timers.active) m)

  pub rearm : ℕ → Timer → Main B → Bool × Main B
  unfolding rearmed merge
  rearm fuel t m = rearmed t (merge fuel t.recurring (add_expiration_msec t.expires t.recurring) m)

  -- What is done with the timer when its callback has returned. Whether the merging came to its end
  -- is said, too.
  handled : ℕ → Timer → Bool × Main B → Bool × Bool × Main B
  unfolding rearm free_timer_node ended killed reset
  handled fuel t (ok, m) =
      if t.recurring == 0
      then (true, ok, free_timer_node m)
      else if not ok && fde_errors m.stack == 1 && killed m.stack
      then (let (ok', m') = ended ok (reset m) in (true, ok', m'))
      else let (complete, m') = rearm fuel t m in (complete, ok, m')

-- In production; the null pointer sets it again.
pub default_resolve_error : {B : Type 0} → Bool → Main B → Bool × Main B
default_resolve_error notify_ok m = (true, m)

pub set_error_resolver :
    {B : Type 0} → Option (Bool → Main B → Bool × Main B) → Setting B → Setting B
unfolding default_resolve_error
set_error_resolver none s = record s { resolver = default_resolve_error }
set_error_resolver (some new_resolver) s = record s { resolver = new_resolver }

pub fdd_shutdown : {B : Type 0} → Main B → Main B
fdd_shutdown m = record m { running = false }
