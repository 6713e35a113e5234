-- ===== src/Dispatcher/Rounds.antt =====
-- dispatcher.c: `fdd_main`, turn by turn.
pub mod Turns
use femc_driver.Prelude.{
  ℕ, zero, suc, ◌+◌, ◌-◌, ◌%◌, ◌^◌, Bool, true, false, not, ◌&&◌, ◌||◌, Option, none, some, List,
  [], ◌∷◌, ltb, leb, ◌==◌, if◌then◌else◌, length, drop, min,
}
use femc_driver.ErrorStack.{
  ErrorStack, Node, push_context, push_stdlib_error, fde_errors, reset_context, safe_pop_context,
  get_last_error, consistency_failure_b, fdd_context_main, kill_recurring_timer,
}
use femc_driver.Timers.{
  Timespec, Clock, reading, failing, Timer, Timers, insert, get_expiration_time, expiration_msec,
  add_expiration_msec,
}
use femc_driver.Dispatcher.{
  Main, Setting, fdd_infinite, resolve_notify_return, read_msec, rearm, handled, with_active,
}

abbrev none_active : List Timer → Bool
none_active [] = true
none_active (t ∷ ts) = false

-- The variables of `fdd_main`; `max_expires` is read only where `max_msec` is neither 0 nor
-- FDD_INFINITE.
pub record Loop (B : Type 0) : Type 0 where
  pub main : Main B
  pub max_msec : ℕ
  pub max_expires : Timespec
  pub timers_handled : ℕ

-- A turn of the loop goes on to the next one, leaves the loop for the pop of the context, or returns
-- false; or the fuel of the merging is spent.
pub data Turn (B : Type 0) : Type 0 where
  next : Loop B → Turn B
  leave : Main B → Turn B
  fail : Main B → Turn B
  spent : Turn B

module _ {B : Type 0} (s : Setting B) where
  after_resolve : Loop B → Bool × Main B → Turn B
  after_resolve l (false, m) = fail m
  after_resolve l (true, m) =
      next (record l { main = m; timers_handled = (l.timers_handled + 1) % 2 ^ 32 })

  after_handled : Loop B → Bool × Bool × Main B → Turn B
  unfolding after_resolve resolve_notify_return
  after_handled l (false, ok, m) = spent
  after_handled l (true, ok, m) = after_resolve l (resolve_notify_return s ok m)

  -- The timer is taken off the list before its callback is called.
  pub fire : ℕ → Timer → List Timer → Loop B → Turn B
  unfolding after_handled handled
  fire fuel t rest l = after_handled l (handled s fuel t (s.notify t (with_active rest l.main)))

  -- Behind the poll and the reading of the clock.
  after_reopen : Loop B → Bool × Main B → Turn B
  after_reopen l (false, m) = fail m
  after_reopen l (true, m) = next (record l { main = m; timers_handled = 0 })

  go_on : Loop B → Turn B
  unfolding after_reopen
  go_on l = if l.max_msec == 0 then leave l.main else after_reopen l (s.reopened l.main)

  with_left : Loop B → Option ℕ × Main B → Turn B
  unfolding go_on
  with_left l (none, m) = fail m
  with_left l (some k, m) = go_on (record l { main = m; max_msec = k })

  pub after_poll : Loop B → Bool × Main B → Turn B
  unfolding with_left read_msec go_on
  after_poll l (false, m) = fail m
  after_poll l (true, m) =
      if ltb 0 l.max_msec && ltb l.max_msec fdd_infinite
      then with_left l (read_msec s l.max_expires m)
      else go_on (record l { main = m })

  -- The poll, for `msec`, or for what is left of `max_msec` when that is less.
  pub poll_for : ℕ → Loop B → Turn B
  unfolding after_poll
  poll_for msec l =
      after_poll l
        (s.poll (if ltb l.max_msec fdd_infinite then min msec l.max_msec else msec) l.main)

  wait_left : ℕ → Loop B → Option ℕ × Main B → Turn B
  unfolding poll_for
  wait_left msec l (none, m) = fail m
  wait_left msec l (some k, m) = poll_for msec (record l { main = m; max_msec = k })

  pub wait : ℕ → Loop B → Turn B
  unfolding wait_left poll_for read_msec
  wait msec l =
      if ltb l.max_msec fdd_infinite && not (l.timers_handled == 0) && ltb 0 l.max_msec
      then wait_left msec l (read_msec s l.max_expires l.main)
      else poll_for msec l

  -- With the first timer, and what is left until it in milliseconds.
  pub first_timer : ℕ → Timer → List Timer → Loop B → Option ℕ × Main B → Turn B
  unfolding fire wait
  first_timer fuel t rest l (none, m) = fail m
  first_timer fuel t rest l (some msec, m) =
      if msec == 0
      then fire fuel t rest (record l { main = m })
      else wait msec (record l { main = m })

  with_timers : ℕ → List Timer → Loop B → Turn B
  unfolding first_timer wait read_msec
  with_timers fuel [] l = wait fdd_infinite l
  with_timers fuel (t ∷ rest) l = first_timer fuel t rest l (read_msec s t.expires l.main)

  -- One turn of the `while` of `fdd_main`, with its condition.
  pub turn : ℕ → Loop B → Turn B
  unfolding with_timers
  turn fuel l =
      if l.main.running && not (none_active l.main.timers.active && s.empty l.main.backend)
      then with_timers fuel l.main.timers.active l
      else leave l.main

  -- The loop; its result is none where the fuel is spent.
  rounds : ℕ → ℕ → Loop B → Option Bool × Main B
  unfolding turn
  rounds fuel zero l = (none, l.main)
  rounds fuel (suc n) l = elim (turn fuel l) [
    | next l' ↦ rounds fuel n l'
    | leave m ↦
        let (ok, stack) = safe_pop_context fdd_context_main m.main_error_context m.stack in
        (some ok, record m { stack = stack })
    | fail m ↦ (some false, m)
    | spent ↦ (none, l.main)
  ]

  -- From the start of the loop.
  started : ℕ → ℕ → ℕ → Timespec → Main B → Option Bool × Main B
  unfolding rounds
  started fuel n max_msec max_expires m = rounds fuel n (record {
    main = record m { running = true };
    max_msec = max_msec;
    max_expires = max_expires;
    timers_handled = 0;
  })

  -- `max_expires`, if it is needed.
  limited : ℕ → ℕ → ℕ → Option Timespec × ErrorStack → Main B → Option Bool × Main B
  unfolding started
  limited fuel n max_msec (none, stack) m = (some false, record m { stack = stack })
  limited fuel n max_msec (some t, stack) m = started fuel n max_msec t (record m { stack = stack })

  initialized : ℕ → ℕ → ℕ → Main B → Option Bool × Main B
  unfolding started limited
  initialized fuel n max_msec m =
      if ltb 0 max_msec && ltb max_msec fdd_infinite
      then limited fuel n max_msec (get_expiration_time (s.clock m.readings) max_msec m.stack)
          (record m { readings = m.readings + 1 })
      else started fuel n max_msec (record { sec = 0; nsec = 0 }) m

  -- Behind the push of the context.
  entered : ℕ → ℕ → ℕ → Main B → Option ℕ × ErrorStack → Option Bool × Main B
  unfolding initialized
  entered fuel n max_msec m (none, stack) =
      (some false, record m { main_error_context = none; stack = stack })
  entered fuel n max_msec m (some ptr, stack) =
      let m' = record m { main_error_context = some ptr; stack = stack } in
      if m.initialized then initialized fuel n max_msec m' else elim s.sigpipe [
        | some errno ↦ (
          some false,
          record m' { stack = (push_stdlib_error (some "signal(SIGPIPE)") errno stack).1 },
        )
        | none ↦
            initialized fuel n max_msec
              (record m' { initialized = true; backend = s.init m.backend })
      ]

  -- `fdd_main`, with fuel for the merging and for the turns.
  pub fdd_main : ℕ → ℕ → ℕ → Main B → Option Bool × Main B
  unfolding entered
  fdd_main fuel n max_msec m =
      if not (fde_errors m.stack == 0)
      then (some false, m)
      else entered fuel n max_msec m (push_context fdd_context_main none m.stack)
