-- ===== src/TaskQueue/Launch.antt =====
-- A task whose time has not come is launched by a timer.
use femc_driver.Prelude.{
  ℕ, zero, suc, ◌+◌, ◌*◌, ◌^◌, ◌≤◌, ◌<◌, ◌≡◌, ◌≢◌, refl, ap, ◌∙◌, Bool, Option, none, some, List,
  ◌∷◌, arith,
}
use femc_driver.Timers.{Timespec, reading, million, expiration_msec}
use femc_driver.Timers.Times.{nanos, IsNormal, InRange, expiration_msec-Left}
use femc_driver.Timers.Queue.{IsQueue}
use femc_driver.Timers.Adding.{Reads, Adds, add_timer_handle-Adds}
use femc_driver.TaskQueue.{
  Task, World, Answers, Run, launch_timer, start_timer, launch_in, setup_for,
  setup_next_task_launch,
}

-- No task is launched; `fdd_add_timer_handle` is called for `msec`, and its result is returned.
abbrev pub Waits : ℕ → Answers → World → Option (Bool × World) → Type 0
Waits msec a w none = ⊥
Waits msec a w (some (ok, w')) =
    (w'.queue ≡ w.queue)
    × (w'.misplaced ≡ w.misplaced)
    × Adds a.block a.one (launch_timer w.queue.timer_handle) a.timer_clock msec w.timers w.stack
        (ok, w'.timers, w'.stack)

launch_in-Waits :
    (run : Run) (a : Answers) (w : World) (msec : ℕ)
    → msec ≢ 0
    → Reads msec a.timer_clock
    → IsQueue w.timers.active
    → Waits msec a w (launch_in run a w (some msec, w.stack))
unfolding launch_in start_timer
launch_in-Waits run a w zero h r q = absurd (h refl)
launch_in-Waits run a w (suc k) h r q = (
  refl,
  refl,
  add_timer_handle-Adds a.block a.one (launch_timer w.queue.timer_handle) a.timer_clock (suc k)
      w.timers w.stack r q,
)

module _ (run : Run) (a : Answers) (w : World) (first : Task) (rest : List Task)
    (later now : Timespec) where
  -- What is left until the next run, and a timer for it.
  abbrev pub Planned : Option (Bool × World) → Type 0
  Planned r =
      (msec : ℕ) × (nanos later + msec * million < nanos w.queue.next_run_time + million)
      × (nanos w.queue.next_run_time < nanos later + msec * million + million)
      × Waits msec a w r

  launch_in-Planned :
      (msec : ℕ)
      → a.timer_clock ≡ reading now
      → IsNormal w.queue.next_run_time
      → IsNormal now × (now.sec + w.queue.next_run_time.sec + 3 < 2 ^ 31)
      → nanos later + million ≤ nanos w.queue.next_run_time
      → IsQueue w.timers.active
      → nanos later + msec * million < nanos w.queue.next_run_time + million
      → nanos w.queue.next_run_time < nanos later + msec * million + million
      → Planned (launch_in run a w (some msec, w.stack))
  unfolding nanos
  launch_in-Planned msec timer nn (tn, range) left q low high =
      let nonzero : msec ≢ 0 = λ (e : msec ≡ 0). absurd (omega arith) in
      let r : Reads msec a.timer_clock = rw timer (tn, omega arith) in
      (msec, low, high, launch_in-Waits run a w msec nonzero r q)

  setup-launch_in :
      w.queue.tasks ≡ first ∷ rest
      → a.clock ≡ reading later
      → setup_next_task_launch run a w
        ≡ launch_in run a w (expiration_msec (reading later) w.queue.next_run_time w.stack)
  unfolding setup_next_task_launch setup_for
  setup-launch_in busy clock =
      ap (λ ts. setup_for run a w ts) busy
      ∙ ap (λ c. launch_in run a w (expiration_msec c w.queue.next_run_time w.stack)) clock

  -- Where a millisecond or more is left until `next_run_time`, the first task is not launched at
  -- once: a timer with the handle of the queue is added for what is left, rounded to milliseconds
  -- with an error of less than one, or adding it fails. The queue stays as it is.
  pub setup_next_task_launch-Waits :
      w.queue.tasks ≡ first ∷ rest
      → a.clock ≡ reading later
      → a.timer_clock ≡ reading now
      → InRange later × IsNormal later
      → InRange w.queue.next_run_time × IsNormal w.queue.next_run_time
      → IsNormal now × (now.sec + w.queue.next_run_time.sec + 3 < 2 ^ 31)
      → nanos later + million ≤ nanos w.queue.next_run_time
      → IsQueue w.timers.active
      → Planned (setup_next_task_launch run a w)
  unfolding expiration_msec nanos
  setup_next_task_launch-Waits busy clock timer (lr, ln) (nr, nn) (tn, range) left q =
      let next = w.queue.next_run_time in
      let told = expiration_msec-Left later next w.stack lr nr ln in
      let (low, high) = told.1 (omega arith) in
      rw (setup-launch_in busy clock) (launch_in-Planned _ timer nn (tn, range) left q low high)
