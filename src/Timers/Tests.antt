-- ===== src/Timers/Tests.antt =====
-- The timers on concrete times.
use femc_driver.Prelude.{ℕ, ◌+◌, ◌≡◌, refl, false, List, [], ◌∷◌, arith, length, All}
use femc_driver.ErrorStack.{ErrorStack}
use femc_driver.Timers.{Timespec, reading, Timer, Timers, insert, add_timer_handle, cancel_timer}
use femc_driver.Timers.Times.{nanos}
use femc_driver.Timers.Queue.{
  IsReady, IsSorted, IsInserted, insert-IsInserted, others, cancel_timer_lem,
}
use femc_driver.Timers.Adding.{Adds, add_timer_handle-Adds}

abbrev now : Timespec
now = record { sec = 100; nsec = 999_000_000 }

abbrev soon : Timespec
soon = record { sec = 101; nsec = 4_500_000 }

abbrev empty : ErrorStack
empty = record { nodes = []; stale = []; errors = 0; meta_errors = 0; error_stack_full = false }

abbrev timer_at : Timespec → ℕ → Timer
timer_at t handle = record {
  expires = t;
  recurring = 0;
  notify = 1;
  context = 2;
  id = 3;
  handle = handle;
}

abbrev waiting : List Timer
waiting = timer_at now 7 ∷ timer_at soon 8 ∷ timer_at soon 7 ∷ []

now-IsReady : IsReady (timer_at now 9)
now-IsReady = ((omega arith, omega arith), omega arith)

waiting-IsReady : All IsReady waiting
waiting-IsReady = (
  ((omega arith, omega arith), omega arith),
  (((omega arith, omega arith), omega arith), (((omega arith, omega arith), omega arith), tt)),
)

waiting-IsSorted : IsSorted waiting
unfolding IsSorted nanos
waiting-IsSorted = ((omega arith, (omega arith, tt)), ((omega arith, tt), (tt, tt)))

insert-IsInserted_example : IsInserted (timer_at now 9) waiting (insert (timer_at now 9) waiting)
insert-IsInserted_example =
    insert-IsInserted (timer_at now 9) waiting now-IsReady waiting-IsReady waiting-IsSorted

abbrev timers : Timers
timers = record { active = waiting; free = 1 }

cancel_timer_lem_example :
    ((cancel_timer 7 timers).active ≡ others 7 waiting)
    × (length (cancel_timer 7 timers).active + (cancel_timer 7 timers).free ≡ 4)
cancel_timer_lem_example = cancel_timer_lem 7 timers (λ h. absurd (omega arith))

cancel_timer_test : cancel_timer 7 timers ≡ record { active = timer_at soon 8 ∷ []; free = 3 }
unfolding cancel_timer
cancel_timer_test = refl

add_timer_handle-Adds_example :
    Adds false false
      (timer_at now 9)
      (reading now)
      1500
      timers
      empty
      (add_timer_handle false false (reading now) (timer_at now 9) 1500 timers empty)
add_timer_handle-Adds_example =
    add_timer_handle-Adds false false (timer_at now 9) (reading now) 1500 timers empty
      (omega arith, omega arith) (waiting-IsSorted, waiting-IsReady)
