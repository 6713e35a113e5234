-- ===== src/Dispatcher/Tests.antt =====
-- The main loop on concrete timers.
use femc_driver.Prelude.{ℕ, true, false, none, some, [], ◌∷◌, arith}
use femc_driver.ErrorStack.{ErrorStack}
use femc_driver.Timers.{Timespec, reading, Timer}
use femc_driver.Timers.Times.{nanos}
use femc_driver.Dispatcher.{Main, Setting, rearm}
use femc_driver.Dispatcher.Rounds.{Loop}
use femc_driver.Dispatcher.Merging.{Rearms, rearm-Rearms}

abbrev empty : ErrorStack
empty = record { nodes = []; stale = []; errors = 0; meta_errors = 0; error_stack_full = false }

abbrev now : Timespec
now = record { sec = 100; nsec = 500_000_000 }

-- A timer for every second, which is due in two seconds.
abbrev soon : Timer
soon = record {
  expires = record { sec = 102; nsec = 500_000_000 };
  recurring = 1000;
  notify = 1;
  context = 2;
  id = 3;
  handle = 4;
}

abbrev state : Main ℕ
state = record {
  timers = record { active = soon ∷ []; free = 0 };
  backend = 0;
  running = true;
  initialized = true;
  main_error_context = some 0;
  stack = empty;
  readings = 0;
}

-- Callbacks that change nothing, at a time that stands still.
abbrev setting : Setting ℕ
setting = record {
  clock = λ n. reading now;
  notify = λ t m. (true, m);
  resolver = λ ok m. (true, m);
  init = λ b. b;
  empty = λ b. true;
  poll = λ msec m. (true, m);
  sigpipe = none;
  reopened = λ m. (true, m);
}

abbrev start : Loop ℕ
start = record { main = state; max_msec = 5000; max_expires = now; timers_handled = 0 }

rearm-Rearms_example :
    Rearms setting soon state
      (omega arith, omega arith)
      (omega arith)
      (λ i. (omega arith, omega arith))
      3
      (rearm setting 3 soon state)
unfolding nanos
rearm-Rearms_example =
    rearm-Rearms setting soon state (omega arith, omega arith) (omega arith)
      (λ i. (omega arith, omega arith)) 3 (omega arith)
