-- ===== src/TaskQueue/Tests.antt =====
-- A queue of concrete tasks.
use femc_driver.Prelude.{ℕ, refl, true, false, none, [], ◌∷◌, arith, replicate}
use femc_driver.ErrorStack.{ErrorStack, node, context}
use femc_driver.ErrorStack.Contexts.{HasRoom}
use femc_driver.Timers.Times.{nanos}
use femc_driver.Timers.Queue.{IsSorted}
use femc_driver.TaskQueue.Launch.{Planned, setup_next_task_launch-Waits}
use femc_driver.Timers.{Timespec, reading}
use femc_driver.TaskQueue.{Task, World, Answers, Run, setup_next_task_launch}

abbrev stack : ErrorStack
stack = record {
  nodes = [];
  stale = replicate 64 (node context none 0);
  errors = 0;
  meta_errors = 0;
  error_stack_full = false;
}

stack-HasRoom : HasRoom stack
stack-HasRoom = (record { errors_fit = omega arith; metas_fit = omega arith }, omega arith)

abbrev task : ℕ → Task
task n = record { handler = n; handler_context = 0 }

-- The second task has been launched and is still running.
abbrev running : World
running = record {
  queue = record {
    tasks = task 1 ∷ [];
    next_task_id = 2;
    next_run_time = record { sec = 50; nsec = 0 };
    timer_handle = 7;
    task_interval = 1500;
  };
  misplaced = 3;
  timers = record { active = []; free = 0 };
  stack = stack;
}

abbrev now : Timespec
now = record { sec = 60; nsec = 700_000_000 }

abbrev answers : Answers
answers = record {
  chunk = false;
  block = true;
  one = true;
  clock = reading now;
  timer_clock = reading now;
}

-- A handler that only succeeds.
abbrev run : Run
run handler handler_context id w = (true, w)

-- Two tasks wait for the next run, 1300 milliseconds from now.
abbrev early : World
early = record running {
  queue = record running.queue {
    tasks = task 1 ∷ task 5 ∷ [];
    next_run_time = record { sec = 62; nsec = 0 };
  };
}

no_timers-IsSorted : IsSorted []
unfolding IsSorted
no_timers-IsSorted = tt

setup_next_task_launch-Waits_example :
    Planned run answers early
      (task 1)
      (task 5 ∷ [])
      now
      now
      (setup_next_task_launch run answers early)
unfolding nanos
setup_next_task_launch-Waits_example =
    setup_next_task_launch-Waits run answers early (task 1) (task 5 ∷ []) now now refl refl refl
      ((omega arith, omega arith), omega arith) ((omega arith, omega arith), omega arith)
      (omega arith, omega arith) (omega arith) (no_timers-IsSorted, tt)
