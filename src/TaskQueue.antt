-- ===== src/TaskQueue.antt =====
-- task_queue.c: tasks that run one at a time, with an interval between the end of one and the start
-- of the next.
--
-- `last_task` is the end of the list. A handler is a name, none for the null pointer, and `run` is
-- what a call of it does; it may itself complete the task. A call of a null pointer is none.
pub mod Tasks
pub mod Launch
mod Tests
use femc_driver.Prelude.{
  ℕ, zero, suc, ◌+◌, ◌-◌, Bool, true, false, not, ◌||◌, Option, none, some, List, [], ◌∷◌, ◌++◌,
  ◌==◌, if◌then◌else◌,
}
use femc_driver.ErrorStack.{
  ErrorStack, push_context, pop_context, push_consistency_failure_id, push_resource_failure_id,
  fdu_context_task_queue, invalid_arguments, task_queue_corrupted, memory_allocation,
}
use femc_driver.Timers.{
  Timespec, Clock, get_expiration_time, expiration_msec, Timer, Timers, add_timer_handle,
}

pub record Task : Type 0 where
  pub handler : ℕ
  pub handler_context : ℕ

pub record TaskQueue : Type 0 where
  pub tasks : List Task
  pub next_task_id : ℕ
  pub next_run_time : Timespec
  pub timer_handle : ℕ
  pub task_interval : ℕ

-- A queue and the statics that its functions change: the length of `f_misplaced_tasks`, the timers
-- and the error stack.
pub record World : Type 0 where
  pub queue : TaskQueue
  pub misplaced : ℕ
  pub timers : Timers
  pub stack : ErrorStack

-- What `malloc` and the clock answer during a call.
pub record Answers : Type 0 where
  pub chunk : Bool
  pub block : Bool
  pub one : Bool
  pub clock : Clock
  pub timer_clock : Clock

abbrev pub Run : Type 0
Run = ℕ → ℕ → ℕ → World → Bool × World

abbrev task_allocation_chunk : ℕ
task_allocation_chunk = 16

-- The nodes that are left, where one was taken.
pub obtain_task : Bool → ℕ → ErrorStack → Option ℕ × ErrorStack
obtain_task chunk (suc n) stack = (some n, stack)
obtain_task true zero stack = (some (task_allocation_chunk - 1), stack)
obtain_task false zero stack = (none, (push_resource_failure_id memory_allocation stack).1)

pub new_task_queue : ℕ → ℕ → TaskQueue
new_task_queue timer_handle task_interval = record {
  tasks = [];
  next_task_id = 0;
  next_run_time = record { sec = 0; nsec = 0 };
  timer_handle = timer_handle;
  task_interval = task_interval;
}

-- `fde_pop_context` at the end of the functions below.
close : ℕ → Bool × World → Bool × World
close ectx (false, w) = (false, w)
close ectx (true, w) =
    let (popped, after) = pop_context fdu_context_task_queue (some ectx) w.stack in
    (popped, record w { stack = after })

launch_first : Run → List Task → ℕ → World → Option (Bool × World)
unfolding close
launch_first run [] ectx w = none
launch_first run (t ∷ ts) ectx w =
    let id = w.queue.next_task_id + 1 in
    some (
      close ectx (
        run t.handler t.handler_context id
          (record w { queue = record w.queue { next_task_id = id } })))

launch_with : Run → World → Option ℕ × ErrorStack → Option (Bool × World)
unfolding launch_first
launch_with run w (none, stack) = some (false, record w { stack = stack })
launch_with run w (some ectx, stack) =
    launch_first run w.queue.tasks ectx (record w { stack = stack })

pub launch_next_task : Run → World → Option (Bool × World)
unfolding launch_with
launch_next_task run w = launch_with run w (push_context fdu_context_task_queue none w.stack)

-- The timer that launches the next task: `launch_next_task` and the queue have the names 0.
abbrev pub launch_timer : ℕ → Timer
launch_timer handle = record {
  expires = record { sec = 0; nsec = 0 };
  recurring = 0;
  notify = 0;
  context = 0;
  id = 0;
  handle = handle;
}

start_timer : World → Bool × Timers × ErrorStack → Option (Bool × World)
start_timer w (ok, timers, stack) = some (ok, record w { timers = timers; stack = stack })

-- Behind `expiration_msec`.
launch_in : Run → Answers → World → Option ℕ × ErrorStack → Option (Bool × World)
unfolding start_timer launch_next_task
launch_in run a w (none, stack) = some (false, record w { stack = stack })
launch_in run a w (some zero, stack) = launch_next_task run (record w { stack = stack })
launch_in run a w (some (suc msec), stack) = start_timer w (
    add_timer_handle a.block a.one a.timer_clock (launch_timer w.queue.timer_handle) (suc msec)
      w.timers stack)

setup_for : Run → Answers → World → List Task → Option (Bool × World)
unfolding launch_in
setup_for run a w [] = some (true, w)
setup_for run a w (t ∷ ts) =
    launch_in run a w (expiration_msec a.clock w.queue.next_run_time w.stack)

pub setup_next_task_launch : Run → Answers → World → Option (Bool × World)
unfolding setup_for
setup_next_task_launch run a w = setup_for run a w w.queue.tasks

close_launch : ℕ → Option (Bool × World) → Option (Bool × World)
unfolding close
close_launch ectx none = none
close_launch ectx (some r) = some (close ectx r)

abbrev put_tasks : List Task → World → World
put_tasks ts w = record w { queue = record w.queue { tasks = ts } }

-- Behind `obtain_task`: a first task is set up to be launched, another one waits at the end.
enqueue : Run → Answers → Task → ℕ → World → Option ℕ × ErrorStack → Option (Bool × World)
unfolding close close_launch setup_next_task_launch
enqueue run a task ectx w (none, stack) = some (false, record w { stack = stack })
enqueue run a task ectx w (some left, stack) =
    let w' = record w { misplaced = left; stack = stack } in
    elim w.queue.tasks [
      | [] ↦ close_launch ectx (setup_next_task_launch run a (put_tasks (task ∷ []) w'))
      | t ∷ ts ↦ some (close ectx (true, put_tasks (t ∷ (ts ++ task ∷ [])) w'))
    ]

-- A null queue or a null handler is refused.
add_checked :
    Run → Answers → Bool → Option Task → World → Option ℕ × ErrorStack → Option (Bool × World)
unfolding obtain_task enqueue
add_checked run a null_queue task w (none, stack) = some (false, record w { stack = stack })
add_checked run a true task w (some ectx, stack) =
    some (false, record w { stack = (push_consistency_failure_id invalid_arguments stack).1 })
add_checked run a false none w (some ectx, stack) =
    some (false, record w { stack = (push_consistency_failure_id invalid_arguments stack).1 })
add_checked run a false (some task) w (some ectx, stack) =
    enqueue run a task ectx w (obtain_task a.chunk w.misplaced stack)

pub add_task : Run → Answers → Bool → Option Task → World → Option (Bool × World)
unfolding add_checked
add_task run a null_queue task w =
    add_checked run a null_queue task w (push_context fdu_context_task_queue none w.stack)

-- Behind `get_expiration_time`.
resume : Run → Answers → ℕ → World → Option Timespec × ErrorStack → Option (Bool × World)
unfolding close_launch setup_next_task_launch
resume run a ectx w (none, stack) = some (false, record w { stack = stack })
resume run a ectx w (some t, stack) = close_launch ectx (
    setup_next_task_launch run a
      (record w { queue = record w.queue { next_run_time = t }; stack = stack }))

-- `done_clock` is the clock as the task is completed, before the interval begins.
complete_first : Run → Answers → Clock → ℕ → List Task → World → Option (Bool × World)
unfolding resume
complete_first run a done_clock ectx [] w =
    some (false, record w { stack = (push_consistency_failure_id task_queue_corrupted w.stack).1 })
complete_first run a done_clock ectx (t ∷ ts) w =
    resume run a ectx (record (put_tasks ts w) { misplaced = w.misplaced + 1 })
      (get_expiration_time done_clock w.queue.task_interval w.stack)

complete_checked :
    Run → Answers → Clock → Bool → ℕ → World → Option ℕ × ErrorStack → Option (Bool × World)
unfolding complete_first
complete_checked run a done_clock null_queue id w (none, stack) =
    some (false, record w { stack = stack })
complete_checked run a done_clock null_queue id w (some ectx, stack) =
    if null_queue || not (id == w.queue.next_task_id)
    then some (false, record w { stack = (push_consistency_failure_id invalid_arguments stack).1 })
    else complete_first run a done_clock ectx w.queue.tasks (record w { stack = stack })

pub complete_task : Run → Answers → Clock → Bool → ℕ → World → Option (Bool × World)
unfolding complete_checked
complete_task run a done_clock null_queue id w =
    complete_checked run a done_clock null_queue id w
      (push_context fdu_context_task_queue none w.stack)
