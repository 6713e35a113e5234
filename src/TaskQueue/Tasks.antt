-- ===== src/TaskQueue/Tasks.antt =====
-- The order of tasks, the ids that complete them, and the interval between them.
use femc_driver.Prelude.{
  ℕ, zero, suc, ◌+◌, ◌*◌, ◌≡◌, ◌≢◌, refl, ◌⊎◌, inl, inr, Bool, true, false, Option, none, some,
  List, [], ◌∷◌, ◌++◌, length, arith, ==-true, ==-false,
}
use femc_driver.ErrorStack.{
  ErrorStack, push_context, push_consistency_failure_id, fdu_context_task_queue, invalid_arguments,
}
use femc_driver.ErrorStack.Contexts.{HasRoom, pop-push, pop-push-nodes, push_context-room}
use femc_driver.Timers.{Timespec, Clock, reading, million, get_expiration_time}
use femc_driver.Timers.Times.{nanos, IsNormal, get_expiration_time_lem}
use femc_driver.TaskQueue.{
  Task, TaskQueue, World, Answers, Run, obtain_task, close, enqueue, add_checked, add_task,
  setup_next_task_launch, resume, complete_first, complete_checked, complete_task,
}

abbrev pushed : ErrorStack → ErrorStack
pushed stack = (push_context fdu_context_task_queue none stack).1

-- The call has returned true, and left the queue `queue` and an error stack without new nodes.
abbrev pub Leaves : World → TaskQueue → ℕ → Option (Bool × World) → Type 0
Leaves w queue misplaced none = ⊥
Leaves w queue misplaced (some (ok, w')) =
    (ok ≡ true)
    × (w'.queue ≡ queue)
    × (w'.misplaced ≡ misplaced)
    × (w'.timers ≡ w.timers)
    × (w'.stack.nodes ≡ w.stack.nodes)

close-Leaves :
    (w w' : World)
    → HasRoom w.stack
    → w'.stack ≡ pushed w.stack
    → w'.timers ≡ w.timers
    → Leaves w w'.queue w'.misplaced (some (close (length w.stack.nodes) (true, w')))
unfolding close
close-Leaves w w' room s t = rw s (
  pop-push fdu_context_task_queue w.stack room,
  refl,
  refl,
  t,
  pop-push-nodes fdu_context_task_queue w.stack room,
)

-- The nodes that are left where one is taken, from a new chunk of 16 if need be.
abbrev pub left_over : ℕ → ℕ
left_over zero = 15
left_over (suc n) = n

obtain_task_lem :
    (chunk : Bool) (n : ℕ) (stack : ErrorStack)
    → (n ≢ 0) ⊎ (chunk ≡ true)
    → obtain_task chunk n stack ≡ (some (left_over n), stack)
unfolding obtain_task
obtain_task_lem chunk (suc n) stack h = refl
obtain_task_lem true zero stack h = refl
obtain_task_lem false zero stack (inl h) = absurd (h refl)
obtain_task_lem false zero stack (inr h) = absurd (grind (arith, h))

-- A task that is added while another one runs or waits is put at the end of the queue. No handler
-- is called and no timer is added. A node comes from those that are left over, or, where there are
-- none, from a new chunk of 16.
pub add_task-Leaves :
    (run : Run) (a : Answers) (task first : Task) (rest : List Task) (w : World)
    → w.queue.tasks ≡ first ∷ rest
    → (w.misplaced ≢ 0) ⊎ (a.chunk ≡ true)
    → HasRoom w.stack
    → Leaves w
        (record w.queue { tasks = w.queue.tasks ++ task ∷ [] })
        (left_over w.misplaced)
        (add_task run a false (some task) w)
unfolding add_task add_checked enqueue
add_task-Leaves run a task first rest w busy nodes room =
    let (ptr, _, _, _) = push_context-room fdu_context_task_queue none w.stack room.1 in
    let taken = obtain_task_lem a.chunk w.misplaced (pushed w.stack) nodes in
    rw (ptr, add_task, add_checked)
      (rw taken (rw (busy, enqueue) (close-Leaves w _ room refl refl)))

-- The queue, the timers and the nodes are as they were, and the failure `id` is on the error stack.
abbrev pub Refuses : ℕ → World → Option (Bool × World) → Type 0
Refuses id w r =
    r ≡ some (false, record w { stack = (push_consistency_failure_id id (pushed w.stack)).1 })

-- A call of `fdu_complete_task` with an id other than that of the task that was launched last is
-- refused: it changes nothing but the error stack.
pub complete_task-Refuses :
    (run : Run) (a : Answers) (done_clock : Clock) (id : ℕ) (w : World)
    → id ≢ w.queue.next_task_id
    → HasRoom w.stack
    → Refuses invalid_arguments w (complete_task run a done_clock false id w)
unfolding complete_task complete_checked
complete_task-Refuses run a done_clock id w other room =
    let (ptr, _, _, _) = push_context-room fdu_context_task_queue none w.stack room.1 in
    rw (ptr, complete_task) (rw (==-false id w.queue.next_task_id other) refl)

-- The call has completed the only task: the queue is empty, its node is left over, and the next
-- task may run `task_interval` milliseconds from `now`.
abbrev pub Empties : World → Timespec → Option (Bool × World) → Type 0
Empties w now r =
    (at : Timespec) × Leaves w (record w.queue { tasks = []; next_run_time = at }) (w.misplaced + 1)
      r
    × IsNormal at
    × (nanos at ≡ nanos now + w.queue.task_interval * million)

-- Completing the last task of the queue under its id, with a normal reading of the clock, launches
-- nothing and adds no timer.
pub complete_task-Empties :
    (run : Run) (a : Answers) (now : Timespec) (task : Task) (w : World)
    → w.queue.tasks ≡ task ∷ []
    → IsNormal now
    → HasRoom w.stack
    → Empties w now (complete_task run a (reading now) false w.queue.next_task_id w)
unfolding complete_task complete_checked complete_first resume setup_next_task_launch
    get_expiration_time
complete_task-Empties run a now task w last normal room =
    let (ptr, _, _, _) = push_context-room fdu_context_task_queue none w.stack room.1 in
    let (n, exact) = get_expiration_time_lem now w.queue.task_interval (pushed w.stack) normal in
    let same = ==-true w.queue.next_task_id w.queue.next_task_id refl in
    rw (ptr, complete_task)
      (rw same (rw (last, complete_first) (_, close-Leaves w _ room refl refl, n, exact)))
