-- ===== src/Zmq/Poll.antt =====
-- `ZMQ_poll`.
pub mod Rounds
use mathlib.Core.Option
use femc_driver.Prelude.{
  ℕ, zero, suc, ◌+◌, ◌-◌, ◌*◌, ◌%◌, ◌^◌, Bool, true, false, not, ◌&&◌, ◌||◌, Option, none, some,
  List, [], String, ◌∷◌, ◌++◌, ltb, leb, ◌==◌, if◌then◌else◌,
}
use femc_driver.Backend.{Direction, input, output}
use femc_driver.ErrorStack.{
  ErrorStack, push_context, pop_context, push_consistency_failure, push_consistency_failure_id,
  push_resource_failure, push_resource_failure_id, push_stdlib_error, fdd_context_zmq,
  memory_allocation, invalid_arguments,
}
use femc_driver.Zmq.{
  Entry, Key, by_fd, by_socket, Waited, events, failing, Library, Zmq, update, list_remove,
  entry_allocation_block, block, cleared, close, allocate_new_entries, is_at, find_entry, service,
  other, with_service, is_some, new_entry, always_removed, remove_entry, reuse_removed_entries,
}

-- How the loop of `ZMQ_poll` calls a service: `notify` and `resolve_notify_return` on what it
-- returns. It may change the state.
abbrev pub Notify : Type 0 → Type 0
Notify P = Direction → ℕ → Option ℕ → Zmq P → ErrorStack → Bool × Zmq P × ErrorStack

abbrev fdd_infinite : ℕ
fdd_infinite = 2 ^ 64 - 1

abbrev long_max : ℕ
long_max = 2 ^ 63 - 1

abbrev pub timeout : ℕ → Option ℕ
timeout msec =
    if msec == fdd_infinite then none else some (if leb long_max msec then long_max else msec)

abbrev eintr : ℕ
eintr = 4

abbrev etimedout : ℕ
etimedout = 110

module _ {P : Type 0} (lib : Library P) (notify : Notify P) where
  -- One service of the entry at `a`, as it is now, where its event has come.
  call : Direction → Bool → ℕ → Zmq P → ErrorStack → Bool × Zmq P × ErrorStack
  call d false a z stack = (true, z, stack)
  call d true a z stack = elim (service d (z.entry a)) [
    | none ↦ (true, z, stack)
    | some name ↦ notify d name (z.entry a).fd z stack
  ]

  call_input : Bool → ℕ → Bool × Zmq P × ErrorStack → Bool × Zmq P × ErrorStack
  unfolding call
  call_input has_come a (false, z, stack) = (false, z, stack)
  call_input has_come a (true, z, stack) = call input has_come a z stack

  -- One round of the loop; the input bit is first.
  on_event : Option ℕ × Bool × Bool → Zmq P → ErrorStack → Bool × Zmq P × ErrorStack
  unfolding call call_input
  on_event (none, i, o) z stack =
      (false, z, (push_consistency_failure (some "fd_entry missing user data") stack).1)
  on_event (some a, i, o) z stack = call_input i a (call output o a z stack)

  dispatch : List (Option ℕ × Bool × Bool) → Bool × Zmq P × ErrorStack → Bool × Zmq P × ErrorStack
  unfolding on_event
  dispatch [] r = r
  dispatch (e ∷ rest) (false, z, stack) = (false, z, stack)
  dispatch (e ∷ rest) (true, z, stack) = dispatch rest (on_event e z stack)

  reuse_after : Bool × Zmq P × ErrorStack → Bool × Zmq P × ErrorStack
  reuse_after (false, z, stack) = (false, z, stack)
  reuse_after (true, z, stack) = (true, reuse_removed_entries z, stack)

  handle : Waited → Zmq P → ErrorStack → Bool × Zmq P × ErrorStack
  unfolding dispatch reuse_after
  handle (failing errno) z stack =
      if errno == eintr || errno == etimedout
      then (true, z, stack)
      else (false, z, (push_stdlib_error (some "zmq_poller_wait_all") errno stack).1)
  handle (events es) z stack = reuse_after (dispatch es (true, z, stack))

  poll_with : ℕ → Zmq P → Option P → ErrorStack → Bool × Zmq P × ErrorStack
  unfolding handle
  poll_with msec z none stack =
      (false, z, (push_consistency_failure (some "ZMQ_init() not called") stack).1)
  poll_with msec z (some p) stack =
      let (waited, p') = lib.wait_all z.entries_count (timeout msec) p in
      handle waited (record (reuse_removed_entries z) { poller = some p' }) stack

  pub poll : ℕ → Zmq P → ErrorStack → Bool × Zmq P × ErrorStack
  unfolding poll_with
  poll msec z stack = poll_with msec z z.poller stack
