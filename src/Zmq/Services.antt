-- ===== src/Zmq/Services.antt =====
-- The functions of dispatcher_zmq.c that start the poller, and add and remove services. Those for
-- input and output, and those for descriptors and sockets, differ in the direction and the key.
pub mod Steps
pub mod Adding
pub mod Outcomes
pub mod Removing
pub mod Sockets
use mathlib.Core.Option
use femc_driver.Prelude.{
  ℕ, zero, suc, ◌+◌, ◌-◌, ◌*◌, ◌%◌, ◌^◌, Bool, true, false, not, ◌&&◌, ◌||◌, Option, none, some,
  List, [], String, ◌∷◌, ◌++◌, ltb, leb, ◌==◌, if◌then◌else◌,
}
use femc_driver.Backend.{Direction, input, output}
use femc_driver.ErrorStack.{
  ErrorStack, push_context, pop_context, push_consistency_failure, push_consistency_failure_id,
  push_resource_failure, push_resource_failure_id, push_stdlib_error, fdd_context_zmq,
  memory_allocation, invalid_arguments,
}
use femc_driver.Zmq.{
  Entry, Key, by_fd, by_socket, Waited, events, failing, Library, Zmq, update, list_remove,
  entry_allocation_block, block, cleared, close, allocate_new_entries, is_at, find_entry, service,
  other, with_service, is_some, new_entry, always_removed, remove_entry, reuse_removed_entries,
}

abbrev mismatch : Option String
mismatch = some "error in fd service consistency"

module _ {P : Type 0} (lib : Library P) where
  init_new : Zmq P → Option P → ℕ → ErrorStack → Bool × Zmq P × ErrorStack
  init_new z none ectx stack = (false, z, (push_resource_failure (some "ZeroMQ poller") stack).1)
  init_new z (some p) ectx stack =
      let (popped, after) = close ectx stack in (popped, record z { poller = some p }, after)

  init_with : Zmq P → Option ℕ × ErrorStack → Bool × Zmq P × ErrorStack
  unfolding init_new
  init_with z (none, stack) = (false, z, stack)
  init_with z (some ectx, stack) = init_new z lib.new ectx stack

  pub zmq_init : Zmq P → ErrorStack → Bool × Zmq P × ErrorStack
  unfolding init_with
  zmq_init z stack =
      let first = init_with z (push_context fdd_context_zmq none stack) in
      if is_some z.poller then (true, z, stack) else first

  -- The events of the entry at `a` as it is now, handed to the poller.
  abbrev events_of : Entry → Key → (Key → Bool → Bool → P → P) → Option P → Option P
  events_of e k call none = none
  events_of e k call (some p) = some (call k (is_some e.input_service) (is_some e.output_service) p)

  -- The first node of `f_unused_entries`, which is not empty here.
  add_new : Direction → Key → ℕ → ℕ → List ℕ → Zmq P → ErrorStack → Bool × Zmq P × ErrorStack
  add_new d k name ectx [] z stack = (false, z, stack)
  add_new d k name ectx (a ∷ rest) z stack =
      let e = with_service d (some name) (new_entry k) in
      let (popped, after) = close ectx stack in
      (
        popped,
        record z {
          entry = update a e z.entry;
          unused_entries = rest;
          entries = a ∷ z.entries;
          entries_count = (z.entries_count + 1) % 2 ^ 32;
          poller = events_of e k (λ key. lib.add key a) z.poller;
        },
        after,
      )

  add_allocated : Direction → Key → ℕ → ℕ → Bool × Zmq P × ErrorStack → Bool × Zmq P × ErrorStack
  unfolding add_new
  add_allocated d k name ectx (false, z, stack) = (false, z, stack)
  add_allocated d k name ectx (true, z, stack) = add_new d k name ectx z.unused_entries z stack

  -- More entries for an empty `f_unused_entries`.
  pub allocate_for : Bool → List ℕ → Zmq P → ErrorStack → Bool × Zmq P × ErrorStack
  unfolding allocate_new_entries
  allocate_for malloc [] z stack = allocate_new_entries malloc z stack
  allocate_for malloc (a ∷ rest) z stack = (true, z, stack)

  add_found : Direction → Key → ℕ → ℕ → ℕ → Zmq P → ErrorStack → Bool × Zmq P × ErrorStack
  add_found d k name ectx a z stack =
      let e = with_service d (some name) (z.entry a) in
      let (popped, after) = close ectx stack in
      if is_some (service d (z.entry a)) || not (is_some (service (other d) (z.entry a)))
      then (false, z, (push_consistency_failure mismatch stack).1)
      else (
        popped,
        record z { entry = update a e z.entry; poller = events_of e k lib.modify z.poller },
        after,
      )

  add_at :
      Bool → Direction → Key → ℕ → ℕ → Option ℕ → Zmq P → ErrorStack → Bool × Zmq P × ErrorStack
  unfolding add_found add_allocated allocate_for
  add_at malloc d k name ectx (some a) z stack = add_found d k name ectx a z stack
  add_at malloc d k name ectx none z stack =
      add_allocated d k name ectx (allocate_for malloc z.unused_entries z stack)

  invalid : Zmq P → ErrorStack → Bool × Zmq P × ErrorStack
  invalid z stack = (false, z, (push_consistency_failure_id invalid_arguments stack).1)

  -- Behind the start of the poller.
  add_checked :
      Bool
      → Direction
      → Option Key
      → Option ℕ
      → ℕ
      → Bool × Zmq P × ErrorStack
      → Bool × Zmq P × ErrorStack
  unfolding invalid add_at find_entry
  add_checked malloc d k name ectx (false, z, stack) = (false, z, stack)
  add_checked malloc d none name ectx (true, z, stack) = invalid z stack
  add_checked malloc d (some k) none ectx (true, z, stack) = invalid z stack
  add_checked malloc d (some k) (some name) ectx (true, z, stack) =
      add_at malloc d k name ectx (find_entry k z.entry z.entries) z stack

  add_with :
      Bool
      → Direction
      → Option Key
      → Option ℕ
      → Zmq P
      → Option ℕ × ErrorStack
      → Bool × Zmq P × ErrorStack
  unfolding add_checked zmq_init
  add_with malloc d k name z (none, stack) = (false, z, stack)
  add_with malloc d k name z (some ectx, stack) =
      add_checked malloc d k name ectx (zmq_init z stack)

  -- `ZMQ_add_input`, `ZMQ_add_output`, `fdx_add_input_zmq` and `fdx_add_output_zmq`.
  pub add_service :
      Bool → Direction → Option Key → Option ℕ → Zmq P → ErrorStack → Bool × Zmq P × ErrorStack
  unfolding add_with
  add_service malloc d k name z stack =
      add_with malloc d k name z (push_context fdd_context_zmq none stack)

  remove_found : Direction → Key → ℕ → ℕ → Zmq P → ErrorStack → Bool × Zmq P × ErrorStack
  unfolding remove_entry
  remove_found d k ectx a z stack =
      let e = with_service d none (z.entry a) in
      let kept = is_some (service (other d) e) in
      let modified = record z {
        entry = update a e z.entry;
        poller =
            if kept then events_of e k lib.modify z.poller else Option.map (lib.remove k) z.poller;
      } in
      let (popped, after) = close ectx stack in
      if not (is_some (service d (z.entry a)))
      then (false, z, (push_consistency_failure mismatch stack).1)
      else if kept && not (always_removed k)
      then (popped, modified, after)
      else (
        popped,
        record (remove_entry a modified) {
          entries_count = (z.entries_count + 2 ^ 32 - 1) % 2 ^ 32;
        },
        after,
      )

  remove_at : Direction → Key → ℕ → Option ℕ → Zmq P → ErrorStack → Bool × Zmq P × ErrorStack
  unfolding remove_found invalid
  remove_at d k ectx none z stack = invalid z stack
  remove_at d k ectx (some a) z stack = remove_found d k ectx a z stack

  remove_checked :
      Direction → Option Key → ℕ → Bool × Zmq P × ErrorStack → Bool × Zmq P × ErrorStack
  unfolding remove_at invalid find_entry
  remove_checked d k ectx (false, z, stack) = (false, z, stack)
  remove_checked d none ectx (true, z, stack) = invalid z stack
  remove_checked d (some k) ectx (true, z, stack) =
      remove_at d k ectx (find_entry k z.entry z.entries) z stack

  remove_with : Direction → Option Key → Zmq P → Option ℕ × ErrorStack → Bool × Zmq P × ErrorStack
  unfolding remove_checked zmq_init
  remove_with d k z (none, stack) = (false, z, stack)
  remove_with d k z (some ectx, stack) = remove_checked d k ectx (zmq_init z stack)

  -- `ZMQ_remove_input`, `ZMQ_remove_output`, `fdx_remove_input_zmq` and `fdx_remove_output_zmq`.
  pub remove_service : Direction → Option Key → Zmq P → ErrorStack → Bool × Zmq P × ErrorStack
  unfolding remove_with
  remove_service d k z stack = remove_with d k z (push_context fdd_context_zmq none stack)

  pub add_input : Bool → Option ℕ → Option ℕ → Zmq P → ErrorStack → Bool × Zmq P × ErrorStack
  unfolding add_service
  add_input malloc fd name = add_service malloc input (Option.map by_fd fd) name

  pub add_output : Bool → Option ℕ → Option ℕ → Zmq P → ErrorStack → Bool × Zmq P × ErrorStack
  unfolding add_service
  add_output malloc fd name = add_service malloc output (Option.map by_fd fd) name

  pub add_input_zmq : Bool → Option ℕ → Option ℕ → Zmq P → ErrorStack → Bool × Zmq P × ErrorStack
  unfolding add_service
  add_input_zmq malloc socket name = add_service malloc input (Option.map by_socket socket) name

  pub add_output_zmq : Bool → Option ℕ → Option ℕ → Zmq P → ErrorStack → Bool × Zmq P × ErrorStack
  unfolding add_service
  add_output_zmq malloc socket name = add_service malloc output (Option.map by_socket socket) name

  pub remove_input : Option ℕ → Zmq P → ErrorStack → Bool × Zmq P × ErrorStack
  unfolding remove_service
  remove_input fd = remove_service input (Option.map by_fd fd)

  pub remove_output : Option ℕ → Zmq P → ErrorStack → Bool × Zmq P × ErrorStack
  unfolding remove_service
  remove_output fd = remove_service output (Option.map by_fd fd)

  pub remove_input_zmq : Option ℕ → Zmq P → ErrorStack → Bool × Zmq P × ErrorStack
  unfolding remove_service
  remove_input_zmq socket = remove_service input (Option.map by_socket socket)

  pub remove_output_zmq : Option ℕ → Zmq P → ErrorStack → Bool × Zmq P × ErrorStack
  unfolding remove_service
  remove_output_zmq socket = remove_service output (Option.map by_socket socket)

  unfoldable pub empty : Zmq P → Bool
  empty z = z.entries_count == 0
