-- ===== src/Bufio/Create.antt =====
-- utils.c: how the services of buffered I/O are made. The callbacks of a service are not part of its
-- record, so those that it is given do not appear here.
pub mod Outcomes
use femc_driver.Prelude.{
  ℕ, ◌+◌, ◌-◌, ◌*◌, ◌%◌, ◌^◌, Bool, true, false, not, ◌&&◌, ◌||◌, Option, none, some, ltb, leb,
  ◌==◌, if◌then◌else◌,
}
use femc_driver.Backend.{Direction, input, output, Backend}
use femc_driver.ErrorStack.{
  ErrorStack, push_context, pop_context, push_consistency_failure_id, push_resource_failure_id,
  report_resource, fdu_context_bufio, invalid_arguments, memory_allocation,
}
use femc_driver.Bufio.{Service}

-- `fdu_memory_area`; `NULL` is address 0.
pub record MemoryArea : Type 0 where
  pub begin : ℕ
  pub end : ℕ

unfoldable pub init_memory_area_cont : ℕ → ℕ → MemoryArea × ℕ
init_memory_area_cont begin size = (record { begin = begin; end = begin + size }, begin + size)

abbrev pub minimum_buffer_size : ℕ
minimum_buffer_size = 64

abbrev pub maximum_buffer_size : ℕ
maximum_buffer_size = 1024 * 1024

-- The difference of the pointers, as an unsigned int.
abbrev pub area_size : MemoryArea → ℕ
area_size a = (a.end - a.begin) % 2 ^ 32

-- The checks of the pointers, and those of the sizes; `service_size` is
-- `sizeof_fdu_bufio_service`.
unfoldable pub bad_areas : MemoryArea → MemoryArea → Bool
bad_areas service buffer =
    service.begin == 0
    || buffer.begin == 0
    || ltb service.end service.begin
    || ltb buffer.end buffer.begin

unfoldable pub bad_sizes : ℕ → MemoryArea → MemoryArea → Bool
bad_sizes service_size service buffer =
    ltb (area_size service) service_size
    || (not (area_size buffer == 0) && ltb (area_size buffer) minimum_buffer_size)
    || ltb maximum_buffer_size (area_size buffer)

-- The assignments for input, and those for output, where the memory held `old`.
abbrev pub new_input : ℕ → MemoryArea → Service
new_input fd buffer = record {
  type = input;
  fd = some fd;
  can_xfer = false;
  data_begin = if area_size buffer == 0 then 0 else buffer.begin;
  size = area_size buffer;
  filled = 0;
  has_notify = true;
  close_errno = 0;
  active = false;
  closed = false;
  freed = false;
}

abbrev pub new_output : ℕ → MemoryArea → Service → Service
new_output fd buffer old = record {
  type = output;
  fd = some fd;
  can_xfer = false;
  data_begin = if area_size buffer == 0 then 0 else buffer.begin;
  size = area_size buffer;
  filled = 0;
  has_notify = true;
  close_errno = old.close_errno;
  active = old.active;
  closed = old.closed;
  freed = old.freed;
}

module _ {F : Type 0} (api : Backend F) (service_size name : ℕ) where
  -- What a constructor leaves.
  abbrev pub Made : Type 0
  Made = Option Service × F × ErrorStack

  -- Behind the pop of the context: the service is taken back if it failed.
  taken_back : ℕ → Service → F → Bool × ErrorStack → Made
  taken_back fd s f (true, stack) = (some s, f, stack)
  taken_back fd s f (false, stack) =
      let (ok, f', stack') = api.remove s.type fd f stack in (none, f', stack')

  registered : ℕ → ℕ → Service → Bool × F × ErrorStack → Made
  unfolding taken_back
  registered ectx fd s (false, f, stack) = (none, f, stack)
  registered ectx fd s (true, f, stack) =
      taken_back fd s f (pop_context fdu_context_bufio (some ectx) stack)

  -- Behind the push of the context; `make` is what is assigned to the memory.
  make_at : (ℕ → Service) → MemoryArea → MemoryArea → Option ℕ → F → Option ℕ × ErrorStack → Made
  unfolding registered bad_areas bad_sizes
  make_at make service buffer fd f (none, stack) = (none, f, stack)
  make_at make service buffer none f (some ectx, stack) =
      (none, f, (push_consistency_failure_id invalid_arguments stack).1)
  make_at make service buffer (some fd) f (some ectx, stack) =
      if bad_areas service buffer
      then (none, f, (push_consistency_failure_id invalid_arguments stack).1)
      else if bad_sizes service_size service buffer
      then (none, f, (push_resource_failure_id memory_allocation stack).1)
      else registered ectx fd (make fd) (api.add (make fd).type fd name f stack)

  pub new_input_bufio_inplace : Bool → Option ℕ → MemoryArea → MemoryArea → F → ErrorStack → Made
  unfolding make_at
  new_input_bufio_inplace has_notify fd service buffer f stack =
      make_at (λ i. record (new_input i buffer) { has_notify = has_notify }) service buffer fd f
        (push_context fdu_context_bufio none stack)

  pub new_output_bufio_inplace :
      Service → Bool → Option ℕ → MemoryArea → MemoryArea → F → ErrorStack → Made
  unfolding make_at
  new_output_bufio_inplace old has_notify fd service buffer f stack =
      make_at (λ i. record (new_output i buffer old) { has_notify = has_notify }) service buffer fd
        f (push_context fdu_context_bufio none stack)

  -- `malloc` gives the address. The memory is freed again just when there is no service.
  pub new_input_bufio : Option ℕ → Bool → Option ℕ → ℕ → F → ErrorStack → Made
  unfolding new_input_bufio_inplace init_memory_area_cont
  new_input_bufio none has_notify fd size f stack =
      (none, f, report_resource fdu_context_bufio memory_allocation stack)
  new_input_bufio (some allocated) has_notify fd size f stack =
      let (service, counter) = init_memory_area_cont allocated service_size in
      new_input_bufio_inplace has_notify fd service (init_memory_area_cont counter size).0 f stack

  pub new_output_bufio : Service → Option ℕ → Bool → Option ℕ → ℕ → F → ErrorStack → Made
  unfolding new_output_bufio_inplace init_memory_area_cont
  new_output_bufio old none has_notify fd size f stack =
      (none, f, report_resource fdu_context_bufio memory_allocation stack)
  new_output_bufio old (some allocated) has_notify fd size f stack =
      let (service, counter) = init_memory_area_cont allocated service_size in
      new_output_bufio_inplace old has_notify fd service (init_memory_area_cont counter size).0 f
        stack
