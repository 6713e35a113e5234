-- ===== src/Bufio/Moving.antt =====
-- utils.c: how a buffered I/O service reads and writes, when the dispatcher calls it or it is touched.
pub mod Moves
pub mod Telling
pub mod Contents
use femc_driver.Prelude.{
  ℕ, ◌+◌, ◌-◌, ◌*◌, ◌%◌, ◌^◌, Bool, true, false, not, ◌&&◌, ◌||◌, Option, none, some, List, String,
  ltb, leb, ◌==◌, if◌then◌else◌, length,
}
use femc_driver.Memory.{Memory, store_bytes, load_bytes, copy}
use femc_driver.Backend.{Direction, input, output, Backend, same}
use femc_driver.ErrorStack.{
  ErrorStack, push_context, pop_context, safe_pop_context, push_consistency_failure_id,
  push_data_corruption, fdu_context_bufio, invalid_arguments,
}
use femc_driver.Bufio.{
  Service, World, Setting, Received, got, failing, Read, Write, eintr, eagain, epipe, with_stack,
  corrupt, refuse, pop, safe_pop, set_can_xfer, set_filled, set_errno, set_active, after_notify,
  add, remove, close,
}

module _ {F : Type 0} (s : Setting F) where
  -- `CAN_XFER` is reset, and the service is registered again.
  resume : ℕ → World F → Bool × World F
  unfolding add
  resume fd w = if w.service.can_xfer then add s fd (set_can_xfer false w) else (true, w)

  -- The call of `NOTIFY` after a movement of data: whether to close, and the world.
  pub notified : World F → Bool × World F
  notified w =
      let (ok, w₁) = s.notify (set_active w) in
      if w.service.has_notify
      then (not ok || w₁.service.closed || w₁.service.freed, after_notify w₁)
      else (false, w)

  pub finish : ℕ → Bool × World F → Bool × World F
  unfolding close
  finish ectx (lazy_close, w) = safe_pop ectx (if lazy_close then close s w else w)

  -- `return fdd_remove_input(fd) && fde_pop_context(…)`, and the same for output.
  popped : ℕ → Bool × World F → Bool × World F
  popped ectx (false, w) = (false, w)
  popped ectx (true, w) = pop ectx w

  suspend : ℕ → ℕ → World F → Bool × World F
  unfolding remove popped
  suspend ectx fd w = popped ectx (remove s fd (set_can_xfer true w))

  -- Behind `read` and the registration.
  received : ℕ → Received → Bool × World F → Bool × World F
  unfolding notified finish
  received ectx r (false, w) = (false, w)
  received ectx (got bytes) (true, w) =
      if length bytes == 0
      then finish ectx (true, w)
      else finish ectx (notified (set_filled ((w.service.filled + length bytes) % 2 ^ 32) w))
  received ectx (failing errno) (true, w) =
      if errno == eintr || errno == eagain
      then finish ectx (false, w)
      else finish ectx (true, set_errno errno w)

  -- The bytes that `read` stores.
  abbrev stored : Received → World F → World F
  stored (got bytes) w = record w {
    mem = store_bytes (w.service.data_begin + w.service.filled) bytes w.mem;
  }
  stored (failing errno) w = w

  -- Behind the push of the context.
  read_at : Read → ℕ → ℕ → World F → Bool × World F
  unfolding suspend resume received
  read_at read ectx fd w =
      let r = read fd (w.service.size - w.service.filled) in
      if not (same w.service.type input)
      then corrupt "invalid service type" w
      else if not (elim w.service.fd [ none ↦ false | some i ↦ i == fd ])
      then corrupt "fd corrupted" w
      else if ltb w.service.size w.service.filled
      then corrupt "filled > size (1)" w
      else if w.service.filled == w.service.size
      then suspend ectx fd w
      else received ectx r (resume fd (stored r w))

  input_with : Read → Option ℕ → World F → Option ℕ × ErrorStack → Bool × World F
  unfolding read_at
  input_with read fd w (none, stack) = (false, record w { stack = stack })
  input_with read none w (some ectx, stack) = refuse (record w { stack = stack })
  input_with read (some fd) w (some ectx, stack) = read_at read ectx fd (record w { stack = stack })

  pub got_input : Read → Option ℕ → World F → Bool × World F
  unfolding input_with
  got_input read fd w = input_with read fd w (push_context fdu_context_bufio none w.stack)

  -- `FILLED -= i`, and the `memmove` of what is left.
  pub consume : ℕ → World F → World F
  unfolding copy
  consume n w =
      let left = (w.service.filled + 2 ^ 32 - n) % 2 ^ 32 in
      let w₁ = set_filled left w in
      if left == 0
      then w₁
      else record w₁ { mem = copy w.service.data_begin (w.service.data_begin + n) left w.mem }

  -- Behind `write` and the registration.
  written : ℕ → ℕ × ℕ → Bool × World F → Bool × World F
  unfolding notified finish consume
  written ectx r (false, w) = (false, w)
  written ectx (n, errno) (true, w) =
      if not (n == 0)
      then finish ectx (notified (consume n w))
      else if errno == epipe
      then finish ectx (true, w)
      else if errno == eintr || errno == eagain
      then finish ectx (false, w)
      else finish ectx (true, set_errno errno w)

  write_at : Write → ℕ → ℕ → World F → Bool × World F
  unfolding suspend resume written load_bytes
  write_at write ectx fd w =
      if not (same w.service.type output)
      then corrupt "invalid service type" w
      else if not (elim w.service.fd [ none ↦ false | some i ↦ i == fd ])
      then corrupt "fd corrupted" w
      else if ltb w.service.size w.service.filled
      then corrupt "filled > size" w
      else if w.service.filled == 0
      then suspend ectx fd w
      else written ectx (write fd (load_bytes w.service.data_begin w.service.filled w.mem))
          (resume fd w)

  output_with : Write → Option ℕ → World F → Option ℕ × ErrorStack → Bool × World F
  unfolding write_at
  output_with write fd w (none, stack) = (false, record w { stack = stack })
  output_with write none w (some ectx, stack) = refuse (record w { stack = stack })
  output_with write (some fd) w (some ectx, stack) =
      write_at write ectx fd (record w { stack = stack })

  pub got_output : Write → Option ℕ → World F → Bool × World F
  unfolding output_with
  got_output write fd w = output_with write fd w (push_context fdu_context_bufio none w.stack)

  -- The switch of `fdu_bufio_touch`.
  moved : Read → Write → World F → World F
  unfolding got_input got_output
  moved read write w = elim w.service.type [
    | input ↦ if ltb w.service.filled w.service.size then (got_input read w.service.fd w).1 else w
    | output ↦ if w.service.filled == 0 then w else (got_output write w.service.fd w).1
  ]

  touch_with : Read → Write → World F → Option ℕ × ErrorStack → Bool × World F
  unfolding moved
  touch_with read write w (none, stack) = (false, record w { stack = stack })
  touch_with read write w (some ectx, stack) =
      safe_pop ectx (moved read write (record w { stack = stack }))

  pub touch : Read → Write → World F → Bool × World F
  unfolding touch_with
  touch read write w = elim w.service.fd [
    | none ↦ (false, w)
    | some fd ↦
        if not w.service.can_xfer
        then (true, w)
        else touch_with read write w (push_context fdu_context_bufio none w.stack)
  ]
