-- ===== src/Bufio.antt =====
-- utils.c: the buffered I/O services, one of them in its world.
--
-- A service has its buffer in the memory, and is registered at the backend of the dispatcher by a
-- name. Its callbacks are functions on the world, since they may call every operation on it. What
-- `read` and `write` do is given. `FDE_ASSERT_DEBUG` is empty, as it is without FD_DEBUG.
pub mod Transfer
pub mod Create
pub mod Links
pub mod Moving
mod Tests
use femc_driver.Prelude.{
  ℕ, ◌+◌, ◌-◌, ◌*◌, ◌%◌, ◌^◌, Bool, true, false, not, ◌&&◌, ◌||◌, Option, none, some, List, String,
  ltb, leb, ◌==◌, if◌then◌else◌, length,
}
use femc_driver.Memory.{Memory, store_bytes, load_bytes, copy}
use femc_driver.Backend.{Direction, input, output, Backend, same}
use femc_driver.ErrorStack.{
  ErrorStack, push_context, pop_context, safe_pop_context, push_consistency_failure_id,
  push_data_corruption, fdu_context_bufio, invalid_arguments,
}

-- `fdu_bufio_service` with its buffer; an input service has the direction `input`. A negative
-- descriptor is none, and the three flags are the bits of `callstack`.
pub record Service : Type 0 where
  pub type : Direction
  pub fd : Option ℕ
  pub can_xfer : Bool
  pub data_begin : ℕ
  pub size : ℕ
  pub filled : ℕ
  pub has_notify : Bool
  pub close_errno : ℕ
  pub active : Bool
  pub closed : Bool
  pub freed : Bool

-- The service, whether its memory is allocated, and what its functions change besides.
pub record World (F : Type 0) : Type 0 where
  pub service : Service
  pub allocated : Bool
  pub mem : Memory
  pub backend : F
  pub stack : ErrorStack

-- What a service is given: its name at the backend, and its callbacks.
pub record Setting (F : Type 0) : Type 0 where
  pub api : Backend F
  pub name : ℕ
  pub notify : World F → Bool × World F
  pub on_close : ℕ → ℕ → World F → World F

-- What `read` returns: the bytes, or -1 with `errno`.
pub data Received : Type 0 where
  got : List ℕ → Received
  failing : ℕ → Received

-- `read` from a descriptor of at most a number of bytes.
abbrev pub Read : Type 0
Read = ℕ → ℕ → Received

-- `write` of bytes to a descriptor: how many are written, none for 0 and -1, and `errno` afterwards.
abbrev pub Write : Type 0
Write = ℕ → List ℕ → ℕ × ℕ

abbrev pub eintr : ℕ
eintr = 4

abbrev pub eagain : ℕ
eagain = 11

abbrev pub epipe : ℕ
epipe = 32

module _ {F : Type 0} where
  abbrev pub with_stack : World F → Bool × ErrorStack → Bool × World F
  with_stack w (ok, stack) = (ok, record w { stack = stack })

  abbrev pub corrupt : String → World F → Bool × World F
  corrupt text w = (false, record w { stack = (push_data_corruption (some text) w.stack).1 })

  abbrev pub refuse : World F → Bool × World F
  refuse w = (false, record w { stack = (push_consistency_failure_id invalid_arguments w.stack).1 })

  abbrev pub pop : ℕ → World F → Bool × World F
  pop ectx w = with_stack w (pop_context fdu_context_bufio (some ectx) w.stack)

  abbrev pub safe_pop : ℕ → World F → Bool × World F
  safe_pop ectx w = with_stack w (safe_pop_context fdu_context_bufio (some ectx) w.stack)

  abbrev pub set_fd : Option ℕ → World F → World F
  set_fd fd w = record w { service = record w.service { fd = fd } }

  abbrev pub set_can_xfer : Bool → World F → World F
  set_can_xfer b w = record w { service = record w.service { can_xfer = b } }

  abbrev pub set_filled : ℕ → World F → World F
  set_filled n w = record w { service = record w.service { filled = n } }

  abbrev pub set_errno : ℕ → World F → World F
  set_errno e w = record w { service = record w.service { close_errno = e } }

  abbrev pub set_active : World F → World F
  set_active w = record w { service = record w.service { active = true } }

  abbrev pub set_closed : World F → World F
  set_closed w = record w { service = record w.service { closed = true } }

  abbrev pub set_freed : World F → World F
  set_freed w = record w { service = record w.service { freed = true } }

  -- `CALLSTACK &= ~(bufio_cs_active | bufio_cs_closed)`
  abbrev pub after_notify : World F → World F
  after_notify w = record w { service = record w.service { active = false; closed = false } }

  -- `CALLSTACK &= ~(bufio_cs_active | bufio_cs_freed)`
  abbrev pub after_close : World F → World F
  after_close w = record w { service = record w.service { active = false; freed = false } }

  -- The calls of the dispatcher for the descriptor.
  abbrev pub with_backend : World F → Bool × F × ErrorStack → Bool × World F
  with_backend w (ok, f, stack) = (ok, record w { backend = f; stack = stack })

module _ {F : Type 0} (s : Setting F) where
  pub add : ℕ → World F → Bool × World F
  add fd w = with_backend w (s.api.add w.service.type fd s.name w.backend w.stack)

  pub remove : ℕ → World F → Bool × World F
  remove fd w = with_backend w (s.api.remove w.service.type fd w.backend w.stack)

  -- `service->close`, from the push of the context on, which may fail.
  close_called : ℕ → Option ℕ × World F → World F
  close_called fd (ectx, w) =
      let w₁ = s.on_close fd w.service.close_errno (set_active w) in
      let w₂ = record (after_close w₁) { allocated = w₁.allocated && not w₁.service.freed } in
      elim ectx [ none ↦ w₂ | some ptr ↦ (safe_pop ptr w₂).1 ]

  close_at : ℕ → World F → World F
  unfolding close_called remove
  close_at fd w =
      let (ectx, stack) = push_context fdu_context_bufio none w.stack in
      let w₁ = record (set_fd none w) { stack = stack } in
      close_called fd (ectx, if w.service.can_xfer then w₁ else (remove fd w₁).1)

  pub close : World F → World F
  unfolding close_at
  close w = elim w.service.fd [
    | none ↦ w
    | some fd ↦ if w.service.active then set_closed w else close_at fd w
  ]

  pub free : World F → World F
  unfolding close
  free w = if w.service.active then set_freed w else elim w.service.fd [
    | none ↦ record w { allocated = false }
    | some fd ↦ close (set_freed w)
  ]
