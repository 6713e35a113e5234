-- ===== src/Select.antt =====
-- dispatcher_select.c: the services that wait for file descriptors, on top of `select`. A build
-- without FD_DEBUG.
--
-- `fd_block` is an array of pairs of handlers; it is taken apart into the handlers for input and
-- those for output. A handler is a name, none for the null pointer. `select` and the call of a
-- handler with `resolve_notify_return` on what it returns are arguments.
pub mod Services
pub mod Changes
pub mod Outcomes
pub mod Polls
pub mod Registry
mod Tests
use femc_driver.Prelude.{
  ℕ, zero, suc, ◌+◌, ◌-◌, ◌*◌, ◌/◌, ◌%◌, ◌^◌, max, Bool, true, false, not, ◌&&◌, ◌||◌, Option, none,
  some, ltb, leb, ◌==◌, if◌then◌else◌,
}
use femc_driver.Backend.{Direction, input, output}
use femc_driver.ErrorStack.{
  ErrorStack, push_stdlib_error, report_consistency, report_resource, fdd_context_select,
  memory_allocation, io_handler_corrupted,
}

-- A set of file descriptors: `fd_set`.
abbrev pub FdSet : Type 0
FdSet = ℕ → Bool

abbrev pub no_fds : FdSet
no_fds fd = false

abbrev pub fd_set : ℕ → FdSet → FdSet
fd_set fd fds i = if i == fd then true else fds i

abbrev pub fd_clr : ℕ → FdSet → FdSet
fd_clr fd fds i = if i == fd then false else fds i

-- One direction: `input_handler`, `cached_fd_r`, `current_fd_r`, `nfds_r`, or those of output.
pub record Side : Type 0 where
  pub handlers : ℕ → Option ℕ
  pub cached : FdSet
  pub current : FdSet
  pub nfds : ℕ

pub record Select : Type 0 where
  pub fd_block_size : ℕ
  pub r : Side
  pub w : Side

abbrev pub side : Direction → Select → Side
side input s = s.r
side output s = s.w

abbrev pub with_side : Direction → Side → Select → Select
with_side input x s = record s { r = x }
with_side output x s = record s { w = x }

-- The doubling loop on an unsigned int.
pub grow : ℕ → ℕ → ℕ → ℕ
grow zero size fd = size
grow (suc fuel) size fd = elim (leb size fd) [
  | true ↦ grow fuel (size * 2 % 2 ^ 32) fd
  | false ↦ size
]

abbrev pub zero_sets : Side → Side
zero_sets x = record x { cached = no_fds; current = no_fds }

-- The copy of the old block, and zeros behind it.
abbrev pub extend : ℕ → Side → Side
extend size x = record x { handlers = λ (fd : ℕ). if ltb fd size then x.handlers fd else none }

pub resize_to : Bool → ℕ → Select → ErrorStack → Bool × Select × ErrorStack
resize_to malloc new_size s stack =
    if leb new_size s.fd_block_size
    then (true, s, stack)
    else if not malloc
    then (false, s, report_resource fdd_context_select memory_allocation stack)
    else (
      true,
      record {
        fd_block_size = new_size;
        r = extend s.fd_block_size s.r;
        w = extend s.fd_block_size s.w;
      },
      stack,
    )

pub resize_fd_block : Bool → ℕ → Select → ErrorStack → Bool × Select × ErrorStack
unfolding resize_to
resize_fd_block malloc fd s stack =
    if s.fd_block_size == 0
    then resize_to malloc (grow 32 64 fd) (record s { r = zero_sets s.r; w = zero_sets s.w }) stack
    else resize_to malloc (grow 32 s.fd_block_size fd) s stack

pub empty : Select → Bool
empty s = s.r.nfds == 0 && s.w.nfds == 0

abbrev pub raised : ℕ → ℕ → ℕ
raised nfds fd = if nfds == 0 || ltb nfds (fd + 1) then fd + 1 else nfds

-- The assignments of `SELECT_add_input` and `SELECT_add_output`.
pub add_handler : ℕ → ℕ → Side → Side
add_handler fd service x = record {
  handlers = λ (i : ℕ). if i == fd then some service else x.handlers i;
  cached = fd_set fd x.cached;
  current = fd_clr fd x.current;
  nfds = raised x.nfds fd;
}

-- Behind `resize_fd_block`.
add_to : Direction → ℕ → ℕ → Bool × Select × ErrorStack → Bool × Select × ErrorStack
add_to d fd service (false, s, stack) = (false, s, stack)
add_to d fd service (true, s, stack) = elim ((side d s).handlers fd) [
  | some old ↦ (false, s, report_consistency fdd_context_select io_handler_corrupted stack)
  | none ↦ (true, with_side d (add_handler fd service (side d s)) s, stack)
]

pub add_service : Direction → Bool → ℕ → ℕ → Select → ErrorStack → Bool × Select × ErrorStack
add_service d malloc fd service s stack =
    add_to d fd service
      (if leb s.fd_block_size fd then resize_fd_block malloc fd s stack else (true, s, stack))

pub add_input : Bool → ℕ → ℕ → Select → ErrorStack → Bool × Select × ErrorStack
unfolding add_service
add_input = add_service input

pub add_output : Bool → ℕ → ℕ → Select → ErrorStack → Bool × Select × ErrorStack
unfolding add_service
add_output = add_service output

abbrev pub occupied : Option ℕ → Bool
occupied none = false
occupied (some h) = true

-- The loop that lowers `nfds` below the highest handler.
pub trim : (ℕ → Option ℕ) → ℕ → ℕ
trim handlers zero = 0
trim handlers (suc n) = let rest = trim handlers n in if occupied (handlers n) then suc n else rest

-- The assignments of `SELECT_remove_input` and `SELECT_remove_output`.
pub remove_handler : ℕ → Side → Side
remove_handler fd x =
    let left : ℕ → Option ℕ = λ (i : ℕ). if i == fd then none else x.handlers i in
    record {
      handlers = left;
      cached = fd_clr fd x.cached;
      current = fd_clr fd x.current;
      nfds = trim left x.nfds;
    }

pub remove_service : Direction → ℕ → Select → ErrorStack → Bool × Select × ErrorStack
remove_service d fd s stack =
    if leb s.fd_block_size fd
    then (false, s, report_consistency fdd_context_select io_handler_corrupted stack)
    else (true, with_side d (remove_handler fd (side d s)) s, stack)

pub remove_input : ℕ → Select → ErrorStack → Bool × Select × ErrorStack
unfolding remove_service
remove_input = remove_service input

pub remove_output : ℕ → Select → ErrorStack → Bool × Select × ErrorStack
unfolding remove_service
remove_output = remove_service output

-- What `select` returns: the number of bits that are set in the sets it leaves, or its errno.
pub data Selected : Type 0 where
  ready : ℕ → FdSet → FdSet → Selected
  failing : ℕ → Selected

-- How a loop of `SELECT_poll` ends: it is through, it returns, it calls a null pointer, or the fuel
-- is spent.
pub data Visit : Type 0 where
  through : ℕ → Select → ErrorStack → Visit
  returned : Bool → Select → ErrorStack → Visit
  null_handler : Visit
  spent : Visit

abbrev pub Notify : Type 0
Notify = Direction → ℕ → ℕ → Select → ErrorStack → Bool × Select × ErrorStack

abbrev pub clear_current : Direction → ℕ → Select → Select
clear_current d fd s = with_side d (record (side d s) { current = fd_clr fd (side d s).current }) s

-- The loops over the ready descriptors of one direction, from `fd`. A handler may add and remove
-- services.
pub visit : Notify → Direction → ℕ → ℕ → ℕ → Select → ErrorStack → Visit
visit notify d zero fd count s stack = spent
visit notify d (suc fuel) fd count s stack = elim (ltb fd (side d s).nfds) [
  | false ↦ through count s stack
  | true ↦ elim ((side d s).current fd) [
    | false ↦ visit notify d fuel (fd + 1) count s stack
    | true ↦ elim ((side d s).handlers fd) [
      | none ↦ null_handler
      | some handler ↦
          let (ok, s', stack') = notify d handler fd (clear_current d fd s) stack in
          elim ok [
            | false ↦ returned false s' stack'
            | true ↦ elim (count == 1) [
              | true ↦ returned true s' stack'
              | false ↦ visit notify d fuel (fd + 1) (count - 1) s' stack'
            ]
          ]
    ]
  ]
]

-- A descriptor of an `fd_set` is below FD_SETSIZE.
abbrev pub fd_setsize : ℕ
fd_setsize = 1024

abbrev pub visit_fuel : ℕ
visit_fuel = 1025

visit_output : Notify → Visit → Visit
unfolding visit
visit_output notify (through count s stack) = visit notify output visit_fuel 0 count s stack
visit_output notify v = v

-- Behind both loops.
finish : Visit → Visit
finish (through count s stack) = returned true s stack
finish v = v

abbrev pub eintr : ℕ
eintr = 4

abbrev pub eagain : ℕ
eagain = 11

abbrev pub fdd_infinite : ℕ
fdd_infinite = 2 ^ 64 - 1

abbrev pub timeout : ℕ → Option (ℕ × ℕ)
timeout msec = if ltb msec fdd_infinite then some (msec / 1000, msec % 1000 * 1000) else none

-- Behind the call of `select`.
handle : Notify → Select → ErrorStack → Selected → Visit
unfolding visit visit_output finish
handle notify s stack (failing errno) =
    if errno == eintr || errno == eagain
    then returned true s stack
    else returned false s (push_stdlib_error (some "select") errno stack).1
handle notify s stack (ready count r w) =
    let s' = record s { r = record s.r { current = r }; w = record s.w { current = w } } in
    if count == 0
    then returned true s' stack
    else finish (visit_output notify (visit notify input visit_fuel 0 count s' stack))

pub poll :
    (ℕ → FdSet → FdSet → Option (ℕ × ℕ) → Selected) → Notify → ℕ → Select → ErrorStack → Visit
unfolding handle
poll select notify msec s stack =
    let s' = record s {
      r = record s.r { current = s.r.cached };
      w = record s.w { current = s.w.cached };
    } in
    handle notify s' stack (select (max s.r.nfds s.w.nfds) s.r.cached s.w.cached (timeout msec))
