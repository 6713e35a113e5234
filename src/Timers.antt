-- ===== src/Timers.antt =====
-- dispatcher.c: expiration times, and the list of timers with its free nodes. A build without
-- FD_DEBUG.
--
-- The clock is CLOCK_MONOTONIC_RAW: a reading, or the errno of `clock_gettime`. Seconds and
-- nanoseconds are never negative. `malloc` is its outcome. A callback and its context are names.
pub mod Times
pub mod Queue
pub mod Adding
mod Tests
use femc_driver.Prelude.{
  ℕ, zero, suc, ◌+◌, ◌-◌, ◌*◌, ◌/◌, ◌%◌, ◌^◌, Bool, true, false, not, ◌||◌, Option, none, some,
  List, [], ◌∷◌, ltb, leb, ◌==◌, if◌then◌else◌,
}
use femc_driver.ErrorStack.{
  ErrorStack, push_context, push_stdlib_error, report_resource, fdd_context_main, memory_allocation,
}

pub record Timespec : Type 0 where
  pub sec : ℕ
  pub nsec : ℕ

pub data Clock : Type 0 where
  reading : Timespec → Clock
  failing : ℕ → Clock

abbrev pub billion : ℕ
billion = 1_000_000_000

abbrev pub million : ℕ
million = 1_000_000

-- The while loop that carries nanoseconds into seconds.
unfoldable pub carry : ℕ → Timespec → Timespec
carry zero t = t
carry (suc fuel) t = elim (leb billion t.nsec) [
  | true ↦ carry fuel (record { sec = t.sec + 1; nsec = t.nsec - billion })
  | false ↦ t
]

-- The errors of a clock that fails.
pub clock_error : ℕ → ErrorStack → ErrorStack
clock_error errno stack =
    (push_stdlib_error (some "clock_gettime(CLOCK_MONOTONIC_RAW)") errno
      (push_context fdd_context_main none stack).1).1

-- The expiration time (none for a return of false), and the error stack.
unfoldable pub get_expiration_time : Clock → ℕ → ErrorStack → Option Timespec × ErrorStack
unfolding clock_error
get_expiration_time (failing errno) msec stack = (none, clock_error errno stack)
get_expiration_time (reading now) msec stack = (
  some (
      if msec == 0
      then now
      else carry 2
          (record { sec = now.sec + msec / 1000; nsec = now.nsec + msec % 1000 * million })),
  stack,
)

-- `a - b` on a long that is returned as an int: the low 32 bits, and their sign.
abbrev pub int_difference : ℕ → ℕ → ℕ
int_difference a b = (a + 2 ^ 64 - b) % 2 ^ 32

abbrev pub is_negative : ℕ → Bool
is_negative w = leb (2 ^ 31) w

pub expiration_compare : Timespec → Timespec → ℕ
expiration_compare a b =
    if not (a.sec == b.sec) then int_difference a.sec b.sec else int_difference a.nsec b.nsec

-- `(b - a) / 1000000` on a long, rounded towards zero, and the sum as an uint64_t.
abbrev pub msec_between : Timespec → Timespec → ℕ
msec_between a b =
    let seconds = (b.sec + 2 ^ 64 - a.sec) % 2 ^ 64 * 1000 in
    if leb a.nsec b.nsec
    then (seconds + (b.nsec - a.nsec) / million) % 2 ^ 64
    else (seconds + 2 ^ 64 - (a.nsec - b.nsec) / million) % 2 ^ 64

unfoldable pub expiration_msec : Clock → Timespec → ErrorStack → Option ℕ × ErrorStack
unfolding clock_error expiration_compare
expiration_msec (failing errno) tv stack = (none, clock_error errno stack)
expiration_msec (reading now) tv stack =
    let c = expiration_compare tv now in
    (some (if is_negative c || c == 0 then 0 else msec_between now tv), stack)

-- Both sums are taken on uint64_t.
pub add_expiration_msec : Timespec → ℕ → Timespec
add_expiration_msec tv msec =
    let sec = (tv.sec + msec / 1000) % 2 ^ 64 in
    let nsec = (tv.nsec + msec % 1000 * million) % 2 ^ 64 in
    if ltb billion nsec
    then record { sec = (sec + 1) % 2 ^ 64; nsec = nsec - billion }
    else record { sec = sec; nsec = nsec }

pub record Timer : Type 0 where
  pub expires : Timespec
  pub recurring : ℕ
  pub notify : ℕ
  pub context : ℕ
  pub id : ℕ
  pub handle : ℕ

-- `f_dispatcher_timers` in the order of its links, and the length of `free_timer_nodes`, whose
-- nodes are all written anew when they are taken.
pub record Timers : Type 0 where
  pub active : List Timer
  pub free : ℕ

abbrev pub block_size : ℕ
block_size = 32

-- The free nodes that `timer_alloc_node` has to take from: those there are, a new block, one node.
pub refill : Bool → Bool → ℕ → ℕ
refill block one zero = if block then block_size else if one then 1 else 0
refill block one (suc n) = suc n

-- The new node is none where `malloc` or the clock fails; a node that was taken is put back.
take_node : Clock → Timer → ℕ → ErrorStack → ℕ → Option Timer × ℕ × ErrorStack
take_node clock timer msec stack zero = (none, 0, stack)
take_node clock timer msec stack (suc left) =
    let (expires, stack') = get_expiration_time clock msec stack in
    elim expires [
      | none ↦ (none, suc left, stack')
      | some t ↦ (some (record timer { expires = t }), left, stack')
    ]

pub timer_alloc_node :
    Bool → Bool → Clock → Timer → ℕ → ℕ → ErrorStack → Option Timer × ℕ × ErrorStack
timer_alloc_node block one clock timer msec free stack =
    take_node clock timer msec stack (refill block one free)

abbrev pub before : Timer → Timer → Bool
before a b = is_negative (expiration_compare a.expires b.expires)

-- `fdd_add_timer_node`: the test at the head and that of the loop are the same.
pub insert : Timer → List Timer → List Timer
insert new [] = new ∷ []
insert new (t ∷ ts) = if before new t then new ∷ t ∷ ts else t ∷ insert new ts

-- What `fdd_add_timer_handle` does with the node, or without one.
add_node : Timers → Option Timer × ℕ × ErrorStack → Bool × Timers × ErrorStack
unfolding insert
add_node s (none, free, stack) =
    (false, record s { free = free }, report_resource fdd_context_main memory_allocation stack)
add_node s (some new, free, stack) =
    (true, record { active = insert new s.active; free = free }, stack)

-- `timer` stands for the arguments of the call, its `expires` for nothing.
pub add_timer_handle :
    Bool → Bool → Clock → Timer → ℕ → Timers → ErrorStack → Bool × Timers × ErrorStack
add_timer_handle block one clock timer msec s stack =
    add_node s (timer_alloc_node block one clock timer msec s.free stack)

pub add_timer : Bool → Bool → Clock → Timer → ℕ → Timers → ErrorStack → Bool × Timers × ErrorStack
unfolding add_timer_handle
add_timer block one clock timer msec s stack =
    add_timer_handle block one clock (record timer { handle = 0 }) msec s stack

-- The first loop of `fdd_cancel_timer`: nodes at the head go to the free list.
pub cancel_head : ℕ → List Timer → ℕ → Timers
cancel_head handle [] free = record { active = []; free = free }
cancel_head handle (t ∷ ts) free =
    let rest = cancel_head handle ts (free + 1) in
    if t.handle == handle then rest else record { active = t ∷ ts; free = free }

-- The second loop, over the nodes behind the one at hand.
pub cancel_behind : ℕ → List Timer → ℕ → Timers
cancel_behind handle [] free = record { active = []; free = free }
cancel_behind handle (t ∷ ts) free =
    let dropped = cancel_behind handle ts (free + 1) in
    let kept = cancel_behind handle ts free in
    if t.handle == handle then dropped else record kept { active = t ∷ kept.active }

cancel_rest : ℕ → Timers → Timers
unfolding cancel_behind
cancel_rest handle s = elim s.active [
  | [] ↦ s
  | t ∷ ts ↦ let rest = cancel_behind handle ts s.free in record rest { active = t ∷ rest.active }
]

pub cancel_timer : ℕ → Timers → Timers
unfolding cancel_head cancel_rest
cancel_timer handle s =
    if handle == 0 then s else cancel_rest handle (cancel_head handle s.active s.free)
