-- ===== src/Timers/Adding.antt =====
-- `fdd_add_timer_handle` on its branches: the node is allocated and inserted, `malloc` fails, the
-- clock fails.
use femc_driver.Prelude.{
  ℕ, zero, suc, ◌+◌, ◌*◌, ◌/◌, ◌^◌, ◌<◌, ◌≡◌, refl, ◌⊎◌, inl, inr, Bool, true, false, arith,
}
use femc_driver.ErrorStack.{ErrorStack, report_resource, fdd_context_main, memory_allocation}
use femc_driver.Timers.{
  Timespec, Clock, reading, failing, million, clock_error, Timer, Timers, insert, refill,
  get_expiration_time, take_node, timer_alloc_node, add_node, add_timer_handle,
}
use femc_driver.Timers.Times.{nanos, IsNormal, get_expiration_time_lem}
use femc_driver.Timers.Queue.{IsReady, IsInserted, insert-IsInserted, IsQueue, insert-IsQueue}

-- The readings of the clock after which a timer of `msec` is still in range.
abbrev pub Reads : ℕ → Clock → Type 0
Reads msec (reading now) = IsNormal now × (now.sec + msec / 1000 + 1 < 2 ^ 31)
Reads msec (failing errno) = Unit

-- The nodes that are left of those that can be had: of the free list, or of what `malloc` gives, a
-- block of 32 or one alone.
abbrev pub left_of_nodes : Bool → Bool → ℕ → ℕ
left_of_nodes block one (suc n) = n
left_of_nodes true one zero = 31
left_of_nodes false one zero = 0

-- What the call may return and leave, where `block` and `one` say whether `malloc` gives a block, and
-- whether it gives one node.
module _ (block one : Bool) (timer : Timer) (clock : Clock) (msec : ℕ) (s : Timers)
    (stack : ErrorStack) where
  pub data Adds : Bool × Timers × ErrorStack → Type 0 where
    added :
        (now at : Timespec) {s' : Timers}
        → clock ≡ reading now
        → nanos at ≡ nanos now + msec * million
        → IsInserted (record timer { expires = at }) s.active s'.active
        → IsQueue s'.active
        → s'.free ≡ left_of_nodes block one s.free
        → Adds (true, s', stack)
    refused :
        {s' : Timers}
        → s.free ≡ 0
        → block ≡ false
        → one ≡ false
        → s'.active ≡ s.active
        → s'.free ≡ 0
        → Adds (false, s', report_resource fdd_context_main memory_allocation stack)
    unclocked :
        (errno : ℕ) {s' : Timers}
        → clock ≡ failing errno
        → s'.active ≡ s.active
        → s'.free ≡ left_of_nodes block one s.free + 1
        → Adds (
          false,
          s',
          report_resource fdd_context_main memory_allocation (clock_error errno stack),
        )

-- What `timer_alloc_node` leaves to be done, where it has taken one of `suc left` nodes.
module _ (block one : Bool) (timer : Timer) (msec : ℕ) (s : Timers) (stack : ErrorStack)
    (q : IsQueue s.active) where
  adds :
      (now at : Timespec) (left : ℕ)
      → Reads msec (reading now)
      → IsNormal at
      → nanos at ≡ nanos now + msec * million
      → left ≡ left_of_nodes block one s.free
      → Adds block one timer (reading now) msec s stack (
        true,
        record { active = insert (record timer { expires = at }) s.active; free = left },
        stack,
      )
  unfolding nanos
  adds now at left (n, range) normal e free =
      let new : Timer = record timer { expires = at } in
      let ready : IsReady new = ((omega arith, omega arith), normal) in
      added now at refl e (insert-IsInserted new s.active ready q.1 q.0)
        (insert-IsQueue new s.active ready q) free

-- Either no node is to be had, or one of those on the free list or of a new block.
refill-cases :
    (block one : Bool) (free : ℕ)
    → ((refill block one free ≡ 0) × (free ≡ 0) × (block ≡ false) × (one ≡ false))
      ⊎ (refill block one free ≡ suc (left_of_nodes block one free))
unfolding refill
refill-cases block one (suc n) = inr refl
refill-cases true one zero = inr refl
refill-cases false true zero = inr refl
refill-cases false false zero = inl (refl, refl, refl, refl)

-- The call on a list of timers that is sorted and in range, with a clock that can be read and is in
-- range, or that fails: the node is inserted in its place, `msec` milliseconds from now, and the
-- list stays sorted; or no node was free, and `malloc` gave neither a block nor one node; or there was
-- a node, and the clock has failed. In the last two the list is as before and the failures are on the
-- error stack. A node that was taken is one fewer on the free list, on which `malloc` puts 32 nodes or
-- one when it is empty, and a node that was not used is back there.
pub add_timer_handle-Adds :
    (block one : Bool) (timer : Timer) (clock : Clock) (msec : ℕ) (s : Timers) (stack : ErrorStack)
    → Reads msec clock
    → IsQueue s.active
    → Adds block one timer clock msec s stack (add_timer_handle block one clock timer msec s stack)
unfolding add_timer_handle add_node timer_alloc_node take_node get_expiration_time
add_timer_handle-Adds block one timer (reading now) msec s stack r q =
    elim (refill-cases block one s.free) [
      | inl (e, none_left, b, o) ↦ rw e (refused none_left b o refl refl)
      | inr e ↦
          let (normal, exact) = get_expiration_time_lem now msec stack r.0 in
          rw e (adds block one timer msec s stack q now _ _ r normal exact refl)
    ]
add_timer_handle-Adds block one timer (failing errno) msec s stack r q =
    elim (refill-cases block one s.free) [
      | inl (e, none_left, b, o) ↦ rw e (refused none_left b o refl refl)
      | inr e ↦ rw e (unclocked errno refl refl (omega arith))
    ]
