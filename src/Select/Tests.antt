-- ===== src/Select/Tests.antt =====
-- The services on concrete descriptors.
use femc_driver.Prelude.{
  ℕ, ◌<◌, ◌≡◌, refl, Bool, true, false, Option, none, some, arith, [], replicate, ◌==◌,
  if◌then◌else◌,
}
use femc_driver.ErrorStack.{ErrorStack, node, context}
use femc_driver.Backend.{input, output, IsRegistry}
use femc_driver.Select.Registry.{backend, services, select-IsRegistry}
use femc_driver.Select.{
  FdSet, fd_setsize, no_fds, Side, Select, Selected, ready, Notify, grow, resize_fd_block, add_to,
  add_service, remove_service, poll,
}
use femc_driver.Select.Services.{IsTracked, IsValid}
use femc_driver.Select.Outcomes.{Adds, Removes, add_service-Adds, remove_service-Removes}
use femc_driver.Select.Polls.{Keeps, IsSafe, poll-IsSafe}

abbrev stack : ErrorStack
stack = record {
  nodes = [];
  stale = replicate 64 (node context none 0);
  errors = 0;
  meta_errors = 0;
  error_stack_full = false;
}

abbrev no_service : Side
no_service = record { handlers = λ fd. none; cached = no_fds; current = no_fds; nfds = 0 }

-- The statics before the first call.
abbrev start : Select
start = record { fd_block_size = 0; r = no_service; w = no_service }

no_service-IsTracked : (size : ℕ) → IsTracked size no_service
no_service-IsTracked size = record {
  bounded = omega arith;
  small = omega arith;
  registered = λ fd. refl;
  pending = λ fd h. h;
  none_above = λ fd h. refl;
  tight = λ n h. absurd (omega arith);
}

start-IsValid : IsValid start
start-IsValid = record { r_tracked = no_service-IsTracked 0; w_tracked = no_service-IsTracked 0 }

-- Service 5 waits for input on descriptor 3.
abbrev waiting : Side
waiting = record {
  handlers = λ (fd : ℕ). if fd == 3 then some 5 else none;
  cached = λ (fd : ℕ). fd == 3;
  current = no_fds;
  nfds = 4;
}

abbrev one : Select
one = record { fd_block_size = 64; r = waiting; w = no_service }

waiting-IsTracked : IsTracked 64 waiting
waiting-IsTracked = record {
  bounded = omega arith;
  small = omega arith;
  registered = λ fd. ground arith;
  pending = λ fd h. absurd (grind (arith, h));
  none_above = λ fd h. ground arith;
  tight = λ n h. ground arith;
}

one-IsValid : IsValid one
one-IsValid = record { r_tracked = waiting-IsTracked; w_tracked = no_service-IsTracked 64 }

block_of_70 : grow 32 64 70 ≡ 128
unfolding grow
block_of_70 = refl

add_service-Adds_example : Adds output true 70 6 one stack (add_service output true 70 6 one stack)
add_service-Adds_example = add_service-Adds output true 70 6 one stack one-IsValid (omega arith)

first_block : (add_service input true 3 5 start stack).1.fd_block_size ≡ 64
unfolding add_service add_to resize_fd_block grow
first_block = refl

-- A `select` that finds all it was given ready, and a handler that removes itself.
abbrev all_ready : ℕ → FdSet → FdSet → Option (ℕ × ℕ) → Selected
all_ready n r w t = ready 1 r w

leave : Notify
leave d handler fd s stack = remove_service d fd s stack

leave-Keeps : Keeps leave
unfolding leave
leave-Keeps d handler fd s stack v =
    go (remove_service d fd s stack) (remove_service-Removes d fd s stack v)
  where
    go : (r : Bool × Select × ErrorStack) → Removes d fd s stack r → IsValid r.1
    go (true, s', stack') h = h.0
    go (false, s', stack') h = rw (h.0) v

poll-IsSafe_example : IsSafe (poll all_ready leave 10 one stack)
poll-IsSafe_example =
    poll-IsSafe leave leave-Keeps all_ready 10 one stack (λ n r w t. (λ fd h. h, λ fd h. h))
      one-IsValid

select-IsRegistry_example : IsRegistry (backend true) (λ fd. fd < fd_setsize) IsValid services
select-IsRegistry_example = select-IsRegistry true
