-- ===== src/Zmq/Tests.antt =====
-- The ZeroMQ backend on concrete descriptors and sockets.
use femc_driver.Prelude.{ℕ, ◌<◌, ◌≡◌, refl, true, false, none, some, arith, [], ◌∷◌, replicate}
use femc_driver.ErrorStack.{ErrorStack, node, context}
use femc_driver.Backend.{input, output, IsRegistry}
use femc_driver.Zmq.{Entry, by_socket, is_at, events, Library, Zmq}
use femc_driver.Zmq.Valid.{IsValid, fd_limit, services}
use femc_driver.Zmq.Lists.{look}
use femc_driver.Zmq.Registry.{backend, zmq-IsRegistry}
use femc_driver.Zmq.Services.{remove_service}
use femc_driver.Zmq.Services.Sockets.{BothGone, looked, remove_service-BothGone}
use femc_driver.Zmq.Poll.{Notify, poll}
use femc_driver.Zmq.Poll.Rounds.{Keeps, IsDone, poll-IsDone}

abbrev stack : ErrorStack
stack = record {
  nodes = [];
  stale = replicate 64 (node context none 0);
  errors = 0;
  meta_errors = 0;
  error_stack_full = false;
}

-- A poller without state, where both events of the entry 7 have come.
abbrev library : Library ℕ
library = record {
  new = some 0;
  add = λ k a i o p. p;
  modify = λ k i o p. p;
  remove = λ k p. p;
  wait_all = λ n t p. (events ((some 7, true, true) ∷ []), p);
}

-- The entry of descriptor 3.
abbrev waiting : Entry
waiting = record { input_service = some 100; output_service = none; socket = none; fd = some 3 }

abbrev one_fd : Zmq ℕ
one_fd = record {
  poller = some 0;
  entries_count = 1;
  entries = 7 ∷ [];
  unused_entries = 6 ∷ [];
  removed_entries = 5 ∷ [];
  entry = λ a. waiting;
  fresh = 16;
}

one_fd-IsValid : IsValid one_fd
one_fd-IsValid = record {
  nodup = ((λ e. omega arith, (λ e. omega arith, tt)), ((λ e. omega arith, tt), (tt, tt)));
  bounded = (omega arith, (omega arith, (omega arith, tt)));
  one = λ i. (λ at. tt, tt);
  listed = (record { at_fd = 3; fd_lem = refl; small = omega arith; served = refl }, tt);
  counted = refl;
}

zmq-IsRegistry_example : IsRegistry (backend library true) (λ fd. fd < fd_limit) IsValid services
zmq-IsRegistry_example = zmq-IsRegistry library true

-- Each service goes on as it is.
abbrev quiet : Notify ℕ
quiet d name fd z s = (true, z, s)

quiet-Keeps : Keeps quiet
quiet-Keeps d name fd z s v = v

poll-IsDone_example : IsDone (poll library quiet 10 one_fd stack)
poll-IsDone_example = poll-IsDone library quiet quiet-Keeps 10 one_fd stack one_fd-IsValid

-- The entry of socket 9, with both services.
abbrev both : Entry
both = record { input_service = some 100; output_service = some 101; socket = some 9; fd = some 0 }

abbrev one_socket : Zmq ℕ
one_socket = record {
  poller = some 0;
  entries_count = 1;
  entries = 7 ∷ [];
  unused_entries = [];
  removed_entries = [];
  entry = λ a. both;
  fresh = 16;
}

remove_service-BothGone_example :
    BothGone
      (by_socket 9)
      one_socket
      (remove_service library input (some (by_socket 9)) one_socket stack)
remove_service-BothGone_example =
    remove_service-BothGone library input 9 one_socket stack (tt, tt) (λ at. tt, tt)

-- Its output service is there before.
output_before : looked one_socket (by_socket 9) output ≡ some 101
unfolding look is_at
output_before = refl
