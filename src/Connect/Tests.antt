-- ===== src/Connect/Tests.antt =====
-- A pending connect() on the ZeroMQ backend.
use femc_driver.Prelude.{ℕ, ◌<◌, refl, true, false, none, some, [], arith}
use femc_driver.ErrorStack.{ErrorStack}
use femc_driver.Zmq.{events, Library, Zmq, cleared}
use femc_driver.Zmq.Valid.{IsValid, fd_limit, services}
use femc_driver.Zmq.Registry.{backend, zmq-IsRegistry}
use femc_driver.Connect.{socket_error, Callback, pending_connect, pending_connect_callback}
use femc_driver.Connect.Waits.{Waits, connect-Waits}

abbrev stack : ErrorStack
stack = record { nodes = []; stale = []; errors = 0; meta_errors = 0; error_stack_full = false }

abbrev library : Library ℕ
library = record {
  new = some 0;
  add = λ k a i o p. p;
  modify = λ k i o p. p;
  remove = λ k p. p;
  wait_all = λ n t p. (events [], p);
}

abbrev idle : Zmq ℕ
idle = record {
  poller = none;
  entries_count = 0;
  entries = [];
  unused_entries = [];
  removed_entries = [];
  entry = λ a. cleared;
  fresh = 16;
}

idle-IsValid : IsValid idle
idle-IsValid = record { nodup = tt; bounded = tt; one = λ i. tt; listed = tt; counted = refl }

abbrev connected : Callback (Zmq ℕ)
connected fd e f s = (true, f, s)

connect-Waits_example :
    Waits
      (backend library true)
      (λ fd. fd < fd_limit)
      IsValid
      services
      (zmq-IsRegistry library true)
      3
      (omega arith)
      (some 900)
      idle
      (pending_connect (backend library true) 3 (some 900) idle stack)
    × IsValid
        (pending_connect_callback
          (backend library true)
          connected
          (socket_error 111)
          3
          idle
          stack).1
connect-Waits_example =
    connect-Waits (backend library true) (λ fd. fd < fd_limit) IsValid services
      (zmq-IsRegistry library true) 3 (omega arith) connected (λ e f s h. h.0) (some 900)
      (socket_error 111) idle stack idle-IsValid
