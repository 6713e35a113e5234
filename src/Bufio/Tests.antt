-- ===== src/Bufio/Tests.antt =====
-- Buffered I/O on concrete buffers.
use femc_driver.Prelude.{
  ℕ, zero, suc, ◌+◌, ◌-◌, ◌<◌, ◌≤◌, ◌≡◌, refl, Bool, true, false, none, some, arith, [], ◌∷◌, ◌++◌,
  replicate, inl, min,
}
use femc_driver.Memory.{Memory, load_bytes}
use femc_driver.Backend.{Direction, input, output}
use femc_driver.ErrorStack.{ErrorStack, node, context}
use femc_driver.Zmq.{events, Library, Zmq, cleared}
use femc_driver.Zmq.Lists.{look}
use femc_driver.Zmq.Valid.{IsValid, fd_limit, services}
use femc_driver.Zmq.Registry.{backend, zmq-IsRegistry}
use femc_driver.Bufio.{Service, World, Setting, got, Read, Write, close, free}
use femc_driver.Bufio.Moving.{got_input, got_output}
use femc_driver.Bufio.Transfer.{contents, transferred}
use femc_driver.Bufio.Transfer.Streams.{Fits, transferred-stream}
use femc_driver.Bufio.Create.{MemoryArea, new_input_bufio_inplace, new_output_bufio_inplace}
use femc_driver.Bufio.Create.Outcomes.{Makes, new_bufio_inplace-Makes}
use femc_driver.Bufio.Links.{IsOk, Leaves, CallbacksKeep}
use femc_driver.Bufio.Moving.Moves.{ReadsAtMost, TakesAtMost, operations-Leave}
use femc_driver.Bufio.Moving.Telling.{Told}
use femc_driver.Bufio.Moving.Contents.{
  entered, IsWaiting, after_read, after_write, got_input-appends, got_output-takes,
}

abbrev stack : ErrorStack
stack = record {
  nodes = [];
  stale = replicate 64 (node context none 0);
  errors = 0;
  meta_errors = 0;
  error_stack_full = false;
}

abbrev memory : Memory
memory a = a

-- A service of descriptor 3 with a buffer of 64 bytes.
abbrev service_with : Direction → Bool → ℕ → ℕ → Service
service_with d can_xfer p filled = record {
  type = d;
  fd = some 3;
  can_xfer = can_xfer;
  data_begin = p;
  size = 64;
  filled = filled;
  has_notify = true;
  close_errno = 0;
  active = false;
  closed = false;
  freed = false;
}

transferred-stream_example :
    let r =
      transferred (service_with input false 1000 60) (service_with output false 2000 10) memory in
    (contents r.dst r.mem ++ contents r.src r.mem
      ≡ contents (service_with input false 1000 60) memory
        ++ contents (service_with output false 2000 10) memory)
    × (r.bytes ≡ min 10 (64 - 60))
    × (r.dst.filled ≡ 60 + r.bytes)
    × (r.src.filled + r.bytes ≡ 10)
    × Fits r.dst
    × Fits r.src
transferred-stream_example =
    transferred-stream (service_with input false 1000 60) (service_with output false 2000 10) memory
      (omega arith, omega arith) (omega arith, omega arith) (inl (omega arith))

-- A poller without state or events.
abbrev library : Library ℕ
library = record {
  new = some 0;
  add = λ k a i o p. p;
  modify = λ k i o p. p;
  remove = λ k p. p;
  wait_all = λ n t p. (events [], p);
}

abbrev idle : Zmq ℕ
idle = record {
  poller = none;
  entries_count = 0;
  entries = [];
  unused_entries = [];
  removed_entries = [];
  entry = λ a. cleared;
  fresh = 16;
}

idle-IsValid : IsValid idle
idle-IsValid = record { nodup = tt; bounded = tt; one = λ i. tt; listed = tt; counted = refl }

-- The areas of a service of 100 bytes and of a buffer of 64.
abbrev service_area : MemoryArea
service_area = record { begin = 4096; end = 4196 }

abbrev buffer_area : MemoryArea
buffer_area = record { begin = 4196; end = 4260 }

new_bufio_inplace-Makes_example :
    Makes
      (backend library true)
      (λ fd. fd < fd_limit)
      IsValid
      services
      (zmq-IsRegistry library true)
      100
      9
      3
      (omega arith)
      buffer_area
      input
      idle
      (new_input_bufio_inplace
        (backend library true)
        100
        9
        true
        (some 3)
        service_area
        buffer_area
        idle
        stack)
    × Makes
        (backend library true)
        (λ fd. fd < fd_limit)
        IsValid
        services
        (zmq-IsRegistry library true)
        100
        9
        3
        (omega arith)
        buffer_area
        output
        idle
        (new_output_bufio_inplace
          (backend library true)
          100
          9
          (service_with output true 0 0)
          true
          (some 3)
          service_area
          buffer_area
          idle
          stack)
new_bufio_inplace-Makes_example =
    new_bufio_inplace-Makes (backend library true) (λ fd. fd < fd_limit) IsValid services
      (zmq-IsRegistry library true) 100 9 3 (omega arith) service_area buffer_area true
      (service_with output true 0 0) idle stack idle-IsValid

-- Callbacks that change nothing.
abbrev setting : Setting (Zmq ℕ)
setting = record {
  api = backend library true;
  name = 9;
  notify = λ w. (true, w);
  on_close = λ fd error w. w;
}

abbrev world : Service → World (Zmq ℕ)
world s = record { service = s; allocated = true; mem = memory; backend = idle; stack = stack }

abbrev read_one : Read
read_one fd zero = got []
read_one fd (suc n) = got (65 ∷ [])

read_one-ReadsAtMost : ReadsAtMost read_one
read_one-ReadsAtMost fd zero = omega arith
read_one-ReadsAtMost fd (suc n) = omega arith

abbrev write_two : Write
write_two fd [] = (0, 11)
write_two fd (b ∷ []) = (1, 0)
write_two fd (b ∷ c ∷ bytes) = (2, 0)

write_two-TakesAtMost : TakesAtMost write_two
write_two-TakesAtMost fd [] = omega arith
write_two-TakesAtMost fd (b ∷ []) = omega arith
write_two-TakesAtMost fd (b ∷ c ∷ bytes) = omega arith

callbacks :
    CallbacksKeep setting (λ fd. fd < fd_limit) IsValid services (zmq-IsRegistry library true)
callbacks = (λ w h. h, λ fd error w h. h)

-- A service that is not registered, since its buffer was full.
resting-IsOk :
    IsOk setting
      (λ fd. fd < fd_limit)
      IsValid
      services
      (zmq-IsRegistry library true)
      (world (service_with input true 1000 5))
unfolding look
resting-IsOk = ((omega arith, omega arith, idle-IsValid, λ i e. small i e), λ i e. refl)
  where
    small : (i : ℕ) → some 3 ≡ some i → i < fd_limit
    small i e = ground (arith, e)

operations-Leave_example :
    let w = world (service_with input true 1000 5) in
    Leaves setting
      (λ fd. fd < fd_limit)
      IsValid
      services
      (zmq-IsRegistry library true)
      (got_input setting read_one (some 3) w)
    × Leaves setting
        (λ fd. fd < fd_limit)
        IsValid
        services
        (zmq-IsRegistry library true)
        (got_output setting write_two (some 3) w)
    × IsOk setting
        (λ fd. fd < fd_limit)
        IsValid
        services
        (zmq-IsRegistry library true)
        (close setting w)
    × IsOk setting
        (λ fd. fd < fd_limit)
        IsValid
        services
        (zmq-IsRegistry library true)
        (free setting w)
operations-Leave_example =
    operations-Leave setting (λ fd. fd < fd_limit) IsValid services (zmq-IsRegistry library true)
      callbacks read_one write_two (some 3) (world (service_with input true 1000 5))
      read_one-ReadsAtMost write_two-TakesAtMost resting-IsOk

reading-IsWaiting : IsWaiting input 3 (world (service_with input false 1000 5))
reading-IsWaiting = record {
  type_lem = refl;
  fd_lem = refl;
  registered = refl;
  fits = omega arith;
  small = omega arith;
  room = omega arith;
}

got_input-appends_example :
    let w = world (service_with input false 1000 5) in
    Told setting 0 (after_read setting 3 w (65 ∷ [])) (got_input setting read_one (some 3) w)
    × (contents (after_read setting 3 w (65 ∷ [])).service (after_read setting 3 w (65 ∷ [])).mem
        ≡ contents w.service w.mem ++ 65 ∷ [])
    × ((after_read setting 3 w (65 ∷ [])).service.filled ≤ 64)
got_input-appends_example =
    got_input-appends setting 3 (world (service_with input false 1000 5)) read_one (65 ∷ [])
      reading-IsWaiting (omega arith) (λ e. omega (arith, e)) refl

writing-IsWaiting : IsWaiting output 3 (world (service_with output false 1000 5))
writing-IsWaiting = record {
  type_lem = refl;
  fd_lem = refl;
  registered = refl;
  fits = omega arith;
  small = omega arith;
  room = omega arith;
}

five_bytes : write_two 3 (contents (service_with output false 1000 5) memory) ≡ (2, 0)
unfolding contents load_bytes
five_bytes = refl

got_output-takes_example :
    let w = world (service_with output false 1000 5) in
    Told setting 0 (after_write setting 3 w 2) (got_output setting write_two (some 3) w)
    × (after_write setting 3 w 2 ≡ record (entered setting 3 w) {
      service = record w.service { filled = 3 };
      mem = (after_write setting 3 w 2).mem;
    })
    × (load_bytes 1000 2 memory
          ++ contents (after_write setting 3 w 2).service (after_write setting 3 w 2).mem
        ≡ contents w.service w.mem)
got_output-takes_example =
    got_output-takes setting 3 (world (service_with output false 1000 5)) write_two 2 0
      writing-IsWaiting (omega arith) (λ e. omega (arith, e)) five_bytes
