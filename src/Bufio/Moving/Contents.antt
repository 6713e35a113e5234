-- ===== src/Bufio/Moving/Contents.antt =====
-- What a buffered I/O service reads is added to the end of its buffer, and what it writes is taken
-- from the front, before the callback is told.
use femc_driver.Prelude.{
  if-case, if-no, if-yes, ℕ, ◌+◌, ◌-◌, ◌%◌, ◌^◌, ◌≤◌, ◌<◌, ◌≡◌, ◌≢◌, refl, sym, ◌∙◌, ap, Bool,
  false, not, Option, none, some, List, ◌++◌, length, ◌==◌, arith, eq-==, ==-true, ==-false,
  ltb-false,
}
use femc_driver.Memory.{
  load_bytes, store_bytes, store_bytes-below, load_bytes-store_bytes, load_bytes-append,
  load_bytes-same, copy, copy-at,
}
use femc_driver.Backend.{Direction, input, output, same}
use femc_driver.ErrorStack.{push_context, fdu_context_bufio, error_stack_size}
use femc_driver.ErrorStack.Contexts.{push_context-room}
use femc_driver.Bufio.{World, Setting, got, Read, Write}
use femc_driver.Bufio.Moving.{
  resume, notified, finish, received, stored, read_at, input_with, got_input, consume, written,
  write_at, output_with, got_output,
}
use femc_driver.Bufio.Transfer.{contents}
use femc_driver.Bufio.Moving.Telling.{Told, finish-Told}

-- An open service of a direction that waits for its descriptor, with room for one more context.
pub record IsWaiting {F : Type 0} (d : Direction) (fd : ℕ) (w : World F) : Type 0 where
  pub type_lem : w.service.type ≡ d
  pub fd_lem : w.service.fd ≡ some fd
  pub registered : w.service.can_xfer ≡ false
  pub fits : w.service.filled ≤ w.service.size
  pub small : w.service.size < 2 ^ 32
  pub room : length w.stack.nodes < error_stack_size

module _ {F : Type 0} (s : Setting F) (fd : ℕ) (w : World F) where
  -- The context is on the stack.
  abbrev pub entered : World F
  entered = record w { stack = (push_context fdu_context_bufio none w.stack).1 }

  abbrev pub after_read : List ℕ → World F
  after_read bytes = record entered {
    service = record w.service { filled = (w.service.filled + length bytes) % 2 ^ 32 };
    mem = store_bytes (w.service.data_begin + w.service.filled) bytes w.mem;
  }

  read_at-got :
      (read : Read) (ectx : ℕ) (bytes : List ℕ)
      → IsWaiting input fd w
      → w.service.filled < w.service.size
      → read fd (w.service.size - w.service.filled) ≡ got bytes
      → length bytes ≢ 0
      → read_at s read ectx fd entered ≡ finish s ectx (notified s (after_read bytes))
  unfolding read_at resume received
  read_at-got read ectx bytes i more r some_read =
      if-no _ _ (ap (λ (t : Direction). not (same t input)) i.type_lem)
      ∙ if-no _ _ (
          ap (λ (o : Option ℕ). not (elim o [ none ↦ false | some j ↦ j == fd ])) i.fd_lem
          ∙ ap (λ (b : Bool). not b) (==-true fd fd refl))
      ∙ if-no _ _ (ltb-false w.service.size w.service.filled (omega (arith, more)))
      ∙ if-no _ _ (==-false w.service.filled w.service.size (λ e. omega (arith, more, e)))
      ∙ ap (λ x. received s ectx x (resume s fd (stored s x entered))) r
      ∙ ap (received s ectx (got bytes)) (if-no _ _ i.registered)
      ∙ if-no _ _ (==-false (length bytes) 0 some_read)

  contents-after_read :
      (bytes : List ℕ)
      → w.service.filled + length bytes ≤ w.service.size
      → w.service.size < 2 ^ 32
      → contents (after_read bytes).service (after_read bytes).mem
        ≡ contents w.service w.mem ++ bytes
  unfolding contents
  contents-after_read bytes le small =
      let n : (w.service.filled + length bytes) % 2 ^ 32 ≡ w.service.filled + length bytes =
        omega (arith, le, small) in
      ap
        (λ (k : ℕ).
          load_bytes w.service.data_begin k
            (store_bytes (w.service.data_begin + w.service.filled) bytes w.mem))
        n
      ∙ load_bytes-append w.service.filled (length bytes) w.service.data_begin _
      ∙ ap
          (λ (o : List ℕ).
            o
            ++ load_bytes (w.service.data_begin + w.service.filled) (length bytes)
                (store_bytes (w.service.data_begin + w.service.filled) bytes w.mem))
          (load_bytes-same w.service.filled w.service.data_begin w.service.data_begin w.mem _
            (λ i lt.
              store_bytes-below bytes (w.service.data_begin + w.service.filled)
                (w.service.data_begin + i) w.mem (omega arith)))
      ∙ ap (λ (o : List ℕ). load_bytes w.service.data_begin w.service.filled w.mem ++ o)
          (load_bytes-store_bytes bytes (w.service.data_begin + w.service.filled) w.mem)

  -- `fdu_bufio_got_input` of a service that waits for its descriptor and has space, where `read`
  -- gives some bytes, not more than there is space for, and a slot of the error stack is free. The
  -- buffer then holds what it held before, with the bytes that were read behind it, and no more than
  -- its size. With this the callback is called, if there is one; the service is closed behind it just
  -- if it has returned false, or has closed or freed the service; and the context is popped, unless
  -- there are errors.
  pub got_input-appends :
      (read : Read) (bytes : List ℕ)
      → IsWaiting input fd w
      → w.service.filled + length bytes ≤ w.service.size
      → length bytes ≢ 0
      → read fd (w.service.size - w.service.filled) ≡ got bytes
      → Told s (length w.stack.nodes) (after_read bytes) (got_input s read (some fd) w)
        × (contents (after_read bytes).service (after_read bytes).mem
            ≡ contents w.service w.mem ++ bytes)
        × ((after_read bytes).service.filled ≤ w.service.size)
  unfolding got_input input_with
  got_input-appends read bytes i le some_read r =
      let (p, _, _, _) = push_context-room fdu_context_bufio none w.stack i.room in
      (
        rw
            (ap (λ (o : Option ℕ). input_with s read (some fd) w (o, entered.stack)) p
              ∙ read_at-got read (length w.stack.nodes) bytes i (omega arith) r some_read)
            (finish-Told s (length w.stack.nodes) (after_read bytes)),
        contents-after_read bytes le i.small,
        omega (arith, le, i.small),
      )

  abbrev pub after_write : ℕ → World F
  after_write n = consume s n entered

  write_at-written :
      (write : Write) (ectx n errno : ℕ)
      → IsWaiting output fd w
      → w.service.filled ≢ 0
      → write fd (contents w.service w.mem) ≡ (n, errno)
      → n ≢ 0
      → write_at s write ectx fd entered ≡ finish s ectx (notified s (after_write n))
  unfolding write_at resume written contents
  write_at-written write ectx n errno i more r some_written =
      if-no _ _ (ap (λ (t : Direction). not (same t output)) i.type_lem)
      ∙ if-no _ _ (
          ap (λ (o : Option ℕ). not (elim o [ none ↦ false | some j ↦ j == fd ])) i.fd_lem
          ∙ ap (λ (b : Bool). not b) (==-true fd fd refl))
      ∙ if-no _ _ (ltb-false w.service.size w.service.filled i.fits)
      ∙ if-no _ _ (==-false w.service.filled 0 more)
      ∙ ap (λ x. written s ectx x (resume s fd entered)) r
      ∙ ap (written s ectx (n, errno)) (if-no _ _ i.registered)
      ∙ if-yes _ _ (ap (λ (b : Bool). not b) (==-false n 0 some_written))

  contents-after_write :
      (n : ℕ)
      → n ≤ w.service.filled
      → w.service.filled ≤ w.service.size
      → w.service.size < 2 ^ 32
      → contents (after_write n).service (after_write n).mem
        ≡ load_bytes (w.service.data_begin + n) (w.service.filled - n) w.mem
  unfolding contents consume
  contents-after_write n le fits small =
      let left : (w.service.filled + 2 ^ 32 - n) % 2 ^ 32 ≡ w.service.filled - n =
        omega (arith, le, fits, small) in
      if-case
        (λ (x : World F).
          load_bytes x.service.data_begin x.service.filled x.mem
          ≡ load_bytes (w.service.data_begin + n) (w.service.filled - n) w.mem)
        ((w.service.filled + 2 ^ 32 - n) % 2 ^ 32 == 0)
        (λ e.
          rw (left) (
            let none_left : w.service.filled - n ≡ 0 = sym left ∙ eq-== _ 0 e in rw none_left refl))
        (λ e. rw (left) (
          load_bytes-same (w.service.filled - n) w.service.data_begin (w.service.data_begin + n)
            w.mem _
            (λ i lt.
              copy-at w.service.data_begin (w.service.data_begin + n) (w.service.filled - n) i w.mem
                lt)))

  -- Nothing but the count and the memory is another.
  after_write_lem :
      (n : ℕ)
      → n ≤ w.service.filled
      → w.service.filled ≤ w.service.size
      → w.service.size < 2 ^ 32
      → after_write n ≡ record entered {
        service = record w.service { filled = w.service.filled - n };
        mem = (after_write n).mem;
      }
  unfolding consume
  after_write_lem n le fits small =
      let left : (w.service.filled + 2 ^ 32 - n) % 2 ^ 32 ≡ w.service.filled - n =
        omega (arith, le, fits, small) in
      if-case
        (λ (x : World F). x ≡ record entered {
          service = record w.service { filled = w.service.filled - n };
          mem = x.mem;
        })
        ((w.service.filled + 2 ^ 32 - n) % 2 ^ 32 == 0)
        (λ e. ap (λ (k : ℕ). record entered { service = record w.service { filled = k } }) left)
        (λ e.
          ap
            (λ (k : ℕ). record entered {
              service = record w.service { filled = k };
              mem =
                  copy w.service.data_begin (w.service.data_begin + n)
                    ((w.service.filled + 2 ^ 32 - n) % 2 ^ 32) w.mem;
            })
            left)

  -- `fdu_bufio_got_output` of a service that waits for its descriptor and holds some bytes, where
  -- `write` takes some of them, and a slot of the error stack is free. What was written is the front of
  -- what the buffer held, the rest of it is then in the buffer, and but for this, the memory and the
  -- context on the error stack nothing has changed. With this the callback is called, if
  -- there is one; the service is closed behind it just if it has returned false, or has closed or freed
  -- the service; and the context is popped, unless there are errors.
  pub got_output-takes :
      (write : Write) (n errno : ℕ)
      → IsWaiting output fd w
      → n ≤ w.service.filled
      → n ≢ 0
      → write fd (contents w.service w.mem) ≡ (n, errno)
      → Told s (length w.stack.nodes) (after_write n) (got_output s write (some fd) w)
        × (after_write n ≡ record entered {
          service = record w.service { filled = w.service.filled - n };
          mem = (after_write n).mem;
        })
        × (load_bytes w.service.data_begin n w.mem
              ++ contents (after_write n).service (after_write n).mem
            ≡ contents w.service w.mem)
  unfolding got_output output_with contents
  got_output-takes write n errno i le some_written r =
      let (p, _, _, _) = push_context-room fdu_context_bufio none w.stack i.room in
      let split : n + (w.service.filled - n) ≡ w.service.filled = omega (arith, le) in
      (
        rw
            (ap (λ (o : Option ℕ). output_with s write (some fd) w (o, entered.stack)) p
              ∙ write_at-written write (length w.stack.nodes) n errno i
                  (λ e. some_written (omega (arith, e, le))) r some_written)
            (finish-Told s (length w.stack.nodes) (after_write n)),
        after_write_lem n le i.fits i.small,
        ap (λ (o : List ℕ). load_bytes w.service.data_begin n w.mem ++ o)
              (contents-after_write n le i.fits i.small)
            ∙ sym (load_bytes-append n (w.service.filled - n) w.service.data_begin w.mem)
            ∙ ap (λ (k : ℕ). load_bytes w.service.data_begin k w.mem) split,
      )
