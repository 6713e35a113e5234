-- ===== src/Bufio/Moving/Moves.antt =====
-- Reading and writing by a buffered I/O service keep it linked.
use femc_driver.Prelude.{
  if-case, ℕ, zero, suc, ◌+◌, ◌-◌, ◌%◌, ◌^◌, ◌≤◌, ◌≡◌, refl, sym, ◌∙◌, ap, Bool, true, false, not,
  ◌||◌, Option, none, some, List, if◌then◌else◌, length, ltb, ◌==◌, arith, eq-==,
}
use femc_driver.Memory.{load_bytes}
use femc_driver.Backend.{input, output, Registry, IsRegistry, same}
use femc_driver.ErrorStack.{ErrorStack}
use femc_driver.Bufio.{
  set_active, Service, World, Setting, Received, got, failing, Read, Write, set_can_xfer,
  set_filled, set_errno, add, remove, close, free, eintr, eagain, epipe,
}
use femc_driver.Bufio.Moving.{
  resume, notified, finish, popped, suspend, received, stored, read_at, input_with, got_input,
  consume, written, write_at, output_with, got_output,
}
use femc_driver.Bufio.Links.{
  IsSound, IsLinked, IsOk, Leaves, CallbacksKeep, Links, with_stack-Leaves, add-Links, remove-Links,
}
use femc_driver.Bufio.Links.Closing.{close-IsOk, free-IsOk}

-- `read` gives no more bytes than it is asked for, and `write` takes no more than it is given.
abbrev pub AtMost : ℕ → Received → Type 0
AtMost n (got bytes) = length bytes ≤ n
AtMost n (failing e) = Unit

abbrev pub ReadsAtMost : Read → Type 0
ReadsAtMost read = (fd n : ℕ) → AtMost n (read fd n)

abbrev pub TakesAtMost : Write → Type 0
TakesAtMost write = (fd : ℕ) (bytes : List ℕ) → (write fd bytes).0 ≤ length bytes

-- The descriptor that the functions test.
same_fd :
    (o : Option ℕ) (fd : ℕ) → (elim o [ none ↦ false | some i ↦ i == fd ]) ≡ true → o ≡ some fd
same_fd none fd h = absurd (cc)
same_fd (some i) fd h = ap (λ (n : ℕ). some n) (eq-== i fd h)

not-false : (b : Bool) → not b ≡ false → b ≡ true
not-false true h = refl
not-false false h = sym h

length-load_bytes : (p n : ℕ) (m : ℕ → ℕ) → length (load_bytes p n m) ≡ n
unfolding load_bytes
length-load_bytes p zero m = refl
length-load_bytes p (suc n) m = ap (λ (k : ℕ). suc k) (length-load_bytes (p + 1) n m)

module _ {F : Type 0} (s : Setting F) (IsFd : ℕ → Type 0) (IsValid : F → Type 0)
    (services : F → Registry) (law : IsRegistry s.api IsFd IsValid services)
    (keep : CallbacksKeep s IsFd IsValid services law) where
  abbrev Ok : World F → Type 0
  Ok w = IsOk s IsFd IsValid services law w

  abbrev Sound : World F → Type 0
  Sound w = IsSound s IsFd IsValid services law w

  abbrev Left : Bool × World F → Type 0
  Left r = Leaves s IsFd IsValid services law r

  notified-IsOk : (w : World F) → Ok w → Ok (notified s w).1
  unfolding notified
  notified-IsOk w h =
      if-case (λ (x : Bool × World F). Ok x.1) w.service.has_notify (λ q. keep.0 (set_active w) h)
        (λ q. h)

  finish-Leaves :
      (ectx : ℕ) (r : Bool × World F)
      → Ok r.1
      → Leaves s IsFd IsValid services law (finish s ectx r)
  unfolding finish
  finish-Leaves ectx (b, w) h =
      with_stack-Leaves s IsFd IsValid services law (if b then close s w else w) _
        (if-case (λ x. Ok x) b (λ q. close-IsOk s IsFd IsValid services law keep w h) (λ q. h))

  -- With true, `filled` and `size` are as they were.
  abbrev Goes : World F → Bool × World F → Type 0
  Goes w (true, w') =
      Ok w' × (w'.service.filled ≡ w.service.filled) × (w'.service.size ≡ w.service.size)
  Goes w (false, w') = Sound w'

  IsLinked-at :
      (fd : ℕ) (w w' : World F) (name : Option ℕ)
      → w'.service ≡ w.service
      → w.service.fd ≡ some fd
      → services w'.backend w.service.type fd ≡ name
      → (if w.service.can_xfer then none else some s.name) ≡ name
      → IsLinked s IsFd IsValid services law w'
  IsLinked-at fd w w' name q e p x i k =
      let at : some fd ≡ some i = sym e ∙ ap (λ (o : Service). o.fd) (sym q) ∙ k in
      ap (λ (o : Service). services w'.backend o.type i) q
      ∙ ap (λ (o : Option ℕ). services w'.backend w.service.type (number o)) (sym at)
      ∙ p
      ∙ sym x
      ∙ ap (λ (o : Service). if o.can_xfer then none else some s.name) (sym q)
    where
      number : Option ℕ → ℕ
      number none = 0
      number (some n) = n

  resume-Goes : (fd : ℕ) (w : World F) → Ok w → w.service.fd ≡ some fd → Goes w (resume s fd w)
  unfolding resume
  resume-Goes fd w h e =
      if-case (λ r. Goes w r) w.service.can_xfer
        (λ q.
          go (add s fd (set_can_xfer false w))
            (add-Links s IsFd IsValid services law fd (set_can_xfer false w) h.0 (h.0.3 fd e)))
        (λ q. (h, refl, refl))
    where
      go :
          (r : Bool × World F)
          → Links s IsFd IsValid services law fd (some s.name) (set_can_xfer false w) r
          → Goes w r
      go (true, w') (v, p, q) = (
        (v, IsLinked-at fd (set_can_xfer false w) w' (some s.name) q e p refl),
        ap (λ (o : Service). o.filled) q,
        ap (λ (o : Service). o.size) q,
      )
      go (false, w') (v, q) = v

  suspend-Left :
      (ectx fd : ℕ) (w : World F) → Ok w → w.service.fd ≡ some fd → Left (suspend s ectx fd w)
  unfolding suspend popped
  suspend-Left ectx fd w h e =
      go (remove s fd (set_can_xfer true w))
        (remove-Links s IsFd IsValid services law fd (set_can_xfer true w) h.0 (h.0.3 fd e))
    where
      go :
          (r : Bool × World F)
          → Links s IsFd IsValid services law fd none (set_can_xfer true w) r
          → Left (popped s ectx r)
      go (true, w') (v, p, q) =
          with_stack-Leaves s IsFd IsValid services law w' _
            (v, IsLinked-at fd (set_can_xfer true w) w' none q e p refl)
      go (false, w') (v, q) = v

  told-Left : (ectx : ℕ) (w : World F) → Ok w → Left (finish s ectx (notified s w))
  told-Left ectx w h = finish-Leaves ectx (notified s w) (notified-IsOk w h)

  received-Left :
      (ectx : ℕ) (r : Received) (w : World F) (g : Bool × World F)
      → Goes w g
      → AtMost (w.service.size - w.service.filled) r
      → Left (received s ectx r g)
  unfolding received
  received-Left ectx r w (false, w') g f = g
  received-Left ectx (got bytes) w (true, w') (h, a, b) f =
      if-case (λ x. Left x) (length bytes == 0) (λ q. finish-Leaves ectx (true, w') h)
        (λ q.
          told-Left ectx (set_filled ((w'.service.filled + length bytes) % 2 ^ 32) w')
            ((omega (arith, a, b, f, h.0.0, h.0.1), h.0.1, h.0.2, h.0.3), h.1))
  received-Left ectx (failing errno) w (true, w') (h, a, b) f =
      if-case (λ x. Left x) (errno == eintr || errno == eagain)
        (λ q. finish-Leaves ectx (false, w') h)
        (λ q. finish-Leaves ectx (true, set_errno errno w') h)

  stored-Ok : (r : Received) (w : World F) → Ok w → Ok (stored s r w)
  stored-Ok (got bytes) w h = h
  stored-Ok (failing errno) w h = h

  stored-Goes : (r : Received) (w : World F) (g : Bool × World F) → Goes (stored s r w) g → Goes w g
  stored-Goes (got bytes) w (true, w') h = h
  stored-Goes (got bytes) w (false, w') h = h
  stored-Goes (failing errno) w (true, w') h = h
  stored-Goes (failing errno) w (false, w') h = h

  stored-fd :
      (r : Received) (w : World F) (fd : ℕ)
      → w.service.fd ≡ some fd
      → (stored s r w).service.fd ≡ some fd
  stored-fd (got bytes) w fd h = h
  stored-fd (failing errno) w fd h = h

  read_at-Left :
      (read : Read) (ectx fd : ℕ) (w : World F)
      → ReadsAtMost read
      → Ok w
      → Left (read_at s read ectx fd w)
  unfolding read_at
  read_at-Left read ectx fd w most h =
      let r = read fd (w.service.size - w.service.filled) in
      if-case (λ x. Left x) (not (same w.service.type input)) (λ q. h.0)
        (λ q.
          if-case (λ x. Left x) (not (elim w.service.fd [ none ↦ false | some i ↦ i == fd ]))
            (λ q. h.0)
            (λ tested.
              let e = same_fd w.service.fd fd (not-false _ tested) in
              if-case (λ x. Left x) (ltb w.service.size w.service.filled) (λ q. h.0)
                (λ q.
                  if-case (λ x. Left x) (w.service.filled == w.service.size)
                    (λ q. suspend-Left ectx fd w h e)
                    (λ q.
                      received-Left ectx r w (resume s fd (stored s r w))
                        (stored-Goes r w _
                          (resume-Goes fd (stored s r w) (stored-Ok r w h) (stored-fd r w fd e)))
                        (most fd (w.service.size - w.service.filled))))))

  input_with-Left :
      (read : Read) (fd : Option ℕ) (w : World F) (r : Option ℕ × ErrorStack)
      → ReadsAtMost read
      → Ok w
      → Left (input_with s read fd w r)
  unfolding input_with
  input_with-Left read fd w (none, stack) most h = h.0
  input_with-Left read none w (some ectx, stack) most h = h.0
  input_with-Left read (some fd) w (some ectx, stack) most h =
      read_at-Left read ectx fd (record w { stack = stack }) most h

  consume-Ok : (n : ℕ) (w : World F) → n ≤ w.service.filled → Ok w → Ok (consume s n w)
  unfolding consume
  consume-Ok n w le h =
      let less : (w.service.filled + 2 ^ 32 - n) % 2 ^ 32 ≤ w.service.size =
        omega (arith, le, h.0.0, h.0.1) in
      if-case (λ x. Ok x) ((w.service.filled + 2 ^ 32 - n) % 2 ^ 32 == 0)
        (λ q. ((less, h.0.1, h.0.2, h.0.3), h.1)) (λ q. ((less, h.0.1, h.0.2, h.0.3), h.1))

  written-Left :
      (ectx : ℕ) (r : ℕ × ℕ) (w : World F) (g : Bool × World F)
      → Goes w g
      → r.0 ≤ w.service.filled
      → Left (written s ectx r g)
  unfolding written
  written-Left ectx r w (false, w') g le = g
  written-Left ectx (n, errno) w (true, w') (h, a, b) le =
      if-case (λ x. Left x) (not (n == 0))
        (λ q. told-Left ectx (consume s n w') (consume-Ok n w' (rw a le) h))
        (λ q.
          if-case (λ x. Left x) (errno == epipe) (λ q. finish-Leaves ectx (true, w') h)
            (λ q.
              if-case (λ x. Left x) (errno == eintr || errno == eagain)
                (λ q. finish-Leaves ectx (false, w') h)
                (λ q. finish-Leaves ectx (true, set_errno errno w') h)))

  write_at-Left :
      (write : Write) (ectx fd : ℕ) (w : World F)
      → TakesAtMost write
      → Ok w
      → Left (write_at s write ectx fd w)
  unfolding write_at
  write_at-Left write ectx fd w most h =
      let bytes = load_bytes w.service.data_begin w.service.filled w.mem in
      if-case (λ x. Left x) (not (same w.service.type output)) (λ q. h.0)
        (λ q.
          if-case (λ x. Left x) (not (elim w.service.fd [ none ↦ false | some i ↦ i == fd ]))
            (λ q. h.0)
            (λ tested.
              let e = same_fd w.service.fd fd (not-false _ tested) in
              if-case (λ x. Left x) (ltb w.service.size w.service.filled) (λ q. h.0)
                (λ q.
                  if-case (λ x. Left x) (w.service.filled == 0) (λ q. suspend-Left ectx fd w h e)
                    (λ q.
                      written-Left ectx (write fd bytes) w (resume s fd w) (resume-Goes fd w h e) (
                        omega (
                          arith,
                          most fd bytes,
                          length-load_bytes w.service.data_begin w.service.filled w.mem,
                        ))))))

  output_with-Left :
      (write : Write) (fd : Option ℕ) (w : World F) (r : Option ℕ × ErrorStack)
      → TakesAtMost write
      → Ok w
      → Left (output_with s write fd w r)
  unfolding output_with
  output_with-Left write fd w (none, stack) most h = h.0
  output_with-Left write none w (some ectx, stack) most h = h.0
  output_with-Left write (some fd) w (some ectx, stack) most h =
      write_at-Left write ectx fd (record w { stack = stack }) most h

  got_input-Left :
      (read : Read) (fd : Option ℕ) (w : World F)
      → ReadsAtMost read
      → Ok w
      → Left (got_input s read fd w)
  unfolding got_input
  got_input-Left read fd w reads h = input_with-Left read fd w _ reads h

  got_output-Left :
      (write : Write) (fd : Option ℕ) (w : World F)
      → TakesAtMost write
      → Ok w
      → Left (got_output s write fd w)
  unfolding got_output
  got_output-Left write fd w takes h = output_with-Left write fd w _ takes h

  -- `fdu_bufio_got_input`, `fdu_bufio_got_output`, `fdu_bufio_close` and `fdu_bufio_free`, on top of a
  -- backend that fills its contract, with callbacks that keep what follows, a `read` that gives no
  -- more bytes than it is asked for, and a `write` that takes no more than it is given. The buffer
  -- never holds more bytes than its size, and the backend stays valid. An open service is registered
  -- with the backend for its descriptor if `can_xfer` is false, and no service is if it is true;
  -- this last is left open where reading or writing returned false.
  pub operations-Leave :
      (read : Read) (write : Write) (fd : Option ℕ) (w : World F)
      → ReadsAtMost read
      → TakesAtMost write
      → Ok w
      → Left (got_input s read fd w)
        × Left (got_output s write fd w)
        × Ok (close s w)
        × Ok (free s w)
  operations-Leave read write fd w reads takes h = (
    got_input-Left read fd w reads h,
    got_output-Left write fd w takes h,
    close-IsOk s IsFd IsValid services law keep w h,
    free-IsOk s IsFd IsValid services law keep w h,
  )
