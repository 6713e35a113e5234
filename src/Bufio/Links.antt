-- ===== src/Bufio/Links.antt =====
-- A buffered I/O service stays registered just while it waits for its descriptor.
pub mod Closing
use femc_driver.Prelude.{
  if-case, ℕ, ◌+◌, ◌-◌, ◌%◌, ◌^◌, ◌<◌, ◌≤◌, ◌≡◌, refl, sym, ◌∙◌, ap, Bool, true, false, not, ◌&&◌,
  ◌||◌, Option, none, some, List, ltb, leb, ◌==◌, if◌then◌else◌, arith, Bool-cases, Option-cases,
  inl, inr, length, eq-==, ne-==, ==-true, ltb-true, le-ltb,
}
use femc_driver.Memory.{Memory, load_bytes}
use femc_driver.Backend.{Direction, input, output, Registry, put, same, Does, IsRegistry}
use femc_driver.ErrorStack.{
  ErrorStack, push_context, pop_context, safe_pop_context, fdu_context_bufio,
}
use femc_driver.Bufio.{
  Service, World, Setting, Received, got, failing, Read, Write, with_stack, with_backend, pop,
  safe_pop, set_fd, set_can_xfer, set_filled, set_errno, set_active, set_closed, set_freed,
  after_notify, after_close, add, remove, close_called, close_at, close, free, eintr, eagain, epipe,
  corrupt,
}

put-same : (d : Direction) (fd : ℕ) (s : Option ℕ) (r : Registry) → put d fd s r d fd ≡ s
put-same input fd s r = rw (==-true fd fd refl) refl
put-same output fd s r = rw (==-true fd fd refl) refl

module _ {F : Type 0} (s : Setting F) (IsFd : ℕ → Type 0) (IsValid : F → Type 0)
    (services : F → Registry) (law : IsRegistry s.api IsFd IsValid services) where
  -- The buffer holds no more than its size, and an open descriptor is one that the backend takes.
  abbrev pub IsSound : World F → Type 0
  IsSound w =
      (w.service.filled ≤ w.service.size)
      × (w.service.size < 2 ^ 32)
      × IsValid w.backend
      × ((i : ℕ) → w.service.fd ≡ some i → IsFd i)

  -- An open service is registered, or has `can_xfer`.
  abbrev pub IsLinked : World F → Type 0
  IsLinked w =
      (i : ℕ)
      → w.service.fd ≡ some i
      → services w.backend w.service.type i ≡ (if w.service.can_xfer then none else some s.name)

  abbrev pub IsOk : World F → Type 0
  IsOk w = IsSound w × IsLinked w

  -- A call that returned true leaves the service linked.
  abbrev pub Leaves : Bool × World F → Type 0
  Leaves (true, w) = IsOk w
  Leaves (false, w) = IsSound w

  -- The callbacks, which may call all operations, keep this.
  abbrev pub CallbacksKeep : Type 0
  CallbacksKeep =
      ((w : World F) → IsOk w → IsOk (s.notify w).1)
      × ((fd error : ℕ) (w : World F) → IsOk w → IsOk (s.on_close fd error w))

  pub with_stack-Leaves : (w : World F) (r : Bool × ErrorStack) → IsOk w → Leaves (with_stack w r)
  with_stack-Leaves w (true, stack) h = h
  with_stack-Leaves w (false, stack) h = h.0

  -- What a call of the backend for the descriptor `fd` leaves, when it should register `name`.
  abbrev pub Links : ℕ → Option ℕ → World F → Bool × World F → Type 0
  Links fd name w (true, w') =
      IsSound w' × (services w'.backend w.service.type fd ≡ name) × (w'.service ≡ w.service)
  Links fd name w (false, w') = IsSound w' × (w'.service ≡ w.service)

  with_backend-Links :
      (fd : ℕ) (name : Option ℕ) (w : World F) (r : Bool × F × ErrorStack)
      → IsSound w
      → Does IsValid services (put w.service.type fd name (services w.backend)) w.backend w.stack r
      → Links fd name w (with_backend w r)
  with_backend-Links fd name w (true, f, stack) (a, b, c, d) (v, p, n) = (
    (a, b, v, d),
    p w.service.type fd ∙ put-same w.service.type fd name (services w.backend),
    refl,
  )
  with_backend-Links fd name w (false, f, stack) (a, b, c, d) (v, p) = ((a, b, v, d), refl)

  pub add-Links :
      (fd : ℕ) (w : World F) → IsSound w → IsFd fd → Links fd (some s.name) w (add s fd w)
  unfolding add
  add-Links fd w h small =
      with_backend-Links fd (some s.name) w _ h
        (law.add_lem w.service.type fd s.name w.backend w.stack h.2 small)

  pub remove-Links : (fd : ℕ) (w : World F) → IsSound w → IsFd fd → Links fd none w (remove s fd w)
  unfolding remove
  remove-Links fd w h small =
      with_backend-Links fd none w _ h
        (law.remove_lem w.service.type fd w.backend w.stack h.2 small)
