-- ===== src/Bufio/Links/Closing.antt =====
-- Closing a buffered I/O service and freeing it keep it linked.
use femc_driver.Prelude.{
  if-case, ℕ, ◌≡◌, refl, sym, ◌∙◌, ap, Bool, true, false, Option, none, some, if◌then◌else◌,
}
use femc_driver.Backend.{Registry, IsRegistry}
use femc_driver.ErrorStack.{push_context, fdu_context_bufio}
use femc_driver.Bufio.{
  Service, World, Setting, set_fd, set_active, set_closed, set_freed, remove, close_called,
  close_at, close, free,
}
use femc_driver.Bufio.Links.{IsSound, IsOk, CallbacksKeep, Links, remove-Links}

none≢some {ℓ κ} : {A : Type ℓ} {B : Type κ} {x : A} → none ≡ some x → B
none≢some h = absurd (cc)

module _ {F : Type 0} (s : Setting F) (IsFd : ℕ → Type 0) (IsValid : F → Type 0)
    (services : F → Registry) (law : IsRegistry s.api IsFd IsValid services)
    (keep : CallbacksKeep s IsFd IsValid services law) where
  abbrev Ok : World F → Type 0
  Ok w = IsOk s IsFd IsValid services law w

  abbrev Sound : World F → Type 0
  Sound w = IsSound s IsFd IsValid services law w

  close_called-IsOk :
      (fd : ℕ) (ectx : Option ℕ) (w : World F) → Ok w → Ok (close_called s fd (ectx, w))
  unfolding close_called
  close_called-IsOk fd none w h = keep.1 fd w.service.close_errno (set_active w) h
  close_called-IsOk fd (some ptr) w h = keep.1 fd w.service.close_errno (set_active w) h

  -- No descriptor is left, so that nothing is linked to one.
  shut-IsOk :
      (fd : ℕ) (w : World F) → Sound w → IsFd fd → w.service.fd ≡ none → Ok (remove s fd w).1
  shut-IsOk fd w h small e =
      go (remove s fd w) (remove-Links s IsFd IsValid services law fd w h small)
    where
      go : (r : Bool × World F) → Links s IsFd IsValid services law fd none w r → Ok r.1
      go (true, w') (v, p, q) =
          (v, λ i k. none≢some (sym e ∙ ap (λ (x : Service). x.fd) (sym q) ∙ k))
      go (false, w') (v, q) = (v, λ i k. none≢some (sym e ∙ ap (λ (x : Service). x.fd) (sym q) ∙ k))

  close_at-IsOk : (fd : ℕ) (w : World F) → Sound w → IsFd fd → Ok (close_at s fd w)
  unfolding close_at
  close_at-IsOk fd w (a, b, v, d) small =
      let stack = (push_context fdu_context_bufio none w.stack).1 in
      let w₁ : World F = record (set_fd none w) { stack = stack } in
      let sound : Sound w₁ = (a, b, v, λ i k. none≢some k) in
      close_called-IsOk fd _ (if w.service.can_xfer then w₁ else (remove s fd w₁).1) (
        if-case (λ x. Ok x) w.service.can_xfer (λ e. (sound, λ i k. none≢some k))
          (λ e. shut-IsOk fd w₁ sound small refl))

  close-opened :
      (fd : Option ℕ) (w : World F)
      → w.service.fd ≡ fd
      → Ok w
      → Ok (elim fd [
        | none ↦ w
        | some i ↦ if w.service.active then set_closed w else close_at s i w
      ])
  close-opened none w e h = h
  close-opened (some i) w e h =
      if-case (λ x. Ok x) w.service.active (λ q. h) (λ q. close_at-IsOk i w h.0 (h.0.3 i e))

  pub close-IsOk : (w : World F) → Ok w → Ok (close s w)
  unfolding close
  close-IsOk w h = close-opened w.service.fd w refl h

  free-opened :
      (fd : Option ℕ) (w : World F)
      → Ok w
      → Ok (elim fd [ none ↦ record w { allocated = false } | some i ↦ close s (set_freed w) ])
  free-opened none w h = h
  free-opened (some i) w h = close-IsOk (set_freed w) h

  pub free-IsOk : (w : World F) → Ok w → Ok (free s w)
  unfolding free
  free-IsOk w h = if-case (λ x. Ok x) w.service.active (λ q. h) (λ q. free-opened w.service.fd w h)
