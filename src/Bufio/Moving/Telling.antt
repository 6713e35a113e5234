-- ===== src/Bufio/Moving/Telling.antt =====
-- What comes behind a movement of bytes: the callback is told, and the service may be closed.
use femc_driver.Prelude.{
  ℕ, ◌≡◌, refl, Bool, true, ◌||◌, ◌⊎◌, inl, inr, if◌then◌else◌, false, not, some,
}
use femc_driver.ErrorStack.{safe_pop_context, fdu_context_bufio}
use femc_driver.Bufio.{World, Setting, close}
use femc_driver.Bufio.Moving.{notified, finish}

-- The end of a call that has moved some bytes, from the world in which the callback is due: what is
-- returned and left.
module _ {F : Type 0} (s : Setting F) (ectx : ℕ) (w : World F) where
  -- What the callback, during which the service is active, returns and leaves.
  abbrev called : Bool × World F
  called = s.notify (record w { service = record w.service { active = true } })

  -- The service when the callback has returned.
  abbrev back : World F
  back = record called.1 { service = record called.1.service { active = false; closed = false } }

  -- The context is popped if there are no errors.
  abbrev ended : World F → Bool × World F
  ended x =
      let (ok, stack) = safe_pop_context fdu_context_bufio (some ectx) x.stack in
      (ok, record x { stack = stack })

  -- There is no callback; or it has returned true and has not closed or freed the service; or else the
  -- service is closed.
  pub data Told (r : Bool × World F) : Type 0 where
    untold : w.service.has_notify ≡ false → r ≡ ended w → Told r
    stays :
        w.service.has_notify ≡ true
        → called.0 ≡ true
        → called.1.service.closed ≡ false
        → called.1.service.freed ≡ false
        → r ≡ ended back
        → Told r
    closes :
        w.service.has_notify ≡ true
        → (called.0 ≡ false) ⊎ (called.1.service.closed ≡ true) ⊎ (called.1.service.freed ≡ true)
        → r ≡ ended (close s back)
        → Told r

  told_with : Bool → Bool → Bool → Bool → Bool × World F
  unfolding finish
  told_with has ok closed freed =
      finish s ectx (if has then (not ok || closed || freed, back) else (false, w))

  told_with-Told :
      (has ok closed freed : Bool)
      → w.service.has_notify ≡ has
      → called.0 ≡ ok
      → called.1.service.closed ≡ closed
      → called.1.service.freed ≡ freed
      → Told (told_with has ok closed freed)
  unfolding told_with finish
  told_with-Told false ok closed freed h a b c = untold h refl
  told_with-Told true false closed freed h a b c = closes h (inl a) refl
  told_with-Told true true true freed h a b c = closes h (inr (inl b)) refl
  told_with-Told true true false true h a b c = closes h (inr (inr c)) refl
  told_with-Told true true false false h a b c = stays h a b c refl

  pub finish-Told : Told (finish s ectx (notified s w))
  unfolding notified told_with
  finish-Told =
      told_with-Told w.service.has_notify called.0 called.1.service.closed called.1.service.freed
        refl refl refl refl
