-- ===== src/Connect/Waits.antt =====
-- A pending connect() waits for output once, and its callback is called when it waits no more.
use femc_driver.Prelude.{ℕ, ◌≡◌, refl, ◌∙◌, Bool, true, false, Option, none, some, ==-true}
use femc_driver.Backend.{output, Backend, Registry, put, Does, IsRegistry}
use femc_driver.ErrorStack.{ErrorStack, push_context, fdu_context_connect}
use femc_driver.Connect.{
  SocketError, socket_error, failing, Callback, and_pop, allocated, pending_with, pending_connect,
  told, removed, callback_with, pending_connect_callback,
}

module _ {F : Type 0} (api : Backend F) (IsFd : ℕ → Type 0) (IsValid : F → Type 0)
    (services : F → Registry) (law : IsRegistry api IsFd IsValid services) (fd : ℕ)
    (small : IsFd fd) where
  -- The registry is as it was, or the service waits in addition, where none was.
  abbrev pub Waits : Option ℕ → F → Bool × F × ErrorStack → Type 0
  Waits malloc f (ok, f', stack) =
      IsValid f'
      × ((ok ≡ true) → (pcd : ℕ) × (malloc ≡ some pcd) × (services f' output fd ≡ some pcd))

  -- A state that the callback may meet: valid, and nothing waits for output of the descriptor.
  abbrev pub Free : F → Type 0
  Free f = IsValid f × (services f output fd ≡ none)

  put-output : (s : Option ℕ) (r : Registry) → put output fd s r output fd ≡ s
  put-output s r = rw (==-true fd fd refl) refl

  and_pop-Waits :
      (ectx pcd : ℕ) (f : F) (stack : ErrorStack) (r : Bool × F × ErrorStack)
      → Does IsValid services (put output fd (some pcd) (services f)) f stack r
      → Waits (some pcd) f (and_pop api ectx r)
  unfolding and_pop
  and_pop-Waits ectx pcd f stack (false, f', stack') (v, p) = (v, λ e. absurd (cc))
  and_pop-Waits ectx pcd f stack (true, f', stack') (v, p, n) =
      (v, λ e. (pcd, refl, p output fd ∙ put-output (some pcd) (services f)))

  allocated-Waits :
      (ectx : ℕ) (malloc : Option ℕ) (f : F) (stack : ErrorStack)
      → IsValid f
      → Waits malloc f (allocated api ectx fd malloc f stack)
  unfolding allocated
  allocated-Waits ectx none f stack v = (v, λ e. absurd (cc))
  allocated-Waits ectx (some pcd) f stack v =
      and_pop-Waits ectx pcd f stack _ (law.add_lem output fd pcd f stack v small)

  pending_with-Waits :
      (malloc : Option ℕ) (f : F) (r : Option ℕ × ErrorStack)
      → IsValid f
      → Waits malloc f (pending_with api fd malloc f r)
  unfolding pending_with
  pending_with-Waits malloc f (none, stack) v = (v, λ e. absurd (cc))
  pending_with-Waits malloc f (some ectx, stack) v = allocated-Waits ectx malloc f stack v

  and_pop-IsValid :
      (ectx : ℕ) (r : Bool × F × ErrorStack) → IsValid r.1 → IsValid (and_pop api ectx r).1
  unfolding and_pop
  and_pop-IsValid ectx (false, f, stack) v = v
  and_pop-IsValid ectx (true, f, stack) v = v

  module _ (func : Callback F)
      (keeps : (e : Option ℕ) (f : F) (stack : ErrorStack)
        → Free f
        → IsValid (func fd e f stack).1) where
    removed-IsValid :
        (ectx : ℕ) (e : SocketError) (f : F) (stack : ErrorStack) (r : Bool × F × ErrorStack)
        → Does IsValid services (put output fd none (services f)) f stack r
        → IsValid (removed api func ectx e fd r).1
    unfolding removed told
    removed-IsValid ectx e f stack (false, f', stack') (v, p) = v
    removed-IsValid ectx (socket_error e) f stack (true, f', stack') (v, p, n) =
        and_pop-IsValid ectx (func fd (some e) f' stack')
          (keeps (some e) f' stack' (v, p output fd ∙ put-output none (services f)))
    removed-IsValid ectx (failing errno) f stack (true, f', stack') (v, p, n) =
        and_pop-IsValid ectx (func fd none f' _)
          (keeps none f' _ (v, p output fd ∙ put-output none (services f)))

    callback_with-IsValid :
        (e : SocketError) (f : F) (r : Option ℕ × ErrorStack)
        → IsValid f
        → IsValid (callback_with api func e fd f r).1
    unfolding callback_with
    callback_with-IsValid e f (none, stack) v = v
    callback_with-IsValid e f (some ectx, stack) v =
        removed-IsValid ectx e f stack _ (law.remove_lem output fd f stack v small)

    -- `fdu_pending_connect` and its own callback, on top of a backend that fills its contract. When the
    -- first returns true, its data, which `malloc` has given, waits for output of the descriptor. Both
    -- keep the backend valid, the second if the function that it was given does so wherever nothing
    -- waits for output of the descriptor.
    pub connect-Waits :
        (malloc : Option ℕ) (e : SocketError) (f : F) (stack : ErrorStack)
        → IsValid f
        → Waits malloc f (pending_connect api fd malloc f stack)
          × IsValid (pending_connect_callback api func e fd f stack).1
    unfolding pending_connect pending_connect_callback
    connect-Waits malloc e f stack v = (
      pending_with-Waits malloc f _ v,
      callback_with-IsValid e f (push_context fdu_context_connect none stack) v,
    )
