-- ===== src/Zmq/Poll/Rounds.antt =====
-- What a round of `ZMQ_poll` leaves.
use mathlib.Core.List.{append_assoc}
use femc_driver.Prelude.{
  ℕ, ◌≡◌, refl, Bool, true, false, Option, none, some, List, [], ◌∷◌, inl, inr, Bool-cases,
  Option-cases, ◌==◌, ◌||◌,
}
use femc_driver.Backend.{Direction, input, output}
use femc_driver.ErrorStack.{ErrorStack}
use femc_driver.Zmq.{Zmq, Library, Waited, events, failing, service, reuse_removed_entries}
use femc_driver.Zmq.Valid.{IsValid}
use femc_driver.Zmq.Poll.{
  Notify, call, call_input, on_event, dispatch, reuse_after, handle, poll_with, poll, eintr,
  etimedout, timeout,
}

-- The services keep the state valid.
abbrev pub Keeps : {P : Type 0} → Notify P → Type 0
Keeps notify =
    (d : Direction) (name : ℕ) (fd : Option ℕ) (z : Zmq _) (stack : ErrorStack)
    → IsValid z
    → IsValid (notify d name fd z stack).1

-- Valid state, and no entry that waits to be used again where true is returned.
abbrev pub IsDone : {P : Type 0} → Bool × Zmq P × ErrorStack → Type 0
IsDone (true, z, stack) = IsValid z × (z.removed_entries ≡ [])
IsDone (false, z, stack) = IsValid z

module _ {P : Type 0} where
  reuse-IsValid : (z : Zmq P) → IsValid z → IsValid (reuse_removed_entries z)
  unfolding reuse_removed_entries
  reuse-IsValid z v = record {
    nodup = rw (append_assoc z.removed_entries z.unused_entries z.entries) v.nodup;
    bounded = rw (append_assoc z.removed_entries z.unused_entries z.entries) v.bounded;
    one = v.one;
    listed = v.listed;
    counted = v.counted;
  }

module _ {P : Type 0} (lib : Library P) (notify : Notify P) (keeps : Keeps notify) where
  reuse_after-IsDone :
      (r : Bool × Zmq P × ErrorStack) → IsValid r.1 → IsDone (reuse_after lib notify r)
  unfolding reuse_after reuse_removed_entries
  reuse_after-IsDone (true, z, stack) v = (reuse-IsValid z v, refl)
  reuse_after-IsDone (false, z, stack) v = v

  call-IsValid :
      (d : Direction) (has_come : Bool) (a : ℕ) (z : Zmq P) (stack : ErrorStack)
      → IsValid z
      → IsValid (call lib notify d has_come a z stack).1
  unfolding call
  call-IsValid d false a z stack v = v
  call-IsValid d true a z stack v = elim (Option-cases (service d (z.entry a))) [
    | inl h ↦ rw (h, call) v
    | inr (name, h) ↦ rw (h, call) (keeps d name (z.entry a).fd z stack v)
  ]

  call_input-IsValid :
      (has_come : Bool) (a : ℕ) (r : Bool × Zmq P × ErrorStack)
      → IsValid r.1
      → IsValid (call_input lib notify has_come a r).1
  unfolding call_input
  call_input-IsValid has_come a (false, z, stack) v = v
  call_input-IsValid has_come a (true, z, stack) v = call-IsValid input has_come a z stack v

  dispatch-IsValid :
      (es : List (Option ℕ × Bool × Bool)) (r : Bool × Zmq P × ErrorStack)
      → IsValid r.1
      → IsValid (dispatch lib notify es r).1
  unfolding dispatch on_event
  dispatch-IsValid [] r v = v
  dispatch-IsValid (e ∷ rest) (false, z, stack) v = v
  dispatch-IsValid ((none, i, o) ∷ rest) (true, z, stack) v = dispatch-IsValid rest _ v
  dispatch-IsValid ((some a, i, o) ∷ rest) (true, z, stack) v =
      dispatch-IsValid rest _ (call_input-IsValid i a _ (call-IsValid output o a z stack v))

  handle-IsDone :
      (w : Waited) (z : Zmq P) (stack : ErrorStack)
      → IsValid z
      → z.removed_entries ≡ []
      → IsDone (handle lib notify w z stack)
  unfolding handle
  handle-IsDone (failing errno) z stack v h =
      elim (Bool-cases (errno == eintr || errno == etimedout)) [
        | inl e ↦ rw (e, handle) (v, h)
        | inr e ↦ rw (e, handle) v
      ]
  handle-IsDone (events es) z stack v h =
      reuse_after-IsDone (dispatch lib notify es (true, z, stack))
        (dispatch-IsValid es (true, z, stack) v)

  poll_with-IsDone :
      (msec : ℕ) (z : Zmq P) (p : Option P) (stack : ErrorStack)
      → IsValid z
      → IsDone (poll_with lib notify msec z p stack)
  unfolding poll_with reuse_removed_entries
  poll_with-IsDone msec z none stack v = v
  poll_with-IsDone msec z (some p) stack v =
      let r = lib.wait_all z.entries_count (timeout msec) p in
      handle-IsDone r.0 (record (reuse_removed_entries z) { poller = some r.1 }) stack
        (reuse-IsValid z v) refl

  -- `ZMQ_poll` on valid state, where only descriptors wait, with services that keep it valid,
  -- whatever the poller returns: the state is valid, also where services are added or removed
  -- between the events of one round; and where true is returned, no removed entry is left that waits
  -- to be used again.
  pub poll-IsDone :
      (msec : ℕ) (z : Zmq P) (stack : ErrorStack)
      → IsValid z
      → IsDone (poll lib notify msec z stack)
  unfolding poll
  poll-IsDone msec z stack v = poll_with-IsDone msec z z.poller stack v
