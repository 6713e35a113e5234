-- ===== src/Zmq/Services/Adding.antt =====
-- `ZMQ_add_input` and `ZMQ_add_output`: what they return, and what they leave.
use femc_driver.Prelude.{
  ℕ, ◌<◌, ◌≡◌, refl, ◌∙◌, inl, inr, Bool, true, false, Option, none, some, List, [], ◌∷◌, arith,
  Bool-cases, Option-cases, length, ◌||◌, not,
}
use femc_driver.Backend.{Direction}
use femc_driver.ErrorStack.{ErrorStack, Node, fdd_context_zmq}
use femc_driver.ErrorStack.Contexts.{pop_context-top, OnTop, push_context-OnTop}
use femc_driver.Zmq.{Entry, by_fd, Zmq, Library, is_at, find_entry, service, other, is_some}
use femc_driver.Zmq.Lists.{In, NoneAt, find_entry-none, find_entry-some, look-NoneAt, All-In}
use femc_driver.Zmq.Valid.{fd_limit, IsListed, IsPool, IsValid}
use femc_driver.Zmq.Changes.{new-IsPool, new-Puts, look-In, set-IsPool, set-Puts}
use femc_driver.Zmq.Services.{
  add_new, add_allocated, allocate_for, add_found, add_at, add_checked, add_with, add_service,
  zmq_init,
}
use femc_driver.Zmq.Services.Steps.{Step, on_top, allocate_for-Step, zmq_init-Step}
use femc_driver.Zmq.Services.Outcomes.{Adds, set-IsListed, Adds-after}

-- The service of the entry is missing, and the other one is there.
found_guard :
    (d : Direction) (e : Entry)
    → is_some (service d e) || not (is_some (service (other d) e)) ≡ false
    → (service d e ≡ none) × (is_some (service (other d) e) ≡ true)
found_guard d e h = elim (Option-cases (service d e)) [
  | inl q ↦ (
    q,
    elim (Bool-cases (is_some (service (other d) e))) [
      | inl t ↦ t
      | inr t ↦ absurd (ground (arith, h, t))
    ],
  )
  | inr (s, q) ↦ absurd (ground (arith, h, q))
]

module _ {P : Type 0} (lib : Library P) (d : Direction) (fd : ℕ) where
  module _ (name : ℕ) (small : fd < fd_limit) (base : List Node) (ectx : ℕ)
      (q : ectx ≡ length base) where
    add_new-Adds :
        (us : List ℕ) (z : Zmq P) (stack : ErrorStack)
        → IsValid z
        → us ≡ z.unused_entries
        → NoneAt (by_fd fd) z.entry z.entries
        → stack.nodes ≡ on_top base
        → Adds d fd name base z (add_new lib d (by_fd fd) name ectx us z stack)
    unfolding add_new
    add_new-Adds [] z stack v u n h = (v, λ e i. refl)
    add_new-Adds (a ∷ rest) z stack v u n h =
        let (popped, nodes) = pop_context-top fdd_context_zmq stack base h in
        let v' : IsPool z.entries_count z.entries z.removed_entries (a ∷ rest) z.entry z.fresh =
          rw (← u) at v in
        rw (q, popped)
          (
            look-NoneAt d (by_fd fd) z.entry z.entries n,
            (
              new-IsPool d fd name a z.entries_count z.fresh z.entries z.removed_entries rest
                  z.entry v' small n,
              new-Puts d fd name a z.entries_count z.fresh z.entries z.removed_entries rest z.entry
                  v' small n,
            ),
            nodes,
          )

    add_allocated-Adds :
        (z : Zmq P) (r : Bool × Zmq P × ErrorStack)
        → NoneAt (by_fd fd) z.entry z.entries
        → Step (on_top base) z r
        → Adds d fd name base z (add_allocated lib d (by_fd fd) name ectx r)
    unfolding add_allocated
    add_allocated-Adds z (false, z', stack) n k = (k.0, k.1)
    add_allocated-Adds z (true, z', stack) n (k, h) =
        Adds-after d fd name base z z' _ k
          (add_new-Adds z'.unused_entries z' stack k.0 refl (k.2 (by_fd fd) n) h)

    add_found-Adds :
        (a : ℕ) (z : Zmq P) (stack : ErrorStack)
        → IsValid z
        → In a z.entries
        → is_at (by_fd fd) (z.entry a) ≡ true
        → stack.nodes ≡ on_top base
        → Adds d fd name base z (add_found lib d (by_fd fd) name ectx a z stack)
    unfolding add_found
    add_found-Adds a z stack v i at h =
        let (popped, nodes) = pop_context-top fdd_context_zmq stack base h in
        let e = z.entry a in
        let l = All-In (λ x. IsListed (z.entry x)) z.entries v.listed i in
        elim (Bool-cases (is_some (service d e) || not (is_some (service (other d) e)))) [
          | inl g ↦ rw (g, add_found) (v, λ e i. refl)
          | inr g ↦
              let (free, t) = found_guard d e g in
              rw (g, add_found)
                (rw (q, popped)
                  (
                    look-In d (by_fd fd) z.entry a z.entries i at (v.one fd) ∙ free,
                    (
                      set-IsPool d (some name) fd a z.entries_count z.fresh z.entries
                          z.removed_entries z.unused_entries z.entry v i at
                          (set-IsListed d (some name) e l refl),
                      set-Puts d (some name) fd a z.entries_count z.fresh z.entries
                          z.removed_entries z.unused_entries z.entry v i at,
                    ),
                    nodes,
                  ))
        ]

    add_at-Adds :
        (malloc : Bool) (z : Zmq P) (stack : ErrorStack) (found : Option ℕ)
        → IsValid z
        → find_entry (by_fd fd) z.entry z.entries ≡ found
        → stack.nodes ≡ on_top base
        → Adds d fd name base z (add_at lib malloc d (by_fd fd) name ectx found z stack)
    unfolding add_at
    add_at-Adds malloc z stack none v e h =
        add_allocated-Adds z (allocate_for lib malloc z.unused_entries z stack)
          (find_entry-none (by_fd fd) z.entry z.entries e)
          (rw (← h) (allocate_for-Step lib malloc z.unused_entries z stack v))
    add_at-Adds malloc z stack (some a) v e h =
        let (i, at) = find_entry-some (by_fd fd) z.entry z.entries a e in
        add_found-Adds a z stack v i at h

    add_checked-Adds :
        (malloc : Bool) (z : Zmq P) (r : Bool × Zmq P × ErrorStack)
        → Step (on_top base) z r
        → Adds d fd name base z (add_checked lib malloc d (some (by_fd fd)) (some name) ectx r)
    unfolding add_checked
    add_checked-Adds malloc z (false, z', stack) k = (k.0, k.1)
    add_checked-Adds malloc z (true, z', stack) (k, h) =
        Adds-after d fd name base z z' _ k (add_at-Adds malloc z' stack _ k.0 refl h)

  add_with-Adds :
      (malloc : Bool) (name : ℕ) (base : List Node) (z : Zmq P) (r : Option ℕ × ErrorStack)
      → fd < fd_limit
      → IsValid z
      → OnTop fdd_context_zmq base r
      → Adds d fd name base z (add_with lib malloc d (some (by_fd fd)) (some name) z r)
  unfolding add_with
  add_with-Adds malloc name base z (none, stack) small v h = (v, λ e i. refl)
  add_with-Adds malloc name base z (some ectx, stack) small v (q, h) =
      add_checked-Adds name small base ectx q malloc z (zmq_init lib z stack)
        (rw (← h) (zmq_init-Step lib z stack v))

  -- Adding a service on valid state.
  pub add_service-Adds :
      (malloc : Bool) (name : ℕ) (z : Zmq P) (stack : ErrorStack)
      → fd < fd_limit
      → IsValid z
      → Adds d fd name stack.nodes z
          (add_service lib malloc d (some (by_fd fd)) (some name) z stack)
  unfolding add_service
  add_service-Adds malloc name z stack small v =
      add_with-Adds malloc name stack.nodes z _ small v (push_context-OnTop fdd_context_zmq stack)
