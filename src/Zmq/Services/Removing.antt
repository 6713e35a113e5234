-- ===== src/Zmq/Services/Removing.antt =====
-- `ZMQ_remove_input` and `ZMQ_remove_output`: what they return, and what they leave.
use femc_driver.Prelude.{
  ℕ, ◌≡◌, refl, inl, inr, Bool, true, false, Option, none, some, List, Bool-cases, length,
}
use femc_driver.Backend.{Direction}
use femc_driver.ErrorStack.{ErrorStack, Node, fdd_context_zmq}
use femc_driver.ErrorStack.Contexts.{pop_context-top, OnTop, push_context-OnTop}
use femc_driver.Zmq.{by_fd, Zmq, Library, is_at, find_entry, service, other, is_some, remove_entry}
use femc_driver.Zmq.Lists.{In, find_entry-some, All-In}
use femc_driver.Zmq.Valid.{IsListed, IsValid}
use femc_driver.Zmq.Changes.{set-IsPool, set-Puts, gone-IsPool, gone-Puts}
use femc_driver.Zmq.Services.{
  remove_found, remove_at, remove_checked, remove_with, remove_service, invalid, zmq_init,
}
use femc_driver.Zmq.Services.Steps.{Step, on_top, zmq_init-Step}
use femc_driver.Zmq.Services.Outcomes.{Removes, set-IsListed, other-with_service, Removes-after}

is_some-none {ℓ} : {A : Type ℓ} (o : Option A) → is_some o ≡ false → o ≡ none
is_some-none none h = refl
is_some-none (some x) h = absurd (cc)

module _ {P : Type 0} (lib : Library P) (d : Direction) (fd : ℕ) where
  module _ (base : List Node) (ectx : ℕ) (q : ectx ≡ length base) where
    remove_found-Removes :
        (a : ℕ) (z : Zmq P) (stack : ErrorStack)
        → IsValid z
        → In a z.entries
        → is_at (by_fd fd) (z.entry a) ≡ true
        → stack.nodes ≡ on_top base
        → Removes d fd base z (remove_found lib d (by_fd fd) ectx a z stack)
    unfolding remove_found remove_entry
    remove_found-Removes a z stack v i at h =
        let (popped, nodes) = pop_context-top fdd_context_zmq stack base h in
        let e = z.entry a in
        let l = All-In (λ x. IsListed (z.entry x)) z.entries v.listed i in
        let kept = other-with_service d none e in
        elim (Bool-cases (is_some (service d e))) [
          | inr g ↦ rw (g, remove_found) (v, λ e i. refl)
          | inl g ↦ elim (Bool-cases (is_some (service (other d) e))) [
            | inl t ↦
                rw (g, remove_found, kept, t)
                  (rw (q, popped)
                    (
                      (
                        set-IsPool d none fd a z.entries_count z.fresh z.entries z.removed_entries
                            z.unused_entries z.entry v i at (set-IsListed d none e l t),
                        set-Puts d none fd a z.entries_count z.fresh z.entries z.removed_entries
                            z.unused_entries z.entry v i at,
                      ),
                      nodes,
                    ))
            | inr t ↦
                let alone = is_some-none (service (other d) e) t in
                rw (g, remove_found, kept, t)
                  (rw (q, popped)
                    (
                      (
                        gone-IsPool d none fd a z.entries_count z.fresh z.entries z.removed_entries
                            z.unused_entries z.entry v i at _ alone,
                        gone-Puts d none fd a z.entries_count z.fresh z.entries z.removed_entries
                            z.unused_entries z.entry v i at _ alone,
                      ),
                      nodes,
                    ))
          ]
        ]

    remove_at-Removes :
        (z : Zmq P) (stack : ErrorStack) (found : Option ℕ)
        → IsValid z
        → find_entry (by_fd fd) z.entry z.entries ≡ found
        → stack.nodes ≡ on_top base
        → Removes d fd base z (remove_at lib d (by_fd fd) ectx found z stack)
    unfolding remove_at invalid
    remove_at-Removes z stack none v e h = (v, λ e i. refl)
    remove_at-Removes z stack (some a) v e h =
        let (i, at) = find_entry-some (by_fd fd) z.entry z.entries a e in
        remove_found-Removes a z stack v i at h

    remove_checked-Removes :
        (z : Zmq P) (r : Bool × Zmq P × ErrorStack)
        → Step (on_top base) z r
        → Removes d fd base z (remove_checked lib d (some (by_fd fd)) ectx r)
    unfolding remove_checked
    remove_checked-Removes z (false, z', stack) k = (k.0, k.1)
    remove_checked-Removes z (true, z', stack) (k, h) =
        Removes-after d fd base z z' _ k (remove_at-Removes z' stack _ k.0 refl h)

  remove_with-Removes :
      (base : List Node) (z : Zmq P) (r : Option ℕ × ErrorStack)
      → IsValid z
      → OnTop fdd_context_zmq base r
      → Removes d fd base z (remove_with lib d (some (by_fd fd)) z r)
  unfolding remove_with
  remove_with-Removes base z (none, stack) v h = (v, λ e i. refl)
  remove_with-Removes base z (some ectx, stack) v (q, h) =
      remove_checked-Removes base ectx q z (zmq_init lib z stack)
        (rw (← h) (zmq_init-Step lib z stack v))

  -- Removing a service on valid state.
  pub remove_service-Removes :
      (z : Zmq P) (stack : ErrorStack)
      → IsValid z
      → Removes d fd stack.nodes z (remove_service lib d (some (by_fd fd)) z stack)
  unfolding remove_service
  remove_service-Removes z stack v =
      remove_with-Removes stack.nodes z _ v (push_context-OnTop fdd_context_zmq stack)
