-- ===== src/Select/Outcomes.antt =====
-- What the functions that add and remove services return, and what they leave.
use femc_driver.Prelude.{
  ℕ, ◌≤◌, ◌<◌, ◌≡◌, refl, sym, ◌∙◌, ap, ◌⊎◌, inl, inr, Bool, true, false, none, some, arith, leb,
  lt-leb, le-leb, Bool-cases, Option-cases,
}
use femc_driver.ErrorStack.{
  ErrorStack, report_consistency, fdd_context_select, io_handler_corrupted,
}
use femc_driver.Backend.{Direction, input, output}
use femc_driver.Select.{
  Select, side, with_side, occupied, fd_setsize, add_handler, add_to, add_service, remove_handler,
  remove_service,
}
use femc_driver.Select.Services.{IsValid, side-IsTracked, with_side-IsValid}
use femc_driver.Select.Changes.{
  Same, Changed, no_memory, Resized, resize_fd_block-Resized, add_handler-IsTracked,
  remove_handler-IsTracked,
}

abbrev corrupted : ErrorStack → ErrorStack
corrupted stack = report_consistency fdd_context_select io_handler_corrupted stack

-- Adding `service`: it is registered at `fd`, where none was, and nowhere else; or nothing changes
-- and the one failure that there was is reported.
abbrev pub Adds :
    Direction → Bool → ℕ → ℕ → Select → ErrorStack → Bool × Select × ErrorStack → Type 0
Adds d malloc fd service s stack (true, s', stack') =
    IsValid s'
    × ((side d s).handlers fd ≡ none)
    × Changed d fd (some service) s s'
    × (stack' ≡ stack)
Adds d malloc fd service s stack (false, s', stack') =
    IsValid s'
    × Same s s'
    × (((malloc ≡ false) × (stack' ≡ no_memory stack))
        ⊎ ((occupied ((side d s).handlers fd) ≡ true) × (stack' ≡ corrupted stack)))

side-Same :
    (d : Direction) (s s' : Select) (i : ℕ)
    → Same s s'
    → (side d s').handlers i ≡ (side d s).handlers i
side-Same input s s' i e = e.0 i
side-Same output s s' i e = e.1 i

add_handler-Changed :
    (d : Direction) (fd service : ℕ) (s s' : Select)
    → Same s s'
    → Changed d fd (some service) s (with_side d (add_handler fd service (side d s')) s')
unfolding add_handler
add_handler-Changed input fd service s s' e = (λ i. rw (e.0 i) refl, e.1)
add_handler-Changed output fd service s s' e = (λ i. rw (e.1 i) refl, e.0)

add_to-Adds :
    (d : Direction) (malloc : Bool) (fd service : ℕ) (s : Select) (stack : ErrorStack)
    (r : Bool × Select × ErrorStack)
    → fd < fd_setsize
    → Resized malloc fd s stack r
    → Adds d malloc fd service s stack (add_to d fd service r)
unfolding add_to
add_to-Adds d malloc fd service s stack (false, s', stack') small (v, same, m, e) =
    (v, same, inl (m, e))
add_to-Adds d malloc fd service s stack (true, s', stack') small (v, same, lt, e) =
    let kept = side-Same d s s' fd same in
    elim (Option-cases ((side d s').handlers fd)) [
      | inl h ↦
          rw (h, add_to)
            (
              with_side-IsValid d _ s' v
                  (add_handler-IsTracked fd service _ (side d s') (side-IsTracked d s' v) lt small),
              sym kept ∙ h,
              add_handler-Changed d fd service s s' same,
              e,
            )
      | inr (old, h) ↦
          rw (h, add_to)
            (v, same, inr (ap (λ o. occupied o) (sym kept ∙ h), ap (λ k. corrupted k) e))
    ]

-- `SELECT_add_input` and `SELECT_add_output` of a descriptor below FD_SETSIZE, on valid state. With
-- true, no service was registered for the descriptor, and now `service` is; all other handlers of
-- both directions are as they were, the state is valid and nothing is reported. With false, the
-- handlers are as they were, the state is valid, and either `malloc` failed or a service was
-- registered, and just that failure is reported.
pub add_service-Adds :
    (d : Direction) (malloc : Bool) (fd service : ℕ) (s : Select) (stack : ErrorStack)
    → IsValid s
    → fd < fd_setsize
    → Adds d malloc fd service s stack (add_service d malloc fd service s stack)
unfolding add_service
add_service-Adds d malloc fd service s stack v small = elim (Bool-cases (leb s.fd_block_size fd)) [
  | inl e ↦ rw e (
      add_to-Adds d malloc fd service s stack _ small
        (resize_fd_block-Resized malloc fd s stack v (le-leb s.fd_block_size fd e) (omega arith)))
  | inr e ↦ rw e (
      add_to-Adds d malloc fd service s stack (true, s, stack) small
        (v, (λ i. refl, λ i. refl), lt-leb s.fd_block_size fd e, refl))
]

-- Removing: no service is left at `fd` and the others are as they were; or `fd` is outside of the
-- block, and nothing changes.
abbrev pub Removes : Direction → ℕ → Select → ErrorStack → Bool × Select × ErrorStack → Type 0
Removes d fd s stack (true, s', stack') =
    IsValid s' × Changed d fd none s s' × (fd < s.fd_block_size) × (stack' ≡ stack)
Removes d fd s stack (false, s', stack') =
    (s' ≡ s) × (s.fd_block_size ≤ fd) × (stack' ≡ corrupted stack)

remove_handler-Changed :
    (d : Direction) (fd : ℕ) (s : Select)
    → Changed d fd none s (with_side d (remove_handler fd (side d s)) s)
unfolding remove_handler
remove_handler-Changed input fd s = (λ i. refl, λ i. refl)
remove_handler-Changed output fd s = (λ i. refl, λ i. refl)

-- `SELECT_remove_input` and `SELECT_remove_output` on valid state: inside of the block the handler
-- of the descriptor is removed, every other one is kept, nothing is reported and the state is
-- valid; outside the state is as it was and the failure is reported.
pub remove_service-Removes :
    (d : Direction) (fd : ℕ) (s : Select) (stack : ErrorStack)
    → IsValid s
    → Removes d fd s stack (remove_service d fd s stack)
unfolding remove_service
remove_service-Removes d fd s stack v = elim (Bool-cases (leb s.fd_block_size fd)) [
  | inl e ↦ rw e (refl, le-leb s.fd_block_size fd e, refl)
  | inr e ↦ rw e (
    with_side-IsValid d _ s v (remove_handler-IsTracked fd _ (side d s) (side-IsTracked d s v)),
    remove_handler-Changed d fd s,
    lt-leb s.fd_block_size fd e,
    refl,
  )
]
