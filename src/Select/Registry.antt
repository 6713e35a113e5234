-- ===== src/Select/Registry.antt =====
-- The select backend fills the contract of a backend.
use femc_driver.Prelude.{ℕ, ◌<◌, ◌≡◌, refl, ap, ◌↔◌, Bool, true, false, Option, none, some}
use femc_driver.Backend.{Direction, input, output, Backend, Registry, put, Does, IsRegistry}
use femc_driver.ErrorStack.{ErrorStack}
use femc_driver.Select.{Select, side, fd_setsize, add_service, remove_service, empty}
use femc_driver.Select.Services.{IsValid, IsIdle, empty_lem}
use femc_driver.Select.Changes.{Same, Changed}
use femc_driver.Select.Outcomes.{Adds, Removes, add_service-Adds, remove_service-Removes}

-- `fdd_impl_select`, where all calls of `malloc` give memory, or none do.
abbrev pub backend : Bool → Backend Select
backend malloc = record {
  empty = empty;
  add = λ d fd service s stack. add_service d malloc fd service s stack;
  remove = remove_service;
}

abbrev pub services : Select → Registry
services s d = (side d s).handlers

Changed-put :
    (d : Direction) (fd : ℕ) (h : Option ℕ) (s s' : Select)
    → Changed d fd h s s'
    → (e : Direction) (i : ℕ) → services s' e i ≡ put d fd h (services s) e i
Changed-put input fd h s s' c input i = c.0 i
Changed-put input fd h s s' c output i = c.1 i
Changed-put output fd h s s' c input i = c.1 i
Changed-put output fd h s s' c output i = c.0 i

Same-services :
    (s s' : Select) → Same s s' → (e : Direction) (i : ℕ) → services s' e i ≡ services s e i
Same-services s s' c input i = c.0 i
Same-services s s' c output i = c.1 i

Adds-Does :
    (d : Direction) (malloc : Bool) (fd service : ℕ) (s : Select) (stack : ErrorStack)
    (r : Bool × Select × ErrorStack)
    → Adds d malloc fd service s stack r
    → Does IsValid services (put d fd (some service) (services s)) s stack r
Adds-Does d malloc fd service s stack (true, s', stack') h =
    (h.0, Changed-put d fd (some service) s s' h.2, ap (λ (e : ErrorStack). e.nodes) h.3)
Adds-Does d malloc fd service s stack (false, s', stack') h = (h.0, Same-services s s' h.1)

Adds-none :
    (d : Direction) (malloc : Bool) (fd service : ℕ) (s : Select) (stack : ErrorStack)
    (r : Bool × Select × ErrorStack)
    → Adds d malloc fd service s stack r
    → r.0 ≡ true
    → services s d fd ≡ none
Adds-none d malloc fd service s stack (true, s', stack') h e = h.1
Adds-none d malloc fd service s stack (false, s', stack') h e = absurd (cc)

Removes-Does :
    (d : Direction) (fd : ℕ) (s : Select) (stack : ErrorStack) (r : Bool × Select × ErrorStack)
    → IsValid s
    → Removes d fd s stack r
    → Does IsValid services (put d fd none (services s)) s stack r
Removes-Does d fd s stack (true, s', stack') v h =
    (h.0, Changed-put d fd none s s' h.1, ap (λ (e : ErrorStack). e.nodes) h.3)
Removes-Does d fd s stack (false, s', stack') v h = (rw (h.0) v, λ e i. rw (h.0) refl)

empty-services :
    (s : Select) → IsValid s → (empty s ≡ true) ↔ ((d : Direction) (i : ℕ) → services s d i ≡ none)
empty-services s v =
    let (to, of) = empty_lem s v in (λ e. both (to e), λ idle. of (idle input, idle output))
  where
    both : IsIdle s.r × IsIdle s.w → (d : Direction) (i : ℕ) → services s d i ≡ none
    both h input i = h.0 i
    both h output i = h.1 i

-- The select backend is a registry of services for all descriptors below FD_SETSIZE: adding and
-- removing change just the one service, or nothing; a service is added only where none waits; and
-- the backend is empty just when no service waits.
pub select-IsRegistry :
    (malloc : Bool) → IsRegistry (backend malloc) (λ fd. fd < fd_setsize) IsValid services
select-IsRegistry malloc = record {
  add_lem = λ d fd service s stack v small.
      Adds-Does d malloc fd service s stack _
        (add_service-Adds d malloc fd service s stack v small);
  added_new = λ d fd service s stack v small.
      Adds-none d malloc fd service s stack _
        (add_service-Adds d malloc fd service s stack v small);
  remove_lem =
      λ d fd s stack v small. Removes-Does d fd s stack _ v (remove_service-Removes d fd s stack v);
  empty_lem = empty-services;
}
