-- ===== src/Zmq/Registry.antt =====
-- The ZeroMQ backend fills the contract of a backend for descriptors.
use femc_driver.Prelude.{
  ℕ, ◌<◌, ◌≡◌, refl, ◌∙◌, ap, ◌↔◌, Bool, true, false, none, some, List, [], ◌∷◌, arith, All, eq-==,
  ==-true, length,
}
use femc_driver.Backend.{Direction, input, output, Backend, put, Does, IsRegistry}
use femc_driver.ErrorStack.{ErrorStack}
use femc_driver.Zmq.{Entry, by_fd, Zmq, Library, is_at}
use femc_driver.Zmq.Lists.{look, look-NoneAt}
use femc_driver.Zmq.Valid.{fd_limit, IsListed, IsValid, services, is_at-fd}
use femc_driver.Zmq.Services.{add_service, remove_service, empty}
use femc_driver.Zmq.Services.Adding.{add_service-Adds}
use femc_driver.Zmq.Services.Outcomes.{Adds, Removes}
use femc_driver.Zmq.Services.Removing.{remove_service-Removes}

-- `fdd_impl_zmq` on services and descriptors that are given, where all calls of `malloc` give
-- memory, or none do.
abbrev pub backend : {P : Type 0} → Library P → Bool → Backend (Zmq P)
backend lib malloc = record {
  empty = empty lib;
  add = λ d fd name z stack. add_service lib malloc d (some (by_fd fd)) (some name) z stack;
  remove = λ d fd z stack. remove_service lib d (some (by_fd fd)) z stack;
}

served-look :
    (m : ℕ → Entry) (a : ℕ) (es : List ℕ)
    → IsListed (m a)
    → ((d : Direction) (i : ℕ) → look d (by_fd i) m (a ∷ es) ≡ none)
    → ⊥
unfolding look
served-look m a es l h =
    let here : is_at (by_fd l.at_fd) (m a) ≡ true =
      is_at-fd (m a) l.at_fd l.at_fd l.fd_lem ∙ ==-true l.at_fd l.at_fd refl in
    let i : (m a).input_service ≡ none = rw here at (h input l.at_fd) in
    let o : (m a).output_service ≡ none = rw here at (h output l.at_fd) in
    ground (arith, i, o, l.served)

module _ {P : Type 0} (lib : Library P) where
  Adds-Does :
      (d : Direction) (fd name : ℕ) (stack : ErrorStack) (z : Zmq P) (r : Bool × Zmq P × ErrorStack)
      → Adds d fd name stack.nodes z r
      → Does IsValid services (put d fd (some name) (services z)) z stack r
  Adds-Does d fd name stack z (true, z', stack') h = (h.1.0, h.1.1, h.2)
  Adds-Does d fd name stack z (false, z', stack') h = h

  Adds-none :
      (d : Direction) (fd name : ℕ) (stack : ErrorStack) (z : Zmq P) (r : Bool × Zmq P × ErrorStack)
      → Adds d fd name stack.nodes z r
      → r.0 ≡ true
      → services z d fd ≡ none
  Adds-none d fd name stack z (true, z', stack') h e = h.0
  Adds-none d fd name stack z (false, z', stack') h e = absurd (cc)

  Removes-Does :
      (d : Direction) (fd : ℕ) (stack : ErrorStack) (z : Zmq P) (r : Bool × Zmq P × ErrorStack)
      → Removes d fd stack.nodes z r
      → Does IsValid services (put d fd none (services z)) z stack r
  Removes-Does d fd stack z (true, z', stack') h = (h.0.0, h.0.1, h.1)
  Removes-Does d fd stack z (false, z', stack') h = h

  empty-list :
      (z : Zmq P) (es : List ℕ)
      → es ≡ z.entries
      → IsValid z
      → (empty lib z ≡ true) ↔ ((d : Direction) (i : ℕ) → look d (by_fd i) z.entry es ≡ none)
  unfolding empty
  empty-list z [] e v =
      let count : z.entries_count ≡ 0 = omega (arith, v.counted, ap length e) in
      (λ h d i. look-NoneAt d (by_fd i) z.entry [] tt, λ h. ==-true z.entries_count 0 count)
  empty-list z (a ∷ es) e v =
      let l : All (λ x. IsListed (z.entry x)) (a ∷ es) = rw (← e) at v.listed in
      (
        λ h. absurd (omega (arith, eq-== z.entries_count 0 h, v.counted, ap length e)),
        λ h. absurd (served-look z.entry a es l.0 h),
      )

  -- The ZeroMQ backend, where only descriptors wait, is a registry of services for all descriptors
  -- that a signed 32-bit int holds: adding and removing change just the one service, or nothing; a
  -- service is added only where none waits; and the backend is empty just when no service waits.
  pub zmq-IsRegistry :
      (malloc : Bool) → IsRegistry (backend lib malloc) (λ fd. fd < fd_limit) IsValid services
  zmq-IsRegistry malloc = record {
    add_lem = λ d fd name z stack v small.
        Adds-Does d fd name stack z _ (add_service-Adds lib d fd malloc name z stack small v);
    added_new = λ d fd name z stack v small.
        Adds-none d fd name stack z _ (add_service-Adds lib d fd malloc name z stack small v);
    remove_lem = λ d fd z stack v small.
        Removes-Does d fd stack z _ (remove_service-Removes lib d fd z stack v);
    empty_lem = λ z v. empty-list z z.entries refl v;
  }
