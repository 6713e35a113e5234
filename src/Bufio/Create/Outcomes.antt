-- ===== src/Bufio/Create/Outcomes.antt =====
-- What the functions that make a service of buffered I/O return, and what they leave, on top of a
-- backend that fills its contract.
use mathlib.Core.Path.{subst}
use femc_driver.Prelude.{
  ℕ, ◌≤◌, ◌≡◌, refl, sym, ◌∙◌, ◌⊎◌, inl, inr, Bool, true, false, Option, none, some, arith,
  Bool-cases, length, List, ◌∷◌,
}
use femc_driver.Backend.{Direction, input, output, Backend, Registry, put, Does, IsRegistry}
use femc_driver.ErrorStack.{ErrorStack, Node, node, fdu_context_bufio, context}
use femc_driver.ErrorStack.Contexts.{pop_context-top, OnTop, push_context-OnTop}
use femc_driver.Bufio.{Service}
use femc_driver.Bufio.Create.{
  MemoryArea, area_size, bad_areas, bad_sizes, new_input, new_output, Made, taken_back, registered,
  make_at, new_input_bufio_inplace, new_output_bufio_inplace,
}

-- What a new service is: empty, and open at the descriptor; its buffer is as large as the area, and
-- has no bytes, or from 64 to 1048576 of them.
pub record IsNew (fd : ℕ) (buffer : MemoryArea) (s : Service) : Type 0 where
  pub open_lem : s.fd ≡ some fd
  pub xfer_lem : s.can_xfer ≡ false
  pub empty_lem : s.filled ≡ 0
  pub size_lem : s.size ≡ area_size buffer
  pub bounds : (s.size ≡ 0) ⊎ ((64 ≤ s.size) × (s.size ≤ 1048576))

bad_sizes-bounds :
    (n : ℕ) (service buffer : MemoryArea)
    → bad_sizes n service buffer ≡ false
    → (area_size buffer ≡ 0) ⊎ ((64 ≤ area_size buffer) × (area_size buffer ≤ 1048576))
unfolding bad_sizes
bad_sizes-bounds n service buffer h = ground (arith, h)

module _ {F : Type 0} (api : Backend F) (IsFd : ℕ → Type 0) (IsValid : F → Type 0)
    (services : F → Registry) (law : IsRegistry api IsFd IsValid services)
    (service_size name fd : ℕ) (small : IsFd fd) (buffer : MemoryArea) (d : Direction) where
  -- A new service, which is registered where none was, or none, and the registry as it was.
  abbrev pub Makes : F → Made api service_size name → Type 0
  Makes f (some s, f', stack') =
      IsNew fd buffer s
      × (s.type ≡ d)
      × IsValid f'
      × (services f d fd ≡ none)
      × ((e : Direction) (i : ℕ) → services f' e i ≡ put d fd (some name) (services f) e i)
  Makes f (none, f', stack') =
      IsValid f' × ((e : Direction) (i : ℕ) → services f' e i ≡ services f e i)

  module _ (f : F) (v : IsValid f) (base : List Node) (ectx : ℕ) (q : ectx ≡ length base)
      (make : Service) (is : IsNew fd buffer make) (t : make.type ≡ d) where
    registered-Makes :
        (stack : ErrorStack) (r : Bool × F × ErrorStack)
        → stack.nodes ≡ node context none fdu_context_bufio ∷ base
        → Does IsValid services (put d fd (some name) (services f)) f stack r
        → (r.0 ≡ true → services f d fd ≡ none)
        → Makes f (registered api service_size name ectx fd make r)
    unfolding registered taken_back
    registered-Makes stack (false, f', stack') h k free = k
    registered-Makes stack (true, f', stack') h (v', p, n) free =
        let (popped, nodes) = pop_context-top fdu_context_bufio stack' base (n ∙ h) in
        rw (q, popped) (is, t, v', free refl, p)

  make_at-Makes :
      (make : ℕ → Service) (service : MemoryArea) (f : F) (base : List Node)
      (r : Option ℕ × ErrorStack)
      → IsValid f
      → (make fd).type ≡ d
      → (bad_sizes service_size service buffer ≡ false → IsNew fd buffer (make fd))
      → OnTop fdu_context_bufio base r
      → Makes f (make_at api service_size name make service buffer (some fd) f r)
  unfolding make_at
  make_at-Makes make service f base (none, stack) v t is h = (v, λ e i. refl)
  make_at-Makes make service f base (some ectx, stack) v t is (q, h) =
      elim (Bool-cases (bad_areas service buffer)) [
        | inl e ↦ rw (e, make_at) (v, λ d i. refl)
        | inr e ↦ elim (Bool-cases (bad_sizes service_size service buffer)) [
          | inl k ↦ rw (e, k, make_at) (v, λ d i. refl)
          | inr k ↦
              rw (e, k, make_at)
                (subst
                  (λ x. Makes f (
                    registered api service_size name ectx fd (make fd) (api.add x fd name f stack)))
                  (sym t)
                  (registered-Makes f v base ectx q (make fd) (is k) t stack
                    (api.add d fd name f stack) h (law.add_lem d fd name f stack v small)
                    (law.added_new d fd name f stack v small)))
        ]
      ]

module _ {F : Type 0} (api : Backend F) (IsFd : ℕ → Type 0) (IsValid : F → Type 0)
    (services : F → Registry) (law : IsRegistry api IsFd IsValid services)
    (service_size name fd : ℕ) (small : IsFd fd) (service buffer : MemoryArea) where
  -- `fdu_new_input_bufio_inplace` and `fdu_new_output_bufio_inplace`, on top of a backend that fills
  -- its contract, at a descriptor that the backend takes. A service that is returned is empty and
  -- open, its buffer has no bytes or from 64 to 1048576 of them, and just this service is registered
  -- for its direction, where none was. Where none is returned, for whichever reason, all services
  -- are as they were.
  pub new_bufio_inplace-Makes :
      (has_notify : Bool) (old : Service) (f : F) (stack : ErrorStack)
      → IsValid f
      → Makes api IsFd IsValid services law service_size name fd small buffer input f (
          new_input_bufio_inplace api service_size name has_notify (some fd) service buffer f stack)
        × Makes api IsFd IsValid services law service_size name fd small buffer output f (
            new_output_bufio_inplace api service_size name old has_notify
              (some fd)
              service
              buffer
              f
              stack)
  unfolding new_input_bufio_inplace new_output_bufio_inplace
  new_bufio_inplace-Makes has_notify old f stack v =
      let top = push_context-OnTop fdu_context_bufio stack in
      (
        make_at-Makes api IsFd IsValid services law service_size name fd small buffer input
            (λ i. record (new_input i buffer) { has_notify = has_notify }) service f stack.nodes _ v
            refl
            (λ k. record {
              open_lem = refl;
              xfer_lem = refl;
              empty_lem = refl;
              size_lem = refl;
              bounds = bad_sizes-bounds service_size service buffer k;
            })
            top,
        make_at-Makes api IsFd IsValid services law service_size name fd small buffer output
            (λ i. record (new_output i buffer old) { has_notify = has_notify }) service f
            stack.nodes _ v refl
            (λ k. record {
              open_lem = refl;
              xfer_lem = refl;
              empty_lem = refl;
              size_lem = refl;
              bounds = bad_sizes-bounds service_size service buffer k;
            })
            top,
      )
