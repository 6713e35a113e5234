-- ===== src/Backend.antt =====
-- dispatcher_api.h: what the services on top of the dispatcher call of its backend, through
-- `fdd_add_input` and its kin, with a contract that both backends fill.
use femc_driver.Prelude.{ℕ, ◌≡◌, ◌↔◌, Bool, true, false, Option, none, some, ◌==◌, if◌then◌else◌}
use femc_driver.ErrorStack.{ErrorStack}

pub data Direction : Type 0 where
  input : Direction
  output : Direction

abbrev pub same : Direction → Direction → Bool
same input input = true
same output output = true
same d e = false

-- `fdd_impl_api_t` on the state `F` of the backend, less `init` and `poll`. A service is a name.
pub record Backend (F : Type 0) : Type 0 where
  pub empty : F → Bool
  pub add : Direction → ℕ → ℕ → F → ErrorStack → Bool × F × ErrorStack
  pub remove : Direction → ℕ → F → ErrorStack → Bool × F × ErrorStack

-- Which service waits for a descriptor.
abbrev pub Registry : Type 0
Registry = Direction → ℕ → Option ℕ

abbrev pub put : Direction → ℕ → Option ℕ → Registry → Registry
put d fd service r e i = if same d e then (if i == fd then service else r e i) else r e i

-- A call that returned true has done `put` and reported nothing, and one that returned false has
-- left the registry as it was. Both keep the state valid.
abbrev pub Does :
    {F : Type 0}
    → (F → Type 0)
    → (F → Registry)
    → Registry
    → F
    → ErrorStack
    → Bool × F × ErrorStack
    → Type 0
Does IsValid services r f stack (true, f', stack') =
    IsValid f' × ((d : Direction) (i : ℕ) → services f' d i ≡ r d i) × (stack'.nodes ≡ stack.nodes)
Does IsValid services r f stack (false, f', stack') =
    IsValid f' × ((d : Direction) (i : ℕ) → services f' d i ≡ services f d i)

-- What a backend promises: it is a registry of services, to which a service is added only where
-- none waits, and it is empty just when no service waits.
pub record IsRegistry {F : Type 0} (b : Backend F) (IsFd : ℕ → Type 0) (IsValid : F → Type 0)
    (services : F → Registry) : Type 0 where
  pub add_lem :
      (d : Direction) (fd service : ℕ) (f : F) (stack : ErrorStack)
      → IsValid f
      → IsFd fd
      → Does IsValid services
          (put d fd (some service) (services f))
          f
          stack
          (b.add d fd service f stack)
  pub added_new :
      (d : Direction) (fd service : ℕ) (f : F) (stack : ErrorStack)
      → IsValid f
      → IsFd fd
      → (b.add d fd service f stack).0 ≡ true
      → services f d fd ≡ none
  pub remove_lem :
      (d : Direction) (fd : ℕ) (f : F) (stack : ErrorStack)
      → IsValid f
      → IsFd fd
      → Does IsValid services (put d fd none (services f)) f stack (b.remove d fd f stack)
  pub empty_lem :
      (f : F) → IsValid f → (b.empty f ≡ true) ↔ ((d : Direction) (i : ℕ) → services f d i ≡ none)
