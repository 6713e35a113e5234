-- ===== src/Zmq/Services/Outcomes.antt =====
-- What adding and removing the service of a descriptor may return, and what it leaves then.
use femc_driver.Prelude.{
  ℕ, ◌≡◌, refl, sym, ◌∙◌, ap, Bool, true, false, Option, none, some, List, ◌==◌, if◌then◌else◌,
  ◌||◌,
}
use femc_driver.Backend.{Direction, input, output, put, same}
use femc_driver.ErrorStack.{ErrorStack, Node}
use femc_driver.Zmq.{Entry, Zmq, service, other, with_service, is_some}
use femc_driver.Zmq.Valid.{IsListed, IsValid, services}
use femc_driver.Zmq.Services.Steps.{Kept}

pub set-IsListed :
    (d : Direction) (s : Option ℕ) (e : Entry)
    → IsListed e
    → is_some s || is_some (service (other d) e) ≡ true
    → IsListed (with_service d s e)
set-IsListed input s e l h = record {
  at_fd = l.at_fd;
  fd_lem = l.fd_lem;
  small = l.small;
  served = h;
}
set-IsListed output s e l h = record {
  at_fd = l.at_fd;
  fd_lem = l.fd_lem;
  small = l.small;
  served = turn (is_some e.input_service) (is_some s) h;
}
  where
    turn : (a b : Bool) → b || a ≡ true → a || b ≡ true
    turn true b h = refl
    turn false true h = refl
    turn false false h = h

pub other-with_service :
    (d : Direction) (s : Option ℕ) (e : Entry)
    → service (other d) (with_service d s e) ≡ service (other d) e
other-with_service input s e = refl
other-with_service output s e = refl

module _ {P : Type 0} where
  -- The service waits for the descriptor afterwards, or nothing has changed.
  abbrev pub Sets : Direction → ℕ → Option ℕ → Zmq P → Zmq P → Type 0
  Sets d fd s z z' =
      IsValid z' × ((e : Direction) (i : ℕ) → services z' e i ≡ put d fd s (services z) e i)

  abbrev pub Unchanged : Zmq P → Zmq P → Type 0
  Unchanged z z' = IsValid z' × ((e : Direction) (i : ℕ) → services z' e i ≡ services z e i)

  abbrev pub Adds : Direction → ℕ → ℕ → List Node → Zmq P → Bool × Zmq P × ErrorStack → Type 0
  Adds d fd name base z (true, z', stack) =
      (services z d fd ≡ none) × Sets d fd (some name) z z' × (stack.nodes ≡ base)
  Adds d fd name base z (false, z', stack) = Unchanged z z'

  abbrev pub Removes : Direction → ℕ → List Node → Zmq P → Bool × Zmq P × ErrorStack → Type 0
  Removes d fd base z (true, z', stack) = Sets d fd none z z' × (stack.nodes ≡ base)
  Removes d fd base z (false, z', stack) = Unchanged z z'

  Sets-after :
      (d : Direction) (fd : ℕ) (s : Option ℕ) (z z₁ z' : Zmq P)
      → Kept z z₁
      → Sets d fd s z₁ z'
      → Sets d fd s z z'
  Sets-after d fd s z z₁ z' (v, k, n) (v', p) =
      (v', λ e i. p e i ∙ ap (λ o. if same d e then (if i == fd then s else o) else o) (k e i))

  Unchanged-after : (z z₁ z' : Zmq P) → Kept z z₁ → Unchanged z₁ z' → Unchanged z z'
  Unchanged-after z z₁ z' (v, k, n) (v', p) = (v', λ e i. p e i ∙ k e i)

  pub Adds-after :
      (d : Direction) (fd name : ℕ) (base : List Node) (z z₁ : Zmq P)
      (r : Bool × Zmq P × ErrorStack)
      → Kept z z₁
      → Adds d fd name base z₁ r
      → Adds d fd name base z r
  Adds-after d fd name base z z₁ (true, z', stack) k (e, s, h) =
      (sym (k.1 d fd) ∙ e, Sets-after d fd (some name) z z₁ z' k s, h)
  Adds-after d fd name base z z₁ (false, z', stack) k u = Unchanged-after z z₁ z' k u

  pub Removes-after :
      (d : Direction) (fd : ℕ) (base : List Node) (z z₁ : Zmq P) (r : Bool × Zmq P × ErrorStack)
      → Kept z z₁
      → Removes d fd base z₁ r
      → Removes d fd base z r
  Removes-after d fd base z z₁ (true, z', stack) k (s, h) = (Sets-after d fd none z z₁ z' k s, h)
  Removes-after d fd base z z₁ (false, z', stack) k u = Unchanged-after z z₁ z' k u
