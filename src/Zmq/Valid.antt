-- ===== src/Zmq/Valid.antt =====
-- The valid state of dispatcher_zmq.c where only descriptors wait, and what its changes are to the
-- services.
use femc_driver.Prelude.{
  ℕ, suc, ◌^◌, ◌<◌, ◌≤◌, ◌≡◌, refl, sym, ◌∙◌, ap, inl, inr, true, none, some, List, [], ◌∷◌, ◌++◌,
  arith, All, ◌==◌, ne-==, ==-true, if◌then◌else◌, Bool-cases, length, ◌||◌,
}
use femc_driver.Backend.{Direction, input, output, Registry, same}
use femc_driver.Zmq.{Entry, by_fd, Zmq, update, is_at, service, with_service, is_some, new_entry}
use femc_driver.Zmq.Lists.{NotIn, Nodup, look, NoneAt, OneAt, update_ne}
use femc_driver.Zmq.Pool.{length-Nodup}

-- The number of descriptors that an int can hold.
abbrev pub fd_limit : ℕ
fd_limit = 2 ^ 31

-- The entry of a descriptor that waits with one service at least.
pub record IsListed (e : Entry) : Type 0 where
  pub at_fd : ℕ
  pub fd_lem : e.fd ≡ some at_fd
  pub small : at_fd < fd_limit
  pub served : is_some e.input_service || is_some e.output_service ≡ true

-- No address is in two lists, or twice in one, and no descriptor has two entries.
pub record IsPool (count : ℕ) (es rs us : List ℕ) (m : ℕ → Entry) (fresh : ℕ) : Type 0 where
  pub nodup : Nodup (rs ++ (us ++ es))
  pub bounded : All (λ a. a < fresh) (rs ++ (us ++ es))
  pub one : (i : ℕ) → OneAt (by_fd i) m es
  pub listed : All (λ a. IsListed (m a)) es
  pub counted : count ≡ length es

abbrev pub IsValid : {P : Type 0} → Zmq P → Type 0
IsValid z = IsPool z.entries_count z.entries z.removed_entries z.unused_entries z.entry z.fresh

-- Which service waits for a descriptor.
abbrev pub services : {P : Type 0} → Zmq P → Registry
services z d i = look d (by_fd i) z.entry z.entries

-- The descriptors of the list are all different, so they are not too many to count.
fds : (m : ℕ → Entry) (es : List ℕ) → All (λ a. IsListed (m a)) es → List ℕ
fds m [] l = []
fds m (a ∷ es) (l, ls) = l.at_fd ∷ fds m es ls

length-fds :
    (m : ℕ → Entry) (es : List ℕ) (l : All (λ a. IsListed (m a)) es)
    → length (fds m es l) ≡ length es
unfolding fds
length-fds m [] l = refl
length-fds m (a ∷ es) (l, ls) = ap (λ n. suc n) (length-fds m es ls)

fds-small :
    (m : ℕ → Entry) (es : List ℕ) (l : All (λ a. IsListed (m a)) es)
    → All (λ i. i < fd_limit) (fds m es l)
unfolding fds
fds-small m [] l = tt
fds-small m (a ∷ es) (l, ls) = (l.small, fds-small m es ls)

pub is_at-fd : (e : Entry) (i j : ℕ) → e.fd ≡ some j → is_at (by_fd i) e ≡ (j == i)
unfolding is_at
is_at-fd e i j h = rw h refl

fds-NotIn :
    (m : ℕ → Entry) (i : ℕ) (es : List ℕ) (l : All (λ a. IsListed (m a)) es)
    → NoneAt (by_fd i) m es
    → NotIn i (fds m es l)
unfolding fds
fds-NotIn m i [] l n = tt
fds-NotIn m i (a ∷ es) (l, ls) (n, ns) =
    (ne-== l.at_fd i (sym (is_at-fd (m a) i l.at_fd l.fd_lem) ∙ n), fds-NotIn m i es ls ns)

fds-Nodup :
    (m : ℕ → Entry) (es : List ℕ) (l : All (λ a. IsListed (m a)) es)
    → ((i : ℕ) → OneAt (by_fd i) m es)
    → Nodup (fds m es l)
unfolding fds
fds-Nodup m [] l o = tt
fds-Nodup m (a ∷ es) (l, ls) o = (
  fds-NotIn m l.at_fd es ls
      ((o l.at_fd).0 (is_at-fd (m a) l.at_fd l.at_fd l.fd_lem ∙ ==-true l.at_fd l.at_fd refl)),
  fds-Nodup m es ls (λ i. (o i).1),
)

pub length-listed :
    (m : ℕ → Entry) (es : List ℕ)
    → All (λ a. IsListed (m a)) es
    → ((i : ℕ) → OneAt (by_fd i) m es)
    → length es ≤ fd_limit
length-listed m es l o = omega (
  arith,
  length-fds m es l,
  length-Nodup fd_limit (fds m es l) (fds-Nodup m es l o) (fds-small m es l),
)

pub All-update :
    (a : ℕ) (e : Entry) (m : ℕ → Entry) (es : List ℕ)
    → IsListed e
    → All (λ x. IsListed (m x)) es
    → All (λ x. IsListed (update a e m x)) es
All-update a e m [] l ls = tt
All-update a e m (x ∷ es) l (h, hs) =
    (elim (Bool-cases (x == a)) [ inl q ↦ rw q l | inr q ↦ rw q h ], All-update a e m es l hs)

pub All-update_out :
    (a : ℕ) (e : Entry) (m : ℕ → Entry) (es : List ℕ)
    → NotIn a es
    → All (λ x. IsListed (m x)) es
    → All (λ x. IsListed (update a e m x)) es
All-update_out a e m [] n h = tt
All-update_out a e m (x ∷ es) (n, ns) (h, hs) =
    (rw (update_ne a x e m n) h, All-update_out a e m es ns hs)

abbrev pub new : Direction → ℕ → ℕ → Entry
new d fd name = with_service d (some name) (new_entry (by_fd fd))

pub new-IsListed : (d : Direction) (fd name : ℕ) → fd < fd_limit → IsListed (new d fd name)
new-IsListed input fd name h = record { at_fd = fd; fd_lem = refl; small = h; served = refl }
new-IsListed output fd name h = record { at_fd = fd; fd_lem = refl; small = h; served = refl }

pub new-fd : (d : Direction) (fd name i : ℕ) → is_at (by_fd i) (new d fd name) ≡ (fd == i)
unfolding is_at
new-fd input fd name i = refl
new-fd output fd name i = refl

pub new-service :
    (d e : Direction) (fd name : ℕ)
    → service e (new d fd name) ≡ (if same d e then some name else none)
new-service input input fd name = refl
new-service input output fd name = refl
new-service output input fd name = refl
new-service output output fd name = refl
