-- ===== src/Zmq/Pool.antt =====
-- The lists of dispatcher_zmq.c together: no address is in two of them, new ones come in blocks, and
-- no more entries wait than there are descriptors.
use mathlib.Core.Path.{subst}
use femc_driver.Prelude.{
  ℕ, zero, suc, ◌+◌, ◌<◌, ◌≤◌, ◌≡◌, ◌≢◌, refl, sym, ap, inl, inr, List, [], ◌∷◌, ◌++◌, arith, All,
  ◌==◌, ne-==, if◌then◌else◌, Bool-cases, length,
}
use femc_driver.Backend.{Direction}
use femc_driver.Zmq.{Entry, Key, list_remove, block, is_at, service}
use femc_driver.Zmq.Lists.{
  NotIn, In, Nodup, look, NoneAt, OneAt, All-remove, NotIn-list_remove, In-tail, NotIn-In,
}

pub All-map {κ λ₁} :
    (P : ℕ → Type κ) (Q : ℕ → Type λ₁) → ((x : ℕ) → P x → Q x) → (xs : List ℕ) → All P xs → All Q xs
All-map P Q f [] h = tt
All-map P Q f (x ∷ xs) (h, hs) = (f x h, All-map P Q f xs hs)

pub All-insert {κ} :
    (P : ℕ → Type κ) (a : ℕ) (xs ys : List ℕ) → P a → All P (xs ++ ys) → All P (xs ++ a ∷ ys)
All-insert P a [] ys h hs = (h, hs)
All-insert P a (x ∷ xs) ys h (g, gs) = (g, All-insert P a xs ys h gs)

Nodup-insert :
    (a : ℕ) (xs ys : List ℕ) → NotIn a (xs ++ ys) → Nodup (xs ++ ys) → Nodup (xs ++ a ∷ ys)
Nodup-insert a [] ys h n = (h, n)
Nodup-insert a (x ∷ xs) ys (h, hs) (f, n) =
    (All-insert (λ y. y ≢ x) a xs ys (λ e. h (sym e)) f, Nodup-insert a xs ys hs n)

-- `a` goes from the front of the second list to that of the third.
pub All-move {κ} :
    (P : ℕ → Type κ) (a : ℕ) (rs us es : List ℕ)
    → All P (rs ++ a ∷ (us ++ es))
    → All P (rs ++ (us ++ a ∷ es))
All-move P a [] us es (h, hs) = All-insert P a us es h hs
All-move P a (r ∷ rs) us es (h, hs) = (h, All-move P a rs us es hs)

pub Nodup-move :
    (a : ℕ) (rs us es : List ℕ) → Nodup (rs ++ a ∷ (us ++ es)) → Nodup (rs ++ (us ++ a ∷ es))
Nodup-move a [] us es (h, n) = Nodup-insert a us es h n
Nodup-move a (r ∷ rs) us es (h, n) = (All-move (λ y. y ≢ r) a rs us es h, Nodup-move a rs us es n)

-- `a` goes from the end of the list to its front.
pub All-list_remove {κ} :
    (P : ℕ → Type κ) (a : ℕ) (rs es : List ℕ) → All P (rs ++ es) → All P (rs ++ list_remove a es)
All-list_remove P a [] es h = All-remove P a es h
All-list_remove P a (r ∷ rs) es (h, hs) = (h, All-list_remove P a rs es hs)

Nodup-list_remove : (a : ℕ) (es : List ℕ) → Nodup es → Nodup (list_remove a es)
unfolding list_remove
Nodup-list_remove a [] n = tt
Nodup-list_remove a (x ∷ xs) (h, n) = elim (Bool-cases (x == a)) [
  | inl e ↦ rw e n
  | inr e ↦ rw e (All-remove (λ y. y ≢ x) a xs h, Nodup-list_remove a xs n)
]

Nodup-keep : (a : ℕ) (rs es : List ℕ) → Nodup (rs ++ es) → Nodup (rs ++ list_remove a es)
Nodup-keep a [] es n = Nodup-list_remove a es n
Nodup-keep a (r ∷ rs) es (h, n) = (All-list_remove (λ y. y ≢ r) a rs es h, Nodup-keep a rs es n)

pub Nodup-right : (rs es : List ℕ) → Nodup (rs ++ es) → Nodup es
Nodup-right [] es n = n
Nodup-right (r ∷ rs) es (h, n) = Nodup-right rs es n

pub All-right {κ} : (P : ℕ → Type κ) (rs es : List ℕ) → All P (rs ++ es) → All P es
All-right P [] es h = h
All-right P (r ∷ rs) es (h, hs) = All-right P rs es hs

In-right : (a : ℕ) (rs es : List ℕ) → In a es → In a (rs ++ es)
In-right a [] es i = i
In-right a (r ∷ rs) es i = inr (In-right a rs es i)

NotIn-keep :
    (a : ℕ) (rs es : List ℕ) → Nodup (rs ++ es) → In a es → NotIn a (rs ++ list_remove a es)
NotIn-keep a [] es n i = NotIn-list_remove a es n
NotIn-keep a (r ∷ rs) es (h, n) i =
    (λ e. NotIn-In r (rs ++ es) h (In-right a rs es i) (sym e), NotIn-keep a rs es n i)

pub Nodup-return :
    (a : ℕ) (rs es : List ℕ) → Nodup (rs ++ es) → In a es → Nodup (a ∷ (rs ++ list_remove a es))
Nodup-return a rs es n i = (NotIn-keep a rs es n i, Nodup-keep a rs es n)

pub length-list_remove :
    (a : ℕ) (xs : List ℕ) → In a xs → suc (length (list_remove a xs)) ≡ length xs
unfolding list_remove
length-list_remove a [] i = absurd i
length-list_remove a (x ∷ xs) i = elim (Bool-cases (x == a)) [
  | inl e ↦ rw e refl
  | inr e ↦ rw e (ap (λ n. suc n) (length-list_remove a xs (In-tail a x xs (ne-== x a e) i)))
]

length-list_remove-le : (a : ℕ) (xs : List ℕ) → length xs ≤ suc (length (list_remove a xs))
unfolding list_remove
length-list_remove-le a [] = omega arith
length-list_remove-le a (x ∷ xs) = elim (Bool-cases (x == a)) [
  | inl e ↦ rw e (omega arith)
  | inr e ↦ rw e (omega (arith, length-list_remove-le a xs))
]

-- The addresses from `f` on are new.
pub Nodup-block :
    (n f : ℕ) (rs us es : List ℕ)
    → Nodup (rs ++ (us ++ es))
    → All (λ x. x < f) (rs ++ (us ++ es))
    → Nodup (rs ++ (block n f us ++ es)) × All (λ x. x < f + n) (rs ++ (block n f us ++ es))
unfolding block
Nodup-block zero f rs us es n h =
    (n, All-map (λ x. x < f) (λ x. x < f + 0) (λ x lt. omega arith) (rs ++ (us ++ es)) h)
Nodup-block (suc k) f rs us es n h =
    let later : suc f + k ≡ f + suc k = omega arith in
    let wider = All-map (λ x. x < f) (λ x. x < f + 1) (λ x lt. omega arith) (rs ++ (us ++ es)) h in
    let apart = All-map (λ x. x < f) (λ x. x ≢ f) (λ x lt e. omega arith) (rs ++ (us ++ es)) h in
    let (m, b) =
      Nodup-block k (f + 1) rs (f ∷ us) es (Nodup-insert f rs (us ++ es) apart n)
        (All-insert (λ x. x < f + 1) f rs (us ++ es) (omega arith) wider) in
    (m, All-map (λ x. x < f + 1 + k) (λ x. x < f + suc k) (λ x lt. omega arith) _ b)

-- Numbers below `n` without repetition are at most `n`.
pub length-Nodup : (n : ℕ) (xs : List ℕ) → Nodup xs → All (λ x. x < n) xs → length xs ≤ n
length-Nodup zero [] d h = omega arith
length-Nodup zero (x ∷ xs) d (h, hs) = absurd (omega arith)
length-Nodup (suc n) xs d h = omega (
  arith,
  length-list_remove-le n xs,
  length-Nodup n (list_remove n xs) (Nodup-list_remove n xs d)
      (below (list_remove n xs) (All-remove (λ x. x < suc n) n xs h) (NotIn-list_remove n xs d)),
)
  where
    below : (ys : List ℕ) → All (λ x. x < suc n) ys → NotIn n ys → All (λ x. x < n) ys
    below [] h g = tt
    below (y ∷ ys) (h, hs) (g, gs) = (omega arith, below ys hs gs)

-- Two memories that agree on the listed addresses.
module _ (m m' : ℕ → Entry) where
  abbrev pub Agree : List ℕ → Type 0
  Agree xs = All (λ x. m' x ≡ m x) xs

  pub look-Agree :
      (d : Direction) (k : Key) (xs : List ℕ) → Agree xs → look d k m' xs ≡ look d k m xs
  unfolding look
  look-Agree d k [] h = refl
  look-Agree d k (x ∷ xs) (h, hs) =
      rw h (ap (λ r. if is_at k (m x) then service d (m x) else r) (look-Agree d k xs hs))

  pub NoneAt-Agree : (k : Key) (xs : List ℕ) → Agree xs → NoneAt k m xs → NoneAt k m' xs
  NoneAt-Agree k [] h g = tt
  NoneAt-Agree k (x ∷ xs) (h, hs) (g, gs) = (rw h g, NoneAt-Agree k xs hs gs)

  pub OneAt-Agree : (k : Key) (xs : List ℕ) → Agree xs → OneAt k m xs → OneAt k m' xs
  OneAt-Agree k [] h g = tt
  OneAt-Agree k (x ∷ xs) (h, hs) (g, gs) =
      (rw h (λ at. NoneAt-Agree k xs hs (g at)), OneAt-Agree k xs hs gs)

  pub All-Agree {κ} :
      (P : Entry → Type κ) (xs : List ℕ) → Agree xs → All (λ x. P (m x)) xs → All (λ x. P (m' x)) xs
  All-Agree P [] h g = tt
  All-Agree P (x ∷ xs) (h, hs) (g, gs) = (subst P (sym h) g, All-Agree P xs hs gs)
