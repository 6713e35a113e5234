-- ===== src/Zmq/Lists.antt =====
-- Lists of the addresses of entries: what is found in them, and how a change of one entry shows.
use mathlib.Core.Path.{subst}
use femc_driver.Prelude.{
  ℕ, ◌≡◌, ◌≢◌, refl, ◌∙◌, ap, ◌⊎◌, inl, inr, true, false, Option, none, some, List, [], ◌∷◌, ◌++◌,
  arith, All, ◌==◌, eq-==, ne-==, ==-true, ==-false, if◌then◌else◌, Bool-cases,
}
use femc_driver.Backend.{Direction}
use femc_driver.Zmq.{Entry, Key, update, list_remove, is_at, find_entry, service}

abbrev pub NotIn : ℕ → List ℕ → Type 0
NotIn a xs = All (λ x. x ≢ a) xs

abbrev pub In : ℕ → List ℕ → Type 0
In a [] = ⊥
In a (x ∷ xs) = (x ≡ a) ⊎ In a xs

abbrev pub Nodup : List ℕ → Type 0
Nodup [] = Unit
Nodup (x ∷ xs) = NotIn x xs × Nodup xs

-- The service of the first entry at the key.
unfoldable pub look : Direction → Key → (ℕ → Entry) → List ℕ → Option ℕ
look d k m [] = none
look d k m (a ∷ rest) =
    let later = look d k m rest in if is_at k (m a) then service d (m a) else later

-- No entry, or no other one, is at the key.
abbrev pub NoneAt : Key → (ℕ → Entry) → List ℕ → Type 0
NoneAt k m xs = All (λ y. is_at k (m y) ≡ false) xs

abbrev pub OneAt : Key → (ℕ → Entry) → List ℕ → Type 0
OneAt k m [] = Unit
OneAt k m (x ∷ xs) = (is_at k (m x) ≡ true → NoneAt k m xs) × OneAt k m xs

pub find_entry-none :
    (k : Key) (m : ℕ → Entry) (xs : List ℕ) → find_entry k m xs ≡ none → NoneAt k m xs
unfolding find_entry
find_entry-none k m [] h = tt
find_entry-none k m (x ∷ xs) h = elim (Bool-cases (is_at k (m x))) [
  | inl e ↦ absurd (ground (arith, e))
  | inr e ↦ (e, find_entry-none k m xs (ground (arith, e)))
]

pub find_entry-some :
    (k : Key) (m : ℕ → Entry) (xs : List ℕ) (a : ℕ)
    → find_entry k m xs ≡ some a
    → In a xs × (is_at k (m a) ≡ true)
unfolding find_entry
find_entry-some k m [] a h = absurd (cc)
find_entry-some k m (x ∷ xs) a h = elim (Bool-cases (is_at k (m x))) [
  | inl e ↦ let same : x ≡ a = ground (arith, e) in (inl same, rw same at e)
  | inr e ↦ let (later, at) = find_entry-some k m xs a (ground (arith, e)) in (inr later, at)
]

pub look-NoneAt :
    (d : Direction) (k : Key) (m : ℕ → Entry) (xs : List ℕ) → NoneAt k m xs → look d k m xs ≡ none
unfolding look
look-NoneAt d k m [] h = refl
look-NoneAt d k m (x ∷ xs) (h, hs) = rw h (look-NoneAt d k m xs hs)

pub NotIn-In : (a : ℕ) {x : ℕ} (xs : List ℕ) → NotIn a xs → In x xs → x ≢ a
NotIn-In a [] hs i = absurd i
NotIn-In a {x} (y ∷ ys) (h, hs) (inl e) = rw (← e) h
NotIn-In a (y ∷ ys) (h, hs) (inr i) = NotIn-In a ys hs i

pub All-In {κ} : (P : ℕ → Type κ) {a : ℕ} (xs : List ℕ) → All P xs → In a xs → P a
All-In P [] hs i = absurd i
All-In P (y ∷ ys) (h, hs) (inl e) = subst P e h
All-In P (y ∷ ys) (h, hs) (inr i) = All-In P ys hs i

pub All-remove {κ} : (P : ℕ → Type κ) (a : ℕ) (xs : List ℕ) → All P xs → All P (list_remove a xs)
unfolding list_remove
All-remove P a [] hs = tt
All-remove P a (x ∷ xs) (h, hs) = elim (Bool-cases (x == a)) [
  | inl e ↦ rw e hs
  | inr e ↦ rw e (h, All-remove P a xs hs)
]

pub NotIn-list_remove : (a : ℕ) (xs : List ℕ) → Nodup xs → NotIn a (list_remove a xs)
unfolding list_remove
NotIn-list_remove a [] n = tt
NotIn-list_remove a (x ∷ xs) (h, n) = elim (Bool-cases (x == a)) [
  | inl e ↦ let same : x ≡ a = eq-== x a e in rw e (rw same at h)
  | inr e ↦ rw e (ne-== x a e, NotIn-list_remove a xs n)
]

pub In-tail : (a x : ℕ) (xs : List ℕ) → x ≢ a → In a (x ∷ xs) → In a xs
In-tail a x xs h (inl e) = absurd (h e)
In-tail a x xs h (inr i) = i

pub update_self : (a : ℕ) (e : Entry) (m : ℕ → Entry) → update a e m a ≡ e
update_self a e m = rw (==-true a a refl) refl

pub update_ne : (a x : ℕ) (e : Entry) (m : ℕ → Entry) → x ≢ a → update a e m x ≡ m x
update_ne a x e m h = rw (==-false x a h) refl

module _ (d : Direction) (j : Key) (a : ℕ) (e : Entry) (m : ℕ → Entry) where
  -- A change of an entry that is not in the list.
  pub look-update_out : (xs : List ℕ) → NotIn a xs → look d j (update a e m) xs ≡ look d j m xs
  unfolding look
  look-update_out [] n = refl
  look-update_out (x ∷ xs) (h, n) =
      rw (update_ne a x e m h)
        (ap (λ r. if is_at j (m x) then service d (m x) else r) (look-update_out xs n))

  pub NoneAt-update_out : (xs : List ℕ) → NotIn a xs → NoneAt j m xs → NoneAt j (update a e m) xs
  NoneAt-update_out [] n h = tt
  NoneAt-update_out (x ∷ xs) (ne, n) (h, hs) =
      (rw (update_ne a x e m ne) h, NoneAt-update_out xs n hs)

  pub OneAt-update_out : (xs : List ℕ) → NotIn a xs → OneAt j m xs → OneAt j (update a e m) xs
  OneAt-update_out [] n h = tt
  OneAt-update_out (x ∷ xs) (ne, n) (h, hs) =
      (rw (update_ne a x e m ne) (λ at. NoneAt-update_out xs n (h at)), OneAt-update_out xs n hs)

  -- A change of one that is, which leaves it at the key or away from it.
  pub look-update :
      (xs : List ℕ)
      → In a xs
      → Nodup xs
      → is_at j e ≡ is_at j (m a)
      → OneAt j m xs
      → look d j (update a e m) xs ≡ (if is_at j (m a) then service d e else look d j m xs)
  unfolding look
  look-update [] i n h o = absurd i
  look-update (x ∷ xs) i (ne, n) h (first, o) = elim (Bool-cases (x == a)) [
    | inl q ↦
        let same : x ≡ a = eq-== x a q in
        let out : NotIn a xs = rw same at ne in
        rw (same, update_self a e m, h, look-update_out xs out)
          (elim (Bool-cases (is_at j (m a))) [ inl at ↦ rw at refl | inr at ↦ rw at refl ])
    | inr q ↦
        let other = ne-== x a q in
        let inside = In-tail a x xs other i in
        rw (update_ne a x e m other) (elim (Bool-cases (is_at j (m x))) [
          | inl at ↦ rw (at, All-In (λ y. is_at j (m y) ≡ false) xs (first at) inside) refl
          | inr at ↦ rw at (look-update xs inside n h o)
        ])
  ]

  -- The entry is taken out of the list.
  pub look-remove :
      (xs : List ℕ)
      → In a xs
      → Nodup xs
      → OneAt j m xs
      → look d j (update a e m) (list_remove a xs) ≡ (if is_at j (m a) then none else look d j m xs)
  unfolding look list_remove
  look-remove [] i n o = absurd i
  look-remove (x ∷ xs) i (ne, n) (first, o) = elim (Bool-cases (x == a)) [
    | inl q ↦
        let same : x ≡ a = eq-== x a q in
        let out : NotIn a xs = rw same at ne in
        let alone : is_at j (m a) ≡ true → NoneAt j m xs = rw same at first in
        rw q (
          rw (same, look-update_out xs out)
            (elim (Bool-cases (is_at j (m a))) [
              | inl at ↦ rw at (look-NoneAt d j m xs (alone at))
              | inr at ↦ rw at refl
            ]))
    | inr q ↦
        let other = ne-== x a q in
        let inside = In-tail a x xs other i in
        rw (q, look)
          (rw (update_ne a x e m other) (elim (Bool-cases (is_at j (m x))) [
            | inl at ↦ rw (at, All-In (λ y. is_at j (m y) ≡ false) xs (first at) inside) refl
            | inr at ↦ rw at (look-remove xs inside n o)
          ]))
  ]

  NoneAt-update :
      (xs : List ℕ) → is_at j e ≡ is_at j (m a) → NoneAt j m xs → NoneAt j (update a e m) xs
  NoneAt-update [] h hs = tt
  NoneAt-update (x ∷ xs) h (f, fs) = elim (Bool-cases (x == a)) [
    | inl q ↦
        let same : x ≡ a = eq-== x a q in
        (rw (same, update_self a e m, h) (rw same at f), NoneAt-update xs h fs)
    | inr q ↦ (rw (update_ne a x e m (ne-== x a q)) f, NoneAt-update xs h fs)
  ]

  pub OneAt-update :
      (xs : List ℕ) → is_at j e ≡ is_at j (m a) → OneAt j m xs → OneAt j (update a e m) xs
  OneAt-update [] h o = tt
  OneAt-update (x ∷ xs) h (first, o) =
      (λ at. NoneAt-update xs h (first (is_at-update x h ∙ at)), OneAt-update xs h o)
    where
      is_at-update : (x : ℕ) → is_at j e ≡ is_at j (m a) → is_at j (m x) ≡ is_at j (update a e m x)
      is_at-update x h = elim (Bool-cases (x == a)) [
        | inl q ↦ let same : x ≡ a = eq-== x a q in rw (same, update_self a e m, h) refl
        | inr q ↦ rw (update_ne a x e m (ne-== x a q)) refl
      ]

pub OneAt-list_remove :
    (j : Key) (a : ℕ) (m : ℕ → Entry) (xs : List ℕ) → OneAt j m xs → OneAt j m (list_remove a xs)
unfolding list_remove
OneAt-list_remove j a m [] o = tt
OneAt-list_remove j a m (x ∷ xs) (first, o) = elim (Bool-cases (x == a)) [
  | inl q ↦ rw q o
  | inr q ↦
      rw q (
        λ at. All-remove (λ y. is_at j (m y) ≡ false) a xs (first at),
        OneAt-list_remove j a m xs o,
      )
]

-- Nodup of the three lists, where a node moves between them.
pub NotIn-append : (a : ℕ) (xs ys : List ℕ) → NotIn a (xs ++ ys) → NotIn a xs × NotIn a ys
NotIn-append a [] ys n = (tt, n)
NotIn-append a (x ∷ xs) ys (h, n) = let (p, q) = NotIn-append a xs ys n in ((h, p), q)

pub NotIn-both : (a : ℕ) (xs ys : List ℕ) → NotIn a xs → NotIn a ys → NotIn a (xs ++ ys)
NotIn-both a [] ys n h = h
NotIn-both a (x ∷ xs) ys (p, n) h = (p, NotIn-both a xs ys n h)
