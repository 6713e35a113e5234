-- ===== src/Memory.antt =====
-- Bytes at addresses. `NULL` is address 0, and a pointer into a buffer is an address.
use femc_driver.Prelude.{
  ℕ, zero, suc, ◌+◌, ◌-◌, ◌≤◌, ◌<◌, ◌≡◌, ◌⊎◌, refl, ◌&&◌, List, [], ◌∷◌, arith, ltb, leb, ◌==◌,
  if◌then◌else◌, length, ◌∙◌, ap, ◌++◌, get_or,
}

abbrev pub Memory : Type 0
Memory = ℕ → ℕ

unfoldable pub store : ℕ → ℕ → Memory → Memory
store p b m a = if p == a then b else m a

-- `data[0] = …; data[1] = …; …`
unfoldable pub store_bytes : ℕ → List ℕ → Memory → Memory
unfolding store
store_bytes p [] m = m
store_bytes p (b ∷ bs) m = store_bytes (p + 1) bs (store p b m)

-- `data[0]` to `data[n - 1]`
unfoldable pub load_bytes : ℕ → ℕ → Memory → List ℕ
load_bytes p zero m = []
load_bytes p (suc n) m = m p ∷ load_bytes (p + 1) n m

-- `memmove`, and `memcpy` of regions that do not overlap, which it is undefined for: the bytes of `src`
-- as they were before the call.
unfoldable pub copy : ℕ → ℕ → ℕ → Memory → Memory
copy dst src n m a = if leb dst a && ltb a (dst + n) then m (src + (a - dst)) else m a

-- What is read is bytes.
abbrev pub IsBytes : Memory → Type 0
IsBytes m = (a : ℕ) → m a < 256

pub store_bytes-below : (bs : List ℕ) (p a : ℕ) (m : Memory) → a < p → store_bytes p bs m a ≡ m a
unfolding store_bytes
store_bytes-below [] p a m h = refl
store_bytes-below (b ∷ bs) p a m h =
    store_bytes-below bs (p + 1) a (store p b m) (omega arith) ∙ ground arith

pub store_bytes-above :
    (bs : List ℕ) (p a : ℕ) (m : Memory) → p + length bs ≤ a → store_bytes p bs m a ≡ m a
unfolding store_bytes
store_bytes-above [] p a m h = refl
store_bytes-above (b ∷ bs) p a m h =
    store_bytes-above bs (p + 1) a (store p b m) (omega arith) ∙ ground arith

-- The bytes that were stored are there.
pub load_bytes-store_bytes :
    (bs : List ℕ) (p : ℕ) (m : Memory) → load_bytes p (length bs) (store_bytes p bs m) ≡ bs
unfolding store_bytes load_bytes
load_bytes-store_bytes [] p m = refl
load_bytes-store_bytes (b ∷ bs) p m =
    let head : store_bytes (p + 1) bs (store p b m) p ≡ b =
      store_bytes-below bs (p + 1) p (store p b m) (omega arith) ∙ ground arith in
    let rest = load_bytes-store_bytes bs (p + 1) (store p b m) in λ i. head i ∷ rest i

pub store_bytes-append :
    (xs ys : List ℕ) (p q : ℕ) (m : Memory)
    → q ≡ p + length xs
    → store_bytes q ys (store_bytes p xs m) ≡ store_bytes p (xs ++ ys) m
unfolding store_bytes
store_bytes-append [] ys p q m e = ap (λ (a : ℕ). store_bytes a ys m) {x = q} {y = p} (omega arith)
store_bytes-append (x ∷ xs) ys p q m e =
    store_bytes-append xs ys (p + 1) q (store p x m) (omega arith)

pub load_bytes-prefix :
    (xs ys : List ℕ) (p : ℕ) (m : Memory)
    → load_bytes p (length xs) (store_bytes p (xs ++ ys) m) ≡ xs
unfolding store_bytes load_bytes
load_bytes-prefix [] ys p m = refl
load_bytes-prefix (x ∷ xs) ys p m =
    let head : store_bytes (p + 1) (xs ++ ys) (store p x m) p ≡ x =
      store_bytes-below (xs ++ ys) (p + 1) p (store p x m) (omega arith) ∙ ground arith in
    let rest = load_bytes-prefix xs ys (p + 1) (store p x m) in λ i. head i ∷ rest i

pub load_bytes-suffix :
    (xs ys : List ℕ) (p q : ℕ) (m : Memory)
    → q ≡ p + length xs
    → load_bytes q (length ys) (store_bytes p (xs ++ ys) m) ≡ ys
load_bytes-suffix xs ys p q m e =
    rw (← store_bytes-append xs ys p q m e) (load_bytes-store_bytes ys q (store_bytes p xs m))

pub store_bytes-at :
    (bs : List ℕ) (p a : ℕ) (m : Memory) (i : ℕ)
    → a ≡ p + i
    → i < length bs
    → store_bytes p bs m a ≡ get_or bs i 0
unfolding store_bytes
store_bytes-at [] p a m i e h = absurd (omega arith)
store_bytes-at (b ∷ bs) p a m zero e h =
    store_bytes-below bs (p + 1) a (store p b m) (omega arith) ∙ ground arith
store_bytes-at (b ∷ bs) p a m (suc i) e h =
    store_bytes-at bs (p + 1) a (store p b m) i (omega arith) (omega arith)

-- What `memcpy` leaves inside of its destination, and outside.
pub copy-at : (dst src n i : ℕ) (m : Memory) → i < n → copy dst src n m (dst + i) ≡ m (src + i)
unfolding copy
copy-at dst src n i m h = let back : dst + i - dst ≡ i = omega arith in rw back (ground arith)

pub copy_outside :
    (dst src n a : ℕ) (m : Memory) → (a < dst) ⊎ (dst + n ≤ a) → copy dst src n m a ≡ m a
unfolding copy
copy_outside dst src n a m h = ground arith

pub load_bytes-append :
    (n k p : ℕ) (m : Memory) → load_bytes p (n + k) m ≡ load_bytes p n m ++ load_bytes (p + n) k m
unfolding load_bytes
load_bytes-append zero k p m =
    let e : 0 + k ≡ k = omega arith in let q : p + 0 ≡ p = omega arith in rw (e, q) refl
load_bytes-append (suc n) k p m =
    let e : suc n + k ≡ suc (n + k) = omega arith in
    let q : p + 1 + n ≡ p + suc n = omega arith in
    rw (e, ← q) (ap (◌∷◌ (m p)) (load_bytes-append n k (p + 1) m))

-- The same bytes at two places, in two memories.
pub load_bytes-same :
    (n p q : ℕ) (m m' : Memory)
    → ((i : ℕ) → i < n → m' (p + i) ≡ m (q + i))
    → load_bytes p n m' ≡ load_bytes q n m
unfolding load_bytes
load_bytes-same zero p q m m' h = refl
load_bytes-same (suc n) p q m m' h =
    let first : m' p ≡ m q = first_byte (h 0 (omega arith)) in
    let rest =
      load_bytes-same n (p + 1) (q + 1) m m' (λ i lt. next_byte i (h (suc i) (omega arith))) in
    λ i. first i ∷ rest i
  where
    first_byte : m' (p + 0) ≡ m (q + 0) → m' p ≡ m q
    first_byte e =
        let a : p + 0 ≡ p = omega arith in let b : q + 0 ≡ q = omega arith in rw (a, b) at e

    next_byte : (i : ℕ) → m' (p + suc i) ≡ m (q + suc i) → m' (p + 1 + i) ≡ m (q + 1 + i)
    next_byte i e =
        let a : p + suc i ≡ p + 1 + i = omega arith in
        let b : q + suc i ≡ q + 1 + i = omega arith in rw (a, b) at e
