-- ===== src/Timers/Queue.antt =====
-- The list of timers: where `fdd_add_timer_node` puts a node, and what `fdd_cancel_timer` takes out.
use femc_driver.Prelude.{
  ℕ, suc, ◌+◌, ◌≤◌, ◌<◌, ◌≡◌, ◌≢◌, refl, ap, inl, inr, true, false, List, [], ◌∷◌, ◌++◌, arith,
  length, All, ◌==◌, if◌then◌else◌, Bool-cases, ==-false,
}
use femc_driver.Timers.{
  Timer, Timers, before, insert, cancel_head, cancel_behind, cancel_rest, cancel_timer,
}
use femc_driver.Timers.Times.{nanos, IsNormal, InRange, expiration_compare_lem}

-- A timer whose time the comparison can order.
abbrev pub IsReady : Timer → Type 0
IsReady t = InRange t.expires × IsNormal t.expires

abbrev NotAfter : Timer → Timer → Type 0
NotAfter a b = nanos a.expires ≤ nanos b.expires

unfoldable pub IsSorted : List Timer → Type 0
IsSorted [] = Unit
IsSorted (t ∷ ts) = All (NotAfter t) ts × IsSorted ts

before-false : (a b : Timer) → IsReady a → IsReady b → before a b ≡ false → NotAfter b a
before-false a b ra rb h =
    let order = expiration_compare_lem a.expires b.expires ra.0 rb.0 ra.1 rb.1 in
    grind (arith, order.0.1)

before-true :
    (a b : Timer) → IsReady a → IsReady b → before a b ≡ true → nanos a.expires < nanos b.expires
before-true a b ra rb h = (expiration_compare_lem a.expires b.expires ra.0 rb.0 ra.1 rb.1).0.0 h

-- `new` stands behind all that expire no later than it, and in front of the others, all of which
-- keep their order.
pub record IsInserted (new : Timer) (ts out : List Timer) : Type 0 where
  early : List Timer
  late : List Timer
  was : ts ≡ early ++ late
  is : out ≡ early ++ new ∷ late
  first : All (λ t. NotAfter t new) early
  after : All (λ t. nanos new.expires < nanos t.expires) late

All-map {κ μ} :
    {P : Timer → Type κ} {Q : Timer → Type μ} (ts : List Timer)
    → ((t : Timer) → P t → Q t)
    → All P ts
    → All Q ts
All-map [] f ps = tt
All-map (t ∷ ts) f (p, ps) = (f t p, All-map ts f ps)

later :
    (new t : Timer) (ts : List Timer)
    → nanos new.expires < nanos t.expires
    → All (NotAfter t) ts
    → All (λ u. nanos new.expires < nanos u.expires) ts
later new t ts h ps = All-map ts (λ u p. omega arith) ps

-- `fdd_add_timer_node` puts a timer into a sorted list of timers in range behind all that expire
-- no later than it and in front of all that expire later, and leaves their order as it is.
pub insert-IsInserted :
    (new : Timer) (ts : List Timer)
    → IsReady new
    → All IsReady ts
    → IsSorted ts
    → IsInserted new ts (insert new ts)
unfolding insert IsSorted
insert-IsInserted new [] r rs sorted = record {
  early = [];
  late = [];
  was = refl;
  is = refl;
  first = tt;
  after = tt;
}
insert-IsInserted new (t ∷ ts) r (rt, rs) (le, sorted) =
    let ih = insert-IsInserted new ts r rs sorted in
    elim (Bool-cases (before new t)) [
      | inl h ↦
          let lt = before-true new t r rt h in
          record {
            early = [];
            late = t ∷ ts;
            was = refl;
            is = rw h refl;
            first = tt;
            after = (lt, later new t ts lt le);
          }
      | inr h ↦ record {
        early = t ∷ ih.early;
        late = ih.late;
        was = ap (λ us. t ∷ us) ih.was;
        is = rw h (ap (λ us. t ∷ us) ih.is);
        first = (before-false new t r rt h, ih.first);
        after = ih.after;
      }
    ]

insert-All {κ} :
    (P : Timer → Type κ) (new : Timer) (ts : List Timer) → P new → All P ts → All P (insert new ts)
unfolding insert
insert-All P new [] p ps = (p, ps)
insert-All P new (t ∷ ts) p (pt, ps) = elim (Bool-cases (before new t)) [
  | inl h ↦ rw h (p, (pt, ps))
  | inr h ↦ rw h (pt, insert-All P new ts p ps)
]

-- The list that the main loop takes its timers from the head of: sorted, and in range.
abbrev pub IsQueue : List Timer → Type 0
IsQueue ts = IsSorted ts × All IsReady ts

-- Inserting a timer in range keeps the list sorted and in range.
pub insert-IsQueue :
    (new : Timer) (ts : List Timer) → IsReady new → IsQueue ts → IsQueue (insert new ts)
unfolding insert IsSorted
insert-IsQueue new [] r q = ((tt, tt), (r, tt))
insert-IsQueue new (t ∷ ts) r ((le, sorted), (rt, rs)) = elim (Bool-cases (before new t)) [
  | inl h ↦
      let lt = before-true new t r rt h in
      rw h (((omega arith, All-map ts (λ u p. omega arith) le), (le, sorted)), (r, (rt, rs)))
  | inr h ↦
      let (ihs, ihr) = insert-IsQueue new ts r (sorted, rs) in
      let nt = before-false new t r rt h in
      rw h ((insert-All (NotAfter t) new ts nt le, ihs), (rt, ihr))
]

length-insert : (new : Timer) (ts : List Timer) → length (insert new ts) ≡ suc (length ts)
unfolding insert
length-insert new [] = refl
length-insert new (t ∷ ts) = elim (Bool-cases (before new t)) [
  | inl h ↦ rw h refl
  | inr h ↦ rw h (ap (λ n. suc n) (length-insert new ts))
]

-- The timers with another handle, in their order.
pub others : ℕ → List Timer → List Timer
others handle [] = []
others handle (t ∷ ts) =
    let rest = others handle ts in if t.handle == handle then rest else t ∷ rest

-- `s` has the timers `ts` less those with the handle, and all nodes of `ts` and `n` more.
abbrev Leaves : ℕ → List Timer → ℕ → Timers → Type 0
Leaves handle ts n s = (s.active ≡ others handle ts) × (length s.active + s.free ≡ length ts + n)

cancel_behind-Leaves :
    (handle : ℕ) (ts : List Timer) (n : ℕ) → Leaves handle ts n (cancel_behind handle ts n)
unfolding cancel_behind others
cancel_behind-Leaves handle [] n = (refl, refl)
cancel_behind-Leaves handle (t ∷ ts) n = elim (Bool-cases (t.handle == handle)) [
  | inl h ↦
      let (e, count) = cancel_behind-Leaves handle ts (n + 1) in rw h (e, omega (arith, count))
  | inr h ↦
      let (e, count) = cancel_behind-Leaves handle ts n in
      rw h (ap (λ us. t ∷ us) e, omega (arith, count))
]

cancel_rest-Leaves :
    (handle : ℕ) (ts : List Timer) (n : ℕ)
    → Leaves handle ts n (cancel_rest handle (cancel_head handle ts n))
unfolding cancel_rest cancel_head others
cancel_rest-Leaves handle [] n = (refl, refl)
cancel_rest-Leaves handle (t ∷ ts) n = elim (Bool-cases (t.handle == handle)) [
  | inl h ↦ let (e, count) = cancel_rest-Leaves handle ts (n + 1) in rw h (e, omega (arith, count))
  | inr h ↦
      let (e, count) = cancel_behind-Leaves handle ts n in
      rw h (ap (λ us. t ∷ us) e, omega (arith, count))
]

-- `fdd_cancel_timer` of a handle other than 0 removes the timers of that handle and no others,
-- keeps the order of the rest, and puts just the removed nodes on the free list.
pub cancel_timer_lem :
    (handle : ℕ) (s : Timers)
    → handle ≢ 0
    → ((cancel_timer handle s).active ≡ others handle s.active)
      × (length (cancel_timer handle s).active + (cancel_timer handle s).free
          ≡ length s.active + s.free)
unfolding cancel_timer
cancel_timer_lem handle s h = rw (==-false handle 0 h) (cancel_rest-Leaves handle s.active s.free)

-- Timers added with `fdd_add_timer` have the handle 0, and no call cancels them.
pub cancel_timer-zero : (s : Timers) → cancel_timer 0 s ≡ s
unfolding cancel_timer
cancel_timer-zero s = refl

others-All {κ} :
    (P : Timer → Type κ) (handle : ℕ) (ts : List Timer) → All P ts → All P (others handle ts)
unfolding others
others-All P handle [] ps = tt
others-All P handle (t ∷ ts) (p, ps) = elim (Bool-cases (t.handle == handle)) [
  | inl h ↦ rw h (others-All P handle ts ps)
  | inr h ↦ rw h (p, others-All P handle ts ps)
]

others-IsSorted : (handle : ℕ) (ts : List Timer) → IsSorted ts → IsSorted (others handle ts)
unfolding others IsSorted
others-IsSorted handle [] s = tt
others-IsSorted handle (t ∷ ts) (le, s) = elim (Bool-cases (t.handle == handle)) [
  | inl h ↦ rw h (others-IsSorted handle ts s)
  | inr h ↦ rw h (others-All (NotAfter t) handle ts le, others-IsSorted handle ts s)
]

-- `fdd_cancel_timer` of any handle keeps a list of timers sorted and in range.
pub cancel_timer-IsQueue :
    (handle : ℕ) (s : Timers) → IsQueue s.active → IsQueue (cancel_timer handle s).active
unfolding cancel_timer
cancel_timer-IsQueue handle s (sorted, ready) = elim (Bool-cases (handle == 0)) [
  | inl h ↦ rw h (sorted, ready)
  | inr h ↦
      let (left, _) = cancel_rest-Leaves handle s.active s.free in
      rw h
        (rw left (others-IsSorted handle s.active sorted, others-All IsReady handle s.active ready))
]
