-- ===== src/Dns/Feeding.antt =====
-- The bytes of the answers, one by one, are the lines of the answers, one by one.
use mathlib.Core.List.{append_assoc, append-nil}
use femc_driver.Prelude.{
  ℕ, suc, ◌≤◌, ◌≡◌, ◌≢◌, refl, ap, sym, ◌∙◌, Option, List, [], ◌∷◌, ◌++◌, arith, length, All, ◌==◌,
  ==-false, ne-==, if◌then◌else◌, Bool-cases, inl, inr,
}
use femc_driver.Dns.{Bytes, Query, put_line, lines, answer_of}

-- What the queries see: those that wait, the bytes behind the last newline, and the state of the
-- callbacks.
pub record View (K : Type 0) : Type 0 where
  pub queue : List Query
  pub partial : Bytes
  pub client : K

module _ {K : Type 0} (tell : Query → Option Bytes → K → K) where
  -- A newline ends the answer to the first query.
  abbrev answer : List Query → Bytes → K → View K
  answer [] line k = record { queue = []; partial = []; client = k }
  answer (q ∷ qs) line k = record { queue = qs; partial = []; client = tell q (answer_of line) k }

  abbrev feed_byte : ℕ → View K → View K
  feed_byte c v =
      if c == 10
      then answer v.queue v.partial v.client
      else record v { partial = v.partial ++ c ∷ [] }

  -- The stream, byte by byte.
  unfoldable pub feed : Bytes → View K → View K
  feed [] v = v
  feed (c ∷ cs) v = feed cs (feed_byte c v)

  pub feed-append : (xs ys : Bytes) (v : View K) → feed (xs ++ ys) v ≡ feed ys (feed xs v)
  unfolding feed
  feed-append [] ys v = refl
  feed-append (c ∷ xs) ys v = feed-append xs ys (feed_byte c v)

  -- The lines that are complete, each for one query, and what is left.
  unfoldable pub after : List Bytes → Bytes → List Query → K → View K
  after [] rest qs k = record { queue = qs; partial = rest; client = k }
  after (l ∷ ls) rest [] k = after ls rest [] k
  after (l ∷ ls) rest (q ∷ qs) k = after ls rest qs (tell q (answer_of l) k)

  abbrev pub after_lines : List Bytes × Bytes → List Query → K → View K
  after_lines (ls, rest) qs k = after ls rest qs k

abbrev pub glue : Bytes → List Bytes × Bytes → List Bytes × Bytes
glue p ([], rest) = ([], p ++ rest)
glue p (l ∷ ls, rest) = ((p ++ l) ∷ ls, rest)

glue-nil : (r : List Bytes × Bytes) → glue [] r ≡ r
glue-nil ([], rest) = refl
glue-nil (l ∷ ls, rest) = refl

glue-put_line :
    (p : Bytes) (c : ℕ) (r : List Bytes × Bytes) → glue (p ++ c ∷ []) r ≡ glue p (put_line c r)
unfolding put_line
glue-put_line p c ([], rest) = ap (λ (b : Bytes). ([], b)) (append_assoc p (c ∷ []) rest)
glue-put_line p c (l ∷ ls, rest) = ap (λ (b : Bytes). (b ∷ ls, rest)) (append_assoc p (c ∷ []) l)

pub lines-glue : (p s : Bytes) → All (λ c. c ≢ 10) p → lines (p ++ s) ≡ glue p (lines s)
unfolding lines put_line
lines-glue [] s h = sym (glue-nil (lines s))
lines-glue (c ∷ p) s (ne, h) =
    rw (==-false c 10 ne) (ap (put_line c) (lines-glue p s h) ∙ put_glue c p (lines s))
  where
    put_glue : (c : ℕ) (p : Bytes) (r : List Bytes × Bytes) → put_line c (glue p r) ≡ glue (c ∷ p) r
    put_glue c p ([], rest) = refl
    put_glue c p (l ∷ ls, rest) = refl

put_line-lacks :
    (c : ℕ) (r : List Bytes × Bytes)
    → c ≢ 10
    → All (λ x. x ≢ 10) r.1
    → All (λ x. x ≢ 10) (put_line c r).1
unfolding put_line
put_line-lacks c ([], rest) ne h = (ne, h)
put_line-lacks c (l ∷ ls, rest) ne h = h

pub lines-lacks : (s : Bytes) → All (λ c. c ≢ 10) (lines s).1
unfolding lines
lines-lacks [] = tt
lines-lacks (c ∷ cs) = elim (Bool-cases (c == 10)) [
  | inl e ↦ rw e (lines-lacks cs)
  | inr e ↦ rw e (put_line-lacks c (lines cs) (ne-== c 10 e) (lines-lacks cs))
]

length-put_line : (c : ℕ) (r : List Bytes × Bytes) → length (put_line c r).1 ≤ suc (length r.1)
unfolding put_line
length-put_line c ([], rest) = omega arith
length-put_line c (l ∷ ls, rest) = omega arith

pub length-lines : (s : Bytes) → length (lines s).1 ≤ length s
unfolding lines
length-lines [] = omega arith
length-lines (c ∷ cs) = elim (Bool-cases (c == 10)) [
  | inl e ↦ rw e (omega (arith, length-lines cs))
  | inr e ↦ rw e (omega (arith, length-lines cs, length-put_line c (lines cs)))
]

module _ {K : Type 0} (tell : Query → Option Bytes → K → K) where
  newline_lem :
      (cs p : Bytes) (qs : List Query) (k : K)
      → ((qs' : List Query) (k' : K)
          → feed tell cs (record { queue = qs'; partial = []; client = k' })
            ≡ after_lines tell (lines cs) qs' k')
      → feed tell cs (answer tell qs p k) ≡ after tell ((p ++ []) ∷ (lines cs).0) (lines cs).1 qs k
  unfolding after
  newline_lem cs p [] k ih = ih [] k
  newline_lem cs p (q ∷ qs) k ih = rw (append-nil p) (ih qs (tell q (answer_of p) k))

  pub feed-after :
      (s p : Bytes) (qs : List Query) (k : K)
      → feed tell s (record { queue = qs; partial = p; client = k })
        ≡ after_lines tell (glue p (lines s)) qs k
  unfolding feed lines after
  feed-after [] p qs k =
      ap (λ (b : Bytes). record { queue = qs; partial = b; client = k }) (sym (append-nil p))
  feed-after (c ∷ cs) p qs k = elim (Bool-cases (c == 10)) [
    | inl e ↦ rw e (
        newline_lem cs p qs k (λ qs' k'.
          feed-after cs [] qs' k' ∙ ap (λ r. after_lines tell r qs' k') (glue-nil (lines cs))))
    | inr e ↦ rw e (
        feed-after cs (p ++ c ∷ []) qs k
        ∙ ap (λ r. after_lines tell r qs k) (glue-put_line p c (lines cs)))
  ]
