-- ===== src/Http/Text/Lengths.antt =====
-- The functions on the bytes of a line give parts of it: what they take apart makes up the whole.
use femc_driver.Prelude.{
  ℕ, ◌+◌, ◌≤◌, ◌≡◌, ◌≢◌, All, if-no, ==-false, refl, ap, ◌∙◌, Option, none, some, List, [], ◌∷◌,
  ◌++◌, ◌==◌, arith, length, Bool-cases, inl, inr, drop,
}
use femc_driver.Http.Text.{
  strip_ws_start, strip_ws_end, strip_ws_both, keep, put_front, split_at, drop_last_if, skip_blanks,
  convert_to_lowercase,
}

pub strip_ws_start_lem : (s : List ℕ) → (strip_ws_start s).0 ++ (strip_ws_start s).1 ≡ s
unfolding strip_ws_start
strip_ws_start_lem [] = refl
strip_ws_start_lem (c ∷ cs) = ground (arith, strip_ws_start_lem cs)

keep_lem : (c : ℕ) (r : List ℕ × List ℕ) → (keep c r).0 ++ (keep c r).1 ≡ c ∷ (r.0 ++ r.1)
unfolding keep
keep_lem c ([], space) = ground arith
keep_lem c (x ∷ xs, space) = refl

pub strip_ws_end_lem : (s : List ℕ) → (strip_ws_end s).0 ++ (strip_ws_end s).1 ≡ s
unfolding strip_ws_end
strip_ws_end_lem [] = refl
strip_ws_end_lem (c ∷ cs) = keep_lem c (strip_ws_end cs) ∙ ap (◌∷◌ c) (strip_ws_end_lem cs)

pub strip_ws_both_lem :
    (s : List ℕ) → (strip_ws_both s).0 ++ (strip_ws_both s).1 ++ (strip_ws_both s).2 ≡ s
unfolding strip_ws_both
strip_ws_both_lem s =
    ap (λ (t : List ℕ). t ++ (strip_ws_end s).1) (strip_ws_start_lem (strip_ws_end s).0)
    ∙ strip_ws_end_lem s

-- A line is cut where the byte is found.
abbrev pub IsCut : ℕ → List ℕ → Option (List ℕ × List ℕ) → Type 0
IsCut c s none = Unit {0}
IsCut c s (some (before, after)) = before ++ c ∷ after ≡ s

put_front-IsCut :
    (c x : ℕ) (s : List ℕ) (r : Option (List ℕ × List ℕ))
    → IsCut c s r
    → IsCut c (x ∷ s) (put_front x r)
unfolding put_front
put_front-IsCut c x s none h = tt
put_front-IsCut c x s (some (before, after)) h = ap (◌∷◌ x) h

pub split_at-IsCut : (c : ℕ) (s : List ℕ) → IsCut c s (split_at c s)
unfolding split_at
split_at-IsCut c [] = tt
split_at-IsCut c (x ∷ xs) = elim (Bool-cases (x == c)) [
  | inl e ↦ rw e (ground arith)
  | inr e ↦ rw e (put_front-IsCut c x xs (split_at c xs) (split_at-IsCut c xs))
]

pub length-drop_last_if : (c : ℕ) (s : List ℕ) → length (drop_last_if c s) ≤ length s
unfolding drop_last_if
length-drop_last_if c [] = omega arith
length-drop_last_if c (x ∷ []) = ground arith
length-drop_last_if c (x ∷ y ∷ ys) = omega (arith, length-drop_last_if c (y ∷ ys))

-- The line, and the rest of what it was taken from.
pub length-drop_rest :
    (c : ℕ) (s : List ℕ)
    → length (drop_last_if c s) + length (drop (length (drop_last_if c s)) s) ≡ length s
unfolding drop_last_if
length-drop_rest c [] = omega arith
length-drop_rest c (x ∷ []) = ground arith
length-drop_rest c (x ∷ y ∷ ys) = omega (arith, length-drop_rest c (y ∷ ys))

pub length-skip_blanks : (s : List ℕ) → length (skip_blanks s) ≤ length s
unfolding skip_blanks
length-skip_blanks [] = omega arith
length-skip_blanks (c ∷ cs) = ground (arith, length-skip_blanks cs)

pub length-convert_to_lowercase : (s : List ℕ) → length (convert_to_lowercase s) ≡ length s
unfolding convert_to_lowercase
length-convert_to_lowercase [] = omega arith
length-convert_to_lowercase (c ∷ cs) = omega (arith, length-convert_to_lowercase cs)

-- The first of the bytes is found.
pub split_at-found :
    (c : ℕ) (t rest : List ℕ) → All (λ x. x ≢ c) t → split_at c (t ++ c ∷ rest) ≡ some (t, rest)
unfolding split_at put_front
split_at-found c [] rest h = ground arith
split_at-found c (x ∷ t) rest (ne, h) =
    if-no (x == c) (some ([], t ++ c ∷ rest)) (==-false x c ne)
    ∙ ap (put_front x) (split_at-found c t rest h)
