-- ===== src/Http/Text/Strip.antt =====
-- What the functions that strip white space and make small letters leave.
use femc_driver.Prelude.{
  ℕ, ◌≡◌, refl, true, false, List, [], ◌∷◌, ◌++◌, All, arith, Bool-cases, inl, inr,
}
use femc_driver.Http.Text.{
  isspace, strip_ws_start, strip_ws_end, strip_ws_both, keep, lower, convert_to_lowercase,
}
use femc_driver.Http.Text.Lengths.{strip_ws_both_lem}

abbrev pub AllSpace : List ℕ → Type 0
AllSpace s = All (λ c. isspace c ≡ true) s

-- The first and the last byte, if there is one, is not white space.
abbrev pub StartsBlack : List ℕ → Type 0
StartsBlack [] = Unit
StartsBlack (c ∷ cs) = isspace c ≡ false

abbrev pub EndsBlack : List ℕ → Type 0
EndsBlack [] = Unit
EndsBlack (c ∷ []) = isspace c ≡ false
EndsBlack (c ∷ d ∷ ds) = EndsBlack (d ∷ ds)

strip_ws_start-AllSpace :
    (s : List ℕ) → AllSpace (strip_ws_start s).0 × StartsBlack (strip_ws_start s).1
unfolding strip_ws_start
strip_ws_start-AllSpace [] = (tt, tt)
strip_ws_start-AllSpace (c ∷ cs) = elim (Bool-cases (isspace c)) [
  | inl e ↦ let (a, b) = strip_ws_start-AllSpace cs in rw e ((e, a), b)
  | inr e ↦ rw e (tt, e)
]

keep-EndsBlack :
    (c : ℕ) (r : List ℕ × List ℕ)
    → EndsBlack r.0 × AllSpace r.1
    → EndsBlack (keep c r).0 × AllSpace (keep c r).1
unfolding keep
keep-EndsBlack c ([], space) (a, b) = elim (Bool-cases (isspace c)) [
  | inl e ↦ rw e (tt, (e, b))
  | inr e ↦ rw e (e, b)
]
keep-EndsBlack c (x ∷ xs, space) h = h

strip_ws_end-EndsBlack : (s : List ℕ) → EndsBlack (strip_ws_end s).0 × AllSpace (strip_ws_end s).1
unfolding strip_ws_end
strip_ws_end-EndsBlack [] = (tt, tt)
strip_ws_end-EndsBlack (c ∷ cs) = keep-EndsBlack c (strip_ws_end cs) (strip_ws_end-EndsBlack cs)

EndsBlack-tail : (c : ℕ) (cs : List ℕ) → EndsBlack (c ∷ cs) → EndsBlack cs
EndsBlack-tail c [] h = tt
EndsBlack-tail c (d ∷ ds) h = h

strip_ws_start-EndsBlack : (s : List ℕ) → EndsBlack s → EndsBlack (strip_ws_start s).1
unfolding strip_ws_start
strip_ws_start-EndsBlack [] h = tt
strip_ws_start-EndsBlack (c ∷ cs) h = elim (Bool-cases (isspace c)) [
  | inl e ↦ rw e (strip_ws_start-EndsBlack cs (EndsBlack-tail c cs h))
  | inr e ↦ rw e h
]

-- Both ends stripped: the text makes up the whole with white space on either side, and it neither
-- begins nor ends with white space.
pub strip_ws_both-EndsBlack :
    (s : List ℕ)
    → ((strip_ws_both s).0 ++ (strip_ws_both s).1 ++ (strip_ws_both s).2 ≡ s)
      × AllSpace (strip_ws_both s).0
      × AllSpace (strip_ws_both s).2
      × StartsBlack (strip_ws_both s).1
      × EndsBlack (strip_ws_both s).1
strip_ws_both-EndsBlack s =
    let (ends, trail) = strip_ws_end-EndsBlack s in
    let (lead, starts) = strip_ws_start-AllSpace (strip_ws_end s).0 in
    (
      strip_ws_both_lem s,
      unfold strip_ws_both in lead,
      unfold strip_ws_both in trail,
      unfold strip_ws_both in starts,
      unfold strip_ws_both in strip_ws_start-EndsBlack (strip_ws_end s).0 ends,
    )

-- Small letters stay: the function may be applied to a text again.
pub convert_to_lowercase_idem :
    (s : List ℕ) → convert_to_lowercase (convert_to_lowercase s) ≡ convert_to_lowercase s
unfolding convert_to_lowercase lower
convert_to_lowercase_idem [] = refl
convert_to_lowercase_idem (c ∷ cs) = ground (arith, convert_to_lowercase_idem cs)
