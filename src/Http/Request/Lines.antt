-- ===== src/Http/Request/Lines.antt =====
-- The lines of a request in the buffer: where one ends, and which blanks and CRs are taken away.
use mathlib.Core.List.{append_assoc, append-nil}
use femc_driver.Prelude.{
  ℕ, ◌≡◌, ◌≢◌, refl, ap, sym, ◌∙◌, Bool, true, false, some, [], ◌∷◌, ◌++◌, length, drop, get_or,
  All, ◌==◌, if-no, if-yes, ==-false,
}
use femc_driver.Http.{Bytes}
use femc_driver.Http.Text.{split_at, put_front, drop_last_if, is_blank, skip_blanks}

abbrev pub cr_of : Bool → Bytes
cr_of true = 13 ∷ []
cr_of false = []

-- The end of a line.
abbrev pub eol : Bool → Bytes
eol cr = cr_of cr ++ 10 ∷ []

pub split_at-eol :
    (t : Bytes) (cr : Bool) (rest : Bytes)
    → All (λ c. c ≢ 10) t
    → split_at 10 (t ++ (eol cr ++ rest)) ≡ some (t ++ cr_of cr, rest)
unfolding split_at put_front
split_at-eol [] true rest h = refl
split_at-eol [] false rest h = refl
split_at-eol (c ∷ t) cr rest (ne, h) =
    if-no (c == 10) (some ([], t ++ (eol cr ++ rest))) (==-false c 10 ne)
    ∙ ap (put_front c) (split_at-eol t cr rest h)

drop_last_cr : (t : Bytes) → drop_last_if 13 (t ++ 13 ∷ []) ≡ t
unfolding drop_last_if
drop_last_cr [] = refl
drop_last_cr (x ∷ []) = refl
drop_last_cr (x ∷ y ∷ ys) = ap (◌∷◌ x) (drop_last_cr (y ∷ ys))

-- What is put in front of a text changes nothing about its end.
pub ends-append :
    (h : Bytes) (x : ℕ) (t : Bytes)
    → drop_last_if 13 (x ∷ t) ≡ x ∷ t
    → drop_last_if 13 (h ++ x ∷ t) ≡ h ++ x ∷ t
unfolding drop_last_if
ends-append [] x t e = e
ends-append (y ∷ []) x t e = ap (◌∷◌ y) e
ends-append (y ∷ z ∷ h) x t e = ap (◌∷◌ y) (ends-append (z ∷ h) x t e)

ends-held :
    (h t : Bytes)
    → drop_last_if 13 h ≡ h
    → drop_last_if 13 t ≡ t
    → drop_last_if 13 (h ++ t) ≡ h ++ t
ends-held h [] eh et = rw (append-nil h) eh
ends-held h (x ∷ t) eh et = ends-append h x t et

pub drop-append : (s t : Bytes) → drop (length s) (s ++ t) ≡ t
drop-append [] t = refl
drop-append (x ∷ s) t = drop-append s t

skip_blanks-text :
    (bs : Bytes) (x : ℕ) (rest : Bytes)
    → All (λ c. is_blank c ≡ true) bs
    → is_blank x ≡ false
    → skip_blanks (bs ++ x ∷ rest) ≡ x ∷ rest
unfolding skip_blanks
skip_blanks-text [] x rest h e = if-no (is_blank x) (skip_blanks rest) e
skip_blanks-text (b ∷ bs) x rest (hb, h) e =
    if-yes (is_blank b) (b ∷ (bs ++ x ∷ rest)) hb ∙ skip_blanks-text bs x rest h e

-- The first byte of a text with the end of its line.
pub head_of :
    (t : Bytes) (cr : Bool) (rest : Bytes)
    → is_blank (get_or t 0 0) ≡ false
    → (x : ℕ) × (r : Bytes) × (t ++ (eol cr ++ rest) ≡ x ∷ r) × (is_blank x ≡ false)
unfolding is_blank
head_of [] true rest e = (13, 10 ∷ rest, refl, refl)
head_of [] false rest e = (10, rest, refl, refl)
head_of (c ∷ t) cr rest e = (c, t ++ (eol cr ++ rest), refl, e)

pub skip_blanks-line :
    (bs t : Bytes) (cr : Bool) (rest : Bytes)
    → All (λ c. is_blank c ≡ true) bs
    → is_blank (get_or t 0 0) ≡ false
    → skip_blanks (bs ++ (t ++ (eol cr ++ rest))) ≡ t ++ (eol cr ++ rest)
skip_blanks-line bs t cr rest h e =
    let (x, r, is, not_blank) = head_of t cr rest e in rw is (skip_blanks-text bs x r h not_blank)

pub without_cr :
    (held t : Bytes) (cr : Bool)
    → drop_last_if 13 held ≡ held
    → drop_last_if 13 t ≡ t
    → drop_last_if 13 (held ++ (t ++ cr_of cr)) ≡ held ++ t
without_cr held t true eh et =
    ap (drop_last_if 13) (sym (append_assoc held t (13 ∷ []))) ∙ drop_last_cr (held ++ t)
without_cr held t false eh et = rw (append-nil t) (ends-held held t eh et)
