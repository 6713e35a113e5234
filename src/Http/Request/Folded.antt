-- ===== src/Http/Request/Folded.antt =====
-- The loop over the headers against a description of what it reads: headers of several lines, each
-- of which ends with CR LF or with LF alone, and an empty line behind them.
use mathlib.Core.List.{append_assoc}
use mathlib.Core.Path.{fun_ext}
use femc_driver.Prelude.{
  ℕ, suc, ◌+◌, ◌-◌, ◌≤◌, ◌<◌, ◌≡◌, ◌≢◌, refl, ap, sym, ◌∙◌, Bool, true, false, List, [], ◌∷◌, ◌++◌,
  arith, length, drop, get_or, All, if-no, if-yes, length-append,
}
use femc_driver.Http.{
  Bytes, content_not_read, World, Out, Step, Done, bind, ◌>>◌, set_buffer, set_progress,
}
use femc_driver.Http.Header.{parse_header}
use femc_driver.Http.Text.{split_at, drop_last_if, is_blank}
use femc_driver.Http.Request.{header_loop, line_sought, line_found, line_read, Round, read_headers}
use femc_driver.Http.Request.Lines.{
  cr_of, eol, split_at-eol, ends-append, without_cr, head_of, skip_blanks-line, drop-append,
}

-- A line that goes on with the header before it, behind one or more spaces and tabs.
pub record Fold : Type 0 where
  pub first : ℕ
  pub blanks : Bytes
  pub text : Bytes
  pub cr : Bool

pub record HeaderLines : Type 0 where
  pub text : Bytes
  pub cr : Bool
  pub folds : List Fold

abbrev pub print_folds : List Fold → Bytes → Bytes
print_folds [] rest = rest
print_folds (f ∷ fs) rest = f.first ∷ (f.blanks ++ (f.text ++ (eol f.cr ++ print_folds fs rest)))

-- The headers as they stand in the buffer, and what stands behind them.
abbrev pub print_headers : List HeaderLines → Bytes → Bytes
print_headers [] rest = rest
print_headers (h ∷ hs) rest = h.text ++ (eol h.cr ++ print_folds h.folds (print_headers hs rest))

-- The lines of a header in one: a space stands for the end of a line and the blanks behind it.
abbrev pub join_folds : Bytes → List Fold → Bytes
join_folds line [] = line
join_folds line (f ∷ fs) = join_folds ((line ++ b' ' ∷ []) ++ f.text) fs

abbrev pub last_cr : Bool → List Fold → Bool
last_cr cr [] = cr
last_cr cr (f ∷ fs) = last_cr f.cr fs

-- A text inside a line, which does not begin with a blank and does not end with a CR.
pub record IsText (t : Bytes) : Type 0 where
  pub no_newline : All (λ c. c ≢ 10) t
  pub starts : is_blank (get_or t 0 0) ≡ false
  pub ends : drop_last_if 13 t ≡ t

pub record IsFold (f : Fold) : Type 0 where
  pub first_blank : is_blank f.first ≡ true
  pub all_blank : All (λ c. is_blank c ≡ true) f.blanks
  pub text_lem : IsText f.text

pub record IsHeader (h : HeaderLines) : Type 0 where
  pub not_empty : 0 < length h.text
  pub text_lem : IsText h.text
  pub folds_lem : All IsFold h.folds

module _ {C : Type 0} where
  -- Each header in turn, joined, until one is refused; then the empty line.
  abbrev pub read_each : List HeaderLines → Bool → Bytes → Step C Done
  read_each [] cr rest = do set_buffer rest; set_progress content_not_read
  read_each (h ∷ hs) cr rest =
      let line = join_folds h.text h.folds in
      let ending = eol (last_cr h.cr h.folds) in
      let after = print_headers hs (eol cr ++ rest) in
      do
        set_buffer (line ++ (ending ++ after))
        parse_header line ending after
        read_each hs cr rest

-- The rounds that the lines of the headers take.
abbrev lines_of : List HeaderLines → ℕ
lines_of [] = 0
lines_of (h ∷ hs) = suc (length h.folds + lines_of hs)

-- What stands behind a header begins with a byte that is not blank.
after_head :
    (hs : List HeaderLines) (cr : Bool) (rest : Bytes)
    → All IsHeader hs
    → (x : ℕ) × (r : Bytes) × (print_headers hs (eol cr ++ rest) ≡ x ∷ r) × (is_blank x ≡ false)
after_head [] cr rest h = head_of [] cr rest (unfold is_blank in refl)
after_head (h ∷ hs) cr rest (is, _) =
    head_of h.text h.cr (print_folds h.folds (print_headers hs (eol cr ++ rest))) is.text_lem.starts

module _ {C : Type 0} where
  line_found-cons :
      (next : Round C) (line ending rest : Bytes) (w : World C)
      → 0 < length line
      → line_found next line ending rest w ≡ line_read next line ending rest w
  unfolding line_found
  line_found-cons next [] ending rest w h = absurd (omega arith)
  line_found-cons next (c ∷ cs) ending rest w h = refl

  -- One line of the loop.
  line_step :
      (fuel : ℕ) (held t : Bytes) (cr : Bool) (rest : Bytes) (w : World C)
      → drop_last_if 13 held ≡ held
      → All (λ c. c ≢ 10) t
      → drop_last_if 13 t ≡ t
      → header_loop (suc fuel) held (t ++ (eol cr ++ rest)) w
        ≡ line_found
            (header_loop fuel)
            (held ++ t)
            (eol cr)
            rest
            (record w { buffer = (held ++ t) ++ (eol cr ++ rest) })
  unfolding header_loop line_sought
  line_step fuel held t cr rest w eh lacks et =
      let w1 : World C = record w { buffer = held ++ (t ++ (eol cr ++ rest)) } in
      let line_eq = without_cr held t cr eh et in
      let end_eq : drop (length (held ++ t)) (held ++ (t ++ cr_of cr)) ≡ cr_of cr =
        ap (drop (length (held ++ t))) (sym (append_assoc held t (cr_of cr)))
        ∙ drop-append (held ++ t) (cr_of cr) in
      ap (λ r. line_sought (header_loop fuel) held r w1) (split_at-eol t cr rest lacks)
      ∙ ap
          (λ (l : Bytes).
            line_found (header_loop fuel) l (drop (length l) (held ++ (t ++ cr_of cr)) ++ 10 ∷ [])
              rest w1)
          line_eq
      ∙ ap (λ (e : Bytes). line_found (header_loop fuel) (held ++ t) (e ++ 10 ∷ []) rest w1) end_eq
      ∙ ap
          (λ (b : Bytes).
            line_found (header_loop fuel) (held ++ t) (eol cr) rest (record w { buffer = b }))
          (sym (append_assoc held t (eol cr ++ rest)))

  -- A header whose lines are joined, and what comes behind it.
  abbrev parse_joined : ℕ → Bytes → Bytes → Bytes → World C → Out C Done
  parse_joined fuel line ending after w =
      bind (parse_header line ending after (record w { buffer = line ++ (ending ++ after) }))
        (λ _. header_loop fuel [] after)

  fold_loop :
      (fs : List Fold) (fuel : ℕ) (held t : Bytes) (cr : Bool) (b : ℕ) (bs : Bytes) (w : World C)
      → drop_last_if 13 held ≡ held
      → 0 < length (held ++ t)
      → IsText t
      → All IsFold fs
      → is_blank b ≡ false
      → header_loop (suc (length fs + fuel)) held (t ++ (eol cr ++ print_folds fs (b ∷ bs))) w
        ≡ parse_joined fuel (join_folds (held ++ t) fs) (eol (last_cr cr fs)) (b ∷ bs) w
  unfolding line_read drop_last_if
  fold_loop [] fuel held t cr b bs w eh full is fs_lem e =
      let w1 : World C = record w { buffer = (held ++ t) ++ (eol cr ++ b ∷ bs) } in
      ap (λ (n : ℕ). header_loop (suc n) held (t ++ (eol cr ++ b ∷ bs)) w) {x = 0 + fuel} {y = fuel}
        (omega arith)
      ∙ line_step fuel held t cr (b ∷ bs) w eh is.no_newline is.ends
      ∙ line_found-cons (header_loop fuel) (held ++ t) (eol cr) (b ∷ bs) w1 full
      ∙ ap (λ (f : Step C Done). f w1) (if-no (is_blank b) _ e)
  fold_loop (f ∷ fs) fuel held t cr b bs w eh full is (is_f, fs_lem) e =
      let rest = f.text ++ (eol f.cr ++ print_folds fs (b ∷ bs)) in
      let n = suc (length fs + fuel) in
      let line = held ++ t in
      let w1 : World C = record w { buffer = line ++ (eol cr ++ f.first ∷ (f.blanks ++ rest)) } in
      ap (λ (k : ℕ). header_loop (suc k) held (t ++ (eol cr ++ f.first ∷ (f.blanks ++ rest))) w)
        {x = length (f ∷ fs) + fuel} {y = n} (omega arith)
      ∙ line_step n held t cr (f.first ∷ (f.blanks ++ rest)) w eh is.no_newline is.ends
      ∙ line_found-cons (header_loop n) line (eol cr) (f.first ∷ (f.blanks ++ rest)) w1 full
      ∙ ap (λ (g : Step C Done). g w1) (if-yes (is_blank f.first) _ is_f.first_blank)
      ∙ ap (λ (r : Bytes). header_loop n (line ++ b' ' ∷ []) r w1)
          (skip_blanks-line f.blanks f.text f.cr (print_folds fs (b ∷ bs)) is_f.all_blank
            is_f.text_lem.starts)
      ∙ fold_loop fs fuel (line ++ b' ' ∷ []) f.text f.cr b bs w1 (ends-append line b' ' [] refl)
          (omega (arith, length-append (line ++ b' ' ∷ []) f.text, length-append line (b' ' ∷ [])))
          is_f.text_lem fs_lem e

  empty_line :
      (fuel : ℕ) (cr : Bool) (rest : Bytes) (w : World C)
      → header_loop (suc fuel) [] (eol cr ++ rest) w ≡ read_each [] cr rest w
  unfolding header_loop line_sought line_found split_at drop_last_if
  empty_line fuel true rest w = refl
  empty_line fuel false rest w = refl

  headers_loop :
      (hs : List HeaderLines) (fuel : ℕ) (cr : Bool) (rest : Bytes) (w : World C)
      → All IsHeader hs
      → header_loop (lines_of hs + suc fuel) [] (print_headers hs (eol cr ++ rest)) w
        ≡ read_each hs cr rest w
  headers_loop [] fuel cr rest w h =
      ap (λ (n : ℕ). header_loop n [] (eol cr ++ rest) w) {x = 0 + suc fuel} {y = suc fuel}
        (omega arith)
      ∙ empty_line fuel cr rest w
  headers_loop (h ∷ hs) fuel cr rest w (is, hs_lem) =
      let after = print_headers hs (eol cr ++ rest) in
      let (x, r, eq, not_blank) = after_head hs cr rest hs_lem in
      let line = join_folds h.text h.folds in
      let ending = eol (last_cr h.cr h.folds) in
      let n = lines_of hs + suc fuel in
      let w1 : World C = record w { buffer = line ++ (ending ++ after) } in
      ap (λ (k : ℕ). header_loop k [] (h.text ++ (eol h.cr ++ print_folds h.folds after)) w)
        {x = lines_of (h ∷ hs) + suc fuel} {y = suc (length h.folds + n)} (omega arith)
      ∙ rw eq (
          fold_loop h.folds n [] h.text h.cr x r w (unfold drop_last_if in refl) is.not_empty
            is.text_lem is.folds_lem not_blank)
      ∙ ap (λ (f : Done → Step C Done). bind (parse_header line ending after w1) f)
          (fun_ext (λ _. fun_ext (λ w'. headers_loop hs fuel cr rest w' hs_lem)))

length-print_folds :
    (fs : List Fold) (rest : Bytes) → length fs + length rest ≤ length (print_folds fs rest)
length-print_folds [] rest = omega arith
length-print_folds (f ∷ fs) rest =
    let more = print_folds fs rest in
    omega (
      arith,
      length-print_folds fs rest,
      length-append f.blanks (f.text ++ (eol f.cr ++ more)),
      length-append f.text (eol f.cr ++ more),
      length-append (eol f.cr) more,
    )

length-print_headers :
    (hs : List HeaderLines) (rest : Bytes)
    → lines_of hs + length rest ≤ length (print_headers hs rest)
length-print_headers [] rest = omega arith
length-print_headers (h ∷ hs) rest =
    let more = print_headers hs rest in
    omega (
      arith,
      length-print_headers hs rest,
      length-print_folds h.folds more,
      length-append h.text (eol h.cr ++ print_folds h.folds more),
      length-append (eol h.cr) (print_folds h.folds more),
      length-append (cr_of h.cr) (10 ∷ []),
    )

module _ {C : Type 0} where
  -- Where the buffer holds headers, each of one line or of several, and an empty line, the loop gives
  -- each header, joined to one line, to `fdu_http_parse_header` with the rest of the buffer behind
  -- it, until one is refused, and otherwise ends behind the empty line. A line may end with CR LF or
  -- with LF alone; its text does not begin with a blank or end with a CR.
  pub read_headers-each :
      (hs : List HeaderLines) (cr : Bool) (rest : Bytes) (w : World C)
      → All IsHeader hs
      → w.buffer ≡ print_headers hs (eol cr ++ rest)
      → read_headers w ≡ read_each hs cr rest w
  unfolding read_headers
  read_headers-each hs cr rest w h e =
      let n = length w.buffer in
      let enough : lines_of hs ≤ n =
        omega (arith, ap length e, length-print_headers hs (eol cr ++ rest)) in
      ap (λ (b : Bytes). header_loop (n + 1) [] b w) e
      ∙ ap (λ (k : ℕ). header_loop k [] (print_headers hs (eol cr ++ rest)) w) {x = n + 1}
          {y = lines_of hs + suc (n - lines_of hs)} (omega arith)
      ∙ headers_loop hs (n - lines_of hs) cr rest w h
