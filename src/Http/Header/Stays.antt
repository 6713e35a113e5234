-- ===== src/Http/Header/Stays.antt =====
-- `fdu_http_parse_header` leaves the progress of the parser and the length of the buffer, and never
-- accepts a content length.
use femc_driver.Prelude.{
  ℕ, zero, suc, ◌+◌, ◌≤◌, ◌<◌, ◌≡◌, refl, ap, ◌∙◌, false, ◌&&◌, Option, none, some, [], ◌∷◌, ◌++◌,
  arith, length, get_or, take, drop, tail, ltb, leb, ◌==◌, if◌then◌else◌, if-case, length-append,
}
use femc_driver.Http.{
  Bytes, content_type_size, Progress, World, Step, Done, MessageState, set_buffer, require, ◌>>◌,
}
use femc_driver.Http.Holds.{
  Ends, after-require, after-Stays, Holds, Stays, IsBare, Holds-buffer, refuse-Ends, call-Stays,
  change_message-Stays,
}
use femc_driver.Http.Text.{split_at, strip_ws_both, convert_to_lowercase, str_eq, isdigit}
use femc_driver.Http.Text.Lengths.{
  IsCut, split_at-IsCut, strip_ws_both_lem, length-convert_to_lowercase,
}
use femc_driver.Http.Header.{
  Parts, edited, cut_parts, check_digits, set_length, strtoul, content_length_header,
  copy_content_type, content_type_header, report_header, known_header, named_header, split_header,
  parse_header,
}

length-take-drop :
    (k : ℕ) (xs ys : Bytes) → k ≤ length xs → length xs ≡ length (take k xs) + length (drop k xs)
length-take-drop zero xs ys h = omega arith
length-take-drop (suc k) [] ys h = absurd (omega arith)
length-take-drop (suc k) (x ∷ xs) ys h = omega (arith, length-take-drop k xs ys (omega arith))

-- A text that is shorter than the old one is put over it.
length-over :
    (k : ℕ) (xs old : Bytes)
    → k ≤ length xs
    → k ≤ length old
    → length (take k xs ++ drop k old) ≡ length old
length-over zero xs old h l = refl
length-over (suc k) [] old h l = absurd (omega arith)
length-over (suc k) (x ∷ xs) [] h l = absurd (omega arith)
length-over (suc k) (x ∷ xs) (y ∷ old) h l =
    omega (arith, length-over k xs old (omega arith) (omega arith))

get_or-over :
    (k i : ℕ) (xs old : Bytes) (d : ℕ)
    → k ≤ length xs
    → k ≤ i
    → i < length old
    → get_or (take k xs ++ drop k old) i d ≡ get_or old i d
get_or-over zero i xs old d h l m = refl
get_or-over (suc k) i [] old d h l m = absurd (omega arith)
get_or-over (suc k) i (x ∷ xs) [] d h l m = absurd (omega arith)
get_or-over (suc k) zero (x ∷ xs) (y ∷ old) d h l m = absurd (omega arith)
get_or-over (suc k) (suc i) (x ∷ xs) (y ∷ old) d h l m =
    get_or-over k i xs old d (omega arith) (omega arith) (omega arith)

copied : (content : Bytes) → ℕ
copied content = if leb content_type_size (length content) then 63 else length content

copied_small : (content : Bytes) → (copied content ≤ length content) × (copied content ≤ 63)
unfolding copied
copied_small content = ground arith

copy-IsBare :
    (content : Bytes) (m : MessageState)
    → IsBare m
    → IsBare (record m { content_type = copy_content_type content m.content_type })
unfolding copy_content_type copied
copy-IsBare content m v =
    let (fits, small) = copied_small content in
    record {
      no_content = v.no_content;
      size =
          length-over (copied content) content m.content_type fits (omega (arith, v.size)) ∙ v.size;
      terminated =
          get_or-over (copied content) 63 content m.content_type 1 fits small
            (omega (arith, v.size))
          ∙ v.terminated;
    }

-- The test of the loop reads the zero behind the content.
get_or-length : (content : Bytes) → get_or (content ++ 0 ∷ []) (length content) 0 ≡ 0
get_or-length [] = refl
get_or-length (c ∷ cs) = get_or-length cs

pub check_digits-false : (i : ℕ) (content : Bytes) → 0 < i → check_digits i content ≡ false
unfolding check_digits isdigit
check_digits-false zero content h = absurd (omega arith)
check_digits-false (suc i) content h = rw (get_or-length content) refl

length-tail : (xs ys : Bytes) → 0 < length ys → length (tail (xs ++ ys)) + 1 ≡ length xs + length ys
length-tail [] [] h = absurd (omega arith)
length-tail [] (y ∷ ys) h = omega arith
length-tail (x ∷ xs) ys h = omega (arith, length-append xs ys)

-- The two zeros stand on bytes of the buffer, so that it keeps its length.
length-edited :
    (q : Parts)
    → 0 < length q.ending
    → length (edited q)
      ≡ length q.name_lead
        + length q.name
        + length q.name_trail
        + 1
        + length q.content_lead
        + length q.content
        + length q.content_trail
        + length q.ending
unfolding edited
length-edited q h =
    let inner = q.content_lead ++ (q.content ++ 0 ∷ tail (q.content_trail ++ q.ending)) in
    omega (
      arith,
      length-append q.name_lead (q.name ++ 0 ∷ tail (q.name_trail ++ b':' ∷ inner)),
      length-append q.name (0 ∷ tail (q.name_trail ++ b':' ∷ inner)),
      length-tail q.name_trail (b':' ∷ inner) (omega arith),
      length-append q.content_lead (q.content ++ 0 ∷ tail (q.content_trail ++ q.ending)),
      length-append q.content (0 ∷ tail (q.content_trail ++ q.ending)),
      length-tail q.content_trail q.ending h,
    )

length-strip_ws_both :
    (s : Bytes)
    → length s
      ≡ length (strip_ws_both s).0 + length (strip_ws_both s).1 + length (strip_ws_both s).2
length-strip_ws_both s = omega (
  arith,
  ap length (strip_ws_both_lem s),
  length-append ((strip_ws_both s).0 ++ (strip_ws_both s).1) (strip_ws_both s).2,
  length-append (strip_ws_both s).0 (strip_ws_both s).1,
)

length-cut_parts :
    (before after ending : Bytes)
    → 0 < length ending
    → length (edited (cut_parts before after ending))
      ≡ length before + 1 + length after + length ending
unfolding cut_parts
length-cut_parts before after ending h = omega (
  arith,
  length-edited (cut_parts before after ending) h,
  length-strip_ws_both before,
  length-strip_ws_both after,
)

-- Only the content's letters are changed behind that.
edited_short :
    (q : Parts) (rest : Bytes) (n : ℕ)
    → 0 < length q.ending
    → length (edited q) + length rest ≤ n
    → length (edited (record q { content = convert_to_lowercase q.content }) ++ rest) ≤ n
edited_short q rest n h short =
    let q' : Parts = record q { content = convert_to_lowercase q.content } in
    omega (
      arith,
      length-append (edited q') rest,
      length-edited q h,
      length-edited q' h,
      length-convert_to_lowercase q.content,
    )

module _ {C : Type 0} (p : Progress) (n : ℕ) where
  -- No content length passes.
  pub content_length_header-Ends :
      (P : Done → World C → Type 0) (content : Bytes) (w : World C)
      → Holds p n w
      → Ends (Holds p n) P (content_length_header content w)
  unfolding content_length_header
  content_length_header-Ends P content w v =
      after-require p n P
        (do
          require (check_digits (length content) content) "Corrupted \"Content-length\" header" 400
          set_length (strtoul content))
        (ltb 0 (length content) && ltb (length content) 20) "Corrupted \"Content-length\" header"
        400 w v
        λ w' v' h.
          after-require p n P (set_length (strtoul content)) (check_digits (length content) content)
            "Corrupted \"Content-length\" header" 400 w' v'
            λ w2 v2 passes.
              absurd (cc (passes, check_digits-false (length content) content (ground arith)))

  content_type_header-Stays :
      (content : Bytes) (w : World C) → Holds p n w → Stays p n (content_type_header content w)
  unfolding content_type_header
  content_type_header-Stays content w v =
      change_message-Stays p n
        (λ m. record m { content_type = copy_content_type content m.content_type }) w
        (copy-IsBare content w.parser.message_state) v

  report_header-Stays : (q : Parts) (w : World C) → Holds p n w → Stays p n (report_header q w)
  unfolding report_header
  report_header-Stays q w v = call-Stays p n _ w v

  known_header-Stays :
      (q : Parts) (rest : Bytes) (w : World C)
      → Holds p n w
      → 0 < length q.ending
      → length (edited q) + length rest ≤ n
      → Stays p n (known_header q rest w)
  unfolding known_header
  known_header-Stays q rest w v full short =
      if-case (λ (f : Step C Done). Stays p n (f w)) (str_eq q.name "connection")
        (λ _.
          report_header-Stays (record q { content = convert_to_lowercase q.content }) _
            (record {
              stands = v.stands;
              unloaded = v.unloaded;
              bare = record {
                no_content = v.bare.no_content;
                size = v.bare.size;
                terminated = v.bare.terminated;
              };
              short = edited_short q rest n full short;
            }))
        λ _.
          if-case (λ (f : Step C Done). Stays p n (f w)) (str_eq q.name "content-length")
            (λ _.
              after-Stays p n (λ _. Holds p n) (report_header q) (content_length_header q.content w)
                (content_length_header-Ends (λ _. Holds p n) q.content w v) (report_header-Stays q))
            λ _.
              if-case (λ (f : Step C Done). Stays p n (f w)) (str_eq q.name "content-type")
                (λ _.
                  after-Stays p n (λ _. Holds p n) (report_header q)
                    (content_type_header q.content w) (content_type_header-Stays q.content w v)
                    (report_header-Stays q))
                (λ _. report_header-Stays q w v)

  named_header-Stays :
      (q : Parts) (rest : Bytes) (w : World C)
      → Holds p n w
      → 0 < length q.ending
      → length (edited q) + length rest ≤ n
      → Stays p n (named_header q rest w)
  unfolding named_header
  named_header-Stays q rest w v full short =
      let q' : Parts = record q { name = convert_to_lowercase q.name } in
      let short' : length (edited q') + length rest ≤ n =
        omega (
          arith,
          length-edited q full,
          length-edited q' full,
          length-convert_to_lowercase q.name,
        ) in
      after-require p n (λ _. Holds p n)
        (do
          set_buffer (edited q' ++ rest)
          if get_or q'.name 0 0 == b'c' then known_header q' rest else report_header q')
        (ltb 0 (length q.name)) "Corrupted header line" 400 w v
        λ w' v' _.
          let w2 : World C = record w' { buffer = edited q' ++ rest } in
          let v2 : Holds p n w2 =
            Holds-buffer p n w' (edited q' ++ rest) (omega (arith, length-append (edited q') rest))
              v' in
          if-case (λ (f : Step C Done). Stays p n (f w2)) (get_or q'.name 0 0 == b'c')
            (λ _. known_header-Stays q' rest w2 v2 full short') (λ _. report_header-Stays q' w2 v2)

  split_header-Stays :
      (line ending rest : Bytes) (r : Option (Bytes × Bytes)) (w : World C)
      → IsCut b':' line r
      → Holds p n w
      → 0 < length ending
      → length line + length ending + length rest ≤ n
      → Stays p n (split_header ending rest r w)
  unfolding split_header
  split_header-Stays line ending rest none w _ v full short =
      refuse-Ends p n (λ _. Holds p n) "Corrupted header line" 400 w v
  split_header-Stays line ending rest (some (before, after)) w is v full short =
      named_header-Stays (cut_parts before after ending) rest w v full (
        omega (
          arith,
          length-cut_parts before after ending full,
          ap length is,
          length-append before (b':' ∷ after),
        ))

  pub parse_header-Stays :
      (line ending rest : Bytes) (w : World C)
      → Holds p n w
      → 0 < length ending
      → length line + length ending + length rest ≤ n
      → Stays p n (parse_header line ending rest w)
  unfolding parse_header
  parse_header-Stays line ending rest w v full short =
      split_header-Stays line ending rest (split_at b':' line) w (split_at-IsCut b':' line) v full
        short
