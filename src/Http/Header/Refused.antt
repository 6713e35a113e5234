-- ===== src/Http/Header/Refused.antt =====
-- A Content-length header is refused, whatever its content: the loop over its digits tests the zero
-- behind them.
use femc_driver.Prelude.{
  ◌<◌, ◌≡◌, ◌≢◌, refl, ap, ◌∙◌, ◌&&◌, ◌∷◌, ◌++◌, String, arith, length, get_or, All, ltb, ltb-true,
  ◌==◌, if◌then◌else◌, if-yes, if-no, Bool-cases, inl, inr,
}
use femc_driver.Http.{Bytes, World, Step, Done, bind, ◌>>◌, set_buffer, require, refuse}
use femc_driver.Http.Text.{codes, str_eq, bytes_eq, c_string, convert_to_lowercase, strip_ws_both}
use femc_driver.Http.Text.Lengths.{split_at-found, length-convert_to_lowercase}
use femc_driver.Http.Header.{
  Parts, edited, cut_parts, check_digits, content_length_header, report_header, known_header,
  named_header, split_header, parse_header, set_length, strtoul,
}
use femc_driver.Http.Header.Stays.{check_digits-false}

abbrev pub corrupted_length : String
corrupted_length = "Corrupted \"Content-length\" header"

module _ {C : Type 0} where
  content_length_header-refused :
      (content : Bytes) (w : World C)
      → content_length_header content w ≡ refuse corrupted_length 400 w
  unfolding content_length_header require
  content_length_header-refused content w =
      elim (Bool-cases (ltb 0 (length content) && ltb (length content) 20)) [
        | inl e ↦
            ap
              (λ b. bind (require b corrupted_length 400 w) (λ _. do
                require (check_digits (length content) content) corrupted_length 400
                set_length (strtoul content)))
              e
            ∙ ap (λ b. bind (require b corrupted_length 400 w) (λ _. set_length (strtoul content)))
                (check_digits-false (length content) content (ground arith))
            ∙ (unfold refuse in refl)
        | inr e ↦
            ap
              (λ b. bind (require b corrupted_length 400 w) (λ _. do
                require (check_digits (length content) content) corrupted_length 400
                set_length (strtoul content)))
              e
            ∙ (unfold refuse in refl)
      ]

  known_header-refused :
      (q : Parts) (rest : Bytes) (w : World C)
      → q.name ≡ codes "content-length"
      → known_header q rest w ≡ refuse corrupted_length 400 w
  unfolding known_header str_eq bytes_eq c_string
  known_header-refused q rest w e =
      ap (λ (f : Step C Done). f w)
        (if-no (str_eq q.name "connection") _ (ap (λ n. str_eq n "connection") e)
          ∙ if-yes (str_eq q.name "content-length") _ (ap (λ n. str_eq n "content-length") e))
      ∙ ap (λ r. bind r (λ _. report_header q)) (content_length_header-refused q.content w)
      ∙ (unfold refuse in refl)

  named_header-refused :
      (q : Parts) (rest : Bytes) (w : World C)
      → convert_to_lowercase q.name ≡ codes "content-length"
      → named_header q rest w
        ≡ refuse corrupted_length 400
            (record w { buffer = edited (record q { name = convert_to_lowercase q.name }) ++ rest })
  unfolding named_header require
  named_header-refused q rest w e =
      let q' : Parts = record q { name = convert_to_lowercase q.name } in
      let w1 : World C = record w { buffer = edited q' ++ rest } in
      let long : 0 < length q.name =
        omega (arith, length-convert_to_lowercase q.name, ap length e) in
      ap
        (λ b. bind (require b "Corrupted header line" 400 w) (λ _. do
          set_buffer (edited q' ++ rest)
          if get_or q'.name 0 0 == b'c' then known_header q' rest else report_header q'))
        (ltb-true 0 (length q.name) long)
      ∙ ap (λ (f : Step C Done). f w1)
          (if-yes (get_or q'.name 0 0 == b'c') (report_header q')
            (ap (λ (n : Bytes). get_or n 0 0 == b'c') e))
      ∙ known_header-refused q' rest w1 e

  -- A header named Content-length, in letters of any case and with white space round the name, is
  -- refused with status 400, whatever stands behind the colon.
  pub parse_header-refused :
      (before after ending rest : Bytes) (w : World C)
      → All (λ c. c ≢ b':') before
      → convert_to_lowercase (strip_ws_both before).1 ≡ codes "content-length"
      → let q : Parts = cut_parts before after ending in
        parse_header (before ++ b':' ∷ after) ending rest w
        ≡ refuse corrupted_length 400
            (record w { buffer = edited (record q { name = convert_to_lowercase q.name }) ++ rest })
  unfolding parse_header split_header cut_parts
  parse_header-refused before after ending rest w h e =
      ap (λ r. split_header ending rest r w) (split_at-found b':' before after h)
      ∙ named_header-refused (cut_parts before after ending) rest w e
