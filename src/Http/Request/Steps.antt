-- ===== src/Http/Request/Steps.antt =====
-- The request line and the loop over the headers: each leaves the parser at the next progress, or
-- where it is. The loop has fuel for every byte.
use femc_driver.Prelude.{
  ℕ, zero, suc, ◌+◌, ◌≤◌, ◌<◌, ◌≡◌, refl, ap, ◌∙◌, not, Option, none, some, [], ◌∷◌, ◌++◌, arith,
  length, drop, ltb, ◌==◌, if-case, length-append,
}
use femc_driver.Http.{
  Bytes, Progress, headers, content_not_read, Method, Version, World, Step, Done, ◌>>◌,
  MessageState, change_message, set_progress, set_buffer, require,
}
use femc_driver.Http.Holds.{
  Ends, after-require, after-Stays, Holds, Stays, IsBare, Holds-buffer, refuse-Ends, underflow-Ends,
  call-Stays, change_message-Stays,
}
use femc_driver.Http.Header.{parse_header}
use femc_driver.Http.Header.Stays.{parse_header-Stays}
use femc_driver.Http.Text.{split_at, drop_last_if, is_blank, skip_blanks}
use femc_driver.Http.Text.Lengths.{IsCut, split_at-IsCut, length-drop_rest, length-skip_blanks}
use femc_driver.Http.Request.{
  known_version, known_method, closes, three_parts, version_call, url_call, with_version,
  with_method, with_parts, with_line, read_request_line, Round, line_read, line_found, line_sought,
  header_loop, read_headers,
}

IsBare-same :
    (m m' : MessageState)
    → m'.content_length ≡ m.content_length
    → m'.content_type ≡ m.content_type
    → IsBare m
    → IsBare m'
IsBare-same m m' e t v = record {
  no_content = e ∙ v.no_content;
  size = ap length t ∙ v.size;
  terminated = rw t v.terminated;
}

module _ {C : Type 0} where
  Holds-progress :
      (p q : Progress) (n : ℕ) (w : World C)
      → Holds p n w
      → Ends (Holds p n) (λ _. Holds q n) (set_progress q w)
  Holds-progress p q n w v = record {
    stands = refl;
    unloaded = v.unloaded;
    bare = v.bare;
    short = v.short;
  }

  module _ (p : Progress) (n : ℕ) where
    with_version-Stays :
        (r : Option Version) (w : World C) → Holds p n w → Stays p n (with_version r w)
    unfolding with_version version_call
    with_version-Stays none w v = refuse-Ends p n _ "HTTP version not supported" 505 w v
    with_version-Stays (some x) w v =
        let w1 : World C = record w {
          parser = record w.parser {
            message_state = record w.parser.message_state { version = x };
          };
        } in
        after-Stays p n (λ _. Holds p n) (change_message (λ m. record m { closing = closes x }))
          (version_call x w1)
          (call-Stays p n _ w1 (
            change_message-Stays p n (λ m. record m { version = x }) w
              (λ b. IsBare-same _ _ refl refl b) v))
          (λ w2 v2.
            change_message-Stays p n (λ m. record m { closing = closes x }) w2
              (λ b. IsBare-same _ _ refl refl b) v2)

    with_method-Stays :
        (url u : Bytes) (r : Option Method) (w : World C)
        → Holds p n w
        → Stays p n (with_method url u r w)
    unfolding with_method url_call
    with_method-Stays url u none w v = refuse-Ends p n _ "Method not implemented" 501 w v
    with_method-Stays url u (some m) w v =
        let w1 : World C = record w {
          parser = record w.parser { message_state = record w.parser.message_state { method = m } };
        } in
        after-Stays p n (λ _. Holds p n)
          (do require (length u == 8) "Corrupted HTTP version" 400; with_version (known_version u))
          (url_call m url w1)
          (call-Stays p n _ w1 (
            change_message-Stays p n (λ s. record s { method = m }) w
              (λ b. IsBare-same _ _ refl refl b) v))
          λ w2 v2.
            after-require p n (λ _. Holds p n) (with_version (known_version u)) (length u == 8)
              "Corrupted HTTP version" 400 w2 v2
              (λ w3 v3 _. with_version-Stays (known_version u) w3 v3)

    with_parts-Stays :
        (r : Option (Bytes × Bytes × Bytes)) (w : World C)
        → Holds p n w
        → Stays p n (with_parts r w)
    unfolding with_parts
    with_parts-Stays none w v = refuse-Ends p n _ "Corrupted request line" 400 w v
    with_parts-Stays (some (m, url, u)) w v = with_method-Stays url u (known_method m) w v

  -- Behind the request line come the headers.
  abbrev pub Moves : Progress → Progress → ℕ → Step C Done → World C → Type 0
  Moves p q n f w = Ends (Holds p n) (λ _. Holds q n) (f w)

  with_line-Moves :
      (p : Progress) (n : ℕ) (r : Option (Bytes × Bytes)) (w : World C)
      → IsCut 10 w.buffer r
      → Holds p n w
      → Moves p headers n (with_line r) w
  unfolding with_line
  with_line-Moves p n none w is v = underflow-Ends p n _ w v
  with_line-Moves p n (some (line, rest)) w is v =
      after-require p n (λ _. Holds headers n)
        (do set_buffer rest; with_parts (three_parts (drop_last_if 13 line)); set_progress headers)
        (not (ltb (length line) 6)) "Too short request line" 400 w v
        λ w1 v1 _.
          after-Stays p n (λ _. Holds headers n) (set_progress headers)
            (with_parts (three_parts (drop_last_if 13 line)) (record w1 { buffer = rest }))
            (with_parts-Stays p n (three_parts (drop_last_if 13 line)) _ (
              Holds-buffer p n w1 rest
                (omega (arith, v.short, ap length is, length-append line (10 ∷ rest))) v1))
            (λ w2 v2. Holds-progress p headers n w2 v2)

  pub read_request_line-Moves :
      (p : Progress) (n : ℕ) (w : World C) → Holds p n w → Moves p headers n read_request_line w
  unfolding read_request_line
  read_request_line-Moves p n w v =
      with_line-Moves p n (split_at 10 w.buffer) w (split_at-IsCut 10 w.buffer) v

  module _ (n : ℕ) where
    -- A round of the loop that is given fewer bytes than its fuel.
    abbrev Rounds : ℕ → Round C → Type 0
    Rounds fuel next =
        (held ahead : Bytes) (w : World C)
        → length ahead < fuel
        → Holds headers n w
        → length held + length ahead ≤ n
        → Moves headers content_not_read n (next held ahead) w

    line_read-Moves :
        (fuel : ℕ) (next : Round C) (line ending rest : Bytes) (w : World C)
        → Rounds fuel next
        → length rest < fuel
        → 0 < length ending
        → Holds headers n w
        → length line + length ending + length rest ≤ n
        → Moves headers content_not_read n (line_read next line ending rest) w
    unfolding line_read
    line_read-Moves fuel next line ending [] w ih fits full v short = underflow-Ends headers n _ w v
    line_read-Moves fuel next line ending (b ∷ rest) w ih fits full v short =
        if-case (λ (f : Step C Done). Moves headers content_not_read n f w) (is_blank b)
          (λ _.
            ih (line ++ b' ' ∷ []) (skip_blanks rest) w (omega (arith, length-skip_blanks rest)) v
              (omega (arith, length-skip_blanks rest, length-append line (b' ' ∷ []))))
          λ _.
            after-Stays headers n (λ _. Holds content_not_read n) (next [] (b ∷ rest))
              (parse_header line ending (b ∷ rest) w)
              (parse_header-Stays headers n line ending (b ∷ rest) w v full short)
              (λ w' v'. ih [] (b ∷ rest) w' fits v' (omega arith))

    line_found-Moves :
        (fuel : ℕ) (next : Round C) (line ending rest : Bytes) (w : World C)
        → Rounds fuel next
        → length rest < fuel
        → 0 < length ending
        → Holds headers n w
        → length line + length ending + length rest ≤ n
        → Moves headers content_not_read n (line_found next line ending rest) w
    unfolding line_found
    line_found-Moves fuel next [] ending rest w ih fits full v short =
        Holds-progress headers content_not_read n (record w { buffer = rest })
          (Holds-buffer headers n w rest (omega arith) v)
    line_found-Moves fuel next (c ∷ cs) ending rest w ih fits full v short =
        line_read-Moves fuel next (c ∷ cs) ending rest w ih fits full v short

    line_sought-Moves :
        (fuel : ℕ) (next : Round C) (held ahead : Bytes) (r : Option (Bytes × Bytes)) (w : World C)
        → Rounds fuel next
        → IsCut 10 ahead r
        → length ahead < suc fuel
        → Holds headers n w
        → length held + length ahead ≤ n
        → Moves headers content_not_read n (line_sought next held r) w
    unfolding line_sought
    line_sought-Moves fuel next held ahead none w ih is fits v short =
        underflow-Ends headers n _ w v
    line_sought-Moves fuel next held ahead (some (before, rest)) w ih is fits v short =
        let raw = held ++ before in
        let line = drop_last_if 13 raw in
        let ending = drop (length line) raw ++ 10 ∷ [] in
        let whole : length ahead ≡ length before + suc (length rest) =
          omega (arith, ap length is, length-append before (10 ∷ rest)) in
        let ends : length ending ≡ length (drop (length line) raw) + 1 =
          length-append (drop (length line) raw) (10 ∷ []) in
        line_found-Moves fuel next line ending rest w ih (omega arith) (omega arith) v
          (omega (arith, length-drop_rest 13 raw, length-append held before))

    header_loop-Moves : (fuel : ℕ) → Rounds fuel (header_loop fuel)
    unfolding header_loop
    header_loop-Moves zero held ahead w fits v short = absurd (omega arith)
    header_loop-Moves (suc fuel) held ahead w fits v short =
        line_sought-Moves fuel (header_loop fuel) held ahead (split_at 10 ahead)
          (record w { buffer = held ++ ahead }) (header_loop-Moves fuel) (split_at-IsCut 10 ahead)
          fits
          (Holds-buffer headers n w (held ++ ahead) (omega (arith, length-append held ahead)) v)
          short

    pub read_headers-Moves :
        (w : World C) → Holds headers n w → Moves headers content_not_read n read_headers w
    unfolding read_headers
    read_headers-Moves w v =
        header_loop-Moves (length w.buffer + 1) [] w.buffer w (omega arith) v
          (omega (arith, v.short))
