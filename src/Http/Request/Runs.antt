-- ===== src/Http/Request/Runs.antt =====
-- Whole calls of `fdu_http_parse_request`: the invariant of the parser, and what a call returns.
use femc_driver.Prelude.{
  ℕ, ◌≤◌, ◌≡◌, ◌≢◌, refl, ap, ◌∙◌, sym, Bool, true, false, Option, none, some, [], ◌∷◌, arith,
  length, ==-true, tail, get_or,
}
use femc_driver.ErrorStack.{ErrorStack, push_context, fdu_context_http}
use femc_driver.Http.{
  Bytes, content_type_size, Progress, request_line, headers, content_not_read, reading_content,
  done, World, Parser, Ops, Out, went, stopped, starved, Step, Done, bind, underflow,
  clear_http_request_parser, init_http_request_parser,
}
use femc_driver.Http.Holds.{Ends, Holds, IsBare}
use femc_driver.Http.Request.{
  read_request_line, read_headers, await_content, from_content, from_headers, progress_steps, ended,
  parse_with, parse_request,
}
use femc_driver.Http.Request.Steps.{read_request_line-Moves, read_headers-Moves}

abbrev pub rank : Progress → ℕ
rank request_line = 0
rank headers = 1
rank content_not_read = 2
rank reading_content = 3
rank done = 4

-- What `fdu_init_http_request_parser` establishes, where the array for the content type ends with a
-- zero: no content is known of, the content type ends inside its array, and no content is read.
pub record IsSound {C : Type 0} (p : Parser C) : Type 0 where
  pub bare : IsBare p.message_state
  pub unloaded : p.parser_state.content_loaded ≡ 0
  pub not_reading : p.parser_state.progress ≢ reading_content

module _ {C : Type 0} (n : ℕ) where
  -- The parser has come to a progress that is not before a given one, and reads no content.
  abbrev Later : Progress → World C → Type 0
  Later p w = (q : Progress) × (rank p ≤ rank q) × (q ≢ reading_content) × Holds q n w

  -- Nothing but `false` is returned.
  abbrev Refuses : Progress → Out C Done → Type 0
  Refuses p r = Ends (Later p) (λ _ _. ⊥) r

  Refuses-sooner : (p q : Progress) (r : Out C Done) → rank p ≤ rank q → Refuses q r → Refuses p r
  Refuses-sooner p q (went a w) h e = e
  Refuses-sooner p q (stopped w) h (s, le, ne, v) = (s, omega arith, ne, v)
  Refuses-sooner p q starved h e = e

  Refuses-bind :
      (p q : Progress) (r : Out C Done) (f : Step C Done)
      → rank p ≤ rank q
      → p ≢ reading_content
      → Ends (Holds p n) (λ _. Holds q n) r
      → ((w : World C) → Holds q n w → Refuses q (f w))
      → Refuses p (bind r (λ _. f))
  Refuses-bind p q (went a w) f h ne v k = Refuses-sooner p q (f w) h (k w v)
  Refuses-bind p q (stopped w) f h ne v k = (p, omega arith, ne, v)
  Refuses-bind p q starved f h ne v k = v

  from_content-Refuses :
      (w : World C) → Holds content_not_read n w → Refuses content_not_read (from_content w)
  unfolding from_content await_content underflow
  from_content-Refuses w v =
      rw (==-true w.parser.message_state.content_length 0 v.bare.no_content) (
        done,
        omega arith,
        cc,
        record { stands = refl; unloaded = v.unloaded; bare = v.bare; short = v.short },
      )

  from_headers-Refuses : (w : World C) → Holds headers n w → Refuses headers (from_headers w)
  unfolding from_headers
  from_headers-Refuses w v =
      Refuses-bind headers content_not_read (read_headers w) from_content (omega arith) (cc)
        (read_headers-Moves n w v) from_content-Refuses

  -- Every progress but the last one.
  progress_steps-Refuses :
      (p : Progress) (w : World C)
      → p ≢ done
      → p ≢ reading_content
      → Holds p n w
      → Refuses p (progress_steps p w)
  unfolding progress_steps
  progress_steps-Refuses request_line w nd nr v =
      Refuses-bind request_line headers (read_request_line w) from_headers (omega arith) (cc)
        (read_request_line-Moves request_line n w v) from_headers-Refuses
  progress_steps-Refuses headers w nd nr v = from_headers-Refuses w v
  progress_steps-Refuses content_not_read w nd nr v = from_content-Refuses w v
  progress_steps-Refuses reading_content w nd nr v = absurd (nr refl)
  progress_steps-Refuses done w nd nr v = absurd (nd refl)

module _ {C : Type 0} where
  -- What a call gives: true only from the last progress, and a parser that is sound and not
  -- further back, with a buffer that is not longer.
  pub record Parsed (w : World C) (b : Bool) (w' : World C) : Type 0 where
    pub sound : IsSound w'.parser
    pub forward : rank w.parser.parser_state.progress ≤ rank w'.parser.parser_state.progress
    pub short : length w'.buffer ≤ length w.buffer
    pub only_done : b ≡ true → w.parser.parser_state.progress ≡ done

  abbrev Gives : World C → Option (Bool × World C) → Type 0
  Gives w none = ⊥
  Gives w (some (b, w')) = Parsed w b w'

  Parsed-Later :
      (w w' : World C)
      → Later (length w.buffer) w.parser.parser_state.progress w'
      → Parsed w false w'
  Parsed-Later w w' (q, le, ne, v) = record {
    sound = record {
      bare = v.bare;
      unloaded = v.unloaded;
      not_reading = λ e. ne (sym v.stands ∙ e);
    };
    forward = omega (arith, ap rank v.stands);
    short = v.short;
    only_done = λ e. absurd (cc e);
  }

  Parsed-same :
      (w w' : World C) (b : Bool)
      → IsSound w.parser
      → w'.parser ≡ w.parser
      → w'.buffer ≡ w.buffer
      → (b ≡ true → w.parser.parser_state.progress ≡ done)
      → Parsed w b w'
  Parsed-same w w' b v p e d = record {
    sound = rw p v;
    forward = rw p (omega arith);
    short = rw e (omega arith);
    only_done = d;
  }

  ended-Gives :
      (w : World C) (ectx : ℕ) (r : Out C Done)
      → Refuses (length w.buffer) w.parser.parser_state.progress r
      → Gives w (ended ectx r)
  unfolding ended
  ended-Gives w ectx (went a w') v = absurd v
  ended-Gives w ectx (stopped w') v = Parsed-Later w w' v
  ended-Gives w ectx starved v = absurd v

  -- A call at a progress before the last one.
  early-Gives :
      (w : World C) (p : Progress) (s : ErrorStack) (ectx : ℕ)
      → IsSound w.parser
      → w.parser.parser_state.progress ≡ p
      → p ≢ done
      → Gives w (ended ectx (progress_steps p (record w { stack = s })))
  early-Gives w p s ectx v e nd = ended-Gives w ectx (progress_steps p (record w { stack = s })) (
      Refuses-sooner (length w.buffer) w.parser.parser_state.progress p _ (omega (arith, ap rank e))
        (progress_steps-Refuses (length w.buffer) p (record w { stack = s }) nd
          (λ r. v.not_reading (e ∙ r))
          (record { stands = e; unloaded = v.unloaded; bare = v.bare; short = omega arith })))

  run-Gives :
      (w : World C) (p : Progress) (s : ErrorStack) (ectx : ℕ)
      → IsSound w.parser
      → w.parser.parser_state.progress ≡ p
      → Gives w (ended ectx (progress_steps p (record w { stack = s })))
  unfolding progress_steps ended
  run-Gives w done s ectx v e = Parsed-same w _ _ v refl refl (λ _. e)
  run-Gives w request_line s ectx v e = early-Gives w request_line s ectx v e (cc)
  run-Gives w headers s ectx v e = early-Gives w headers s ectx v e (cc)
  run-Gives w content_not_read s ectx v e = early-Gives w content_not_read s ectx v e (cc)
  run-Gives w reading_content s ectx v e = absurd (v.not_reading e)

  parse_with-Gives :
      (w : World C) (r : Option ℕ × ErrorStack) → IsSound w.parser → Gives w (parse_with w r)
  unfolding parse_with
  parse_with-Gives w (none, s) v = Parsed-same w _ false v refl refl (λ e. absurd (cc e))
  parse_with-Gives w (some ectx, s) v = run-Gives w _ s ectx v refl

  parse_request-Gives : (w : World C) → IsSound w.parser → Gives w (parse_request w)
  unfolding parse_request
  parse_request-Gives w v = parse_with-Gives w (push_context fdu_context_http none w.stack) v

  given :
      (w : World C) (r : Option (Bool × World C))
      → Gives w r
      → (b : Bool) × (w' : World C) × (r ≡ some (b, w')) × Parsed w b w'
  given w none h = absurd h
  given w (some (b, w')) h = (b, w', refl, h)

  -- A call of the parser that is sound always returns. The parser is sound again, at the same
  -- progress or at a later one, and the buffer is not longer than before. True is returned only by
  -- a call that begins at the last progress: the call that reads a request to its end returns false.
  pub parse_request-IsSound :
      (w : World C)
      → IsSound w.parser
      → (b : Bool) × (w' : World C) × (parse_request w ≡ some (b, w')) × Parsed w b w'
  parse_request-IsSound w v = given w (parse_request w) (parse_request-Gives w v)

first_zero :
    (b : Bytes)
    → length b ≡ content_type_size
    → (length (0 ∷ tail b) ≡ content_type_size) × (get_or (0 ∷ tail b) 63 1 ≡ get_or b 63 1)
first_zero [] e = absurd (omega (arith, e))
first_zero (x ∷ xs) e = (e, refl)

-- Clearing and initializing make a parser sound, whatever it was, if the array for the content type
-- has its length and ends with a zero.
pub init-IsSound :
    {C : Type 0} (p : Parser C) (context : C) (http_ops : Ops C)
    → length p.message_state.content_type ≡ content_type_size
    → get_or p.message_state.content_type 63 1 ≡ 0
    → IsSound (clear_http_request_parser p) × IsSound (init_http_request_parser p context http_ops)
unfolding init_http_request_parser clear_http_request_parser
init-IsSound p context http_ops size last =
    let (s, t) = first_zero p.message_state.content_type size in
    let bare : IsBare (clear_http_request_parser p).message_state = record {
      no_content = refl;
      size = s;
      terminated = t ∙ last;
    } in
    (
      record { bare = bare; unloaded = refl; not_reading = cc },
      record { bare = bare; unloaded = refl; not_reading = cc },
    )
