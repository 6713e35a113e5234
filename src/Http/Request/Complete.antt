-- ===== src/Http/Request/Complete.antt =====
-- The call that reads a request without a content to its end, and the next one.
use femc_driver.Prelude.{
  ℕ, ◌≡◌, refl, ap, sym, ◌∙◌, Bool, true, false, none, some, List, [], ◌∷◌, ◌++◌, arith, length,
  All, ==-true,
}
use femc_driver.ErrorStack.{
  ErrorStack, push_context, safe_pop_context, fde_errors, fdu_context_http,
  push_resource_failure_id, buffer_underflow,
}
use femc_driver.ErrorStack.Contexts.{HasRoom, push_context-room, safe_pop-push}
use femc_driver.Http.{
  Bytes, headers, content_not_read, done, World, Out, went, stopped, starved, Step, Done, ok, bind,
  underflow,
}
use femc_driver.Http.Holds.{Holds}
use femc_driver.Http.Request.{
  read_headers, await_content, from_content, from_headers, progress_steps, ended, parse_with,
  parse_request,
}
use femc_driver.Http.Request.Folded.{
  HeaderLines, IsHeader, print_headers, read_each, read_headers-each,
}
use femc_driver.Http.Request.Lines.{eol}
use femc_driver.Http.Request.Runs.{IsSound}
use femc_driver.Http.Request.Steps.{read_headers-Moves}

module _ {C : Type 0} where
  abbrev pub with_stack : ErrorStack → World C → World C
  with_stack s w = record w { stack = s }

  -- The world behind the call, if the headers have led to a given one.
  abbrev pub finished : World C → World C
  finished w = record w {
    parser = record w.parser { parser_state = record w.parser.parser_state { progress = done } };
    stack = (push_resource_failure_id buffer_underflow w.stack).1;
  }

  from_content-finished :
      (n : ℕ) (w : World C) → Holds content_not_read n w → from_content w ≡ stopped (finished w)
  unfolding from_content await_content underflow
  from_content-finished n w v =
      rw (==-true w.parser.message_state.content_length 0 v.bare.no_content) refl

  read_headers-went :
      (n : ℕ) (w w1 : World C)
      → Holds headers n w
      → read_headers w ≡ went ok w1
      → Holds content_not_read n w1
  read_headers-went n w w1 v e = rw e at (read_headers-Moves n w v)

  first_call :
      (w w1 : World C) (s : ErrorStack) (ectx : ℕ)
      → IsSound w.parser
      → w.parser.parser_state.progress ≡ headers
      → read_headers (with_stack s w) ≡ went ok w1
      → parse_with w (some ectx, s) ≡ some (false, finished w1)
  unfolding parse_with ended progress_steps from_headers
  first_call w w1 s ectx v p e =
      let at_headers : Holds headers (length w.buffer) (with_stack s w) = record {
        stands = p;
        unloaded = v.unloaded;
        bare = v.bare;
        short = omega arith;
      } in
      ap (λ q. ended ectx (progress_steps q (with_stack s w))) p
      ∙ ap (λ r. ended ectx (bind r (λ _. from_content))) e
      ∙ ap (ended ectx) (
          from_content-finished (length w.buffer) w1
            (read_headers-went (length w.buffer) (with_stack s w) w1 at_headers e))

  second_call :
      (w : World C) (s : ErrorStack)
      → HasRoom s
      → fde_errors s ≡ 0
      → w.parser.parser_state.progress ≡ done
      → (s' : ErrorStack) × (parse_request (with_stack s w) ≡ some (true, with_stack s' w))
        × (s'.nodes ≡ s.nodes)
  unfolding parse_request parse_with ended progress_steps
  second_call w s r e p =
      let s1 = (push_context fdu_context_http none s).1 in
      let (ptr, _, _, _) = push_context-room fdu_context_http none s r.1 in
      let (popped, left) = safe_pop-push fdu_context_http s r e in
      let after = safe_pop_context fdu_context_http (some (length s.nodes)) s1 in
      (
        after.1,
        ap (λ o. parse_with (with_stack s w) (o, s1)) ptr
            ∙ ap (λ q. ended (length s.nodes) (progress_steps q (with_stack s1 w))) p
            ∙ ap (λ b. some (b, with_stack after.1 w)) popped,
        left,
      )

  bind-went :
      (r : Out C Done) (f : Step C Done) (w1 : World C)
      → bind r (λ _. f) ≡ went ok w1
      → (w' : World C) × (f w' ≡ went ok w1)
  bind-went (went a w) f w1 e = (w, e)
  bind-went (stopped w) f w1 e = absurd (cc e)
  bind-went starved f w1 e = absurd (cc e)

  abbrev buffer_of : Out C Done → Bytes
  buffer_of (went a w) = w.buffer
  buffer_of (stopped w) = w.buffer
  buffer_of starved = []

  read_each-buffer :
      (hs : List HeaderLines) (cr : Bool) (rest : Bytes) (w w1 : World C)
      → read_each hs cr rest w ≡ went ok w1
      → w1.buffer ≡ rest
  read_each-buffer [] cr rest w w1 e = sym (ap buffer_of e)
  read_each-buffer (h ∷ hs) cr rest w w1 e =
      let (w', e') = bind-went _ (read_each hs cr rest) w1 e in read_each-buffer hs cr rest w' w1 e'

  -- Where a call meets the headers of a request, each of which is accepted, and the empty line behind
  -- them, it returns false with a buffer underflow, although nothing is missing: the parser is done,
  -- and the buffer stands behind the empty line. The next call, with whatever bytes and an error
  -- stack that has no errors, returns true and leaves the parser, the buffer and the nodes of the
  -- error stack.
  pub parse_request-twice :
      (hs : List HeaderLines) (cr : Bool) (rest : Bytes) (w w1 : World C)
      → All IsHeader hs
      → IsSound w.parser
      → HasRoom w.stack
      → w.parser.parser_state.progress ≡ headers
      → w.buffer ≡ print_headers hs (eol cr ++ rest)
      → read_each hs cr rest (with_stack (push_context fdu_context_http none w.stack).1 w)
        ≡ went ok w1
      → (parse_request w ≡ some (false, finished w1))
        × (w1.buffer ≡ rest)
        × ((b : Bytes) (s : ErrorStack)
            → HasRoom s
            → fde_errors s ≡ 0
            → (s' : ErrorStack) × (parse_request (record (finished w1) { buffer = b; stack = s })
                ≡ some (true, record (finished w1) { buffer = b; stack = s' }))
              × (s'.nodes ≡ s.nodes))
  unfolding parse_request
  parse_request-twice hs cr rest w w1 h v r p e each =
      let s1 = (push_context fdu_context_http none w.stack).1 in
      let (ptr, _, _, _) = push_context-room fdu_context_http none w.stack r.1 in
      (
        ap (λ o. parse_with w (o, s1)) ptr
            ∙ first_call w w1 s1 (length w.stack.nodes) v p
                (read_headers-each hs cr rest (with_stack s1 w) h e ∙ each),
        read_each-buffer hs cr rest (with_stack s1 w) w1 each,
        λ b s room quiet. second_call (record (finished w1) { buffer = b }) s room quiet refl,
      )
