-- ===== src/Http/Request.antt =====
-- http.c: `fdu_http_parse_request`, from the request line to the end of the content.
pub mod Lines
pub mod Folded
pub mod Complete
pub mod Printed
pub mod Steps
pub mod Runs
use mathlib.Core.Option
use femc_driver.Prelude.{
  ℕ, zero, suc, ◌+◌, ◌-◌, ◌%◌, ◌^◌, Bool, true, false, not, Option, none, some, List, [], ◌∷◌, ◌++◌,
  ltb, leb, ◌==◌, if◌then◌else◌, length, take, drop, is_none,
}
use femc_driver.ErrorStack.{push_context, safe_pop_context, fdu_context_http, ErrorStack}
use femc_driver.Http.{
  Bytes, max_content_length, Progress, request_line, headers, content_not_read, reading_content,
  done, Method, get, head, post, Version, version_1_0, version_1_1, MessageState, ParserState,
  World, Out, went, stopped, starved, Done, ok, Step, bind, ◌>>=◌, ◌>>◌, change_message,
  change_state, set_progress, set_buffer, refuse, underflow, require, call, Parser,
}
use femc_driver.Http.Text.{mem_eq, split_at, drop_last_if, is_blank, skip_blanks}
use femc_driver.Http.Header.{parse_header}

unfoldable pub known_method : Bytes → Option Method
unfolding mem_eq
known_method m =
    if mem_eq m "GET"
    then some get
    else if mem_eq m "HEAD"
    then some head
    else if mem_eq m "POST"
    then some post
    else none

unfoldable pub known_version : Bytes → Option Version
unfolding mem_eq
known_version v =
    if mem_eq v "HTTP/1.0"
    then some version_1_0
    else if mem_eq v "HTTP/1.1"
    then some version_1_1
    else none

-- HTTP/1.0 closes the connection if no header says otherwise.
unfoldable pub closes : Version → Bool
closes version_1_1 = false
closes _ = true

-- The three parts of a request line between two spaces.
unfoldable pub last_part : Bytes → Bytes → Option (Bytes × Bytes) → Option (Bytes × Bytes × Bytes)
unfolding split_at
last_part m url none = none
last_part m url (some (u, v)) = if is_none (split_at b' ' v) then some (m, u, v) else none

unfoldable pub two_parts : Option (Bytes × Bytes) → Option (Bytes × Bytes × Bytes)
unfolding last_part split_at
two_parts none = none
two_parts (some (m, rest)) = last_part m rest (split_at b' ' rest)

unfoldable pub three_parts : Bytes → Option (Bytes × Bytes × Bytes)
unfolding two_parts split_at
three_parts line = two_parts (split_at b' ' line)

-- A round of the loop over the headers: `held` is what stands from `*start` to `sol`, `ahead` what
-- stands from `sol` on.
abbrev pub Round : Type 0 → Type 0
Round C = Bytes → Bytes → Step C Done

module _ {C : Type 0} where
  unfoldable pub version_call : Version → Step C Done
  version_call v w = call (Option.map (λ f. f v) w.parser.http_ops.parse_version) w

  unfoldable pub url_call : Method → Bytes → Step C Done
  url_call m url w = call (Option.map (λ f. f m url) w.parser.http_ops.parse_url) w

  unfoldable pub with_version : Option Version → Step C Done
  unfolding closes version_call
  with_version none = refuse "HTTP version not supported" 505
  with_version (some v) = do
    change_message (λ m. record m { version = v })
    version_call v
    change_message (λ m. record m { closing = closes v })

  unfoldable pub with_method : Bytes → Bytes → Option Method → Step C Done
  unfolding with_version known_version url_call
  with_method url v none = refuse "Method not implemented" 501
  with_method url v (some m) = do
    change_message (λ s. record s { method = m })
    url_call m url
    require (length v == 8) "Corrupted HTTP version" 400
    with_version (known_version v)

  unfoldable pub with_parts : Option (Bytes × Bytes × Bytes) → Step C Done
  unfolding with_method known_method
  with_parts none = refuse "Corrupted request line" 400
  with_parts (some (m, url, v)) = with_method url v (known_method m)

  unfoldable pub with_line : Option (Bytes × Bytes) → Step C Done
  unfolding with_parts three_parts drop_last_if
  with_line none = underflow
  with_line (some (line, rest)) = do
    require (not (ltb (length line) 6)) "Too short request line" 400
    set_buffer rest
    with_parts (three_parts (drop_last_if 13 line))
    set_progress headers

  unfoldable pub read_request_line : Step C Done
  unfolding with_line split_at
  read_request_line w = with_line (split_at 10 w.buffer) w

  -- Behind a line that is not empty: the end of its line, and what is behind it.
  unfoldable pub line_read : Round C → Bytes → Bytes → Bytes → Step C Done
  unfolding is_blank skip_blanks
  line_read next line ending [] = underflow
  line_read next line ending (b ∷ rest) =
      if is_blank b
      then next (line ++ b' ' ∷ []) (skip_blanks rest)
      else (do parse_header line ending (b ∷ rest); next [] (b ∷ rest))

  unfoldable pub line_found : Round C → Bytes → Bytes → Bytes → Step C Done
  unfolding line_read
  line_found next [] ending rest = do set_buffer rest; set_progress content_not_read
  line_found next (c ∷ cs) ending rest = line_read next (c ∷ cs) ending rest

  unfoldable pub line_sought : Round C → Bytes → Option (Bytes × Bytes) → Step C Done
  unfolding line_found drop_last_if
  line_sought next held none = underflow
  line_sought next held (some (before, rest)) =
      let raw = held ++ before in
      let line = drop_last_if 13 raw in
      line_found next line (drop (length line) raw ++ 10 ∷ []) rest

  unfoldable pub header_loop : ℕ → Round C
  unfolding line_sought split_at
  header_loop zero held ahead w = starved
  header_loop (suc fuel) held ahead w =
      line_sought (header_loop fuel) held (split_at 10 ahead) (record w { buffer = held ++ ahead })

  unfoldable pub read_headers : Step C Done
  unfolding header_loop
  read_headers w = header_loop (length w.buffer + 1) [] w.buffer w

  -- A content that has not begun: `break` unless it is there as a whole.
  unfoldable pub await_content : Step C Done
  await_content w =
      let wanted = w.parser.message_state.content_length in
      if wanted == 0
      then bind (set_progress done w) (λ _. underflow)
      else if ltb max_content_length wanted
      then refuse "Too long content" 413 w
      else if leb wanted (length w.buffer % 2 ^ 32)
      then set_progress reading_content w
      else underflow w

  unfoldable pub content_done : Bool → Step C Done
  content_done true = set_progress done
  content_done false = underflow

  unfoldable pub content_given : ℕ → Step C Done
  unfolding content_done
  content_given n w =
      let loaded = (w.parser.parser_state.content_loaded + n) % 2 ^ 32 in
      content_done (loaded == w.parser.message_state.content_length) (record w {
        parser = record w.parser {
          parser_state = record w.parser.parser_state { content_loaded = loaded };
        };
        buffer = drop n w.buffer;
      })

  unfoldable pub content_call : Bytes → Step C Done
  content_call content w = call (Option.map (λ f. f content) w.parser.http_ops.parse_content) w

  unfoldable pub read_content : Step C Done
  unfolding content_given content_call
  read_content w =
      let wanted = w.parser.message_state.content_length in
      let missing = (wanted + 2 ^ 32 - w.parser.parser_state.content_loaded) % 2 ^ 32 in
      let there = length w.buffer % 2 ^ 32 in
      let n = if ltb there missing then there else missing in
      bind (content_call (take n w.buffer) w) (λ _. content_given n)

  -- The `switch`, which falls through from a case to the next one.
  unfoldable pub from_content : Step C Done
  unfolding await_content read_content
  from_content = do await_content; read_content

  unfoldable pub from_headers : Step C Done
  unfolding read_headers from_content
  from_headers = do read_headers; from_content

  unfoldable pub progress_steps : Progress → Step C Done
  unfolding read_request_line from_headers from_content read_content
  progress_steps request_line = do read_request_line; from_headers
  progress_steps headers = from_headers
  progress_steps content_not_read = from_content
  progress_steps reading_content = read_content
  progress_steps done = went ok

  -- The result, or none where the fuel is spent.
  ended : ℕ → Out C Done → Option (Bool × World C)
  ended ectx starved = none
  ended ectx (stopped w) = some (false, w)
  ended ectx (went _ w) =
      let (popped, s) = safe_pop_context fdu_context_http (some ectx) w.stack in
      some (popped, record w { stack = s })

  parse_with : World C → Option ℕ × ErrorStack → Option (Bool × World C)
  unfolding ended progress_steps
  parse_with w (none, s) = some (false, record w { stack = s })
  parse_with w (some ectx, s) =
      ended ectx (progress_steps w.parser.parser_state.progress (record w { stack = s }))

  unfoldable pub parse_request : World C → Option (Bool × World C)
  unfolding parse_with
  parse_request w = parse_with w (push_context fdu_context_http none w.stack)
