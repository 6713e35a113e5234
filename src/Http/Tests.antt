-- ===== src/Http/Tests.antt =====
-- Runs of the HTTP parser and of the response, and the instances of their theorems.
use femc_driver.Prelude.{
  length, ◌%◌, ◌^◌, ℕ, ◌≡◌, refl, Bool, true, false, Option, none, some, List, [], ◌∷◌, ◌++◌,
  replicate, All, arith,
}
use femc_driver.ErrorStack.{ErrorStack, push_context, fde_errors, fdu_context_http}
use femc_driver.ErrorStack.Contexts.{HasRoom}
use femc_driver.Http.{
  Bytes, Progress, request_line, headers, done, no_method, get, no_version, version_1_1, Callback,
  Ops, Parser, World, Done, ok, Out, went, stopped, starved, ◌>>◌, set_buffer, set_progress, refuse,
  require, call, underflow,
}
use femc_driver.Http.Text.{codes, convert_to_lowercase, strip_ws_both, drop_last_if, is_blank}
use femc_driver.Http.Text.Strip.{AllSpace, StartsBlack, EndsBlack, strip_ws_both-EndsBlack}
use femc_driver.Http.Header.{Parts, cut_parts, edited, parse_header}
use femc_driver.Http.Header.Refused.{corrupted_length, parse_header-refused}
use femc_driver.Http.Request.{parse_request, read_headers, read_request_line}
use femc_driver.Http.Request.Complete.{with_stack, finished, parse_request-twice}
use femc_driver.Http.Request.Folded.{
  HeaderLines, IsHeader, print_headers, read_each, read_headers-each,
}
use femc_driver.Http.Request.Lines.{eol}
use femc_driver.Http.Request.Printed.{print_line, accept_line, read_request_line-print_line}
use femc_driver.Http.Request.Runs.{IsSound, Parsed, parse_request-IsSound}
use femc_driver.Http.Response.{
  Tm, default_message, Answer, get_http_date, decimal, two_digits, get_http_error_message,
  conjure_error_response, print_into,
}
use femc_driver.Http.Response.Bounds.{Fits, conjure_error_response-Fits}
use femc_driver.Http.Response.Heads.{Heads, conjure_error_response-Heads}
use femc_driver.Http.Response.Lines.{body, head_text}

abbrev crlf : Bytes
crlf = 13 ∷ 10 ∷ []

abbrev empty_stack : ErrorStack
empty_stack = record {
  nodes = [];
  stale = [];
  errors = 0;
  meta_errors = 0;
  error_stack_full = false;
}

-- A context that keeps what the callbacks are given, the last first.
abbrev Log : Type 0
Log = List Bytes

abbrev note : Bytes → Bool → Callback Log
note b answer log s = (answer, b ∷ log, s)

abbrev logging : Ops Log
logging = record {
  parse_url = some (λ m url. note url true);
  parse_version = none;
  parse_header = some (λ name content. note (name ++ b'=' ∷ content) true);
  parse_content = none;
}

abbrev fresh_parser : Parser Log
fresh_parser = record {
  context = [];
  http_ops = logging;
  parser_state = record { progress = request_line; content_loaded = 0 };
  message_state = record {
    method = no_method;
    version = no_version;
    closing = true;
    content_length = 0;
    content_type = replicate 64 0;
  };
}

abbrev world : Bytes → World Log
world b = record { parser = fresh_parser; buffer = b; stack = empty_stack }

abbrev simple_request : Bytes
simple_request =
    codes "GET / HTTP/1.1"
    ++ crlf
    ++ codes "Host:  a.b "
    ++ crlf
    ++ codes "\tc"
    ++ crlf
    ++ codes "Content-Type: text/html\n"
    ++ crlf

-- The request is read to its end, and false is returned.
abbrev result_of : Option (Bool × World Log) → Option (Bool × Progress × Bytes)
result_of none = none
result_of (some (b, w)) = some (b, w.parser.parser_state.progress, w.buffer)

abbrev context_of : Option (Bool × World Log) → Log
context_of none = []
context_of (some (b, w)) = w.parser.context

simple_run : result_of (parse_request (world simple_request)) ≡ some (false, done, [])
unfolding parse_request push_context require call parse_header underflow
simple_run = refl

simple_log :
    context_of (parse_request (world simple_request))
    ≡ codes "content-type=text/html" ∷ codes "host=a.b  c" ∷ codes "/" ∷ []
unfolding parse_request push_context require call parse_header underflow
simple_log = refl

fresh_parser-IsSound : IsSound fresh_parser
fresh_parser-IsSound = record {
  bare = record { no_content = refl; size = refl; terminated = refl };
  unloaded = refl;
  not_reading = cc;
}

parse_request-IsSound_example :
    (b : Bool) × (w' : World Log) × (parse_request (world simple_request) ≡ some (b, w'))
    × Parsed (world simple_request) b w'
parse_request-IsSound_example = parse_request-IsSound (world simple_request) fresh_parser-IsSound

-- A header of two lines.
abbrev folded_header : HeaderLines
folded_header = record {
  text = codes "Host: a";
  cr = true;
  folds = record { first = 9; blanks = b' ' ∷ []; text = codes "b"; cr = false } ∷ [];
}

folded_header-IsHeader : All IsHeader (folded_header ∷ [])
unfolding drop_last_if is_blank
folded_header-IsHeader = (
  record {
    not_empty = omega arith;
    text_lem = record { no_newline = omega arith; starts = refl; ends = refl };
    folds_lem = (
      record {
        first_blank = refl;
        all_blank = (refl, tt);
        text_lem = record { no_newline = omega arith; starts = refl; ends = refl };
      },
      tt,
    );
  },
  tt,
)

abbrev header_bytes : Bytes
header_bytes = print_headers (folded_header ∷ []) (eol true ++ codes "GET")

read_headers-each_example :
    read_headers (world header_bytes)
    ≡ read_each (folded_header ∷ []) true (codes "GET") (world header_bytes)
read_headers-each_example =
    read_headers-each (folded_header ∷ []) true (codes "GET") (world header_bytes)
      folded_header-IsHeader refl

read_request_line-print_line_example :
    read_request_line (world (print_line get (codes "/x") version_1_1 true header_bytes))
    ≡ (do set_buffer header_bytes; accept_line get (codes "/x") version_1_1; set_progress headers)
        (world (print_line get (codes "/x") version_1_1 true header_bytes))
read_request_line-print_line_example =
    read_request_line-print_line get (codes "/x") version_1_1 true header_bytes
      (world (print_line get (codes "/x") version_1_1 true header_bytes)) (omega arith) (cc) (cc)
      refl

-- A parser that has read the request line.
abbrev at_headers : World Log
at_headers = record {
  parser = record fresh_parser { parser_state = record { progress = headers; content_loaded = 0 } };
  buffer = header_bytes;
  stack = empty_stack;
}

at_headers-IsSound : IsSound at_headers.parser
at_headers-IsSound = record {
  bare = record { no_content = refl; size = refl; terminated = refl };
  unloaded = refl;
  not_reading = cc;
}

empty_stack-HasRoom : HasRoom empty_stack
empty_stack-HasRoom = (record { errors_fit = omega arith; metas_fit = omega arith }, omega arith)

abbrev left_world : Out Log Done → World Log
left_world (went a w) = w
left_world (stopped w) = w
left_world starved = at_headers

abbrev pushed : World Log
pushed = with_stack (push_context fdu_context_http none empty_stack).1 at_headers

abbrev read_world : World Log
read_world = left_world (read_each (folded_header ∷ []) true (codes "GET") pushed)

read_world_lem : read_each (folded_header ∷ []) true (codes "GET") pushed ≡ went ok read_world
unfolding parse_header push_context require call
read_world_lem = refl

parse_request-twice_example :
    (parse_request at_headers ≡ some (false, finished read_world))
    × (read_world.buffer ≡ codes "GET")
    × ((b : Bytes) (s : ErrorStack)
        → HasRoom s
        → fde_errors s ≡ 0
        → (s' : ErrorStack) × (parse_request
              (record (finished read_world) { buffer = b; stack = s })
            ≡ some (true, record (finished read_world) { buffer = b; stack = s' }))
          × (s'.nodes ≡ s.nodes))
parse_request-twice_example =
    parse_request-twice (folded_header ∷ []) true (codes "GET") at_headers read_world
      folded_header-IsHeader at_headers-IsSound empty_stack-HasRoom refl refl read_world_lem

parse_header-refused_example :
    let q : Parts = cut_parts (codes "Content-Length ") (codes " 5") (eol true) in
    parse_header (codes "Content-Length : 5") (eol true) (codes "x") at_headers
    ≡ refuse corrupted_length 400 (record at_headers {
      buffer = edited (record q { name = convert_to_lowercase q.name }) ++ codes "x";
    })
parse_header-refused_example =
    parse_header-refused (codes "Content-Length ") (codes " 5") (eol true) (codes "x") at_headers
      (omega arith) (unfold convert_to_lowercase strip_ws_both in refl)

-- Sun, 06 Nov 1994 08:49:37 GMT
abbrev some_time : Tm
some_time = record { sec = 37; min = 49; hour = 8; mday = 6; mon = 10; year = 1994; wday = 0 }

abbrev some_date : Bytes
some_date = codes "Sun, 06 Nov 1994 08:49:37 GMT"

some_date_lem : get_http_date some_time ≡ some some_date
unfolding get_http_date decimal two_digits
some_date_lem = refl

abbrev bad_request : ℕ → Option Answer
bad_request room =
    conjure_error_response (some fresh_parser.message_state) 400 default_message some_time
      (some room) empty_stack

bad_request_known : get_http_error_message 400 ≡ some "Bad Request"
unfolding get_http_error_message
bad_request_known = refl

conjure_error_response-Heads_example :
    (a : Answer) × (bad_request 200 ≡ some a)
    × Heads 200
        (head_text fresh_parser.message_state 400 "Bad Request" some_date
          (length (body default_message "Bad Request") % 2 ^ 32))
        empty_stack
        a
conjure_error_response-Heads_example =
    conjure_error_response-Heads fresh_parser.message_state 400 "Bad Request" default_message
      some_time some_date 200 empty_stack bad_request_known (omega arith) (omega arith)
      some_date_lem empty_stack-HasRoom (unfold fde_errors in refl)

conjure_error_response-Fits_example : Fits 100 (bad_request 100)
conjure_error_response-Fits_example =
    conjure_error_response-Fits (some fresh_parser.message_state) 400 default_message some_time 100
      empty_stack

-- Where the status lines fill the room, their last byte is a zero.
cut_short : print_into 3 (codes "a\r\n") ≡ some (b'a' ∷ 13 ∷ 0 ∷ [])
unfolding print_into
cut_short = refl

strip_ws_both-EndsBlack_example :
    ((strip_ws_both (codes " a b ")).0
        ++ (strip_ws_both (codes " a b ")).1
        ++ (strip_ws_both (codes " a b ")).2
      ≡ codes " a b ")
    × AllSpace (strip_ws_both (codes " a b ")).0
    × AllSpace (strip_ws_both (codes " a b ")).2
    × StartsBlack (strip_ws_both (codes " a b ")).1
    × EndsBlack (strip_ws_both (codes " a b ")).1
strip_ws_both-EndsBlack_example = strip_ws_both-EndsBlack (codes " a b ")
