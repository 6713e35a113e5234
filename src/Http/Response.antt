-- ===== src/Http/Response.antt =====
-- http.c: `fdu_http_conjure_error_response` and the functions below it.
--
-- The buffer is the room from `*startp` to `end` and the bytes that have been put there. `tm` is what
-- `gmtime_r` makes of `time`; the texts that `snprintf` and `strftime` make are written out.
pub mod Dates
pub mod Bounds
pub mod Heads
pub mod Lines
use femc_driver.Prelude.{
  ℕ, zero, suc, ◌+◌, ◌-◌, ◌/◌, ◌%◌, ◌^◌, Bool, true, false, not, ◌&&◌, ◌||◌, Option, none, some,
  List, [], ◌∷◌, ◌++◌, String, ltb, leb, ◌==◌, if◌then◌else◌, length, take, get_or, is_none,
}
use femc_driver.ErrorStack.{
  ErrorStack, push_context, safe_pop_context, push_consistency_failure_id, push_resource_failure_id,
  push_message, fdu_context_http, invalid_arguments, buffer_overflow,
}
use femc_driver.Http.{Bytes, Version, no_version, version_1_0, version_1_1, MessageState}
use femc_driver.Http.Text.{codes}

-- The `switch` over the codes, as a table.
abbrev pub messages : List (ℕ × String)
messages =
    (100, "Continue")
    ∷ (101, "Swithching Protocols")
    ∷ (200, "OK")
    ∷ (201, "Created")
    ∷ (202, "Accepted")
    ∷ (203, "Non-Authoritative Information")
    ∷ (204, "No Content")
    ∷ (205, "Reset Content")
    ∷ (206, "Partial Content")
    ∷ (300, "Multiple Choises")
    ∷ (301, "Moved Permanently")
    ∷ (302, "Found")
    ∷ (303, "See Other")
    ∷ (304, "Not Modified")
    ∷ (305, "Use Proxy")
    ∷ (307, "Temporary Redirect")
    ∷ (400, "Bad Request")
    ∷ (401, "Unauthorized")
    ∷ (402, "Payment Required")
    ∷ (403, "Forbidden")
    ∷ (404, "Not Found")
    ∷ (405, "Method Not Allowed")
    ∷ (406, "Not Acceptable")
    ∷ (407, "Proxy Authentication Required")
    ∷ (408, "Request Time-out")
    ∷ (409, "Conflict")
    ∷ (410, "Gone")
    ∷ (411, "Length Required")
    ∷ (412, "Precondition Failed")
    ∷ (413, "Request Entity Too Large")
    ∷ (414, "Request-URI Too Large")
    ∷ (415, "Unsupported Media Type")
    ∷ (416, "Requested Range Not Satisfiable")
    ∷ (417, "Expectation Failed")
    ∷ (500, "Internal Server Error")
    ∷ (501, "Not Implemented")
    ∷ (502, "Bad Gateway")
    ∷ (503, "Service Unavailable")
    ∷ (504, "Gateway Time-out")
    ∷ (505, "HTTP Version Not Supported")
    ∷ []

unfoldable pub find_message : ℕ → List (ℕ × String) → Option String
find_message n [] = none
find_message n ((k, text) ∷ rest) = if n == k then some text else find_message n rest

unfoldable pub get_http_error_message : ℕ → Option String
unfolding find_message
get_http_error_message n = find_message n messages

-- `struct tm`; `tm_mon` counts from 0, and the year is that of the calendar.
pub record Tm : Type 0 where
  pub sec : ℕ
  pub min : ℕ
  pub hour : ℕ
  pub mday : ℕ
  pub mon : ℕ
  pub year : ℕ
  pub wday : ℕ

abbrev pub week_days : List String
week_days = "Sun" ∷ "Mon" ∷ "Tue" ∷ "Wed" ∷ "Thu" ∷ "Fri" ∷ "Sat" ∷ []

abbrev pub months : List String
months =
    "Jan" ∷ "Feb" ∷ "Mar" ∷ "Apr" ∷ "May" ∷ "Jun" ∷ "Jul" ∷ "Aug" ∷ "Sep" ∷ "Oct" ∷ "Nov" ∷ "Dec"
    ∷ []

-- `%u` and `%Y`. The fuel is the greatest number of digits.
pub decimal_digits : ℕ → ℕ → Bytes
decimal_digits zero n = []
decimal_digits (suc fuel) n =
    let front = decimal_digits fuel (n / 10) in
    (if ltb n 10 then [] else front) ++ (b'0' + n % 10) ∷ []

unfoldable pub decimal : ℕ → Bytes
unfolding decimal_digits
decimal = decimal_digits 10

-- `%d` of a day and the parts of `%T`.
unfoldable pub two_digits : ℕ → Bytes
two_digits n = (b'0' + n / 10 % 10) ∷ (b'0' + n % 10) ∷ []

-- What `strftime` makes with the format that `snprintf` has made: `"Sun, %d Nov %Y %T GMT"`.
unfoldable pub date_text : Tm → Bytes
date_text tm =
    codes (get_or week_days (tm.wday % 7) "")
    ++ codes ", "
    ++ two_digits tm.mday
    ++ codes " "
    ++ codes (get_or months (tm.mon % 12) "")
    ++ codes " "
    ++ decimal tm.year
    ++ codes " "
    ++ two_digits tm.hour
    ++ codes ":"
    ++ two_digits tm.min
    ++ codes ":"
    ++ two_digits tm.sec
    ++ codes " GMT"

-- `strftime` returns 0 for a text that does not fit into the 30 bytes of the buffer.
unfoldable pub get_http_date : Tm → Option Bytes
unfolding date_text
get_http_date tm =
    let text = date_text tm in
    let written : ℕ = if ltb (length text) 30 then length text else 0 in
    if written == 29 then some text else none

-- What has been put into the room, with the text behind it.
unfoldable pub apply_data_to_buffer : Bytes → ℕ → Bytes → Option Bytes
apply_data_to_buffer text room out =
    if ltb room (length out) || ltb (room - length out) (length text)
    then none
    else some (out ++ text)

abbrev pub version_text : Version → String
version_text version_1_1 = "HTTP/1.1"
version_text _ = "HTTP/1.0"

-- The text of the `snprintf`.
unfoldable pub status_text : Version → ℕ → String → Bytes → ℕ → Bytes
status_text v n message date size =
    codes (version_text v)
    ++ codes " "
    ++ decimal n
    ++ codes " "
    ++ codes message
    ++ codes "\r\nDate: "
    ++ date
    ++ codes "\r\nContent-length: "
    ++ decimal size
    ++ codes "\r\n"

-- `snprintf` of a text into the room, and the test behind it. A text that fills the room lacks its
-- last byte, where the zero stands.
unfoldable pub print_into : ℕ → Bytes → Option Bytes
print_into room text =
    if ltb room (length text)
    then none
    else if length text == room
    then some (take (room - 1) text ++ 0 ∷ [])
    else some text

unfoldable pub applied : Bytes → Option Bytes → Bool × Bytes
applied old none = (false, old)
applied old (some out) = (true, out)

-- One of the tests in the chain; what is there when one fails has been put there.
unfoldable pub apply_if : Bool → String → ℕ → Bool × Bytes → Bool × Bytes
unfolding apply_data_to_buffer applied
apply_if b text room (false, out) = (false, out)
apply_if false text room (true, out) = (true, out)
apply_if true text room (true, out) = applied out (apply_data_to_buffer (codes text) room out)

abbrev pub is_1_0 : Version → Bool
is_1_0 version_1_0 = true
is_1_0 _ = false

unfoldable pub apply_headers : MessageState → ℕ → ℕ → Bool × Bytes → Bool × Bytes
unfolding apply_if
apply_headers m size room out =
    apply_if (not m.closing && is_1_0 m.version) "Connection: Keep-Alive\r\n" room (
      apply_if m.closing "Connection: close\r\n" room
        (apply_if (not (size == 0)) "Content-type: text/plain\r\n" room out))

-- The content: none for `NULL`, and the default message, which stands for that of the code.
pub data Content : Type 0 where
  default_message : Content
  content : Option Bytes → Content

unfoldable pub content_size : Content → String → ℕ
content_size default_message message = length (codes message) % 2 ^ 32
content_size (content none) message = 0
content_size (content (some text)) message = length text % 2 ^ 32

-- What was returned, the bytes by which `*startp` has moved on, and the error stack.
abbrev pub Answer : Type 0
Answer = Bool × Bytes × ErrorStack

unfoldable pub headers_done : ℕ → Bool × Bytes → ErrorStack → Answer
headers_done ectx (false, out) stack =
    (false, out, (push_resource_failure_id buffer_overflow stack).1)
headers_done ectx (true, out) stack =
    let (popped, stack') = safe_pop_context fdu_context_http (some ectx) stack in
    (popped, out, stack')

unfoldable pub status_done : MessageState → ℕ → ℕ → ℕ → Option Bytes → ErrorStack → Answer
unfolding headers_done apply_headers
status_done m size room ectx none stack =
    (false, [], (push_resource_failure_id buffer_overflow stack).1)
status_done m size room ectx (some out) stack =
    headers_done ectx (apply_headers m size room (true, out)) stack

-- With no date, `%s` is given a null pointer: none stands for this.
dated : MessageState → ℕ → String → ℕ → ℕ → ℕ → Option Bytes → ErrorStack → Option Answer
unfolding status_done status_text print_into
dated m n message size room ectx none stack = none
dated m n message size room ectx (some date) stack = some (
    status_done m size room ectx (print_into room (status_text m.version n message date size))
      stack)

with_message : MessageState → ℕ → Content → Tm → ℕ → ℕ → Option String → ErrorStack → Option Answer
unfolding dated content_size get_http_date
with_message m n c tm room ectx none stack =
    some (false, [], (push_message (some "invalid error code") stack).1)
with_message m n c tm room ectx (some message) stack =
    dated m n message (content_size c message) room ectx (get_http_date tm) stack

-- A parser that is not `NULL`, and an end: the room from `*startp` to it.
with_arguments : Option MessageState → ℕ → Content → Tm → Option ℕ → ℕ → ErrorStack → Option Answer
unfolding with_message get_http_error_message
with_arguments none n c tm room ectx stack =
    some (false, [], (push_consistency_failure_id invalid_arguments stack).1)
with_arguments (some m) n c tm none ectx stack =
    some (false, [], (push_consistency_failure_id invalid_arguments stack).1)
with_arguments (some m) n c tm (some room) ectx stack =
    if ltb n 100 || leb 600 n
    then some (false, [], (push_consistency_failure_id invalid_arguments stack).1)
    else with_message m n c tm room ectx (get_http_error_message n) stack

conjured : Option MessageState → ℕ → Content → Tm → Option ℕ → Option ℕ × ErrorStack → Option Answer
unfolding with_arguments
conjured m n c tm room (none, stack) = some (false, [], stack)
conjured m n c tm room (some ectx, stack) = with_arguments m n c tm room ectx stack

-- `fdu_http_conjure_error_response`, where `*startp` is not behind `end`.
unfoldable pub conjure_error_response :
    Option MessageState → ℕ → Content → Tm → Option ℕ → ErrorStack → Option Answer
unfolding conjured
conjure_error_response m n c tm room stack =
    conjured m n c tm room (push_context fdu_context_http none stack)
