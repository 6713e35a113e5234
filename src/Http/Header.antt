-- ===== src/Http/Header.antt =====
-- http.c: `fdu_http_parse_header`, for one header whose lines are joined.
--
-- The function stores zeros behind the name and the content and makes letters small, all inside the
-- buffer; `edited` is what the buffer holds then.
pub mod Stays
pub mod Refused
use mathlib.Core.Option
use femc_driver.Prelude.{
  ℕ, zero, suc, ◌+◌, ◌-◌, ◌*◌, ◌%◌, ◌^◌, Bool, true, false, not, ◌&&◌, ◌||◌, Option, none, some,
  List, [], ◌∷◌, ◌++◌, ltb, leb, ◌==◌, if◌then◌else◌, length, tail, take, drop, get_or,
}
use femc_driver.Http.{
  Bytes, content_type_size, version_1_0, version_1_1, MessageState, World, Done, ok, Step, went,
  stopped, bind, ◌>>=◌, ◌>>◌, change_message, set_buffer, refuse, require, call, Version,
  no_version,
}
use femc_driver.Http.Text.{
  str_eq, c_string, convert_to_lowercase, isdigit, isspace, strip_ws_both, split_at, strip_ws_start,
}

-- A header in its parts: white space and text before the colon and behind it, and the end of the
-- line.
pub record Parts : Type 0 where
  pub name_lead : Bytes
  pub name : Bytes
  pub name_trail : Bytes
  pub content_lead : Bytes
  pub content : Bytes
  pub content_trail : Bytes
  pub ending : Bytes

-- The two zeros overwrite the byte behind the name, which may be the colon, and the byte behind the
-- content, which may be the end of the line.
unfoldable pub edited : Parts → Bytes
edited p =
    p.name_lead
    ++ (p.name
        ++ 0
          ∷ tail (
              p.name_trail
              ++ b':' ∷ (p.content_lead ++ (p.content ++ 0 ∷ tail (p.content_trail ++ p.ending)))))

unfoldable pub cut_parts : Bytes → Bytes → Bytes → Parts
unfolding strip_ws_both
cut_parts before after ending =
    let (nl, n, nt) = strip_ws_both before in
    let (cl, c, ct) = strip_ws_both after in
    record {
      name_lead = nl;
      name = n;
      name_trail = nt;
      content_lead = cl;
      content = c;
      content_trail = ct;
      ending = ending;
    }

-- What `strtoul` reads, behind white space, and whether it stops at the end of the text.
unfoldable pub digits : Bytes → ℕ → Option ℕ
unfolding isdigit
digits [] n = some n
digits (c ∷ cs) n = if isdigit c then digits cs (n * 10 + (c - b'0')) else none

unfoldable pub some_digits : Bytes → Option ℕ
unfolding digits
some_digits [] = none
some_digits (c ∷ cs) = digits (c ∷ cs) 0

unfoldable pub negated : Option ℕ → Option ℕ
negated none = none
negated (some n) = some ((2 ^ 64 - n) % 2 ^ 64)

unfoldable pub signed : Bytes → Option ℕ
unfolding some_digits negated
signed [] = none
signed (c ∷ cs) =
    if c == b'-'
    then negated (some_digits cs)
    else if c == b'+'
    then some_digits cs
    else some_digits (c ∷ cs)

-- The whole of a text of at most 19 bytes as a number. It cannot exceed 64 bits.
unfoldable pub strtoul : Bytes → Option ℕ
unfolding signed strip_ws_start
strtoul s = signed (strip_ws_start s).1

-- The loop over `i < input_size`, whose test does not look at `i`. The byte behind the content is
-- the zero that was stored there.
unfoldable pub check_digits : ℕ → Bytes → Bool
unfolding isdigit
check_digits zero content = true
check_digits (suc i) content =
    isdigit (get_or (content ++ 0 ∷ []) (length content) 0) && check_digits i content

-- `closing` after a `Connection` header with the content, which is in small letters.
unfoldable pub connection : Version → Bytes → Bool → Bool
unfolding str_eq
connection version_1_0 content closing = if str_eq content "keep-alive" then false else closing
connection version_1_1 content closing = if str_eq content "close" then true else closing
connection no_version content closing = closing

-- `memcpy` of at most 63 bytes, without a zero behind them
unfoldable pub copy_content_type : Bytes → Bytes → Bytes
copy_content_type content old =
    let size =
      if leb content_type_size (length content) then content_type_size - 1 else length content in
    take size content ++ drop size old

module _ {C : Type 0} where
  unfoldable pub set_length : Option ℕ → Step C Done
  set_length none = refuse "Corrupted \"Content-length\" header" 400
  set_length (some n) = change_message (λ m. record m { content_length = n % 2 ^ 32 })

  unfoldable pub content_length_header : Bytes → Step C Done
  unfolding check_digits strtoul set_length
  content_length_header content = do
    require (ltb 0 (length content) && ltb (length content) 20)
        "Corrupted \"Content-length\" header" 400
    require (check_digits (length content) content) "Corrupted \"Content-length\" header" 400
    set_length (strtoul content)

  unfoldable pub content_type_header : Bytes → Step C Done
  unfolding copy_content_type
  content_type_header content =
      change_message (λ m. record m { content_type = copy_content_type content m.content_type })

  unfoldable pub connection_header : Bytes → Step C Done
  unfolding connection
  connection_header content =
      change_message (λ m. record m { closing = connection m.version content m.closing })

  unfoldable pub report_header : Parts → Step C Done
  unfolding c_string
  report_header p w =
      call
        (Option.map (λ f. f (c_string p.name) (c_string p.content)) w.parser.http_ops.parse_header)
        w

  -- The `switch`, and the callback behind it. The rest of the buffer stands behind the header.
  unfoldable pub known_header : Parts → Bytes → Step C Done
  unfolding str_eq convert_to_lowercase content_length_header content_type_header connection_header
      report_header edited
  known_header p rest =
      if str_eq p.name "connection"
      then (let q = record p { content = convert_to_lowercase p.content } in
          do set_buffer (edited q ++ rest); connection_header q.content; report_header q)
      else if str_eq p.name "content-length"
      then (do content_length_header p.content; report_header p)
      else if str_eq p.name "content-type"
      then (do content_type_header p.content; report_header p)
      else report_header p

  named_header : Parts → Bytes → Step C Done
  unfolding known_header edited convert_to_lowercase
  named_header p rest =
      let q = record p { name = convert_to_lowercase p.name } in
      do
        require (ltb 0 (length p.name)) "Corrupted header line" 400
        set_buffer (edited q ++ rest)
        if get_or q.name 0 0 == b'c' then known_header q rest else report_header q

  -- A header, the end of its last line, and the rest of the buffer.
  split_header : Bytes → Bytes → Option (Bytes × Bytes) → Step C Done
  unfolding named_header cut_parts
  split_header ending rest none = refuse "Corrupted header line" 400
  split_header ending rest (some (before, after)) =
      named_header (cut_parts before after ending) rest

  unfoldable pub parse_header : Bytes → Bytes → Bytes → Step C Done
  unfolding split_header split_at
  parse_header line ending rest = split_header ending rest (split_at b':' line)
