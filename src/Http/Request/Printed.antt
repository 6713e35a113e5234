-- ===== src/Http/Request/Printed.antt =====
-- A request line is read back as it is printed.
use mathlib.Core.Path.{fun_ext}
use femc_driver.Prelude.{
  ℕ, ◌≡◌, ◌≢◌, refl, ap, ◌∙◌, Bool, true, not, none, some, [], ◌∷◌, ◌++◌, arith, length, All, ◌==◌,
  ltb, ltb-false, length-append,
}
use femc_driver.Http.{
  Bytes, headers, Method, no_method, get, head, post, Version, no_version, version_1_0, version_1_1,
  World, Out, went, ok, Step, Done, bind, ◌>>◌, change_message, set_buffer, set_progress, require,
}
use femc_driver.Http.Text.{codes, bytes_eq, split_at, drop_last_if}
use femc_driver.Http.Text.Lengths.{split_at-found}
use femc_driver.Http.Request.{
  known_method, known_version, closes, last_part, two_parts, three_parts, version_call, url_call,
  with_version, with_method, with_parts, with_line, read_request_line,
}
use femc_driver.Http.Request.Lines.{eol, cr_of, ends-append, split_at-eol, without_cr}

abbrev pub method_text : Method → Bytes
method_text no_method = []
method_text get = codes "GET"
method_text head = codes "HEAD"
method_text post = codes "POST"

abbrev pub version_text : Version → Bytes
version_text no_version = []
version_text version_1_0 = codes "HTTP/1.0"
version_text version_1_1 = codes "HTTP/1.1"

abbrev pub line_text : Method → Bytes → Version → Bytes
line_text m url v = method_text m ++ b' ' ∷ (url ++ b' ' ∷ version_text v)

abbrev pub print_line : Method → Bytes → Version → Bool → Bytes → Bytes
print_line m url v cr rest = line_text m url v ++ (eol cr ++ rest)

-- A byte of an URL, which ends at a space and at the end of the line.
abbrev pub IsUrlByte : ℕ → Type 0
IsUrlByte c = (c ≢ b' ') × (c ≢ 10)

module _ {C : Type 0} where
  -- The fields and the two callbacks, in the order of the line.
  abbrev pub accept_line : Method → Bytes → Version → Step C Done
  accept_line m url v = do
    change_message (λ s. record s { method = m })
    url_call m url
    change_message (λ s. record s { version = v })
    version_call v
    change_message (λ s. record s { closing = closes v })

All-append : (P : ℕ → Type 0) (xs ys : Bytes) → All P xs → All P ys → All P (xs ++ ys)
All-append P [] ys h k = k
All-append P (x ∷ xs) ys (p, h) k = (p, All-append P xs ys h k)

All-imp : (P Q : ℕ → Type 0) (xs : Bytes) → ((x : ℕ) → P x → Q x) → All P xs → All Q xs
All-imp P Q [] f h = tt
All-imp P Q (x ∷ xs) f (p, h) = (f x p, All-imp P Q xs f h)

method_text-IsUrlByte : (m : Method) → All IsUrlByte (method_text m)
method_text-IsUrlByte no_method = tt
method_text-IsUrlByte get = omega arith
method_text-IsUrlByte head = omega arith
method_text-IsUrlByte post = omega arith

version_text-IsUrlByte : (v : Version) → All IsUrlByte (version_text v)
version_text-IsUrlByte no_version = tt
version_text-IsUrlByte version_1_0 = omega arith
version_text-IsUrlByte version_1_1 = omega arith

known_method-text : (m : Method) → m ≢ no_method → known_method (method_text m) ≡ some m
unfolding known_method bytes_eq
known_method-text no_method h = absurd (h refl)
known_method-text get h = refl
known_method-text head h = refl
known_method-text post h = refl

known_version-text :
    (v : Version)
    → v ≢ no_version
    → (known_version (version_text v) ≡ some v)
      × (length (version_text v) ≡ 8)
      × (split_at b' ' (version_text v) ≡ none)
unfolding known_version bytes_eq split_at
known_version-text no_version h = absurd (h refl)
known_version-text version_1_0 h = (refl, refl, refl)
known_version-text version_1_1 h = (refl, refl, refl)

three_parts-text :
    (m : Method) (url : Bytes) (v : Version)
    → All IsUrlByte url
    → v ≢ no_version
    → three_parts (line_text m url v) ≡ some (method_text m, url, version_text v)
unfolding three_parts two_parts last_part
three_parts-text m url v h hv =
    let rest = url ++ b' ' ∷ version_text v in
    let (_, _, no_space) = known_version-text v hv in
    ap two_parts (
      split_at-found b' ' (method_text m) rest
        (All-imp IsUrlByte (λ c. c ≢ b' ') (method_text m) (λ x p. p.0) (method_text-IsUrlByte m)))
    ∙ ap (last_part (method_text m) rest) (
        split_at-found b' ' url (version_text v)
          (All-imp IsUrlByte (λ c. c ≢ b' ') url (λ x p. p.0) h))
    ∙ rw no_space refl

line_text-lacks :
    (m : Method) (url : Bytes) (v : Version)
    → All IsUrlByte url
    → All (λ c. c ≢ 10) (line_text m url v)
line_text-lacks m url v h =
    All-append (λ c. c ≢ 10) (method_text m) (b' ' ∷ (url ++ b' ' ∷ version_text v))
      (All-imp IsUrlByte (λ c. c ≢ 10) (method_text m) (λ x p. p.1) (method_text-IsUrlByte m))
      (
        omega arith,
        All-append (λ c. c ≢ 10) url (b' ' ∷ version_text v)
            (All-imp IsUrlByte (λ c. c ≢ 10) url (λ x p. p.1) h)
            (
              omega arith,
              All-imp IsUrlByte (λ c. c ≢ 10) (version_text v) (λ x p. p.1)
                  (version_text-IsUrlByte v),
            ),
      )

line_text-ends :
    (m : Method) (url : Bytes) (v : Version)
    → v ≢ no_version
    → drop_last_if 13 (line_text m url v) ≡ line_text m url v
unfolding drop_last_if
line_text-ends m url no_version h = absurd (h refl)
line_text-ends m url version_1_0 h =
    ends-append (method_text m) b' ' (url ++ b' ' ∷ version_text version_1_0)
      (ends-append (b' ' ∷ url) b' ' (version_text version_1_0) refl)
line_text-ends m url version_1_1 h =
    ends-append (method_text m) b' ' (url ++ b' ' ∷ version_text version_1_1)
      (ends-append (b' ' ∷ url) b' ' (version_text version_1_1) refl)

long_line :
    (m : Method) (url : Bytes) (v : Version) (cr : Bool)
    → v ≢ no_version
    → not (ltb (length (line_text m url v ++ cr_of cr)) 6) ≡ true
long_line m url v cr hv =
    let (_, eight, _) = known_version-text v hv in
    ap not (
      ltb-false (length (line_text m url v ++ cr_of cr)) 6 (
        omega (
          arith,
          length-append (line_text m url v) (cr_of cr),
          length-append (method_text m) (b' ' ∷ (url ++ b' ' ∷ version_text v)),
          length-append url (b' ' ∷ version_text v),
        )))

module _ {C : Type 0} where
  with_version-known :
      (v : Version) (w : World C)
      → v ≢ no_version
      → with_version (known_version (version_text v)) w ≡ with_version (some v) w
  with_version-known v w h = ap (λ r. with_version r w) (known_version-text v h).0

  require-text :
      (v : Version) (w : World C)
      → v ≢ no_version
      → require (length (version_text v) == 8) "Corrupted HTTP version" 400 w ≡ went ok w
  unfolding require
  require-text no_version w h = absurd (h refl)
  require-text version_1_0 w h = refl
  require-text version_1_1 w h = refl

  with_method-text :
      (m : Method) (url : Bytes) (v : Version) (w : World C)
      → v ≢ no_version
      → with_method url (version_text v) (some m) w ≡ accept_line m url v w
  unfolding with_method with_version
  with_method-text m url v w h =
      ap
        (λ (f : Done → Step C Done).
          bind
            (url_call m url (record w {
              parser = record w.parser {
                message_state = record w.parser.message_state { method = m };
              };
            }))
            f)
        (fun_ext (λ _. fun_ext (λ w'.
          ap (λ r. bind r (λ _. with_version (known_version (version_text v))))
            (require-text v w' h)
          ∙ with_version-known v w' h)))

  with_line-text :
      (m : Method) (url : Bytes) (v : Version) (cr : Bool) (rest : Bytes) (w : World C)
      → All IsUrlByte url
      → m ≢ no_method
      → v ≢ no_version
      → with_line (some (line_text m url v ++ cr_of cr, rest)) w
        ≡ (do set_buffer rest; accept_line m url v; set_progress headers) w
  unfolding with_line with_parts require
  with_line-text m url v cr rest w hu hm hv =
      let line = line_text m url v ++ cr_of cr in
      let next : Step C Done = (do
        with_parts (three_parts (drop_last_if 13 line))
        set_progress headers) in
      let w0 : World C = record w { buffer = rest } in
      let behind : Out C Done → Out C Done = λ r. bind r (λ _. set_progress headers) in
      ap
        (λ (b : Bool).
          bind (require b "Too short request line" 400 w) (λ _. do set_buffer rest; next))
        (long_line m url v cr hv)
      ∙ ap (λ (l : Bytes). behind (with_parts (three_parts l) w0))
          (without_cr [] (line_text m url v) cr (unfold drop_last_if in refl)
            (line_text-ends m url v hv))
      ∙ ap (λ r. behind (with_parts r w0)) (three_parts-text m url v hu hv)
      ∙ ap (λ r. behind (with_method url (version_text v) r w0)) (known_method-text m hm)
      ∙ ap behind (with_method-text m url v w0 hv)

  -- A request line with a known method and version, between which stands an URL without a space or a
  -- newline, is accepted, whether it ends with CR LF or with LF alone: its parts are given to the
  -- callbacks, as they are, and stored, and the buffer and the parser stand behind the line.
  pub read_request_line-print_line :
      (m : Method) (url : Bytes) (v : Version) (cr : Bool) (rest : Bytes) (w : World C)
      → All IsUrlByte url
      → m ≢ no_method
      → v ≢ no_version
      → w.buffer ≡ print_line m url v cr rest
      → read_request_line w ≡ (do set_buffer rest; accept_line m url v; set_progress headers) w
  unfolding read_request_line
  read_request_line-print_line m url v cr rest w hu hm hv e =
      ap (λ (b : Bytes). with_line (split_at 10 b) w) e
      ∙ ap (λ r. with_line r w)
          (split_at-eol (line_text m url v) cr rest (line_text-lacks m url v hu))
      ∙ with_line-text m url v cr rest w hu hm hv
