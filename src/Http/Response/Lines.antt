-- ===== src/Http/Response/Lines.antt =====
-- The lines of the head of a response, and the texts that are put out for them.
use mathlib.Core.List.{append_assoc}
use femc_driver.Prelude.{
  ℕ, ◌≡◌, refl, ap, Bool, true, false, not, ◌&&◌, none, some, List, [], ◌∷◌, ◌%◌, ◌^◌,
  if◌then◌else◌, ◌++◌, String, length, ◌==◌,
}
use femc_driver.Http.{Bytes, Version, no_version, version_1_0, version_1_1, MessageState}
use femc_driver.Http.Text.{codes}
use femc_driver.Http.Response.{
  status_text, decimal, version_text, default_message, content, is_1_0, Content, content_size,
}

abbrev pub optional : Bool → String → Bytes
optional true text = codes text
optional false text = []

-- The texts that are put out, one after the other.
abbrev pub parts_text : MessageState → ℕ → String → Bytes → ℕ → Bytes
parts_text m n message date size =
    ((status_text m.version n message date size
        ++ optional (not (size == 0)) "Content-type: text/plain\r\n")
      ++ optional m.closing "Connection: close\r\n")
    ++ optional (not m.closing && is_1_0 m.version) "Connection: Keep-Alive\r\n"

abbrev first_word : Version → String
first_word version_1_1 = "HTTP/1.1"
first_word v = "HTTP/1.0"

abbrev keeps_alive : Version → Bool
keeps_alive version_1_0 = true
keeps_alive v = false

-- What becomes of the connection is said but for HTTP/1.1 that goes on.
abbrev connection : MessageState → List Bytes
connection m =
    if m.closing
    then codes "Connection: close" ∷ []
    else if keeps_alive m.version
    then codes "Connection: Keep-Alive" ∷ []
    else []

-- The lines of the head.
abbrev pub head_lines : MessageState → ℕ → String → Bytes → ℕ → List Bytes
head_lines m n message date size =
    let rest =
      if size == 0 then connection m else codes "Content-type: text/plain" ∷ connection m in
    (codes (first_word m.version) ++ 32 ∷ (decimal n ++ 32 ∷ codes message))
    ∷ (codes "Date: " ++ date)
    ∷ (codes "Content-length: " ++ decimal size)
    ∷ rest

abbrev pub end_lines : List Bytes → Bytes
end_lines [] = []
end_lines (line ∷ lines) = line ++ 13 ∷ 10 ∷ end_lines lines

-- The whole head: each line ends with CR LF.
abbrev pub head_text : MessageState → ℕ → String → Bytes → ℕ → Bytes
head_text m n message date size = end_lines (head_lines m n message date size)

-- The content that was to be put out.
abbrev pub body : Content → String → Bytes
body default_message message = codes message
body (content none) message = []
body (content (some text)) message = text

pub content_size_lem :
    (c : Content) (message : String) → content_size c message ≡ length (body c message) % 2 ^ 32
unfolding content_size
content_size_lem default_message message = refl
content_size_lem (content none) message = refl
content_size_lem (content (some text)) message = refl

connection_lem :
    (m : MessageState)
    → end_lines (connection m)
      ≡ optional m.closing "Connection: close\r\n"
        ++ optional (not m.closing && is_1_0 m.version) "Connection: Keep-Alive\r\n"
connection_lem m = closes m.closing m.version
  where
    closes :
        (b : Bool) (v : Version)
        → end_lines (
            if b
            then codes "Connection: close" ∷ []
            else if keeps_alive v
            then codes "Connection: Keep-Alive" ∷ []
            else [])
          ≡ optional b "Connection: close\r\n"
            ++ optional (not b && is_1_0 v) "Connection: Keep-Alive\r\n"
    closes true v = refl
    closes false no_version = refl
    closes false version_1_0 = refl
    closes false version_1_1 = refl

options_lem :
    (m : MessageState) (size : ℕ)
    → end_lines
        (if size == 0 then connection m else codes "Content-type: text/plain" ∷ connection m)
      ≡ optional (not (size == 0)) "Content-type: text/plain\r\n"
        ++ (optional m.closing "Connection: close\r\n"
            ++ optional (not m.closing && is_1_0 m.version) "Connection: Keep-Alive\r\n")
options_lem m size = typed (size == 0)
  where
    typed :
        (b : Bool)
        → end_lines (if b then connection m else codes "Content-type: text/plain" ∷ connection m)
          ≡ optional (not b) "Content-type: text/plain\r\n"
            ++ (optional m.closing "Connection: close\r\n"
                ++ optional (not m.closing && is_1_0 m.version) "Connection: Keep-Alive\r\n")
    typed true = connection_lem m
    typed false = ap (λ (o : Bytes). codes "Content-type: text/plain\r\n" ++ o) (connection_lem m)

first_word_lem : (v : Version) → first_word v ≡ version_text v
first_word_lem no_version = refl
first_word_lem version_1_0 = refl
first_word_lem version_1_1 = refl

pub head_text_lem :
    (m : MessageState) (n : ℕ) (message : String) (date : Bytes) (size : ℕ)
    → head_text m n message date size ≡ parts_text m n message date size
unfolding status_text
head_text_lem m n message date size =
    rw (first_word_lem m.version, options_lem m size) (simp append_assoc refl)
