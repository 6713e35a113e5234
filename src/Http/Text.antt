-- ===== src/Http/Text.antt =====
-- http.c: the bytes of the lines. `memchr` is `split_at`, which gives what stands before the byte
-- that is found and what stands behind it; `isspace` is that of the C locale.
pub mod Lengths
pub mod Strip
use Prim.Native.Char.{code}
use femc_driver.Prelude.{
  ℕ, ◌+◌, Bool, true, false, ◌&&◌, ◌||◌, Option, none, some, List, [], ◌∷◌, ◌++◌, map, String, ltb,
  leb, ◌==◌, if◌then◌else◌,
}

-- The bytes of an ASCII text.
abbrev pub codes : String → List ℕ
codes String.[] = []
codes (String.◌∷◌ c s) = code c ∷ codes s

unfoldable pub bytes_eq : List ℕ → List ℕ → Bool
bytes_eq [] [] = true
bytes_eq (x ∷ xs) (y ∷ ys) = x == y && bytes_eq xs ys
bytes_eq _ _ = false

-- A zero-terminated string.
unfoldable pub c_string : List ℕ → List ℕ
c_string [] = []
c_string (x ∷ xs) = if x == 0 then [] else x ∷ c_string xs

-- `strcmp(s, text) == 0`
unfoldable pub str_eq : List ℕ → String → Bool
unfolding bytes_eq c_string
str_eq s text = bytes_eq (c_string s) (codes text)

-- `memcmp(s, text, length) == 0`, behind a test that the lengths are equal.
unfoldable pub mem_eq : List ℕ → String → Bool
unfolding bytes_eq
mem_eq s text = bytes_eq s (codes text)

unfoldable pub lower : ℕ → ℕ
lower c =
    if ltb c b'A'
    then c
    else if leb c b'Z'
    then c + 32
    else if ltb c 192 || c == 215
    then c
    else if leb c 222
    then c + 32
    else c

unfoldable pub convert_to_lowercase : List ℕ → List ℕ
unfolding lower
convert_to_lowercase = map lower

unfoldable pub isspace : ℕ → Bool
isspace c = (leb 9 c && leb c 13) || c == 32

unfoldable pub isdigit : ℕ → Bool
isdigit c = leb b'0' c && leb c b'9'

-- The white space at the start, and the rest.
unfoldable pub strip_ws_start : List ℕ → List ℕ × List ℕ
unfolding isspace
strip_ws_start [] = ([], [])
strip_ws_start (c ∷ cs) =
    let (space, rest) = strip_ws_start cs in if isspace c then (c ∷ space, rest) else ([], c ∷ cs)

-- One byte in front of a text that is stripped at its end.
unfoldable pub keep : ℕ → List ℕ × List ℕ → List ℕ × List ℕ
unfolding isspace
keep c ([], space) = if isspace c then ([], c ∷ space) else (c ∷ [], space)
keep c (x ∷ xs, space) = (c ∷ x ∷ xs, space)

-- The bytes up to the last one that is not white space, and the white space at the end.
unfoldable pub strip_ws_end : List ℕ → List ℕ × List ℕ
unfolding keep
strip_ws_end [] = ([], [])
strip_ws_end (c ∷ cs) = keep c (strip_ws_end cs)

-- White space, text, white space.
unfoldable pub strip_ws_both : List ℕ → List ℕ × List ℕ × List ℕ
unfolding strip_ws_start strip_ws_end
strip_ws_both s =
    let (front, trail) = strip_ws_end s in
    let (lead, text) = strip_ws_start front in (lead, text, trail)

unfoldable pub put_front : ℕ → Option (List ℕ × List ℕ) → Option (List ℕ × List ℕ)
put_front x none = none
put_front x (some (before, after)) = some (x ∷ before, after)

unfoldable pub split_at : ℕ → List ℕ → Option (List ℕ × List ℕ)
unfolding put_front
split_at c [] = none
split_at c (x ∷ xs) = if x == c then some ([], xs) else put_front x (split_at c xs)

-- A line whose last byte, if it is the given one, is left out.
unfoldable pub drop_last_if : ℕ → List ℕ → List ℕ
drop_last_if c [] = []
drop_last_if c (x ∷ []) = if x == c then [] else x ∷ []
drop_last_if c (x ∷ y ∷ ys) = x ∷ drop_last_if c (y ∷ ys)

unfoldable pub is_blank : ℕ → Bool
is_blank c = c == b' ' || c == 9

unfoldable pub skip_blanks : List ℕ → List ℕ
unfolding is_blank
skip_blanks [] = []
skip_blanks (c ∷ cs) = if is_blank c then skip_blanks cs else c ∷ cs
