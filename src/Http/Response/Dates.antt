-- ===== src/Http/Response/Dates.antt =====
-- The text of a date, and of decimal numbers.
use femc_driver.Prelude.{
  ℕ, zero, suc, ◌+◌, ◌/◌, ◌%◌, ◌≤◌, ◌<◌, ◌≡◌, refl, ap, ◌∙◌, none, some, List, [], ◌∷◌, String,
  arith, length, get_or, All, ltb, ltb-true, ltb-false, ◌==◌, if◌then◌else◌, length-append,
}
use femc_driver.Http.{Bytes}
use femc_driver.Http.Text.{codes}
use femc_driver.Http.Response.{
  Tm, week_days, months, decimal_digits, decimal, two_digits, date_text, get_http_date,
}

length-decimal_digits-small : (fuel n : ℕ) → n < 10 → length (decimal_digits (suc fuel) n) ≡ 1
unfolding decimal_digits
length-decimal_digits-small fuel n h = rw (ltb-true n 10 h) refl

length-decimal_digits :
    (fuel n : ℕ)
    → 10 ≤ n
    → length (decimal_digits (suc fuel) n) ≡ suc (length (decimal_digits fuel (n / 10)))
unfolding decimal_digits
length-decimal_digits fuel n h =
    rw (ltb-false n 10 h)
      (omega (arith, length-append (decimal_digits fuel (n / 10)) ((b'0' + n % 10) ∷ [])))

length-decimal_year : (y : ℕ) → 1000 ≤ y → y < 10000 → length (decimal y) ≡ 4
unfolding decimal
length-decimal_year y lo hi =
    length-decimal_digits 9 y (omega arith)
    ∙ ap suc (length-decimal_digits 8 (y / 10) (omega arith))
    ∙ ap (λ (n : ℕ). suc (suc n)) (length-decimal_digits 7 (y / 10 / 10) (omega arith))
    ∙ ap (λ (n : ℕ). suc (suc (suc n)))
        (length-decimal_digits-small 6 (y / 10 / 10 / 10) (omega arith))

get_or-All :
    (P : String → Type 0) (xs : List String) (i : ℕ) (d : String)
    → All P xs
    → i < length xs
    → P (get_or xs i d)
get_or-All P [] i d h l = absurd (omega arith)
get_or-All P (x ∷ xs) zero d (p, h) l = p
get_or-All P (x ∷ xs) (suc i) d (p, h) l = get_or-All P xs i d h (omega arith)

abbrev Three : String → Type 0
Three s = length (codes s) ≡ 3

length-week_day : (n : ℕ) → length (codes (get_or week_days (n % 7) "")) ≡ 3
length-week_day n = get_or-All Three week_days (n % 7) "" (omega arith) (omega arith)

length-month : (n : ℕ) → length (codes (get_or months (n % 12) "")) ≡ 3
length-month n = get_or-All Three months (n % 12) "" (omega arith) (omega arith)

length-date_text : (tm : Tm) → 1000 ≤ tm.year → tm.year < 10000 → length (date_text tm) ≡ 29
unfolding date_text two_digits
length-date_text tm lo hi =
    simp length-append (
      omega
        (arith, length-week_day tm.wday, length-month tm.mon, length-decimal_year tm.year lo hi))

-- With a year of four digits the date has 29 bytes, and it is given.
pub get_http_date-some :
    (tm : Tm)
    → 1000 ≤ tm.year
    → tm.year < 10000
    → (text : Bytes) × (get_http_date tm ≡ some text) × (length text ≡ 29)
unfolding get_http_date
get_http_date-some tm lo hi =
    let len = length-date_text tm lo hi in
    (
      date_text tm,
      ap (λ (n : ℕ). if (if ltb n 30 then n else 0) == 29 then some (date_text tm) else none) len,
      len,
    )
