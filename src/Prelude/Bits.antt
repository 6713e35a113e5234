-- ===== src/Prelude/Bits.antt =====
-- `|` of bit fields that do not overlap is their sum; `&` with a mask of low bits or with one bit
-- is a remainder or that bit.
use Prim.Native.Nat.{
  ℕ, zero, suc, ◌+◌, ◌*◌, ◌/◌, ◌%◌, ◌^◌, ◌≤◌, ◌<◌, min, max, bit_or, bit_and, digits,
  bit_or-bitwise, bit_and-bitwise,
}
use mathlib.Core.Path.{◌≡◌, refl, ap, ◌∙◌}
use native.Mathlib.Nat.{pow-suc, one-le-pow}
use native.Mathlib.Omega.{arith}

-- The recursion that `bit_or` stands for, on fuel.
abbrev or_digits : ℕ → ℕ → ℕ → ℕ
or_digits n a b = digits (λ y. y) max n a b

or_digits-zero : (n a : ℕ) → a ≤ n → or_digits n a 0 ≡ a
or_digits-zero zero zero h = refl
or_digits-zero zero (suc a) h = absurd (omega arith)
or_digits-zero (suc n) zero h = refl
or_digits-zero (suc n) (suc a) h = omega (arith, or_digits-zero n (suc a / 2) (omega arith))

-- `a` has `k` zero bits at its low end, and `r` fits into them.
or_digits-fields : (k q n a r : ℕ) → a ≡ q * 2 ^ k → r < 2 ^ k → a ≤ n → or_digits n a r ≡ a + r
or_digits-fields zero q n a r e fits h =
    ap (λ (t : ℕ). or_digits n a t) {x = r} {y = 0} (omega arith)
    ∙ omega (arith, or_digits-zero n a h)
or_digits-fields (suc k) q zero zero r e fits h = omega arith
or_digits-fields (suc k) q zero (suc a) r e fits h = absurd (omega arith)
or_digits-fields (suc k) q (suc n) zero r e fits h = omega arith
or_digits-fields (suc k) q (suc n) (suc a) r e fits h =
    let half : suc a ≡ 2 * (q * 2 ^ k) = omega (arith, e, ap (λ (t : ℕ). q * t) (pow-suc 2 k)) in
    let room : r < 2 * 2 ^ k = omega (arith, pow-suc 2 k) in
    omega
      (arith, or_digits-fields k q n (suc a / 2) (r / 2) (omega arith) (omega arith) (omega arith))

-- `a | r`, where the low `k` bits of `a` are zero and `r` has no others.
pub bit_or_fields : (k q a r : ℕ) → a ≡ q * 2 ^ k → r < 2 ^ k → bit_or a r ≡ a + r
bit_or_fields k q a r e fits = bit_or-bitwise a r ∙ or_digits-fields k q a a r e fits (omega arith)

bit_or_fields_test : bit_or (5 * 2 ^ 4) 10 ≡ 90
bit_or_fields_test = refl

-- The high field on the right.
or_digits_low : (k q n r b : ℕ) → b ≡ q * 2 ^ k → r < 2 ^ k → r ≤ n → or_digits n r b ≡ r + b
or_digits_low k q zero zero b e fits h = omega arith
or_digits_low k q (suc n) zero b e fits h = omega arith
or_digits_low k q zero (suc r) b e fits h = absurd (omega arith)
or_digits_low zero q (suc n) (suc r) b e fits h = absurd (omega arith)
or_digits_low (suc k) q (suc n) (suc r) b e fits h =
    let half : b ≡ 2 * (q * 2 ^ k) = omega (arith, e, ap (λ (t : ℕ). q * t) (pow-suc 2 k)) in
    let room : suc r < 2 * 2 ^ k = omega (arith, pow-suc 2 k) in
    omega (arith, or_digits_low k q n (suc r / 2) (b / 2) (omega arith) (omega arith) (omega arith))

pub bit_or_high : (k q r b : ℕ) → b ≡ q * 2 ^ k → r < 2 ^ k → bit_or r b ≡ r + b
bit_or_high k q r b e fits = bit_or-bitwise r b ∙ or_digits_low k q r r b e fits (omega arith)

abbrev and_digits : ℕ → ℕ → ℕ → ℕ
and_digits n a b = digits (λ y. 0) min n a b

and_digits-zero : (n a : ℕ) → a ≤ n → and_digits n a 0 ≡ 0
and_digits-zero zero zero h = refl
and_digits-zero zero (suc a) h = absurd (omega arith)
and_digits-zero (suc n) zero h = refl
and_digits-zero (suc n) (suc a) h = omega (arith, and_digits-zero n (suc a / 2) (omega arith))

-- `m` is `2 ^ k - 1`, and `r` the low `k` bits of `a`.
and_digits_mask :
    (k q n a r m : ℕ) → a ≡ q * 2 ^ k + r → r < 2 ^ k → m + 1 ≡ 2 ^ k → a ≤ n → and_digits n a m ≡ r
and_digits_mask k q zero zero r m e fits me h = omega arith
and_digits_mask k q (suc n) zero r m e fits me h = omega arith
and_digits_mask k q zero (suc a) r m e fits me h = absurd (omega arith)
and_digits_mask zero q (suc n) (suc a) r m e fits me h =
    ap (λ (t : ℕ). and_digits (suc n) (suc a) t) {x = m} {y = 0} (omega arith)
    ∙ and_digits-zero (suc n) (suc a) h
    ∙ omega arith
and_digits_mask (suc k) q (suc n) (suc a) r m e fits me h =
    let half : suc a ≡ 2 * (q * 2 ^ k) + r =
      omega (arith, e, ap (λ (t : ℕ). q * t) (pow-suc 2 k)) in
    let room : (r < 2 * 2 ^ k) × (m + 1 ≡ 2 * 2 ^ k) = omega (arith, pow-suc 2 k) in
    omega (
      arith,
      and_digits_mask k q n (suc a / 2) (r / 2) (m / 2) (omega arith) (omega arith) (omega arith)
          (omega arith),
    )

-- `a & (2 ^ k - 1)`
pub bit_and_mask : (k a m : ℕ) → m + 1 ≡ 2 ^ k → bit_and a m ≡ a % 2 ^ k
bit_and_mask k a m e =
    bit_and-bitwise a m
    ∙ and_digits_mask k (a / 2 ^ k) a a (a % 2 ^ k) m (grind (arith, one-le-pow k 2))
        (grind (arith, one-le-pow k 2)) e (omega arith)

-- `h` is bit `k` of `a`, and `b` is `1 << k`.
and_digits_bit :
    (k q n a h r b : ℕ)
    → a ≡ q * (2 * 2 ^ k) + h * 2 ^ k + r
    → h < 2
    → r < 2 ^ k
    → b ≡ 2 ^ k
    → a ≤ n
    → and_digits n a b ≡ h * 2 ^ k
and_digits_bit k q zero zero h r b e hh fits be le = omega arith
and_digits_bit k q (suc n) zero h r b e hh fits be le = omega arith
and_digits_bit k q zero (suc a) h r b e hh fits be le = absurd (omega arith)
and_digits_bit zero q (suc n) (suc a) h r b e hh fits be le =
    let last : b / 2 ≡ 0 = omega arith in
    let rest : and_digits n (suc a / 2) (b / 2) ≡ 0 =
      ap (λ (t : ℕ). and_digits n (suc a / 2) t) last
      ∙ and_digits-zero n (suc a / 2) (omega arith) in
    omega arith
and_digits_bit (suc k) q (suc n) (suc a) h r b e hh fits be le =
    let p = pow-suc 2 k in
    let half : suc a ≡ 2 * (q * (2 * 2 ^ k) + h * 2 ^ k) + r =
      omega (arith, e, ap (λ (t : ℕ). q * (2 * t)) p, ap (λ (t : ℕ). h * t) p) in
    let room : (r < 2 * 2 ^ k) × (b ≡ 2 * 2 ^ k) = omega (arith, p) in
    let ih : and_digits n (suc a / 2) (b / 2) ≡ h * 2 ^ k =
      and_digits_bit k q n (suc a / 2) h (r / 2) (b / 2) (omega arith) hh (omega arith)
        (omega arith) (omega arith) in
    omega (arith, ih, ap (λ (t : ℕ). h * t) p)

-- `a & (1 << k)`, for a bit `h` of a number that is split at it.
pub bit_and_bit :
    (k q a h r : ℕ)
    → a ≡ q * (2 * 2 ^ k) + h * 2 ^ k + r
    → h < 2
    → r < 2 ^ k
    → bit_and a (2 ^ k) ≡ h * 2 ^ k
bit_and_bit k q a h r e hh fits =
    bit_and-bitwise a (2 ^ k) ∙ and_digits_bit k q a a h r (2 ^ k) e hh fits refl (omega arith)

-- `m` is a mask of `j` bits above the low `k` bits, and `q` what stands above the low `k` bits of `a`.
and_digits_high :
    (k j q c n a r m : ℕ)
    → a ≡ q * 2 ^ k + r
    → r < 2 ^ k
    → m ≡ c * 2 ^ k
    → c + 1 ≡ 2 ^ j
    → q < 2 ^ j
    → a ≤ n
    → and_digits n a m ≡ q * 2 ^ k
and_digits_high k j q c zero zero r m e fits me ce qe h = omega arith
and_digits_high k j q c (suc n) zero r m e fits me ce qe h = omega arith
and_digits_high k j q c zero (suc a) r m e fits me ce qe h = absurd (omega arith)
and_digits_high zero j q c (suc n) (suc a) r m e fits me ce qe h =
    let all : suc a ≡ q = omega arith in
    and_digits_mask j 0 (suc n) (suc a) q m (omega arith) qe (omega arith) h ∙ omega arith
and_digits_high (suc k) j q c (suc n) (suc a) r m e fits me ce qe h =
    let half : suc a ≡ 2 * (q * 2 ^ k) + r =
      omega (arith, e, ap (λ (t : ℕ). q * t) (pow-suc 2 k)) in
    let mask : m ≡ 2 * (c * 2 ^ k) = omega (arith, me, ap (λ (t : ℕ). c * t) (pow-suc 2 k)) in
    let room : r < 2 * 2 ^ k = omega (arith, pow-suc 2 k) in
    let ih : and_digits n (suc a / 2) (m / 2) ≡ q * 2 ^ k =
      and_digits_high k j q c n (suc a / 2) (r / 2) (m / 2) (omega arith) (omega arith)
        (omega arith) ce qe (omega arith) in
    omega (arith, ih, ap (λ (t : ℕ). q * t) (pow-suc 2 k))

-- `a & ~(2 ^ k - 1)`, for a number of `k + j` bits.
pub bit_and_high :
    (k j q c a r m : ℕ)
    → a ≡ q * 2 ^ k + r
    → r < 2 ^ k
    → m ≡ c * 2 ^ k
    → c + 1 ≡ 2 ^ j
    → q < 2 ^ j
    → bit_and a m ≡ q * 2 ^ k
bit_and_high k j q c a r m e fits me ce qe =
    bit_and-bitwise a m ∙ and_digits_high k j q c a a r m e fits me ce qe (omega arith)
