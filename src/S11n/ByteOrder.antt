-- ===== src/S11n/ByteOrder.antt =====
-- The shifts and `|` of s11n.c against sums of digits in base 256.
use mathlib.Core.List.{reverse}
use native.Mathlib.Nat.{one-le-pow}
use femc_driver.Prelude.{
  ◌≤◌, ℕ, ◌+◌, ◌*◌, ◌/◌, ◌^◌, ◌<◌, bit_or, ◌≡◌, refl, ◌∙◌, ap, List, [], ◌∷◌, arith, length,
}
use femc_driver.Prelude.Bits.{bit_or_fields}
use femc_driver.Memory.{Memory, IsBytes, load_bytes}
use femc_driver.S11n.{
  Endianness, big_endian, little_endian, nth, u8, join32, join64, decode_uint16, decode_uint24,
  decode_uint32, decode_uint64, encode_uint16, encode_uint24, encode_uint32, encode_uint64,
}

abbrev IsByte : ℕ → Type 0
IsByte b = b < 256

-- The number of a list of digits, the most significant first.
unfoldable pub from_digits : ℕ → List ℕ → ℕ
from_digits acc [] = acc
from_digits acc (d ∷ ds) = from_digits (acc * 256 + d) ds

unfoldable pub number : List ℕ → ℕ
unfolding from_digits
number [] = 0
number (d ∷ ds) = from_digits d ds

-- One step of a chain of `|`: `q` is what the bytes above have made up, `b` is the next byte.
or_step :
    (j k q b : ℕ)
    → 2 ^ j ≡ 256 * 2 ^ k
    → b < 256
    → bit_or (q * 2 ^ j) (b * 2 ^ k) ≡ (q * 256 + b) * 2 ^ k
or_step j k q b e h =
    let fits : b * 2 ^ k < 2 ^ j = rw e (below (2 ^ k) (one-le-pow k 2 (omega arith))) in
    bit_or_fields j q (q * 2 ^ j) (b * 2 ^ k) refl fits ∙ omega (arith, ap (λ (t : ℕ). q * t) e)
  where
    below : (t : ℕ) → 1 ≤ t → b * t < 256 * t
    below t p = grind arith

or_last : (q b : ℕ) → b < 256 → bit_or (q * 2 ^ 8) b ≡ q * 256 + b
or_last q b h = bit_or_fields 8 q (q * 2 ^ 8) b refl h

join32_lem :
    (a b c d : ℕ) → IsByte b → IsByte c → IsByte d → join32 a b c d ≡ number (a ∷ b ∷ c ∷ d ∷ [])
unfolding join32 number
join32_lem a b c d hb hc hd =
    rw (or_step 24 16 a b refl hb, or_step 16 8 (a * 256 + b) c refl hc, or_last _ d hd)

join64_lem :
    (a b c d e f g h : ℕ)
    → IsByte b
    → IsByte c
    → IsByte d
    → IsByte e
    → IsByte f
    → IsByte g
    → IsByte h
    → join64 a b c d e f g h ≡ number (a ∷ b ∷ c ∷ d ∷ e ∷ f ∷ g ∷ h ∷ [])
unfolding join64 number
join64_lem a b c d e f g h hb hc hd he hf hg hh = rw (
  or_step 56 48 a b refl hb,
  or_step 48 40 _ c refl hc,
  or_step 40 32 _ d refl hd,
  or_step 32 24 _ e refl he,
  or_step 24 16 _ f refl hf,
  or_step 16 8 _ g refl hg,
  or_last _ h hh,
)

-- The widths of the integers that are read and written.
pub data Width : Type 0 where
  w8 w16 w24 w32 w64 : Width

unfoldable pub bytes : Width → ℕ
bytes w8 = 1
bytes w16 = 2
bytes w24 = 3
bytes w32 = 4
bytes w64 = 8

unfoldable pub decode : Width → Endianness → List ℕ → ℕ
decode w8 e ds = nth ds 0
decode w16 e ds = decode_uint16 e ds
decode w24 e ds = decode_uint24 e ds
decode w32 e ds = decode_uint32 e ds
decode w64 e ds = decode_uint64 e ds

unfoldable pub encode : Width → Endianness → ℕ → List ℕ
encode w8 e v = u8 v ∷ []
encode w16 e v = encode_uint16 e v
encode w24 e v = encode_uint24 e v
encode w32 e v = encode_uint32 e v
encode w64 e v = encode_uint64 e v

pub length-encode : (w : Width) (e : Endianness) (v : ℕ) → length (encode w e v) ≡ bytes w
unfolding encode bytes encode_uint16 encode_uint24 encode_uint32 encode_uint64
length-encode w8 e v = refl
length-encode w16 big_endian v = refl
length-encode w16 little_endian v = refl
length-encode w24 big_endian v = refl
length-encode w24 little_endian v = refl
length-encode w32 big_endian v = refl
length-encode w32 little_endian v = refl
length-encode w64 big_endian v = refl
length-encode w64 little_endian v = refl

join8_lem : (a : ℕ) → a ≡ number (a ∷ [])
unfolding number
join8_lem a = refl

join16_lem : (a b : ℕ) → IsByte b → bit_or (a * 2 ^ 8) b ≡ number (a ∷ b ∷ [])
unfolding number
join16_lem a b hb = or_last a b hb

join24_lem :
    (a b c : ℕ)
    → IsByte b
    → IsByte c
    → bit_or (bit_or (a * 2 ^ 16) (b * 2 ^ 8)) c ≡ number (a ∷ b ∷ c ∷ [])
unfolding number
join24_lem a b c hb hc = rw (or_step 16 8 a b refl hb, or_last (a * 256 + b) c hc)

-- `load_bytes` of a whole integer, the most significant byte first.
unfoldable pub in_order : Endianness → List ℕ → List ℕ
in_order big_endian ds = ds
in_order little_endian ds = reverse ds

-- Decoding a region of bytes gives the number whose digits in base 256 they are, in their order
-- or in reverse.
pub decode-number :
    (w : Width) (e : Endianness) (p : ℕ) (m : Memory)
    → IsBytes m
    → decode w e (load_bytes p (bytes w) m) ≡ number (in_order e (load_bytes p (bytes w) m))
unfolding decode bytes load_bytes in_order decode_uint16 decode_uint24 decode_uint32 decode_uint64
    number
decode-number w8 big_endian p m h = join8_lem _
decode-number w8 little_endian p m h = join8_lem _
decode-number w16 big_endian p m h = join16_lem _ _ (h _)
decode-number w16 little_endian p m h = join16_lem _ _ (h _)
decode-number w24 big_endian p m h = join24_lem _ _ _ (h _) (h _)
decode-number w24 little_endian p m h = join24_lem _ _ _ (h _) (h _)
decode-number w32 big_endian p m h = join32_lem _ _ _ _ (h _) (h _) (h _)
decode-number w32 little_endian p m h = join32_lem _ _ _ _ (h _) (h _) (h _)
decode-number w64 big_endian p m h =
    join64_lem _ _ _ _ _ _ _ _ (h _) (h _) (h _) (h _) (h _) (h _) (h _)
decode-number w64 little_endian p m h =
    join64_lem _ _ _ _ _ _ _ _ (h _) (h _) (h _) (h _) (h _) (h _) (h _)

u8-IsByte : (v : ℕ) → IsByte (u8 v)
u8-IsByte v = omega arith

-- Each width's bytes, joined by the code's shifts, make up the value again.
module _ (v : ℕ) where
  rejoin16 : v < 2 ^ 16 → bit_or (u8 (v / 2 ^ 8) * 2 ^ 8) (u8 v) ≡ v
  unfolding number
  rejoin16 h = join16_lem (u8 (v / 2 ^ 8)) (u8 v) (u8-IsByte v) ∙ omega arith

  rejoin24 :
      v < 2 ^ 24 → bit_or (bit_or (u8 (v / 2 ^ 16) * 2 ^ 16) (u8 (v / 2 ^ 8) * 2 ^ 8)) (u8 v) ≡ v
  unfolding number
  rejoin24 h =
      join24_lem (u8 (v / 2 ^ 16)) (u8 (v / 2 ^ 8)) (u8 v) (u8-IsByte _) (u8-IsByte v) ∙ omega arith

  rejoin32 : v < 2 ^ 32 → join32 (u8 (v / 2 ^ 24)) (u8 (v / 2 ^ 16)) (u8 (v / 2 ^ 8)) (u8 v) ≡ v
  unfolding number
  rejoin32 h =
      join32_lem (u8 (v / 2 ^ 24)) (u8 (v / 2 ^ 16)) (u8 (v / 2 ^ 8)) (u8 v) (u8-IsByte _)
        (u8-IsByte _) (u8-IsByte v)
      ∙ omega arith

  rejoin64 :
      v < 2 ^ 64
      → join64
          (u8 (v / 2 ^ 56))
          (u8 (v / 2 ^ 48))
          (u8 (v / 2 ^ 40))
          (u8 (v / 2 ^ 32))
          (u8 (v / 2 ^ 24))
          (u8 (v / 2 ^ 16))
          (u8 (v / 2 ^ 8))
          (u8 v)
        ≡ v
  unfolding number
  rejoin64 h =
      join64_lem (u8 (v / 2 ^ 56)) (u8 (v / 2 ^ 48)) (u8 (v / 2 ^ 40)) (u8 (v / 2 ^ 32))
        (u8 (v / 2 ^ 24)) (u8 (v / 2 ^ 16)) (u8 (v / 2 ^ 8)) (u8 v) (u8-IsByte _) (u8-IsByte _)
        (u8-IsByte _) (u8-IsByte _) (u8-IsByte _) (u8-IsByte _) (u8-IsByte v)
      ∙ omega arith

-- Decoding what was encoded in the same order gives the value back.
pub decode-encode :
    (w : Width) (e : Endianness) (v : ℕ) → v < 2 ^ (8 * bytes w) → decode w e (encode w e v) ≡ v
unfolding decode encode bytes decode_uint16 decode_uint24 decode_uint32 decode_uint64 encode_uint16
    encode_uint24 encode_uint32 encode_uint64
decode-encode w8 e v h = omega arith
decode-encode w16 big_endian v h = rejoin16 v h
decode-encode w16 little_endian v h = rejoin16 v h
decode-encode w24 big_endian v h = rejoin24 v h
decode-encode w24 little_endian v h = rejoin24 v h
decode-encode w32 big_endian v h = rejoin32 v h
decode-encode w32 little_endian v h = rejoin32 v h
decode-encode w64 big_endian v h = rejoin64 v h
decode-encode w64 little_endian v h = rejoin64 v h

-- The little-endian image is the big-endian one backwards.
pub encode-reverse :
    (w : Width) (v : ℕ) → encode w little_endian v ≡ reverse (encode w big_endian v)
unfolding encode encode_uint16 encode_uint24 encode_uint32 encode_uint64
encode-reverse w8 v = refl
encode-reverse w16 v = refl
encode-reverse w24 v = refl
encode-reverse w32 v = refl
encode-reverse w64 v = refl
