-- ===== src/Can/Ids.antt =====
-- The bits of CAN ids: those that the code tests, masks and sets.
use femc_driver.Prelude.{
  ℕ, ◌+◌, ◌-◌, ◌/◌, ◌%◌, ◌^◌, ◌≤◌, ◌<◌, ◌≡◌, refl, ◌∙◌, bit_and, bit_or, Bool, true, false, arith,
  if◌then◌else◌, List, length,
}
use femc_driver.Prelude.Bits.{bit_and_bit, bit_and_mask, bit_or_high}
use femc_driver.S11n.{big_endian, encode_uint16, encode_uint32, u8}
use femc_driver.Can.{ext_id_bit, ext_byte_bit, id_std_value_mask, id_ext_value_mask, is_set}

-- An extended id is 29 bits beside the flag, a standard one 11 bits.
abbrev pub HasForm : Bool → ℕ → Type 0
HasForm true id = (2 ^ 31 ≤ id) × (id < 2 ^ 31 + 2 ^ 29)
HasForm false id = id < 2 ^ 11

is_set-zero : (n : ℕ) → n ≡ 0 → is_set n ≡ false
is_set-zero n h = ground arith

is_set-pos : (n : ℕ) → 0 < n → is_set n ≡ true
is_set-pos n h = ground arith

pub ext_id_bit-HasForm : (e : Bool) (id : ℕ) → HasForm e id → is_set (bit_and id ext_id_bit) ≡ e
ext_id_bit-HasForm true id h =
    is_set-pos _
      (omega (arith, bit_and_bit 31 0 id 1 (id - 2 ^ 31) (omega arith) (omega arith) (omega arith)))
ext_id_bit-HasForm false id h =
    is_set-zero _ (bit_and_bit 31 0 id 0 id (omega arith) (omega arith) (omega arith))

-- The first byte of the image tells the form.
abbrev pub first_byte : Bool → ℕ → ℕ
first_byte true id = u8 (id / 2 ^ 24)
first_byte false id = u8 (id % 2 ^ 16 / 2 ^ 8)

pub ext_byte_bit-HasForm :
    (e : Bool) (id : ℕ) → HasForm e id → is_set (bit_and (first_byte e id) ext_byte_bit) ≡ e
ext_byte_bit-HasForm true id h = is_set-pos _ (
    omega (
      arith,
      bit_and_bit 7 0 (u8 (id / 2 ^ 24)) 1 (u8 (id / 2 ^ 24) - 2 ^ 7) (omega arith) (omega arith)
          (omega arith),
    ))
ext_byte_bit-HasForm false id h = is_set-zero _ (
    bit_and_bit 7 0 (u8 (id % 2 ^ 16 / 2 ^ 8)) 0 (u8 (id % 2 ^ 16 / 2 ^ 8)) (omega arith)
      (omega arith) (omega arith))

-- The id comes back from what was written of it.
pub id-extended : (id : ℕ) → HasForm true id → bit_or (bit_and id id_ext_value_mask) ext_id_bit ≡ id
id-extended id h =
    let low = bit_and_mask 29 id id_ext_value_mask refl in
    let small : bit_and id id_ext_value_mask < 2 ^ 31 = omega (arith, low) in
    bit_or_high 31 1 (bit_and id id_ext_value_mask) ext_id_bit refl small ∙ omega (arith, low)

pub id-standard : (id : ℕ) → HasForm false id → bit_and (id % 2 ^ 16) id_std_value_mask ≡ id
id-standard id h = bit_and_mask 11 (id % 2 ^ 16) id_std_value_mask refl ∙ omega arith

-- The bytes of the id, in network order.
unfoldable pub id_bytes : Bool → ℕ → List ℕ
id_bytes true id = encode_uint32 big_endian id
id_bytes false id = encode_uint16 big_endian (id % 2 ^ 16)

abbrev pub id_size : Bool → ℕ
id_size e = if e then 4 else 2

pub length-id_bytes : (e : Bool) (id : ℕ) → length (id_bytes e id) ≡ id_size e
unfolding id_bytes encode_uint16 encode_uint32
length-id_bytes true id = refl
length-id_bytes false id = refl
