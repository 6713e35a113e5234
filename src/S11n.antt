-- ===== src/S11n.antt =====
-- s11n.c and s11n.h: integers and byte strings to and from a buffer, in either byte order.
--
-- A `T*` argument that may be `NULL` is a Bool (a place for the result) or an Option (a value that is
-- read); `datap` is an Option over `*datap`, and a pointer into a buffer is an address.
pub mod ByteOrder
pub mod Integers
pub mod Regions
mod Tests
use femc_driver.Prelude.{
  ℕ, ◌+◌, ◌-◌, ◌*◌, ◌/◌, ◌%◌, ◌^◌, ◌<◌, bit_or, ◌≡◌, Bool, true, false, not, ◌||◌, Option, none,
  some, List, [], ◌∷◌, ltb, leb, ◌==◌, if◌then◌else◌, length, get_or,
}
use femc_driver.ErrorStack.{
  ErrorStack, report_consistency, report_resource, fdu_context_s11n, invalid_arguments,
  buffer_overflow, buffer_underflow,
}
use femc_driver.Memory.{Memory, store, store_bytes, load_bytes, copy}

pub data Endianness : Type 0 where
  big_endian little_endian : Endianness

-- The statics of s11n.c and error_stack.c, and the memory that the pointers reach.
pub record State : Type 0 where
  pub stack : ErrorStack
  pub endianness : Endianness
  pub mem : Memory

unfoldable pub get_endianness : State → Endianness
get_endianness s = s.endianness

-- The argument is an enum, any number of which a caller can pass.
unfoldable pub set_endianness : ℕ → State → Bool × State
set_endianness e s =
    if e == 0
    then (true, record s { endianness = big_endian })
    else if e == 1
    then (true, record s { endianness = little_endian })
    else (false, record s { stack = report_consistency fdu_context_s11n invalid_arguments s.stack })

-- What a call returns, stores through `value` (if it does) and leaves in `*datap`.
pub record Reply : Type 0 where
  pub ok : Bool
  pub value : Option ℕ
  pub datap : Option ℕ
  pub state : State

-- `!value || !datap || !end || !*datap || *datap > end`
abbrev pub bad_pointers : Bool → Option ℕ → ℕ → Bool
bad_pointers value none end = true
bad_pointers value (some p) end = not value || end == 0 || p == 0 || ltb end p

abbrev pub cursor : Option ℕ → ℕ
cursor none = 0
cursor (some p) = p

unfoldable pub refuse : Option ℕ → ErrorStack → State → Reply
refuse datap stack s = record {
  ok = false;
  value = none;
  datap = datap;
  state = record s { stack = stack };
}

-- The two checks that every function begins with: of its pointers, and of `end - *datap`.
unfoldable pub checked : Bool → Option ℕ → ℕ → ℕ → ℕ → State → Reply → Reply
unfolding refuse
checked value datap end width failure s done =
    if bad_pointers value datap end
    then refuse datap (report_consistency fdu_context_s11n invalid_arguments s.stack) s
    else if ltb (end - cursor datap) width
    then refuse datap (report_resource fdu_context_s11n failure s.stack) s
    else done

abbrev pub u8 : ℕ → ℕ
u8 v = v % 2 ^ 8

-- `data[i]`
abbrev pub nth : List ℕ → ℕ → ℕ
nth data' i = get_or data' i 0

-- The expressions over `data[0]`, `data[1]`, … of the two cases of each switch.
pub decode_uint16 : Endianness → List ℕ → ℕ
decode_uint16 big_endian d = bit_or (nth d 0 * 2 ^ 8) (nth d 1)
decode_uint16 little_endian d = bit_or (nth d 1 * 2 ^ 8) (nth d 0)

pub decode_uint24 : Endianness → List ℕ → ℕ
decode_uint24 big_endian d = bit_or (bit_or (nth d 0 * 2 ^ 16) (nth d 1 * 2 ^ 8)) (nth d 2)
decode_uint24 little_endian d = bit_or (bit_or (nth d 2 * 2 ^ 16) (nth d 1 * 2 ^ 8)) (nth d 0)

join32 : ℕ → ℕ → ℕ → ℕ → ℕ
join32 a b c d = bit_or (bit_or (bit_or (a * 2 ^ 24) (b * 2 ^ 16)) (c * 2 ^ 8)) d

pub decode_uint32 : Endianness → List ℕ → ℕ
unfolding join32
decode_uint32 big_endian d = join32 (nth d 0) (nth d 1) (nth d 2) (nth d 3)
decode_uint32 little_endian d = join32 (nth d 3) (nth d 2) (nth d 1) (nth d 0)

join64 : ℕ → ℕ → ℕ → ℕ → ℕ → ℕ → ℕ → ℕ → ℕ
join64 a b c d e f g h =
    bit_or
      (bit_or
        (bit_or
          (bit_or (bit_or (bit_or (bit_or (a * 2 ^ 56) (b * 2 ^ 48)) (c * 2 ^ 40)) (d * 2 ^ 32))
            (e * 2 ^ 24))
          (f * 2 ^ 16))
        (g * 2 ^ 8))
      h

pub decode_uint64 : Endianness → List ℕ → ℕ
unfolding join64
decode_uint64 big_endian d =
    join64 (nth d 0) (nth d 1) (nth d 2) (nth d 3) (nth d 4) (nth d 5) (nth d 6) (nth d 7)
decode_uint64 little_endian d =
    join64 (nth d 7) (nth d 6) (nth d 5) (nth d 4) (nth d 3) (nth d 2) (nth d 1) (nth d 0)

-- The bytes that the assignments to `data[0]`, `data[1]`, … leave, in the order of their addresses.
unfoldable pub encode_uint16 : Endianness → ℕ → List ℕ
encode_uint16 big_endian v = u8 (v / 2 ^ 8) ∷ u8 v ∷ []
encode_uint16 little_endian v = u8 v ∷ u8 (v / 2 ^ 8) ∷ []

unfoldable pub encode_uint24 : Endianness → ℕ → List ℕ
encode_uint24 big_endian v = u8 (v / 2 ^ 16) ∷ u8 (v / 2 ^ 8) ∷ u8 v ∷ []
encode_uint24 little_endian v = u8 v ∷ u8 (v / 2 ^ 8) ∷ u8 (v / 2 ^ 16) ∷ []

unfoldable pub encode_uint32 : Endianness → ℕ → List ℕ
encode_uint32 big_endian v = u8 (v / 2 ^ 24) ∷ u8 (v / 2 ^ 16) ∷ u8 (v / 2 ^ 8) ∷ u8 v ∷ []
encode_uint32 little_endian v = u8 v ∷ u8 (v / 2 ^ 8) ∷ u8 (v / 2 ^ 16) ∷ u8 (v / 2 ^ 24) ∷ []

unfoldable pub encode_uint64 : Endianness → ℕ → List ℕ
encode_uint64 big_endian v =
    u8 (v / 2 ^ 56)
    ∷ u8 (v / 2 ^ 48)
    ∷ u8 (v / 2 ^ 40)
    ∷ u8 (v / 2 ^ 32)
    ∷ u8 (v / 2 ^ 24)
    ∷ u8 (v / 2 ^ 16)
    ∷ u8 (v / 2 ^ 8)
    ∷ u8 v
    ∷ []
encode_uint64 little_endian v =
    u8 v
    ∷ u8 (v / 2 ^ 8)
    ∷ u8 (v / 2 ^ 16)
    ∷ u8 (v / 2 ^ 24)
    ∷ u8 (v / 2 ^ 32)
    ∷ u8 (v / 2 ^ 40)
    ∷ u8 (v / 2 ^ 48)
    ∷ u8 (v / 2 ^ 56)
    ∷ []

-- `*value = …; *datap += width; return true;`
unfoldable pub taken : ℕ → (List ℕ → ℕ) → Option ℕ → State → Reply
taken width decode datap s = record {
  ok = true;
  value = some (decode (load_bytes (cursor datap) width s.mem));
  datap = some (cursor datap + width);
  state = s;
}

unfoldable pub put : List ℕ → Option ℕ → State → Reply
put bytes datap s = record {
  ok = true;
  value = none;
  datap = some (cursor datap + length bytes);
  state = record s { mem = store_bytes (cursor datap) bytes s.mem };
}

pub read_uint8 : Bool → Option ℕ → ℕ → State → Reply
unfolding checked taken
read_uint8 value datap end s =
    checked value datap end 1 buffer_underflow s (taken 1 (λ d. nth d 0) datap s)

pub read_uint16 : Bool → Option ℕ → ℕ → State → Reply
unfolding checked taken decode_uint16
read_uint16 value datap end s =
    checked value datap end 2 buffer_underflow s (taken 2 (decode_uint16 s.endianness) datap s)

pub read_uint24 : Bool → Option ℕ → ℕ → State → Reply
unfolding checked taken decode_uint24
read_uint24 value datap end s =
    checked value datap end 3 buffer_underflow s (taken 3 (decode_uint24 s.endianness) datap s)

pub read_uint32 : Bool → Option ℕ → ℕ → State → Reply
unfolding checked taken decode_uint32
read_uint32 value datap end s =
    checked value datap end 4 buffer_underflow s (taken 4 (decode_uint32 s.endianness) datap s)

pub read_uint64 : Bool → Option ℕ → ℕ → State → Reply
unfolding checked taken decode_uint64
read_uint64 value datap end s =
    checked value datap end 8 buffer_underflow s (taken 8 (decode_uint64 s.endianness) datap s)

-- A float is its four bytes.
pub read_float : Bool → Option ℕ → ℕ → State → Reply
unfolding read_uint32
read_float value datap end s = read_uint32 value datap end s

abbrev pub given : Option ℕ → Bool
given none = false
given (some v) = true

abbrev pub content : Option ℕ → ℕ
content none = 0
content (some v) = v

pub write_uint8 : Option ℕ → Option ℕ → ℕ → State → Reply
unfolding checked put
write_uint8 value datap end s =
    checked (given value) datap end 1 buffer_overflow s (put (u8 (content value) ∷ []) datap s)

pub write_uint16 : Option ℕ → Option ℕ → ℕ → State → Reply
unfolding checked put encode_uint16
write_uint16 value datap end s =
    checked (given value) datap end 2 buffer_overflow s
      (put (encode_uint16 s.endianness (content value)) datap s)

pub write_uint24 : Option ℕ → Option ℕ → ℕ → State → Reply
unfolding checked put encode_uint24
write_uint24 value datap end s =
    checked (given value) datap end 3 buffer_overflow s
      (put (encode_uint24 s.endianness (content value)) datap s)

pub write_uint32 : Option ℕ → Option ℕ → ℕ → State → Reply
unfolding checked put encode_uint32
write_uint32 value datap end s =
    checked (given value) datap end 4 buffer_overflow s
      (put (encode_uint32 s.endianness (content value)) datap s)

pub write_uint64 : Option ℕ → Option ℕ → ℕ → State → Reply
unfolding checked put encode_uint64
write_uint64 value datap end s =
    checked (given value) datap end 8 buffer_overflow s
      (put (encode_uint64 s.endianness (content value)) datap s)

pub write_float : Option ℕ → Option ℕ → ℕ → State → Reply
unfolding write_uint32
write_float value datap end s = write_uint32 value datap end s

-- The region `[value_start, value_end)` beside the buffer.
abbrev pub bad_regions : ℕ → ℕ → Option ℕ → ℕ → Bool
bad_regions value_start value_end none end = true
bad_regions value_start value_end (some p) end =
    value_start == 0
    || value_end == 0
    || end == 0
    || ltb value_end value_start
    || p == 0
    || ltb end p

-- `uint32_t bytes`
abbrev pub region_size : ℕ → ℕ → ℕ
region_size value_start value_end = (value_end - value_start) % 2 ^ 32

moved : ℕ → Option ℕ → Memory → State → Reply
moved size datap mem s = record {
  ok = true;
  value = none;
  datap = some (cursor datap + size);
  state = record s { mem = mem };
}

pub read_bytes : ℕ → ℕ → Option ℕ → ℕ → Bool → State → Reply
unfolding refuse moved
read_bytes value_start value_end datap end write_null s =
    let bytes = region_size value_start value_end in
    let copied = copy value_start (cursor datap) bytes s.mem in
    if bad_regions value_start value_end datap end
    then refuse datap (report_consistency fdu_context_s11n invalid_arguments s.stack) s
    else if ltb (end - cursor datap) (value_end - value_start)
    then refuse datap (report_resource fdu_context_s11n buffer_underflow s.stack) s
    else moved bytes datap (if write_null then store (value_start + bytes) 0 copied else copied) s

pub write_bytes : ℕ → ℕ → Option ℕ → ℕ → State → Reply
unfolding refuse moved
write_bytes value_start value_end datap end s =
    let bytes = region_size value_start value_end in
    if bad_regions value_start value_end datap end
    then refuse datap (report_consistency fdu_context_s11n invalid_arguments s.stack) s
    else if ltb (end - cursor datap) (value_end - value_start)
    then refuse datap (report_resource fdu_context_s11n buffer_overflow s.stack) s
    else moved bytes datap (copy (cursor datap) value_start bytes s.mem) s
