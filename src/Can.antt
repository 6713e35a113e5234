-- ===== src/Can.antt =====
-- can.c, can.h, can.fwd.h: CAN frames in a binary and in a text form, on top of s11n.c.
--
-- A frame argument that may be `NULL` is an Option; a reader is given the frame as it was, since it
-- fills `data` only as far as the size says.
pub mod Ids
pub mod RoundTrip
pub mod Order
pub mod Text
mod Tests
use mathlib.Core.Option.{get_or as or_else}
use femc_driver.Prelude.{
  ℕ, zero, suc, ◌+◌, ◌-◌, ◌*◌, ◌/◌, ◌%◌, ◌^◌, bit_and, bit_or, Bool, true, false, not, ◌&&◌, ◌||◌,
  Option, none, some, List, [], ◌∷◌, ◌++◌, ltb, leb, ◌==◌, if◌then◌else◌, length, take, drop,
}
use femc_driver.ErrorStack.{
  ErrorStack, push_context, pop_context, push_consistency_failure_id, push_resource_failure_id,
  push_data_corruption, report_consistency, report_resource, fdu_context_can, invalid_arguments,
  buffer_overflow, buffer_underflow,
}
use femc_driver.Memory.{Memory, store, store_bytes, load_bytes}
use femc_driver.S11n.{
  Endianness, big_endian, little_endian, State, set_endianness, get_endianness, cursor,
  bad_pointers, read_uint16, read_uint32, write_uint16, write_uint32,
}

-- `fdu_can_frame_t`; `data` is an array of eight bytes.
pub record CanFrame : Type 0 where
  pub id : ℕ
  pub size : ℕ
  pub bytes : List ℕ

abbrev pub ext_id_bit : ℕ
ext_id_bit = 0x80000000

abbrev pub ext_byte_bit : ℕ
ext_byte_bit = 0x80

abbrev pub id_std_value_mask : ℕ
id_std_value_mask = 0x7ff

abbrev pub id_ext_value_mask : ℕ
id_ext_value_mask = 0x1fffffff

-- What a call returns, leaves in `*value` and in `*startp`.
pub record CanReply : Type 0 where
  pub ok : Bool
  pub frame : Option CanFrame
  pub startp : Option ℕ
  pub state : State

abbrev pub is_set : ℕ → Bool
is_set n = not (n == 0)

abbrev pub present : Option CanFrame → Bool
present none = false
present (some f) = true

abbrev pub blank : CanFrame
blank = record { id = 0; size = 0; bytes = [] }

pub stop : Option CanFrame → Option ℕ → State → ErrorStack → CanReply
stop value startp s stack = record {
  ok = false;
  frame = value;
  startp = startp;
  state = record s { stack = stack };
}

-- The id that goes to `value->id` and the cursor `data` behind it, if the reader of s11n.c succeeds,
-- and the error stack that the reader leaves.
unfoldable pub read_id : Bool → ℕ → ℕ → State → Option (ℕ × ℕ) × ErrorStack
read_id extended start end s =
    let wide = read_uint32 true (some start) end s in
    let narrow = read_uint16 true (some start) end s in
    let wide_id = bit_or (bit_and (or_else wide.value 0) id_ext_value_mask) ext_id_bit in
    let narrow_id = bit_and (or_else narrow.value 0) id_std_value_mask in
    if extended
    then (if wide.ok then some (wide_id, cursor wide.datap) else none, wide.state.stack)
    else (if narrow.ok then some (narrow_id, cursor narrow.datap) else none, narrow.state.stack)

-- The part of `fdu_s11n_read_can_bin_` behind the reader of the id: size, data, `*startp`, the pop.
pub fill_frame : CanFrame → ℕ → ℕ → Option ℕ → State → Option (ℕ × ℕ) × ErrorStack → CanReply
fill_frame old size start ectx s (none, stack) = stop (some old) (some start) s stack
fill_frame old size start ectx s (some (id, at), stack) =
    let from = at + 1 in
    let (popped, after) = pop_context fdu_context_can ectx stack in
    record {
      ok = popped;
      frame = some (record {
        id = id;
        size = size;
        bytes = load_bytes from size s.mem ++ drop size old.bytes;
      });
      startp = some (from + size);
      state = record s { stack = after };
    }

-- `fdu_s11n_read_can_bin_` behind the push of its context `ectx`, which is on the stack of `s`.
pub read_checked : Option CanFrame → Option ℕ → ℕ → ℕ → State → CanReply
read_checked value startp end ectx s =
    let start = cursor startp in
    let extended = is_set (bit_and (s.mem start) ext_byte_bit) in
    let size = s.mem (start + (if extended then 4 else 2)) in
    let underflow = stop value startp s (push_resource_failure_id buffer_underflow s.stack).1 in
    if bad_pointers (present value) startp end
    then stop value startp s (push_consistency_failure_id invalid_arguments s.stack).1
    else if ltb (end - start) 3
    then underflow
    else if extended && ltb (end - start) 5
    then underflow
    else if ltb 8 size
    then stop value startp s (push_data_corruption (some "can frame size over 8") s.stack).1
    else if ltb (end - start) ((if extended then 5 else 3) + size)
    then underflow
    else fill_frame (or_else value blank) size start (some ectx) s (read_id extended start end s)

pub read_can_bin' : Option CanFrame → Option ℕ → ℕ → State → CanReply
read_can_bin' value startp end s =
    let (ectx, stack) = push_context fdu_context_can none s.stack in
    elim ectx [
      | none ↦ stop value startp s stack
      | some e ↦ read_checked value startp end e (record s { stack = stack })
    ]

-- The id, by the writers of s11n.c; `tmp_id` is an uint16_t.
pub write_id : Bool → ℕ → Option ℕ → ℕ → State → Bool × Option ℕ × State
write_id extended id startp end s =
    let wide = write_uint32 (some id) startp end s in
    let narrow = write_uint16 (some (id % 2 ^ 16)) startp end s in
    if extended then (wide.ok, wide.datap, wide.state) else (narrow.ok, narrow.datap, narrow.state)

pub write_can_bin' : Option CanFrame → Option ℕ → ℕ → State → CanReply
write_can_bin' value startp end s =
    let frame = or_else value blank in
    let extended = is_set (bit_and frame.id ext_id_bit) in
    let frame_size = (if extended then 5 else 3) + frame.size in
    let (ok, at, s') = write_id extended frame.id startp end s in
    let image = frame.size ∷ take frame.size frame.bytes in
    if bad_pointers (present value) startp end || ltb 8 frame.size
    then stop value startp s (report_consistency fdu_context_can invalid_arguments s.stack)
    else if ltb (end - cursor startp) frame_size
    then stop value startp s (report_resource fdu_context_can buffer_overflow s.stack)
    else if not ok
    then stop value at s' s'.stack
    else record {
      ok = true;
      frame = value;
      startp = some (cursor at + length image);
      state = record s' { mem = store_bytes (cursor at) image s'.mem };
    }

-- Both forms run in network byte order, and set the order back that they found.
abbrev pub order_code : Endianness → ℕ
order_code big_endian = 0
order_code little_endian = 1

pub in_network_order : (State → CanReply) → Endianness → State → CanReply
in_network_order call big_endian s = call s
in_network_order call old s =
    let r = call (set_endianness (order_code big_endian) s).1 in
    record r { state = (set_endianness (order_code old) r.state).1 }

pub read_can_bin : Option CanFrame → Option ℕ → ℕ → State → CanReply
unfolding in_network_order
read_can_bin value startp end s =
    in_network_order (read_can_bin' value startp end) (get_endianness s) s

pub write_can_bin : Option CanFrame → Option ℕ → ℕ → State → CanReply
unfolding in_network_order
write_can_bin value startp end s =
    in_network_order (write_can_bin' value startp end) (get_endianness s) s

-- The character that `write_nibble` stores. The argument is an unsigned char.
pub nibble_char : ℕ → ℕ
nibble_char byte =
    let nibble = bit_and (byte % 2 ^ 8) 0x0f in
    if leb nibble 9 then b'0' + nibble else if leb nibble 0x0f then b'A' - 0x0a + nibble else b'?'

pub calc_byte_size : Bool → ℕ → Bool → ℕ
calc_byte_size extended can_data_size write_null =
    let count = (if extended then 8 else 4) + 3 in
    let sized =
      if can_data_size == 0
      then count
      else if can_data_size == 1
      then count + 2
      else count + (can_data_size - 1) * 3 + 2 in
    if write_null then sized + 1 else sized

-- `write_nibble(startp, can_id >> s)`, for each shift in turn.
pub nibbles : ℕ → List ℕ → List ℕ
unfolding nibble_char
nibbles id [] = []
nibbles id (s ∷ shifts) = nibble_char (id / 2 ^ s) ∷ nibbles id shifts

pub id_text : Bool → ℕ → List ℕ
unfolding nibbles
id_text true id = nibbles id (28 ∷ 24 ∷ 20 ∷ 16 ∷ 12 ∷ 8 ∷ 4 ∷ 0 ∷ [])
id_text false id = nibbles id (12 ∷ 8 ∷ 4 ∷ 0 ∷ [])

byte_text : ℕ → List ℕ
unfolding nibble_char
byte_text b = nibble_char (b / 2 ^ 4) ∷ nibble_char b ∷ []

-- The loop over the data; `i` is the index of the first byte of the list.
pub data_text : ℕ → List ℕ → List ℕ
unfolding byte_text
data_text i [] = []
data_text i (b ∷ bs) =
    let rest = data_text (i + 1) bs in
    if i == 0 then byte_text b ++ rest else b' ' ∷ (byte_text b ++ rest)

-- All that `fdu_s11n_write_can_txt` stores before the null byte.
pub frame_text : CanFrame → List ℕ
unfolding id_text nibble_char data_text
frame_text f =
    let can_id = bit_and f.id id_ext_value_mask in
    let extended = is_set (bit_and f.id ext_id_bit) in
    id_text extended can_id
    ++ (b' ' ∷ b' ' ∷ nibble_char f.size ∷ b' ' ∷ b' ' ∷ data_text 0 (take f.size f.bytes))

pub write_can_txt : Option CanFrame → Option ℕ → ℕ → Bool → State → CanReply
write_can_txt value startp end write_null s =
    let (ectx, stack) = push_context fdu_context_can none s.stack in
    let s' = record s { stack = stack } in
    let frame = or_else value blank in
    let start = cursor startp in
    let extended = is_set (bit_and frame.id ext_id_bit) in
    let text = frame_text frame in
    let written = store_bytes start text s.mem in
    let mem = if write_null then store (start + length text) 0 written else written in
    elim ectx [
      | none ↦ stop value startp s stack
      | some e ↦
          let (popped, after) = pop_context fdu_context_can (some e) stack in
          if bad_pointers (present value) startp end || ltb 8 frame.size
          then stop value startp s' (push_consistency_failure_id invalid_arguments stack).1
          else if ltb (end - start) (calc_byte_size extended frame.size write_null)
          then stop value startp s' (push_resource_failure_id buffer_overflow stack).1
          else record {
            ok = popped;
            frame = value;
            startp = some (start + length text);
            state = record s { stack = after; mem = mem };
          }
    ]
