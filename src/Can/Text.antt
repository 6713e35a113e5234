-- ===== src/Can/Text.antt =====
-- The text form: how long it is, against what `calc_byte_size` asks for.
use femc_driver.Prelude.{
  ℕ, suc, ◌+◌, ◌-◌, ◌*◌, ◌≤◌, ◌≡◌, ◌≢◌, refl, ap, Bool, true, false, none, some, List, [], ◌∷◌,
  arith, ltb, if◌then◌else◌, length, length-append, take, ltb-false, bit_and, ◌||◌,
}
use femc_driver.ErrorStack.{fdu_context_can}
use femc_driver.ErrorStack.Contexts.{HasRoom, pop-push, push_context-room}
use femc_driver.Memory.{store_bytes}
use femc_driver.S11n.{State, bad_pointers}
use femc_driver.Can.{
  CanFrame, present, is_set, ext_id_bit, id_ext_value_mask, nibbles, id_text, data_text, frame_text,
  nibble_char, calc_byte_size, write_can_txt,
}

length-nibbles : (id : ℕ) (shifts : List ℕ) → length (nibbles id shifts) ≡ length shifts
unfolding nibbles
length-nibbles id [] = refl
length-nibbles id (s ∷ shifts) = ap suc (length-nibbles id shifts)

length-id_text : (e : Bool) (id : ℕ) → length (id_text e id) ≡ (if e then 8 else 4)
unfolding id_text
length-id_text true id = length-nibbles id (28 ∷ 24 ∷ 20 ∷ 16 ∷ 12 ∷ 8 ∷ 4 ∷ 0 ∷ [])
length-id_text false id = length-nibbles id (12 ∷ 8 ∷ 4 ∷ 0 ∷ [])

length-data_text_later : (bs : List ℕ) (i : ℕ) → length (data_text (suc i) bs) ≡ 3 * length bs
unfolding data_text
length-data_text_later [] i = refl
length-data_text_later (b ∷ bs) i = ground (
  arith,
  ap (λ (k : ℕ). length (data_text k bs)) {x = suc i + 1} {y = suc (suc i)} (omega arith),
  length-data_text_later bs (suc i),
)

length-data_text : (bs : List ℕ) → length (data_text 0 bs) ≡ 3 * length bs - 1
unfolding data_text
length-data_text [] = refl
length-data_text (b ∷ bs) = omega (arith, length-data_text_later bs 0)

abbrev pub extended : CanFrame → Bool
extended f = is_set (bit_and f.id ext_id_bit)

-- The text is two characters longer than the size that the function asks for.
pub length-frame_text :
    (f : CanFrame)
    → length (take f.size f.bytes) ≡ f.size
    → length (frame_text f) ≡ calc_byte_size (extended f) f.size false + 2
unfolding frame_text calc_byte_size
length-frame_text f filled = ground (
  arith,
  length-append (id_text (extended f) (bit_and f.id id_ext_value_mask))
      (b' ' ∷ b' ' ∷ nibble_char f.size ∷ b' ' ∷ b' ' ∷ data_text 0 (take f.size f.bytes)),
  length-id_text (extended f) (bit_and f.id id_ext_value_mask),
  length-data_text (take f.size f.bytes),
  filled,
)

module _ (f : CanFrame) (p end : ℕ) (s : State) (short : f.size ≤ 8)
    (filled : length (take f.size f.bytes) ≡ f.size) (p_ne : p ≢ 0) (room : HasRoom s.stack)
    (fits : p + calc_byte_size (extended f) f.size false ≤ end) where
  pointers : (bad_pointers (present (some f)) (some p) end || ltb 8 f.size) ≡ false
  pointers = ground arith

  size_checked : ltb (end - p) (calc_byte_size (extended f) f.size false) ≡ false
  size_checked = ltb-false _ _ (omega arith)

  -- Without a null byte: wherever the function finds enough room for the size that it has
  -- calculated, it succeeds and stores the text, two bytes more than that size, so that a buffer of
  -- just that size is overrun by two bytes.
  pub write_can_txt_overrun :
      let r = write_can_txt (some f) (some p) end false s in
      (r.ok ≡ true)
      × (r.state.mem ≡ store_bytes p (frame_text f) s.mem)
      × (r.startp ≡ some (p + calc_byte_size (extended f) f.size false + 2))
  unfolding write_can_txt
  write_can_txt_overrun =
      let (ptr, _, _, _) = push_context-room fdu_context_can none s.stack room.1 in
      let len : p + length (frame_text f) ≡ p + calc_byte_size (extended f) f.size false + 2 =
        omega (arith, length-frame_text f filled) in
      rw (ptr, write_can_txt)
        (rw (pointers, size_checked)
          (pop-push fdu_context_can s.stack room, refl, ap (λ (k : ℕ). some k) len))
