-- ===== src/S11n/Integers.antt =====
-- `fdu_s11n_write_uintN` and `fdu_s11n_read_uintN` for every N: round trip, guards, frame.
use femc_driver.Prelude.{
  ℕ, ◌+◌, ◌-◌, ◌*◌, ◌^◌, ◌≤◌, ◌<◌, ◌≡◌, ◌≢◌, refl, ◌∙◌, ap, Bool, true, false, Option, none, some,
  arith, ltb, ◌⊎◌, inl, inr, Bool-cases,
}
use femc_driver.ErrorStack.{
  ErrorStack, report_consistency, report_resource, fdu_context_s11n, invalid_arguments,
  buffer_overflow, buffer_underflow,
}
use femc_driver.Memory.{
  IsBytes, load_bytes, load_bytes-store_bytes, store_bytes-below, store_bytes-above,
}
use femc_driver.S11n.{
  State, Reply, refuse, checked, taken, put, bad_pointers, given, content, read_uint8, read_uint16,
  read_uint24, read_uint32, read_uint64, write_uint8, write_uint16, write_uint24, write_uint32,
  write_uint64,
}
use femc_driver.S11n.ByteOrder.{
  Width, w8, w16, w24, w32, w64, bytes, decode, encode, length-encode, decode-encode, number,
  in_order, decode-number,
}

-- The reader and the writer of each width.
unfoldable pub read : Width → Bool → Option ℕ → ℕ → State → Reply
unfolding read_uint8 read_uint16 read_uint24 read_uint32 read_uint64
read w8 value datap end s = read_uint8 value datap end s
read w16 value datap end s = read_uint16 value datap end s
read w24 value datap end s = read_uint24 value datap end s
read w32 value datap end s = read_uint32 value datap end s
read w64 value datap end s = read_uint64 value datap end s

unfoldable pub write : Width → Option ℕ → Option ℕ → ℕ → State → Reply
unfolding write_uint8 write_uint16 write_uint24 write_uint32 write_uint64
write w8 value datap end s = write_uint8 value datap end s
write w16 value datap end s = write_uint16 value datap end s
write w24 value datap end s = write_uint24 value datap end s
write w32 value datap end s = write_uint32 value datap end s
write w64 value datap end s = write_uint64 value datap end s

read_lem :
    (w : Width) (value : Bool) (datap : Option ℕ) (end : ℕ) (s : State)
    → read w value datap end s
      ≡ checked value datap end
          (bytes w)
          buffer_underflow
          s
          (taken (bytes w) (decode w s.endianness) datap s)
unfolding read bytes decode
read_lem w8 value datap end s = refl
read_lem w16 value datap end s = refl
read_lem w24 value datap end s = refl
read_lem w32 value datap end s = refl
read_lem w64 value datap end s = refl

write_lem :
    (w : Width) (value : Option ℕ) (datap : Option ℕ) (end : ℕ) (s : State)
    → write w value datap end s
      ≡ checked
          (given value)
          datap
          end
          (bytes w)
          buffer_overflow
          s
          (put (encode w s.endianness (content value)) datap s)
unfolding write bytes encode
write_lem w8 value datap end s = refl
write_lem w16 value datap end s = refl
write_lem w24 value datap end s = refl
write_lem w32 value datap end s = refl
write_lem w64 value datap end s = refl

-- Non-null pointers, with `width` bytes left between `*datap` and `end`.
pub record Fits (p end width : ℕ) : Type 0 where
  pub p_ne : p ≢ 0
  pub inside : p + width ≤ end

checked-Fits :
    (p end width failure : ℕ) (s : State) (done : Reply)
    → Fits p end width
    → checked true (some p) end width failure s done ≡ done
unfolding checked
checked-Fits p end width failure s done f = ground (arith, f.p_ne, f.inside)

pub read-Fits :
    (w : Width) (p end : ℕ) (s : State)
    → Fits p end (bytes w)
    → read w true (some p) end s ≡ taken (bytes w) (decode w s.endianness) (some p) s
read-Fits w p end s f =
    read_lem w true (some p) end s ∙ checked-Fits p end (bytes w) buffer_underflow s _ f

pub write-Fits :
    (w : Width) (v p end : ℕ) (s : State)
    → Fits p end (bytes w)
    → write w (some v) (some p) end s ≡ put (encode w s.endianness v) (some p) s
write-Fits w v p end s f =
    write_lem w (some v) (some p) end s ∙ checked-Fits p end (bytes w) buffer_overflow s _ f

-- A value of any width that is written where it fits is read back, in either byte order, and both
-- calls leave `*datap` just behind it.
pub read-write :
    (w : Width) (v p end : ℕ) (s : State)
    → v < 2 ^ (8 * bytes w)
    → Fits p end (bytes w)
    → let written = write w (some v) (some p) end s in
      let again = read w true (some p) end written.state in
      (written.ok ≡ true)
      × (written.datap ≡ some (p + bytes w))
      × (again.ok ≡ true)
      × (again.value ≡ some v)
      × (again.datap ≡ some (p + bytes w))
unfolding put taken
read-write w v p end s h f =
    let len = length-encode w s.endianness v in
    let stored = load_bytes-store_bytes (encode w s.endianness v) p s.mem in
    rw (write-Fits w v p end s f, read-Fits w p end _ f)
      (
        refl,
        ap (λ (k : ℕ). some (p + k)) len,
        refl,
        ap (λ (x : ℕ). some x)
            (ap (decode w s.endianness) (rw len at stored) ∙ decode-encode w s.endianness v h),
        refl,
      )

-- Where there is room, a read returns the number that the bytes at `*datap` are the digits of, in
-- base 256 and in the set order, moves `*datap` past them and changes nothing else.
pub read-number :
    (w : Width) (p end : ℕ) (s : State)
    → IsBytes s.mem
    → Fits p end (bytes w)
    → let r = read w true (some p) end s in
      (r.value ≡ some (number (in_order s.endianness (load_bytes p (bytes w) s.mem))))
      × (r.datap ≡ some (p + bytes w))
      × (r.state ≡ s)
unfolding taken
read-number w p end s h f =
    rw (read-Fits w p end s f)
      (ap (λ (x : ℕ). some x) (decode-number w s.endianness p s.mem h), refl, refl)

-- A write, whether it succeeds or not, changes no byte outside of the `bytes w` bytes at `*datap`.
pub write_frame :
    (w : Width) (value : Option ℕ) (p end : ℕ) (s : State) (a : ℕ)
    → (a < p) ⊎ (p + bytes w ≤ a)
    → (write w value (some p) end s).state.mem a ≡ s.mem a
unfolding checked put refuse
write_frame w value p end s a h =
    let image = encode w s.endianness (content value) in
    let len = length-encode w s.endianness (content value) in
    rw (write_lem w value (some p) end s) (elim h [
      | inl l ↦ ground (arith, store_bytes-below image p a s.mem l)
      | inr g ↦ ground (arith, store_bytes-above image p a s.mem (omega (arith, len)))
    ])

-- What a refused call leaves: no result, `*datap`, memory and byte order as they were, and on the
-- error stack the context with the one failure or the other.
pub record Refused (failure : ℕ) (datap : Option ℕ) (s : State) (r : Reply) : Type 0 where
  pub value : r.value ≡ none
  pub datap_kept : r.datap ≡ datap
  pub mem : r.state.mem ≡ s.mem
  pub order : r.state.endianness ≡ s.endianness
  pub reported :
      (r.state.stack ≡ report_consistency fdu_context_s11n invalid_arguments s.stack)
      ⊎ (r.state.stack ≡ report_resource fdu_context_s11n failure s.stack)

-- The exact condition under which the two checks let a call pass.
abbrev pub Passes : Bool → Option ℕ → ℕ → ℕ → Type 0
Passes value none end width = ⊥
Passes value (some p) end width =
    (value ≡ true) × (p ≢ 0) × (end ≢ 0) × (p ≤ end) × (p + width ≤ end)

abbrev pub Judged : ℕ → Bool → Option ℕ → ℕ → ℕ → State → Reply → Reply → Type 0
Judged failure value datap end width s done r =
    (Passes value datap end width × (r ≡ done))
    ⊎ ((¬ Passes value datap end width) × ((r.ok ≡ false) × Refused failure datap s r))

refuse-Refused :
    (failure : ℕ) (datap : Option ℕ) (s : State) (stack : ErrorStack)
    → (stack ≡ report_consistency fdu_context_s11n invalid_arguments s.stack)
      ⊎ (stack ≡ report_resource fdu_context_s11n failure s.stack)
    → ((refuse datap stack s).ok ≡ false) × Refused failure datap s (refuse datap stack s)
unfolding refuse
refuse-Refused failure datap s stack h =
    (refl, record { value = refl; datap_kept = refl; mem = refl; order = refl; reported = h })

checked-Judged :
    (value : Bool) (datap : Option ℕ) (end width failure : ℕ) (s : State) (done : Reply)
    → Judged failure value datap end width s done (checked value datap end width failure s done)
unfolding checked
checked-Judged value none end width failure s done =
    inr (λ h. h, refuse-Refused failure none s _ (inl refl))
checked-Judged value (some p) end width failure s done =
    elim (Bool-cases (bad_pointers value (some p) end)) [
      | inl bad ↦ rw bad (inr (λ h. ground arith, refuse-Refused failure (some p) s _ (inl refl)))
      | inr good ↦ elim (Bool-cases (ltb (end - p) width)) [
        | inl short ↦
            rw (good, short)
              (inr (λ h. ground arith, refuse-Refused failure (some p) s _ (inr refl)))
        | inr long ↦ rw (good, long) (inl (ground arith, refl))
      ]
    ]

-- A read passes its checks exactly where `value` and `*datap` and `end` are not null and `bytes w`
-- bytes lie between `*datap` and `end`; then it returns what `taken` says, else it is refused.
pub read-Judged :
    (w : Width) (value : Bool) (datap : Option ℕ) (end : ℕ) (s : State)
    → Judged buffer_underflow value datap end
        (bytes w)
        s
        (taken (bytes w) (decode w s.endianness) datap s)
        (read w value datap end s)
read-Judged w value datap end s =
    rw (read_lem w value datap end s)
      (checked-Judged value datap end (bytes w) buffer_underflow s _)

-- A write likewise, with the failure of an overflow.
pub write-Judged :
    (w : Width) (value : Option ℕ) (datap : Option ℕ) (end : ℕ) (s : State)
    → Judged buffer_overflow
        (given value)
        datap
        end
        (bytes w)
        s
        (put (encode w s.endianness (content value)) datap s)
        (write w value datap end s)
write-Judged w value datap end s =
    rw (write_lem w value datap end s)
      (checked-Judged (given value) datap end (bytes w) buffer_overflow s _)
