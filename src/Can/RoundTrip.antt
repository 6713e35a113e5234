-- ===== src/Can/RoundTrip.antt =====
-- `fdu_s11n_read_can_bin` reads what `fdu_s11n_write_can_bin` wrote.
use mathlib.Core.List.{append_assoc}
use femc_driver.Prelude.{
  ℕ, suc, ◌+◌, ◌-◌, ◌%◌, ◌^◌, ◌≤◌, ◌≡◌, ◌≢◌, refl, ◌∙◌, ap, sym, Bool, true, false, ◌&&◌, Option,
  some, List, [], ◌∷◌, ◌++◌, arith, ltb, if◌then◌else◌, length, length-append, take, drop,
  ltb-false,
}
use femc_driver.ErrorStack.{ErrorStack, pop_context, fdu_context_can}
use femc_driver.Memory.{
  Memory, store_bytes, load_bytes, store_bytes-append, load_bytes-prefix, load_bytes-suffix,
  store_bytes-at,
}
use femc_driver.S11n.{
  big_endian, State, encode_uint16, encode_uint32, put, taken, write_uint16, write_uint32,
  read_uint16, read_uint32, bad_pointers,
}
use femc_driver.S11n.ByteOrder.{w16, w32, bytes, encode, decode, decode-encode}
use femc_driver.S11n.Integers.{Fits, read, write, read-Fits, write-Fits}
use femc_driver.Can.{
  CanFrame, CanReply, present, write_id, write_can_bin', read_id, fill_frame, read_checked,
}
use femc_driver.Can.Ids.{
  HasForm, ext_id_bit-HasForm, ext_byte_bit-HasForm, first_byte, id-extended, id-standard, id_bytes,
  id_size, length-id_bytes,
}

-- A frame of the form `e` whose array is filled as far as its size says, and a buffer that takes it.
pub record Sendable (e : Bool) (f : CanFrame) (p end : ℕ) : Type 0 where
  pub form : HasForm e f.id
  pub short : f.size ≤ 8
  pub filled : length (take f.size f.bytes) ≡ f.size
  pub p_ne : p ≢ 0
  pub room : p + (id_size e + 1 + f.size) ≤ end

unfoldable pub image : Bool → CanFrame → List ℕ
image e f = id_bytes e f.id ++ f.size ∷ take f.size f.bytes

-- The functions of s11n.c that are called here, where their checks pass.
write_wide :
    (v p end : ℕ) (s : State)
    → Fits p end 4
    → write_uint32 (some v) (some p) end s ≡ put (encode_uint32 s.endianness v) (some p) s
unfolding write bytes encode
write_wide v p end s f = write-Fits w32 v p end s f

write_narrow :
    (v p end : ℕ) (s : State)
    → Fits p end 2
    → write_uint16 (some v) (some p) end s ≡ put (encode_uint16 s.endianness v) (some p) s
unfolding write bytes encode
write_narrow v p end s f = write-Fits w16 v p end s f

read_wide :
    (p end : ℕ) (s : State)
    → Fits p end 4
    → read_uint32 true (some p) end s ≡ taken 4 (decode w32 s.endianness) (some p) s
unfolding read bytes
read_wide p end s f = read-Fits w32 p end s f

read_narrow :
    (p end : ℕ) (s : State)
    → Fits p end 2
    → read_uint16 true (some p) end s ≡ taken 2 (decode w16 s.endianness) (some p) s
unfolding read bytes
read_narrow p end s f = read-Fits w16 p end s f

module _ (f : CanFrame) (p end : ℕ) (s : State) (net : s.endianness ≡ big_endian) where
  after_id : Bool → State
  after_id e = record s { mem = store_bytes p (id_bytes e f.id) s.mem }

  write_id-Sendable :
      (e : Bool)
      → Sendable e f p end
      → write_id e f.id (some p) end s ≡ (true, some (p + id_size e), after_id e)
  unfolding write_id after_id put id_bytes encode_uint16 encode_uint32
  write_id-Sendable true ok =
      rw (write_wide f.id p end s (record { p_ne = ok.p_ne; inside = omega arith }), net) refl
  write_id-Sendable false ok =
      rw
        (
          write_narrow (f.id % 2 ^ 16) p end s (record { p_ne = ok.p_ne; inside = omega arith }),
          net,
        )
        refl

  -- The writer's reply.
  unfoldable pub wrote : Bool → CanReply
  wrote e = record {
    ok = true;
    frame = some f;
    startp = some (p + id_size e + 1 + f.size);
    state = record s { mem = store_bytes p (image e f) s.mem };
  }

  pointers-Sendable :
      {e : Bool} → Sendable e f p end → bad_pointers (present (some f)) (some p) end ≡ false
  pointers-Sendable ok = ground (arith, ok.p_ne, ok.room)

  room-Sendable : (e : Bool) → Sendable e f p end → (if e then 5 else 3) + f.size ≤ end - p
  room-Sendable e ok = ground (arith, ok.room)

  pub write_can_bin'-Sendable :
      (e : Bool) → Sendable e f p end → write_can_bin' (some f) (some p) end s ≡ wrote e
  unfolding write_can_bin' wrote image after_id
  write_can_bin'-Sendable e ok =
      rw
        (
          ext_id_bit-HasForm e f.id ok.form,
          write_id-Sendable e ok,
          pointers-Sendable ok,
          ltb-false 8 f.size ok.short,
          ltb-false (end - p) ((if e then 5 else 3) + f.size) (room-Sendable e ok),
          store_bytes-append (id_bytes e f.id) (f.size ∷ take f.size f.bytes) p (p + id_size e)
              s.mem (ap (λ (k : ℕ). p + k) (sym (length-id_bytes e f.id))),
          behind,
        )
        refl
    where
      behind : p + id_size e + suc (length (take f.size f.bytes)) ≡ p + id_size e + 1 + f.size
      behind = omega (arith, ok.filled)

-- Reading an image that stands at `p`.
module _ (f old : CanFrame) (p end : ℕ) (s : State) (net : s.endianness ≡ big_endian)
    (m : Memory) where
  unfoldable pub arrived : Bool → State
  arrived e = record s { mem = store_bytes p (image e f) m }

  -- The checks look at the first byte and at the size.
  first_byte-image : (e : Bool) → (arrived e).mem p ≡ first_byte e f.id
  unfolding arrived image id_bytes encode_uint16 encode_uint32
  first_byte-image true = store_bytes-at _ p p m 0 (omega arith) (omega arith)
  first_byte-image false = store_bytes-at _ p p m 0 (omega arith) (omega arith)

  size-image : (e : Bool) → (arrived e).mem (p + (if e then 4 else 2)) ≡ f.size
  unfolding arrived image id_bytes encode_uint16 encode_uint32
  size-image true = store_bytes-at _ p (p + 4) m 4 refl (omega arith)
  size-image false = store_bytes-at _ p (p + 2) m 2 refl (omega arith)

  bytes-image :
      (e : Bool) (ok : Sendable e f p end)
      → load_bytes (p + id_size e + 1) f.size (arrived e).mem ≡ take f.size f.bytes
  unfolding arrived image
  bytes-image e ok =
      let t = take f.size f.bytes in
      let front = id_bytes e f.id ++ f.size ∷ [] in
      let behind : p + id_size e + 1 ≡ p + length front =
        omega (arith, length-append (id_bytes e f.id) (f.size ∷ []), length-id_bytes e f.id) in
      rw (← append_assoc (id_bytes e f.id) (f.size ∷ []) t)
        (rw ok.filled at (load_bytes-suffix front t p (p + id_size e + 1) m behind))

  decoded_wide :
      Sendable true f p end → decode w32 s.endianness (load_bytes p 4 (arrived true).mem) ≡ f.id
  unfolding arrived image id_bytes encode bytes encode_uint32
  decoded_wide ok = rw net (
      ap (λ (bs : List ℕ). decode w32 big_endian bs)
        (load_bytes-prefix (encode_uint32 big_endian f.id) (f.size ∷ take f.size f.bytes) p m)
      ∙ decode-encode w32 big_endian f.id (omega (arith, ok.form)))

  decoded_narrow :
      Sendable false f p end
      → decode w16 s.endianness (load_bytes p 2 (arrived false).mem) ≡ f.id % 2 ^ 16
  unfolding arrived image id_bytes encode bytes encode_uint16
  decoded_narrow ok = rw net (
      ap (λ (bs : List ℕ). decode w16 big_endian bs)
        (load_bytes-prefix (encode_uint16 big_endian (f.id % 2 ^ 16)) (f.size ∷ take f.size f.bytes)
          p m)
      ∙ decode-encode w16 big_endian (f.id % 2 ^ 16) (omega arith))

  read_id-Sendable :
      (e : Bool)
      → Sendable e f p end
      → read_id e p end (arrived e) ≡ (some (f.id, p + id_size e), s.stack)
  unfolding read_id arrived taken
  read_id-Sendable true ok =
      rw
        (
          read_wide p end (arrived true) (record { p_ne = ok.p_ne; inside = omega arith }),
          decoded_wide ok,
          id-extended f.id ok.form,
        )
        refl
  read_id-Sendable false ok =
      rw
        (
          read_narrow p end (arrived false) (record { p_ne = ok.p_ne; inside = omega arith }),
          decoded_narrow ok,
          id-standard f.id ok.form,
        )
        refl

  -- The reader's reply, after a pop of its context that came to `done`.
  unfoldable pub took : Bool → Bool × ErrorStack → CanReply
  took e done = record {
    ok = done.0;
    frame =
        some (record {
          id = f.id;
          size = f.size;
          bytes = take f.size f.bytes ++ drop f.size old.bytes;
        });
    startp = some (p + id_size e + 1 + f.size);
    state = record (arrived e) { stack = done.1 };
  }

  fill_frame-Sendable :
      (e : Bool) (ectx : Option ℕ)
      → Sendable e f p end
      → fill_frame old f.size p ectx (arrived e) (read_id e p end (arrived e))
        ≡ took e (pop_context fdu_context_can ectx s.stack)
  unfolding fill_frame took
  fill_frame-Sendable e ectx ok = rw (read_id-Sendable e ok, bytes-image e ok) refl

  room_left :
      (e : Bool) → Sendable e f p end → (ltb (end - p) 3 ≡ false) × ((e && ltb (end - p) 5) ≡ false)
  room_left true ok = (ltb-false _ _ (omega arith), ltb-false _ _ (omega arith))
  room_left false ok = (ltb-false _ _ (omega arith), refl)

  pub read_checked-Sendable :
      (e : Bool) (ectx : ℕ)
      → Sendable e f p end
      → read_checked (some old) (some p) end ectx (arrived e)
        ≡ took e (pop_context fdu_context_can (some ectx) s.stack)
  unfolding read_checked
  read_checked-Sendable e ectx ok =
      let (three, five) = room_left e ok in
      rw
        (
          first_byte-image e,
          ext_byte_bit-HasForm e f.id ok.form,
          size-image e,
          pointers-Sendable f p end s net ok,
          three,
          five,
          ltb-false 8 f.size ok.short,
          ltb-false (end - p) ((if e then 5 else 3) + f.size) (room-Sendable f p end s net e ok),
        )
        (fill_frame-Sendable e (some ectx) ok)
