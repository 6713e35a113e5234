-- ===== src/S11n/Tests.antt =====
-- Runs of the integer and byte functions, and their theorems at concrete buffers.
use femc_driver.Prelude.{
  ℕ, ◌+◌, ◌<◌, ◌≡◌, refl, Bool, true, false, none, some, [], ◌∷◌, arith, replicate, inl,
}
use femc_driver.ErrorStack.{
  ErrorStack, node, context, fde_errors, buffer_underflow, report_consistency,
}
use femc_driver.Memory.{load_bytes}
use femc_driver.S11n.{
  Endianness, big_endian, little_endian, State, read_uint16, write_uint32, set_endianness,
  encode_uint32, taken,
}
use femc_driver.S11n.ByteOrder.{w32, w64, bytes, decode}
use femc_driver.S11n.Integers.{Fits, read, write, read-write, write_frame, Judged, read-Judged}
use femc_driver.S11n.Regions.{IsRegion, sent, received, read_bytes-write_bytes}

abbrev stack : ErrorStack
stack = record {
  nodes = [];
  stale = replicate 64 (node context none 0);
  errors = 0;
  meta_errors = 0;
  error_stack_full = false;
}

-- Every byte of the memory is 0x12.
abbrev state : Endianness → State
state e = record { stack = stack; endianness = e; mem = λ a. 0x12 }

read_short : (read_uint16 true (some 100) 101 (state big_endian)).ok ≡ false
unfolding read_uint16
read_short = refl

read_pair : (read_uint16 true (some 100) 102 (state big_endian)).value ≡ some 0x1212
unfolding read_uint16 load_bytes
read_pair = refl

write_reports : fde_errors (write_uint32 none (some 100) 200 (state big_endian)).state.stack ≡ 1
unfolding write_uint32 fde_errors report_consistency
write_reports = refl

order_kept : (set_endianness 7 (state little_endian)).1.endianness ≡ little_endian
unfolding set_endianness
order_kept = refl

big_image : encode_uint32 big_endian 0x01020304 ≡ 1 ∷ 2 ∷ 3 ∷ 4 ∷ []
unfolding encode_uint32
big_image = refl

fits : Fits 100 108 (bytes w64)
unfolding bytes
fits = record { p_ne = omega arith; inside = omega arith }

read-write_example :
    let written = write w64 (some 0x0102030405060708) (some 100) 108 (state little_endian) in
    let again = read w64 true (some 100) 108 written.state in
    (written.ok ≡ true)
    × (written.datap ≡ some 108)
    × (again.ok ≡ true)
    × (again.value ≡ some 0x0102030405060708)
    × (again.datap ≡ some 108)
unfolding bytes
read-write_example =
    read-write w64 0x0102030405060708 100 108 (state little_endian) (omega arith) fits

write_frame_example : (write w64 (some 5) (some 100) 108 (state big_endian)).state.mem 99 ≡ 0x12
write_frame_example = write_frame w64 (some 5) 100 108 (state big_endian) 99 (inl (omega arith))

read-Judged_example :
    Judged buffer_underflow true
      (some 100)
      103
      (bytes w32)
      (state big_endian)
      (taken (bytes w32) (decode w32 big_endian) (some 100) (state big_endian))
      (read w32 true (some 100) 103 (state big_endian))
read-Judged_example = read-Judged w32 true (some 100) 103 (state big_endian)

region : (start : ℕ) → 0 < start → IsRegion start 3
region start h = record { ne_null = omega arith; small = omega arith }

read_bytes-write_bytes_example :
    let a = sent 10 20 3 100 200 true (state big_endian) in
    let b = received 10 20 3 100 200 true (state big_endian) in
    (a.ok ≡ true)
    × (a.datap ≡ some 103)
    × (b.ok ≡ true)
    × (b.datap ≡ some 103)
    × ((i : ℕ) → i < 3 → b.state.mem (20 + i) ≡ 0x12)
    × (◌≡◌ {A = Bool} true true → b.state.mem 23 ≡ 0)
read_bytes-write_bytes_example =
    read_bytes-write_bytes 10 20 3 100 200 true (state big_endian) (region 10 (omega arith))
      (region 20 (omega arith)) (record { p_ne = omega arith; inside = omega arith }) (omega arith)
      (omega arith)
