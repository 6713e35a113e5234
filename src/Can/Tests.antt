-- ===== src/Can/Tests.antt =====
-- CAN frames at concrete ids and buffers.
use femc_driver.Prelude.{◌≡◌, refl, true, false, none, some, [], ◌∷◌, arith, replicate}
use femc_driver.ErrorStack.{ErrorStack, node, context}
use femc_driver.Memory.{store_bytes}
use femc_driver.S11n.{State, little_endian}
use femc_driver.Can.{
  CanFrame, blank, read_can_bin, write_can_bin, frame_text, write_can_txt, calc_byte_size,
}
use femc_driver.Can.RoundTrip.{Sendable}
use femc_driver.ErrorStack.Contexts.{HasRoom}
use femc_driver.Can.Order.{delivered, read_can_bin-write_can_bin}
use femc_driver.Can.Text.{write_can_txt_overrun}

abbrev stack : ErrorStack
stack = record {
  nodes = [];
  stale = replicate 64 (node context none 0);
  errors = 0;
  meta_errors = 0;
  error_stack_full = false;
}

abbrev state : State
state = record { stack = stack; endianness = little_endian; mem = λ a. 0 }

abbrev frame : CanFrame
frame = record { id = 0x92345678; size = 2; bytes = 0xab ∷ 0xcd ∷ [] }

stack-HasRoom : HasRoom stack
stack-HasRoom = (record { errors_fit = omega arith; metas_fit = omega arith }, omega arith)

frame-Sendable : Sendable true frame 100 107
frame-Sendable = record {
  form = (omega arith, omega arith);
  short = omega arith;
  filled = refl;
  p_ne = omega arith;
  room = omega arith;
}

read_can_bin-write_can_bin_example :
    let w = write_can_bin (some frame) (some 100) 107 state in
    let r = read_can_bin (some blank) (some 100) 107 w.state in
    (w.ok ≡ true)
    × (w.startp ≡ some 107)
    × (w.state.endianness ≡ little_endian)
    × (r.ok ≡ true)
    × (r.frame ≡ some (delivered frame blank))
    × (r.startp ≡ some 107)
    × (r.state.endianness ≡ little_endian)
read_can_bin-write_can_bin_example =
    read_can_bin-write_can_bin true frame blank 100 107 frame-Sendable state stack-HasRoom

-- "92345678" less the flag.
text :
    frame_text frame
    ≡ b'1' ∷ b'2' ∷ b'3' ∷ b'4' ∷ b'5' ∷ b'6' ∷ b'7' ∷ b'8' ∷ b' ' ∷ b' ' ∷ b'2' ∷ b' ' ∷ b' '
      ∷ b'A' ∷ b'B' ∷ b' ' ∷ b'C' ∷ b'D' ∷ []
unfolding frame_text
text = refl

-- 16 bytes are asked for, 18 are written.
write_can_txt_overrun_example :
    let r = write_can_txt (some frame) (some 100) 116 false state in
    (r.ok ≡ true)
    × (r.state.mem ≡ store_bytes 100 (frame_text frame) (λ a. 0))
    × (r.startp ≡ some 118)
unfolding calc_byte_size
write_can_txt_overrun_example =
    write_can_txt_overrun frame 100 116 state (omega arith) refl (omega arith) stack-HasRoom
      (omega arith)
