-- ===== src/Listen/Options.antt =====
-- Which arguments `fdu_listen_inet4` and `fdu_listen_unix` take, told by numbers.
use femc_driver.Prelude.{
  ℕ, ◌*◌, ◌/◌, ◌%◌, ◌^◌, ◌<◌, ◌≡◌, ◌≢◌, refl, ◌⊎◌, ◌↔◌, false, List, arith, length, bit_and,
}
use femc_driver.Prelude.Bits.{bit_and_mask, bit_and_bit, bit_and_high}
use femc_driver.Listen.{has, protocol_of, unknown_protocol, bad_inet, bad_unix}

-- A port, no options but those of the five low bits, one of three protocols; and broadcast only for
-- datagrams that are not local.
abbrev pub TakesInet : ℕ → ℕ → Type 0
TakesInet port options =
    (port ≢ 0) × (options < 32) × (options % 4 ≢ 3) × ((options < 16) ⊎ (options % 8 ≡ 1))

-- A path, and one of three protocols.
abbrev pub TakesUnix : List ℕ → ℕ → Type 0
TakesUnix path options = (length path ≢ 0) × (options < 3)

module _ (options : ℕ) (fits : options < 2 ^ 32) where
  low : bit_and options 3 ≡ options % 4
  low = bit_and_mask 2 options 3 refl

  above_5 : bit_and options 4294967264 ≡ options / 32 * 32
  above_5 =
      bit_and_high 5 27 (options / 32) 134217727 options (options % 32) 4294967264 (omega arith)
        (omega arith) refl refl (omega arith)

  above_2 : bit_and options 4294967292 ≡ options / 4 * 4
  above_2 =
      bit_and_high 2 30 (options / 4) 1073741823 options (options % 4) 4294967292 (omega arith)
        (omega arith) refl refl (omega arith)

  bit_2 : bit_and options 4 ≡ options / 4 % 2 * 4
  bit_2 =
      bit_and_bit 2 (options / 8) options (options / 4 % 2) (options % 4) (omega arith)
        (omega arith) (omega arith)

  bit_4 : bit_and options 16 ≡ options / 16 % 2 * 16
  bit_4 =
      bit_and_bit 4 (options / 32) options (options / 16 % 2) (options % 16) (omega arith)
        (omega arith) (omega arith)

  pub bad_inet_lem : (port : ℕ) → (bad_inet port options ≡ false) ↔ TakesInet port options
  unfolding bad_inet has protocol_of unknown_protocol
  bad_inet_lem port = ground (arith, low, above_5, bit_2, bit_4)

  pub bad_unix_lem : (path : List ℕ) → (bad_unix path options ≡ false) ↔ TakesUnix path options
  unfolding bad_unix has protocol_of unknown_protocol
  bad_unix_lem path = ground (arith, low, above_2)
