-- ===== src/Safe/Tests.antt =====
-- Reading and writing by parts, with an interruption.
use femc_driver.Prelude.{
  ℕ, zero, suc, ◌+◌, ◌-◌, ◌<◌, ◌≡◌, ◌≢◌, true, false, ◌||◌, none, some, List, [], ◌∷◌, arith,
  length, ◌==◌,
}
use femc_driver.Memory.{Memory, load_bytes}
use femc_driver.ErrorStack.{ErrorStack}
use femc_driver.Safe.{Write, Read, safe_write, safe_read, eintr, eagain}
use femc_driver.Safe.Writes.{Sends, safe_write-Sends}
use femc_driver.Safe.Reads.{AtMost, Fills, safe_read-Fills}

abbrev empty : ErrorStack
empty = record { nodes = []; stale = []; errors = 0; meta_errors = 0; error_stack_full = false }

-- The first call is interrupted, the others take two bytes at most.
abbrev by_two : Write
by_two zero bytes = (0, 4)
by_two (suc i) bytes = (2, 0)

early_write :
    (i : ℕ) (bytes : List ℕ)
    → (by_two i bytes).0 ≡ 0
    → ((by_two i bytes).1 == eintr || (by_two i bytes).1 == eagain) ≡ true
    → i < 1
early_write zero bytes e h = omega arith
early_write (suc i) bytes e h = absurd (omega (arith, e))

abbrev memory : Memory
memory a = a

five_bytes : length (load_bytes 100 (105 - 100) memory) + 1 < 10
unfolding load_bytes
five_bytes = omega arith

safe_write-Sends_example :
    Sends
      (load_bytes 100 (105 - 100) memory)
      empty
      (safe_write by_two 10 (some 3) (some 100) (some 105) memory empty)
    × ((safe_write by_two 10 (some 3) (some 100) (some 105) memory empty).0 ≢ none)
safe_write-Sends_example =
    safe_write-Sends by_two 1 10 3 100 105 memory empty early_write five_bytes

-- The first call is interrupted, the others give one byte.
abbrev by_one : Read
by_one zero n = (none, 4)
by_one (suc i) zero = (some [], 0)
by_one (suc i) (suc n) = (some (65 ∷ []), 0)

by_one-AtMost : (i n : ℕ) → AtMost n (by_one i n).0
by_one-AtMost zero n = tt
by_one-AtMost (suc i) zero = omega arith
by_one-AtMost (suc i) (suc n) = omega arith

early_read :
    (i n : ℕ)
    → (by_one i n).0 ≡ none
    → ((by_one i n).1 == eintr || (by_one i n).1 == eagain) ≡ true
    → i < 1
early_read zero n e h = omega arith
early_read (suc i) zero e h = absurd (cc)
early_read (suc i) (suc n) e h = absurd (cc)

safe_read-Fills_example :
    Fills by_one 0 100
      (105 - 100)
      memory
      empty
      (safe_read by_one 10 (some 3) (some 100) (some 105) memory empty)
    × ((safe_read by_one 10 (some 3) (some 100) (some 105) memory empty).0 ≢ none)
safe_read-Fills_example =
    safe_read-Fills by_one 1 10 3 100 105 memory empty by_one-AtMost early_read (omega arith)
