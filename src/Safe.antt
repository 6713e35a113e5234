-- ===== src/Safe.antt =====
-- utils.c: the calls that go on where a system call has done a part of the work or was interrupted.
--
-- The n-th call of `read`, `write` or `close` has a given outcome. The loops have fuel; none is
-- returned where it is spent.
pub mod Writes
pub mod Reads
mod Tests
use femc_driver.Prelude.{
  ℕ, zero, suc, ◌+◌, ◌-◌, Bool, true, false, ◌&&◌, ◌||◌, Option, none, some, List, [], ◌∷◌, ◌++◌,
  String, ltb, ◌==◌, if◌then◌else◌, length, take, drop,
}
use femc_driver.Memory.{Memory, load_bytes, store_bytes}
use femc_driver.ErrorStack.{
  ErrorStack, push_context, push_stdlib_error, report_consistency, fdu_context_safe,
  invalid_arguments,
}

abbrev pub eintr : ℕ
eintr = 4

abbrev pub eagain : ℕ
eagain = 11

-- A failure of a system call, in a context of its own.
abbrev pub report_stdlib : String → ℕ → ErrorStack → ErrorStack
report_stdlib function errno stack =
    (push_stdlib_error (some function) errno (push_context fdu_context_safe none stack).1).1

-- The n-th call of `write` for some bytes: how many it takes, none for 0 and -1, and `errno`.
abbrev pub Write : Type 0
Write = ℕ → List ℕ → ℕ × ℕ

-- What the n-th call of `read` for at most a number of bytes returns: the bytes, and `errno`
-- afterwards, or none for -1.
abbrev pub Read : Type 0
Read = ℕ → ℕ → Option (List ℕ) × ℕ

-- What was returned, the bytes that went through, and the error stack.
abbrev pub Moved : Type 0
Moved = Option Bool × List ℕ × ErrorStack

-- The loop of `fdu_safe_write` over the bytes from `start` to `end`, at the i-th call.
unfoldable pub write_loop : Write → ℕ → ℕ → List ℕ → List ℕ → ErrorStack → Moved
write_loop write zero i rest sent stack = (none, sent, stack)
write_loop write (suc fuel) i [] sent stack = (some true, sent, stack)
write_loop write (suc fuel) i (b ∷ bs) sent stack =
    let (n, errno) = write i (b ∷ bs) in
    elim (n == 0) [
      | false ↦ write_loop write fuel (i + 1) (drop n (b ∷ bs)) (sent ++ take n (b ∷ bs)) stack
      | true ↦ elim (errno == eintr || errno == eagain) [
        | true ↦ write_loop write fuel (i + 1) (b ∷ bs) sent stack
        | false ↦ (some false, sent, report_stdlib "write" errno stack)
      ]
    ]

unfoldable pub safe_write : Write → ℕ → Option ℕ → Option ℕ → Option ℕ → Memory → ErrorStack → Moved
unfolding write_loop load_bytes
safe_write write fuel none start end mem stack =
    (some false, [], report_consistency fdu_context_safe invalid_arguments stack)
safe_write write fuel (some fd) none end mem stack =
    (some false, [], report_consistency fdu_context_safe invalid_arguments stack)
safe_write write fuel (some fd) (some start) none mem stack =
    (some false, [], report_consistency fdu_context_safe invalid_arguments stack)
safe_write write fuel (some fd) (some start) (some end) mem stack =
    write_loop write fuel 0 (load_bytes start (end - start) mem) [] stack

-- The loop of `fdu_safe_read` from `start` on, with space for `left` bytes.
pub read_loop : Read → ℕ → ℕ → ℕ → ℕ → Memory → ErrorStack → Option Bool × Memory × ErrorStack
unfolding store_bytes
read_loop read zero i start left mem stack = (none, mem, stack)
read_loop read (suc fuel) i start zero mem stack = (some true, mem, stack)
read_loop read (suc fuel) i start (suc left) mem stack =
    let (got, errno) = read i (suc left) in
    elim got [
      | none ↦ elim (errno == eintr || errno == eagain) [
        | true ↦ read_loop read fuel (i + 1) start (suc left) mem stack
        | false ↦ (some false, mem, report_stdlib "read" errno stack)
      ]
      | some bytes ↦ elim (length bytes == 0) [
        | true ↦ (some false, mem, report_stdlib "read" errno stack)
        | false ↦
            read_loop read fuel (i + 1) (start + length bytes) (suc left - length bytes)
              (store_bytes start bytes mem) stack
      ]
    ]

unfoldable pub safe_read :
    Read
    → ℕ
    → Option ℕ
    → Option ℕ
    → Option ℕ
    → Memory
    → ErrorStack
    → Option Bool × Memory × ErrorStack
unfolding read_loop
safe_read read fuel none start end mem stack =
    (some false, mem, report_consistency fdu_context_safe invalid_arguments stack)
safe_read read fuel (some fd) none end mem stack =
    (some false, mem, report_consistency fdu_context_safe invalid_arguments stack)
safe_read read fuel (some fd) (some start) none mem stack =
    (some false, mem, report_consistency fdu_context_safe invalid_arguments stack)
safe_read read fuel (some fd) (some start) (some end) mem stack =
    read_loop read fuel 0 start (end - start) mem stack

-- `close`, whose i-th call returns 0, or -1 with an errno.
pub safe_close_from : (ℕ → Option ℕ) → ℕ → ℕ → ErrorStack → Option Bool × ErrorStack
safe_close_from close zero i stack = (none, stack)
safe_close_from close (suc fuel) i stack = elim (close i) [
  | none ↦ (some true, stack)
  | some errno ↦ elim (errno == eintr) [
    | true ↦ safe_close_from close fuel (i + 1) stack
    | false ↦ (some false, report_stdlib "close" errno stack)
  ]
]

pub safe_close : (ℕ → Option ℕ) → ℕ → Option ℕ → ErrorStack → Option Bool × ErrorStack
unfolding safe_close_from
safe_close close fuel none stack =
    (some false, report_consistency fdu_context_safe invalid_arguments stack)
safe_close close fuel (some fd) stack = safe_close_from close fuel 0 stack
