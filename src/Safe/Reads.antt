-- ===== src/Safe/Reads.antt =====
-- `fdu_safe_read` fills the whole space, or stops at an error or at the end of the file.
use femc_driver.Prelude.{
  ℕ, zero, suc, ◌+◌, ◌-◌, ◌<◌, ◌≤◌, ◌≡◌, ◌≢◌, refl, ◌∙◌, Bool, true, false, ◌||◌, Option, none,
  some, List, [], ◌++◌, arith, length, length-append, ◌==◌, inl, inr, Bool-cases, Option-cases,
  ne-==, ◌⊎◌, ◌∷◌, eq-==, ap,
}
use femc_driver.Memory.{Memory, store_bytes, store_bytes-append}
use femc_driver.ErrorStack.{ErrorStack}
use femc_driver.Safe.{Read, read_loop, safe_read, eintr, eagain, report_stdlib}

-- `read` gives no more bytes than it is asked for.
abbrev pub AtMost : ℕ → Option (List ℕ) → Type 0
AtMost n none = Unit
AtMost n (some bytes) = length bytes ≤ n

-- An error number after which the loop calls `read` once more.
abbrev pub again : ℕ → Bool
again errno = errno == eintr || errno == eagain

-- What the calls of `read` give from the i-th on, up to the k-th, which is not among them: `bytes`, one
-- piece behind the other, each call asked for as many bytes as there is space for then.
pub data Delivers (read : Read) : ℕ → ℕ → ℕ → List ℕ → Type 0 where
  nothing : {i left : ℕ} → Delivers read i i left []
  interrupted :
      {i k left : ℕ} {bytes : List ℕ}
      → (read i left).0 ≡ none
      → again (read i left).1 ≡ true
      → Delivers read (i + 1) k left bytes
      → Delivers read i k left bytes
  piece :
      {i k left : ℕ} {more : List ℕ} (xs : List ℕ)
      → (read i left).0 ≡ some xs
      → length xs ≢ 0
      → Delivers read (i + 1) k (left - length xs) more
      → Delivers read i k left (xs ++ more)

-- A call of `read` after which the loop gives up: an error that is no interruption, or the end of the
-- file.
abbrev pub Stops : Read → ℕ → ℕ → Type 0
Stops read k left =
    (((read k left).0 ≡ none) × (again (read k left).1 ≡ false)) ⊎ ((read k left).0 ≡ some [])

module _ (read : Read) where
  -- The memory has got just the bytes that the calls from the i-th on have given, from `start` on.
  pub record Got (i start n : ℕ) (mem mem' : Memory) : Type 0 where
    pub bytes : List ℕ
    pub k : ℕ
    pub given : Delivers read i k n bytes
    pub stored : mem' ≡ store_bytes start bytes mem
    pub fits : length bytes ≤ n

  -- All of the space is filled where true is returned; where false is, the next call of `read` is the
  -- one that has failed, and it is reported.
  abbrev pub Fills : ℕ → ℕ → ℕ → Memory → ErrorStack → Option Bool × Memory × ErrorStack → Type 0
  Fills i start n mem stack (some true, mem', stack') =
      ((g : Got i start n mem mem') × (length g.bytes ≡ n)) × (stack' ≡ stack)
  Fills i start n mem stack (some false, mem', stack') =
      (g : Got i start n mem mem') × (length g.bytes < n)
      × Stops read g.k (n - length g.bytes)
      × (stack' ≡ report_stdlib "read" (read g.k (n - length g.bytes)).1 stack)
  Fills i start n mem stack (none, mem', stack') = Got i start n mem mem' × (stack' ≡ stack)

  none_yet : (i start n : ℕ) (mem : Memory) → Got i start n mem mem
  unfolding store_bytes
  none_yet i start n mem = record {
    bytes = [];
    k = i;
    given = nothing;
    stored = refl;
    fits = omega arith;
  }

  -- The i-th call fails.
  Fills-stop :
      (i start n : ℕ) (mem : Memory) (stack : ErrorStack)
      → 0 < n
      → Stops read i n
      → Fills i start n mem stack (some false, mem, report_stdlib "read" (read i n).1 stack)
  unfolding none_yet
  Fills-stop i start n mem stack lt stop =
      let all : n - 0 ≡ n = omega arith in (none_yet i start n mem, lt, rw all stop, rw all refl)

  Got-again :
      (i start n : ℕ) (mem mem' : Memory)
      → (read i n).0 ≡ none
      → again (read i n).1 ≡ true
      → Got (i + 1) start n mem mem'
      → Got i start n mem mem'
  Got-again i start n mem mem' h a g = record {
    bytes = g.bytes;
    k = g.k;
    given = interrupted h a g.given;
    stored = g.stored;
    fits = g.fits;
  }

  -- A call that was interrupted counts for nothing.
  Fills-again :
      (i start n : ℕ) (mem : Memory) (stack : ErrorStack) (r : Option Bool × Memory × ErrorStack)
      → (read i n).0 ≡ none
      → again (read i n).1 ≡ true
      → Fills (i + 1) start n mem stack r
      → Fills i start n mem stack r
  unfolding Got-again
  Fills-again i start n mem stack (some true, mem', stack') h a ((g, e), s) =
      ((Got-again i start n mem mem' h a g, e), s)
  Fills-again i start n mem stack (some false, mem', stack') h a (g, lt, stop, s) =
      (Got-again i start n mem mem' h a g, lt, stop, s)
  Fills-again i start n mem stack (none, mem', stack') h a (g, s) =
      (Got-again i start n mem mem' h a g, s)

  module _ (i start n : ℕ) (xs : List ℕ) (mem : Memory) (stack : ErrorStack)
      (h : (read i n).0 ≡ some xs) (ne : length xs ≢ 0) (le : length xs ≤ n) where
    Got-piece :
        (mem' : Memory)
        → Got (i + 1) (start + length xs) (n - length xs) (store_bytes start xs mem) mem'
        → Got i start n mem mem'
    Got-piece mem' g = record {
      bytes = xs ++ g.bytes;
      k = g.k;
      given = piece xs h ne g.given;
      stored = g.stored ∙ store_bytes-append xs g.bytes start (start + length xs) mem refl;
      fits = omega (arith, length-append xs g.bytes, g.fits, le);
    }

    -- The bytes of a call come before those of the others.
    Fills-piece :
        (r : Option Bool × Memory × ErrorStack)
        → Fills (i + 1) (start + length xs) (n - length xs) (store_bytes start xs mem) stack r
        → Fills i start n mem stack r
    unfolding Got-piece
    Fills-piece (some true, mem', stack') ((g, e), s) =
        ((Got-piece mem' g, omega (arith, length-append xs g.bytes, e, le)), s)
    Fills-piece (some false, mem', stack') (g, lt, stop, s) =
        let left : n - length (xs ++ g.bytes) ≡ n - length xs - length g.bytes =
          omega (arith, length-append xs g.bytes, le) in
        (Got-piece mem' g, omega (arith, length-append xs g.bytes, lt, le), rw left stop, rw left s)
    Fills-piece (none, mem', stack') (g, s) = (Got-piece mem' g, s)

at-most :
    (n : ℕ) (o : Option (List ℕ)) (bytes : List ℕ) → o ≡ some bytes → AtMost n o → length bytes ≤ n
at-most n none bytes e h = absurd (cc)
at-most n (some xs) bytes e h = let q : xs ≡ bytes = ground (arith, e) in rw (← q) h

nil-length : (xs : List ℕ) → length xs ≡ 0 → xs ≡ []
nil-length [] h = refl
nil-length (x ∷ xs) h = absurd (omega (arith, h))

read_loop-Fills :
    (read : Read) (most : (i n : ℕ) → AtMost n (read i n).0) (fuel i start left : ℕ) (mem : Memory)
    (stack : ErrorStack)
    → Fills read i start left mem stack (read_loop read fuel i start left mem stack)
unfolding read_loop none_yet
read_loop-Fills read most zero i start left mem stack = (none_yet read i start left mem, refl)
read_loop-Fills read most (suc fuel) i start zero mem stack =
    ((none_yet read i start zero mem, refl), refl)
read_loop-Fills read most (suc fuel) i start (suc left) mem stack =
    let errno = (read i (suc left)).1 in
    let stop = Fills-stop read i start (suc left) mem stack (omega arith) in
    elim (Option-cases (read i (suc left)).0) [
      | inl h ↦ elim (Bool-cases (again errno)) [
        | inl q ↦
            rw (h, read_loop)
              (rw (q, read_loop)
                (Fills-again read i start (suc left) mem stack _ h q
                  (read_loop-Fills read most fuel (i + 1) start (suc left) mem stack)))
        | inr q ↦ rw (h, read_loop) (rw (q, read_loop) (stop (inl (h, q))))
      ]
      | inr (bytes, h) ↦ elim (Bool-cases (length bytes == 0)) [
        | inl q ↦
            let none_left = nil-length bytes (eq-== (length bytes) 0 q) in
            rw (h, read_loop)
              (rw (q, read_loop) (stop (inr (h ∙ ap (λ (o : List ℕ). some o) none_left))))
        | inr q ↦
            let le = at-most (suc left) (read i (suc left)).0 bytes h (most i (suc left)) in
            rw (h, read_loop)
              (rw (q, read_loop)
                (Fills-piece read i start (suc left) bytes mem stack h (ne-== (length bytes) 0 q) le
                  _
                  (read_loop-Fills read most fuel (i + 1) (start + length bytes)
                    (suc left - length bytes) (store_bytes start bytes mem) stack)))
      ]
    ]

-- After `k` calls none is interrupted any more.
abbrev pub Interrupted : Read → ℕ → Type 0
Interrupted read k =
    (i n : ℕ)
    → (read i n).0 ≡ none
    → ((read i n).1 == eintr || (read i n).1 == eagain) ≡ true
    → i < k

read_loop-ends :
    (read : Read) (k : ℕ)
    → Interrupted read k
    → (fuel i start left : ℕ) (mem : Memory) (stack : ErrorStack) → left + (k - i) < fuel
    → (read_loop read fuel i start left mem stack).0 ≢ none
unfolding read_loop
read_loop-ends read k c zero i start left mem stack lt = absurd (omega arith)
read_loop-ends read k c (suc fuel) i start zero mem stack lt = λ e. absurd (cc)
read_loop-ends read k c (suc fuel) i start (suc left) mem stack lt =
    let errno = (read i (suc left)).1 in
    elim (Option-cases (read i (suc left)).0) [
      | inl h ↦ elim (Bool-cases (errno == eintr || errno == eagain)) [
        | inl q ↦
            let early = c i (suc left) h q in
            rw (h, read_loop)
              (rw (q, read_loop)
                (read_loop-ends read k c fuel (i + 1) start (suc left) mem stack
                  (omega (arith, early))))
        | inr q ↦ rw (h, read_loop) (rw (q, read_loop) (λ e. absurd (cc)))
      ]
      | inr (bytes, h) ↦ elim (Bool-cases (length bytes == 0)) [
        | inl q ↦ rw (h, read_loop) (rw (q, read_loop) (λ e. absurd (cc)))
        | inr q ↦
            rw (h, read_loop)
              (rw (q, read_loop)
                (read_loop-ends read k c fuel (i + 1) (start + length bytes)
                  (suc left - length bytes) (store_bytes start bytes mem) stack
                  (omega (arith, ne-== (length bytes) 0 q))))
      ]
    ]

-- `fdu_safe_read` of an open descriptor and two pointers, where `read` gives no more bytes than it
-- is asked for and no call of it after the first `k` is interrupted, with fuel for these and for one
-- call for each byte. It returns. What the calls of `read` have given, each asked for what there is
-- space for up to `end`, stands from `start` on, one piece behind the other, and no other byte of the
-- memory has changed. With true, the space is full and nothing is reported. With false, it is not, the
-- next call of `read` has failed or met the end of the file, and just its `errno` is reported.
pub safe_read-Fills :
    (read : Read) (k fuel fd start end : ℕ) (mem : Memory) (stack : ErrorStack)
    → ((i n : ℕ) → AtMost n (read i n).0)
    → Interrupted read k
    → end - start + k < fuel
    → Fills read 0 start
        (end - start)
        mem
        stack
        (safe_read read fuel (some fd) (some start) (some end) mem stack)
      × ((safe_read read fuel (some fd) (some start) (some end) mem stack).0 ≢ none)
unfolding safe_read
safe_read-Fills read k fuel fd start end mem stack most c lt = (
  read_loop-Fills read most fuel 0 start (end - start) mem stack,
  read_loop-ends read k c fuel 0 start (end - start) mem stack (omega arith),
)
