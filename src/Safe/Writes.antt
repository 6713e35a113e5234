-- ===== src/Safe/Writes.antt =====
-- `fdu_safe_write` sends all bytes in their order, or stops at an error.
use femc_driver.Prelude.{
  ℕ, zero, suc, ◌+◌, ◌-◌, ◌<◌, ◌≡◌, ◌≢◌, refl, sym, ◌∙◌, ap, true, false, ◌||◌, none, some, List,
  [], ◌∷◌, ◌++◌, arith, length, length-drop, take, drop, ◌==◌, inl, inr, Bool-cases, eq-==, ne-==,
}
use mathlib.Core.List.{append_assoc, append-nil}
use femc_driver.Memory.{Memory, load_bytes}
use femc_driver.ErrorStack.{ErrorStack}
use femc_driver.Safe.{Write, Moved, write_loop, safe_write, eintr, eagain, report_stdlib}

take-drop : (n : ℕ) (xs : List ℕ) → take n xs ++ drop n xs ≡ xs
take-drop zero xs = refl
take-drop (suc n) [] = refl
take-drop (suc n) (x ∷ xs) = ap (◌∷◌ x) (take-drop n xs)

-- All bytes are sent where true is returned, and the first of them, with nothing reported but where
-- false is returned.
abbrev pub Sends : List ℕ → ErrorStack → Moved → Type 0
Sends all stack (some true, sent, stack') = (sent ≡ all) × (stack' ≡ stack)
Sends all stack (some false, sent, stack') =
    ((unsent : List ℕ) × (sent ++ unsent ≡ all))
    × ((errno : ℕ) × (stack' ≡ report_stdlib "write" errno stack))
Sends all stack (none, sent, stack') =
    ((unsent : List ℕ) × (sent ++ unsent ≡ all)) × (stack' ≡ stack)

pub write_loop-Sends :
    (write : Write) (fuel i : ℕ) (rest sent : List ℕ) (stack : ErrorStack)
    → Sends (sent ++ rest) stack (write_loop write fuel i rest sent stack)
unfolding write_loop
write_loop-Sends write zero i rest sent stack = ((rest, refl), refl)
write_loop-Sends write (suc fuel) i [] sent stack = (sym (append-nil sent), refl)
write_loop-Sends write (suc fuel) i (b ∷ bs) sent stack =
    let n = (write i (b ∷ bs)).0 in
    let errno = (write i (b ∷ bs)).1 in
    elim (Bool-cases (n == 0)) [
      | inr e ↦
          let all : (sent ++ take n (b ∷ bs)) ++ drop n (b ∷ bs) ≡ sent ++ b ∷ bs =
            append_assoc sent (take n (b ∷ bs)) (drop n (b ∷ bs))
            ∙ ap (λ (xs : List ℕ). sent ++ xs) (take-drop n (b ∷ bs)) in
          rw (e, write_loop)
            (rw (← all) (
              write_loop-Sends write fuel (i + 1) (drop n (b ∷ bs)) (sent ++ take n (b ∷ bs))
                stack))
      | inl e ↦ elim (Bool-cases (errno == eintr || errno == eagain)) [
        | inl q ↦
            rw (e, write_loop)
              (rw (q, write_loop) (write_loop-Sends write fuel (i + 1) (b ∷ bs) sent stack))
        | inr q ↦ rw (e, write_loop) (rw (q, write_loop) ((b ∷ bs, refl), (errno, refl)))
      ]
    ]

-- After `k` calls none is interrupted any more.
abbrev pub Interrupted : Write → ℕ → Type 0
Interrupted write k =
    (i : ℕ) (bytes : List ℕ)
    → (write i bytes).0 ≡ 0
    → ((write i bytes).1 == eintr || (write i bytes).1 == eagain) ≡ true
    → i < k

write_loop-ends :
    (write : Write) (k : ℕ)
    → Interrupted write k
    → (fuel i : ℕ) (rest sent : List ℕ) (stack : ErrorStack) → length rest + (k - i) < fuel
    → (write_loop write fuel i rest sent stack).0 ≢ none
unfolding write_loop
write_loop-ends write k h zero i rest sent stack lt = absurd (omega arith)
write_loop-ends write k h (suc fuel) i [] sent stack lt = λ e. absurd (cc)
write_loop-ends write k h (suc fuel) i (b ∷ bs) sent stack lt =
    let n = (write i (b ∷ bs)).0 in
    let errno = (write i (b ∷ bs)).1 in
    elim (Bool-cases (n == 0)) [
      | inr e ↦
          rw (e, write_loop)
            (write_loop-ends write k h fuel (i + 1) (drop n (b ∷ bs)) (sent ++ take n (b ∷ bs))
              stack (omega (arith, length-drop n (b ∷ bs), ne-== n 0 e)))
      | inl e ↦ elim (Bool-cases (errno == eintr || errno == eagain)) [
        | inl q ↦
            let early = h i (b ∷ bs) (eq-== n 0 e) q in
            rw (e, write_loop)
              (rw (q, write_loop)
                (write_loop-ends write k h fuel (i + 1) (b ∷ bs) sent stack (omega (arith, early))))
        | inr q ↦ rw (e, write_loop) (rw (q, write_loop) (λ x. absurd (cc)))
      ]
    ]

-- `fdu_safe_write` of an open descriptor and two pointers, where no call of `write` after the first
-- `k` is interrupted, with fuel for these and for one call for each byte. It returns. With true, the
-- bytes from `start` to `end` have been sent, in their order, by however many calls, and nothing is
-- reported. With false, some first ones of them have, and just the failure of `write` is reported.
pub safe_write-Sends :
    (write : Write) (k fuel fd start end : ℕ) (mem : Memory) (stack : ErrorStack)
    → Interrupted write k
    → length (load_bytes start (end - start) mem) + k < fuel
    → Sends
        (load_bytes start (end - start) mem)
        stack
        (safe_write write fuel (some fd) (some start) (some end) mem stack)
      × ((safe_write write fuel (some fd) (some start) (some end) mem stack).0 ≢ none)
unfolding safe_write
safe_write-Sends write k fuel fd start end mem stack h lt = (
  write_loop-Sends write fuel 0 (load_bytes start (end - start) mem) [] stack,
  write_loop-ends write k h fuel 0 (load_bytes start (end - start) mem) [] stack (omega arith),
)
