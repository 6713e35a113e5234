-- ===== src/Select/Changes.antt =====
-- Adding and removing services: what becomes of the handlers, and that the sets keep up.
use native.Mathlib.Nat.{pow-suc}
use femc_driver.Prelude.{
  ℕ, zero, suc, ◌*◌, ◌%◌, ◌^◌, ◌≤◌, ◌<◌, ◌≡◌, ◌≢◌, refl, ap, ◌⊎◌, inl, inr, Bool, true, false,
  Option, none, some, arith, ◌==◌, leb, le-leb, lt-leb, eq-==, ne-==, ==-false, if◌then◌else◌,
  Bool-cases,
}
use femc_driver.ErrorStack.{ErrorStack, report_resource, fdd_context_select, memory_allocation}
use femc_driver.Backend.{Direction, input, output}
use femc_driver.Select.{
  Side, Select, occupied, fd_setsize, grow, resize_to, resize_fd_block, zero_sets, add_handler,
  raised, trim, remove_handler,
}
use femc_driver.Select.Services.{
  IsTracked, IsValid, zero_sets-IsTracked, extend-handlers, extend-IsTracked,
}

-- The doubling ends above the descriptor, before the 32 bits wrap around.
pub grow_lem : (fuel size fd : ℕ) → fd < 2 ^ 31 → fd < size * 2 ^ fuel → fd < grow fuel size fd
unfolding grow
grow_lem zero size fd h lt = omega arith
grow_lem (suc fuel) size fd h lt = elim (Bool-cases (leb size fd)) [
  | inl e ↦
      let le = le-leb size fd e in
      let twice : size * 2 % 2 ^ 32 ≡ size * 2 = omega arith in
      let more : size * 2 ^ suc fuel ≡ size * 2 * 2 ^ fuel =
        omega (arith, ap (λ (t : ℕ). size * t) (pow-suc 2 fuel)) in
      rw (e, grow) (grow_lem fuel (size * 2 % 2 ^ 32) fd h (rw twice (omega (arith, more))))
  | inr e ↦ rw (e, grow) (lt-leb size fd e)
]

-- The handlers of both directions are as they were.
abbrev pub Same : Select → Select → Type 0
Same s s' =
    ((i : ℕ) → s'.r.handlers i ≡ s.r.handlers i) × ((i : ℕ) → s'.w.handlers i ≡ s.w.handlers i)

-- Those of `d` have `h` at `fd` and are else as they were, those of the other direction are all.
abbrev pub Changed : Direction → ℕ → Option ℕ → Select → Select → Type 0
Changed input fd h s s' =
    ((i : ℕ) → s'.r.handlers i ≡ (if i == fd then h else s.r.handlers i))
    × ((i : ℕ) → s'.w.handlers i ≡ s.w.handlers i)
Changed output fd h s s' =
    ((i : ℕ) → s'.w.handlers i ≡ (if i == fd then h else s.w.handlers i))
    × ((i : ℕ) → s'.r.handlers i ≡ s.r.handlers i)

abbrev pub no_memory : ErrorStack → ErrorStack
no_memory stack = report_resource fdd_context_select memory_allocation stack

-- What a resize for `fd` may return.
abbrev pub Resized : Bool → ℕ → Select → ErrorStack → Bool × Select × ErrorStack → Type 0
Resized malloc fd s stack (true, s', stack') =
    IsValid s' × Same s s' × (fd < s'.fd_block_size) × (stack' ≡ stack)
Resized malloc fd s stack (false, s', stack') =
    IsValid s' × Same s s' × (malloc ≡ false) × (stack' ≡ no_memory stack)

resize_to-Resized :
    (malloc : Bool) (fd new : ℕ) (s : Select) (stack : ErrorStack)
    → IsValid s
    → s.fd_block_size ≤ fd
    → fd < new
    → Resized malloc fd s stack (resize_to malloc new s stack)
unfolding resize_to
resize_to-Resized malloc fd new s stack v le lt = go malloc (Bool-cases (leb new s.fd_block_size))
  where
    go :
        (malloc : Bool)
        → (leb new s.fd_block_size ≡ true) ⊎ (leb new s.fd_block_size ≡ false)
        → Resized malloc fd s stack (resize_to malloc new s stack)
    go malloc (inl e) = absurd (omega (arith, le-leb new s.fd_block_size e))
    go false (inr e) = rw e (v, (λ i. refl, λ i. refl), refl, refl)
    go true (inr e) =
        let more = lt-leb new s.fd_block_size e in
        rw e (
          record {
            r_tracked = extend-IsTracked _ new s.r v.r_tracked (omega arith);
            w_tracked = extend-IsTracked _ new s.w v.w_tracked (omega arith);
          },
          (λ i. extend-handlers _ s.r i v.r_tracked, λ i. extend-handlers _ s.w i v.w_tracked),
          lt,
          refl,
        )

pub resize_fd_block-Resized :
    (malloc : Bool) (fd : ℕ) (s : Select) (stack : ErrorStack)
    → IsValid s
    → s.fd_block_size ≤ fd
    → fd < 2 ^ 31
    → Resized malloc fd s stack (resize_fd_block malloc fd s stack)
unfolding resize_fd_block
resize_fd_block-Resized malloc fd s stack v le small = elim (Bool-cases (s.fd_block_size == 0)) [
  | inl e ↦
      let z = eq-== s.fd_block_size 0 e in
      let vr = v.r_tracked in
      let vw = v.w_tracked in
      let br = vr.bounded in
      let bw = vw.bounded in
      let cleared : Select = record s { r = zero_sets s.r; w = zero_sets s.w } in
      let cv : IsValid cleared = record {
        r_tracked = zero_sets-IsTracked _ s.r vr (omega arith);
        w_tracked = zero_sets-IsTracked _ s.w vw (omega arith);
      } in
      let lt = grow_lem 32 64 fd small (omega arith) in
      rw e (resize_to-Resized malloc fd _ cleared stack cv le lt)
  | inr e ↦
      let nz = ne-== s.fd_block_size 0 e in
      let lt = grow_lem 32 s.fd_block_size fd small (omega arith) in
      rw e (resize_to-Resized malloc fd _ s stack v le lt)
]

raised-le : (nfds fd n : ℕ) → fd < n → nfds ≤ n → raised nfds fd ≤ n
raised-le nfds fd n a b = ground arith

raised-above : (nfds fd i : ℕ) → raised nfds fd ≤ i → (nfds ≤ i) × (i ≢ fd)
raised-above nfds fd i h = ground arith

raised-other : (nfds fd n : ℕ) → raised nfds fd ≡ suc n → n ≢ fd → nfds ≡ suc n
raised-other nfds fd n h ne = ground arith

pub add_handler-IsTracked :
    (fd service size : ℕ) (x : Side)
    → IsTracked size x
    → fd < size
    → fd < fd_setsize
    → IsTracked size (add_handler fd service x)
unfolding add_handler
add_handler-IsTracked fd service size x t lt small =
    let b = t.bounded in
    let l = t.small in
    record {
      bounded = raised-le x.nfds fd size lt b;
      small = raised-le x.nfds fd fd_setsize small l;
      registered =
          λ i. elim (Bool-cases (i == fd)) [ inl e ↦ rw e refl | inr e ↦ rw e (t.registered i) ];
      pending = λ i. elim (Bool-cases (i == fd)) [
        | inl e ↦ rw e (λ h. refl)
        | inr e ↦ rw e (t.pending i)
      ];
      none_above = λ i h.
          let (above, at) = raised-above x.nfds fd i h in
          rw (==-false i fd at) (t.none_above i above);
      tight = λ n h. elim (Bool-cases (n == fd)) [
        | inl e ↦ rw e refl
        | inr e ↦ rw e (t.tight n (raised-other x.nfds fd n h (ne-== n fd e)))
      ];
    }

trim-le : (handlers : ℕ → Option ℕ) (n : ℕ) → trim handlers n ≤ n
unfolding trim
trim-le handlers zero = omega arith
trim-le handlers (suc n) = elim (Bool-cases (occupied (handlers n))) [
  | inl e ↦ rw (e, trim) (omega arith)
  | inr e ↦ rw (e, trim) (omega (arith, trim-le handlers n))
]

free : (o : Option ℕ) → occupied o ≡ false → o ≡ none
free none h = refl
free (some s) h = absurd (grind (arith, h))

trim-above :
    (handlers : ℕ → Option ℕ) (n i : ℕ)
    → ((j : ℕ) → n ≤ j → handlers j ≡ none)
    → trim handlers n ≤ i
    → handlers i ≡ none
unfolding trim
trim-above handlers zero i above = λ le. above i le
trim-above handlers (suc n) i above = elim (Bool-cases (occupied (handlers n))) [
  | inl e ↦ rw (e, trim) (above i)
  | inr e ↦
      let below : (j : ℕ) → n ≤ j → handlers j ≡ none = λ j h. elim (Bool-cases (j == n)) [
        | inl q ↦ rw (eq-== j n q) (free (handlers n) e)
        | inr q ↦ above j (grind (arith, ne-== j n q))
      ] in
      rw (e, trim) (trim-above handlers n i below)
]

trim-tight :
    (handlers : ℕ → Option ℕ) (n m : ℕ) → trim handlers n ≡ suc m → occupied (handlers m) ≡ true
unfolding trim
trim-tight handlers zero m = λ h. absurd (omega arith)
trim-tight handlers (suc n) m = elim (Bool-cases (occupied (handlers n))) [
  | inl e ↦ rw (e, trim) (λ h. let same : n ≡ m = omega arith in rw same at e)
  | inr e ↦ rw (e, trim) (trim-tight handlers n m)
]

pub remove_handler-IsTracked :
    (fd size : ℕ) (x : Side) → IsTracked size x → IsTracked size (remove_handler fd x)
unfolding remove_handler
remove_handler-IsTracked fd size x t =
    let b = t.bounded in
    let l = t.small in
    let left : ℕ → Option ℕ = λ (i : ℕ). if i == fd then none else x.handlers i in
    record {
      bounded = omega (arith, trim-le left x.nfds);
      small = omega (arith, trim-le left x.nfds);
      registered =
          λ i. elim (Bool-cases (i == fd)) [ inl e ↦ rw e refl | inr e ↦ rw e (t.registered i) ];
      pending =
          λ i. elim (Bool-cases (i == fd)) [ inl e ↦ rw e (λ h. h) | inr e ↦ rw e (t.pending i) ];
      none_above = λ i. trim-above left x.nfds i (λ j le. elim (Bool-cases (j == fd)) [
        | inl e ↦ rw e refl
        | inr e ↦ rw e (t.none_above j le)
      ]);
      tight = trim-tight left x.nfds;
    }
