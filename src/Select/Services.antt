-- ===== src/Select/Services.antt =====
-- What the two descriptor sets, the limits `nfds_r` and `nfds_w` and the block of handlers say of
-- each other.
use femc_driver.Prelude.{
  ℕ, zero, suc, ◌≤◌, ◌≡◌, refl, sym, ap, ◌↔◌, true, Option, none, arith, ◌==◌, ltb, le-ltb,
  Bool-cases, inl, inr, ◌&&◌,
}
use femc_driver.Backend.{Direction, input, output}
use femc_driver.Select.{
  Side, Select, side, with_side, occupied, empty, fd_setsize, zero_sets, extend,
}

-- The cached set is that of the descriptors with a handler, those that are ready are among them,
-- and the limit is one more than the highest of them, or 0.
pub record IsTracked (size : ℕ) (x : Side) : Type 0 where
  pub bounded : x.nfds ≤ size
  pub small : x.nfds ≤ fd_setsize
  pub registered : (fd : ℕ) → x.cached fd ≡ occupied (x.handlers fd)
  pub pending : (fd : ℕ) → x.current fd ≡ true → x.cached fd ≡ true
  pub none_above : (fd : ℕ) → x.nfds ≤ fd → x.handlers fd ≡ none
  pub tight : (n : ℕ) → x.nfds ≡ suc n → occupied (x.handlers n) ≡ true

pub record IsValid (s : Select) : Type 0 where
  pub r_tracked : IsTracked s.fd_block_size s.r
  pub w_tracked : IsTracked s.fd_block_size s.w

pub side-IsTracked : (d : Direction) (s : Select) → IsValid s → IsTracked s.fd_block_size (side d s)
side-IsTracked input s v = v.r_tracked
side-IsTracked output s v = v.w_tracked

pub with_side-IsValid :
    (d : Direction) (x : Side) (s : Select)
    → IsValid s
    → IsTracked s.fd_block_size x
    → IsValid (with_side d x s)
with_side-IsValid input x s v t = record { r_tracked = t; w_tracked = v.w_tracked }
with_side-IsValid output x s v t = record { r_tracked = v.r_tracked; w_tracked = t }

-- No service waits in the direction.
abbrev pub IsIdle : Side → Type 0
IsIdle x = (fd : ℕ) → x.handlers fd ≡ none

nfds-zero : (size : ℕ) (x : Side) → IsTracked size x → x.nfds ≡ 0 → IsIdle x
nfds-zero size x t e = λ fd. t.none_above fd (omega arith)

occupied-none : {o : Option ℕ} → o ≡ none → occupied o ≡ true → ⊥
occupied-none e h = grind (arith, ap (λ o. occupied o) e)

nfds-IsIdle : (size : ℕ) (x : Side) → IsTracked size x → IsIdle x → x.nfds ≡ 0
nfds-IsIdle size x t idle = go x.nfds refl
  where
    go : (n : ℕ) → x.nfds ≡ n → n ≡ 0
    go zero e = refl
    go (suc n) e = absurd (occupied-none (idle n) (t.tight n e))

-- `SELECT_empty` answers whether no service is registered, in either direction.
pub empty_lem : (s : Select) → IsValid s → (empty s ≡ true) ↔ (IsIdle s.r × IsIdle s.w)
unfolding empty
empty_lem s v = (
  λ h.
      let (a, b) = both (s.r.nfds) (s.w.nfds) h in
      (nfds-zero _ s.r v.r_tracked a, nfds-zero _ s.w v.w_tracked b),
  λ (a, b).
      let p = nfds-IsIdle _ s.r v.r_tracked a in
      let q = nfds-IsIdle _ s.w v.w_tracked b in rw (p, q) refl,
)
  where
    both : (a b : ℕ) → (a == 0 && b == 0) ≡ true → (a ≡ 0) × (b ≡ 0)
    both a b h = ground arith

-- The first call of `resize_fd_block` zeroes sets that have nothing in them.
pub zero_sets-IsTracked :
    (size : ℕ) (x : Side) → IsTracked size x → x.nfds ≡ 0 → IsTracked size (zero_sets x)
zero_sets-IsTracked size x t e = record {
  bounded = t.bounded;
  small = t.small;
  none_above = t.none_above;
  tight = t.tight;
  registered = λ fd. ap (λ o. occupied o) (sym (nfds-zero size x t e fd));
  pending = λ fd h. h;
}

pub extend-handlers :
    (old : ℕ) (x : Side) (fd : ℕ) → IsTracked old x → (extend old x).handlers fd ≡ x.handlers fd
extend-handlers old x fd t = elim (Bool-cases (ltb fd old)) [
  | inl h ↦ rw h refl
  | inr h ↦
      let le = le-ltb fd old h in let b = t.bounded in rw h (sym (t.none_above fd (omega arith)))
]

pub extend-IsTracked :
    (old size : ℕ) (x : Side) → IsTracked old x → old ≤ size → IsTracked size (extend old x)
extend-IsTracked old size x t le = record {
  bounded = omega (arith, t.bounded);
  small = t.small;
  registered = λ fd. rw (extend-handlers old x fd t) (t.registered fd);
  pending = t.pending;
  none_above = λ fd h. rw (extend-handlers old x fd t) (t.none_above fd h);
  tight = λ n e. rw (extend-handlers old x n t) (t.tight n e);
}
