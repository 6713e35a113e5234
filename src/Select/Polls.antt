-- ===== src/Select/Polls.antt =====
-- `SELECT_poll` among handlers that add and remove services while it runs.
use femc_driver.Prelude.{
  ℕ, zero, suc, ◌+◌, ◌-◌, ◌≤◌, ◌<◌, ◌≡◌, inl, inr, Bool, true, false, ◌||◌, Option, arith, max,
  ◌==◌, ltb, lt-ltb, Bool-cases, Option-cases, ap, sym,
}
use femc_driver.ErrorStack.{ErrorStack}
use femc_driver.Backend.{Direction, input, output}
use femc_driver.Select.{
  FdSet, Select, side, occupied, fd_setsize, Selected, ready, failing, Visit, through, returned,
  null_handler, spent, Notify, clear_current, visit, visit_fuel, visit_output, finish, handle, poll,
  eintr, eagain, timeout,
}
use femc_driver.Select.Services.{IsValid, side-IsTracked, with_side-IsValid}

-- The handlers keep the state valid, as all functions of the module do.
abbrev pub Keeps : Notify → Type 0
Keeps notify =
    (d : Direction) (handler fd : ℕ) (s : Select) (stack : ErrorStack)
    → IsValid s
    → IsValid (notify d handler fd s stack).1

-- `select` leaves no bits in the sets but those it was given.
abbrev pub Within : FdSet → FdSet → Selected → Type 0
Within r w (ready count r' w') =
    ((fd : ℕ) → r' fd ≡ true → r fd ≡ true) × ((fd : ℕ) → w' fd ≡ true → w fd ≡ true)
Within r w (failing errno) = Unit

-- The loop is not cut off, meets no null pointer, and leaves valid state.
abbrev pub IsSafe : Visit → Type 0
IsSafe (through count s stack) = IsValid s
IsSafe (returned ok s stack) = IsValid s
IsSafe null_handler = ⊥
IsSafe spent = ⊥

clear_current-IsValid :
    (d : Direction) (fd : ℕ) (s : Select) → IsValid s → IsValid (clear_current d fd s)
clear_current-IsValid d fd s v =
    let t = side-IsTracked d s v in
    with_side-IsValid d _ s v (record {
      bounded = t.bounded;
      small = t.small;
      registered = t.registered;
      pending = λ i. elim (Bool-cases (i == fd)) [
        | inl e ↦ rw e (λ h. absurd (grind (arith, h)))
        | inr e ↦ rw e (t.pending i)
      ];
      none_above = t.none_above;
      tight = t.tight;
    })

-- Safe whether the handler fails, was the last one, or neither.
either :
    (ok last : Bool) (failed done more : Visit)
    → IsSafe failed
    → IsSafe done
    → IsSafe more
    → IsSafe (elim ok [ false ↦ failed | true ↦ elim last [ true ↦ done | false ↦ more ] ])
either false last failed done more f d m = f
either true true failed done more f d m = d
either true false failed done more f d m = m

module _ (notify : Notify) (keeps : Keeps notify) where
  visit-IsSafe :
      (d : Direction) (fuel fd count : ℕ) (s : Select) (stack : ErrorStack)
      → IsValid s
      → fd ≤ fd_setsize
      → fd_setsize < fuel + fd
      → IsSafe (visit notify d fuel fd count s stack)
  unfolding visit
  visit-IsSafe d zero fd count s stack v le lt = absurd (omega arith)
  visit-IsSafe d (suc fuel) fd count s stack v le lt = elim (Bool-cases (ltb fd (side d s).nfds)) [
    | inr past ↦ rw (past, visit) v
    | inl more ↦
        let t = side-IsTracked d s v in
        let small = t.small in
        let below = lt-ltb fd (side d s).nfds more in
        elim (Bool-cases ((side d s).current fd)) [
          | inr idle ↦
              rw (more, idle, visit)
                (visit-IsSafe d fuel (fd + 1) count s stack v (omega arith) (omega arith))
          | inl pending ↦ elim (Option-cases ((side d s).handlers fd)) [
            | inl none_there ↦ absurd (
                grind (
                  arith,
                  sym (t.pending fd pending),
                  t.registered fd,
                  ap (λ o. occupied o) none_there,
                ))
            | inr (handler, there) ↦
                let called = keeps d handler fd _ stack (clear_current-IsValid d fd s v) in
                let r = notify d handler fd (clear_current d fd s) stack in
                rw (more, pending, there, visit)
                  (either r.0 (count == 1) (returned false r.1 r.2) (returned true r.1 r.2) _ called
                    called
                    (visit-IsSafe d fuel (fd + 1) (count - 1) r.1 r.2 called (omega arith)
                      (omega arith)))
          ]
        ]
  ]

  visit_output-IsSafe : (v : Visit) → IsSafe v → IsSafe (finish (visit_output notify v))
  unfolding visit_output finish
  visit_output-IsSafe (through count s stack) h =
      finish-IsSafe _ (visit-IsSafe output visit_fuel 0 count s stack h (omega arith) (omega arith))
    where
      finish-IsSafe : (v : Visit) → IsSafe v → IsSafe (finish v)
      finish-IsSafe (through count s stack) h = h
      finish-IsSafe (returned ok s stack) h = h
      finish-IsSafe null_handler h = h
      finish-IsSafe spent h = h
  visit_output-IsSafe (returned ok s stack) h = h
  visit_output-IsSafe null_handler h = h
  visit_output-IsSafe spent h = h

  ready-IsValid :
      (s : Select) (r w : FdSet)
      → IsValid s
      → ((fd : ℕ) → r fd ≡ true → s.r.cached fd ≡ true)
      → ((fd : ℕ) → w fd ≡ true → s.w.cached fd ≡ true)
      → IsValid (record s { r = record s.r { current = r }; w = record s.w { current = w } })
  ready-IsValid s r w v hr hw =
      let tr = v.r_tracked in
      let tw = v.w_tracked in
      record {
        r_tracked = record {
          bounded = tr.bounded;
          small = tr.small;
          registered = tr.registered;
          pending = hr;
          none_above = tr.none_above;
          tight = tr.tight;
        };
        w_tracked = record {
          bounded = tw.bounded;
          small = tw.small;
          registered = tw.registered;
          pending = hw;
          none_above = tw.none_above;
          tight = tw.tight;
        };
      }

  handle-IsSafe :
      (s : Select) (stack : ErrorStack) (result : Selected)
      → IsValid s
      → Within s.r.cached s.w.cached result
      → IsSafe (handle notify s stack result)
  unfolding handle
  handle-IsSafe s stack (failing errno) v w =
      elim (Bool-cases (errno == eintr || errno == eagain)) [
        | inl e ↦ rw (e, handle) v
        | inr e ↦ rw (e, handle) v
      ]
  handle-IsSafe s stack (ready count r' w') v (hr, hw) =
      let valid = ready-IsValid s r' w' v hr hw in
      elim (Bool-cases (count == 0)) [
        | inl e ↦ rw (e, handle) valid
        | inr e ↦
            rw (e, handle)
              (visit_output-IsSafe _
                (visit-IsSafe input visit_fuel 0 count _ stack valid (omega arith) (omega arith)))
      ]

  -- `SELECT_poll` on valid state, with handlers that keep it valid and a `select` that leaves no
  -- bits but those it was given: both loops come to an end, no null handler is called, and the
  -- state is valid when the function returns, also where handlers add or remove services.
  pub poll-IsSafe :
      (select : ℕ → FdSet → FdSet → Option (ℕ × ℕ) → Selected) (msec : ℕ) (s : Select)
      (stack : ErrorStack)
      → ((n : ℕ) (r w : FdSet) (t : Option (ℕ × ℕ)) → Within r w (select n r w t))
      → IsValid s
      → IsSafe (poll select notify msec s stack)
  unfolding poll
  poll-IsSafe select msec s stack within v =
      handle-IsSafe _ stack _ (ready-IsValid s s.r.cached s.w.cached v (λ fd h. h) (λ fd h. h))
        (within (max s.r.nfds s.w.nfds) s.r.cached s.w.cached (timeout msec))
