-- ===== src/Listen/Calls.antt =====
-- The calls that listening makes, and that no socket is left open.
use femc_driver.Prelude.{
  ℕ, ◌≡◌, Bool, true, false, not, Option, none, some, List, [], ◌∷◌, ◌++◌, ◌⊎◌, ◌==◌,
}
use femc_driver.ErrorStack.{ErrorStack}
use femc_driver.Listen.{
  Call, set_reuse, set_broadcast, bind_inet, bind_unix, listen_on, close_fd, Result, has,
  protocol_of, sun_path, socket_noreuse, socket_broadcast, socket_local, socket_dgram,
}

-- What has been called behind some calls, of those that are due. The socket is returned after all of
-- them, or it is closed, behind some first ones of them and nothing else.
abbrev pub Runs : ℕ → List Call → List Call → Result → Type 0
Runs fd before due (r, w) =
    ((r ≡ some fd) × (w.calls ≡ before ++ due))
    ⊎ ((r ≡ none)
        × (made : List Call) × (skipped : List Call) × (due ≡ made ++ skipped)
        × (w.calls ≡ before ++ (made ++ close_fd fd ∷ [])))

abbrev pub call_if : Bool → Call → List Call → List Call
call_if true c due = c ∷ due
call_if false c due = due

-- What is due once the socket is bound.
abbrev pub bound_calls : ℕ → ℕ → Call → List Call
bound_calls fd protocol c = c ∷ call_if (not (protocol == socket_dgram)) (listen_on fd) []

abbrev pub inet_calls : ℕ → ℕ → ℕ → List Call
inet_calls fd port options = call_if (not (has options socket_noreuse)) (set_reuse fd) (
    call_if (has options socket_broadcast) (set_broadcast fd)
      (bound_calls fd (protocol_of options) (bind_inet fd port (has options socket_local))))

-- Nothing is called, with no socket; or `socket` alone, if it fails; or the calls on the socket.
abbrev pub Listens : List Call → Call → (ℕ → List Call) → Result → Type 0
Listens before c due (r, w) =
    ((r ≡ none) × (w.calls ≡ before))
    ⊎ (((r ≡ none) × (w.calls ≡ before ++ c ∷ []))
        ⊎ ((fd : ℕ) × Runs fd (before ++ c ∷ []) (due fd) (r, w)))

-- A null path is refused.
abbrev pub unix_calls : Option (List ℕ) → ℕ → ℕ → List Call
unix_calls none options fd = []
unix_calls (some path) options fd =
    bind_unix fd (sun_path path)
    ∷ call_if (not (protocol_of options == socket_dgram)) (listen_on fd) []
