-- ===== src/Listen/Opens.antt =====
-- Where no system call fails: which arguments are taken, and that the socket is returned for them.
use femc_driver.Prelude.{
  ℕ, ◌≡◌, refl, ap, ◌∙◌, Bool, true, false, not, Option, none, some, List, String, length, if-no,
  ◌==◌, ◌<◌, ◌^◌, ◌↔◌, if-yes,
}
use femc_driver.ErrorStack.{
  ErrorStack, push_context, safe_pop_context, fde_errors, fdu_context_listen,
}
use femc_driver.ErrorStack.Contexts.{HasRoom, push_context-room, safe_pop-push}
use femc_driver.Listen.Options.{TakesInet, TakesUnix, bad_inet_lem, bad_unix_lem}
use femc_driver.Listen.{
  invalid, Call, System, World, Result, has, protocol_of, kind_of, open_inet, open_unix, set_reuse,
  set_broadcast, bind_inet, bind_unix, listen_on, log, attempt, attempt_if, popped, finish, bound,
  inet_opened, opened, bad_inet, listen_inet_with, listen_inet4, sun_path, unix_opened, bad_unix,
  unix_arguments, listen_unix_with, listen_unix, socket_noreuse, socket_broadcast, socket_local,
  socket_dgram,
}

-- No system call fails.
pub record Succeeds (sys : System) (fd : ℕ) : Type 0 where
  pub socket : sys.socket ≡ some fd
  pub reuse : sys.reuse ≡ none
  pub broadcast : sys.broadcast ≡ none
  pub bind : sys.bind ≡ none
  pub listen : sys.listen ≡ none

module _ (sys : System) (fd : ℕ) (ok : Succeeds sys fd) (stack : ErrorStack) where
  -- With the error stack as it was, the socket is returned.
  abbrev Opens : (World → Result) → Type 0
  Opens next = (w : World) → w.stack ≡ stack → (next w).0 ≡ some fd

  attempt-Opens :
      (c : Call) (name : String) (outcome : Option ℕ) (next : World → Result)
      → outcome ≡ none
      → Opens next
      → Opens (attempt sys fd c name outcome next)
  unfolding attempt
  attempt-Opens c name none next e h w s = h (log c w) s
  attempt-Opens c name (some errno) next e h w s = absurd (cc e)

  attempt_if-Opens :
      (b : Bool) (c : Call) (name : String) (outcome : Option ℕ) (next : World → Result)
      → outcome ≡ none
      → Opens next
      → Opens (attempt_if b sys fd c name outcome next)
  unfolding attempt_if
  attempt_if-Opens true c name outcome next e h w s = attempt-Opens c name outcome next e h w s
  attempt_if-Opens false c name outcome next e h w s = h w s

  module _ (ectx : ℕ)
      (pops : (safe_pop_context fdu_context_listen (some ectx) stack).0 ≡ true) where
    popped-Opens :
        (w : World) (r : Bool × ErrorStack) → r.0 ≡ true → (popped sys fd w r).0 ≡ some fd
    unfolding popped
    popped-Opens w (true, s) e = refl
    popped-Opens w (false, s) e = absurd (cc e)

    finish-Opens : Opens (finish sys fd ectx)
    unfolding finish
    finish-Opens w s =
        popped-Opens w _
          (ap (λ (t : ErrorStack). (safe_pop_context fdu_context_listen (some ectx) t).0) s ∙ pops)

    bound-Opens : (protocol : ℕ) (c : Call) → Opens (bound sys protocol fd c ectx)
    unfolding bound
    bound-Opens protocol c = attempt-Opens c "bind" sys.bind _ ok.bind (
        attempt_if-Opens (not (protocol == socket_dgram)) (listen_on fd) "listen" sys.listen
          (finish sys fd ectx) ok.listen finish-Opens)

    inet_opened-Opens : (port options : ℕ) → Opens (inet_opened sys port options ectx fd)
    unfolding inet_opened
    inet_opened-Opens port options =
        let c = bind_inet fd port (has options socket_local) in
        let last = bound sys (protocol_of options) fd c ectx in
        attempt_if-Opens (not (has options socket_noreuse)) (set_reuse fd)
          "setsockopt(SO_REUSEADDR)" sys.reuse
          (attempt_if (has options socket_broadcast) sys fd (set_broadcast fd)
            "setsockopt(SO_BROADCAST)" sys.broadcast last)
          ok.reuse
          (attempt_if-Opens (has options socket_broadcast) (set_broadcast fd)
            "setsockopt(SO_BROADCAST)" sys.broadcast last ok.broadcast
            (bound-Opens (protocol_of options) c))

opened-some :
    (sys : System) (fd : ℕ) (c : Call) (next : ℕ → World → Result) (w : World)
    → sys.socket ≡ some fd
    → (next fd (log c w)).0 ≡ some fd
    → (opened sys c next sys.socket w).0 ≡ some fd
unfolding opened
opened-some sys fd c next w e h = rw e h

module _ (sys : System) (fd : ℕ) (ok : Succeeds sys fd) (w : World) (room : HasRoom w.stack)
    (quiet : fde_errors w.stack ≡ 0) where
  pushed : ErrorStack
  pushed = (push_context fdu_context_listen none w.stack).1

  pops : (safe_pop_context fdu_context_listen (some (length w.stack.nodes)) pushed).0 ≡ true
  unfolding pushed
  pops = (safe_pop-push fdu_context_listen w.stack room quiet).0

  ptr : (push_context fdu_context_listen none w.stack).0 ≡ some (length w.stack.nodes)
  ptr = (push_context-room fdu_context_listen none w.stack room.1).0

  inet-some :
      (port options : ℕ)
      → bad_inet port options ≡ false
      → (listen_inet4 sys port options w).0 ≡ some fd
  unfolding listen_inet4 listen_inet_with pushed
  inet-some port options good =
      let ectx = length w.stack.nodes in
      let w₁ : World = record w { stack = pushed } in
      let c = open_inet (kind_of (protocol_of options)) in
      ap (λ o. (listen_inet_with sys port options w (o, pushed)).0) ptr
      ∙ ap (λ (r : Result). r.0) (if-no (bad_inet port options) _ good)
      ∙ opened-some sys fd c (inet_opened sys port options ectx) w₁ ok.socket
          (inet_opened-Opens sys fd ok pushed ectx pops port options (log c w₁) refl)

  unix-some :
      (path : List ℕ) (options : ℕ)
      → bad_unix path options ≡ false
      → (listen_unix sys (some path) options w).0 ≡ some fd
  unfolding listen_unix listen_unix_with unix_arguments unix_opened pushed
  unix-some path options good =
      let ectx = length w.stack.nodes in
      let w₁ : World = record w { stack = pushed } in
      let c = open_unix (kind_of (protocol_of options)) in
      ap (λ o. (listen_unix_with sys (some path) options w (o, pushed)).0) ptr
      ∙ ap (λ (r : Result). r.0) (if-no (bad_unix path options) _ good)
      ∙ opened-some sys fd c (unix_opened sys path options ectx) w₁ ok.socket (
          bound-Opens sys fd ok pushed ectx pops (protocol_of options)
            (bind_unix fd (sun_path path)) (log c w₁) refl)

  inet-none :
      (port options : ℕ)
      → bad_inet port options ≡ true
      → ((listen_inet4 sys port options w).0 ≡ none)
        × ((listen_inet4 sys port options w).1.calls ≡ w.calls)
  unfolding listen_inet4 listen_inet_with invalid pushed
  inet-none port options bad =
      let ends : listen_inet_with sys port options w (some (length w.stack.nodes), pushed)
          ≡ invalid (record w { stack = pushed }) =
        if-yes (bad_inet port options) _ bad in
      rw (ap (λ o. listen_inet_with sys port options w (o, pushed)) ptr ∙ ends) (refl, refl)

  unix-none :
      (path : List ℕ) (options : ℕ)
      → bad_unix path options ≡ true
      → ((listen_unix sys (some path) options w).0 ≡ none)
        × ((listen_unix sys (some path) options w).1.calls ≡ w.calls)
  unfolding listen_unix listen_unix_with unix_arguments invalid pushed
  unix-none path options bad =
      let ends : listen_unix_with sys (some path) options w (some (length w.stack.nodes), pushed)
          ≡ invalid (record w { stack = pushed }) =
        if-yes (bad_unix path options) _ bad in
      rw (ap (λ o. listen_unix_with sys (some path) options w (o, pushed)) ptr ∙ ends) (refl, refl)

-- The socket is returned for arguments that are taken; else nothing is, and nothing is called.
abbrev pub Answers : Type 0 → ℕ → List Call → Result → Type 0
Answers Takes fd calls r =
    (Takes → r.0 ≡ some fd) × ((Takes → ⊥) → (r.0 ≡ none) × (r.1.calls ≡ calls))

judged :
    (bad : Bool) {Takes : Type 0} (fd : ℕ) (calls : List Call) (r : Result)
    → ((bad ≡ false) ↔ Takes)
    → (bad ≡ false → r.0 ≡ some fd)
    → (bad ≡ true → (r.0 ≡ none) × (r.1.calls ≡ calls))
    → Answers Takes fd calls r
judged false fd calls r (to, of) good refused = (λ t. good refl, λ n. absurd (n (to refl)))
judged true fd calls r (to, of) good refused = (λ t. absurd (cc (of t)), λ n. refused refl)

-- Where no system call fails, the error stack has a free slot, no errors and counters below 2 ^ 32,
-- and the options are of 32 bits. `fdu_listen_inet4` returns the socket just if the port is not 0,
-- the options are below 32, their protocol, the two low bits, is not 3, and broadcast, the fifth bit,
-- goes with the protocol for datagrams and without the bit for a local address. `fdu_listen_unix` of a
-- path returns it just if the path is not empty and the options are a protocol, 0 to 2. Else none is
-- returned and no system call is made.
pub listen-some :
    (sys : System) (fd port options options' : ℕ) (path : List ℕ) (w : World)
    → Succeeds sys fd
    → HasRoom w.stack
    → fde_errors w.stack ≡ 0
    → options < 2 ^ 32
    → options' < 2 ^ 32
    → Answers (TakesInet port options) fd w.calls (listen_inet4 sys port options w)
      × Answers (TakesUnix path options') fd w.calls (listen_unix sys (some path) options' w)
listen-some sys fd port options options' path w ok room quiet few few' = (
  judged (bad_inet port options) fd w.calls (listen_inet4 sys port options w)
      (bad_inet_lem options few port) (inet-some sys fd ok w room quiet port options)
      (inet-none sys fd ok w room quiet port options),
  judged (bad_unix path options') fd w.calls (listen_unix sys (some path) options' w)
      (bad_unix_lem options' few' path) (unix-some sys fd ok w room quiet path options')
      (unix-none sys fd ok w room quiet path options'),
)
