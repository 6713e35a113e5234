-- ===== src/Zmq/Services/Sockets.antt =====
-- What the functions that remove a service make of the other service of a ZeroMQ socket.
use femc_driver.Prelude.{
  ℕ, ◌≡◌, refl, ◌∙◌, Bool, true, false, Option, none, some, List, inl, inr, Bool-cases,
}
use femc_driver.Backend.{Direction}
use femc_driver.ErrorStack.{ErrorStack, fdd_context_zmq}
use femc_driver.ErrorStack.Contexts.{pop_context-top, OnTop, push_context-OnTop}
use femc_driver.ErrorStack.{Node}
use femc_driver.Prelude.{length}
use femc_driver.Zmq.{
  Entry, Key, by_socket, Zmq, Library, update, list_remove, is_at, find_entry, service, other,
  with_service, is_some, remove_entry,
}
use femc_driver.Zmq.Lists.{
  In, Nodup, OneAt, look, find_entry-some, look-update_out, look-remove, NotIn-list_remove,
}
use femc_driver.Zmq.Services.{
  init_new, init_with, zmq_init, remove_found, remove_at, remove_checked, remove_with,
  remove_service, invalid,
}
use femc_driver.Zmq.Services.Steps.{on_top}

module _ {P : Type 0} where
  -- The start of the poller leaves the entries.
  abbrev Same : Zmq P → Zmq P → Type 0
  Same z z' = (z'.entries ≡ z.entries) × (z'.entry ≡ z.entry)

  abbrev pub looked : Zmq P → Key → Direction → Option ℕ
  looked z k e = look e k z.entry z.entries

  -- With true, both services are gone; with false, both are as they were.
  abbrev pub BothGone : Key → Zmq P → Bool × Zmq P × ErrorStack → Type 0
  BothGone k z (true, z', stack) = (e : Direction) → looked z' k e ≡ none
  BothGone k z (false, z', stack) = (e : Direction) → looked z' k e ≡ looked z k e

  abbrev Opens : List Node → Zmq P → Bool × Zmq P × ErrorStack → Type 0
  Opens base z (true, z', stack) = Same z z' × (stack.nodes ≡ base)
  Opens base z (false, z', stack) = Same z z'

module _ {P : Type 0} (lib : Library P) where
  init_new-Opens :
      (base : List Node) (z : Zmq P) (p : Option P) (ectx : ℕ) (stack : ErrorStack)
      → ectx ≡ length base
      → stack.nodes ≡ on_top base
      → Opens base z (init_new lib z p ectx stack)
  unfolding init_new
  init_new-Opens base z none ectx stack q h = (refl, refl)
  init_new-Opens base z (some p) ectx stack q h =
      let (popped, nodes) = pop_context-top fdd_context_zmq stack base h in
      rw (q, popped) ((refl, refl), nodes)

  init_with-Opens :
      (base : List Node) (z : Zmq P) (r : Option ℕ × ErrorStack)
      → OnTop fdd_context_zmq base r
      → Opens base z (init_with lib z r)
  unfolding init_with
  init_with-Opens base z (none, stack) h = (refl, refl)
  init_with-Opens base z (some ectx, stack) (q, h) = init_new-Opens base z lib.new ectx stack q h

  zmq_init-Opens : (z : Zmq P) (stack : ErrorStack) → Opens stack.nodes z (zmq_init lib z stack)
  unfolding zmq_init
  zmq_init-Opens z stack = elim (Bool-cases (is_some z.poller)) [
    | inl h ↦ rw (h, zmq_init) ((refl, refl), refl)
    | inr h ↦
        rw (h, zmq_init)
          (init_with-Opens stack.nodes z _ (push_context-OnTop fdd_context_zmq stack))
  ]

  module _ (d : Direction) (socket : ℕ) where
    abbrev changed : ℕ → Zmq P → ℕ → Entry
    changed a z = update a (with_service d none (z.entry a)) z.entry

    gone :
        (a : ℕ) (z : Zmq P)
        → Nodup z.entries
        → OneAt (by_socket socket) z.entry z.entries
        → In a z.entries
        → is_at (by_socket socket) (z.entry a) ≡ true
        → (e : Direction)
        → look e
            (by_socket socket)
            (update a (record (changed a z a) { socket = none; fd = none }) (changed a z))
            (list_remove a z.entries)
          ≡ none
    gone a z n o i at e =
        look-update_out e (by_socket socket) a (record (changed a z a) { socket = none; fd = none })
          (changed a z) (list_remove a z.entries) (NotIn-list_remove a z.entries n)
        ∙ look-remove e (by_socket socket) a (with_service d none (z.entry a)) z.entry z.entries i n
            o
        ∙ rw at refl

    remove_found-BothGone :
        (base : List Node) (a ectx : ℕ) (z : Zmq P) (stack : ErrorStack)
        → ectx ≡ length base
        → stack.nodes ≡ on_top base
        → Nodup z.entries
        → OneAt (by_socket socket) z.entry z.entries
        → In a z.entries
        → is_at (by_socket socket) (z.entry a) ≡ true
        → BothGone (by_socket socket) z (remove_found lib d (by_socket socket) ectx a z stack)
    unfolding remove_found remove_entry
    remove_found-BothGone base a ectx z stack q h n o i at =
        let (popped, nodes) = pop_context-top fdd_context_zmq stack base h in
        elim (Bool-cases (is_some (service d (z.entry a)))) [
          | inr g ↦ rw (g, remove_found) (λ e. refl)
          | inl g ↦
              elim (Bool-cases (is_some (service (other d) (with_service d none (z.entry a))))) [
                | inl t ↦ rw (g, remove_found, t) (rw (q, popped) (gone a z n o i at))
                | inr t ↦ rw (g, remove_found, t) (rw (q, popped) (gone a z n o i at))
              ]
        ]

    remove_at-BothGone :
        (base : List Node) (ectx : ℕ) (z : Zmq P) (stack : ErrorStack) (found : Option ℕ)
        → ectx ≡ length base
        → stack.nodes ≡ on_top base
        → Nodup z.entries
        → OneAt (by_socket socket) z.entry z.entries
        → find_entry (by_socket socket) z.entry z.entries ≡ found
        → BothGone (by_socket socket) z (remove_at lib d (by_socket socket) ectx found z stack)
    unfolding remove_at invalid
    remove_at-BothGone base ectx z stack none q h n o f = λ e. refl
    remove_at-BothGone base ectx z stack (some a) q h n o f =
        let (i, at) = find_entry-some (by_socket socket) z.entry z.entries a f in
        remove_found-BothGone base a ectx z stack q h n o i at

    BothGone-after :
        (z z₁ : Zmq P) (r : Bool × Zmq P × ErrorStack)
        → Same z z₁
        → BothGone (by_socket socket) z₁ r
        → BothGone (by_socket socket) z r
    BothGone-after z z₁ (true, z', stack) s g = g
    BothGone-after z z₁ (false, z', stack) s g = λ e. g e ∙ rw (s.0, s.1) refl

    remove_checked-BothGone :
        (base : List Node) (ectx : ℕ) (z : Zmq P) (r : Bool × Zmq P × ErrorStack)
        → ectx ≡ length base
        → Nodup z.entries
        → OneAt (by_socket socket) z.entry z.entries
        → Opens (on_top base) z r
        → BothGone (by_socket socket) z (remove_checked lib d (some (by_socket socket)) ectx r)
    unfolding remove_checked
    remove_checked-BothGone base ectx z (false, z', stack) q n o s = λ e. rw (s.0, s.1) refl
    remove_checked-BothGone base ectx z (true, z', stack) q n o (s, h) =
        BothGone-after z z' _ s
          (remove_at-BothGone base ectx z' stack _ q h (rw (s.0) n) (rw (s.0, s.1) o) refl)

    remove_with-BothGone :
        (base : List Node) (z : Zmq P) (r : Option ℕ × ErrorStack)
        → Nodup z.entries
        → OneAt (by_socket socket) z.entry z.entries
        → OnTop fdd_context_zmq base r
        → BothGone (by_socket socket) z (remove_with lib d (some (by_socket socket)) z r)
    unfolding remove_with
    remove_with-BothGone base z (none, stack) n o h = λ e. refl
    remove_with-BothGone base z (some ectx, stack) n o (q, h) =
        remove_checked-BothGone base ectx z (zmq_init lib z stack) q n o
          (rw (← h) (zmq_init-Opens z stack))

    -- `fdx_remove_input_zmq` and `fdx_remove_output_zmq` of a socket, where no entry is listed twice
    -- and no other entry is at the socket. With true neither service of the socket is found any
    -- more, the one that was not to be removed included. With false both are as they were.
    pub remove_service-BothGone :
        (z : Zmq P) (stack : ErrorStack)
        → Nodup z.entries
        → OneAt (by_socket socket) z.entry z.entries
        → BothGone (by_socket socket) z (remove_service lib d (some (by_socket socket)) z stack)
    unfolding remove_service
    remove_service-BothGone z stack n o =
        remove_with-BothGone stack.nodes z _ n o (push_context-OnTop fdd_context_zmq stack)
