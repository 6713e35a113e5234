-- ===== src/Http/Response/Heads.antt =====
-- The head of the response to an error: what it is, and that it is put out where there is room.
use mathlib.Core.List.{append-nil}
use femc_driver.Prelude.{
  ℕ, zero, suc, ◌+◌, ◌-◌, ◌≤◌, ◌<◌, ◌≡◌, refl, ap, sym, ◌∙◌, Bool, true, false, not, ◌&&◌, ◌||◌,
  Option, none, some, [], ◌∷◌, ◌%◌, ◌^◌, ◌++◌, String, arith, length, take, ltb, leb, ◌==◌, if-case,
  if-no, length-append, Bool-cases, inl, inr, lt-ltb, eq-==,
}
use femc_driver.ErrorStack.{ErrorStack, push_context, fde_errors, fdu_context_http}
use femc_driver.ErrorStack.Contexts.{HasRoom, push_context-room, safe_pop-push}
use femc_driver.Http.{Bytes, MessageState}
use femc_driver.Http.Text.{codes}
use femc_driver.Http.Response.{
  get_http_error_message, Tm, get_http_date, apply_data_to_buffer, status_text, print_into, applied,
  apply_if, apply_headers, is_1_0, Content, content_size, Answer, headers_done, status_done, dated,
  with_message, with_arguments, conjured, conjure_error_response,
}
use femc_driver.Http.Response.Bounds.{
  Within, apply_headers-Fits, print_into-Within, status_text-pos,
}
use femc_driver.Http.Response.Lines.{
  optional, parts_text, head_text, body, content_size_lem, head_text_lem,
}

apply_data-room :
    (text out : Bytes) (room : ℕ)
    → length (out ++ text) ≤ room
    → apply_data_to_buffer text room out ≡ some (out ++ text)
unfolding apply_data_to_buffer
apply_data-room text out room h = ground (arith, length-append out text)

apply_if-room :
    (b : Bool) (text : String) (room : ℕ) (out : Bytes)
    → length (out ++ optional b text) ≤ room
    → apply_if b text room (true, out) ≡ (true, out ++ optional b text)
unfolding apply_if applied
apply_if-room true text room out h = ap (applied out) (apply_data-room (codes text) out room h)
apply_if-room false text room out h = ap (λ (o : Bytes). (true, o)) (sym (append-nil out))

apply_if-true :
    (b : Bool) (text : String) (room : ℕ) (r : Bool × Bytes)
    → (apply_if b text room r).0 ≡ true
    → (r.0 ≡ true) × (length (apply_if b text room r).1 ≡ length r.1 + length (optional b text))
unfolding apply_if apply_data_to_buffer applied
apply_if-true b text room (false, out) h = absurd (cc h)
apply_if-true false text room (true, out) h = (refl, omega arith)
apply_if-true true text room (true, out) h =
    elim (Bool-cases (ltb room (length out) || ltb (room - length out) (length (codes text)))) [
      | inl e ↦ absurd (cc (rw e at h))
      | inr e ↦ (refl, rw e (length-append out (codes text)))
    ]

module _ (m : MessageState) (size room : ℕ) where
  abbrev options : Bytes → Bytes
  options out =
      ((out ++ optional (not (size == 0)) "Content-type: text/plain\r\n")
        ++ optional m.closing "Connection: close\r\n")
      ++ optional (not m.closing && is_1_0 m.version) "Connection: Keep-Alive\r\n"

  -- Enough room for the optional headers.
  apply_headers-room :
      (out : Bytes)
      → length (options out) ≤ room
      → apply_headers m size room (true, out) ≡ (true, options out)
  unfolding apply_headers
  apply_headers-room out h =
      let x = optional (not (size == 0)) "Content-type: text/plain\r\n" in
      let y = optional m.closing "Connection: close\r\n" in
      let z = optional (not m.closing && is_1_0 m.version) "Connection: Keep-Alive\r\n" in
      ap
        (λ r.
          apply_if (not m.closing && is_1_0 m.version) "Connection: Keep-Alive\r\n" room
            (apply_if m.closing "Connection: close\r\n" room r))
        (apply_if-room (not (size == 0)) "Content-type: text/plain\r\n" room out
          (omega (arith, length-append (out ++ x ++ y) z, length-append (out ++ x) y)))
      ∙ ap (apply_if (not m.closing && is_1_0 m.version) "Connection: Keep-Alive\r\n" room) (
          apply_if-room m.closing "Connection: close\r\n" room (out ++ x)
            (omega (arith, length-append (out ++ x ++ y) z, length-append (out ++ x) y)))
      ∙ apply_if-room (not m.closing && is_1_0 m.version) "Connection: Keep-Alive\r\n" room
          (out ++ x ++ y) h

  -- True is returned only with room for them.
  apply_headers-true :
      (out : Bytes)
      → (apply_headers m size room (true, out)).0 ≡ true
      → length (options out) ≡ length (apply_headers m size room (true, out)).1
  unfolding apply_headers
  apply_headers-true out h =
      let x = optional (not (size == 0)) "Content-type: text/plain\r\n" in
      let y = optional m.closing "Connection: close\r\n" in
      let z = optional (not m.closing && is_1_0 m.version) "Connection: Keep-Alive\r\n" in
      let r1 = apply_if (not (size == 0)) "Content-type: text/plain\r\n" room (true, out) in
      let r2 = apply_if m.closing "Connection: close\r\n" room r1 in
      let (h2, e3) =
        apply_if-true (not m.closing && is_1_0 m.version) "Connection: Keep-Alive\r\n" room r2 h in
      let (h1, e2) = apply_if-true m.closing "Connection: close\r\n" room r1 h2 in
      let (h0, e1) =
        apply_if-true (not (size == 0)) "Content-type: text/plain\r\n" room (true, out) h1 in
      omega (
        arith,
        e1,
        e2,
        e3,
        length-append (out ++ x ++ y) z,
        length-append (out ++ x) y,
        length-append out x,
      )

length-print_into :
    (room : ℕ) (text : Bytes) → length text < room → print_into room text ≡ some text
unfolding print_into
length-print_into room text h = ground arith

-- The status lines are put into the room with their length, or not at all.
abbrev AsLong : ℕ → ℕ → Option Bytes → Type 0
AsLong n room none = room < n
AsLong n room (some out) = length out ≡ n

length-take_all : (n : ℕ) (xs : Bytes) → n ≤ length xs → length (take n xs) ≡ n
length-take_all zero xs h = omega arith
length-take_all (suc n) [] h = absurd (omega arith)
length-take_all (suc n) (x ∷ xs) h = omega (arith, length-take_all n xs (omega arith))

print_into-AsLong :
    (room : ℕ) (text : Bytes) → 0 < length text → AsLong (length text) room (print_into room text)
unfolding print_into
print_into-AsLong room text h =
    if-case (AsLong (length text) room) (ltb room (length text)) (lt-ltb room (length text)) λ fits.
      if-case (AsLong (length text) room) (length text == room)
        (λ e. omega (
          arith,
          eq-== (length text) room e,
          length-append (take (room - 1) text) (0 ∷ []),
          length-take_all (room - 1) text (omega (arith, eq-== (length text) room e)),
        ))
        (λ _. refl)

-- What is said of an answer: true is returned with room for all of the head, and with a byte more
-- the answer is true, the head as it is, and the nodes of the error stack are as they were.
abbrev pub Heads : ℕ → Bytes → ErrorStack → Answer → Type 0
Heads room text stack (b, out, stack') =
    (b ≡ true → length text ≤ room)
    × (length text < room → (b ≡ true) × (out ≡ text) × (stack'.nodes ≡ stack.nodes))

module _ (m : MessageState) (n : ℕ) (message : String) (size room : ℕ) (date : Bytes)
    (stack : ErrorStack) (r : HasRoom stack) (quiet : fde_errors stack ≡ 0) where
  status : Bytes
  status = status_text m.version n message date size

  head : Bytes
  head = parts_text m n message date size

  length-options :
      (out out' : Bytes)
      → length out ≡ length out'
      → length (options m size room out) ≡ length (options m size room out')
  length-options out out' e =
      let x = optional (not (size == 0)) "Content-type: text/plain\r\n" in
      let y = optional m.closing "Connection: close\r\n" in
      let z = optional (not m.closing && is_1_0 m.version) "Connection: Keep-Alive\r\n" in
      omega (
        arith,
        length-append (out ++ x ++ y) z,
        length-append (out ++ x) y,
        length-append out x,
        length-append (out' ++ x ++ y) z,
        length-append (out' ++ x) y,
        length-append out' x,
      )

  status-le-head : length status ≤ length head
  unfolding status head
  status-le-head =
      let x = optional (not (size == 0)) "Content-type: text/plain\r\n" in
      let y = optional m.closing "Connection: close\r\n" in
      let z = optional (not m.closing && is_1_0 m.version) "Connection: Keep-Alive\r\n" in
      omega (
        arith,
        length-append (status ++ x ++ y) z,
        length-append (status ++ x) y,
        length-append status x,
      )

  headers_done-true :
      (ectx : ℕ) (a : Bool × Bytes) (s : ErrorStack) → (headers_done ectx a s).0 ≡ true → a.0 ≡ true
  unfolding headers_done
  headers_done-true ectx (false, out) s h = absurd (cc h)
  headers_done-true ectx (true, out) s h = refl

  status_done-true :
      (ectx : ℕ) (printed : Option Bytes) (s : ErrorStack)
      → AsLong (length status) room printed
      → Within room printed
      → (status_done m size room ectx printed s).0 ≡ true
      → length head ≤ room
  unfolding status_done head status
  status_done-true ectx none s e fits h = absurd (cc h)
  status_done-true ectx (some out) s e fits h =
      let all = headers_done-true ectx (apply_headers m size room (true, out)) s h in
      omega (
        arith,
        apply_headers-true m size room out all,
        apply_headers-Fits m size room (true, out) fits,
        length-options out status e,
      )

  printed_status : Option Bytes
  unfolding status
  printed_status = print_into room status

  pushed_stack : ErrorStack
  pushed_stack = (push_context fdu_context_http none stack).1

  status_done-Heads :
      Heads room head stack
        (status_done m size room (length stack.nodes) printed_status pushed_stack)
  unfolding printed_status status pushed_stack head
  status_done-Heads =
      let pos = status_text-pos m.version n message date size in
      let (popped, left) = safe_pop-push fdu_context_http stack r quiet in
      (
        status_done-true (length stack.nodes) printed_status pushed_stack
            (print_into-AsLong room status pos) (print_into-Within room status pos),
        λ fits.
            let short : length status < room = omega (arith, status-le-head) in
            let done : status_done m size room (length stack.nodes) printed_status pushed_stack
                ≡ headers_done (length stack.nodes) (true, head) pushed_stack =
              ap (λ p. status_done m size room (length stack.nodes) p pushed_stack)
                (length-print_into room status short)
              ∙ unfold status_done in
                ap (λ a. headers_done (length stack.nodes) a pushed_stack)
                  (apply_headers-room m size room status (omega arith)) in
            unfold headers_done in rw done (popped, refl, left),
      )

-- For a code of the table, a date, and an error stack without errors that has a free slot and counters
-- below 2 ^ 32: the lines of the head are the status line with the text of the code, the date, the
-- length of the content, its type if it is not empty, and what becomes of the connection. True is
-- returned only with room for all of them. With a byte more true is returned, the lines are what is
-- put out, and the nodes of the error stack are as they were. Neither the content nor the empty line
-- that ends the head is put out.
pub conjure_error_response-Heads :
    (m : MessageState) (n : ℕ) (message : String) (c : Content) (tm : Tm) (date : Bytes) (room : ℕ)
    (stack : ErrorStack)
    → get_http_error_message n ≡ some message
    → 100 ≤ n
    → n < 600
    → get_http_date tm ≡ some date
    → HasRoom stack
    → fde_errors stack ≡ 0
    → (a : Answer) × (conjure_error_response (some m) n c tm (some room) stack ≡ some a)
      × Heads room (head_text m n message date (length (body c message) % 2 ^ 32)) stack a
unfolding conjure_error_response conjured with_arguments with_message dated printed_status
    pushed_stack status head
conjure_error_response-Heads m n message c tm date room stack known lo hi dated_lem r quiet =
    let (ptr, _, _, _) = push_context-room fdu_context_http none stack r.1 in
    let s1 = (push_context fdu_context_http none stack).1 in
    let ectx = length stack.nodes in
    let size = content_size c message in
    (
      status_done m size room ectx (print_into room (status_text m.version n message date size)) s1,
      ap (λ o. conjured (some m) n c tm (some room) (o, s1)) ptr
          ∙ if-no (ltb n 100 || leb 600 n) _ (ground arith)
          ∙ ap (λ k. with_message m n c tm room ectx k s1) known
          ∙ ap (λ d. dated m n message size room ectx d s1) dated_lem,
      rw (← content_size_lem c message, head_text_lem)
          (status_done-Heads m n message size room date stack r quiet),
    )
