-- ===== src/Http/Response/Bounds.antt =====
-- The response to an error does not go past the end of the buffer.
use femc_driver.Prelude.{
  ℕ, zero, suc, ◌-◌, ◌≤◌, ◌<◌, ◌≡◌, Bool, true, false, not, ◌&&◌, ◌||◌, Option, none, some, [], ◌∷◌,
  ◌++◌, String, arith, length, take, ltb, leb, ◌==◌, if-case, length-append, le-ltb,
}
use femc_driver.ErrorStack.{ErrorStack, push_context, fdu_context_http}
use femc_driver.Http.{Bytes, Version, MessageState}
use femc_driver.Http.Text.{codes}
use femc_driver.Http.Response.{
  get_http_error_message, Tm, get_http_date, apply_data_to_buffer, status_text, print_into, applied,
  apply_if, apply_headers, is_1_0, Content, content_size, Answer, headers_done, status_done, dated,
  with_message, with_arguments, conjured, conjure_error_response,
}

-- What is in the room does not exceed it.
abbrev pub Within : ℕ → Option Bytes → Type 0
Within room none = Unit
Within room (some out) = length out ≤ room

abbrev pub Fits : ℕ → Option Answer → Type 0
Fits room none = Unit
Fits room (some (b, out, stack)) = length out ≤ room

apply_data-Within : (text out : Bytes) (room : ℕ) → Within room (apply_data_to_buffer text room out)
unfolding apply_data_to_buffer
apply_data-Within text out room =
    if-case (Within room) (ltb room (length out) || ltb (room - length out) (length text)) (λ _. tt)
      (λ h. omega (arith, length-append text out, fits h))
  where
    fits :
        (ltb room (length out) || ltb (room - length out) (length text)) ≡ false
        → length (out ++ text) ≤ room
    fits h = ground (arith, length-append out text)

applied-Fits :
    (room : ℕ) (old : Bytes) (r : Option Bytes)
    → length old ≤ room
    → Within room r
    → length (applied old r).1 ≤ room
unfolding applied
applied-Fits room old none h k = h
applied-Fits room old (some out) h k = k

apply_if-Fits :
    (b : Bool) (text : String) (room : ℕ) (r : Bool × Bytes)
    → length r.1 ≤ room
    → length (apply_if b text room r).1 ≤ room
unfolding apply_if
apply_if-Fits b text room (false, out) h = h
apply_if-Fits false text room (true, out) h = h
apply_if-Fits true text room (true, out) h =
    applied-Fits room out (apply_data_to_buffer (codes text) room out) h
      (apply_data-Within (codes text) out room)

pub apply_headers-Fits :
    (m : MessageState) (size room : ℕ) (r : Bool × Bytes)
    → length r.1 ≤ room
    → length (apply_headers m size room r).1 ≤ room
unfolding apply_headers
apply_headers-Fits m size room r h =
    let r1 = apply_if (not (size == 0)) "Content-type: text/plain\r\n" room r in
    let r2 = apply_if m.closing "Connection: close\r\n" room r1 in
    apply_if-Fits (not m.closing && is_1_0 m.version) "Connection: Keep-Alive\r\n" room r2 (
      apply_if-Fits m.closing "Connection: close\r\n" room r1
        (apply_if-Fits (not (size == 0)) "Content-type: text/plain\r\n" room r h))

length-take : (n : ℕ) (xs : Bytes) → length (take n xs) ≤ n
length-take zero xs = omega arith
length-take (suc n) [] = omega arith
length-take (suc n) (x ∷ xs) = omega (arith, length-take n xs)

pub print_into-Within :
    (room : ℕ) (text : Bytes) → 0 < length text → Within room (print_into room text)
unfolding print_into
print_into-Within room text h =
    if-case (Within room) (ltb room (length text)) (λ _. tt)
      λ fits.
        if-case (Within room) (length text == room)
          (λ e.
            ground
              (arith, length-append (take (room - 1) text) (0 ∷ []), length-take (room - 1) text))
          (λ _. le-ltb room (length text) fits)

headers_done-Fits :
    (room ectx : ℕ) (r : Bool × Bytes) (stack : ErrorStack)
    → length r.1 ≤ room
    → Fits room (some (headers_done ectx r stack))
unfolding headers_done
headers_done-Fits room ectx (false, out) stack h = h
headers_done-Fits room ectx (true, out) stack h = h

status_done-Fits :
    (m : MessageState) (size room ectx : ℕ) (r : Option Bytes) (stack : ErrorStack)
    → Within room r
    → Fits room (some (status_done m size room ectx r stack))
unfolding status_done
status_done-Fits m size room ectx none stack h = omega arith
status_done-Fits m size room ectx (some out) stack h =
    headers_done-Fits room ectx _ stack (apply_headers-Fits m size room (true, out) h)

pub status_text-pos :
    (v : Version) (n : ℕ) (message : String) (date : Bytes) (size : ℕ)
    → 0 < length (status_text v n message date size)
unfolding status_text
status_text-pos v n message date size = simp length-append (omega arith)

dated-Fits :
    (m : MessageState) (n : ℕ) (message : String) (size room ectx : ℕ) (date : Option Bytes)
    (stack : ErrorStack)
    → Fits room (dated m n message size room ectx date stack)
unfolding dated
dated-Fits m n message size room ectx none stack = tt
dated-Fits m n message size room ectx (some date) stack =
    status_done-Fits m size room ectx _ stack
      (print_into-Within room _ (status_text-pos m.version n message date size))

with_message-Fits :
    (m : MessageState) (n : ℕ) (c : Content) (tm : Tm) (room ectx : ℕ) (message : Option String)
    (stack : ErrorStack)
    → Fits room (with_message m n c tm room ectx message stack)
unfolding with_message
with_message-Fits m n c tm room ectx none stack = omega arith
with_message-Fits m n c tm room ectx (some message) stack =
    dated-Fits m n message (content_size c message) room ectx (get_http_date tm) stack

with_arguments-Fits :
    (m : Option MessageState) (n : ℕ) (c : Content) (tm : Tm) (room ectx : ℕ) (stack : ErrorStack)
    → Fits room (with_arguments m n c tm (some room) ectx stack)
unfolding with_arguments
with_arguments-Fits none n c tm room ectx stack = omega arith
with_arguments-Fits (some m) n c tm room ectx stack =
    if-case (Fits room) (ltb n 100 || leb 600 n) (λ _. omega arith)
      (λ _. with_message-Fits m n c tm room ectx (get_http_error_message n) stack)

conjured-Fits :
    (m : Option MessageState) (n : ℕ) (c : Content) (tm : Tm) (room : ℕ) (r : Option ℕ × ErrorStack)
    → Fits room (conjured m n c tm (some room) r)
unfolding conjured
conjured-Fits m n c tm room (none, stack) = omega arith
conjured-Fits m n c tm room (some ectx, stack) = with_arguments-Fits m n c tm room ectx stack

-- Whatever is returned, `*startp` has not moved past the end of the buffer.
pub conjure_error_response-Fits :
    (m : Option MessageState) (n : ℕ) (c : Content) (tm : Tm) (room : ℕ) (stack : ErrorStack)
    → Fits room (conjure_error_response m n c tm (some room) stack)
unfolding conjure_error_response
conjure_error_response-Fits m n c tm room stack =
    conjured-Fits m n c tm room (push_context fdu_context_http none stack)
