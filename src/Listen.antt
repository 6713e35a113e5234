-- ===== src/Listen.antt =====
-- utils.c: `fdu_listen_inet4` and `fdu_listen_unix`, which open a socket and make it listen.
--
-- The outcomes of the system calls are given, and the calls that are made are kept in their order. A
-- descriptor that is returned is none for -1.
pub mod Calls
pub mod Options
pub mod Opens
mod Tests
use femc_driver.Prelude.{
  ℕ, zero, suc, ◌+◌, ◌-◌, ◌^◌, bit_and, Bool, true, false, not, ◌&&◌, ◌||◌, Option, none, some,
  List, [], ◌∷◌, ◌++◌, String, ◌==◌, if◌then◌else◌, take, length,
}
use femc_driver.ErrorStack.{
  ErrorStack, push_context, safe_pop_context, push_stdlib_error, push_consistency_failure_id,
  invalid_arguments, fdu_context_listen,
}
use femc_driver.Safe.{safe_close}

abbrev pub socket_stream : ℕ
socket_stream = 0

abbrev pub socket_dgram : ℕ
socket_dgram = 1

abbrev pub socket_seqpacket : ℕ
socket_seqpacket = 2

abbrev pub socket_protocol_mask : ℕ
socket_protocol_mask = 3

abbrev pub socket_local : ℕ
socket_local = 4

abbrev pub socket_noreuse : ℕ
socket_noreuse = 8

abbrev pub socket_broadcast : ℕ
socket_broadcast = 16

abbrev pub unix_path_max : ℕ
unix_path_max = 108

pub data Kind : Type 0 where
  stream dgram seqpacket : Kind

-- The system calls, with the arguments that differ.
pub data Call : Type 0 where
  open_inet : Kind → Call
  open_unix : Kind → Call
  set_reuse : ℕ → Call
  set_broadcast : ℕ → Call
  bind_inet : ℕ → ℕ → Bool → Call
  bind_unix : ℕ → List ℕ → Call
  listen_on : ℕ → Call
  close_fd : ℕ → Call

-- The descriptor that `socket` gives, and the errno of each call that fails.
pub record System : Type 0 where
  pub socket : Option ℕ
  pub socket_errno : ℕ
  pub reuse : Option ℕ
  pub broadcast : Option ℕ
  pub bind : Option ℕ
  pub listen : Option ℕ
  pub close : ℕ → Option ℕ
  pub fuel : ℕ

pub record World : Type 0 where
  pub stack : ErrorStack
  pub calls : List Call

abbrev pub Result : Type 0
Result = Option ℕ × World

-- A test of one or more bits of an unsigned int.
unfoldable pub has : ℕ → ℕ → Bool
has options mask = not (bit_and options mask == 0)

-- The complement of a mask, in 32 bits.
abbrev pub without : ℕ → ℕ
without mask = 2 ^ 32 - 1 - mask

unfoldable pub protocol_of : ℕ → ℕ
protocol_of options = bit_and options socket_protocol_mask

unfoldable pub unknown_protocol : ℕ → Bool
unknown_protocol p =
    not (p == socket_stream) && not (p == socket_dgram) && not (p == socket_seqpacket)

unfoldable pub kind_of : ℕ → Kind
kind_of p = if p == socket_dgram then dgram else if p == socket_seqpacket then seqpacket else stream

abbrev pub log : Call → World → World
log c w = record w { calls = w.calls ++ c ∷ [] }

-- `fdu_safe_close(socketfd); return -1;`. The calls of `close` that it makes, until one is not
-- interrupted, are one in the list.
unfoldable pub give_up : System → ℕ → World → Result
give_up sys fd w = (
  none,
  record w {
    stack = (safe_close sys.close sys.fuel (some fd) w.stack).1;
    calls = w.calls ++ close_fd fd ∷ [];
  },
)

-- A call on the socket, and what is done if it succeeds.
unfoldable pub attempt : System → ℕ → Call → String → Option ℕ → (World → Result) → World → Result
unfolding give_up
attempt sys fd c name none next w = next (log c w)
attempt sys fd c name (some errno) next w = give_up sys fd (record w {
  stack = (push_stdlib_error (some name) errno w.stack).1;
  calls = w.calls ++ c ∷ [];
})

unfoldable pub attempt_if :
    Bool → System → ℕ → Call → String → Option ℕ → (World → Result) → World → Result
unfolding attempt
attempt_if b sys fd c name outcome next w =
    if b then attempt sys fd c name outcome next w else next w

unfoldable pub popped : System → ℕ → World → Bool × ErrorStack → Result
unfolding give_up
popped sys fd w (true, stack) = (some fd, record w { stack = stack })
popped sys fd w (false, stack) = give_up sys fd (record w { stack = stack })

unfoldable pub finish : System → ℕ → ℕ → World → Result
unfolding popped
finish sys fd ectx w = popped sys fd w (safe_pop_context fdu_context_listen (some ectx) w.stack)

-- `bind` and `listen`, which datagrams do not need.
unfoldable pub bound : System → ℕ → ℕ → Call → ℕ → World → Result
unfolding attempt attempt_if finish
bound sys protocol fd c ectx = attempt sys fd c "bind" sys.bind (
    attempt_if (not (protocol == socket_dgram)) sys fd (listen_on fd) "listen" sys.listen
      (finish sys fd ectx))

unfoldable pub inet_opened : System → ℕ → ℕ → ℕ → ℕ → World → Result
unfolding bound attempt_if has protocol_of
inet_opened sys port options ectx fd =
    attempt_if (not (has options socket_noreuse)) sys fd (set_reuse fd) "setsockopt(SO_REUSEADDR)"
      sys.reuse
      (attempt_if (has options socket_broadcast) sys fd (set_broadcast fd)
        "setsockopt(SO_BROADCAST)" sys.broadcast
        (bound sys (protocol_of options) fd (bind_inet fd port (has options socket_local)) ectx))

unfoldable pub opened : System → Call → (ℕ → World → Result) → Option ℕ → World → Result
opened sys c next none w = (
  none,
  record w {
    stack = (push_stdlib_error (some "socket") sys.socket_errno w.stack).1;
    calls = w.calls ++ c ∷ [];
  },
)
opened sys c next (some fd) w = next fd (log c w)

unfoldable pub invalid : World → Result
invalid w = (none, record w { stack = (push_consistency_failure_id invalid_arguments w.stack).1 })

unfoldable pub bad_inet : ℕ → ℕ → Bool
unfolding has protocol_of unknown_protocol
bad_inet port options =
    port == 0
    || has options
        (without (socket_protocol_mask + socket_local + socket_noreuse + socket_broadcast))
    || unknown_protocol (protocol_of options)
    || (has options socket_broadcast
        && (has options socket_local || not (protocol_of options == socket_dgram)))

listen_inet_with : System → ℕ → ℕ → World → Option ℕ × ErrorStack → Result
unfolding bad_inet invalid opened inet_opened kind_of protocol_of
listen_inet_with sys port options w (none, stack) = (none, record w { stack = stack })
listen_inet_with sys port options w (some ectx, stack) =
    let w₁ : World = record w { stack = stack } in
    if bad_inet port options
    then invalid w₁
    else opened sys (open_inet (kind_of (protocol_of options))) (inet_opened sys port options ectx)
        sys.socket w₁

unfoldable pub listen_inet4 : System → ℕ → ℕ → World → Result
unfolding listen_inet_with
listen_inet4 sys port options w =
    listen_inet_with sys port options w (push_context fdu_context_listen none w.stack)

-- `sun_path` holds the path and a zero, and cuts a path that is too long.
unfoldable pub sun_path : List ℕ → List ℕ
sun_path path = take (unix_path_max - 1) path

unfoldable pub unix_opened : System → List ℕ → ℕ → ℕ → ℕ → World → Result
unfolding bound protocol_of sun_path
unix_opened sys path options ectx fd =
    bound sys (protocol_of options) fd (bind_unix fd (sun_path path)) ectx

unfoldable pub bad_unix : List ℕ → ℕ → Bool
unfolding has protocol_of unknown_protocol
bad_unix path options =
    length path == 0
    || has options (without socket_protocol_mask)
    || unknown_protocol (protocol_of options)

unix_arguments : System → Option (List ℕ) → ℕ → ℕ → World → Result
unfolding bad_unix invalid opened unix_opened kind_of protocol_of
unix_arguments sys none options ectx w = invalid w
unix_arguments sys (some path) options ectx w =
    if bad_unix path options
    then invalid w
    else opened sys (open_unix (kind_of (protocol_of options))) (unix_opened sys path options ectx)
        sys.socket w

listen_unix_with : System → Option (List ℕ) → ℕ → World → Option ℕ × ErrorStack → Result
unfolding unix_arguments
listen_unix_with sys path options w (none, stack) = (none, record w { stack = stack })
listen_unix_with sys path options w (some ectx, stack) =
    unix_arguments sys path options ectx (record w { stack = stack })

-- A path that is given is a text without a zero.
unfoldable pub listen_unix : System → Option (List ℕ) → ℕ → World → Result
unfolding listen_unix_with
listen_unix sys path options w =
    listen_unix_with sys path options w (push_context fdu_context_listen none w.stack)
