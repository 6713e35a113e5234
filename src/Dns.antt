-- ===== src/Dns.antt =====
-- utils.c: the queries to the DNS helper process, whose answers are lines in the order of the queries.
--
-- The list from `head` to `tail` is a list of queries; `has_tail` says that `tail` is not null. A
-- call gives none where a null pointer or a freed node is used, or the fuel of a loop is spent. What
-- a callback does to the world is given, and so is `fdu_dns_service_start`.
pub mod Feeding
pub mod Stream
pub mod Asking
mod Tests
use femc_driver.Prelude.{
  ℕ, zero, suc, ◌+◌, ◌-◌, ◌%◌, ◌^◌, Bool, true, false, not, ◌&&◌, ◌||◌, Option, none, some, List,
  [], ◌∷◌, ◌++◌, String, ltb, leb, ◌==◌, if◌then◌else◌, length,
}
use femc_driver.Backend.{Backend, input}
use femc_driver.ErrorStack.{
  ErrorStack, push_context, safe_pop_context, push_stdlib_error, push_consistency_failure,
  push_consistency_failure_id, push_resource_failure, push_resource_failure_id, invalid_arguments,
  memory_allocation, fdu_context_dnsserv,
}
use femc_driver.Safe.{Write, write_loop, safe_close_from}

abbrev pub Bytes : Type 0
Bytes = List ℕ

-- A callback and its context.
pub record Query : Type 0 where
  pub notify : ℕ
  pub argument : ℕ

-- `fdu_dns_service` at an address, with the name under which it is registered.
pub record DnsService : Type 0 where
  pub self : ℕ
  pub iserv : ℕ
  pub pid : ℕ
  pub fd_in : ℕ
  pub fd_out : ℕ
  pub queue : List Query
  pub has_tail : Bool

-- The backend, the error stack, `dns_service`, the bytes of the static buffer, the number of free
-- nodes, what was written to the helper, and the state of the callbacks.
pub record World (F K : Type 0) : Type 0 where
  pub backend : F
  pub stack : ErrorStack
  pub service : Option DnsService
  pub buffer : Bytes
  pub free_nodes : ℕ
  pub sent : Bytes
  pub client : K

-- The outcomes of the system calls: the bytes that `read` gives for at most a number of them, or
-- none for -1, and errno; the errno of `kill`, if it fails; and whether `malloc` gives memory.
pub record System : Type 0 where
  pub read : ℕ → Option Bytes × ℕ
  pub write : Write
  pub close : ℕ → Option ℕ
  pub kill : Option ℕ
  pub malloc : Bool
  pub fuel : ℕ

abbrev pub buffer_size : ℕ
buffer_size = 256

abbrev pub tmp_buffer_size : ℕ
tmp_buffer_size = 255

-- The lines that end inside of some bytes, and what stands behind them.
unfoldable pub put_line : ℕ → List Bytes × Bytes → List Bytes × Bytes
put_line c ([], rest) = ([], c ∷ rest)
put_line c (l ∷ ls, rest) = ((c ∷ l) ∷ ls, rest)

unfoldable pub lines : Bytes → List Bytes × Bytes
unfolding put_line
lines [] = ([], [])
lines (c ∷ cs) =
    let (ls, rest) = lines cs in if c == 10 then ([] ∷ ls, rest) else put_line c (ls, rest)

-- A line as a zero-terminated string.
unfoldable pub c_string : Bytes → Bytes
c_string [] = []
c_string (c ∷ cs) = if c == 0 then [] else c ∷ c_string cs

-- `*entry ? entry : 0`
unfoldable pub answer_of : Bytes → Option Bytes
unfolding c_string
answer_of [] = none
answer_of (c ∷ cs) = if c == 0 then none else some (c_string (c ∷ cs))

-- `context == dns_service`
abbrev pub is_self : ℕ → Option DnsService → Bool
is_self a none = false
is_self a (some s) = s.self == a

-- A free node, or one from `malloc`.
unfoldable pub new_dns_query_node : System → ℕ → Option ℕ
new_dns_query_node sys zero = if sys.malloc then some 0 else none
new_dns_query_node sys (suc n) = some n

module _ {F K : Type 0} where
  abbrev pub with_stack : ErrorStack → World F K → World F K
  with_stack s w = record w { stack = s }

  abbrev pub with_service : DnsService → World F K → World F K
  with_service s w = record w { service = some s }

  unfoldable pub free_dns_query_node : World F K → World F K
  free_dns_query_node w = record w { free_nodes = w.free_nodes + 1 }

  pub and_then : Option (World F K) → (World F K → Option (World F K)) → Option (World F K)
  and_then none next = none
  and_then (some w) next = next w

  unfoldable pub pop : ℕ → World F K → Bool × World F K
  pop ectx w =
      let (popped, s) = safe_pop_context fdu_context_dnsserv (some ectx) w.stack in
      (popped, with_stack s w)

module _ {F K : Type 0} (api : Backend F)
    (told : Query → Option Bytes → World F K → World F K) where
  -- `fdd_remove_input(dns_service->fd_in)`
  unfoldable pub remove_input : DnsService → World F K → World F K
  remove_input s w =
      let (_, f, stack') = api.remove input s.fd_in w.backend w.stack in
      record w { backend = f; stack = stack' }

  -- The first query is taken off the list.
  unfoldable pub take_off : DnsService → List Query → World F K → World F K
  unfolding remove_input
  take_off s [] w = remove_input s (with_service (record s { queue = []; has_tail = false }) w)
  take_off s (q ∷ rest) w = with_service (record s { queue = q ∷ rest }) w

  unfoldable pub answer_first : Bytes → DnsService → List Query → World F K → World F K
  unfolding take_off free_dns_query_node answer_of
  answer_first line s [] w = w
  answer_first line s (q ∷ rest) w =
      told q (answer_of line) (free_dns_query_node (take_off s rest w))

  unfoldable pub answer_line : Bytes → Option DnsService → World F K → Option (World F K)
  unfolding answer_first
  answer_line line none w = none
  answer_line line (some s) w = some (answer_first line s s.queue w)

  -- The loop over the lines.
  unfoldable pub answer_lines : List Bytes → World F K → Option (World F K)
  unfolding answer_line and_then
  answer_lines [] w = some w
  answer_lines (l ∷ ls) w = and_then (answer_line l w.service w) (answer_lines ls)

  -- The loop of `fdu_dns_service_shutdown`, which leaves `tail`.
  drain_first :
      (World F K → Option (World F K)) → DnsService → List Query → World F K → Option (World F K)
  drain_first next s [] w = some w
  drain_first next s (q ∷ rest) w =
      next (free_dns_query_node (told q none (with_service (record s { queue = rest }) w)))

  drain_from : (World F K → Option (World F K)) → Option DnsService → World F K → Option (World F K)
  unfolding drain_first
  drain_from next none w = none
  drain_from next (some s) w = drain_first next s s.queue w

  drain : ℕ → World F K → Option (World F K)
  unfolding drain_from
  drain zero w = none
  drain (suc fuel) w = drain_from (drain fuel) w.service w

  drain_if : ℕ → DnsService → List Query → World F K → Option (World F K)
  unfolding drain remove_input
  drain_if fuel s [] w = some w
  drain_if fuel s (q ∷ rest) w = drain fuel (remove_input s w)

  -- `waitpid` returns no less than -1, so that its failure is never reported.
  closed : System → DnsService → World F K → World F K
  closed sys s w =
      let stack₁ = (safe_close_from sys.close sys.fuel 0 w.stack).1 in
      record w { stack = (safe_close_from sys.close sys.fuel 0 stack₁).1; service = none }

  close_service : System → Option DnsService → World F K → Option (World F K)
  unfolding closed
  close_service sys none w = none
  close_service sys (some s) w = some (closed sys s w)

  killed : Option ℕ → World F K → World F K
  killed none w = w
  killed (some errno) w = with_stack (push_stdlib_error (some "kill") errno w.stack).1 w

  shut_down : System → Option DnsService → World F K → Option (World F K)
  unfolding drain_if close_service killed
  shut_down sys none w = none
  shut_down sys (some s) w =
      and_then (drain_if sys.fuel s s.queue (killed sys.kill w))
        (λ v. close_service sys v.service v)

  pop_if : Option ℕ → World F K → Option (World F K)
  pop_if none w = some w
  pop_if (some ectx) w = some (pop ectx w).1

  unfoldable pub shutdown : System → World F K → Option (World F K)
  unfolding shut_down pop_if
  shutdown sys w =
      let (ectx, s) = push_context fdu_context_dnsserv none w.stack in
      and_then (shut_down sys w.service (with_stack s w)) (pop_if ectx)

  unfoldable pub refused : Option (World F K) → Option (Bool × World F K)
  refused none = none
  refused (some w) = some (false, w)

  -- Behind the loop: what is left of the last line stays in the buffer.
  unfoldable pub kept : ℕ → Bytes → Option (World F K) → Option (Bool × World F K)
  kept ectx rest none = none
  kept ectx rest (some w) = some (pop ectx (record w { buffer = rest }))

  unfoldable pub got : System → ℕ → Option Bytes × ℕ → World F K → Option (Bool × World F K)
  unfolding kept refused answer_lines lines
  got sys ectx (some (c ∷ cs), errno) w =
      let text = w.buffer ++ c ∷ cs in
      let (ls, rest) = lines text in kept ectx rest (answer_lines ls (record w { buffer = text }))
  got sys ectx (_, errno) w =
      refused (shutdown sys (with_stack (push_stdlib_error (some "pipe") errno w.stack).1 w))

  unfoldable pub got_with :
      System → ℕ → World F K → Option ℕ × ErrorStack → Option (Bool × World F K)
  unfolding got
  got_with sys self w (none, s) = some (false, with_stack s w)
  got_with sys self w (some ectx, s) =
      if not (is_self self w.service)
      then some (false, with_stack (push_consistency_failure (some "context != dns_service") s).1 w)
      else got sys ectx (sys.read (buffer_size - length w.buffer)) (with_stack s w)

  unfoldable pub got_answer : System → ℕ → World F K → Option (Bool × World F K)
  unfolding got_with
  got_answer sys self w = got_with sys self w (push_context fdu_context_dnsserv none w.stack)

  -- The query is put at the end of the list.
  unfoldable pub enqueue : Query → DnsService → Bool → List Query → World F K → Option (World F K)
  enqueue q s true [] w = none
  enqueue q s true (p ∷ ps) w = some (with_service (record s { queue = (p ∷ ps) ++ q ∷ [] }) w)
  enqueue q s false ps w =
      let (_, f, stack') = api.add input s.fd_in s.iserv w.backend w.stack in
      some (record w {
        backend = f;
        stack = stack';
        service = some (record s { queue = q ∷ []; has_tail = true });
      })

  unfoldable pub popped : ℕ → Option (World F K) → Option (Bool × World F K)
  popped ectx none = none
  popped ectx (some w) = some (pop ectx w)

  unfoldable pub asked : Query → DnsService → ℕ → Option ℕ → World F K → Option (Bool × World F K)
  unfolding popped enqueue
  asked q s ectx none w =
      some (false, with_stack (push_resource_failure_id memory_allocation w.stack).1 w)
  asked q s ectx (some n) w =
      popped ectx (enqueue q s s.has_tail s.queue (record w { free_nodes = n }))

  unfoldable pub written :
      System
      → Query
      → DnsService
      → ℕ
      → Option Bool × Bytes × ErrorStack
      → World F K
      → Option (Bool × World F K)
  unfolding asked new_dns_query_node refused
  written sys q s ectx (none, sent, stack') w = none
  written sys q s ectx (some false, sent, stack') w = refused (
      shutdown sys (record w {
        stack = (push_resource_failure (some "dns_service:write") stack').1;
        sent = w.sent ++ sent;
      }))
  written sys q s ectx (some true, sent, stack') w =
      asked q s ectx (new_dns_query_node sys w.free_nodes)
        (record w { stack = stack'; sent = w.sent ++ sent })

  unfoldable pub send :
      System → Bytes → Query → ℕ → Option DnsService → World F K → Option (Bool × World F K)
  unfolding written
  send sys name q ectx none w = none
  send sys name q ectx (some s) w =
      if leb tmp_buffer_size (length name % 2 ^ 32)
      then some (false, with_stack (push_consistency_failure_id invalid_arguments w.stack).1 w)
      else written sys q s ectx (write_loop sys.write sys.fuel 0 (name ++ 10 ∷ []) [] w.stack) w

  start_done : System → Bytes → Query → ℕ → Bool × World F K → Option (Bool × World F K)
  unfolding send
  start_done sys name q ectx (true, w) = send sys name q ectx w.service w
  start_done sys name q ectx (false, w) = elim w.service [
    | none ↦
        some (false, with_stack (push_resource_failure (some "dns_service:startup") w.stack).1 w)
    | some s ↦ send sys name q ectx (some s) w
  ]

  -- `start` is what `fdu_dns_service_start` returns and leaves.
  unfoldable pub lookup_checked :
      System
      → (World F K → Bool × World F K)
      → Bytes
      → Query
      → ℕ
      → Option DnsService
      → World F K
      → Option (Bool × World F K)
  unfolding start_done send
  lookup_checked sys start name q ectx none w = start_done sys name q ectx (start w)
  lookup_checked sys start name q ectx (some s) w = send sys name q ectx (some s) w

  unfoldable pub lookup_arguments :
      System
      → (World F K → Bool × World F K)
      → Option Bytes
      → Option Query
      → ℕ
      → World F K
      → Option (Bool × World F K)
  unfolding lookup_checked
  lookup_arguments sys start (some name) (some q) ectx w =
      if leb (length name % 2 ^ 32) 2
      then some (false, with_stack (push_consistency_failure_id invalid_arguments w.stack).1 w)
      else lookup_checked sys start name q ectx w.service w
  lookup_arguments sys start name q ectx w =
      some (false, with_stack (push_consistency_failure_id invalid_arguments w.stack).1 w)

  unfoldable pub lookup_with :
      System
      → (World F K → Bool × World F K)
      → Option Bytes
      → Option Query
      → World F K
      → Option ℕ × ErrorStack
      → Option (Bool × World F K)
  unfolding lookup_arguments
  lookup_with sys start name q w (none, s) = some (false, with_stack s w)
  lookup_with sys start name q w (some ectx, s) =
      lookup_arguments sys start name q ectx (with_stack s w)

  unfoldable pub dnsserv_lookup :
      System
      → (World F K → Bool × World F K)
      → Option Bytes
      → Option Query
      → World F K
      → Option (Bool × World F K)
  unfolding lookup_with
  dnsserv_lookup sys start name q w =
      lookup_with sys start name q w (push_context fdu_context_dnsserv none w.stack)
