-- ===== src/Dns/Tests.antt =====
-- Two names are looked up, and the answers come in parts.
use femc_driver.Prelude.{
  ℕ, ◌≡◌, refl, true, false, Option, none, some, List, [], ◌∷◌, ◌++◌, arith, length,
}
use femc_driver.Backend.{Backend}
use femc_driver.ErrorStack.{ErrorStack}
use femc_driver.Http.Text.{codes}
use femc_driver.Safe.{write_loop}
use femc_driver.Dns.{
  Bytes, Query, DnsService, World, System, got_answer, dnsserv_lookup, new_dns_query_node,
  answer_of,
}
use femc_driver.Dns.Asking.{Asked, dnsserv_lookup-Asked}
use femc_driver.Dns.Feeding.{feed}
use femc_driver.Dns.Stream.{Fed, listening, view, got_answer-Fed}

-- A backend that counts nothing and refuses nothing.
abbrev trivial_backend : Backend (Unit {0})
trivial_backend = record {
  empty = λ f. true;
  add = λ d fd service f stack. (true, f, stack);
  remove = λ d fd f stack. (true, f, stack);
}

abbrev Heard : Type 0
Heard = List (Query × Option Bytes)

abbrev hear : Query → Option Bytes → Heard → Heard
hear q a k = (q, a) ∷ k

abbrev query : ℕ → Query
query n = record { notify = n; argument = 0 }

abbrev asked_twice : DnsService
asked_twice = record {
  self = 1;
  iserv = 2;
  pid = 3;
  fd_in = 4;
  fd_out = 5;
  queue = query 7 ∷ query 8 ∷ [];
  has_tail = true;
}

abbrev empty_stack : ErrorStack
empty_stack = record {
  nodes = [];
  stale = [];
  errors = 0;
  meta_errors = 0;
  error_stack_full = false;
}

-- The first answer has begun.
abbrev waiting : World (Unit {0}) Heard
waiting = record {
  backend = tt;
  stack = empty_stack;
  service = some asked_twice;
  buffer = codes "10.0";
  free_nodes = 0;
  sent = [];
  client = [];
}

abbrev answers : Bytes
answers = codes ".0.1\n\n12"

abbrev system : System
system = record {
  read = λ n. (some answers, 0);
  write = λ i bytes. (length bytes, 0);
  close = λ i. none;
  kill = none;
  malloc = true;
  fuel = 20;
}

got_answer-Fed_example :
    Fed trivial_backend hear answers asked_twice
      (view trivial_backend hear asked_twice waiting)
      (got_answer trivial_backend (listening trivial_backend hear) system 1 waiting)
got_answer-Fed_example =
    got_answer-Fed trivial_backend hear system 1 b'.' (codes "0.1\n\n12") 0 asked_twice waiting
      (omega arith) refl refl (omega arith) refl (omega arith)

fed_lem : feed hear answers (view trivial_backend hear asked_twice waiting) ≡ record {
  queue = [];
  partial = codes "12";
  client = (query 8, none) ∷ (query 7, some (codes "10.0.0.1")) ∷ [];
}
unfolding feed answer_of
fed_lem = refl

dnsserv_lookup-Asked_example :
    Asked trivial_backend
      (listening trivial_backend hear)
      (query 9)
      (codes "a.b" ++ 10 ∷ [])
      asked_twice
      waiting
      (dnsserv_lookup trivial_backend
        (listening trivial_backend hear)
        system
        (λ w. (false, w))
        (some (codes "a.b"))
        (some (query 9))
        waiting)
dnsserv_lookup-Asked_example =
    dnsserv_lookup-Asked trivial_backend (listening trivial_backend hear) system (λ w. (false, w))
      (codes "a.b") (query 9) asked_twice waiting (omega arith) refl refl (omega arith)
      (omega arith) (0, unfold new_dns_query_node in refl) (unfold write_loop in refl)
