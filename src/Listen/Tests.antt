-- ===== src/Listen/Tests.antt =====
-- A socket for connections, and one whose `bind` fails.
use femc_driver.Prelude.{ℕ, ◌≡◌, refl, true, false, Option, none, some, List, [], ◌∷◌, arith}
use femc_driver.ErrorStack.{push_context, safe_pop_context, fde_errors, pop_context}
use femc_driver.Listen.{
  Call, open_inet, set_reuse, bind_inet, listen_on, close_fd, stream, System, World, Result,
  listen_inet4, listen_unix, socket_local,
}
use femc_driver.Listen.Options.{TakesInet, TakesUnix}
use femc_driver.Listen.Opens.{Succeeds, Answers, listen-some}

abbrev good : System
good = record {
  socket = some 3;
  socket_errno = 0;
  reuse = none;
  broadcast = none;
  bind = none;
  listen = none;
  close = λ i. none;
  fuel = 1;
}

abbrev world : World
world = record {
  stack = record { nodes = []; stale = []; errors = 0; meta_errors = 0; error_stack_full = false };
  calls = [];
}

abbrev calls_of : Result → Option ℕ × List Call
calls_of (r, w) = (r, w.calls)

good_run :
    calls_of (listen_inet4 good 80 socket_local world)
    ≡ (some 3, open_inet stream ∷ set_reuse 3 ∷ bind_inet 3 80 true ∷ listen_on 3 ∷ [])
unfolding listen_inet4 push_context safe_pop_context pop_context
good_run = refl

bad_run :
    calls_of (listen_inet4 (record good { bind = some 98 }) 80 0 world)
    ≡ (none, open_inet stream ∷ set_reuse 3 ∷ bind_inet 3 80 false ∷ close_fd 3 ∷ [])
unfolding listen_inet4 push_context
bad_run = refl

good-Succeeds : Succeeds good 3
good-Succeeds = record { socket = refl; reuse = refl; broadcast = refl; bind = refl; listen = refl }

listen-some_example :
    Answers (TakesInet 80 socket_local) 3 [] (listen_inet4 good 80 socket_local world)
    × Answers
        (TakesUnix (b'/' ∷ b'a' ∷ []) 0)
        3
        []
        (listen_unix good (some (b'/' ∷ b'a' ∷ [])) 0 world)
listen-some_example =
    listen-some good 3 80 socket_local 0 (b'/' ∷ b'a' ∷ []) world good-Succeeds
      (record { errors_fit = omega arith; metas_fit = omega arith }, omega arith)
      (unfold fde_errors in refl) (omega arith) (omega arith)
