-- ===== src/ErrorStack/Tests.antt =====
-- Runs of the error stack, and its theorems at concrete stacks.
use femc_driver.Prelude.{
  ℕ, ◌+◌, ◌*◌, ◌≤◌, ◌≡◌, refl, true, false, none, some, List, [], ◌∷◌, arith, replicate, All,
}
use femc_driver.ErrorStack.{
  code, context, consistency_failure, resource_failure, message, invalid, Node, ErrorStack,
  error_stack_size, node, push_context, push_consistency_failure_id, push_node, internal_push,
  pop_context, reset_context, fde_errors, for_each_node, fdd_context_main, fdu_context_can,
  invalid_arguments,
}
use femc_driver.ErrorStack.Counters.{HasShift, pushes, count_errors, count_metas}
use femc_driver.ErrorStack.Contexts.{IsCounted, pop_context-pushes, reset_context-pushes}
use femc_driver.ErrorStack.Invariant.{IsValid, Took, pop_context-Took}

abbrev blank : Node
blank = node context none 0

-- The statics before the first call.
abbrev fresh : ErrorStack
fresh = record {
  nodes = [];
  stale = replicate 64 blank;
  errors = 0;
  meta_errors = 0;
  error_stack_full = false;
}

-- In the main loop, in the middle of a call that has failed.
abbrev failed : ErrorStack
failed = record {
  nodes = node consistency_failure none 1 ∷ node context none 6 ∷ node context none 1 ∷ [];
  stale = replicate 61 blank;
  errors = 1;
  meta_errors = 0;
  error_stack_full = false;
}

abbrev noise : List Node
noise =
    node resource_failure none 3
    ∷ node (invalid 1) none 0
    ∷ node context none 7
    ∷ node message (some "odd") 0
    ∷ []

failed-pushes :
    (push_consistency_failure_id invalid_arguments
      (push_context fdu_context_can none (push_context fdd_context_main none fresh).1).1).1
    ≡ failed
unfolding push_context push_consistency_failure_id
failed-pushes = refl

two_errors : fde_errors (pushes noise failed) ≡ 3
unfolding fde_errors pushes push_node internal_push
two_errors = refl

pop_unknown : (pop_context 9 none failed).0 ≡ false
unfolding pop_context
pop_unknown = refl

visited : for_each_node 255 (λ (n : ℕ) (x : Node). n + 1) 0 failed ≡ 3
unfolding for_each_node
visited = refl

fresh-IsCounted : IsCounted fresh
fresh-IsCounted = omega arith

failed-IsValid : IsValid failed
unfolding count_errors count_metas
failed-IsValid = record {
  slots = refl;
  errors = refl;
  metas = omega arith;
  metas_fit = omega arith;
}

noise-HasShift : All (λ n. HasShift n.type) noise
unfolding code
noise-HasShift = (omega arith, (omega arith, (omega arith, (omega arith, tt))))

pop_context-pushes_example :
    let (ptr, s1) = push_context 6 none fresh in
    let (done, s2) = pop_context 6 ptr (pushes noise s1) in
    (done ≡ true)
    × (s2.nodes ≡ [])
    × (s2.errors ≡ 0)
    × (0 + 1 + 2 * 4 ≤ error_stack_size → s2.meta_errors ≡ 0)
pop_context-pushes_example =
    pop_context-pushes 6 none fresh noise fresh-IsCounted (omega arith) noise-HasShift

reset_context-pushes_example :
    let (ptr, s1) = push_context 6 none fresh in
    let (done, s2) = reset_context 6 ptr (pushes noise s1) in
    (done ≡ true)
    × (s2.nodes ≡ s1.nodes)
    × (s2.errors ≡ s1.errors)
    × (0 + 1 + 2 * 4 ≤ error_stack_size → s2.meta_errors ≡ s1.meta_errors)
reset_context-pushes_example =
    reset_context-pushes 6 none fresh noise fresh-IsCounted (omega arith) noise-HasShift

pop_context-Took_example :
    Took 6 none failed (pop_context 6 none failed) × IsValid (pop_context 6 none failed).1
pop_context-Took_example = pop_context-Took 6 none failed failed-IsValid (omega arith)
