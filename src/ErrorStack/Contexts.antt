-- ===== src/ErrorStack/Contexts.antt =====
-- `fde_push_context`, `fde_pop_context` and `fde_reset_context` as brackets round the work of a call.
use native.Mathlib.Nat.{one-le-pow, pow-suc}
use femc_driver.Prelude.{
  ℕ, zero, suc, ◌+◌, ◌-◌, ◌*◌, ◌%◌, ◌^◌, ◌≤◌, ◌<◌, ◌≡◌, refl, true, false, Option, none, some, List,
  [], ◌∷◌, ◌++◌, String, arith, if◌then◌else◌, length, Bool-cases, inl, inr, length-append, ap, ◌∙◌,
  sym, ◌==◌, ==-true, ◌&&◌, leb, All,
}
use femc_driver.ErrorStack.{
  NodeType, code, context, stdlib_error, consistency_failure, data_corruption, resource_failure,
  message, meta_error, http_error, invalid, Node, ErrorStack, error_stack_size, is_context, is_ptr,
  is_error, is_meta, node, raise, push_context, has_type, context_b, next_in, find_context, at,
  wrong_type, pop_context, reset_context, safe_pop_context, fde_errors, unwind, internal_push,
  push_named, is_full, count_node, place,
}
use femc_driver.ErrorStack.Counters.{
  HasShift, Above, Above-refl, pushes, pushes-Above, Restored, unwind-Restored, unwind-suc,
  drop_node-cons,
}

one-lt-pow : (k : ℕ) → 1 < 2 ^ (8 + k)
one-lt-pow k =
    let e : 8 + k ≡ suc (7 + k) = omega arith in
    rw e (omega (arith, pow-suc 2 (7 + k), one-le-pow (7 + k) 2))

-- The mask `fde_node_context_b` selects the contexts.
has_type-context_b : (t : NodeType) → HasShift t → has_type context_b t ≡ is_context t
unfolding has_type code
has_type-context_b context h = refl
has_type-context_b stdlib_error h = refl
has_type-context_b consistency_failure h = refl
has_type-context_b data_corruption h = refl
has_type-context_b resource_failure h = refl
has_type-context_b message h = refl
has_type-context_b meta_error h = refl
has_type-context_b http_error h = refl
has_type-context_b (invalid n) h =
    let small : (8 + n) % 32 ≡ 8 + n = omega arith in rw small (ground (arith, one-lt-pow n))

-- A context has the type that is looked for.
is_context-has_type : (t : NodeType) → is_context t ≡ true → has_type context_b t ≡ true
unfolding has_type code
is_context-has_type context h = refl
is_context-has_type t h = absurd (cc h)

next_in-context :
    (n : Node) (ns : List Node) → is_context n.type ≡ true → next_in context_b (n ∷ ns) ≡ n ∷ ns
unfolding next_in
next_in-context n ns h = rw (is_context-has_type n.type h)

next_in-other :
    (n : Node) (ns : List Node)
    → has_type context_b n.type ≡ false
    → next_in context_b (n ∷ ns) ≡ next_in context_b ns
unfolding next_in
next_in-other n ns h = rw h refl

-- One round of the loop of `fde_pop_context` at a context, and none at another node.
pub find_context-cons :
    (fuel c : ℕ) (ptr : Option ℕ) (n : Node) (ns : List Node)
    → is_context n.type ≡ true
    → find_context (suc fuel) c ptr (n ∷ ns)
      ≡ (if n.id == c && is_ptr ptr (length ns) then at (length ns) else find_context fuel c ptr ns)
unfolding find_context
find_context-cons fuel c ptr n ns h = rw (next_in-context n ns h, find_context) (rw h)

pub find_context-skip :
    (fuel c : ℕ) (ptr : Option ℕ) (n : Node) (ns : List Node)
    → has_type context_b n.type ≡ false
    → find_context (suc fuel) c ptr (n ∷ ns) ≡ find_context (suc fuel) c ptr ns
unfolding find_context
find_context-skip fuel c ptr n ns h = rw (next_in-other n ns h, find_context)

-- The walk stops at a node that is taken for a context and is none.
pub find_context-wrong :
    (fuel c : ℕ) (ptr : Option ℕ) (n : Node) (ns : List Node)
    → has_type context_b n.type ≡ true
    → is_context n.type ≡ false
    → find_context (suc fuel) c ptr (n ∷ ns) ≡ wrong_type
unfolding find_context next_in
find_context-wrong fuel c ptr n ns h other = rw (h, find_context) (rw other refl)

module _ (c : ℕ) (base : List Node) (n : Node) (is : is_context n.type ≡ true) where
  find_context-above :
      (ms : List Node) (fuel : ℕ)
      → All (λ m. HasShift m.type) ms
      → n.id ≡ c
      → length ms < fuel
      → find_context fuel c (some (length base)) (ms ++ n ∷ base) ≡ at (length base)
  find_context-above ms zero d e h = absurd (omega arith)
  find_context-above [] (suc fuel) d e h =
      ground (arith, find_context-cons fuel c (some (length base)) n base is)
  find_context-above (m ∷ ms) (suc fuel) (d, ds) e h = elim (Bool-cases (is_context m.type)) [
    | inl inner ↦ ground (
      arith,
      find_context-cons fuel c (some (length base)) m (ms ++ n ∷ base) inner,
      find_context-above ms fuel ds e (omega arith),
      length-append ms (n ∷ base),
    )
    | inr other ↦
        find_context-skip fuel c (some (length base)) m (ms ++ n ∷ base)
          (has_type-context_b m.type d ∙ other)
        ∙ find_context-above ms (suc fuel) ds e (omega arith)
  ]

-- A context that is pushed onto a stack that is not full.
abbrev pub pushed : ℕ → Option String → ErrorStack → ErrorStack
pushed c f s = (push_context c f s).1

pub push_context-room :
    (c : ℕ) (f : Option String) (s : ErrorStack)
    → length s.nodes < error_stack_size
    → ((push_context c f s).0 ≡ some (length s.nodes))
      × ((pushed c f s).nodes ≡ node context f c ∷ s.nodes)
      × ((pushed c f s).errors ≡ s.errors)
      × ((pushed c f s).meta_errors ≡ s.meta_errors)
unfolding push_context
push_context-room c f s h = ground arith

-- Counters that an uint32_t can hold.
pub record IsCounted (s : ErrorStack) : Type 0 where
  pub errors_fit : s.errors < 2 ^ 32
  pub metas_fit : s.meta_errors < 2 ^ 32

module _ (c : ℕ) (f : Option String) (s : ErrorStack) (ns : List Node) (v : IsCounted s)
    (room : length s.nodes < error_stack_size) (defined : All (λ n. HasShift n.type) ns) where
  during : ErrorStack
  during = pushes ns (push_context c f s).1

  during-Above : Above (pushed c f s) during (0 + 2 * length ns)
  unfolding during
  during-Above =
      let (_, _, e, m) = push_context-room c f s room in
      pushes-Above ns defined (Above-refl (pushed c f s) (rw e v.errors_fit) (rw m v.metas_fit))

  ctx : Node
  ctx = node context f c

  nodes-during : during.nodes ≡ during-Above.ms ++ ctx ∷ s.nodes
  unfolding ctx
  nodes-during = let (_, e, _, _) = push_context-room c f s room in rw (← e) during-Above.nodes

  length-during : length during.nodes ≡ length during-Above.ms + suc (length s.nodes)
  length-during =
      omega (arith, ap length nodes-during, length-append during-Above.ms (ctx ∷ s.nodes))

  find_context-during :
      find_context (length during.nodes + 1) c (some (length s.nodes)) during.nodes
      ≡ at (length s.nodes)
  unfolding ctx
  find_context-during = rw nodes-during (
      find_context-above c s.nodes ctx refl during-Above.ms
        (length (during-Above.ms ++ ctx ∷ s.nodes) + 1) during-Above.shifts refl
        (omega (arith, length-append during-Above.ms (ctx ∷ s.nodes))))

  -- The stack as `push_context` left it, but for pushes that were lost.
  unwound-during :
      Restored
        (ctx ∷ s.nodes)
        s.errors
        ((s.meta_errors + during-Above.lost) % 2 ^ 32)
        (unwind (length during-Above.ms) during)
  unwound-during =
      let (_, _, e, m) = push_context-room c f s room in
      unwind-Restored during-Above.ms (ctx ∷ s.nodes) s.errors
        ((s.meta_errors + during-Above.lost) % 2 ^ 32) during v.errors_fit (omega arith)
        nodes-during (omega (arith, e, during-Above.errors)) (omega (arith, m, during-Above.metas))

  popped-during :
      Restored s.nodes s.errors
        ((s.meta_errors + during-Above.lost) % 2 ^ 32)
        (unwind (length during.nodes - length s.nodes) during)
  unfolding ctx is_error is_meta
  popped-during =
      let steps : length during.nodes - length s.nodes ≡ suc (length during-Above.ms) =
        omega (arith, length-during) in
      let r = unwound-during in
      let (n, e, m, _) =
        drop_node-cons ctx s.nodes (unwind (length during-Above.ms) during) r.nodes in
      rw (steps, unwind-suc) (record { nodes = n; errors = e ∙ r.errors; metas = m ∙ r.metas })

  stale-popped :
      (unwind (length during.nodes - length s.nodes) during).stale
      ≡ ctx ∷ (unwind (length during-Above.ms) during).stale
  stale-popped =
      let steps : length during.nodes - length s.nodes ≡ suc (length during-Above.ms) =
        omega (arith, length-during) in
      let (_, _, _, t) =
        drop_node-cons ctx s.nodes (unwind (length during-Above.ms) during) unwound-during.nodes in
      rw (steps, unwind-suc) t

  -- Whatever a call pushes between `fde_push_context` and the `fde_pop_context` that is given the
  -- pointer, nodes of types below 31 and perhaps more of them than fit, where a slot was free for the
  -- context and the counters are below 2 ^ 32: the pop succeeds, and the nodes and the count of errors
  -- are those of before the call. The count of meta errors is so too if two slots for each push were
  -- free.
  pub pop_context-pushes :
      let (ptr, s1) = push_context c f s in
      let (done, s2) = pop_context c ptr (pushes ns s1) in
      (done ≡ true)
      × (s2.nodes ≡ s.nodes)
      × (s2.errors ≡ s.errors)
      × (length s.nodes + 1 + 2 * length ns ≤ error_stack_size → s2.meta_errors ≡ s.meta_errors)
  unfolding pop_context during
  pop_context-pushes =
      let (p, e, _, _) = push_context-room c f s room in
      rw (p, find_context-during, pop_context)
        (
          refl,
          popped-during.nodes,
          popped-during.errors,
          λ fits.
              let kept : during-Above.lost ≡ 0 = during-Above.kept (omega (arith, ap length e)) in
              omega (arith, popped-during.metas, v.metas_fit),
        )

  -- `fde_reset_context` in its place, under the same conditions, succeeds and leaves the context alone
  -- on top of what was there before it, so that the errors of the call are gone.
  pub reset_context-pushes :
      let (ptr, s1) = push_context c f s in
      let (done, s2) = reset_context c ptr (pushes ns s1) in
      (done ≡ true)
      × (s2.nodes ≡ s1.nodes)
      × (s2.errors ≡ s1.errors)
      × (length s.nodes + 1 + 2 * length ns ≤ error_stack_size → s2.meta_errors ≡ s1.meta_errors)
  unfolding reset_context during ctx pop_context push_context
  reset_context-pushes =
      let (p, e, r, m) = push_context-room c f s room in
      rw (p, find_context-during, pop_context)
        (rw (stale-popped, raise)
          (
            refl,
            ap (◌∷◌ ctx) popped-during.nodes ∙ sym e,
            popped-during.errors ∙ sym r,
            λ fits.
                let kept : during-Above.lost ≡ 0 = during-Above.kept (omega (arith, ap length e)) in
                omega (arith, popped-during.metas, v.metas_fit, m),
          ))

-- An error stack that takes one more context.
abbrev pub HasRoom : ErrorStack → Type 0
HasRoom s = IsCounted s × (length s.nodes < error_stack_size)

-- The push and the pop of a context with nothing in between.
pub pop-push :
    (c : ℕ) (s : ErrorStack)
    → HasRoom s
    → (pop_context c (some (length s.nodes)) (push_context c none s).1).0 ≡ true
unfolding pushes
pop-push c s (v, room) =
    let (ptr, _, _, _) = push_context-room c none s room in
    rw ptr at ((pop_context-pushes c none s [] v room tt).0)

-- Nothing stays on the stack.
pub pop-push-nodes :
    (c : ℕ) (s : ErrorStack)
    → HasRoom s
    → (pop_context c (some (length s.nodes)) (push_context c none s).1).1.nodes ≡ s.nodes
unfolding pushes
pop-push-nodes c s (v, room) =
    let (ptr, _, _, _) = push_context-room c none s room in
    rw ptr at ((pop_context-pushes c none s [] v room tt).1)

-- A push and a safe pop with nothing in between.
pub safe_pop-push :
    (c : ℕ) (s : ErrorStack)
    → HasRoom s
    → fde_errors s ≡ 0
    → ((safe_pop_context c (some (length s.nodes)) (push_context c none s).1).0 ≡ true)
      × ((safe_pop_context c (some (length s.nodes)) (push_context c none s).1).1.nodes ≡ s.nodes)
unfolding safe_pop_context fde_errors
safe_pop-push c s r e =
    let (_, _, es, ms) = push_context-room c none s r.1 in
    let errors_left =
      ((push_context c none s).1.errors + (push_context c none s).1.meta_errors) % 2 ^ 32 in
    let none_left : errors_left ≡ 0 = rw (es, ms) e in
    rw (==-true errors_left 0 none_left) (pop-push c s r, pop-push-nodes c s r)

-- The pop of the context that is on top of the stack.
pub pop_context-top :
    (c : ℕ) (s : ErrorStack) (base : List Node)
    → s.nodes ≡ node context none c ∷ base
    → ((pop_context c (some (length base)) s).0 ≡ true)
      × ((pop_context c (some (length base)) s).1.nodes ≡ base)
unfolding pop_context unwind
pop_context-top c s base h =
    let top : length s.nodes ≡ suc (length base) = omega (arith, ap length h) in
    let found : find_context (length s.nodes + 1) c (some (length base)) s.nodes
        ≡ at (length base) =
      rw h (find_context-above c base (node context none c) refl [] _ tt refl (omega (arith))) in
    let steps : length s.nodes - length base ≡ suc zero = omega (arith, top) in
    rw (found, pop_context) (rw steps (refl, (drop_node-cons (node context none c) base s h).0))

-- The context is on top of the stack, if the push returned its pointer.
abbrev pub OnTop : ℕ → List Node → Option ℕ × ErrorStack → Type 0
OnTop c base (none, s) = Unit
OnTop c base (some p, s) = (p ≡ length base) × (s.nodes ≡ node context none c ∷ base)

pub push_context-OnTop : (c : ℕ) (s : ErrorStack) → OnTop c s.nodes (push_context c none s)
unfolding push_context internal_push push_named is_full count_node place is_error is_meta
push_context-OnTop c s = elim (Bool-cases (leb error_stack_size (length s.nodes))) [
  | inl h ↦ rw h tt
  | inr h ↦ rw h (refl, refl)
]
