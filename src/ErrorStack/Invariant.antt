-- ===== src/ErrorStack/Invariant.antt =====
-- The invariant of the error stack, and what `fde_pop_context` does to a stack that keeps it.
use femc_driver.Prelude.{
  ℕ, zero, suc, ◌+◌, ◌-◌, ◌^◌, ◌≤◌, ◌<◌, ◌≡◌, refl, Bool, true, false, Option, some, List, [], ◌∷◌,
  ◌++◌, String, arith, if◌then◌else◌, length, Bool-cases, inl, inr, ap, length-append, ◌&&◌, ◌==◌,
}
use femc_driver.ErrorStack.{
  NodeType, meta_error, invalid, Node, ErrorStack, error_stack_size, is_error, is_meta, node, place,
  count_node, lose, is_full, push_named, internal_push, drop_node, unwind, find_context, Found, at,
  nowhere, wrong_type, is_context, has_type, context_b, next_in, is_ptr, pop_context, reset_context,
  raise,
}
use femc_driver.ErrorStack.Counters.{count_errors, count_metas, drop_node-cons, unwind-suc}
use femc_driver.ErrorStack.Contexts.{find_context-cons, find_context-skip, find_context-wrong}

-- All 64 slots are there, the counter of errors is the number of error nodes, and the counter of
-- meta errors, which also counts lost pushes, is at least that of the meta error nodes.
pub record IsValid (s : ErrorStack) : Type 0 where
  pub slots : length s.nodes + length s.stale ≡ error_stack_size
  pub errors : s.errors ≡ count_errors s.nodes
  pub metas : count_metas s.nodes ≤ s.meta_errors
  pub metas_fit : s.meta_errors < 2 ^ 32

count_errors-le : (ns : List Node) → count_errors ns ≤ length ns
unfolding count_errors
count_errors-le [] = omega arith
count_errors-le (n ∷ ns) = ground (arith, count_errors-le ns)

place-IsValid :
    (s : ErrorStack) (n : Node)
    → IsValid s
    → s.meta_errors + 1 < 2 ^ 32
    → is_full s ≡ false
    → IsValid (count_node n.type (place n s))
unfolding place count_node is_full count_errors count_metas
place-IsValid s n v h room = ground (arith, count_errors-le s.nodes)

lose-IsValid : (s : ErrorStack) → IsValid s → s.meta_errors + 1 < 2 ^ 32 → IsValid (lose s)
unfolding lose
lose-IsValid s v h = ground arith

push_named-IsValid :
    (t : NodeType) (text : Option String) (i : ℕ) (s : ErrorStack)
    → IsValid s
    → s.meta_errors + 1 < 2 ^ 32
    → IsValid (push_named t text i s).1
unfolding push_named
push_named-IsValid t text i s v h =
    ground (arith, lose-IsValid s v h, place-IsValid s (node t text i) v h)

place-invalid :
    (n : ℕ) (text : Option String) (i : ℕ) (s : ErrorStack)
    → count_node (invalid n) (place (node (invalid n) text i) s) ≡ place (node (invalid n) text i) s
unfolding count_node
place-invalid n text i s = refl

meta_errors-place : (n : Node) (s : ErrorStack) → (place n s).meta_errors ≡ s.meta_errors
unfolding place
meta_errors-place n s = refl

-- A push of any type, and one onto a full stack too, keeps the invariant while the counter of meta
-- errors can still grow.
pub internal_push-IsValid :
    (t : NodeType) (text : Option String) (i : ℕ) (s : ErrorStack)
    → IsValid s
    → s.meta_errors + 1 < 2 ^ 32
    → IsValid (internal_push t text i s).1
unfolding internal_push
internal_push-IsValid (invalid n) text i s v h = elim (Bool-cases (is_full s)) [
  | inl full ↦ rw (full, internal_push) (lose-IsValid s v h)
  | inr room ↦
      let s' = place (node (invalid n) text i) s in
      let v' : IsValid s' =
        rw (place-invalid n text i s) at (place-IsValid s (node (invalid n) text i) v h room) in
      rw (room, internal_push)
        (push_named-IsValid meta_error (some "invalid node type") 0 s' v'
          (omega (arith, meta_errors-place (node (invalid n) text i) s)))
]
internal_push-IsValid t text i s v h = push_named-IsValid t text i s v h

drop_node-IsValid :
    (ns : List Node) (s : ErrorStack) → s.nodes ≡ ns → IsValid s → IsValid (drop_node ns s)
unfolding drop_node count_errors count_metas
drop_node-IsValid [] s e v = v
drop_node-IsValid (n ∷ ns) s e v =
    ground (arith, ap length e, ap count_errors e, ap count_metas e, count_errors-le ns)

unwind-IsValid : (k : ℕ) (s : ErrorStack) → IsValid s → IsValid (unwind k s)
unfolding unwind
unwind-IsValid zero s v = v
unwind-IsValid (suc k) s v =
    unwind-IsValid k (drop_node s.nodes s) (drop_node-IsValid s.nodes s refl v)

-- The slot that the loop of `fde_pop_context` stops at.
pub record ContextAt (c i : ℕ) (ptr : Option ℕ) (ns : List Node) : Type 0 where
  pub over : List Node
  pub node : Node
  pub rest : List Node
  pub split : ns ≡ over ++ node ∷ rest
  pub index : i ≡ length rest
  pub is_ctx : is_context node.type ≡ true
  pub is_id : node.id ≡ c
  pub is_slot : is_ptr ptr i ≡ true

abbrev pub Outcome : ℕ → Option ℕ → List Node → Found → Type 0
Outcome c ptr ns (at i) = ContextAt c i ptr ns
Outcome c ptr ns nowhere = Unit {0}
Outcome c ptr ns wrong_type = Unit {0}

Outcome-cons :
    (c : ℕ) (ptr : Option ℕ) (n : Node) (ns : List Node) (r : Found)
    → Outcome c ptr ns r
    → Outcome c ptr (n ∷ ns) r
Outcome-cons c ptr n ns (at i) o = record {
  over = n ∷ o.over;
  node = o.node;
  rest = o.rest;
  split = ap (◌∷◌ n) o.split;
  index = o.index;
  is_ctx = o.is_ctx;
  is_id = o.is_id;
  is_slot = o.is_slot;
}
Outcome-cons c ptr n ns nowhere o = tt
Outcome-cons c ptr n ns wrong_type o = tt

module _ {c : ℕ} {ptr : Option ℕ} {n : Node} {ns : List Node}
    (inner : is_context n.type ≡ true) where
  hit_at : (n.id == c && is_ptr ptr (length ns)) ≡ true → ContextAt c (length ns) ptr (n ∷ ns)
  hit_at hit = record {
    over = [];
    node = n;
    rest = ns;
    split = refl;
    index = refl;
    is_ctx = inner;
    is_id = ground arith;
    is_slot = ground arith;
  }

find_context-Outcome :
    (ns : List Node) (fuel c : ℕ) (ptr : Option ℕ) → Outcome c ptr ns (find_context fuel c ptr ns)
unfolding find_context next_in
find_context-Outcome ns zero c ptr = tt
find_context-Outcome [] (suc fuel) c ptr = tt
find_context-Outcome (n ∷ ns) (suc fuel) c ptr = elim (Bool-cases (is_context n.type)) [
  | inr other ↦ elim (Bool-cases (has_type context_b n.type)) [
    | inl taken ↦ rw (find_context-wrong fuel c ptr n ns taken other) tt
    | inr skipped ↦
        rw (find_context-skip fuel c ptr n ns skipped, Outcome)
          (Outcome-cons c ptr n ns _ (find_context-Outcome ns (suc fuel) c ptr))
  ]
  | inl inner ↦ elim (Bool-cases (n.id == c && is_ptr ptr (length ns))) [
    | inl hit ↦ rw (find_context-cons fuel c ptr n ns inner, hit) (hit_at inner hit)
    | inr miss ↦
        rw (find_context-cons fuel c ptr n ns inner, miss)
          (Outcome-cons c ptr n ns _ (find_context-Outcome ns fuel c ptr))
  ]
]

unwind-nodes :
    (over ns : List Node) (s : ErrorStack)
    → s.nodes ≡ over ++ ns
    → (unwind (length over) s).nodes ≡ ns
unfolding unwind
unwind-nodes [] ns s e = e
unwind-nodes (n ∷ over) ns s e =
    unwind-nodes over ns (drop_node s.nodes s) (drop_node-cons n (over ++ ns) s e).0

-- A successful pop removes the context and all above it, and nothing else.
record Popped (n : Node) (rest : List Node) (s : ErrorStack) : Type 0 where
  left : s.nodes ≡ rest
  slot : List Node
  gone : s.stale ≡ n ∷ slot

unwind-Popped :
    (over rest : List Node) (n : Node) (k : ℕ) (s : ErrorStack)
    → s.nodes ≡ over ++ n ∷ rest
    → k ≡ suc (length over)
    → Popped n rest (unwind k s)
unwind-Popped over rest n k s e h =
    let u = unwind (length over) s in
    let (l, _, _, g) = drop_node-cons n rest u (unwind-nodes over (n ∷ rest) s e) in
    rw (h, unwind-suc) (record { left = l; slot = u.stale; gone = g })

data PopResult (c : ℕ) (ptr : Option ℕ) (s : ErrorStack) : Bool × ErrorStack → Type 0 where
  found :
      {s' : ErrorStack} (i k : ℕ) (a : ContextAt c i ptr s.nodes)
      → Popped a.node a.rest s'
      → s' ≡ unwind k s
      → PopResult c ptr s (true, s')
  refused :
      {s' : ErrorStack} (text : Option String)
      → s' ≡ (internal_push meta_error text 0 s).1
      → PopResult c ptr s (false, s')

pop_context-PopResult :
    (c : ℕ) (ptr : Option ℕ) (s : ErrorStack) → PopResult c ptr s (pop_context c ptr s)
unfolding pop_context
pop_context-PopResult c ptr s =
    go (find_context (length s.nodes + 1) c ptr s.nodes) refl
      (find_context-Outcome s.nodes (length s.nodes + 1) c ptr)
  where
    go :
        (r : Found)
        → find_context (length s.nodes + 1) c ptr s.nodes ≡ r
        → Outcome c ptr s.nodes (find_context (length s.nodes + 1) c ptr s.nodes)
        → PopResult c ptr s (pop_context c ptr s)
    go (at i) e o =
        let a : ContextAt c i ptr s.nodes = rw e at o in
        rw (e, pop_context)
          (found i (length s.nodes - i) a
            (unwind-Popped a.over a.rest a.node (length s.nodes - i) s a.split
              (omega (arith, ap length a.split, length-append a.over (a.node ∷ a.rest), a.index)))
            refl)
    go nowhere e o =
        rw (e, pop_context) (refused (some "pop_context called with invalid context") refl)
    go wrong_type e o =
        rw (e, pop_context)
          (refused (some "fde_get_next_error() returned node of invalid type") refl)

context-uncounted :
    (t : NodeType) → is_context t ≡ true → (is_error t ≡ false) × (is_meta t ≡ false)
unfolding is_error is_meta
context-uncounted t h = ground arith

raise-IsValid :
    (n : Node) (slot : List Node) (s : ErrorStack)
    → s.stale ≡ n ∷ slot
    → is_context n.type ≡ true
    → IsValid s
    → IsValid (raise s.stale s)
unfolding raise count_errors count_metas
raise-IsValid n slot s e h v =
    let (ne, nm) = context-uncounted n.type h in
    rw (e, raise)
      (record {
        slots = omega (arith, ap length e, v.slots);
        errors = rw ne (omega (arith, v.errors));
        metas = rw nm (omega (arith, v.metas));
        metas_fit = v.metas_fit;
      })

-- What a pop that was asked for context `c` (at the slot `ptr`, where one is given) comes to: it
-- succeeds by taking off a context with that id at that slot, and all above it, or it fails and adds
-- one meta error.
abbrev pub Took : ℕ → Option ℕ → ErrorStack → Bool × ErrorStack → Type 0
Took c ptr s (true, s') = (i : ℕ) × (a : ContextAt c i ptr s.nodes) × (s'.nodes ≡ a.rest)
Took c ptr s (false, s') = (text : Option String) × (s' ≡ (internal_push meta_error text 0 s).1)

PopResult-Took :
    {c : ℕ} {ptr : Option ℕ} {s : ErrorStack} {r : Bool × ErrorStack}
    → PopResult c ptr s r
    → Took c ptr s r
PopResult-Took (found i k a p e) = (i, a, p.left)
PopResult-Took (refused text e) = (text, e)

PopResult-IsValid :
    {c : ℕ} {ptr : Option ℕ} {s : ErrorStack} {r : Bool × ErrorStack}
    → PopResult c ptr s r
    → IsValid s
    → s.meta_errors + 1 < 2 ^ 32
    → IsValid r.1
PopResult-IsValid {s} (found i k a p e) v h = rw e (unwind-IsValid k s v)
PopResult-IsValid {s} (refused text e) v h = rw e (internal_push-IsValid meta_error text 0 s v h)

PopResult-raised :
    {c : ℕ} {ptr : Option ℕ} {s : ErrorStack} {r : Bool × ErrorStack}
    → PopResult c ptr s r
    → IsValid r.1
    → IsValid (if◌then◌else◌ {A = Bool × ErrorStack} r.0 (true, raise r.1.stale r.1) (false, r.1)).1
PopResult-raised (found {s'} i k a p e) v = raise-IsValid a.node p.slot s' p.gone a.is_ctx v
PopResult-raised (refused text e) v = v

-- `fde_pop_context`, for any id and pointer, on a valid stack whose counter of meta errors can still
-- grow: it returns true and has taken off a context of that id, at the slot of the pointer if one is
-- given, with all above it; or it returns false and has done nothing but push one meta error. The
-- stack is valid then.
pub pop_context-Took :
    (c : ℕ) (ptr : Option ℕ) (s : ErrorStack)
    → IsValid s
    → s.meta_errors + 1 < 2 ^ 32
    → Took c ptr s (pop_context c ptr s) × IsValid (pop_context c ptr s).1
pop_context-Took c ptr s v h =
    let r = pop_context-PopResult c ptr s in (PopResult-Took r, PopResult-IsValid r v h)

-- `fde_reset_context` keeps the invariant, for any id and pointer, while the counter of meta errors
-- can still grow.
pub reset_context-IsValid :
    (c : ℕ) (ptr : Option ℕ) (s : ErrorStack)
    → IsValid s
    → s.meta_errors + 1 < 2 ^ 32
    → IsValid (reset_context c ptr s).1
unfolding reset_context
reset_context-IsValid c ptr s v h =
    let r = pop_context-PopResult c ptr s in PopResult-raised r (PopResult-IsValid r v h)
