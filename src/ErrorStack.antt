-- ===== src/ErrorStack.antt =====
-- error_stack.c, error_stack.h, error_stack.fwd.h: the stack of contexts and errors that every other
-- component reports to. It models a build without FD_TRACE; the texts that are printed are left out.
--
-- `error_stack[64]` with `top` is a zipper: `nodes` holds the slots below `top`, topmost first, and
-- `stale` the slots from `top` on, so that an index is the number of slots below it.
mod Codes
pub mod Counters
pub mod Contexts
pub mod Invariant
pub mod Search
mod Tests
pub use Codes.*
use mathlib.Core.List.{reverse, foldl}
use femc_driver.Prelude.{
  ℕ, zero, suc, ◌+◌, ◌-◌, ◌/◌, ◌%◌, ◌^◌, Bool, true, false, not, ◌&&◌, Option, none, some, List, [],
  ◌∷◌, ◌++◌, String, leb, ◌==◌, if◌then◌else◌, length, tail, take, drop,
}

-- `fde_node_type_t`, an uint8_t: the values of the enum, and those from 8 on, which it does not
-- name. The bound of 255 is not part of the type.
pub data NodeType : Type 0 where
  context stdlib_error consistency_failure data_corruption resource_failure : NodeType
  message meta_error http_error : NodeType
  invalid : ℕ → NodeType

pub code : NodeType → ℕ
code context = 0
code stdlib_error = 1
code consistency_failure = 2
code data_corruption = 3
code resource_failure = 4
code message = 5
code meta_error = 6
code http_error = 7
code (invalid n) = 8 + n

pub record Node : Type 0 where
  pub type : NodeType
  pub text : Option String
  pub id : ℕ

pub record ErrorStack : Type 0 where
  pub nodes : List Node
  pub stale : List Node
  pub errors : ℕ
  pub meta_errors : ℕ
  pub error_stack_full : Bool

abbrev pub error_stack_size : ℕ
error_stack_size = 64

-- `++` and `--` on an uint32_t
abbrev pub inc32 : ℕ → ℕ
inc32 n = (n + 1) % 2 ^ 32

abbrev pub dec32 : ℕ → ℕ
dec32 n = (n + 2 ^ 32 - 1) % 2 ^ 32

-- The switch over the types that `errors` counts.
unfoldable pub is_error : NodeType → Bool
is_error stdlib_error = true
is_error consistency_failure = true
is_error data_corruption = true
is_error resource_failure = true
is_error http_error = true
is_error t = false

unfoldable pub is_meta : NodeType → Bool
is_meta meta_error = true
is_meta t = false

abbrev pub node : NodeType → Option String → ℕ → Node
node t par1 par2 = record { type = t; text = par1; id = par2 }

-- The three writes through `top`, and `++top`.
pub place : Node → ErrorStack → ErrorStack
place n s = record s { nodes = n ∷ s.nodes; stale = tail s.stale }

pub count_node : NodeType → ErrorStack → ErrorStack
unfolding is_error is_meta
count_node t s = record s {
  errors = if is_error t then inc32 s.errors else s.errors;
  meta_errors = if is_meta t then inc32 s.meta_errors else s.meta_errors;
}

-- A push at a full stack.
pub lose : ErrorStack → ErrorStack
lose s = record s { meta_errors = inc32 s.meta_errors; error_stack_full = true }

pub is_full : ErrorStack → Bool
is_full s = leb error_stack_size (length s.nodes)

-- A push of a type that the switch names.
pub push_named : NodeType → Option String → ℕ → ErrorStack → Bool × ErrorStack
unfolding place count_node lose is_full
push_named t par1 par2 s =
    if is_full s then (false, lose s) else (true, count_node t (place (node t par1 par2) s))

-- The `default` of the switch calls the function once more, with a type that the switch names.
unfoldable pub internal_push : NodeType → Option String → ℕ → ErrorStack → Bool × ErrorStack
unfolding push_named
internal_push (invalid n) par1 par2 s = if is_full s then (false, lose s) else (
  false,
  (push_named meta_error (some "invalid node type") 0 (place (node (invalid n) par1 par2) s)).1,
)
internal_push t par1 par2 s = push_named t par1 par2 s

-- The pointer to the new slot, or `NULL`.
unfoldable pub push_context : ℕ → Option String → ErrorStack → Option ℕ × ErrorStack
unfolding internal_push
push_context c function s =
    let ptr = length s.nodes in
    let (pushed, s') = internal_push context function c s in (if pushed then some ptr else none, s')

unfoldable pub push_stdlib_error : Option String → ℕ → ErrorStack → Bool × ErrorStack
push_stdlib_error function err = internal_push stdlib_error function err

unfoldable pub push_consistency_failure : Option String → ErrorStack → Bool × ErrorStack
push_consistency_failure label = internal_push consistency_failure label 0

unfoldable pub push_consistency_failure_id : ℕ → ErrorStack → Bool × ErrorStack
push_consistency_failure_id i = internal_push consistency_failure none i

unfoldable pub push_data_corruption : Option String → ErrorStack → Bool × ErrorStack
push_data_corruption label = internal_push data_corruption label 0

unfoldable pub push_resource_failure : Option String → ErrorStack → Bool × ErrorStack
push_resource_failure label = internal_push resource_failure label 0

unfoldable pub push_resource_failure_id : ℕ → ErrorStack → Bool × ErrorStack
push_resource_failure_id res = internal_push resource_failure none res

unfoldable pub push_message : Option String → ErrorStack → Bool × ErrorStack
push_message text = internal_push message text 0

unfoldable pub push_node : Node → ErrorStack → Bool × ErrorStack
push_node n = internal_push n.type n.text n.id

unfoldable pub push_http_error : Option String → ℕ → ErrorStack → Bool × ErrorStack
push_http_error text status = internal_push http_error text status

unfoldable pub fde_errors : ErrorStack → ℕ
fde_errors s = (s.errors + s.meta_errors) % 2 ^ 32

unfoldable pub fde_meta_errors : ErrorStack → ℕ
fde_meta_errors s = s.meta_errors

-- `types & (1 << type)`. A shift by 31 or more is undefined in C: the model counts it modulo 32, as
-- x86 does.
unfoldable pub has_type : ℕ → NodeType → Bool
unfolding code
has_type types t = types / 2 ^ (code t % 32) % 2 == 1

-- The report of a failure in a context of its own, which stays on the stack.
unfoldable pub report_consistency : ℕ → ℕ → ErrorStack → ErrorStack
unfolding push_context push_consistency_failure_id
report_consistency c i s = (push_consistency_failure_id i (push_context c none s).1).1

unfoldable pub report_resource : ℕ → ℕ → ErrorStack → ErrorStack
unfolding push_context push_resource_failure_id
report_resource c i s = (push_resource_failure_id i (push_context c none s).1).1

-- The walk of `fde_get_next_error`, down from the slot above the list. A found slot is given by
-- itself and the slots below it.
unfoldable pub next_in : ℕ → List Node → List Node
unfolding has_type
next_in types [] = []
next_in types (n ∷ rest) = if has_type types n.type then n ∷ rest else next_in types rest

-- The slots below an index, topmost first.
unfoldable pub below : ℕ → ErrorStack → List Node
below last s =
    let top = length s.nodes in
    if leb last top
    then drop (top - last) s.nodes
    else reverse (take (last - top) s.stale) ++ s.nodes

unfoldable pub get_next_error : ℕ → ℕ → ErrorStack → Option ℕ
unfolding next_in below
get_next_error types last s = elim (next_in types (below last s)) [
  | [] ↦ none
  | _ ∷ rest ↦ some (length rest)
]

unfoldable pub get_last_error : ℕ → ErrorStack → Option ℕ
get_last_error types s = get_next_error types (length s.nodes) s

-- What the loop of `fde_pop_context` finds: the slots below the context, none, or a node of the
-- wrong type.
pub data Found : Type 0 where
  at : ℕ → Found
  nowhere : Found
  wrong_type : Found

abbrev pub is_ptr : Option ℕ → ℕ → Bool
is_ptr none i = true
is_ptr (some p) i = i == p

abbrev pub is_context : NodeType → Bool
is_context context = true
is_context t = false

unfoldable pub find_context : ℕ → ℕ → Option ℕ → List Node → Found
find_context zero c ptr ns = nowhere
find_context (suc fuel) c ptr ns = elim (next_in context_b ns) [
  | [] ↦ nowhere
  | n ∷ rest ↦
      let deeper = find_context fuel c ptr rest in
      if not (is_context n.type)
      then wrong_type
      else if n.id == c && is_ptr ptr (length rest)
      then at (length rest)
      else deeper
]

-- `--top`, and the counters of the node that goes
unfoldable pub drop_node : List Node → ErrorStack → ErrorStack
unfolding is_error is_meta
drop_node [] s = s
drop_node (n ∷ rest) s = record {
  nodes = rest;
  stale = n ∷ s.stale;
  errors = if is_error n.type then dec32 s.errors else s.errors;
  meta_errors = if is_meta n.type then dec32 s.meta_errors else s.meta_errors;
  error_stack_full = s.error_stack_full;
}

-- The inner loop of `fde_pop_context`, from the top down.
unfoldable pub unwind : ℕ → ErrorStack → ErrorStack
unfolding drop_node
unwind zero s = s
unwind (suc k) s = unwind k (drop_node s.nodes s)

unfoldable pub pop_context : ℕ → Option ℕ → ErrorStack → Bool × ErrorStack
unfolding find_context unwind next_in
pop_context c ptr s =
    let top = length s.nodes in
    elim (find_context (top + 1) c ptr s.nodes) [
      | at i ↦ (true, unwind (top - i) s)
      | nowhere ↦
          (false, (internal_push meta_error (some "pop_context called with invalid context") 0 s).1)
      | wrong_type ↦ (
        false,
        (internal_push meta_error (some "fde_get_next_error() returned node of invalid type") 0
            s).1,
      )
    ]

-- `++top`: the slot that stood above the top is on the stack again.
unfoldable pub raise : List Node → ErrorStack → ErrorStack
raise [] s = s
raise (n ∷ rest) s = record s { nodes = n ∷ s.nodes; stale = rest }

unfoldable pub reset_context : ℕ → Option ℕ → ErrorStack → Bool × ErrorStack
unfolding raise
reset_context c ptr s =
    let (popped, s') = pop_context c ptr s in
    if popped then (true, raise s'.stale s') else (false, s')

unfoldable pub safe_pop_context : ℕ → Option ℕ → ErrorStack → Bool × ErrorStack
unfolding fde_errors
safe_pop_context c ptr s = if fde_errors s == 0 then pop_context c ptr s else (false, s)

-- The callback's own state is `S`; it does not touch the stack.
pub for_each_node {ℓ} : {S : Type ℓ} → ℕ → (S → Node → S) → S → ErrorStack → S
unfolding has_type
for_each_node types callback state s =
    foldl (λ acc n. if has_type types n.type then callback acc n else acc) state (reverse s.nodes)
