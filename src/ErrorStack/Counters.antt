-- ===== src/ErrorStack/Counters.antt =====
-- The counters of the error stack against the nodes that it holds.
use femc_driver.Prelude.{
  ℕ, zero, suc, ◌+◌, ◌*◌, ◌%◌, ◌^◌, ◌≤◌, ◌<◌, ◌≡◌, refl, Bool, true, Option, some, List, [], ◌∷◌,
  ◌++◌, String, arith, if◌then◌else◌, length, Bool-cases, inl, inr, length-append, ap, All,
}
use femc_driver.ErrorStack.{
  NodeType, code, meta_error, invalid, Node, ErrorStack, error_stack_size, is_error, is_meta, node,
  place, count_node, lose, is_full, push_named, internal_push, push_node, drop_node, unwind, dec32,
}

-- How many of the nodes a counter counts.
abbrev pub one_if : Bool → ℕ
one_if b = if b then 1 else 0

unfoldable pub count_errors : List Node → ℕ
unfolding is_error
count_errors [] = 0
count_errors (n ∷ ns) = one_if (is_error n.type) + count_errors ns

unfoldable pub count_metas : List Node → ℕ
unfolding is_meta
count_metas [] = 0
count_metas (n ∷ ns) = one_if (is_meta n.type) + count_metas ns

-- `1 << type` is defined.
abbrev pub HasShift : NodeType → Type 0
HasShift t = code t < 31

-- The stack holds `ms` on top of what `base` held, at most `k` nodes, and its counters say so.
-- `lost` pushes found it full; none did where `k` nodes fit on top of `base`.
pub record Above (base s : ErrorStack) (k : ℕ) : Type 0 where
  pub ms : List Node
  pub lost : ℕ
  pub nodes : s.nodes ≡ ms ++ base.nodes
  pub errors : s.errors ≡ (base.errors + count_errors ms) % 2 ^ 32
  pub metas : s.meta_errors ≡ (base.meta_errors + count_metas ms + lost) % 2 ^ 32
  pub few : length ms ≤ k
  pub kept : length base.nodes + k ≤ error_stack_size → lost ≡ 0
  pub shifts : All (λ n. HasShift n.type) ms

pub Above-refl : (s : ErrorStack) → s.errors < 2 ^ 32 → s.meta_errors < 2 ^ 32 → Above s s 0
unfolding count_errors count_metas
Above-refl s he hm = record {
  ms = [];
  lost = 0;
  nodes = refl;
  errors = omega arith;
  metas = omega arith;
  few = omega arith;
  kept = λ h. refl;
  shifts = tt;
}

module _ {base s : ErrorStack} {k : ℕ} (a : Above base s k) where
  length-Above : length s.nodes ≤ length base.nodes + k
  length-Above = omega (arith, ap length a.nodes, length-append a.ms base.nodes, a.few)

  lose-Above : is_full s ≡ true → Above base (lose s) (k + 1)
  unfolding lose is_full
  lose-Above full = record {
    ms = a.ms;
    lost = 1 + a.lost;
    nodes = a.nodes;
    errors = a.errors;
    metas = omega (arith, a.metas);
    few = omega (arith, a.few);
    kept = λ h. absurd (ground (arith, length-Above));
    shifts = a.shifts;
  }

  place-Above : (n : Node) → HasShift n.type → Above base (count_node n.type (place n s)) (k + 1)
  unfolding place count_node count_errors count_metas
  place-Above n h = record {
    ms = n ∷ a.ms;
    lost = a.lost;
    nodes = ground (arith, a.nodes);
    errors = ground (arith, a.errors);
    metas = ground (arith, a.metas);
    few = omega (arith, a.few);
    kept = λ h. a.kept (omega arith);
    shifts = (h, a.shifts);
  }

module _ {base s : ErrorStack} {k : ℕ} (a : Above base s k) where
  weaken : (j : ℕ) → k ≤ j → Above base s j
  weaken j h = record {
    ms = a.ms;
    lost = a.lost;
    nodes = a.nodes;
    errors = a.errors;
    metas = a.metas;
    few = omega (arith, a.few);
    kept = λ fits. a.kept (omega arith);
    shifts = a.shifts;
  }

  push_named-Above :
      (t : NodeType) (text : Option String) (i : ℕ)
      → HasShift t
      → Above base (push_named t text i s).1 (k + 1)
  unfolding push_named
  push_named-Above t text i h = elim (Bool-cases (is_full s)) [
    | inl full ↦ rw (full, push_named) (lose-Above a full)
    | inr room ↦ rw (room, push_named) (place-Above a (node t text i) h)
  ]

count_node-invalid : (n : ℕ) (s : ErrorStack) → count_node (invalid n) s ≡ s
unfolding count_node
count_node-invalid n s = refl

module _ {base s : ErrorStack} {k : ℕ} (a : Above base s k) where
  -- A push takes one slot, or two where its type is not one of the enum.
  pub internal_push-Above :
      (t : NodeType) (text : Option String) (i : ℕ)
      → HasShift t
      → Above base (internal_push t text i s).1 (k + 2)
  unfolding internal_push code
  internal_push-Above (invalid n) text i h = elim (Bool-cases (is_full s)) [
    | inl full ↦ rw (full, internal_push) (weaken (lose-Above a full) (k + 2) (omega arith))
    | inr room ↦
        rw (room, internal_push)
          (weaken
            (push_named-Above
              (rw (count_node-invalid n (place (node (invalid n) text i) s)) at
                (place-Above a (node (invalid n) text i) h))
              meta_error (some "invalid node type") 0 (omega arith))
            (k + 2) (omega arith))
  ]
  internal_push-Above t text i h = weaken (push_named-Above a t text i h) (k + 2) (omega arith)

-- A run of pushes.
unfoldable pub pushes : List Node → ErrorStack → ErrorStack
pushes [] s = s
pushes (n ∷ ns) s = pushes ns (push_node n s).1

pub pushes-Above :
    (ns : List Node) {base s : ErrorStack} {k : ℕ}
    → All (λ n. HasShift n.type) ns
    → Above base s k
    → Above base (pushes ns s) (k + 2 * length ns)
unfolding pushes push_node
pushes-Above [] {base} {s} {k} h a = weaken a (k + 0) (omega arith)
pushes-Above (n ∷ ns) {base} {s} {k} (h, hs) a =
    weaken (pushes-Above ns hs (internal_push-Above a n.type n.text n.id h))
      (k + 2 * suc (length ns)) (omega arith)

abbrev top_dropped : ErrorStack → ErrorStack
top_dropped s = drop_node s.nodes s

pub unwind-suc : (k : ℕ) (s : ErrorStack) → unwind (suc k) s ≡ top_dropped (unwind k s)
unfolding unwind
unwind-suc zero s = refl
unwind-suc (suc k) s = unwind-suc k (top_dropped s)

-- What goes with the topmost node.
pub drop_node-cons :
    (n : Node) (ns : List Node) (s : ErrorStack)
    → s.nodes ≡ n ∷ ns
    → ((top_dropped s).nodes ≡ ns)
      × ((top_dropped s).errors ≡ (if is_error n.type then dec32 s.errors else s.errors))
      × ((top_dropped s).meta_errors
          ≡ (if is_meta n.type then dec32 s.meta_errors else s.meta_errors))
      × ((top_dropped s).stale ≡ n ∷ s.stale)
unfolding drop_node
drop_node-cons n ns s h = rw (h, drop_node) (refl, refl, refl, refl)

-- The counters are taken back node by node.
pub record Restored (ns : List Node) (e m : ℕ) (s : ErrorStack) : Type 0 where
  pub nodes : s.nodes ≡ ns
  pub errors : s.errors ≡ e
  pub metas : s.meta_errors ≡ m

pub unwind-Restored :
    (ms ns : List Node) (e m : ℕ) (s : ErrorStack)
    → e < 2 ^ 32
    → m < 2 ^ 32
    → s.nodes ≡ ms ++ ns
    → s.errors ≡ (e + count_errors ms) % 2 ^ 32
    → s.meta_errors ≡ (m + count_metas ms) % 2 ^ 32
    → Restored ns e m (unwind (length ms) s)
unfolding unwind count_errors count_metas
unwind-Restored [] ns e m s he hm hn hc hd = record {
  nodes = hn;
  errors = omega arith;
  metas = omega arith;
}
unwind-Restored (n ∷ ms) ns e m s he hm hn hc hd =
    let (dn, de, dm, _) = drop_node-cons n (ms ++ ns) s hn in
    unwind-Restored ms ns e m (top_dropped s) he hm dn (ground (arith, de)) (ground (arith, dm))
