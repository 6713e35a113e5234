-- ===== src/ErrorStack/Search.antt =====
-- What the walks down the stack find: `fde_get_last_error`, and the loop of `fde_pop_context`.
use femc_driver.Prelude.{
  ℕ, ◌≡◌, refl, true, false, Option, none, some, List, [], ◌∷◌, ◌++◌, arith, length, Bool-cases,
  inl, inr, ap, All,
}
use femc_driver.ErrorStack.{
  Node, ErrorStack, has_type, next_in, below, get_next_error, get_last_error,
}

-- The list of slots splits at the first node of the asked types: those above it are of no such type.
pub record FoundAt (types i : ℕ) (ns : List Node) : Type 0 where
  pub over : List Node
  pub node : Node
  pub rest : List Node
  pub split : ns ≡ over ++ node ∷ rest
  pub index : i ≡ length rest
  pub fits : has_type types node.type ≡ true
  pub first : All (λ n. has_type types n.type ≡ false) over

abbrev pub Finds : ℕ → List Node → Option ℕ → Type 0
Finds types ns none = All (λ n. has_type types n.type ≡ false) ns
Finds types ns (some i) = FoundAt types i ns

abbrev index_of : List Node → Option ℕ
index_of [] = none
index_of (n ∷ rest) = some (length rest)

Finds-cons :
    (types : ℕ) (n : Node) (ns : List Node) (o : Option ℕ)
    → has_type types n.type ≡ false
    → Finds types ns o
    → Finds types (n ∷ ns) o
Finds-cons types n ns none h f = (h, f)
Finds-cons types n ns (some i) h f = record {
  over = n ∷ f.over;
  node = f.node;
  rest = f.rest;
  split = ap (◌∷◌ n) f.split;
  index = f.index;
  fits = f.fits;
  first = (h, f.first);
}

next_in-Finds : (types : ℕ) (ns : List Node) → Finds types ns (index_of (next_in types ns))
unfolding next_in
next_in-Finds types [] = tt
next_in-Finds types (n ∷ ns) = elim (Bool-cases (has_type types n.type)) [
  | inl h ↦
      rw h (record {
        over = [];
        node = n;
        rest = ns;
        split = refl;
        index = refl;
        fits = h;
        first = tt;
      })
  | inr h ↦ rw h (Finds-cons types n ns _ h (next_in-Finds types ns))
]

below-top : (s : ErrorStack) → below (length s.nodes) s ≡ s.nodes
unfolding below
below-top s = ground arith

get_last_error-index :
    (types : ℕ) (s : ErrorStack) → get_last_error types s ≡ index_of (next_in types s.nodes)
unfolding get_last_error get_next_error
get_last_error-index types s = ground (arith, below-top s)

-- `fde_get_last_error` finds the topmost node of the asked types, with only nodes of other types
-- above it, and returns null exactly where the whole stack holds no such node.
pub get_last_error-Finds :
    (types : ℕ) (s : ErrorStack) → Finds types s.nodes (get_last_error types s)
get_last_error-Finds types s =
    rw (get_last_error-index types s, Finds) (next_in-Finds types s.nodes)
