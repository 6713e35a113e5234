-- ===== src/Zmq/Services/Steps.antt =====
-- The calls that adding and removing services begin with leave all services as they are.
use femc_driver.Prelude.{
  ℕ, ◌+◌, ◌<◌, ◌≡◌, refl, sym, inl, inr, Bool, true, false, Option, none, some, List, [], ◌∷◌,
  arith, All, if◌then◌else◌, Bool-cases, length, ◌&&◌, ltb, leb,
}
use femc_driver.Backend.{Direction}
use femc_driver.ErrorStack.{ErrorStack, Node, node, fdd_context_zmq, context}
use femc_driver.ErrorStack.Contexts.{pop_context-top, push_context-OnTop, OnTop}
use femc_driver.Zmq.{
  Key, by_fd, Zmq, Library, block, cleared, close, entry_allocation_block, allocate_checked,
  allocate_with, allocate_new_entries, is_some,
}
use femc_driver.Zmq.Lists.{NoneAt}
use femc_driver.Zmq.Pool.{
  Nodup-block, All-right, Agree, look-Agree, OneAt-Agree, NoneAt-Agree, All-Agree,
}
use femc_driver.Zmq.Valid.{IsListed, IsPool, IsValid, services}
use femc_driver.Zmq.Services.{init_new, init_with, zmq_init, allocate_for}

abbrev pub on_top : List Node → List Node
on_top base = node context none fdd_context_zmq ∷ base

old_entry : (f x : ℕ) → x < f → leb f x ≡ false
old_entry f x h = ground arith

module _ {P : Type 0} where
  -- The services are as they were, and so are the keys that nothing waits on.
  abbrev pub Kept : Zmq P → Zmq P → Type 0
  Kept z z' =
      IsValid z'
      × ((e : Direction) (i : ℕ) → services z' e i ≡ services z e i)
      × ((k : Key) → NoneAt k z.entry z.entries → NoneAt k z'.entry z'.entries)

  pub Kept-refl : (z : Zmq P) → IsValid z → Kept z z
  Kept-refl z v = (v, λ e i. refl, λ k n. n)

  -- A step of a call on a stack whose nodes are `base`, which stay if it returns true.
  abbrev pub Step : List Node → Zmq P → Bool × Zmq P × ErrorStack → Type 0
  Step base z (true, z', stack) = Kept z z' × (stack.nodes ≡ base)
  Step base z (false, z', stack) = Kept z z'

  closed :
      (base : List Node) (z z' : Zmq P) (ectx : ℕ) (stack : ErrorStack)
      → ectx ≡ length base
      → stack.nodes ≡ on_top base
      → Kept z z'
      → Step base z ((close ectx stack).0, z', (close ectx stack).1)
  closed base z z' ectx stack q h k =
      let (popped, nodes) = pop_context-top fdd_context_zmq stack base h in
      rw (q, popped) (k, nodes)

  -- The new block: 16 unused entries.
  blocked : Zmq P → Zmq P
  blocked z = record z {
    unused_entries = block entry_allocation_block z.fresh [];
    entry = λ (i : ℕ).
        if leb z.fresh i && ltb i (z.fresh + entry_allocation_block) then cleared else z.entry i;
    fresh = z.fresh + entry_allocation_block;
  }

  old_entries :
      (z : Zmq P) (es : List ℕ) → All (λ x. x < z.fresh) es → Agree z.entry (blocked z).entry es
  unfolding blocked
  old_entries z [] h = tt
  old_entries z (x ∷ es) (h, hs) = (rw (old_entry z.fresh x h) refl, old_entries z es hs)

  blocked-Kept : (z : Zmq P) → IsValid z → z.unused_entries ≡ [] → Kept z (blocked z)
  unfolding blocked
  blocked-Kept z v q =
      let es = z.entries in
      let v' : IsPool z.entries_count es z.removed_entries [] z.entry z.fresh = rw q at v in
      let (n, b) =
        Nodup-block entry_allocation_block z.fresh z.removed_entries [] es v'.nodup v'.bounded in
      let agree = old_entries z es (All-right (λ x. x < z.fresh) z.removed_entries es v'.bounded) in
      (
        record {
          nodup = n;
          bounded = b;
          one = λ i. OneAt-Agree z.entry (blocked z).entry (by_fd i) es agree (v.one i);
          listed = All-Agree z.entry (blocked z).entry (λ e. IsListed e) es agree v.listed;
          counted = v.counted;
        },
        λ e i. look-Agree z.entry (blocked z).entry e (by_fd i) es agree,
        λ k none_at. NoneAt-Agree z.entry (blocked z).entry k es agree none_at,
      )

  allocate_checked-Step :
      (malloc : Bool) (ectx : ℕ) (base : List Node) (us : List ℕ) (z : Zmq P) (stack : ErrorStack)
      → IsValid z
      → us ≡ z.unused_entries
      → ectx ≡ length base
      → stack.nodes ≡ on_top base
      → Step base z (allocate_checked malloc ectx us z stack)
  unfolding allocate_checked blocked
  allocate_checked-Step malloc ectx base (a ∷ rest) z stack v u q h = Kept-refl z v
  allocate_checked-Step false ectx base [] z stack v u q h = Kept-refl z v
  allocate_checked-Step true ectx base [] z stack v u q h =
      closed base z (blocked z) ectx stack q h (blocked-Kept z v (sym u))

  allocate_with-Step :
      (malloc : Bool) (base : List Node) (z : Zmq P) (r : Option ℕ × ErrorStack)
      → IsValid z
      → OnTop fdd_context_zmq base r
      → Step base z (allocate_with malloc z r)
  unfolding allocate_with
  allocate_with-Step malloc base z (none, stack) v h = Kept-refl z v
  allocate_with-Step malloc base z (some ectx, stack) v (q, h) =
      allocate_checked-Step malloc ectx base z.unused_entries z stack v refl q h

module _ {P : Type 0} (lib : Library P) where
  pub allocate_for-Step :
      (malloc : Bool) (us : List ℕ) (z : Zmq P) (stack : ErrorStack)
      → IsValid z
      → Step stack.nodes z (allocate_for lib malloc us z stack)
  unfolding allocate_for allocate_new_entries
  allocate_for-Step malloc (a ∷ rest) z stack v = (Kept-refl z v, refl)
  allocate_for-Step malloc [] z stack v =
      allocate_with-Step malloc stack.nodes z _ v (push_context-OnTop fdd_context_zmq stack)

  init_new-Step :
      (base : List Node) (z : Zmq P) (p : Option P) (ectx : ℕ) (stack : ErrorStack)
      → IsValid z
      → ectx ≡ length base
      → stack.nodes ≡ on_top base
      → Step base z (init_new lib z p ectx stack)
  unfolding init_new
  init_new-Step base z none ectx stack v q h = Kept-refl z v
  init_new-Step base z (some p) ectx stack v q h =
      closed base z (record z { poller = some p }) ectx stack q h (Kept-refl z v)

  init_with-Step :
      (base : List Node) (z : Zmq P) (r : Option ℕ × ErrorStack)
      → IsValid z
      → OnTop fdd_context_zmq base r
      → Step base z (init_with lib z r)
  unfolding init_with
  init_with-Step base z (none, stack) v h = Kept-refl z v
  init_with-Step base z (some ectx, stack) v (q, h) = init_new-Step base z lib.new ectx stack v q h

  pub zmq_init-Step :
      (z : Zmq P) (stack : ErrorStack) → IsValid z → Step stack.nodes z (zmq_init lib z stack)
  unfolding zmq_init
  zmq_init-Step z stack v = elim (Bool-cases (is_some z.poller)) [
    | inl h ↦ rw (h, zmq_init) (Kept-refl z v, refl)
    | inr h ↦
        rw (h, zmq_init)
          (init_with-Step stack.nodes z _ v (push_context-OnTop fdd_context_zmq stack))
  ]
