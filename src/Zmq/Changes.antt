-- ===== src/Zmq/Changes.antt =====
-- What the changes of the lists of dispatcher_zmq.c do to the services, and that they keep them valid.
use mathlib.Core.List.{append_assoc}
use femc_driver.Prelude.{
  ℕ, ◌+◌, ◌-◌, ◌%◌, ◌^◌, ◌<◌, ◌≡◌, ◌≢◌, refl, sym, ◌∙◌, ap, inl, inr, true, false, Option, none,
  some, List, [], ◌∷◌, ◌++◌, arith, ◌==◌, eq-==, ne-==, ==-true, ==-false, if◌then◌else◌,
  Bool-cases,
}
use femc_driver.Backend.{Direction, input, output, Registry, put, same}
use femc_driver.Zmq.{Entry, Key, by_fd, update, list_remove, is_at, service, with_service, other}
use femc_driver.Zmq.Lists.{
  NotIn, In, Nodup, look, NoneAt, OneAt, All-In, All-remove, NotIn-list_remove, look-NoneAt,
  look-update, look-update_out, look-remove, NoneAt-update_out, OneAt-update_out, OneAt-update,
  OneAt-list_remove, update_self, NotIn-append,
}
use femc_driver.Zmq.Pool.{
  Nodup-move, All-move, Nodup-return, length-list_remove, Nodup-right, All-right, All-list_remove,
}
use femc_driver.Zmq.Valid.{
  fd_limit, IsListed, IsPool, is_at-fd, length-listed, All-update, All-update_out, new,
  new-IsListed, new-fd, new-service,
}

-- The services of a list.
abbrev pub of_list : (ℕ → Entry) → List ℕ → Registry
of_list m es d i = look d (by_fd i) m es

abbrev pub Puts : Direction → ℕ → Option ℕ → (ℕ → Entry) → List ℕ → (ℕ → Entry) → List ℕ → Type 0
Puts d fd s m es m' es' =
    (e : Direction) (i : ℕ) → of_list m' es' e i ≡ put d fd s (of_list m es) e i

-- Cases of `put` at the descriptor and elsewhere.
put-at :
    (d : Direction) (fd : ℕ) (s : Option ℕ) (r : Registry) (e : Direction) (i : ℕ)
    → fd ≡ i
    → put d fd s r e i ≡ (if same d e then s else r e i)
put-at d fd s r e i h = rw (==-true i fd (sym h)) refl

put-ne :
    (d : Direction) (fd : ℕ) (s : Option ℕ) (r : Registry) (e : Direction) (i : ℕ)
    → fd ≢ i
    → put d fd s r e i ≡ r e i
put-ne d fd s r e i h =
    rw (==-false i fd (λ q. h (sym q)))
      (elim (Bool-cases (same d e)) [ inl t ↦ rw t refl | inr t ↦ rw t refl ])

module _ (d : Direction) (fd name : ℕ) (a c f : ℕ) (es rs us : List ℕ) (m : ℕ → Entry)
    (v : IsPool c es rs (a ∷ us) m f) (small : fd < fd_limit) (free : NoneAt (by_fd fd) m es) where
  apart : NotIn a es
  apart = (NotIn-append a us es (Nodup-right rs (a ∷ (us ++ es)) v.nodup).0).1

  -- The first unused entry becomes that of a descriptor that has none.
  pub new-IsPool : IsPool ((c + 1) % 2 ^ 32) (a ∷ es) rs us (update a (new d fd name) m) f
  unfolding apart
  new-IsPool = record {
    nodup = Nodup-move a rs us es v.nodup;
    bounded = All-move (λ x. x < f) a rs us es v.bounded;
    one = λ i. (first i, OneAt-update_out d (by_fd i) a (new d fd name) m es apart (v.one i));
    listed = (
      rw (update_self a (new d fd name) m) (new-IsListed d fd name small),
      All-update_out a (new d fd name) m es apart v.listed,
    );
    counted = omega (arith, length-listed m es v.listed v.one, v.counted);
  }
    where
      first :
          (i : ℕ)
          → is_at (by_fd i) (update a (new d fd name) m a) ≡ true
          → NoneAt (by_fd i) (update a (new d fd name) m) es
      first i at =
          let here : fd == i ≡ true =
            sym (new-fd d fd name i) ∙ (rw (update_self a (new d fd name) m) at at) in
          rw (← eq-== fd i here) (NoneAt-update_out d (by_fd fd) a (new d fd name) m es apart free)

  pub new-Puts : Puts d fd (some name) m es (update a (new d fd name) m) (a ∷ es)
  unfolding look
  new-Puts e i =
      rw (update_self a (new d fd name) m, new-fd d fd name i, new-service d e fd name)
        (elim (Bool-cases (fd == i)) [
          | inl h ↦
              let at = eq-== fd i h in
              rw (h, put-at d fd (some name) (of_list m es) e i at)
                (elim (Bool-cases (same d e)) [
                  | inl t ↦ rw t refl
                  | inr t ↦ rw t (sym (look-NoneAt e (by_fd i) m es (rw at at free)))
                ])
          | inr h ↦
              rw (h, put-ne d fd (some name) (of_list m es) e i (ne-== fd i h))
                (look-update_out e (by_fd i) a (new d fd name) m es apart)
        ])

-- The entry at the key is that of the descriptor.
pub look-In :
    (d : Direction) (k : Key) (m : ℕ → Entry) (a : ℕ) (es : List ℕ)
    → In a es
    → is_at k (m a) ≡ true
    → OneAt k m es
    → look d k m es ≡ service d (m a)
unfolding look
look-In d k m a [] i at o = absurd i
look-In d k m a (x ∷ es) (inl q) at o = rw (q, at) refl
look-In d k m a (x ∷ es) (inr i) at (first, o) = elim (Bool-cases (is_at k (m x))) [
  | inl h ↦ absurd (let none_at = All-In (λ y. is_at k (m y) ≡ false) es (first h) i in cc)
  | inr h ↦ rw h (look-In d k m a es i at o)
]

with_service-fd : (d : Direction) (s : Option ℕ) (e : Entry) → (with_service d s e).fd ≡ e.fd
with_service-fd input s e = refl
with_service-fd output s e = refl

with_service-is_at :
    (d : Direction) (s : Option ℕ) (e : Entry) (i : ℕ)
    → is_at (by_fd i) (with_service d s e) ≡ is_at (by_fd i) e
unfolding is_at
with_service-is_at input s e i = refl
with_service-is_at output s e i = refl

with_service-service :
    (d e : Direction) (s : Option ℕ) (x : Entry)
    → service e (with_service d s x) ≡ (if same d e then s else service e x)
with_service-service input input s x = refl
with_service-service input output s x = refl
with_service-service output input s x = refl
with_service-service output output s x = refl

module _ (d : Direction) (s : Option ℕ) (fd : ℕ) (a c f : ℕ) (es rs us : List ℕ) (m : ℕ → Entry)
    (v : IsPool c es rs us m f) (i : In a es) (at : is_at (by_fd fd) (m a) ≡ true) where
  entries_nodup : Nodup es
  entries_nodup = Nodup-right us es (Nodup-right rs (us ++ es) v.nodup)

  at-fd : (j : ℕ) → is_at (by_fd j) (m a) ≡ (fd == j)
  at-fd j =
      let l = All-In (λ x. IsListed (m x)) es v.listed i in
      let same_fd = eq-== l.at_fd fd (sym (is_at-fd (m a) fd l.at_fd l.fd_lem) ∙ at) in
      is_at-fd (m a) j l.at_fd l.fd_lem ∙ ap (λ (n : ℕ). n == j) same_fd

  -- The entry of the descriptor gets or loses a service, and keeps one.
  pub set-IsPool :
      IsListed (with_service d s (m a)) → IsPool c es rs us (update a (with_service d s (m a)) m) f
  set-IsPool l = record {
    nodup = v.nodup;
    bounded = v.bounded;
    one = λ j.
        OneAt-update d (by_fd j) a (with_service d s (m a)) m es (with_service-is_at d s (m a) j)
          (v.one j);
    listed = All-update a (with_service d s (m a)) m es l v.listed;
    counted = v.counted;
  }

  pub set-Puts : Puts d fd s m es (update a (with_service d s (m a)) m) es
  unfolding entries_nodup at-fd
  set-Puts e j =
      look-update e (by_fd j) a (with_service d s (m a)) m es i entries_nodup
        (with_service-is_at d s (m a) j) (v.one j)
      ∙ rw (at-fd j, with_service-service d e s (m a))
          (elim (Bool-cases (fd == j)) [
            | inl h ↦
                let q = eq-== fd j h in
                rw (h, put-at d fd s (of_list m es) e j q)
                  (ap (λ o. if same d e then s else o)
                    (sym (look-In e (by_fd j) m a es i (at-fd j ∙ h) (v.one j))))
            | inr h ↦ rw (h, put-ne d fd s (of_list m es) e j (ne-== fd j h)) refl
          ])

  -- The entry goes with its last service, and is changed once more.
  module _ (x : Entry) (alone : service (other d) (m a) ≡ none) where
    abbrev pub gone : ℕ → Entry
    gone = update a x (update a (with_service d s (m a)) m)

    out : NotIn a (list_remove a es)
    out = NotIn-list_remove a es entries_nodup

    pub gone-IsPool : IsPool ((c + 2 ^ 32 - 1) % 2 ^ 32) (list_remove a es) (a ∷ rs) us gone f
    unfolding out
    gone-IsPool = record {
      nodup =
          rw (← append_assoc rs us (list_remove a es))
            (Nodup-return a (rs ++ us) es (rw (append_assoc rs us es) v.nodup) i);
      bounded = (
        All-In (λ y. y < f) es
            (All-right (λ y. y < f) us es (All-right (λ y. y < f) rs (us ++ es) v.bounded)) i,
        rw (← append_assoc rs us (list_remove a es))
            (All-list_remove (λ y. y < f) a (rs ++ us) es (rw (append_assoc rs us es) v.bounded)),
      );
      one = λ j.
          OneAt-update_out d (by_fd j) a x (update a (with_service d s (m a)) m) (list_remove a es)
            out
            (OneAt-update_out d (by_fd j) a (with_service d s (m a)) m (list_remove a es) out
              (OneAt-list_remove (by_fd j) a m es (v.one j)));
      listed = All-update_out a x (update a (with_service d s (m a)) m) (list_remove a es) out (
          All-update_out a (with_service d s (m a)) m (list_remove a es) out
            (All-remove (λ y. IsListed (m y)) a es v.listed));
      counted =
          omega (arith, length-list_remove a es i, length-listed m es v.listed v.one, v.counted);
    }

    pub gone-Puts : Puts d fd none m es gone (list_remove a es)
    unfolding out
    gone-Puts e j =
        look-update_out e (by_fd j) a x (update a (with_service d s (m a)) m) (list_remove a es) out
        ∙ look-remove e (by_fd j) a (with_service d s (m a)) m es i entries_nodup (v.one j)
        ∙ rw (at-fd j) (elim (Bool-cases (fd == j)) [
          | inl h ↦
              let q = eq-== fd j h in
              let old = look-In e (by_fd j) m a es i (at-fd j ∙ h) (v.one j) in
              rw (h, put-at d fd none (of_list m es) e j q, old) (lost d e alone)
          | inr h ↦ rw (h, put-ne d fd none (of_list m es) e j (ne-== fd j h)) refl
        ])
      where
        lost :
            (d e : Direction)
            → service (other d) (m a) ≡ none
            → none ≡ (if same d e then none else service e (m a))
        lost input input h = refl
        lost input output h = sym h
        lost output input h = sym h
        lost output output h = refl
