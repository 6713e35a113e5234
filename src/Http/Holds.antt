-- ===== src/Http/Holds.antt =====
-- What the steps of the HTTP parser keep: a postcondition for each way to end, with its rule for one
-- step behind another, and the invariant of the parser.
use femc_driver.Prelude.{
  ℕ, ◌≤◌, ◌≡◌, refl, Bool, true, false, Option, none, some, String, length, get_or,
}
use femc_driver.ErrorStack.{ErrorStack}
use femc_driver.Http.{
  Bytes, content_type_size, Progress, World, Out, went, stopped, starved, Step, Done, bind, called,
  call, Callback, refuse, underflow, require, MessageState, change_message,
}

-- A message state without a content, whose content type is a text that ends inside its array.
pub record IsBare (m : MessageState) : Type 0 where
  pub no_content : m.content_length ≡ 0
  pub size : length m.content_type ≡ content_type_size
  pub terminated : get_or m.content_type 63 1 ≡ 0

module _ {C : Type 0} where
  -- The step ends: `E` holds of the world it stops at, `P` of the world it leaves for the next step.
  abbrev pub Ends : {A : Type 0} → (World C → Type 0) → (A → World C → Type 0) → Out C A → Type 0
  Ends E P (went a w) = P a w
  Ends E P (stopped w) = E w
  Ends E P starved = ⊥

  pub bind-Ends :
      {A B : Type 0} (E : World C → Type 0) (Q : A → World C → Type 0) (P : B → World C → Type 0)
      (r : Out C A) (f : A → Step C B)
      → Ends E Q r
      → ((a : A) (w : World C) → Q a w → Ends E P (f a w))
      → Ends E P (bind r f)
  bind-Ends E Q P (went a w) f h k = k a w h
  bind-Ends E Q P (stopped w) f h k = h
  bind-Ends E Q P starved f h k = absurd h

  -- The parser stands at a given progress, has met no content, and the buffer is not longer than
  -- a given bound.
  pub record Holds (p : Progress) (n : ℕ) (w : World C) : Type 0 where
    pub stands : w.parser.parser_state.progress ≡ p
    pub unloaded : w.parser.parser_state.content_loaded ≡ 0
    pub bare : IsBare w.parser.message_state
    pub short : length w.buffer ≤ n

  -- A step that stays where it is.
  abbrev pub Stays : {A : Type 0} → Progress → ℕ → Out C A → Type 0
  Stays p n r = Ends (Holds p n) (λ _. Holds p n) r

module _ {C : Type 0} (p : Progress) (n : ℕ) where
  pub Holds-stack :
      (w : World C) (s : ErrorStack) → Holds p n w → Holds p n (record w { stack = s })
  Holds-stack w s v = record {
    stands = v.stands;
    unloaded = v.unloaded;
    bare = v.bare;
    short = v.short;
  }

  pub Holds-buffer :
      (w : World C) (b : Bytes) → length b ≤ n → Holds p n w → Holds p n (record w { buffer = b })
  Holds-buffer w b h v = record {
    stands = v.stands;
    unloaded = v.unloaded;
    bare = v.bare;
    short = h;
  }

  -- Where the call returns false, any postcondition of the other case holds.
  pub refuse-Ends :
      (P : Done → World C → Type 0) (text : String) (status : ℕ) (w : World C)
      → Holds p n w
      → Ends (Holds p n) P (refuse text status w)
  unfolding refuse
  refuse-Ends P text status w v = Holds-stack w _ v

  pub underflow-Ends :
      (P : Done → World C → Type 0) (w : World C) → Holds p n w → Ends (Holds p n) P (underflow w)
  unfolding underflow
  underflow-Ends P w v = Holds-stack w _ v

  -- A test that lets pass only what meets it.
  pub require-Ends :
      (b : Bool) (text : String) (status : ℕ) (w : World C)
      → Holds p n w
      → Ends (Holds p n) (λ _ w'. Holds p n w' × (b ≡ true)) (require b text status w)
  unfolding require
  require-Ends true text status w v = (v, refl)
  require-Ends false text status w v = refuse-Ends _ text status w v

  called-Stays : (w : World C) (r : Bool × C × ErrorStack) → Holds p n w → Stays p n (called w r)
  unfolding called
  called-Stays w (true, c, s) v = record {
    stands = v.stands;
    unloaded = v.unloaded;
    bare = v.bare;
    short = v.short;
  }
  called-Stays w (false, c, s) v = record {
    stands = v.stands;
    unloaded = v.unloaded;
    bare = v.bare;
    short = v.short;
  }

  pub call-Stays : (op : Option (Callback C)) (w : World C) → Holds p n w → Stays p n (call op w)
  unfolding call
  call-Stays none w v = v
  call-Stays (some f) w v = called-Stays w _ v

  pub change_message-Stays :
      (f : MessageState → MessageState) (w : World C)
      → (IsBare w.parser.message_state → IsBare (f w.parser.message_state))
      → Holds p n w
      → Stays p n (change_message f w)
  change_message-Stays f w keeps v = record {
    stands = v.stands;
    unloaded = v.unloaded;
    bare = keeps v.bare;
    short = v.short;
  }

  -- A step that stays, and a test, with what follows them.
  module _ (P : Done → World C → Type 0) (f : Step C Done) where
    pub after-Stays :
        (r : Out C Done)
        → Stays p n r
        → ((w : World C) → Holds p n w → Ends (Holds p n) P (f w))
        → Ends (Holds p n) P (bind r (λ _. f))
    after-Stays r h k = bind-Ends (Holds p n) (λ _. Holds p n) P r (λ _. f) h (λ _. k)

    pub after-require :
        (b : Bool) (text : String) (status : ℕ) (w : World C)
        → Holds p n w
        → ((w : World C) → Holds p n w → b ≡ true → Ends (Holds p n) P (f w))
        → Ends (Holds p n) P (bind (require b text status w) (λ _. f))
    after-require b text status w v k =
        bind-Ends (Holds p n) (λ _ w'. Holds p n w' × (b ≡ true)) P (require b text status w)
          (λ _. f) (require-Ends b text status w v) (λ _ w' (v', h). k w' v' h)
