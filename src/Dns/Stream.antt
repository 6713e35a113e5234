-- ===== src/Dns/Stream.antt =====
-- The answers are a stream of bytes: it does not matter how `read` cuts it.
use femc_driver.Prelude.{
  ℕ, ◌+◌, ◌-◌, ◌≤◌, ◌<◌, ◌≡◌, ◌≢◌, refl, ap, sym, ◌∙◌, Bool, true, false, not, Option, none, some,
  List, [], ◌∷◌, ◌++◌, arith, length, All, ==-true, if-no, length-append,
}
use femc_driver.Backend.{Backend}
use femc_driver.ErrorStack.{error_stack_size, push_context, fdu_context_dnsserv, ErrorStack}
use femc_driver.ErrorStack.Contexts.{push_context-room}
use femc_driver.Dns.{
  Bytes, Query, DnsService, World, System, buffer_size, lines, and_then, free_dns_query_node, pop,
  remove_input, take_off, answer_first, answer_line, answer_lines, kept, is_self, got, got_with,
  got_answer, with_stack,
}
use femc_driver.Dns.Feeding.{
  View, feed, after, after_lines, feed-after, lines-glue, lines-lacks, length-lines,
}

-- `tail` is null just where no query waits.
abbrev pub is_nil : List Query → Bool
is_nil [] = true
is_nil (q ∷ qs) = false

abbrev pub IsLinked : DnsService → Type 0
IsLinked s = s.has_tail ≡ not (is_nil s.queue)

module _ {F K : Type 0} (api : Backend F) (tell : Query → Option Bytes → K → K) where
  -- A callback that changes nothing but its own state.
  abbrev pub listening : Query → Option Bytes → World F K → World F K
  listening q a w = record w { client = tell q a w.client }

  abbrev pub view : DnsService → World F K → View K
  view s w = record { queue = s.queue; partial = w.buffer; client = w.client }

  -- One line has been answered.
  record Steps (l : Bytes) (s : DnsService) (w : World F K) : Type 0 where
    s₁ : DnsService
    w₁ : World F K
    runs : answer_line api listening l w.service w ≡ some w₁
    alive : w₁.service ≡ some s₁
    same : s₁.self ≡ s.self
    linked : IsLinked s → IsLinked s₁
    sees :
        (ls : List Bytes) (rest : Bytes)
        → after tell (l ∷ ls) rest s.queue w.client ≡ after tell ls rest s₁.queue w₁.client

  answer_line-runs :
      (l : Bytes) (s : DnsService) (qs : List Query) (w : World F K)
      → w.service ≡ some s
      → s.queue ≡ qs
      → answer_line api listening l w.service w ≡ some (answer_first api listening l s qs w)
  unfolding answer_line
  answer_line-runs l s qs w e eq =
      ap (λ o. answer_line api listening l o w) e
      ∙ ap (λ (r : List Query). some (answer_first api listening l s r w)) eq

  answer_line-Steps :
      (l : Bytes) (s : DnsService) (qs : List Query) (w : World F K)
      → w.service ≡ some s
      → s.queue ≡ qs
      → Steps l s w
  unfolding answer_first take_off remove_input free_dns_query_node after
  answer_line-Steps l s [] w e eq = record {
    s₁ = s;
    w₁ = w;
    runs = answer_line-runs l s [] w e eq;
    alive = e;
    same = refl;
    linked = λ h. h;
    sees = λ ls rest.
        ap (λ (r : List Query). after tell (l ∷ ls) rest r w.client) eq
        ∙ ap (λ (r : List Query). after tell ls rest r w.client) (sym eq);
  }
  answer_line-Steps l s (q ∷ []) w e eq = record {
    s₁ = record s { queue = []; has_tail = false };
    w₁ = answer_first api listening l s (q ∷ []) w;
    runs = answer_line-runs l s (q ∷ []) w e eq;
    alive = refl;
    same = refl;
    linked = λ h. refl;
    sees = λ ls rest. ap (λ (r : List Query). after tell (l ∷ ls) rest r w.client) eq;
  }
  answer_line-Steps l s (q ∷ r ∷ rs) w e eq = record {
    s₁ = record s { queue = r ∷ rs };
    w₁ = answer_first api listening l s (q ∷ r ∷ rs) w;
    runs = answer_line-runs l s (q ∷ r ∷ rs) w e eq;
    alive = refl;
    same = refl;
    linked = λ h. h ∙ ap (λ (t : List Query). not (is_nil t)) eq;
    sees = λ ls rest. ap (λ (r : List Query). after tell (l ∷ ls) rest r w.client) eq;
  }

  -- The lines have been answered: the queries are those that are left.
  record Answered (ls : List Bytes) (rest : Bytes) (s : DnsService) (w : World F K) : Type 0 where
    s' : DnsService
    w' : World F K
    runs : answer_lines api listening ls w ≡ some w'
    alive : w'.service ≡ some s'
    same : s'.self ≡ s.self
    linked : IsLinked s → IsLinked s'
    sees :
        after tell ls rest s.queue w.client
        ≡ record { queue = s'.queue; partial = rest; client = w'.client }

  answer_lines-Answered :
      (ls : List Bytes) (rest : Bytes) (s : DnsService) (qs : List Query) (w : World F K)
      → w.service ≡ some s
      → s.queue ≡ qs
      → Answered ls rest s w
  unfolding answer_lines and_then after
  answer_lines-Answered [] rest s qs w e eq = record {
    s' = s;
    w' = w;
    runs = refl;
    alive = e;
    same = refl;
    linked = λ h. h;
    sees = refl;
  }
  answer_lines-Answered (l ∷ ls) rest s qs w e eq =
      let one = answer_line-Steps l s qs w e eq in
      let later = answer_lines-Answered ls rest one.s₁ one.s₁.queue one.w₁ one.alive refl in
      record {
        s' = later.s';
        w' = later.w';
        runs = ap (λ r. and_then r (answer_lines api listening ls)) one.runs ∙ later.runs;
        alive = later.alive;
        same = later.same ∙ one.same;
        linked = λ h. later.linked (one.linked h);
        sees = one.sees ls rest ∙ later.sees;
      }

  -- The bytes have been fed to the stream that the queries see.
  pub record Fed (chunk : Bytes) (s : DnsService) (v : View K) (r : Option (Bool × World F K))
      : Type 0 where
    pub returned : Bool
    pub s' : DnsService
    pub w' : World F K
    pub returns : r ≡ some (returned, w')
    pub alive : w'.service ≡ some s'
    pub same : s'.self ≡ s.self
    pub linked : IsLinked s → IsLinked s'
    pub feeds : view s' w' ≡ feed tell chunk v
    pub no_newline : All (λ c. c ≢ 10) w'.buffer
    pub fits : length w'.buffer ≤ buffer_size

  got-Fed :
      (sys : System) (ectx c : ℕ) (cs : Bytes) (errno : ℕ) (s : DnsService) (w : World F K)
      → w.service ≡ some s
      → All (λ x. x ≢ 10) w.buffer
      → length w.buffer + length (c ∷ cs) ≤ buffer_size
      → Fed (c ∷ cs) s (view s w) (got api listening sys ectx (some (c ∷ cs), errno) w)
  unfolding got kept pop
  got-Fed sys ectx c cs errno s w e lacks fits =
      let text = w.buffer ++ c ∷ cs in
      let rest = (lines text).1 in
      let all =
        answer_lines-Answered (lines text).0 rest s s.queue (record w { buffer = text }) e refl in
      let world = (pop ectx (record all.w' { buffer = rest })).1 in
      record {
        returned = (pop ectx (record all.w' { buffer = rest })).0;
        s' = all.s';
        w' = world;
        returns = ap (kept api listening ectx rest) all.runs;
        alive = all.alive;
        same = all.same;
        linked = all.linked;
        feeds = sym (
            feed-after tell (c ∷ cs) w.buffer s.queue w.client
            ∙ ap (λ r. after_lines tell r s.queue w.client)
                (sym (lines-glue w.buffer (c ∷ cs) lacks))
            ∙ all.sees);
        no_newline = lines-lacks text;
        fits = omega (arith, length-lines text, length-append w.buffer (c ∷ cs));
      }

  got_with-Fed :
      (sys : System) (self c : ℕ) (cs : Bytes) (errno ectx : ℕ) (s : DnsService) (w : World F K)
      (stack : ErrorStack)
      → w.service ≡ some s
      → s.self ≡ self
      → All (λ x. x ≢ 10) w.buffer
      → sys.read (buffer_size - length w.buffer) ≡ (some (c ∷ cs), errno)
      → length w.buffer + length (c ∷ cs) ≤ buffer_size
      → Fed (c ∷ cs) s (view s w) (got_with api listening sys self w (some ectx, stack))
  unfolding got_with
  got_with-Fed sys self c cs errno ectx s w stack e is lacks reads fits =
      let runs : got_with api listening sys self w (some ectx, stack)
          ≡ got api listening sys ectx (some (c ∷ cs), errno) (with_stack stack w) =
        if-no (not (is_self self w.service)) _
          (ap (λ o. not (is_self self o)) e ∙ ap not (==-true s.self self is))
        ∙ ap (λ r. got api listening sys ectx r (with_stack stack w)) reads in
      rw runs (got-Fed sys ectx c cs errno s (with_stack stack w) e lacks fits)

  -- `fdu_dns_service_got_answer` of the service that runs, where `read` gives some bytes, no more
  -- than there is space for, callbacks change only their own state, and a slot of the error stack is
  -- free. The call returns and the service is there. What it does is as if each byte that was read
  -- were fed to a machine: a newline ends the answer to the first query that waits, which is told it
  -- and waits no more, or is dropped if none waits; another byte is put behind what is kept. So it
  -- does not matter how the stream is cut. What is kept has no newline and fits into the buffer.
  pub got_answer-Fed :
      (sys : System) (self c : ℕ) (cs : Bytes) (errno : ℕ) (s : DnsService) (w : World F K)
      → length w.stack.nodes < error_stack_size
      → w.service ≡ some s
      → s.self ≡ self
      → All (λ x. x ≢ 10) w.buffer
      → sys.read (buffer_size - length w.buffer) ≡ (some (c ∷ cs), errno)
      → length w.buffer + length (c ∷ cs) ≤ buffer_size
      → Fed (c ∷ cs) s (view s w) (got_answer api listening sys self w)
  unfolding got_answer
  got_answer-Fed sys self c cs errno s w room e is lacks reads fits =
      let s1 = (push_context fdu_context_dnsserv none w.stack).1 in
      let (ptr, _, _, _) = push_context-room fdu_context_dnsserv none w.stack room in
      rw (ap (λ o. got_with api listening sys self w (o, s1)) ptr)
        (got_with-Fed sys self c cs errno (length w.stack.nodes) s w s1 e is lacks reads fits)
