-- ===== src/Dns/Asking.antt =====
-- A query is sent to the helper, and waits behind those that wait already.
use femc_driver.Prelude.{
  ℕ, ◌%◌, ◌^◌, ◌<◌, ◌≡◌, refl, ap, sym, ◌∙◌, Bool, true, false, not, Option, none, some, List, [],
  ◌∷◌, ◌++◌, arith, length, leb, if-no,
}
use femc_driver.Backend.{Backend, input}
use femc_driver.ErrorStack.{error_stack_size, push_context, fdu_context_dnsserv, ErrorStack}
use femc_driver.ErrorStack.Contexts.{push_context-room}
use femc_driver.Safe.{write_loop}
use femc_driver.Safe.Writes.{Sends, write_loop-Sends}
use femc_driver.Dns.{
  Bytes, Query, DnsService, World, System, tmp_buffer_size, pop, with_stack, with_service, enqueue,
  popped, asked, new_dns_query_node, written, send, lookup_checked, lookup_arguments, lookup_with,
  dnsserv_lookup,
}
use femc_driver.Dns.Stream.{IsLinked, is_nil}

-- Enough for a node.
abbrev pub HasNode : System → ℕ → Type 0
HasNode sys free = (n : ℕ) × (new_dns_query_node sys free ≡ some n)

module _ {F K : Type 0} (api : Backend F)
    (told : Query → Option Bytes → World F K → World F K) where
  -- The query has been put at the end of the list, and some bytes have been sent.
  pub record Asked (q : Query) (bytes : Bytes) (s : DnsService) (w : World F K)
      (r : Option (Bool × World F K)) : Type 0 where
    pub returned : Bool
    pub s' : DnsService
    pub w' : World F K
    pub returns : r ≡ some (returned, w')
    pub alive : w'.service ≡ some s'
    pub queued : s'.queue ≡ s.queue ++ q ∷ []
    pub linked : IsLinked s'
    pub sends : w'.sent ≡ w.sent ++ bytes
    pub buffer : w'.buffer ≡ w.buffer
    pub client : w'.client ≡ w.client

  module _ (q : Query) (bytes : Bytes) (s : DnsService) (ectx : ℕ) where
    enqueue-Asked :
        (b : Bool) (qs : List Query) (n : ℕ) (stack : ErrorStack) (w : World F K)
        → s.queue ≡ qs
        → b ≡ not (is_nil qs)
        → s.has_tail ≡ b
        → Asked q bytes s w (
            popped api told ectx (
              enqueue api told q s b qs
                (record w { stack = stack; sent = w.sent ++ bytes; free_nodes = n })))
    unfolding enqueue popped pop
    enqueue-Asked false [] n stack w e h t =
        let (_, f, stack') = api.add input s.fd_in s.iserv w.backend stack in
        let r = pop ectx (record w {
          backend = f;
          stack = stack';
          service = some (record s { queue = q ∷ []; has_tail = true });
          sent = w.sent ++ bytes;
          free_nodes = n;
        }) in
        record {
          returned = r.0;
          s' = record s { queue = q ∷ []; has_tail = true };
          w' = r.1;
          returns = refl;
          alive = refl;
          queued = ap (λ (l : List Query). l ++ q ∷ []) (sym e);
          linked = refl;
          sends = refl;
          buffer = refl;
          client = refl;
        }
    enqueue-Asked true [] n stack w e h t = absurd (cc h)
    enqueue-Asked false (p ∷ ps) n stack w e h t = absurd (cc h)
    enqueue-Asked true (p ∷ ps) n stack w e h t =
        let s₁ : DnsService = record s { queue = (p ∷ ps) ++ q ∷ [] } in
        let r =
          pop ectx (
            with_service s₁ (record w { stack = stack; sent = w.sent ++ bytes; free_nodes = n })) in
        record {
          returned = r.0;
          s' = s₁;
          w' = r.1;
          returns = refl;
          alive = refl;
          queued = ap (λ (l : List Query). l ++ q ∷ []) (sym e);
          linked = t;
          sends = refl;
          buffer = refl;
          client = refl;
        }

    -- Where a node was to be had.
    asked-Asked :
        (n : ℕ) (stack : ErrorStack) (w : World F K)
        → IsLinked s
        → Asked q bytes s w
            (asked api told q s ectx (some n) (record w { stack = stack; sent = w.sent ++ bytes }))
    unfolding asked
    asked-Asked n stack w h = enqueue-Asked s.has_tail s.queue n stack w refl h refl

  written-Asked :
      (sys : System) (q : Query) (all : Bytes) (s : DnsService) (ectx : ℕ) (w : World F K)
      (stack : ErrorStack) (r : Option Bool × Bytes × ErrorStack)
      → IsLinked s
      → HasNode sys w.free_nodes
      → Sends all stack r
      → r.0 ≡ some true
      → Asked q all s w (written api told sys q s ectx r w)
  unfolding written
  written-Asked sys q all s ectx w stack (none, sent, stack') h node sends is = absurd (cc is)
  written-Asked sys q all s ectx w stack (some false, sent, stack') h node sends is = absurd (cc is)
  written-Asked sys q all s ectx w stack (some true, sent, stack') h (n, node) (e, _) is =
      let runs : asked api told q s ectx (new_dns_query_node sys w.free_nodes)
            (record w { stack = stack'; sent = w.sent ++ sent })
          ≡ asked api told q s ectx (some n) (record w { stack = stack'; sent = w.sent ++ all }) =
        ap (λ o. asked api told q s ectx o (record w { stack = stack'; sent = w.sent ++ sent }))
          node
        ∙ ap
            (λ (b : Bytes).
              asked api told q s ectx (some n) (record w { stack = stack'; sent = w.sent ++ b }))
            e in
      rw runs (asked-Asked q all s ectx n stack' w h)

  -- Nothing is said of the error stack.
  same_world :
      (stack : ErrorStack) (w : World F K) {q : Query} {bytes : Bytes} {s : DnsService}
      {r : Option (Bool × World F K)}
      → Asked q bytes s (with_stack stack w) r
      → Asked q bytes s w r
  same_world stack w a = record {
    returned = a.returned;
    s' = a.s';
    w' = a.w';
    returns = a.returns;
    alive = a.alive;
    queued = a.queued;
    linked = a.linked;
    sends = a.sends;
    buffer = a.buffer;
    client = a.client;
  }

  -- `fdu_dnsserv_lookup` of a name of 3 to 254 bytes, where the service runs, `fdu_safe_write` returns
  -- true, there is a node and a slot of the error stack is free. The call returns, the name and a
  -- newline have been sent, and the query waits behind those that waited before.
  pub dnsserv_lookup-Asked :
      (sys : System) (start : World F K → Bool × World F K) (name : Bytes) (q : Query)
      (s : DnsService) (w : World F K)
      → length w.stack.nodes < error_stack_size
      → w.service ≡ some s
      → IsLinked s
      → 2 < length name
      → length name < tmp_buffer_size
      → HasNode sys w.free_nodes
      → (write_loop sys.write sys.fuel 0
          (name ++ 10 ∷ [])
          []
          (push_context fdu_context_dnsserv none w.stack).1).0
        ≡ some true
      → Asked q (name ++ 10 ∷ []) s w (dnsserv_lookup api told sys start (some name) (some q) w)
  unfolding dnsserv_lookup lookup_with lookup_arguments lookup_checked send
  dnsserv_lookup-Asked sys start name q s w room e h lo hi node ok =
      let s1 = (push_context fdu_context_dnsserv none w.stack).1 in
      let (ptr, _, _, _) = push_context-room fdu_context_dnsserv none w.stack room in
      let ectx = length w.stack.nodes in
      let sent = write_loop sys.write sys.fuel 0 (name ++ 10 ∷ []) [] s1 in
      let runs : dnsserv_lookup api told sys start (some name) (some q) w
          ≡ written api told sys q s ectx sent (with_stack s1 w) =
        ap (λ o. lookup_with api told sys start (some name) (some q) w (o, s1)) ptr
        ∙ if-no (leb (length name % 2 ^ 32) 2) _ (ground arith)
        ∙ ap (λ o. lookup_checked api told sys start name q ectx o (with_stack s1 w)) e
        ∙ if-no (leb tmp_buffer_size (length name % 2 ^ 32)) _ (ground arith) in
      rw runs (
        same_world s1 w (
          written-Asked sys q (name ++ 10 ∷ []) s ectx (with_stack s1 w) s1 sent h node
            (write_loop-Sends sys.write sys.fuel 0 (name ++ 10 ∷ []) [] s1) ok))
