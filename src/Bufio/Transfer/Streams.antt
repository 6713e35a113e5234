-- ===== src/Bufio/Transfer/Streams.antt =====
-- A transfer moves bytes from the front of one stream to the end of the other.
use femc_driver.Prelude.{
  ℕ, ◌+◌, ◌-◌, ◌%◌, ◌^◌, ◌<◌, ◌≤◌, ◌≡◌, refl, sym, ◌∙◌, ◌⊎◌, inl, inr, ◌++◌, ltb, ◌==◌,
  if◌then◌else◌, arith, Bool-cases, eq-==, lt-ltb, le-ltb, min,
}
use mathlib.Core.List.{append_assoc}
use femc_driver.Memory.{
  Memory, load_bytes, copy, copy-at, copy_outside, load_bytes-append, load_bytes-same,
}
use femc_driver.Bufio.{Service}
use femc_driver.Bufio.Transfer.{contents, fitting, transferred}

-- A buffer that holds no more than its size, which an uint32_t can count.
abbrev pub Fits : Service → Type 0
Fits s = (s.filled ≤ s.size) × (s.size < 2 ^ 32)

abbrev pub Disjoint : Service → Service → Type 0
Disjoint s t = (s.data_begin + s.size ≤ t.data_begin) ⊎ (t.data_begin + t.size ≤ s.data_begin)

pub fitting-min :
    (dst src : Service) → Fits dst → fitting dst src ≡ min src.filled (dst.size - dst.filled)
unfolding fitting
fitting-min dst src (h, k) =
    let space : (dst.size + 2 ^ 32 - dst.filled) % 2 ^ 32 ≡ dst.size - dst.filled =
      omega (arith, h, k) in
    rw space (ground arith)

module _ (dst src : Service) (m : Memory) (d : Fits dst) (s : Fits src)
    (apart : Disjoint dst src) where
  b : ℕ
  b = fitting dst src

  left : ℕ
  left = src.filled - b

  m₁ : Memory
  m₁ = copy (dst.data_begin + dst.filled) src.data_begin b m

  m₂ : Memory
  m₂ = copy src.data_begin (src.data_begin + b) left m₁

  b-min : (b ≤ src.filled) × (dst.filled + b ≤ dst.size)
  unfolding b
  b-min = rw (fitting-min dst src d) (omega (arith, d.0), omega (arith, d.0))

  -- What `dst` held, what is moved, and what is left.
  old : load_bytes dst.data_begin dst.filled m₂ ≡ load_bytes dst.data_begin dst.filled m
  unfolding m₁ m₂ left
  old = load_bytes-same dst.filled dst.data_begin dst.data_begin m _ (λ i lt.
      copy_outside src.data_begin (src.data_begin + b) (src.filled - b) (dst.data_begin + i) _
        (outside i lt apart)
      ∙ copy_outside (dst.data_begin + dst.filled) src.data_begin b (dst.data_begin + i) m
          (inl (omega arith)))
    where
      outside :
          (i : ℕ)
          → i < dst.filled
          → Disjoint dst src
          → (dst.data_begin + i < src.data_begin)
            ⊎ (src.data_begin + (src.filled - b) ≤ dst.data_begin + i)
      outside i lt (inl h) = inl (omega (arith, d.0))
      outside i lt (inr h) = inr (omega (arith, s.0))

  moved : load_bytes (dst.data_begin + dst.filled) b m₂ ≡ load_bytes src.data_begin b m
  unfolding m₁ m₂ left
  moved = load_bytes-same b (dst.data_begin + dst.filled) src.data_begin m _ (λ i lt.
      copy_outside src.data_begin (src.data_begin + b) (src.filled - b)
        (dst.data_begin + dst.filled + i) _ (outside i lt apart)
      ∙ copy-at (dst.data_begin + dst.filled) src.data_begin b i m lt)
    where
      outside :
          (i : ℕ)
          → i < b
          → Disjoint dst src
          → (dst.data_begin + dst.filled + i < src.data_begin)
            ⊎ (src.data_begin + (src.filled - b) ≤ dst.data_begin + dst.filled + i)
      outside i lt (inl h) = inl (omega (arith, b-min.1))
      outside i lt (inr h) = inr (omega (arith, s.0))

  rest : load_bytes src.data_begin left m₂ ≡ load_bytes (src.data_begin + b) left m
  unfolding m₁ m₂ left
  rest = load_bytes-same (src.filled - b) src.data_begin (src.data_begin + b) m _ (λ i lt.
      copy-at src.data_begin (src.data_begin + b) (src.filled - b) i _ lt
      ∙ copy_outside (dst.data_begin + dst.filled) src.data_begin b (src.data_begin + b + i) m
          (outside i lt apart))
    where
      outside :
          (i : ℕ)
          → i < src.filled - b
          → Disjoint dst src
          → (src.data_begin + b + i < dst.data_begin + dst.filled)
            ⊎ (dst.data_begin + dst.filled + b ≤ src.data_begin + b + i)
      outside i lt (inl h) = inr (omega (arith, b-min.1))
      outside i lt (inr h) = inl (omega (arith, s.0))

  none_left : left ≡ 0 → m₁ ≡ m₂
  unfolding m₂
  none_left e i a = (at e a) i
    where
      beyond : left ≡ 0 → (a : ℕ) → (a < src.data_begin) ⊎ (src.data_begin + left ≤ a)
      beyond e a = elim (Bool-cases (ltb a src.data_begin)) [
        | inl h ↦ inl (lt-ltb a src.data_begin h)
        | inr h ↦ inr (rw e (omega (arith, le-ltb a src.data_begin h)))
      ]

      at : left ≡ 0 → (a : ℕ) → m₁ a ≡ copy src.data_begin (src.data_begin + b) left m₁ a
      at e a = sym (copy_outside src.data_begin (src.data_begin + b) left a m₁ (beyond e a))

  mem_lem : (if left == 0 then m₁ else m₂) ≡ m₂
  mem_lem = elim (Bool-cases (left == 0)) [
    | inl h ↦ rw h (none_left (eq-== left 0 h))
    | inr h ↦ rw h refl
  ]

  whole : b + left ≡ src.filled
  unfolding left
  whole = omega (arith, b-min.0)

  stream :
      load_bytes dst.data_begin (dst.filled + b) m₂ ++ load_bytes src.data_begin left m₂
      ≡ load_bytes dst.data_begin dst.filled m ++ load_bytes src.data_begin src.filled m
  stream =
      rw (load_bytes-append dst.filled b dst.data_begin m₂, old, moved, rest)
        (rw
          (
            append_assoc (load_bytes dst.data_begin dst.filled m) (load_bytes src.data_begin b m)
                (load_bytes (src.data_begin + b) left m),
            ← load_bytes-append b left src.data_begin m,
            whole,
          )
          refl)

  -- `fdu_bufio_transfer` between two buffers that hold no more than their sizes and do not overlap.
  -- What `dst` and then `src` hold is the same stream of bytes before and after. As many bytes are
  -- moved as are offered, or as there is space for when that is less; that number is returned, and
  -- the counts of both buffers change by it and stay within the sizes.
  pub transferred-stream :
      let r = transferred dst src m in
      (contents r.dst r.mem ++ contents r.src r.mem ≡ contents dst m ++ contents src m)
      × (r.bytes ≡ min src.filled (dst.size - dst.filled))
      × (r.dst.filled ≡ dst.filled + r.bytes)
      × (r.src.filled + r.bytes ≡ src.filled)
      × Fits r.dst
      × Fits r.src
  unfolding transferred contents b m₁ m₂ left
  transferred-stream =
      let (p, q) = b-min in
      let n = fitting-min dst src d in
      let fits : (dst.filled + fitting dst src) % 2 ^ 32 ≡ dst.filled + fitting dst src =
        omega (arith, d.1) in
      let less : (src.filled + 2 ^ 32 - fitting dst src) % 2 ^ 32 ≡ src.filled - fitting dst src =
        omega (arith, s.0, s.1) in
      elim (Bool-cases (fitting dst src == 0)) [
        | inl h ↦
            let zero_bytes = eq-== (fitting dst src) 0 h in
            rw h (refl, sym zero_bytes ∙ n, omega arith, omega arith, d, s)
        | inr h ↦
            rw (h, fits, less, mem_lem)
              (stream, n, refl, omega arith, (omega arith, d.1), (omega (arith, s.0), s.1))
      ]
