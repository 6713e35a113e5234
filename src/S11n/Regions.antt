-- ===== src/S11n/Regions.antt =====
-- `fdu_s11n_write_bytes` and `fdu_s11n_read_bytes`.
use femc_driver.Prelude.{
  ℕ, ◌+◌, ◌^◌, ◌<◌, ◌≡◌, ◌≢◌, ◌⊎◌, ◌≤◌, refl, Bool, true, some, arith, if◌then◌else◌,
}
use femc_driver.Memory.{copy, store, copy-at}
use femc_driver.S11n.{State, Reply, moved, region_size, read_bytes, write_bytes}
use femc_driver.S11n.Integers.{Fits}

-- A region of `n` bytes that is not at the null address and whose size an uint32_t holds.
pub record IsRegion (start n : ℕ) : Type 0 where
  pub ne_null : start ≢ 0
  pub small : n < 2 ^ 32

-- Two places of `n` bytes that do not overlap.
abbrev pub Apart : ℕ → ℕ → ℕ → Type 0
Apart p q n = (p + n ≤ q) ⊎ (q + n ≤ p)

region_size_lem : (start n : ℕ) → n < 2 ^ 32 → region_size start (start + n) ≡ n
region_size_lem start n h = omega arith

write_bytes-Fits :
    (from n p end : ℕ) (s : State)
    → IsRegion from n
    → Fits p end n
    → write_bytes from (from + n) (some p) end s ≡ moved n (some p) (copy p from n s.mem) s
unfolding write_bytes
write_bytes-Fits from n p end s r f =
    ground (arith, region_size_lem from n r.small, r.ne_null, f.p_ne, f.inside)

read_bytes-Fits :
    (to n p end : ℕ) (write_null : Bool) (s : State)
    → IsRegion to n
    → Fits p end n
    → read_bytes to (to + n) (some p) end write_null s
      ≡ moved n
          (some p)
          (if write_null then store (to + n) 0 (copy to p n s.mem) else copy to p n s.mem)
          s
unfolding read_bytes
read_bytes-Fits to n p end write_null s r f =
    ground (arith, region_size_lem to n r.small, r.ne_null, f.p_ne, f.inside)

module _ (from to n p end : ℕ) (write_null : Bool) (s : State) where
  -- The state after the write, and that after the read of the same bytes.
  abbrev pub sent : Reply
  sent = write_bytes from (from + n) (some p) end s

  abbrev pub received : Reply
  received = read_bytes to (to + n) (some p) end write_null sent.state

  module _ (rf : IsRegion from n) (rt : IsRegion to n) (f : Fits p end n)
      (apart_from : Apart from p n) (apart_to : Apart to p n) where
    arrived :
        (i : ℕ)
        → i < n
        → (if write_null
              then store (to + n) 0 (copy to p n (copy p from n s.mem))
              else copy to p n (copy p from n s.mem))
            (to + i)
          ≡ s.mem (from + i)
    unfolding store
    arrived i h =
        ground (arith, copy-at to p n i (copy p from n s.mem) h, copy-at p from n i s.mem h)

    -- The bytes of a region that is written where they fit are those that a read of the same length at
    -- the same place delivers to another region: byte `i` of it is byte `i` of the first region, as it
    -- was. Neither region overlaps the bytes of the buffer, as `memcpy` wants it, neither is at the
    -- null address, and their size is below 2 ^ 32. Both calls succeed and leave `*datap` behind the
    -- bytes, and the read adds a zero byte where it is asked to.
    pub read_bytes-write_bytes :
        (sent.ok ≡ true)
        × (sent.datap ≡ some (p + n))
        × (received.ok ≡ true)
        × (received.datap ≡ some (p + n))
        × ((i : ℕ) → i < n → received.state.mem (to + i) ≡ s.mem (from + i))
        × (write_null ≡ true → received.state.mem (to + n) ≡ 0)
    unfolding moved store
    read_bytes-write_bytes =
        let w = write_bytes-Fits from n p end s rf f in
        rw (w, read_bytes-Fits to n p end write_null _ rt f)
          (refl, refl, refl, refl, arrived, λ e. ground arith)
