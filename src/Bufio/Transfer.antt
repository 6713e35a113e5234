-- ===== src/Bufio/Transfer.antt =====
-- utils.c: `fdu_bufio_transfer` between two buffers.
pub mod Streams
use femc_driver.Prelude.{
  ℕ, ◌+◌, ◌-◌, ◌%◌, ◌^◌, Bool, Option, none, some, List, ltb, ◌==◌, if◌then◌else◌,
}
use femc_driver.Memory.{Memory, load_bytes, copy}
use femc_driver.Bufio.{Service}

-- The bytes that wait in a buffer.
unfoldable pub contents : Service → Memory → List ℕ
unfolding load_bytes
contents s m = load_bytes s.data_begin s.filled m

-- What a transfer returns and leaves.
pub record Transferred : Type 0 where
  pub bytes : ℕ
  pub dst : Service
  pub src : Service
  pub mem : Memory

-- The number of bytes: what is offered, but not more than the space.
unfoldable pub fitting : Service → Service → ℕ
fitting dst src =
    let space = (dst.size + 2 ^ 32 - dst.filled) % 2 ^ 32 in
    if ltb src.filled space then src.filled else space

-- Two different buffers, in one memory.
unfoldable pub transferred : Service → Service → Memory → Transferred
unfolding fitting copy
transferred dst src m =
    let bytes = fitting dst src in
    let left = (src.filled + 2 ^ 32 - bytes) % 2 ^ 32 in
    let m₁ = copy (dst.data_begin + dst.filled) src.data_begin bytes m in
    if bytes == 0 then record { bytes = 0; dst = dst; src = src; mem = m } else record {
      bytes = bytes;
      dst = record dst { filled = (dst.filled + bytes) % 2 ^ 32 };
      src = record src { filled = left };
      mem = if left == 0 then m₁ else copy src.data_begin (src.data_begin + bytes) left m₁;
    }
