-- ===== src/Can/Order.antt =====
-- The binary form in either byte order: the functions that set the network order and set it back.
use femc_driver.Prelude.{ℕ, ◌+◌, ◌≡◌, refl, Bool, true, none, some, ◌++◌, length, take, drop}
use femc_driver.ErrorStack.{push_context, pop_context, fdu_context_can}
use femc_driver.ErrorStack.Contexts.{HasRoom, pop-push, push_context-room}
use femc_driver.Memory.{Memory}
use femc_driver.S11n.{Endianness, big_endian, little_endian, State, set_endianness, get_endianness}
use femc_driver.Can.{
  CanFrame, CanReply, read_can_bin', in_network_order, read_can_bin, write_can_bin,
}
use femc_driver.Can.Ids.{id_size}
use femc_driver.Can.RoundTrip.{
  Sendable, wrote, arrived, took, write_can_bin'-Sendable, read_checked-Sendable,
}

abbrev inner : State → State
inner s = record s { stack = (push_context fdu_context_can none s.stack).1 }

module _ (e : Bool) (f old : CanFrame) (p end : ℕ) (m : Memory) where
  read_can_bin'-Sendable :
      (s : State) (net : s.endianness ≡ big_endian)
      → Sendable e f p end
      → HasRoom s.stack
      → read_can_bin' (some old) (some p) end (arrived f old p end s net m e)
        ≡ took f old p end
            (inner s)
            net
            m
            e
            (pop_context fdu_context_can (some (length s.stack.nodes)) (inner s).stack)
  unfolding read_can_bin' arrived
  read_can_bin'-Sendable s net ok (v, room) =
      let (ptr, _, _, _) = push_context-room fdu_context_can none s.stack room in
      rw (ptr, read_can_bin')
        (read_checked-Sendable f old p end (inner s) net m e (length s.stack.nodes) ok)

-- What a frame of form `e` becomes on its way.
abbrev pub delivered : CanFrame → CanFrame → CanFrame
delivered f old = record {
  id = f.id;
  size = f.size;
  bytes = take f.size f.bytes ++ drop f.size old.bytes;
}

abbrev pub in_order : Endianness → State → State
in_order o s = record s { endianness = o }

module _ (e : Bool) (f old : CanFrame) (p end : ℕ) (ok : Sendable e f p end) where
  -- Both functions in the byte order `o`, in terms of the network order inside.
  abbrev sent : State → CanReply
  sent s = wrote f p end (in_order big_endian s) refl e

  write_can_bin-order :
      (o : Endianness) (s : State)
      → write_can_bin (some f) (some p) end (in_order o s)
        ≡ record (sent s) { state = in_order o (sent s).state }
  unfolding write_can_bin in_network_order get_endianness set_endianness wrote
  write_can_bin-order big_endian s =
      write_can_bin'-Sendable f p end (in_order big_endian s) refl e ok
  write_can_bin-order little_endian s =
      rw (write_can_bin'-Sendable f p end (in_order big_endian s) refl e ok) refl

  abbrev got : State → Memory → CanReply
  got s m =
      took f old p end (inner (in_order big_endian s)) refl m e
        (pop_context fdu_context_can (some (length s.stack.nodes)) (inner s).stack)

  read_can_bin-order :
      (o : Endianness) (s : State)
      → HasRoom s.stack
      → read_can_bin (some old) (some p) end (in_order o (sent s).state)
        ≡ record (got s s.mem) { state = in_order o (got s s.mem).state }
  unfolding read_can_bin in_network_order get_endianness set_endianness took arrived wrote
  read_can_bin-order big_endian s r =
      read_can_bin'-Sendable e f old p end s.mem (in_order big_endian s) refl ok r
  read_can_bin-order little_endian s r =
      rw (read_can_bin'-Sendable e f old p end s.mem (in_order big_endian s) refl ok r) refl

  -- A frame whose id is below 2 ^ 11, or is 2 ^ 31 and something below 2 ^ 29, with a size of at most 8
  -- and the bytes for it, that is written where it fits, not at the null address, and with a free slot
  -- on the error stack and counters below 2 ^ 32, is read back, in either byte order of the process,
  -- which both calls leave as it was: id, size and data are those of the frame, the rest of the
  -- reader's array is untouched, and both cursors stand behind the image.
  pub read_can_bin-write_can_bin :
      (s : State)
      → HasRoom s.stack
      → let w = write_can_bin (some f) (some p) end s in
        let r = read_can_bin (some old) (some p) end w.state in
        (w.ok ≡ true)
        × (w.startp ≡ some (p + id_size e + 1 + f.size))
        × (w.state.endianness ≡ s.endianness)
        × (r.ok ≡ true)
        × (r.frame ≡ some (delivered f old))
        × (r.startp ≡ some (p + id_size e + 1 + f.size))
        × (r.state.endianness ≡ s.endianness)
  unfolding wrote took
  read_can_bin-write_can_bin s room =
      let o = s.endianness in
      rw (write_can_bin-order o s, read_can_bin-order o s room)
        (refl, refl, refl, pop-push fdu_context_can s.stack room, refl, refl, refl)
