-- ===== src/Zmq.antt =====
-- dispatcher_zmq.c: the other backend, on top of ZeroMQ's poller. It waits for descriptors and for
-- ZeroMQ sockets.
--
-- An entry is at an address. The three lists are those of the addresses in the order of the links,
-- and `malloc` gives the addresses from `fresh` on. A socket or a service is a name, none for the
-- null pointer; a negative descriptor is none. ZeroMQ is not part of the source: a poller is what
-- its functions make of it.
pub mod Lists
pub mod Pool
pub mod Valid
pub mod Changes
pub mod Registry
mod Tests
pub mod Services
pub mod Poll
use mathlib.Core.Option
use femc_driver.Prelude.{
  ℕ, zero, suc, ◌+◌, ◌-◌, ◌*◌, ◌%◌, ◌^◌, Bool, true, false, not, ◌&&◌, ◌||◌, Option, none, some,
  List, [], String, ◌∷◌, ◌++◌, ltb, leb, ◌==◌, if◌then◌else◌,
}
use femc_driver.Backend.{Direction, input, output}
use femc_driver.ErrorStack.{
  ErrorStack, push_context, pop_context, push_consistency_failure, push_consistency_failure_id,
  push_resource_failure, push_resource_failure_id, push_stdlib_error, fdd_context_zmq,
  memory_allocation, invalid_arguments,
}

pub record Entry : Type 0 where
  pub input_service : Option ℕ
  pub output_service : Option ℕ
  pub socket : Option ℕ
  pub fd : Option ℕ

-- What an entry waits on: a descriptor or a socket.
pub data Key : Type 0 where
  by_fd : ℕ → Key
  by_socket : ℕ → Key

-- What `zmq_poller_wait_all` returns: the address of each event's entry with its POLLIN and POLLOUT
-- bits, or `zmq_errno()`. A null address is none.
pub data Waited : Type 0 where
  events : List (Option ℕ × Bool × Bool) → Waited
  failing : ℕ → Waited

-- The functions of ZeroMQ. `add`, `modify` and `remove` stand for `zmq_poller_add_fd` and its kin
-- with a descriptor, and for `zmq_poller_add` and its kin with a socket. The two Booleans are
-- ZMQ_POLLIN and ZMQ_POLLOUT; the timeout is none for -1.
pub record Library (P : Type 0) : Type 0 where
  pub new : Option P
  pub add : Key → ℕ → Bool → Bool → P → P
  pub modify : Key → Bool → Bool → P → P
  pub remove : Key → P → P
  pub wait_all : ℕ → Option ℕ → P → Waited × P

-- The statics of the file, and the memory of the entries.
pub record Zmq (P : Type 0) : Type 0 where
  pub poller : Option P
  pub entries_count : ℕ
  pub entries : List ℕ
  pub unused_entries : List ℕ
  pub removed_entries : List ℕ
  pub entry : ℕ → Entry
  pub fresh : ℕ

abbrev pub update : ℕ → Entry → (ℕ → Entry) → ℕ → Entry
update a e m i = if i == a then e else m i

-- `list_remove`; an address is in a list once.
unfoldable pub list_remove : ℕ → List ℕ → List ℕ
list_remove a [] = []
list_remove a (x ∷ xs) = let rest = list_remove a xs in if x == a then xs else x ∷ rest

abbrev pub entry_allocation_block : ℕ
entry_allocation_block = 16

-- The loop over a new block: each entry is pushed to the front.
unfoldable pub block : ℕ → ℕ → List ℕ → List ℕ
block zero a list = list
block (suc n) a list = block n (a + 1) (a ∷ list)

abbrev pub cleared : Entry
cleared = record { input_service = none; output_service = none; socket = none; fd = some 0 }

abbrev pub close : ℕ → ErrorStack → Bool × ErrorStack
close ectx stack = pop_context fdd_context_zmq (some ectx) stack

module _ {P : Type 0} where
  -- Behind the push of the context `ectx`, with `f_unused_entries`.
  allocate_checked : Bool → ℕ → List ℕ → Zmq P → ErrorStack → Bool × Zmq P × ErrorStack
  unfolding block
  allocate_checked malloc ectx (a ∷ rest) z stack =
      (false, z, (push_consistency_failure (some "unused entries exist") stack).1)
  allocate_checked malloc ectx [] z stack =
      let (popped, after) = close ectx stack in
      if malloc
      then (
        popped,
        record z {
          unused_entries = block entry_allocation_block z.fresh [];
          entry = λ (i : ℕ).
              if leb z.fresh i && ltb i (z.fresh + entry_allocation_block)
              then cleared
              else z.entry i;
          fresh = z.fresh + entry_allocation_block;
        },
        after,
      )
      else (false, z, (push_resource_failure_id memory_allocation stack).1)

  allocate_with : Bool → Zmq P → Option ℕ × ErrorStack → Bool × Zmq P × ErrorStack
  unfolding allocate_checked
  allocate_with malloc z (none, stack) = (false, z, stack)
  allocate_with malloc z (some ectx, stack) = allocate_checked malloc ectx z.unused_entries z stack

  unfoldable pub allocate_new_entries : Bool → Zmq P → ErrorStack → Bool × Zmq P × ErrorStack
  unfolding allocate_with
  allocate_new_entries malloc z stack =
      allocate_with malloc z (push_context fdd_context_zmq none stack)

-- `find_entry_by_fd` and `find_entry_by_socket`.
unfoldable pub is_at : Key → Entry → Bool
is_at (by_fd fd) e = elim e.fd [ none ↦ false | some i ↦ i == fd ]
is_at (by_socket socket) e = elim e.socket [ none ↦ false | some s ↦ s == socket ]

unfoldable pub find_entry : Key → (ℕ → Entry) → List ℕ → Option ℕ
find_entry k m [] = none
find_entry k m (a ∷ rest) = if is_at k (m a) then some a else find_entry k m rest

abbrev pub service : Direction → Entry → Option ℕ
service input e = e.input_service
service output e = e.output_service

abbrev pub other : Direction → Direction
other input = output
other output = input

abbrev pub with_service : Direction → Option ℕ → Entry → Entry
with_service input s e = record e { input_service = s }
with_service output s e = record e { output_service = s }

abbrev pub is_some {ℓ} : {A : Type ℓ} → Option A → Bool
is_some none = false
is_some (some x) = true

abbrev pub new_entry : Key → Entry
new_entry (by_fd fd) = record cleared { fd = some fd }
new_entry (by_socket socket) = record cleared { socket = some socket }

-- A socket's entry is removed with either service, that of a descriptor with the last one.
abbrev pub always_removed : Key → Bool
always_removed (by_fd fd) = false
always_removed (by_socket socket) = true

module _ {P : Type 0} where
  unfoldable pub remove_entry : ℕ → Zmq P → Zmq P
  unfolding list_remove
  remove_entry a z = record z {
    entry = update a (record (z.entry a) { socket = none; fd = none }) z.entry;
    entries = list_remove a z.entries;
    removed_entries = a ∷ z.removed_entries;
  }

  unfoldable pub reuse_removed_entries : Zmq P → Zmq P
  reuse_removed_entries z = record z {
    unused_entries = z.removed_entries ++ z.unused_entries;
    removed_entries = [];
  }
