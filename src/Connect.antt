-- ===== src/Connect.antt =====
-- utils.c: a service that waits for a pending connect().
--
-- The service is registered by the address of its data, which `malloc` gives. `getsockopt` and the
-- callback are given; the callback may change the backend.
pub mod Waits
mod Tests
use femc_driver.Prelude.{ℕ, Bool, true, false, ◌&&◌, Option, none, some, String}
use femc_driver.Backend.{Backend, output}
use femc_driver.ErrorStack.{
  ErrorStack, push_context, safe_pop_context, push_resource_failure_id, push_stdlib_error,
  memory_allocation, fdu_context_connect,
}

-- What `getsockopt` gives: the error of the connection, 0 for none, or an errno of its own.
pub data SocketError : Type 0 where
  socket_error : ℕ → SocketError
  failing : ℕ → SocketError

-- A callback is given the descriptor and the error, which is none for -1.
abbrev pub Callback : Type 0 → Type 0
Callback F = ℕ → Option ℕ → F → ErrorStack → Bool × F × ErrorStack

module _ {F : Type 0} (api : Backend F) where
  abbrev Made : Type 0
  Made = Bool × F × ErrorStack

  -- `… && fde_safe_pop_context(fdu_context_connect, ectx)`
  and_pop : ℕ → Made → Made
  and_pop ectx (false, f, stack) = (false, f, stack)
  and_pop ectx (true, f, stack) =
      let (ok, stack') = safe_pop_context fdu_context_connect (some ectx) stack in (ok, f, stack')

  allocated : ℕ → ℕ → Option ℕ → F → ErrorStack → Made
  unfolding and_pop
  allocated ectx fd none f stack = (false, f, (push_resource_failure_id memory_allocation stack).1)
  allocated ectx fd (some pcd) f stack = and_pop ectx (api.add output fd pcd f stack)

  pending_with : ℕ → Option ℕ → F → Option ℕ × ErrorStack → Made
  unfolding allocated
  pending_with fd malloc f (none, stack) = (false, f, stack)
  pending_with fd malloc f (some ectx, stack) = allocated ectx fd malloc f stack

  pub pending_connect : ℕ → Option ℕ → F → ErrorStack → Made
  unfolding pending_with
  pending_connect fd malloc f stack =
      pending_with fd malloc f (push_context fdu_context_connect none stack)

  -- Behind the removal of the service.
  told : Callback F → ℕ → SocketError → ℕ → F → ErrorStack → Made
  unfolding and_pop
  told func ectx (socket_error e) fd f stack = and_pop ectx (func fd (some e) f stack)
  told func ectx (failing errno) fd f stack =
      and_pop ectx (func fd none f (push_stdlib_error (some "getsockopt") errno stack).1)

  removed : Callback F → ℕ → SocketError → ℕ → Made → Made
  unfolding told
  removed func ectx e fd (false, f, stack) = (false, f, stack)
  removed func ectx e fd (true, f, stack) = told func ectx e fd f stack

  callback_with : Callback F → SocketError → ℕ → F → Option ℕ × ErrorStack → Made
  unfolding removed
  callback_with func e fd f (none, stack) = (false, f, stack)
  callback_with func e fd f (some ectx, stack) =
      removed func ectx e fd (api.remove output fd f stack)

  pub pending_connect_callback : Callback F → SocketError → ℕ → F → ErrorStack → Made
  unfolding callback_with
  pending_connect_callback func e fd f stack =
      callback_with func e fd f (push_context fdu_context_connect none stack)
