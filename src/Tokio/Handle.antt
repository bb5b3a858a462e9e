-- ===== src/Tokio/Handle.antt =====
-- src/tokio_handles.rs, and the timers of src/tokio_event_loop.rs. A Python object is a number; `cell`
-- names the shared `cancelled` flag of a handle.
pub mod Order
use Prim.Native.Nat.{compare, Ordering}
use tokioloop.Base.{ℕ, Bool, true, false, if◌then◌else◌, List, [], ◌∷◌}

pub data THandle : Type 0 where
  -- TCBHandle: callback, args, context, cell
  tcb_handle : ℕ → ℕ → ℕ → ℕ → THandle
  -- TCBHandleNoArgs: callback, context, cell
  tcb_handle_no_args : ℕ → ℕ → ℕ → THandle
  -- TCBHandleOneArg: callback, arg, context, cell
  tcb_handle_one_arg : ℕ → ℕ → ℕ → ℕ → THandle

-- `THandle::cancelled`: the trait's default is false, and `TCBHandleOneArg` keeps the default.
unfoldable pub cancelled : (ℕ → Bool) → THandle → Bool
cancelled flags (tcb_handle callback args context cell) = flags cell
cancelled flags (tcb_handle_no_args callback context cell) = flags cell
cancelled flags (tcb_handle_one_arg callback arg context cell) = false

-- The calls into Python: `PyObject_CallObject`, which has no context, `run_in_ctx0!` and `run_in_ctx1!`,
-- the context first, and the call of the exception handler in `log_exception`.
pub data PyCall : Type 0 where
  call_object : ℕ → ℕ → PyCall
  run_in_ctx0 : ℕ → ℕ → PyCall
  run_in_ctx1 : ℕ → ℕ → ℕ → PyCall
  call_exc_handler : ℕ → ℕ → PyCall

-- The call that `THandle::run` makes.
unfoldable pub call_of : THandle → PyCall
call_of (tcb_handle callback args context cell) = call_object callback args
call_of (tcb_handle_no_args callback context cell) = run_in_ctx0 context callback
call_of (tcb_handle_one_arg callback arg context cell) = run_in_ctx1 context callback arg

pub record TokioTimer : Type 0 where
  pub handle : THandle
  pub when : ℕ

-- `Ord for TokioTimer`: the earlier timer is the greater one.
unfoldable pub cmp : TokioTimer → TokioTimer → Ordering
cmp self other = compare other.when self.when

abbrev pub is_greater : Ordering → Bool
is_greater Ordering.gt = true
is_greater _ = false

-- `BinaryHeap::push`: the heap is the list of its entries, the greatest by `cmp` first. Which of two
-- equal entries the heap gives first is not specified.
unfoldable pub heap_push : TokioTimer → List TokioTimer → List TokioTimer
unfolding cmp
heap_push t [] = t ∷ []
heap_push t (x ∷ xs) = if is_greater (cmp t x) then t ∷ x ∷ xs else x ∷ heap_push t xs
