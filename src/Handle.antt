-- ===== src/Handle.antt =====
-- src/handles.rs, src/time.rs and the handle structs of src/tcp.rs and src/udp.rs: what the loop can
-- run. A Python object is a number; `cell` names the shared `cancelled` flag of a callback handle.
use tokioloop.Base.{ℕ, Bool, false}
use Prim.Native.Nat.{compare, Ordering}

pub data Handle : Type 0 where
  -- CBHandle: callback, args, context, cell
  cb_handle : ℕ → ℕ → ℕ → ℕ → Handle
  -- CBHandleNoArgs: callback, context, cell
  cb_handle_no_args : ℕ → ℕ → ℕ → Handle
  -- CBHandleOneArg: callback, arg, context, cell
  cb_handle_one_arg : ℕ → ℕ → ℕ → ℕ → Handle
  no_op_handle : Handle
  tcp_read_handle : ℕ → Handle
  tcp_write_handle : ℕ → Handle
  udp_read_handle : ℕ → Handle
  udp_write_handle : ℕ → Handle

-- `Handle::cancelled`: the trait's default is false, and `CBHandleOneArg` keeps the default.
unfoldable pub cancelled : (ℕ → Bool) → Handle → Bool
cancelled flags (cb_handle f a c cell) = flags cell
cancelled flags (cb_handle_no_args f c cell) = flags cell
cancelled flags _ = false

pub record Timer : Type 0 where
  pub handle : Handle
  pub when : ℕ

-- `Ord for Timer`: the earlier timer is the greater one.
unfoldable pub cmp : Timer → Timer → Ordering
cmp self other = elim (compare self.when other.when) [
  | Ordering.lt ↦ Ordering.gt
  | Ordering.gt ↦ Ordering.lt
  | Ordering.eq ↦ Ordering.eq
]
