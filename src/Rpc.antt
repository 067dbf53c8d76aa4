-- ===== src/Rpc.antt =====
-- src/rpc.cpp and src/rpc.h: references to a controller's admin queues, local ones and bindings to another
-- process's. Binding has the handles that a server lists and the life of a reference, Execute the
-- execution of an admin command, Queues the making of local queues. Locks and allocations are arguments.
pub mod Binding
pub mod Execute
pub mod Queues
use atc26_shaper_io.Prelude.{
  ℕ, zero, suc, ◌+◌, ◌-◌, ◌*◌, ◌/◌, ◌%◌, ◌^◌, ◌++◌, Bool, true, false, not, ◌&&◌, ◌||◌, Option,
  none, some, List, [], ◌∷◌, ◌==◌, ltb, if◌then◌else◌, get_or, set, replicate,
}
use atc26_shaper_io.Prelude.Words.{u16}
use atc26_shaper_io.Types.{Dwords, NvmQueue, NvmCtrl}
use atc26_shaper_io.Errors.{ℤ, err_pack}
use atc26_shaper_io.Controller.{Registers, Container, enomem, erange, nvm_raw_ctrl_reset}
use atc26_shaper_io.HostQueue.{
  lnot, einval, nvm_queue_clear, nvm_sq_enqueue, nvm_sq_submit, nvm_sq_update, nvm_cq_dequeue_block,
  nvm_cq_update,
}
use atc26_shaper_io.Dma.{
  Handle, Mapping, Space, Outcomes, Result, failed, made, get_ctrl, put_ctrl, nvm_dma_remap,
  nvm_dma_unmap,
}

abbrev pub eagain : ℕ
eagain = 11

abbrev pub etime : ℕ
etime = 62

abbrev pub enotty : ℕ
enotty = 25

-- `struct local_admin`: its window is the handle that `qmem` points to.
pub record LocalAdmin : Type 0 where
  pub qmem : Handle
  pub acq : NvmQueue
  pub asq : NvmQueue
  pub timeout : ℕ

-- `struct rpc_handle`, in the order of the list: `instance_` is the pointer to its data.
pub record RpcHandle : Type 0 where
  pub key : ℕ
  pub value : ℕ

-- What a reference is bound to: `data`, `release` and `stub` together. Of a remote binding these are its
-- data and whether it has a callback.
pub data Bound : Type 0 where
  unbound : Bound
  local_stub : LocalAdmin → Bound
  remote_stub : ℕ → Bool → Bound

-- `struct nvm_admin_reference`, but for its lock and its reference to the controller.
pub record Reference : Type 0 where
  pub handles : List RpcHandle
  pub bound : Bound

-- Calls of the handles' and of a binding's callbacks.
pub data Call : Type 0 where
  handle_released : ℕ → ℕ → Call
  binding_released : ℕ → Call
