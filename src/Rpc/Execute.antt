-- ===== src/Rpc/Execute.antt =====
-- src/rpc.cpp: `execute_command`, and the calls that reach it or another process.
pub mod Cid
pub mod Answer
pub mod Served
pub mod Tests
use atc26_shaper_io.Prelude.{
  ℕ, zero, suc, ◌+◌, ◌-◌, ◌*◌, ◌/◌, ◌%◌, ◌^◌, ◌++◌, Bool, true, false, not, ◌&&◌, ◌||◌, Option,
  none, some, List, [], ◌∷◌, ◌==◌, ltb, if◌then◌else◌, get_or, set, replicate,
}
use atc26_shaper_io.Prelude.Words.{u16}
use atc26_shaper_io.Types.{Dwords, NvmQueue, NvmCtrl}
use atc26_shaper_io.Errors.{ℤ, err_pack}
use atc26_shaper_io.Controller.{Registers, Container, enomem, erange, nvm_raw_ctrl_reset}
use atc26_shaper_io.HostQueue.{
  lnot, einval, nvm_queue_clear, nvm_sq_enqueue, nvm_sq_submit, nvm_sq_update, nvm_cq_dequeue_block,
  nvm_cq_update,
}
use atc26_shaper_io.Dma.{
  Handle, Mapping, Space, Outcomes, Result, failed, made, get_ctrl, put_ctrl, nvm_dma_remap,
  nvm_dma_unmap,
}
use atc26_shaper_io.Rpc.{
  LocalAdmin, RpcHandle, Reference, Bound, unbound, local_stub, remote_stub, Call, handle_released,
  binding_released, eagain, etime, enotty,
}

-- `NVM_DEFAULT_CID`
pub nvm_default_cid : NvmQueue → ℕ
nvm_default_cid sq = u16 (sq.tail + lnot sq.phase * sq.qs)

-- `*NVM_CMD_CID(cmd) = cid`: the high half of the first word.
pub set_cid : Dwords → ℕ → Dwords
set_cid cmd cid = set cmd 0 (cid * 2 ^ 16 + get_or cmd 0 0 % 2 ^ 16)

-- Writing and reading the queue entry at an address.
abbrev pub store : NvmQueue → ℕ → Dwords → NvmQueue
store sq addr cmd = record sq { mem = set sq.mem ((addr - sq.vaddr) / sq.es) cmd }

abbrev pub fetch : NvmQueue → ℕ → Dwords
fetch cq addr = get_or cq.mem ((addr - cq.vaddr) / cq.es) []

-- The rest of `execute_command` after the wait.
abbrev answered :
    LocalAdmin → NvmQueue → Option (Option ℕ × NvmQueue) → Option (ℕ × Option Dwords × LocalAdmin)
answered admin asq none = none
answered admin asq (some (none, acq)) = some (etime, none, record admin { asq = asq; acq = acq })
answered admin asq (some (some cpl, acq)) =
    some
      (0, some (fetch acq cpl), record admin { asq = nvm_sq_update asq; acq = nvm_cq_update acq })

-- The submission queue when the command in its slot has been submitted.
abbrev pub submitted : NvmQueue → ℕ → Dwords → NvmQueue
submitted asq addr cmd = nvm_sq_submit (store asq addr (set_cid cmd (nvm_default_cid asq)))

abbrev enqueued :
    ℕ
    → (NvmQueue → NvmQueue → NvmQueue)
    → LocalAdmin
    → Dwords
    → Option ℕ
    → NvmQueue
    → Option (ℕ × Option Dwords × LocalAdmin)
enqueued fuel device admin cmd none asq = some (eagain, none, record admin { asq = asq })
enqueued fuel device admin cmd (some addr) asq =
    let rung = submitted asq addr cmd in
    answered admin rung
      (nvm_cq_dequeue_block fuel (device rung) (device rung admin.acq) admin.timeout)

-- The error number, the completion if there is one, and the queues. `device` is what the controller makes
-- of the completion queue from one poll to the next when it sees the given submission queue; it runs
-- before the first poll too.
pub execute_command :
    ℕ
    → (NvmQueue → NvmQueue → NvmQueue)
    → LocalAdmin
    → Dwords
    → Option (ℕ × Option Dwords × LocalAdmin)
execute_command fuel device admin cmd =
    let (slot, asq) = nvm_sq_enqueue admin.asq in enqueued fuel device admin cmd slot asq

-- A remote binding's stub: the error number and the completion that it gives for a command.
abbrev pub Remote : Type 0
Remote = ℕ → Dwords → ℕ × Option Dwords

-- The status field of a completion that the caller has cleared before the call.
abbrev pub status_of : Option Dwords → ℕ
status_of none = 0
status_of (some cpl) = get_or cpl 3 0 / 2 ^ 16

abbrev local_result :
    Reference → Option (ℕ × Option Dwords × LocalAdmin) → Option (ℤ × Option Dwords × Reference)
local_result ref none = none
local_result ref (some (err, cpl, admin)) =
    some (err_pack (some (status_of cpl)) err, cpl, record ref { bound = local_stub admin })

abbrev through :
    ℕ
    → (NvmQueue → NvmQueue → NvmQueue)
    → Remote
    → Reference
    → Dwords
    → Bound
    → Option (ℤ × Option Dwords × Reference)
through fuel device remote ref cmd unbound = some (err_pack none einval, none, ref)
through fuel device remote ref cmd (local_stub admin) =
    local_result ref (execute_command fuel device admin cmd)
through fuel device remote ref cmd (remote_stub value release) =
    let (err, cpl) = remote value cmd in some (err_pack (some (status_of cpl)) err, cpl, ref)

-- `lock` is the result of taking the reference's lock.
pub nvm_raw_rpc :
    ℕ
    → (NvmQueue → NvmQueue → NvmQueue)
    → Remote
    → ℕ
    → Reference
    → Dwords
    → Option (ℤ × Option Dwords × Reference)
nvm_raw_rpc fuel device remote lock ref cmd =
    if lock == 0
    then through fuel device remote ref cmd ref.bound
    else some (err_pack none lock, none, ref)

abbrev local_only :
    Reference → Option (ℕ × Option Dwords × LocalAdmin) → Option (ℤ × Option Dwords × Reference)
local_only ref none = none
local_only ref (some (err, cpl, admin)) =
    some (err_pack none err, cpl, record ref { bound = local_stub admin })

abbrev locally :
    ℕ
    → (NvmQueue → NvmQueue → NvmQueue)
    → Reference
    → Dwords
    → Bound
    → Option (ℤ × Option Dwords × Reference)
locally fuel device ref cmd unbound = some (err_pack none einval, none, ref)
locally fuel device ref cmd (local_stub admin) =
    local_only ref (execute_command fuel device admin cmd)
locally fuel device ref cmd (remote_stub value release) = some (err_pack none einval, none, ref)

-- `_nvm_local_admin`: the status is packed without the completion.
pub nvm_local_admin :
    ℕ
    → (NvmQueue → NvmQueue → NvmQueue)
    → ℕ
    → Reference
    → Dwords
    → Option (ℤ × Option Dwords × Reference)
nvm_local_admin fuel device lock ref cmd =
    if lock == 0
    then locally fuel device ref cmd ref.bound
    else some (err_pack none lock, none, ref)
