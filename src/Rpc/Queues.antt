-- ===== src/Rpc/Queues.antt =====
-- src/rpc.cpp: `create_admin` and `nvm_aq_create`.
pub mod Create
pub mod Fresh
pub mod Tests
use atc26_shaper_io.Prelude.{
  ℕ, zero, suc, ◌+◌, ◌-◌, ◌*◌, ◌/◌, ◌%◌, ◌^◌, ◌++◌, Bool, true, false, not, ◌&&◌, ◌||◌, Option,
  none, some, List, [], ◌∷◌, ◌==◌, ltb, if◌then◌else◌, get_or, set, replicate,
}
use atc26_shaper_io.Prelude.Words.{u16}
use atc26_shaper_io.Types.{Dwords, NvmQueue, NvmCtrl}
use atc26_shaper_io.Errors.{ℤ, err_pack}
use atc26_shaper_io.Controller.{Registers, Container, enomem, erange, nvm_raw_ctrl_reset}
use atc26_shaper_io.HostQueue.{
  lnot, einval, nvm_queue_clear, nvm_sq_enqueue, nvm_sq_submit, nvm_sq_update, nvm_cq_dequeue_block,
  nvm_cq_update,
}
use atc26_shaper_io.Dma.{
  Handle, Mapping, Space, Outcomes, Result, failed, made, get_ctrl, put_ctrl, nvm_dma_remap,
  nvm_dma_unmap,
}
use atc26_shaper_io.Rpc.{
  LocalAdmin, RpcHandle, Reference, Bound, unbound, local_stub, remote_stub, Call, handle_released,
  binding_released, eagain, etime, enotty,
}
use atc26_shaper_io.Rpc.Binding.{nvm_ref_get, nvm_ref_put}

-- `n` queue entries of `words` words, all 0
abbrev pub zeroed : ℕ → ℕ → List Dwords
zeroed n words = replicate n (replicate words 0)

-- Both queues in the window's two pages, which have been cleared. The results of `nvm_queue_clear` are
-- not looked at. `acq` and `asq` are what malloc leaves in the two descriptors.
abbrev pub admin_queues : NvmCtrl → Handle → NvmQueue → NvmQueue → LocalAdmin
admin_queues ctrl qmem acq asq =
    let n_cpls = ctrl.page_size / 16 in
    let n_cmds = ctrl.page_size / 64 in
    let local = if qmem.local then 1 else 0 in
    let acq_memory = record acq { mem = zeroed n_cpls 4 } in
    let asq_memory = record asq { mem = zeroed n_cmds 16 } in
    let acq_addr = get_or qmem.ioaddrs 0 0 in
    let asq_addr = get_or qmem.ioaddrs 1 0 in
    let asq_at = qmem.vaddr + qmem.page_size in
    record {
      qmem = qmem;
      acq = (nvm_queue_clear acq_memory ctrl true 0 n_cpls local qmem.vaddr acq_addr).1;
      asq = (nvm_queue_clear asq_memory ctrl false 0 n_cmds local asq_at asq_addr).1;
      timeout = ctrl.timeout;
    }

-- What `create_admin` makes of a remapped window; `memory` tells whether malloc succeeds.
abbrev pub admin_from :
    Outcomes
    → Bool
    → NvmCtrl
    → NvmQueue
    → NvmQueue
    → ℕ × Option Handle × Option Mapping × Space
    → ℕ × Option LocalAdmin × Option Mapping × Space
admin_from env memory ctrl acq asq (status, none, md, space) = (status, none, md, space)
admin_from env memory ctrl acq asq (status, some copy, none, space) = (status, none, none, space)
admin_from env memory ctrl acq asq (status, some copy, some md, space) =
    let (md', space') = nvm_dma_unmap md space in
    if memory
    then (0, some (admin_queues ctrl copy acq asq), some md, space)
    else (env.errno, none, md', space')

-- `window` is a handle on the mapping `md`. The result has the descriptor if there is one, the mapping and
-- the state.
pub create_admin :
    Outcomes
    → Bool
    → NvmCtrl
    → Handle
    → Mapping
    → NvmQueue
    → NvmQueue
    → Space
    → ℕ × Option LocalAdmin × Option Mapping × Space
create_admin env memory ctrl window md acq asq space =
    if not (ctrl.page_size == window.page_size)
    then (einval, none, some md, space)
    else (if ltb window.n_ioaddrs 2
        then (erange, none, some md, space)
        else (if window.vaddr == 0
            then (einval, none, some md, space)
            else admin_from env memory ctrl acq asq (nvm_dma_remap env md window space)))

-- The registers after the reset, whose result is not looked at.
abbrev reset_to : Registers → Option (ℕ × Registers) → Option Registers
reset_to regs none = none
reset_to regs (some (err, regs')) = some regs'

-- A new reference, or an error; the mapping, the state, and the registers.
pub data Created : Type 0 where
  created : Reference → Option Mapping → Space → Registers → Created
  refused : ℕ → Option Mapping → Space → Registers → Created

abbrev with_reset :
    Reference → LocalAdmin → Option Mapping → Space → Option Registers → Option Created
with_reset ref admin md space none = none
with_reset ref admin md space (some regs) =
    some (created (record ref { bound = local_stub admin }) md space regs)

-- With the descriptor that `create_admin` has made, or not.
abbrev aq_bound :
    ℕ
    → (Registers → Registers)
    → NvmCtrl
    → Reference
    → Registers
    → ℕ × Option LocalAdmin × Option Mapping × Space
    → Option Created
aq_bound fuel device ctrl ref regs (err, none, md, space) =
    let (calls, md', space') = nvm_ref_put ref md space in some (refused err md' space' regs)
aq_bound fuel device ctrl ref regs (err, some admin, md, space) =
    let acq_addr = get_or admin.qmem.ioaddrs 0 0 in
    let asq_addr = get_or admin.qmem.ioaddrs 1 0 in
    with_reset ref admin md space
      (reset_to regs (nvm_raw_ctrl_reset fuel device ctrl acq_addr asq_addr regs))

abbrev aq_referenced :
    ℕ
    → (Registers → Registers)
    → Outcomes
    → Bool
    → NvmCtrl
    → Handle
    → Mapping
    → NvmQueue
    → NvmQueue
    → Registers
    → Result Reference
    → Option Created
aq_referenced fuel device env memory ctrl window md acq asq regs (failed err space) =
    some (refused err (some md) space regs)
aq_referenced fuel device env memory ctrl window md acq asq regs (made ref space) =
    aq_bound fuel device ctrl ref regs (create_admin env memory ctrl window md acq asq space)

-- `ref_memory` and `mutex` are those of `nvm_ref_get`, `memory` that of `create_admin`.
pub nvm_aq_create :
    ℕ
    → (Registers → Registers)
    → Outcomes
    → Bool
    → ℕ
    → Bool
    → NvmCtrl
    → Handle
    → Mapping
    → NvmQueue
    → NvmQueue
    → Registers
    → Space
    → Option Created
nvm_aq_create fuel device env ref_memory mutex memory ctrl window md acq asq regs space =
    aq_referenced fuel device env memory ctrl window md acq asq regs
      (nvm_ref_get env ref_memory mutex space)
