-- ===== src/Rpc/Binding.antt =====
-- src/rpc.cpp: the list of handles, and a reference's life.
pub mod Handles
pub mod Life
use atc26_shaper_io.Prelude.{
  ℕ, zero, suc, ◌+◌, ◌-◌, ◌*◌, ◌/◌, ◌%◌, ◌^◌, ◌++◌, Bool, true, false, not, ◌&&◌, ◌||◌, Option,
  none, some, List, [], ◌∷◌, ◌==◌, ltb, if◌then◌else◌, get_or, set, replicate,
}
use atc26_shaper_io.Prelude.Words.{u16}
use atc26_shaper_io.Types.{Dwords, NvmQueue, NvmCtrl}
use atc26_shaper_io.Errors.{ℤ, err_pack}
use atc26_shaper_io.Controller.{Registers, Container, enomem, erange, nvm_raw_ctrl_reset}
use atc26_shaper_io.HostQueue.{
  lnot, einval, nvm_queue_clear, nvm_sq_enqueue, nvm_sq_submit, nvm_sq_update, nvm_cq_dequeue_block,
  nvm_cq_update,
}
use atc26_shaper_io.Dma.{
  Handle, Mapping, Space, Outcomes, Result, failed, made, get_ctrl, put_ctrl, nvm_dma_remap,
  nvm_dma_unmap,
}
use atc26_shaper_io.Rpc.{
  LocalAdmin, RpcHandle, Reference, Bound, unbound, local_stub, remote_stub, Call, handle_released,
  binding_released, eagain, etime, enotty,
}

-- The walk of `_nvm_rpc_handle_insert`: the handle goes to the end, unless its key is met.
pub insert_loop : List RpcHandle → RpcHandle → Option (List RpcHandle)
insert_loop [] handle = some (handle ∷ [])
insert_loop (curr ∷ rest) handle =
    let inserted = linked curr (insert_loop rest handle) in
    if curr.key == handle.key then none else inserted
  where
    linked : RpcHandle → Option (List RpcHandle) → Option (List RpcHandle)
    linked curr none = none
    linked curr (some rest) = some (curr ∷ rest)

abbrev inserted : Reference → Option (List RpcHandle) → ℕ × Reference
inserted ref none = (einval, ref)
inserted ref (some handles) = (0, record ref { handles = handles })

-- Whether the data and the callback are there, whether malloc succeeds, and the result of taking the
-- lock come first.
pub nvm_rpc_handle_insert : Bool → Bool → ℕ → Reference → ℕ → ℕ → ℕ × Reference
nvm_rpc_handle_insert given memory lock ref key value =
    if not given
    then (einval, ref)
    else (if not memory
        then (enomem, ref)
        else (if lock == 0
            then inserted ref (insert_loop ref.handles (record { key = key; value = value }))
            else (lock, ref)))

-- The handle with the key, and the list without it.
pub remove_loop : List RpcHandle → ℕ → Option (RpcHandle × List RpcHandle)
remove_loop [] key = none
remove_loop (curr ∷ rest) key =
    let later = passed curr (remove_loop rest key) in
    if curr.key == key then some (curr, rest) else later
  where
    passed : RpcHandle → Option (RpcHandle × List RpcHandle) → Option (RpcHandle × List RpcHandle)
    passed curr none = none
    passed curr (some (found, rest)) = some (found, curr ∷ rest)

abbrev removed : Reference → Option (RpcHandle × List RpcHandle) → Option (Reference × List Call)
removed ref none = none
removed ref (some (found, rest)) =
    some (record ref { handles = rest }, handle_released found.key found.value ∷ [])

-- Where no handle has the key the code reads through NULL: `none`.
pub nvm_rpc_handle_remove : Reference → ℕ → Option (Reference × List Call)
nvm_rpc_handle_remove ref key = removed ref (remove_loop ref.handles key)

pub release_loop : List RpcHandle → List Call
release_loop [] = []
release_loop (curr ∷ rest) = handle_released curr.key curr.value ∷ release_loop rest

pub release_handles : Reference → Reference × List Call
release_handles ref = (record ref { handles = [] }, release_loop ref.handles)

-- Whether malloc succeeds, what it leaves in `errno`, and the making of the lock, come first.
pub nvm_ref_get : Outcomes → Bool → ℕ → Space → Result Reference
nvm_ref_get env memory mutex space =
    let (taken, held) = get_ctrl env.ctrl_lock space in
    if not taken
    then failed enotty held
    else (if not memory
        then failed enomem (put_ctrl held)
        else (if mutex == 0
            then made (record { handles = []; bound = unbound }) held
            else failed mutex (put_ctrl held)))

-- `remove_admin`, on the mapping that the window shares
pub remove_admin : Option Mapping → Space → Option Mapping × Space
remove_admin none space = (none, space)
remove_admin (some md) space = nvm_dma_unmap md space

-- The callback of what the reference is bound to.
pub release_bound : Bound → Option Mapping → Space → List Call × Option Mapping × Space
release_bound unbound md space = ([], md, space)
release_bound (local_stub admin) md space =
    let (md', space') = remove_admin md space in ([], md', space')
release_bound (remote_stub value release) md space =
    ((if release then binding_released value ∷ [] else []), md, space)

-- The calls, the mapping that is left, and the state.
pub nvm_ref_put : Reference → Option Mapping → Space → List Call × Option Mapping × Space
nvm_ref_put ref md space =
    let (emptied, calls) = release_handles ref in
    let (more, md', space') = release_bound emptied.bound md space in
    (calls ++ more, md', put_ctrl space')

abbrev is_unbound : Bound → Bool
is_unbound unbound = true
is_unbound (local_stub admin) = false
is_unbound (remote_stub value release) = false

-- `_nvm_rpc_bind`
pub nvm_rpc_bind : ℕ → Reference → ℕ → Bool → ℕ × Reference
nvm_rpc_bind lock ref value release =
    if lock == 0
    then (if is_unbound ref.bound
        then (0, record ref { bound = remote_stub value release })
        else (einval, ref))
    else (lock, ref)

-- `nvm_aq_destroy` and `nvm_rpc_unbind` on a reference that is not NULL.
pub nvm_aq_destroy : Reference → Option Mapping → Space → List Call × Option Mapping × Space
nvm_aq_destroy ref md space = nvm_ref_put ref md space
