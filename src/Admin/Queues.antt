-- ===== src/Admin/Queues.antt =====
-- src/admin.cpp: `nvm_admin_cq_create`, `nvm_admin_sq_create`, the two deletions, and the numbers of
-- queues. `rpc` stands for `nvm_raw_rpc` on the reference, and the reference's controller is an argument;
-- NULL is `none`.
pub mod Create
pub mod Delete
pub mod Numbers
pub mod Tests
use atc26_shaper_io.Prelude.{
  ℕ, ◌+◌, ◌-◌, ◌*◌, ◌/◌, ◌%◌, ◌^◌, Bool, true, false, not, ◌||◌, Option, none, some, List, [], ◌∷◌,
  min, bit_and, ◌==◌, ltb, get_or, if◌then◌else◌,
}
use atc26_shaper_io.Prelude.Words.{u16}
use atc26_shaper_io.Types.{Dwords, NvmQueue, NvmCtrl}
use atc26_shaper_io.Util.{sq_pages, cq_pages}
use atc26_shaper_io.Errors.{ℤ, pos, negsuc, err_pack}
use atc26_shaper_io.HostQueue.{einval, nvm_queue_clear}
use atc26_shaper_io.Dma.{Handle}
use atc26_shaper_io.Admin.{
  Rpc, nvm_ok, blank, admin_cq_create, admin_cq_delete, admin_sq_create, admin_sq_delete,
  admin_current_num_queues,
}

abbrev enotty : ℕ
enotty = 25

-- The window's local flag as a number, and the address of page `offset` (`NVM_DMA_OFFSET`).
abbrev pub local_flag : Handle → ℕ
local_flag dma = if dma.local then 1 else 0

abbrev pub dma_offset : Handle → ℕ → ℕ
dma_offset dma offset = dma.vaddr + dma.page_size * offset

-- No size asked for: as many entries as a page of the window has, within the controller's limit.
abbrev pub queue_size : ℕ → ℕ → ℕ → ℕ
queue_size entries max_qs qs = if qs == 0 then min entries max_qs else qs

abbrev pub outside : Handle → ℕ → ℕ → Bool
outside dma offset n_pages =
    n_pages == 0
    || ltb dma.n_ioaddrs n_pages
    || ltb dma.n_ioaddrs offset
    || ltb dma.n_ioaddrs (offset + n_pages)

abbrev pub bad_size : NvmCtrl → ℕ → Bool
bad_size ctrl qs = ltb qs 2 || ltb 0x10000 qs || ltb ctrl.max_qs qs

-- The last steps of both: the status, and the caller's descriptor.
abbrev sent : ℤ × Dwords × List ℕ → NvmQueue → NvmQueue → ℤ × NvmQueue
sent (status, completion, page) old queue =
    if nvm_ok status then (err_pack none 0, queue) else (status, old)

-- `raw` is what stands in the local descriptor at first.
pub cq_create_with : Rpc → NvmCtrl → NvmQueue → NvmQueue → ℕ → Handle → ℕ → ℕ → Bool → ℤ × NvmQueue
cq_create_with rpc ctrl raw cq id dma offset asked need_prp =
    let qs = queue_size (dma.page_size / 16) ctrl.max_qs asked in
    let ioaddr = get_or dma.ioaddrs offset 0 in
    let (err, queue) =
      nvm_queue_clear raw ctrl true id qs (local_flag dma) (dma_offset dma offset) ioaddr in
    if bad_size ctrl qs
    then (err_pack none einval, cq)
    else (if dma.vaddr == 0 || outside dma offset (cq_pages ctrl.page_size qs)
        then (err_pack none einval, cq)
        else (if err == 0
            then sent (rpc (admin_cq_create blank queue ioaddr need_prp)) cq queue
            else (err_pack none err, cq)))

pub sq_create_with :
    Rpc → NvmCtrl → NvmQueue → NvmQueue → NvmQueue → ℕ → Handle → ℕ → ℕ → Bool → ℤ × NvmQueue
sq_create_with rpc ctrl raw sq cq id dma offset asked need_prp =
    let qs = queue_size (dma.page_size / 64) ctrl.max_qs asked in
    let ioaddr = get_or dma.ioaddrs offset 0 in
    let (err, queue) =
      nvm_queue_clear raw ctrl false id qs (local_flag dma) (dma_offset dma offset) ioaddr in
    if bad_size ctrl qs
    then (err_pack none einval, sq)
    else (if dma.vaddr == 0 || outside dma offset (sq_pages ctrl.page_size qs)
        then (err_pack none einval, sq)
        else (if err == 0
            then sent (rpc (admin_sq_create blank queue cq ioaddr need_prp)) sq queue
            else (err_pack none err, sq)))

abbrev pub with_ctrl : Option NvmCtrl → NvmQueue → (NvmCtrl → ℤ × NvmQueue) → ℤ × NvmQueue
with_ctrl none queue rest = (err_pack none enotty, queue)
with_ctrl (some ctrl) queue rest = rest ctrl

pub nvm_admin_cq_create :
    Rpc → Option NvmCtrl → NvmQueue → NvmQueue → ℕ → Handle → ℕ → ℕ → Bool → ℤ × NvmQueue
nvm_admin_cq_create rpc ctrl raw cq id dma offset qs need_prp =
    if id == 0
    then (err_pack none einval, cq)
    else with_ctrl ctrl cq (λ ctrl. cq_create_with rpc ctrl raw cq id dma offset qs need_prp)

pub nvm_admin_sq_create :
    Rpc → Option NvmCtrl → NvmQueue → NvmQueue → NvmQueue → ℕ → Handle → ℕ → ℕ → Bool → ℤ × NvmQueue
nvm_admin_sq_create rpc ctrl raw sq cq id dma offset qs need_prp =
    if id == 0
    then (err_pack none einval, sq)
    else with_ctrl ctrl sq (λ ctrl. sq_create_with rpc ctrl raw sq cq id dma offset qs need_prp)

-- A deleted queue loses its doorbell.
abbrev deleted : ℤ × Dwords × List ℕ → NvmQueue → ℤ × NvmQueue
deleted (status, completion, page) queue =
    if nvm_ok status then (err_pack none 0, record queue { db = none }) else (status, queue)

abbrev no_doorbell : Option ℕ → Bool
no_doorbell none = true
no_doorbell (some db) = false

pub nvm_admin_cq_delete : Rpc → NvmQueue → ℤ × NvmQueue
nvm_admin_cq_delete rpc cq =
    if no_doorbell cq.db
    then (err_pack none einval, cq)
    else deleted (rpc (admin_cq_delete blank cq)) cq

abbrev pub unusable : Option NvmQueue → Bool
unusable none = true
unusable (some cq) = no_doorbell cq.db

pub nvm_admin_sq_delete : Rpc → NvmQueue → Option NvmQueue → ℤ × NvmQueue
nvm_admin_sq_delete rpc sq cq =
    if unusable cq || no_doorbell sq.db
    then (err_pack none einval, sq)
    else deleted (rpc (admin_sq_delete blank sq)) sq

-- The status, and the numbers of completion and of submission queues.
abbrev numbered : ℤ × Dwords × List ℕ → ℕ → ℕ → ℤ × ℕ × ℕ
numbered (status, completion, page) n_cqs n_sqs =
    let granted = get_or completion 0 0 in
    if nvm_ok status
    then (err_pack none 0, u16 (bit_and granted 0xffff + 1), u16 (granted / 2 ^ 16 + 1))
    else (status, n_cqs, n_sqs)

pub nvm_admin_get_num_queues : Rpc → ℕ → ℕ → ℤ × ℕ × ℕ
nvm_admin_get_num_queues rpc n_cqs n_sqs =
    numbered (rpc (admin_current_num_queues blank false 0 0)) n_cqs n_sqs

pub nvm_admin_request_num_queues : Rpc → ℕ → ℕ → ℤ × ℕ × ℕ
nvm_admin_request_num_queues rpc n_cqs n_sqs =
    if n_cqs == 0 || n_sqs == 0
    then (err_pack none einval, n_cqs, n_sqs)
    else numbered (rpc (admin_current_num_queues blank true n_cqs n_sqs)) n_cqs n_sqs

pub nvm_admin_set_num_queues : Rpc → ℕ → ℕ → ℤ
nvm_admin_set_num_queues rpc n_cqs n_sqs = (nvm_admin_request_num_queues rpc n_cqs n_sqs).0
