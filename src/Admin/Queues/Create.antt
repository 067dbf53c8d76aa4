-- ===== src/Admin/Queues/Create.antt =====
-- What making an I/O queue gives.
pub mod Completion
pub mod Submission
use atc26_shaper_io.Prelude.{
  ℕ, ◌+◌, ◌-◌, ◌*◌, ◌/◌, ◌%◌, ◌^◌, ◌≤◌, ◌<◌, ◌≡◌, ◌≢◌, ◌⊎◌, ◌∙◌, inl, inr, refl, sym, ap, Bool,
  true, false, ◌||◌, ◌==◌, ltb, Option, none, some, List, get_or, if◌then◌else◌, if_either,
  Bool-cases, eq→==, ne→==, arith,
}
use atc26_shaper_io.Types.{Dwords, NvmQueue, NvmCtrl}
use atc26_shaper_io.Util.{sq_pages, cq_pages}
use atc26_shaper_io.Util.Pages.{queue_pages-Enough}
use atc26_shaper_io.Errors.{ℤ, pos, err_pack}
use atc26_shaper_io.Errors.Status.{err_pack-none, err_pack-errno}
use atc26_shaper_io.HostQueue.{einval, cleared, nvm_queue_clear}
use atc26_shaper_io.HostQueue.Setup.{Started, clear_accepts, cleared-Started}
use atc26_shaper_io.Dma.{Handle}
use atc26_shaper_io.Admin.{Rpc, nvm_ok, blank, admin_cq_create, admin_sq_create, contiguous_bit}
use atc26_shaper_io.Admin.Fields.{CreateFields, admin_cq_create-Fields, admin_sq_create-Fields}
use atc26_shaper_io.Admin.Queues.{
  local_flag, dma_offset, queue_size, outside, bad_size, cq_create_with, sq_create_with, with_ctrl,
  nvm_admin_cq_create, nvm_admin_sq_create,
}

-- What the client gets from a status of the controller: the new queue, or its own with the status.
pub Answered : ℤ × NvmQueue → ℤ → NvmQueue → NvmQueue → Type 0
Answered result status old queue =
    (nvm_ok status ≡ true → result ≡ (pos 0, queue))
    × (nvm_ok status ≡ false → result ≡ (status, old))

module _ (ctrl : NvmCtrl) (raw : NvmQueue) (id : ℕ) (dma : Handle) (offset qs : ℕ) where
  -- The descriptor for a queue at page `offset` of the window.
  abbrev pub laid_out : Bool → NvmQueue
  laid_out is_cq =
      cleared raw ctrl is_cq id qs (local_flag dma) (dma_offset dma offset)
        (get_or dma.ioaddrs offset 0)

  -- It is empty, its memory lies in the window, and its entries are in the pages that the window has for
  -- it.
  pub record Placed (is_cq : Bool) : Type 0 where
    pub started : Started (laid_out is_cq) ctrl is_cq id qs (dma_offset dma offset)
    pub inside :
        (pages : ℕ) × (offset + pages ≤ dma.n_ioaddrs)
        × (qs * (laid_out is_cq).es ≤ pages * ctrl.page_size)
    pub at_page : (laid_out is_cq).ioaddr ≡ get_or dma.ioaddrs offset 0

  pub within : (n_pages : ℕ) → outside dma offset n_pages ≡ false → offset + n_pages ≤ dma.n_ioaddrs
  within n_pages e = ground arith

  pub size_ok : bad_size ctrl qs ≡ false → (2 ≤ qs) × (qs ≤ 65536) × (qs ≤ ctrl.max_qs)
  size_ok e = (ground arith, ground arith, ground arith)

pub status-Answered :
    (r : ℤ × Dwords × List ℕ) (old new : NvmQueue)
    → Answered (if nvm_ok r.0 then (err_pack none 0, new) else (r.0, old)) r.0 old new
unfolding Answered
status-Answered r old new = (λ fine. rw (fine, err_pack-none) refl, λ bad. rw bad refl)

-- A queue's place is right once its size is, and the window has its pages.
pub laid_out-Placed :
    (ctrl : NvmCtrl) (raw : NvmQueue) (id : ℕ) (dma : Handle) (offset qs : ℕ) (is_cq : Bool)
    (pages : ℕ)
    → bad_size ctrl qs ≡ false
    → outside dma offset pages ≡ false
    → qs * (laid_out ctrl raw id dma offset qs is_cq).es ≤ pages * ctrl.page_size
    → Placed ctrl raw id dma offset qs is_cq
laid_out-Placed ctrl raw id dma offset qs is_cq pages fit there enough =
    let (lo, hi, max) = size_ok ctrl raw id dma offset qs fit in
    record {
      started =
          cleared-Started raw ctrl is_cq id qs (local_flag dma) (dma_offset dma offset)
            (get_or dma.ioaddrs offset 0) lo hi;
      inside = (pages, within ctrl raw id dma offset qs pages there, enough);
      at_page = refl;
    }
