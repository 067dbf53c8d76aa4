-- ===== src/Admin/Queues/Create/Completion.antt =====
-- `nvm_admin_cq_create`.
use atc26_shaper_io.Prelude.{
  ℕ, ◌*◌, ◌/◌, ◌^◌, ◌≤◌, ◌<◌, ◌≡◌, ◌≢◌, ◌⊎◌, inl, inr, refl, Bool, true, false, ◌||◌, ◌==◌, none,
  some, get_or, if_either, eq→==, ne→==, arith,
}
use atc26_shaper_io.Types.{Dwords, NvmQueue, NvmCtrl}
use atc26_shaper_io.Util.{cq_pages}
use atc26_shaper_io.Util.Pages.{queue_pages-Enough}
use atc26_shaper_io.Errors.{ℤ, pos, err_pack}
use atc26_shaper_io.Errors.Status.{err_pack-errno}
use atc26_shaper_io.HostQueue.{einval}
use atc26_shaper_io.HostQueue.Setup.{clear_accepts}
use atc26_shaper_io.Dma.{Handle}
use atc26_shaper_io.Admin.{Rpc, blank, admin_cq_create, contiguous_bit}
use atc26_shaper_io.Admin.Fields.{CreateFields, admin_cq_create-Fields}
use atc26_shaper_io.Admin.Queues.{
  local_flag, dma_offset, queue_size, outside, bad_size, cq_create_with, nvm_admin_cq_create,
}
use atc26_shaper_io.Admin.Queues.Create.{
  Answered, status-Answered, laid_out, Placed, laid_out-Placed, size_ok,
}

module _ (rpc : Rpc) (ctrl : NvmCtrl) (raw queue : NvmQueue) (id : ℕ) (dma : Handle)
    (offset asked n : ℕ) (need_prp : Bool) (some_entries : 0 < n) (page : ctrl.page_size ≡ n * 64)
    (small : id < 2 ^ 16) (addr : get_or dma.ioaddrs offset 0 < 2 ^ 64) where
  abbrev ioaddr : ℕ
  ioaddr = get_or dma.ioaddrs offset 0

  abbrev qs : ℕ
  qs = queue_size (dma.page_size / 16) ctrl.max_qs asked

  abbrev bad_window : Bool
  bad_window = dma.vaddr == 0 || outside dma offset (cq_pages ctrl.page_size qs)

  abbrev made : NvmQueue
  made = laid_out ctrl raw id dma offset qs true

  abbrev command : Dwords
  command = admin_cq_create blank made ioaddr need_prp

  abbrev result : ℤ × NvmQueue
  result = nvm_admin_cq_create rpc (some ctrl) raw queue id dma offset asked need_prp

  enough : 2 ≤ qs → qs ≤ 65536 → qs * 16 ≤ cq_pages ctrl.page_size qs * ctrl.page_size
  enough lo hi =
      let same : n * 4 * 16 ≡ ctrl.page_size = omega (arith, page) in
      let (_, enough) = queue_pages-Enough n qs some_entries (omega (arith, lo)) hi in
      rw same at enough.0

  accepted :
      bad_size ctrl qs ≡ false
      → bad_window ≡ false
      → Placed ctrl raw id dma offset qs true
        × CreateFields command 0x05 id qs ioaddr (contiguous_bit need_prp) 0
  accepted fit there =
      let (lo, hi, max) = size_ok ctrl raw id dma offset qs fit in
      (
        laid_out-Placed ctrl raw id dma offset qs true (cq_pages ctrl.page_size qs) fit
            (window there) (enough lo hi),
        admin_cq_create-Fields made ioaddr need_prp (omega (arith, lo)) hi small addr,
      )
    where
      window : bad_window ≡ false → outside dma offset (cq_pages ctrl.page_size qs) ≡ false
      window e = ground arith

  -- A completion queue with number 0, of a size out of range, or without room in a mapped window is
  -- refused with EINVAL; the client's descriptor stays. Else the command names the queue's number, size
  -- and first page, which lies in the window with all that the entries need, and the client gets the
  -- empty queue if the controller accepts the command, and only then.
  pub nvm_admin_cq_create-Placed :
      (id ≡ 0 → result ≡ (pos einval, queue))
      × (id ≢ 0 → (bad_size ctrl qs ≡ true) ⊎ (bad_window ≡ true) → result ≡ (pos einval, queue))
      × (id ≢ 0
          → bad_size ctrl qs ≡ false
          → bad_window ≡ false
          → Answered result (rpc command).0 queue made
            × Placed ctrl raw id dma offset qs true
            × CreateFields command 0x05 id qs ioaddr (contiguous_bit need_prp) 0)
  unfolding nvm_admin_cq_create cq_create_with
  nvm_admin_cq_create-Placed = (
    λ e. rw (eq→== id 0 e, refused) refl,
    λ ne bad. elim bad [
      | inl size ↦ rw (ne→== id 0 ne, size, refused) refl
      | inr window ↦
          rw (ne→== id 0 ne, window, refused)
            (if_either (λ (r : ℤ × NvmQueue). r ≡ (pos einval, queue)) (bad_size ctrl qs)
              (λ e. refl) (λ e. refl))
    ],
    λ ne fit there.
        let (placed, fields) = accepted fit there in
        let (lo, hi, max) = size_ok ctrl raw id dma offset qs fit in
        let clear =
          clear_accepts raw ctrl true id qs (local_flag dma) (dma_offset dma offset) ioaddr lo hi
            max in
        (
          rw (ne→== id 0 ne, fit, there, clear) (status-Answered (rpc command) queue made),
          placed,
          fields,
        ),
  )
    where
      refused : err_pack none einval ≡ pos einval
      refused = err_pack-errno einval (omega arith)
