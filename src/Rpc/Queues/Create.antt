-- ===== src/Rpc/Queues/Create.antt =====
-- `nvm_aq_create`: every error gives back what was taken.
use atc26_shaper_io.Prelude.{
  ℕ, suc, ◌+◌, ◌<◌, ◌≡◌, ◌∙◌, ◌^◌, refl, ap, Bool, not, ◌==◌, ltb, if_either, Option, none, some,
  [], get_or, arith,
}
use atc26_shaper_io.Types.{NvmQueue, NvmCtrl}
use atc26_shaper_io.Controller.{Registers, Container, nvm_raw_ctrl_reset}
use atc26_shaper_io.Controller.Reset.{nvm_raw_ctrl_reset-ends}
use atc26_shaper_io.Dma.{
  Handle, Mapping, Space, Outcomes, Result, failed, made, nvm_dma_remap, nvm_dma_unmap,
}
use atc26_shaper_io.Dma.Undo.{holding, one_more, Outcome}
use atc26_shaper_io.Dma.Sharing.{Live, handles, copy-Live, nvm_dma_unmap_lem}
use atc26_shaper_io.Rpc.{LocalAdmin, Reference, local_stub}
use atc26_shaper_io.Rpc.Binding.Life.{blank, nvm_ref_get-Outcome, nvm_ref_put-back}
use atc26_shaper_io.Rpc.Queues.{
  admin_queues, admin_from, create_admin, Created, created, refused, aq_bound, aq_referenced,
  nvm_aq_create,
}

-- One more handle on the mapping.
abbrev pub shared : Mapping → Mapping
shared md = record md { count = md.count + 1 }

module _ (env : Outcomes) (memory : Bool) (ctrl : NvmCtrl) (window : Handle) (md : Mapping)
    (acq asq : NvmQueue) (space : Space) (pos : 0 < md.count) (small : md.count + 1 < 2 ^ 32) where
  -- The descriptor, and the mapping with one handle more, or no descriptor and all as it was.
  abbrev Made : ℕ × Option LocalAdmin × Option Mapping × Space → Type 0
  Made (err, none, md', space') = (md' ≡ some md) × (space' ≡ space)
  Made (err, some admin, md', space') =
      (md' ≡ some (shared md))
      × (space' ≡ space)
      × (qmem : Handle) × (admin ≡ admin_queues ctrl qmem acq asq)

  given_back : nvm_dma_unmap (shared md) space ≡ (some md, space)
  given_back =
      let e : md.count + 1 ≡ suc md.count = omega arith in
      ap (λ (k : ℕ). nvm_dma_unmap (record md { count = k }) space) e
      ∙ nvm_dma_unmap_lem md space md.count pos (omega arith)

  from-Made :
      (r : ℕ × Option Handle × Option Mapping × Space)
      → Live md space (λ s. Unit {0}) (md.count + handles r.1) r.2 r.3
      → Made (admin_from env memory ctrl acq asq r)
  unfolding Live
  from-Made (err, none, none, space') live = absurd (omega (arith, live.0))
  from-Made (err, none, some md', space') (a, b, is, same) =
      let e : md.count + 0 ≡ md.count = omega arith in
      (ap some (is ∙ (λ i. record md { count = e i })), same)
  from-Made (err, some copy, none, space') live = absurd (omega (arith, live.0))
  from-Made (err, some copy, some md', space') (a, b, is, same) =
      rw (is, same, given_back)
        (if_either Made memory (λ e. (refl, refl, copy, refl)) (λ e. (refl, refl)))

  create_admin-Made : Made (create_admin env memory ctrl window md acq asq space)
  unfolding create_admin
  create_admin-Made =
      if_either Made (not (ctrl.page_size == window.page_size)) (λ e. (refl, refl))
        (λ e.
          if_either Made (ltb window.n_ioaddrs 2) (λ e. (refl, refl))
            (λ e.
              if_either Made (window.vaddr == 0) (λ e. (refl, refl))
                (λ e.
                  from-Made (nvm_dma_remap env md window space)
                    (copy-Live md space (λ s. Unit {0}) md.count env window pos small))))

module _ (device : Registers → Registers) (env : Outcomes) (ctrl : NvmCtrl) (window : Handle)
    (md : Mapping) (acq asq : NvmQueue) (regs : Registers) (before : Space) (c : Container) where
  -- A reference to new queues, which holds a reference to the controller and a handle on the window's
  -- mapping, or an error and all as it was.
  pub Balanced : Option Created → Type 0
  Balanced none = ◌≡◌ {A = ℕ} 0 1
  Balanced (some (created ref md' space regs')) =
      (md' ≡ some (shared md))
      × (space ≡ holding before (one_more c))
      × (qmem : Handle) × (ref
          ≡ record { handles = []; bound = local_stub (admin_queues ctrl qmem acq asq) })
      × (err : ℕ) × (nvm_raw_ctrl_reset (suc ctrl.timeout) device ctrl (get_or qmem.ioaddrs 0 0)
            (get_or qmem.ioaddrs 1 0) regs
          ≡ some (err, regs'))
  Balanced (some (refused err md' space regs')) =
      (md' ≡ some md) × (space ≡ holding before c) × (regs' ≡ regs)

  module _ (pos : 0 < c.count) (small : c.count + 1 < 2 ^ 32) (md_pos : 0 < md.count)
      (md_small : md.count + 1 < 2 ^ 32) where
    bound-Balanced :
        (memory : Bool) (r : ℕ × Option LocalAdmin × Option Mapping × Space)
        → Made env memory ctrl window md acq asq (holding before (one_more c)) md_pos md_small r
        → Balanced (aq_bound (suc ctrl.timeout) device ctrl blank regs r)
    unfolding Balanced
    bound-Balanced memory (err, none, md', space') (same_md, same) =
        rw (same_md, same, nvm_ref_put-back before c pos small (some md)) (refl, refl, refl)
    bound-Balanced memory (err, some admin, md', space') (same_md, same, qmem, is) =
        let ((code, regs'), e) =
          nvm_raw_ctrl_reset-ends ctrl device (get_or qmem.ioaddrs 0 0) (get_or qmem.ioaddrs 1 0)
            regs in
        rw (is, e) (same_md, same, qmem, refl, code, e)

    referenced-Balanced :
        (memory : Bool) (r : Result Reference)
        → Outcome (holding before c) (λ ref s. (ref ≡ blank) × (s ≡ holding before (one_more c))) r
        → Balanced
            (aq_referenced (suc ctrl.timeout) device env memory ctrl window md acq asq regs r)
    unfolding Balanced Outcome
    referenced-Balanced memory (failed err space) same = (refl, same, refl)
    referenced-Balanced memory (made ref space) (new, same) =
        rw (new, same)
          (bound-Balanced memory _ (
            create_admin-Made env memory ctrl window md acq asq (holding before (one_more c)) md_pos
              md_small))

    -- Making admin queues ends, whatever the controller does during the reset. If any of the allocations,
    -- locks and checks fails, the controller's and the mapping's references are as they were and the
    -- registers have not been touched. Else the reference holds one reference to the controller and one
    -- handle on the window, and the controller has been reset to the queues' addresses, with any
    -- result.
    pub nvm_aq_create-Balanced :
        (ref_memory memory : Bool) (mutex : ℕ)
        → Balanced (
            nvm_aq_create
              (suc ctrl.timeout)
              device
              env
              ref_memory
              mutex
              memory
              ctrl
              window
              md
              acq
              asq
              regs
              (holding before c))
    unfolding nvm_aq_create
    nvm_aq_create-Balanced ref_memory memory mutex =
        referenced-Balanced memory _ (nvm_ref_get-Outcome before c pos small env ref_memory mutex)
