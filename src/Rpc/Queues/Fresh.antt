-- ===== src/Rpc/Queues/Fresh.antt =====
-- The queues that `create_admin` makes can serve commands at once.
use atc26_shaper_io.Prelude.{
  ℕ, zero, suc, ◌+◌, ◌-◌, ◌*◌, ◌/◌, ◌%◌, ◌≤◌, ◌<◌, ◌≡◌, ◌∙◌, ◌^◌, refl, sym, ap, Bool, true, false,
  if◌then◌else◌, [], get_or, arith,
}
use atc26_shaper_io.Prelude.Powers.{pow-add, pow_mono, pow-split}
use atc26_shaper_io.Types.{NvmQueue, NvmCtrl}
use atc26_shaper_io.Dma.{Handle}
use atc26_shaper_io.HostQueue.{lnot, cleared}
use atc26_shaper_io.HostQueue.Submission.{Runs}
use atc26_shaper_io.HostQueue.Completion.{Ready}
use atc26_shaper_io.HostQueue.Setup.{clear_accepts}
use atc26_shaper_io.Rpc.{LocalAdmin}
use atc26_shaper_io.Rpc.Queues.{zeroed, admin_queues}
use atc26_shaper_io.Rpc.Execute.Served.{Working}
use native.Mathlib.Nat.{zero-mod, zero-div, mul-mod_left}

-- Cleared entries show phase 0.
zeroed-shown : (n i : ℕ) → get_or (get_or (zeroed n 4) i []) 3 0 / 2 ^ 16 % 2 ≡ 0
zeroed-shown zero i = refl
zeroed-shown (suc n) zero = refl
zeroed-shown (suc n) (suc i) = zeroed-shown n i

cleared-Runs :
    (queue : NvmQueue) (ctrl : NvmCtrl) (is_cq : Bool) (qs local vaddr ioaddr : ℕ)
    → 2 ≤ qs
    → qs ≤ 65536
    → Runs (cleared queue ctrl is_cq 0 qs local vaddr ioaddr) 0 0
cleared-Runs queue ctrl is_cq qs local vaddr ioaddr lo hi = record {
  lo = lo;
  hi = hi;
  le = omega arith;
  room = omega arith;
  head = sym (zero-mod qs);
  tail = sym (zero-mod qs);
  phase = sym (ap (λ (t : ℕ). lnot (t % 2)) (zero-div qs));
}

module _ (ctrl : NvmCtrl) (qmem : Handle) (acq asq : NvmQueue) (e : ℕ)
    (size : ctrl.page_size ≡ 2 ^ (12 + e)) (small : e ≤ 4)
    (entries : ctrl.page_size / 16 ≤ ctrl.max_qs) (fits : ctrl.timeout * 1000000 < 2 ^ 64) where
  abbrev admin : LocalAdmin
  admin = admin_queues ctrl qmem acq asq

  cqs : ctrl.page_size / 16 ≡ 2 ^ (8 + e)
  cqs = omega (arith, size, pow-add 12 e, pow-add 8 e)

  sqs : ctrl.page_size / 64 ≡ 2 ^ (6 + e)
  sqs = omega (arith, size, pow-add 12 e, pow-add 6 e)

  abbrev acq_memory : NvmQueue
  acq_memory = record acq { mem = zeroed (ctrl.page_size / 16) 4 }

  abbrev asq_memory : NvmQueue
  asq_memory = record asq { mem = zeroed (ctrl.page_size / 64) 16 }

  bounds :
      (2 ≤ 2 ^ (6 + e))
      × (2 ^ (8 + e) ≤ 65536)
      × (2 ^ (6 + e) ≤ 2 ^ (8 + e))
      × (2 ^ (6 + e) ≤ 32768)
  bounds = (
    pow_mono 1 (6 + e) (omega arith),
    pow_mono (8 + e) 16 (omega arith),
    pow_mono (6 + e) (8 + e) (omega arith),
    pow_mono (6 + e) 15 (omega arith),
  )

  laps : 65536 % (ctrl.page_size / 64) ≡ 0
  laps =
      ap (λ (u : ℕ). 65536 % u) sqs
      ∙ ap (λ (u : ℕ). u % 2 ^ (6 + e)) (pow-split (6 + e) 16 (omega arith))
      ∙ mul-mod_left (2 ^ (16 - (6 + e))) (2 ^ (6 + e))

  fresh-Ready :
      (local vaddr ioaddr : ℕ)
      → Ready (cleared acq_memory ctrl true 0 (ctrl.page_size / 16) local vaddr ioaddr) 0 0
  fresh-Ready local vaddr ioaddr = record {
    lo = omega (arith, cqs, bounds);
    hi = omega (arith, cqs, bounds);
    le = omega arith;
    near = omega arith;
    head = sym (zero-mod (ctrl.page_size / 16));
    phase = sym (ap (λ (t : ℕ). lnot (t % 2)) (zero-div (ctrl.page_size / 16)));
    latest = λ n lt. absurd (omega arith);
    fresh = λ n le lt. zeroed-shown (ctrl.page_size / 16) n;
  }

  -- For pages of 4 to 64 KB and a controller that takes as many entries as a page has completions, new
  -- admin queues are empty and in order, as executing a command needs them.
  pub admin_queues-Working : Working admin 0 0 × Ready admin.acq 0 0
  admin_queues-Working =
      let (two, most, fewer, half) = bounds in
      let n_cpls = ctrl.page_size / 16 in
      let n_cmds = ctrl.page_size / 64 in
      let local : ℕ = if qmem.local then 1 else 0 in
      rw
        (
          clear_accepts acq_memory ctrl true 0 n_cpls local qmem.vaddr (get_or qmem.ioaddrs 0 0)
              (omega (arith, cqs)) (omega (arith, cqs)) entries,
          clear_accepts asq_memory ctrl false 0 n_cmds local (qmem.vaddr + qmem.page_size)
              (get_or qmem.ioaddrs 1 0) (omega (arith, sqs)) (omega (arith, sqs))
              (omega (arith, cqs, sqs, entries)),
        )
        (
          record {
            runs =
                cleared-Runs asq_memory ctrl false n_cmds local (qmem.vaddr + qmem.page_size)
                  (get_or qmem.ioaddrs 1 0) (omega (arith, sqs)) (omega (arith, sqs));
            whole = laps;
            small = omega (arith, sqs);
            entries = omega arith;
            bell = (_, refl);
            fits = fits;
          },
          fresh-Ready local qmem.vaddr (get_or qmem.ioaddrs 0 0),
        )
