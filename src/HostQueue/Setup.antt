-- ===== src/HostQueue/Setup.antt =====
-- Setting a queue up, and what its doorbell shows.
use atc26_shaper_io.Prelude.{
  ℕ, ◌%◌, ◌≤◌, ◌<◌, ◌≡◌, ◌⊎◌, refl, sym, ap, ◌∙◌, Bool, true, false, ◌||◌, some, ltb, if◌then◌else◌,
  eq→==, ne→==, arith,
}
use atc26_shaper_io.Types.{NvmQueue, NvmCtrl}
use atc26_shaper_io.Util.{sq_dbl, cq_dbl}
use atc26_shaper_io.HostQueue.{
  lnot, einval, cleared, nvm_queue_clear, nvm_queue_reset, nvm_sq_submit, nvm_cq_update,
}
use atc26_shaper_io.HostQueue.Submission.{Runs}
use native.Mathlib.Nat.{zero-mod, zero-div}
use native.Mathlib.Decide.{ℕ_discrete}

-- An empty queue of a valid size, as a client may start to use it.
pub record Started (queue : NvmQueue) (ctrl : NvmCtrl) (is_cq : Bool) (number qs vaddr : ℕ)
    : Type 0 where
  pub runs : Runs queue 0 0
  pub size : queue.qs ≡ qs
  pub memory : queue.vaddr ≡ vaddr
  pub unsubmitted : queue.last ≡ 0
  pub bell :
      queue.db
      ≡ some (
          if is_cq
          then cq_dbl ctrl.mm_ptr number ctrl.dstrd
          else sq_dbl ctrl.mm_ptr number ctrl.dstrd)

module _ (queue : NvmQueue) (ctrl : NvmCtrl) (is_cq : Bool) (number qs local vaddr ioaddr : ℕ) where
  clear_refused :
      (qs < 2) ⊎ ((0x10000 < qs) ⊎ (ctrl.max_qs < qs))
      → nvm_queue_clear queue ctrl is_cq number qs local vaddr ioaddr ≡ (einval, queue)
  unfolding nvm_queue_clear
  clear_refused bad =
      let e : (ltb qs 2 || ltb 0x10000 qs || ltb ctrl.max_qs qs) ≡ true = ground arith in rw e refl

  pub clear_accepts :
      2 ≤ qs
      → qs ≤ 0x10000
      → qs ≤ ctrl.max_qs
      → nvm_queue_clear queue ctrl is_cq number qs local vaddr ioaddr
        ≡ (0, cleared queue ctrl is_cq number qs local vaddr ioaddr)
  unfolding nvm_queue_clear
  clear_accepts lo hi max =
      let e : (ltb qs 2 || ltb 0x10000 qs || ltb ctrl.max_qs qs) ≡ false = ground arith in rw e refl

  pub cleared-Started :
      2 ≤ qs
      → qs ≤ 0x10000
      → Started (cleared queue ctrl is_cq number qs local vaddr ioaddr) ctrl is_cq number qs vaddr
  cleared-Started lo hi = record {
    runs = record {
      lo = lo;
      hi = hi;
      le = omega arith;
      room = omega arith;
      head = sym (zero-mod qs);
      tail = sym (zero-mod qs);
      phase = sym (ap (λ (t : ℕ). lnot (t % 2)) (zero-div qs));
    };
    size = refl;
    memory = refl;
    unsubmitted = refl;
    bell = refl;
  }

  -- A size under 2, over 65536 or over the controller's limit is refused with EINVAL and leaves the
  -- descriptor as it was. Any other size gives an empty queue, whose doorbell is the one of its number.
  pub nvm_queue_clear_lem :
      ((qs < 2) ⊎ ((0x10000 < qs) ⊎ (ctrl.max_qs < qs))
        → nvm_queue_clear queue ctrl is_cq number qs local vaddr ioaddr ≡ (einval, queue))
      × (2 ≤ qs
          → qs ≤ 0x10000
          → qs ≤ ctrl.max_qs
          → (queue' : NvmQueue) × (nvm_queue_clear queue ctrl is_cq number qs local vaddr ioaddr
              ≡ (0, queue'))
            × Started queue' ctrl is_cq number qs vaddr)
  unfolding nvm_queue_clear
  nvm_queue_clear_lem = (
    clear_refused,
    λ lo hi max. (
      cleared queue ctrl is_cq number qs local vaddr ioaddr,
      clear_accepts lo hi max,
      cleared-Started lo hi,
    ),
  )

-- A reset takes a queue of valid size back to its start, whatever has been in it.
pub nvm_queue_reset-Runs :
    (queue : NvmQueue) → 2 ≤ queue.qs → queue.qs ≤ 65536 → Runs (nvm_queue_reset queue) 0 0
unfolding nvm_queue_reset
nvm_queue_reset-Runs queue lo hi = record {
  lo = lo;
  hi = hi;
  le = omega arith;
  room = omega arith;
  head = sym (zero-mod queue.qs);
  tail = sym (zero-mod queue.qs);
  phase = sym (ap (λ (t : ℕ). lnot (t % 2)) (zero-div queue.qs));
}

module _ (q : NvmQueue) (db : ℕ) (bell : q.db ≡ some db) (shows : q.doorbell ≡ q.last) where
  -- On a queue whose doorbell shows the position noted last, a submission leaves the doorbell at the
  -- tail, noted as such, whether or not it had to ring.
  pub nvm_sq_submit_lem : nvm_sq_submit q ≡ record q { doorbell = q.tail; last = q.tail }
  unfolding nvm_sq_submit
  nvm_sq_submit_lem = elim (ℕ_discrete q.last q.tail) [
    | yes same ↦ rw (eq→== _ _ same) (λ i. record q { doorbell = (shows ∙ same) i; last = same i })
    | no moved ↦ rw (ne→== _ _ moved, bell) refl
  ]

  -- On a completion queue whose doorbell shows the position noted last, which its unused tail is at too,
  -- an update leaves the doorbell at the head, noted as such, whether or not it had to ring.
  pub nvm_cq_update_lem :
      q.tail ≡ q.last
      → nvm_cq_update q ≡ record q { doorbell = q.head; tail = q.head; last = q.head }
  unfolding nvm_cq_update
  nvm_cq_update_lem follows = elim (ℕ_discrete q.last q.head) [
    | yes same ↦
        rw (eq→== _ _ same)
          (λ i. record q { doorbell = (shows ∙ same) i; tail = (follows ∙ same) i; last = same i })
    | no moved ↦ rw (ne→== _ _ moved, bell) refl
  ]
