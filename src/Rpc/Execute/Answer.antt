-- ===== src/Rpc/Execute/Answer.antt =====
-- `execute_command`: a command that the controller answers in time, and one that it does not.
use atc26_shaper_io.Prelude.{
  ℕ, ◌+◌, ◌-◌, ◌*◌, ◌/◌, ◌%◌, ◌^◌, ◌≤◌, ◌<◌, ◌≡◌, ◌∙◌, refl, ap, Option, none, some, [], get_or,
  set, iterate, if_either, ◌==◌, arith,
}
use atc26_shaper_io.Prelude.Words.{u32}
use atc26_shaper_io.Types.{Dwords, NvmQueue}
use atc26_shaper_io.HostQueue.{cq_taken, nvm_sq_enqueue, nvm_sq_update, nvm_cq_update}
use atc26_shaper_io.HostQueue.Submission.{Runs, nvm_sq_update-Runs}
use atc26_shaper_io.HostQueue.Completion.{Ready}
use atc26_shaper_io.HostQueue.Waiting.{
  entry, nvm_cq_dequeue_block-finds, nvm_cq_dequeue_block-misses,
}
use atc26_shaper_io.HostQueue.Frame.{
  Same, nvm_sq_submit-Runs, nvm_sq_update-Same, nvm_cq_update-Ready, stored-Runs,
}
use atc26_shaper_io.Rpc.{LocalAdmin, etime}
use atc26_shaper_io.Rpc.Execute.{nvm_default_cid, set_cid, store, fetch, submitted, enqueued}
use atc26_shaper_io.Rpc.Execute.Cid.{nvm_default_cid_lem}
use native.Mathlib.Nat.{mul-div_cancel_left}

-- The submission queue that the controller sees after a command.
abbrev pub sent_to : Option ℕ × NvmQueue → Dwords → NvmQueue
sent_to (none, asq) cmd = asq
sent_to (some addr, asq) cmd = submitted asq addr cmd

abbrev pub sent : LocalAdmin → Dwords → NvmQueue
sent admin cmd = sent_to (nvm_sq_enqueue admin.asq) cmd

-- The completion queue that the host sees at poll `i`.
abbrev pub polled_with : (NvmQueue → NvmQueue → NvmQueue) → LocalAdmin → NvmQueue → ℕ → NvmQueue
polled_with device admin rung i = iterate i (device rung) (device rung admin.acq)

abbrev pub polled : (NvmQueue → NvmQueue → NvmQueue) → LocalAdmin → Dwords → ℕ → NvmQueue
polled device admin cmd = polled_with device admin (sent admin cmd)

abbrev Answer : Type 0
Answer = Option (ℕ × Option Dwords × LocalAdmin)

-- Taking a completion leaves it in its place.
fetch-taken :
    (cq : NvmQueue) (n : ℕ)
    → 0 < cq.es
    → fetch (cq_taken cq (some (entry cq n))) (entry cq n) ≡ get_or cq.mem (n % cq.qs) []
fetch-taken cq n pos =
    if_either (λ q. fetch q (entry cq n) ≡ get_or cq.mem (n % cq.qs) [])
      (u32 (cq.head + 1) == cq.qs) (λ e. there) (λ e. there)
  where
    place : (cq.vaddr + cq.es * (n % cq.qs) - cq.vaddr) / cq.es ≡ n % cq.qs
    place =
        let e : cq.vaddr + cq.es * (n % cq.qs) - cq.vaddr ≡ cq.es * (n % cq.qs) = omega arith in
        rw e (mul-div_cancel_left (n % cq.qs) pos)

    there :
        get_or cq.mem ((cq.vaddr + cq.es * (n % cq.qs) - cq.vaddr) / cq.es) []
        ≡ get_or cq.mem (n % cq.qs) []
    there = ap (λ (u : ℕ). get_or cq.mem u []) place

module _ (admin : LocalAdmin) (cmd : Dwords) (t : ℕ) where
  abbrev asq : NvmQueue
  asq = admin.asq

  -- The queues after command `t`, `h'` commands being done and the next completion being `n'` of `p'`.
  pub record Served (admin' : LocalAdmin) (h' n' p' : ℕ) : Type 0 where
    pub runs : Runs admin'.asq h' (t + 1)
    pub ready : Ready admin'.acq n' p'
    pub same : Same asq admin'.asq
    pub same_timeout : admin'.timeout ≡ admin.timeout
    pub command : admin'.asq.mem ≡ set asq.mem (t % asq.qs) (set_cid cmd ((t + 1) % (2 * asq.qs)))

  module _ (sq : NvmQueue) (h : ℕ) (pos : 0 < asq.es) (small : asq.qs ≤ 32768)
      (is : Runs sq h (t + 1)) (same : Same asq sq) (memory : sq.mem ≡ asq.mem) where
    abbrev addr : ℕ
    addr = asq.vaddr + asq.es * (t % asq.qs)

    abbrev rung : NvmQueue
    rung = submitted sq addr cmd

    place : (addr - sq.vaddr) / sq.es ≡ t % asq.qs
    place =
        let e : addr - sq.vaddr ≡ asq.es * (t % asq.qs) = omega (arith, same.vaddr) in
        rw (e, same.es) (mul-div_cancel_left (t % asq.qs) pos)

    id : nvm_default_cid sq ≡ (t + 1) % (2 * asq.qs)
    id =
        nvm_default_cid_lem sq h (t + 1) (omega (arith, same.qs)) is
        ∙ ap (λ (u : ℕ). (t + 1) % (2 * u)) same.qs

    rung-Runs :
        Runs rung h (t + 1)
        × Same asq rung
        × (rung.mem ≡ set asq.mem (t % asq.qs) (set_cid cmd ((t + 1) % (2 * asq.qs))))
    rung-Runs =
        let (runs, kept, mem) =
          nvm_sq_submit-Runs (store sq addr (set_cid cmd (nvm_default_cid sq))) h (t + 1)
            (stored-Runs sq h (t + 1) _ is) in
        (
          runs,
          record {
            qs = kept.qs ∙ same.qs;
            es = kept.es ∙ same.es;
            vaddr = kept.vaddr ∙ same.vaddr;
            db = kept.db ∙ same.db;
          },
          mem
              ∙ ap (λ m. set m ((addr - sq.vaddr) / sq.es) (set_cid cmd (nvm_default_cid sq)))
                  memory
              ∙ ap (λ (u : ℕ). set asq.mem u (set_cid cmd (nvm_default_cid sq))) place
              ∙ ap (λ (u : ℕ). set asq.mem (t % asq.qs) (set_cid cmd u)) id,
        )

    module _ (device : NvmQueue → NvmQueue → NvmQueue) (n : ℕ)
        (fits : admin.timeout * 1000000 < 2 ^ 64) where
      abbrev at_poll : NvmQueue → ℕ → NvmQueue
      at_poll q i = polled_with device admin q i

      pub answered-Served :
          (d p db : ℕ)
          → asq.db ≡ some db
          → h ≤ t
          → d ≤ admin.timeout
          → ((i : ℕ) → i < d → Ready (at_poll rung i) n n)
          → Ready (at_poll rung d) n p
          → n < p
          → 0 < (at_poll rung d).es
          → (admin' : LocalAdmin) × (enqueued (admin.timeout + 1) device admin cmd (some addr) sq
              ≡ some (0, some (get_or (at_poll rung d).mem (n % (at_poll rung d).qs) []), admin'))
            × Served admin' (h + 1) (n + 1) p
      answered-Served d p db bell le near before is_new new es_pos =
          let (runs, kept, mem) = rung-Runs in
          let (found, after) =
            nvm_cq_dequeue_block-finds (device rung) (device rung admin.acq) admin.timeout d n p
              fits near before is_new new in
          let (kept', mem') = nvm_sq_update-Same rung in
          let acq = cq_taken (at_poll rung d) (some (entry (at_poll rung d) n)) in
          (
            record admin { asq = nvm_sq_update rung; acq = nvm_cq_update acq },
            rw (found, fetch-taken (at_poll rung d) n es_pos) refl,
            record {
              runs = nvm_sq_update-Runs rung h (t + 1) db (kept.db ∙ bell) runs (omega arith);
              ready = nvm_cq_update-Ready acq (n + 1) p after;
              same = record {
                qs = kept'.qs ∙ kept.qs;
                es = kept'.es ∙ kept.es;
                vaddr = kept'.vaddr ∙ kept.vaddr;
                db = kept'.db ∙ kept.db;
              };
              same_timeout = refl;
              command = mem' ∙ mem;
            },
          )

      pub missed-Served :
          ((i : ℕ) → i ≤ admin.timeout → Ready (at_poll rung i) n n)
          → (admin' : LocalAdmin) × (enqueued (admin.timeout + 1) device admin cmd (some addr) sq
              ≡ some (etime, none, admin'))
            × Served admin' h n n
      missed-Served before =
          let (runs, kept, mem) = rung-Runs in
          let missed =
            nvm_cq_dequeue_block-misses (device rung) (device rung admin.acq) admin.timeout n fits
              before in
          (
            record admin { asq = rung; acq = at_poll rung admin.timeout },
            rw missed refl,
            record {
              runs = runs;
              ready = before admin.timeout (omega arith);
              same = kept;
              same_timeout = refl;
              command = mem;
            },
          )
