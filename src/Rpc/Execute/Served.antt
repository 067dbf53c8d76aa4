-- ===== src/Rpc/Execute/Served.antt =====
-- `execute_command` on queues that have been in use.
use atc26_shaper_io.Prelude.{
  ℕ, ◌+◌, ◌-◌, ◌*◌, ◌/◌, ◌%◌, ◌^◌, ◌≤◌, ◌<◌, ◌≡◌, ◌≢◌, ◌∙◌, refl, sym, ap, subst, Option, none,
  some, [], get_or, set, arith,
}
use atc26_shaper_io.Types.{Dwords, NvmQueue}
use atc26_shaper_io.HostQueue.{nvm_sq_enqueue}
use atc26_shaper_io.HostQueue.Submission.{Runs, nvm_sq_enqueue-Runs}
use atc26_shaper_io.HostQueue.Completion.{Ready}
use atc26_shaper_io.HostQueue.Frame.{Same, nvm_sq_enqueue-Same}
use atc26_shaper_io.Rpc.{LocalAdmin, eagain, etime}
use atc26_shaper_io.Rpc.Execute.{set_cid, enqueued, execute_command}
use atc26_shaper_io.Rpc.Execute.Answer.{
  sent_to, polled_with, polled, Served, answered-Served, missed-Served,
}
use native.Mathlib.Nat.{div-add-mod}

-- Admin queues in use: `t` commands have been submitted, of which `h` are done.
pub record Working (admin : LocalAdmin) (h t : ℕ) : Type 0 where
  pub runs : Runs admin.asq h t
  pub whole : 65536 % admin.asq.qs ≡ 0
  pub small : admin.asq.qs ≤ 32768
  pub entries : 0 < admin.asq.es
  pub bell : (db : ℕ) × (admin.asq.db ≡ some db)
  pub fits : admin.timeout * 1000000 < 2 ^ 64

module _ (device : NvmQueue → NvmQueue → NvmQueue) (admin : LocalAdmin) (cmd : Dwords) (h t n : ℕ)
    (is : Working admin h t) where
  abbrev asq : NvmQueue
  asq = admin.asq

  abbrev c : ℕ
  c = 65536 / asq.qs

  laps : 65536 ≡ asq.qs * c
  laps = omega (arith, div-add-mod 65536 asq.qs, is.whole)

  Served-Working :
      (admin' : LocalAdmin) (h' n' p' : ℕ)
      → Served admin cmd t admin' h' n' p'
      → Working admin' h' (t + 1)
  Served-Working admin' h' n' p' served = record {
    runs = served.runs;
    whole = ap (λ (u : ℕ). 65536 % u) served.same.qs ∙ is.whole;
    small = omega (arith, served.same.qs, is.small);
    entries = omega (arith, served.same.es, is.entries);
    bell = (is.bell.0, served.same.db ∙ is.bell.1);
    fits = omega (arith, served.same_timeout, is.fits);
  }

  -- What enqueuing gives where there is room.
  abbrev Enqueued : Option ℕ × NvmQueue → Type 0
  Enqueued r =
      (sq : NvmQueue) × (r ≡ (some (asq.vaddr + asq.es * (t % asq.qs)), sq))
      × Runs sq h (t + 1)
      × Same asq sq
      × (sq.mem ≡ asq.mem)

  room : t - h ≢ asq.qs - 1 → Enqueued (nvm_sq_enqueue asq)
  room ne =
      let (full, next, apart) = nvm_sq_enqueue-Runs asq h t c laps is.runs in
      let (sq, e, runs) = next ne in
      let (same, mem) = nvm_sq_enqueue-Same asq in
      let same_sq : Same asq sq = subst (λ (r : Option ℕ × NvmQueue). Same asq r.1) e same in
      let mem_sq : sq.mem ≡ asq.mem = sym (ap (λ (r : Option ℕ × NvmQueue). r.1.mem) e) ∙ mem in
      (sq, e, runs, same_sq, mem_sq)

  abbrev seen : Option ℕ × NvmQueue → ℕ → NvmQueue
  seen r i = polled_with device admin (sent_to r cmd) i

  -- A command on admin queues with room, that the controller answers within the timeout: the call
  -- returns 0 and a copy of the completion that is at the head of the completion queue, whichever command
  -- that belongs to. The command stood in its slot with its number, modulo twice the queue's size, as
  -- its identifier, and the queues are ready for the next.
  pub execute_command-Answered :
      (p d : ℕ)
      → t - h ≢ asq.qs - 1
      → d ≤ admin.timeout
      → ((i : ℕ) → i < d → Ready (polled device admin cmd i) n n)
      → Ready (polled device admin cmd d) n p
      → n < p
      → 0 < (polled device admin cmd d).es
      → (admin' : LocalAdmin) × (execute_command (admin.timeout + 1) device admin cmd
          ≡ some (
            0,
            some (get_or (polled device admin cmd d).mem (n % (polled device admin cmd d).qs) []),
            admin',
          ))
        × Working admin' (h + 1) (t + 1)
        × Ready admin'.acq (n + 1) p
        × (admin'.asq.mem ≡ set asq.mem (t % asq.qs) (set_cid cmd ((t + 1) % (2 * asq.qs))))
  unfolding execute_command
  execute_command-Answered p d ne =
      let (sq, e, runs, same, mem) = room ne in
      subst (λ (r : Option ℕ × NvmQueue). Goal r) (sym e)
        (λ near before new lt pos.
          let (admin', done, served) =
            answered-Served admin cmd t sq h is.entries is.small runs same mem device n is.fits d p
              is.bell.0 is.bell.1 is.runs.le near before new lt pos in
          (
            admin',
            done,
            Served-Working admin' (h + 1) (n + 1) p served,
            served.ready,
            served.command,
          ))
    where
      Goal : Option ℕ × NvmQueue → Type 0
      Goal r =
          d ≤ admin.timeout
          → ((i : ℕ) → i < d → Ready (seen r i) n n)
          → Ready (seen r d) n p
          → n < p
          → 0 < (seen r d).es
          → (admin' : LocalAdmin) × (enqueued (admin.timeout + 1) device admin cmd r.0 r.1
              ≡ some (0, some (get_or (seen r d).mem (n % (seen r d).qs) []), admin'))
            × Working admin' (h + 1) (t + 1)
            × Ready admin'.acq (n + 1) p
            × (admin'.asq.mem ≡ set asq.mem (t % asq.qs) (set_cid cmd ((t + 1) % (2 * asq.qs))))

  full : t - h ≡ asq.qs - 1 → nvm_sq_enqueue asq ≡ (none, asq)
  full e = let (full, next, apart) = nvm_sq_enqueue-Runs asq h t c laps is.runs in full e

  -- With all slots but one taken the call returns EAGAIN and changes nothing. With room, but no
  -- completion within the timeout, it returns ETIME: the command stays submitted, and its slot is never
  -- given back by this call.
  pub execute_command-Missed :
      (t - h ≡ asq.qs - 1
        → execute_command (admin.timeout + 1) device admin cmd ≡ some (eagain, none, admin))
      × (t - h ≢ asq.qs - 1
          → ((i : ℕ) → i ≤ admin.timeout → Ready (polled device admin cmd i) n n)
          → (admin' : LocalAdmin) × (execute_command (admin.timeout + 1) device admin cmd
              ≡ some (etime, none, admin'))
            × Working admin' h (t + 1)
            × Ready admin'.acq n n)
  unfolding execute_command
  execute_command-Missed = (
    λ e. rw (full e) refl,
    λ ne.
        let (sq, e, runs, same, mem) = room ne in
        subst (λ (r : Option ℕ × NvmQueue). Goal r) (sym e)
          (λ before.
            let (admin', done, served) =
              missed-Served admin cmd t sq h is.entries is.small runs same mem device n is.fits
                before in
            (admin', done, Served-Working admin' h n n served, served.ready)),
  )
    where
      Goal : Option ℕ × NvmQueue → Type 0
      Goal r =
          ((i : ℕ) → i ≤ admin.timeout → Ready (seen r i) n n)
          → (admin' : LocalAdmin) × (enqueued (admin.timeout + 1) device admin cmd r.0 r.1
              ≡ some (etime, none, admin'))
            × Working admin' h (t + 1)
            × Ready admin'.acq n n
