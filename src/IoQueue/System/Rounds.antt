-- ===== src/IoQueue/System/Rounds.antt =====
-- The steps of the scheduler keep the invariant.
use atc26_shaper_io.Prelude.{
  ap, ℕ, ◌+◌, ◌-◌, ◌%◌, ◌^◌, ◌≤◌, ◌<◌, ◌≡◌, inl, inr, ◌∙◌, refl, true, false, get_or, min, arith,
}
use atc26_shaper_io.Prelude.Words.{u32, sub_u32}
use atc26_shaper_io.IoQueue.{drained, IoQueue, io_sched_scan_ready}
use atc26_shaper_io.IoQueue.Ready.{Ready, scan_ready-Ready}
use atc26_shaper_io.IoQueue.System.{Stage, Scheduler, System, collected}
use atc26_shaper_io.IoQueue.System.Invariant.{stored, pending, Shape, Sound}
use atc26_shaper_io.IoQueue.System.Memory.{
  ring_idx_word, copy_entries-before, copy_entries_lem, length-copy_entries,
}
use native.Mathlib.Decide.{dec_lt}

pending-stored : (g : Stage) → pending g ≡ true → stored g ≡ true
pending-stored Stage.idle h = absurd (cc)
pending-stored Stage.claimed h = absurd (cc)
pending-stored Stage.admitted h = absurd (cc)
pending-stored Stage.written h = absurd (cc)
pending-stored Stage.waiting h = refl

-- What a scan after the accumulated entries finds, in words that do not wrap.
module _ (k : ℕ) (q : IoQueue) (sch : Scheduler) (sh : Shape k q sch) (limit : ℕ) where
  abbrev from : ℕ
  from = q.cons_head + sch.accumulated

  abbrev avail : ℕ
  avail = io_sched_scan_ready q (u32 (sch.base_head + sch.accumulated)) limit

  found : Ready q from (min (q.prod_tail - from) limit) avail
  found =
      let word : u32 (sch.base_head + sch.accumulated) ≡ from =
        omega (arith, sh.base, sh.reach, sh.word) in
      let rest : sub_u32 q.prod_tail from ≡ q.prod_tail - from = omega (arith, sh.reach, sh.word) in
      let r = scan_ready-Ready q from limit in rw word (rw rest at r)

  pub avail-reach : from + avail ≤ q.prod_tail
  avail-reach = omega (arith, found.bound, sh.reach)

  pub avail-limit : avail ≤ limit
  avail-limit = omega (arith, found.bound)

  pub avail-taken : (i : ℕ) → i < avail → get_or q.prod_seq ((from + i) % 2 ^ k) 0 ≡ from + i + 1
  avail-taken i lt =
      let small : from + i < 2 ^ 32 = omega (arith, avail-reach, sh.word) in
      let next : u32 (from + i + 1) ≡ from + i + 1 = omega (arith, avail-reach, sh.word) in
      let h = found.taken i lt in rw (ring_idx_word q k (from + i) sh.mask small, next) at h

pub collect-Sound :
    (k : ℕ) (s : System) (limit : ℕ)
    → Sound k s
    → s.scheduler.closing ≡ false
    → limit ≤ s.queue.capacity - s.scheduler.accumulated
    → Sound k (record s { scheduler = collected s.queue s.scheduler limit })
unfolding collected
collect-Sound k s limit is open' few =
    let q = s.queue in
    let sch = s.scheduler in
    let h = q.cons_head in
    let sh = is.shape in
    let nu = is.numbers in
    let acc = sch.accumulated in
    let n = io_sched_scan_ready q (u32 (sch.base_head + acc)) limit in
    let reach' : h + acc + n ≤ q.prod_tail = avail-reach k q sch sh limit in
    let n_le : n ≤ limit = avail-limit k q sch sh limit in
    let room' : acc + n ≤ 2 ^ k = omega (arith, sh.capacity, sh.room) in
    record {
      shape = record {
        capacity = sh.capacity;
        mask = sh.mask;
        few = sh.few;
        entries = sh.entries;
        done_seq = sh.done_seq;
        prod_seq = sh.prod_seq;
        batch = length-copy_entries q sch.base_head acc n sch.batch ∙ sh.batch;
        word = sh.word;
        base = sh.base;
        room = room';
        reach = omega arith;
      };
      numbers = record {
        taken = λ i lt. elim (dec_lt i acc) [
          | yes lo ↦ nu.taken i lo
          | no ge ↦
              let t = avail-taken k q sch sh limit (i - acc) (omega arith) in
              let e : h + acc + (i - acc) ≡ h + i = omega arith in rw e at t
        ];
        produced = nu.produced;
        place = nu.place;
        done = λ i lt. omega (arith, nu.done i lt);
        noted = nu.noted;
        quiet = nu.quiet;
      };
      own = λ p.
          let o = is.own p in
          let x = s.producers p in
          record {
            below = o.below;
            ahead = o.ahead;
            silent = o.silent;
            within = o.within;
            near = o.near;
            kept = o.kept;
            copied = λ b lo hi. elim (dec_lt x.slot (h + acc)) [
              | yes old ↦
                  copy_entries-before q sch.base_head acc n (x.slot - h) sch.batch (omega arith)
                  ∙ o.copied b lo old
              | no new ↦
                  let e : sch.base_head + (x.slot - h) ≡ x.slot = omega (arith, sh.base) in
                  let ix = ring_idx_word q k x.slot sh.mask (omega (arith, sh.word)) in
                  let c =
                    copy_entries_lem q sch.base_head acc n (x.slot - h) sch.batch (omega arith)
                      (omega arith) (omega (arith, sh.batch)) in
                  (rw (e, ix) at c) ∙ ap drained (o.kept (pending-stored x.stage b) lo)
            ];
            past = o.past;
            told = λ b lo hi noted. absurd (let f = nu.quiet open' (x.slot - h) in cc);
            ended = λ b n. elim n [
              | inl lt ↦ o.ended b (inl lt)
              | inr (hi, t) ↦ absurd (let f = nu.quiet open' (x.slot - h) in cc)
            ];
          };
      apart = is.apart;
    }
