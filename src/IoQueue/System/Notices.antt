-- ===== src/IoQueue/System/Notices.antt =====
-- The NOTIFY phase and the end of a round keep the invariant.
use atc26_shaper_io.Prelude.{
  ℕ, ◌+◌, ◌-◌, ◌%◌, ◌^◌, ◌<◌, ◌≡◌, ◌∙◌, refl, sym, ap, subst, true, Option, some, length-set,
  get_or, set, arith, inl, inr,
}
use atc26_shaper_io.Prelude.Words.{u32}
use atc26_shaper_io.IoQueue.{
  drained, BatchEntry, no_entry, IoQueue, ring_idx, notify_entry, retire_batch,
}
use atc26_shaper_io.IoQueue.System.{Scheduler, System, put, next_round}
use atc26_shaper_io.IoQueue.System.Producers.{put_self, put_ne}
use atc26_shaper_io.IoQueue.System.Invariant.{Shape, Sound}
use atc26_shaper_io.IoQueue.System.Memory.{ring_idx_word}
use atc26_shaper_io.IoQueue.System.Publish.{untaken}
use atc26_shaper_io.IoQueue.System.Seen.{seq-place, seq-done, seq-noted, seq-ended}
use native.Mathlib.Decide.{dec_lt, ℕ_discrete}

pub close-Sound :
    (k : ℕ) (s : System)
    → Sound k s
    → Sound k (record s { scheduler = record s.scheduler { closing = true } })
close-Sound k s is =
    let sh = is.shape in
    let nu = is.numbers in
    record {
      shape = record {
        capacity = sh.capacity;
        mask = sh.mask;
        few = sh.few;
        entries = sh.entries;
        done_seq = sh.done_seq;
        prod_seq = sh.prod_seq;
        batch = sh.batch;
        word = sh.word;
        base = sh.base;
        room = sh.room;
        reach = sh.reach;
      };
      numbers = record {
        taken = nu.taken;
        produced = nu.produced;
        place = nu.place;
        done = nu.done;
        noted = nu.noted;
        quiet = λ e. absurd (cc);
      };
      own = λ p.
          let o = is.own p in
          record {
            below = o.below;
            ahead = o.ahead;
            silent = o.silent;
            within = o.within;
            near = o.near;
            kept = o.kept;
            copied = o.copied;
            past = o.past;
            told = o.told;
            ended = o.ended;
          };
      apart = is.apart;
    }

-- A notice stores the ticket of its slot, at the slot's place.
notify_entry_lem :
    (k : ℕ) (q : IoQueue) (sch : Scheduler) (j : ℕ)
    → Shape k q sch
    → j < sch.accumulated
    → notify_entry q sch.base_head j ≡ record q {
      done_seq = set q.done_seq ((q.cons_head + j) % 2 ^ k) (q.cons_head + j + 1);
      done_flags = set q.done_flags ((q.cons_head + j) % 2 ^ k) 1;
    }
unfolding notify_entry
notify_entry_lem k q sch j sh lt =
    let word : u32 (sch.base_head + j + 1) ≡ q.cons_head + j + 1 =
      omega (arith, sh.base, sh.reach, sh.word) in
    let sum : sch.base_head + j ≡ q.cons_head + j = omega (arith, sh.base) in
    let ix : ring_idx q (u32 (sch.base_head + j)) ≡ (q.cons_head + j) % 2 ^ k =
      rw sum (ring_idx_word q k (q.cons_head + j) sh.mask (omega (arith, sh.reach, sh.word))) in
    rw (word, ix) refl

pub notify-Sound :
    (k : ℕ) (s : System) (j : ℕ)
    → Sound k s
    → s.scheduler.closing ≡ true
    → j < s.scheduler.accumulated
    → Sound k (record s {
      queue = notify_entry s.queue s.scheduler.base_head j;
      scheduler = record s.scheduler { noted = put s.scheduler.noted j true };
      served =
          put s.served (s.scheduler.base_head + j) (some (get_or s.scheduler.batch j no_entry));
    })
notify-Sound k s j is closed lt =
    let q = s.queue in
    let sch = s.scheduler in
    let h = q.cons_head in
    let sh = is.shape in
    let nu = is.numbers in
    rw (notify_entry_lem k q sch j sh lt) (record {
      shape = record {
        capacity = sh.capacity;
        mask = sh.mask;
        few = sh.few;
        entries = sh.entries;
        done_seq = length-set q.done_seq ((h + j) % 2 ^ k) (h + j + 1) ∙ sh.done_seq;
        prod_seq = sh.prod_seq;
        batch = sh.batch;
        word = sh.word;
        base = sh.base;
        room = sh.room;
        reach = sh.reach;
      };
      numbers = record {
        taken = nu.taken;
        produced = nu.produced;
        place = seq-place k q sch sh nu j lt;
        done = seq-done k q sch sh nu j lt;
        noted = seq-noted k q sch sh nu j lt;
        quiet = λ e. absurd (cc);
      };
      own = λ p.
          let o = is.own p in
          let x = s.producers p in
          let entry : Option BatchEntry = some (get_or sch.batch j no_entry) in
          record {
            below = o.below;
            ahead = o.ahead;
            silent = o.silent;
            within = o.within;
            near = o.near;
            kept = o.kept;
            copied = o.copied;
            past = λ b lo.
                put_ne s.served (sch.base_head + j) x.slot entry (λ e. omega (arith, sh.base))
                ∙ o.past b lo;
            told = λ b lo hi noted. elim (ℕ_discrete (x.slot - h) j) [
              | yes e ↦
                  let here : x.slot ≡ sch.base_head + j = omega (arith, sh.base) in
                  let mine = rw e at (o.copied b lo hi) in
                  subst
                    (λ (t : ℕ). put s.served (sch.base_head + j) entry t ≡ some (drained x.request))
                    (sym here) (put_self s.served (sch.base_head + j) entry ∙ ap some mine)
              | no ne ↦
                  put_ne s.served (sch.base_head + j) x.slot entry
                    (λ e. ne (omega (arith, sh.base)))
                  ∙ o.told b lo hi (sym (put_ne sch.noted j (x.slot - h) true ne) ∙ noted)
            ];
            ended = λ b n. seq-ended k q sch sh nu j lt x.slot (o.ended b) n;
          };
      apart = is.apart;
    })

pub retire-Sound :
    (k : ℕ) (s : System) (n_groups : ℕ)
    → Sound k s
    → ((i : ℕ) → i < s.scheduler.accumulated → s.scheduler.noted i ≡ true)
    → Sound k (record s {
      queue = retire_batch s.queue s.scheduler.accumulated n_groups;
      scheduler = next_round (retire_batch s.queue s.scheduler.accumulated n_groups) s.scheduler;
    })
unfolding retire_batch next_round
retire-Sound k s n_groups is all =
    let q = s.queue in
    let sch = s.scheduler in
    let h = q.cons_head in
    let acc = sch.accumulated in
    let sh = is.shape in
    let nu = is.numbers in
    let head : u32 (h + acc) ≡ h + acc = omega (arith, sh.reach, sh.word) in
    record {
      shape = record {
        capacity = sh.capacity;
        mask = sh.mask;
        few = sh.few;
        entries = sh.entries;
        done_seq = sh.done_seq;
        prod_seq = sh.prod_seq;
        batch = sh.batch;
        word = sh.word;
        base = refl;
        room = omega arith;
        reach = omega (arith, sh.reach);
      };
      numbers = record {
        taken = λ i lt. absurd (omega arith);
        produced = nu.produced;
        place = nu.place;
        done = λ i lt. omega (arith, nu.done i lt);
        noted = λ i lt new. absurd (omega (arith, nu.done i lt));
        quiet = λ e i. refl;
      };
      own = λ p.
          let o = is.own p in
          let x = s.producers p in
          record {
            below = o.below;
            ahead = λ b. elim (dec_lt x.slot (h + acc)) [
              | yes lt ↦ absurd (
                  untaken k s p is b (x.slot - h) (omega (arith, o.ahead b))
                    (omega (arith, o.ahead b)))
              | no ge ↦ omega arith
            ];
            silent = o.silent;
            within = λ b. omega (arith, o.within b);
            near = λ b. omega (arith, o.near b);
            kept = λ b lo. o.kept b (omega arith);
            copied = λ b lo hi. absurd (omega arith);
            past = λ b lt. elim (dec_lt x.slot h) [
              | yes old ↦ o.past b old
              | no ge ↦ o.told b (omega arith) (omega arith) (all (x.slot - h) (omega arith))
            ];
            told = λ b lo hi noted. absurd (omega arith);
            ended = λ b n. elim n [
              | inl lt ↦ elim (dec_lt x.slot h) [
                | yes old ↦ o.ended b (inl old)
                | no ge ↦ o.ended b (inr (omega arith, all (x.slot - h) (omega arith)))
              ]
              | inr (hi, t) ↦ absurd (cc)
            ];
          };
      apart = is.apart;
    }
