-- ===== src/IoQueue/System/Moves.antt =====
-- The steps of the threads keep the invariant.
use atc26_shaper_io.Prelude.{
  ℕ, ◌+◌, ◌%◌, ◌^◌, ◌≤◌, ◌<◌, ◌≡◌, ◌∙◌, refl, sym, ap, true, false, arith,
}
use atc26_shaper_io.Prelude.Words.{u32}
use atc26_shaper_io.IoQueue.{IoRequest, claim_slot, queue_full}
use atc26_shaper_io.IoQueue.System.{Stage, Producer, System, put, at_stage}
use atc26_shaper_io.IoQueue.System.Producers.{busy, put_all, put-Apart}
use atc26_shaper_io.IoQueue.System.Invariant.{unpublished, Own, Sound}

abbrev claiming : System → ℕ → IoRequest → System
claiming s p e = record s {
  queue = claim_slot s.queue;
  producers =
      put s.producers p (record { stage = Stage.claimed; slot = s.queue.prod_tail; request = e });
}

pub claim-Sound :
    (k : ℕ) (s : System) (p : ℕ) (e : IoRequest)
    → Sound k s
    → s.queue.prod_tail + 1 < 2 ^ 32
    → Sound k (claiming s p e)
unfolding claim_slot
claim-Sound k s p e is small =
    let q = s.queue in
    let sch = s.scheduler in
    let sh = is.shape in
    let nu = is.numbers in
    let one : u32 (q.prod_tail + 1) ≡ q.prod_tail + 1 = omega arith in
    record {
      shape = record {
        capacity = sh.capacity;
        mask = sh.mask;
        few = sh.few;
        entries = sh.entries;
        done_seq = sh.done_seq;
        prod_seq = sh.prod_seq;
        batch = sh.batch;
        word = omega arith;
        base = sh.base;
        room = sh.room;
        reach = omega (arith, sh.reach);
      };
      numbers = record {
        taken = nu.taken;
        produced = λ i. omega (arith, nu.produced i);
        place = nu.place;
        done = nu.done;
        noted = nu.noted;
        quiet = nu.quiet;
      };
      own =
          put_all (Own k (claim_slot q) sch s.served) s.producers p _
            (record {
              below = λ b. omega arith;
              ahead = λ b. omega (arith, sh.reach);
              silent = λ b e. omega (arith, nu.produced (q.prod_tail % 2 ^ k));
              within = λ b. absurd (cc);
              near = λ b. absurd (cc);
              kept = λ b. absurd (cc);
              copied = λ b. absurd (cc);
              past = λ b. absurd (cc);
              told = λ b. absurd (cc);
              ended = λ b. absurd (cc);
            })
            (λ i ne.
              let o = is.own i in
              record {
                below = λ b. omega (arith, o.below b);
                ahead = o.ahead;
                silent = o.silent;
                within = o.within;
                near = o.near;
                kept = o.kept;
                copied = o.copied;
                past = o.past;
                told = o.told;
                ended = o.ended;
              });
      apart = put-Apart s.producers p _ is.apart (λ i ne b c e. omega (arith, (is.own i).below c));
    }

-- A thread that keeps its slot moves alone.
moved-Sound :
    (k : ℕ) (s : System) (p : ℕ) (x : Producer)
    → Sound k s
    → x.slot ≡ (s.producers p).slot
    → busy (s.producers p).stage ≡ true
    → Own k s.queue s.scheduler s.served x
    → Sound k (record s { producers = put s.producers p x })
moved-Sound k s p x is same was own = record {
  shape = is.shape;
  numbers = is.numbers;
  own = put_all (Own k s.queue s.scheduler s.served) s.producers p x own (λ i ne. is.own i);
  apart =
      put-Apart s.producers p x is.apart
        (λ i ne b c e. is.apart p i (λ f. ne (sym f)) was c (sym same ∙ e));
}

pub admit-Sound :
    (k : ℕ) (s : System) (p : ℕ)
    → Sound k s
    → (s.producers p).stage ≡ Stage.claimed
    → queue_full s.queue (s.producers p).slot ≡ false
    → Sound k (record s { producers = put s.producers p (at_stage (s.producers p) Stage.admitted) })
unfolding queue_full
admit-Sound k s p is at room =
    let o = is.own p in
    let q = s.queue in
    let sh = is.shape in
    let x = s.producers p in
    let was : busy x.stage ≡ true = ap busy at in
    let open' : unpublished x.stage ≡ true = ap unpublished at in
    let size : q.capacity ≡ 2 ^ k = sh.capacity in
    let lo : q.cons_head ≤ x.slot = o.ahead open' in
    let hi : x.slot < q.prod_tail = o.below was in
    let free : x.slot < q.cons_head + 2 ^ k = ground (arith, sh.word, room, lo, hi, size) in
    moved-Sound k s p _ is refl was (record {
      below = λ b. o.below was;
      ahead = λ b. o.ahead open';
      silent = λ b. o.silent open';
      within = λ b. free;
      near = λ b. absurd (cc);
      kept = λ b. absurd (cc);
      copied = λ b. absurd (cc);
      past = λ b. absurd (cc);
      told = λ b. absurd (cc);
      ended = λ b. absurd (cc);
    })

pub return-Sound :
    (k : ℕ) (s : System) (p : ℕ)
    → Sound k s
    → (s.producers p).stage ≡ Stage.waiting
    → Sound k (record s { producers = put s.producers p (at_stage (s.producers p) Stage.idle) })
return-Sound k s p is at = moved-Sound k s p _ is refl (ap busy at) (record {
  below = λ b. absurd (cc);
  ahead = λ b. absurd (cc);
  silent = λ b. absurd (cc);
  within = λ b. absurd (cc);
  near = λ b. absurd (cc);
  kept = λ b. absurd (cc);
  copied = λ b. absurd (cc);
  past = λ b. absurd (cc);
  told = λ b. absurd (cc);
  ended = λ b. absurd (cc);
})
