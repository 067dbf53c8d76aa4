-- ===== src/IoQueue/System/Publish.antt =====
-- The store of a thread into `prod_seq` keeps the invariant.
use atc26_shaper_io.Prelude.{
  ℕ, ◌+◌, ◌-◌, ◌%◌, ◌^◌, ◌<◌, ◌≡◌, ◌≢◌, inl, inr, ◌∙◌, refl, sym, ap, subst, true, List, length,
  length-set, get_or, set, get_or-set_ne, get_or-set_le, arith,
}
use atc26_shaper_io.Prelude.Words.{u32}
use atc26_shaper_io.IoQueue.{ring_idx, publish_slot}
use atc26_shaper_io.IoQueue.System.{Stage, System, put, at_stage}
use atc26_shaper_io.IoQueue.System.Producers.{busy, put_all, put-Apart}
use atc26_shaper_io.IoQueue.System.Invariant.{unpublished, inside, stored, Own, Sound}
use atc26_shaper_io.IoQueue.System.Memory.{ring_idx_lem, window, set_here}
use native.Mathlib.Decide.{ℕ_discrete}

unpublished-busy : (g : Stage) → unpublished g ≡ true → busy g ≡ true
unpublished-busy Stage.idle h = absurd (cc)
unpublished-busy Stage.claimed h = refl
unpublished-busy Stage.admitted h = refl
unpublished-busy Stage.written h = refl
unpublished-busy Stage.waiting h = absurd (cc)

-- The sequence number of one slot does not show another slot as published.
set-silent :
    (xs : List ℕ) (k s t : ℕ)
    → length xs ≡ 2 ^ k
    → s ≢ t
    → get_or xs (t % 2 ^ k) 0 ≢ t + 1
    → get_or (set xs (s % 2 ^ k) (s + 1)) (t % 2 ^ k) 0 ≢ t + 1
set-silent xs k s t size ne silent e = elim (ℕ_discrete (s % 2 ^ k) (t % 2 ^ k)) [
  | yes same ↦
      let here : get_or (set xs (s % 2 ^ k) (s + 1)) (t % 2 ^ k) 0 ≡ s + 1 =
        subst (λ (j : ℕ). get_or (set xs (s % 2 ^ k) (s + 1)) j 0 ≡ s + 1) same
          (set_here xs k s (s + 1) 0 size) in
      ne (omega (arith, here, e))
  | no away ↦ silent (sym (get_or-set_ne xs (s % 2 ^ k) (t % 2 ^ k) (s + 1) 0 away) ∙ e)
]

-- The scheduler has not taken the slot of a thread that is about to publish.
pub untaken :
    (k : ℕ) (s : System) (p : ℕ)
    → Sound k s
    → unpublished (s.producers p).stage ≡ true
    → (i : ℕ) → i < s.scheduler.accumulated
    → s.queue.cons_head + i ≢ (s.producers p).slot
untaken k s p is open' i lt e =
    let seq = is.numbers.taken i lt in (is.own p).silent open' (rw e at seq)

pub publish-Sound :
    (k : ℕ) (s : System) (p : ℕ)
    → Sound k s
    → (s.producers p).stage ≡ Stage.written
    → Sound k (record s {
      queue = publish_slot s.queue (s.producers p).slot;
      producers = put s.producers p (at_stage (s.producers p) Stage.waiting);
    })
unfolding publish_slot
publish-Sound k s p is at =
    let o = is.own p in
    let q = s.queue in
    let h = q.cons_head in
    let sh = is.shape in
    let nu = is.numbers in
    let x = s.producers p in
    let was : busy x.stage ≡ true = ap busy at in
    let open' : unpublished x.stage ≡ true = ap unpublished at in
    let ins : inside x.stage ≡ true = ap inside at in
    let put_in : stored x.stage ≡ true = ap stored at in
    let ix : ring_idx q x.slot ≡ x.slot % 2 ^ k = ring_idx_lem q k x.slot sh.mask in
    let seq : u32 (x.slot + 1) ≡ x.slot + 1 = omega (arith, sh.word, o.below was) in
    let not_yet : x.slot < h + s.scheduler.accumulated → ⊥ = λ lt.
      untaken k s p is open' (x.slot - h) (omega (arith, o.ahead open'))
        (omega (arith, o.ahead open')) in
    record {
      shape = record {
        capacity = sh.capacity;
        mask = sh.mask;
        few = sh.few;
        entries = sh.entries;
        done_seq = sh.done_seq;
        prod_seq = length-set q.prod_seq (ring_idx q x.slot) (u32 (x.slot + 1)) ∙ sh.prod_seq;
        batch = sh.batch;
        word = sh.word;
        base = sh.base;
        room = sh.room;
        reach = sh.reach;
      };
      numbers = record {
        taken = λ i lt.
            let away =
              window k h x.slot (h + i) (o.ahead open') (omega arith) (o.within ins)
                (omega (arith, sh.room)) (λ e. untaken k s p is open' i lt (sym e)) in
            rw (ix, seq)
              (get_or-set_ne q.prod_seq (x.slot % 2 ^ k) ((h + i) % 2 ^ k) (x.slot + 1) 0 away
                ∙ nu.taken i lt);
        produced = λ i. rw seq (
            get_or-set_le q.prod_seq (ring_idx q x.slot) i (x.slot + 1) 0 q.prod_tail
              (omega (arith, o.below was)) (nu.produced i));
        place = nu.place;
        done = nu.done;
        noted = nu.noted;
        quiet = nu.quiet;
      };
      own =
          put_all (Own k (publish_slot q x.slot) s.scheduler s.served) s.producers p _
            (record {
              below = λ b. o.below was;
              ahead = λ b. absurd (cc);
              silent = λ b. absurd (cc);
              within = λ b. absurd (cc);
              near = λ b. o.near put_in;
              kept = λ b lo. o.kept put_in lo;
              copied = λ b lo hi. absurd (not_yet hi);
              past = λ b lt. absurd (omega (arith, o.ahead open'));
              told = λ b lo hi n. absurd (not_yet hi);
              ended = λ b n. elim n [
                | inl lt ↦ absurd (omega (arith, o.ahead open'))
                | inr (hi, t) ↦ absurd (not_yet hi)
              ];
            })
            (λ i ne.
              let y = is.own i in
              record {
                below = y.below;
                ahead = y.ahead;
                silent = λ b e.
                    let apart =
                      is.apart p i (λ f. ne (sym f)) was
                        (unpublished-busy (s.producers i).stage b) in
                    let other = rw (ix, seq) at e in
                    set-silent q.prod_seq k x.slot (s.producers i).slot sh.prod_seq apart
                      (y.silent b) other;
                within = y.within;
                near = y.near;
                kept = y.kept;
                copied = y.copied;
                past = y.past;
                told = y.told;
                ended = y.ended;
              });
      apart = put-Apart s.producers p _ is.apart (λ i ne b c. is.apart p i (λ f. ne (sym f)) was c);
    }
