-- ===== src/IoQueue/System/Stores.antt =====
-- The stores of a thread into the ring keep the invariant.
use atc26_shaper_io.Prelude.{
  ℕ, ◌+◌, ◌%◌, ◌^◌, ◌≤◌, ◌<◌, ◌≡◌, ◌≢◌, ◌∙◌, refl, sym, ap, true, length-set, get_or-set_ne,
}
use atc26_shaper_io.IoQueue.{no_request, ring_idx, write_entry}
use atc26_shaper_io.IoQueue.System.{Stage, System, put, at_stage}
use atc26_shaper_io.IoQueue.System.Producers.{busy, put_all, put-Apart}
use atc26_shaper_io.IoQueue.System.Invariant.{unpublished, inside, stored, Own, Sound}
use atc26_shaper_io.IoQueue.System.Memory.{ring_idx_lem, window, set_here}

-- A thread that is let in has a place of its own among the threads that have a slot of this round.
others_apart :
    (k : ℕ) (s : System) (p i : ℕ)
    → Sound k s
    → i ≢ p
    → inside (s.producers p).stage ≡ true
    → busy (s.producers p).stage ≡ true
    → busy (s.producers i).stage ≡ true
    → s.queue.cons_head ≤ (s.producers p).slot
    → s.queue.cons_head ≤ (s.producers i).slot
    → (s.producers i).slot < s.queue.cons_head + 2 ^ k
    → (s.producers p).slot % 2 ^ k ≢ (s.producers i).slot % 2 ^ k
others_apart k s p i is ne ins bp bi lp li near =
    window k s.queue.cons_head (s.producers p).slot (s.producers i).slot lp li
      ((is.own p).within ins) near (is.apart p i (λ f. ne (sym f)) bp bi)

pub stored-busy : (g : Stage) → stored g ≡ true → busy g ≡ true
stored-busy Stage.idle h = absurd (cc)
stored-busy Stage.claimed h = absurd (cc)
stored-busy Stage.admitted h = absurd (cc)
stored-busy Stage.written h = refl
stored-busy Stage.waiting h = refl

pub write-Sound :
    (k : ℕ) (s : System) (p : ℕ)
    → Sound k s
    → (s.producers p).stage ≡ Stage.admitted
    → Sound k (record s {
      queue = write_entry s.queue (s.producers p).slot (s.producers p).request;
      producers = put s.producers p (at_stage (s.producers p) Stage.written);
    })
unfolding write_entry
write-Sound k s p is at =
    let o = is.own p in
    let q = s.queue in
    let sh = is.shape in
    let nu = is.numbers in
    let x = s.producers p in
    let was : busy x.stage ≡ true = ap busy at in
    let open' : unpublished x.stage ≡ true = ap unpublished at in
    let ins : inside x.stage ≡ true = ap inside at in
    let ix : ring_idx q x.slot ≡ x.slot % 2 ^ k = ring_idx_lem q k x.slot sh.mask in
    record {
      shape = record {
        capacity = sh.capacity;
        mask = sh.mask;
        few = sh.few;
        entries = length-set q.entries (ring_idx q x.slot) x.request ∙ sh.entries;
        done_seq = sh.done_seq;
        prod_seq = sh.prod_seq;
        batch = sh.batch;
        word = sh.word;
        base = sh.base;
        room = sh.room;
        reach = sh.reach;
      };
      numbers = record {
        taken = nu.taken;
        produced = nu.produced;
        place = nu.place;
        done = nu.done;
        noted = nu.noted;
        quiet = nu.quiet;
      };
      own =
          put_all (Own k (write_entry q x.slot x.request) s.scheduler s.served) s.producers p _
            (record {
              below = λ b. o.below was;
              ahead = λ b. o.ahead open';
              silent = λ b. o.silent open';
              within = λ b. o.within ins;
              near = λ b. o.within ins;
              kept = λ b lo. rw ix (set_here q.entries k x.slot x.request no_request sh.entries);
              copied = λ b. absurd (cc);
              past = λ b. absurd (cc);
              told = λ b. absurd (cc);
              ended = λ b. absurd (cc);
            })
            (λ i ne.
              let y = is.own i in
              record {
                below = y.below;
                ahead = y.ahead;
                silent = y.silent;
                within = y.within;
                near = y.near;
                kept = λ b lo.
                    let away =
                      others_apart k s p i is ne ins was (stored-busy (s.producers i).stage b)
                        (o.ahead open') lo (y.near b) in
                    rw ix (
                      get_or-set_ne q.entries (x.slot % 2 ^ k) ((s.producers i).slot % 2 ^ k)
                        x.request no_request away
                      ∙ y.kept b lo);
                copied = y.copied;
                past = y.past;
                told = y.told;
                ended = y.ended;
              });
      apart = put-Apart s.producers p _ is.apart (λ i ne b c. is.apart p i (λ f. ne (sym f)) was c);
    }
