-- ===== src/IoQueue/System/Served.antt =====
-- What the invariant gives in every state that threads and scheduler can reach.
use atc26_shaper_io.Prelude.{
  ℕ, zero, suc, ◌+◌, ◌-◌, ◌%◌, ◌^◌, ◌≤◌, ◌<◌, ◌≡◌, ◌↔◌, inl, inr, ◌≢◌, refl, sym, ap, subst, true,
  false, not, some, length-replicate, get_or, replicate, if_either, bit_and, ltb, ◌==◌, arith, ◌∙◌,
}
use atc26_shaper_io.Prelude.Words.{u32}
use atc26_shaper_io.ParallelQueue.Marks.{mod-ne}
use atc26_shaper_io.IoQueue.{
  drained, no_entry, IoQueue, no_request, ring_idx, io_sched_create, must_wait,
}
use atc26_shaper_io.IoQueue.System.{Stage, System, Step, Reach, started}
use atc26_shaper_io.IoQueue.System.Producers.{busy}
use atc26_shaper_io.IoQueue.System.Invariant.{Notified, pending, stored, Sound}
use atc26_shaper_io.IoQueue.System.Memory.{ring_idx_lem, place_lt}
use atc26_shaper_io.IoQueue.System.Moves.{claim-Sound, admit-Sound, return-Sound}
use atc26_shaper_io.IoQueue.System.Stores.{stored-busy, write-Sound}
use atc26_shaper_io.IoQueue.System.Publish.{publish-Sound}
use atc26_shaper_io.IoQueue.System.Rounds.{collect-Sound}
use atc26_shaper_io.IoQueue.System.Notices.{close-Sound, notify-Sound, retire-Sound}
use native.Mathlib.Decide.{dec_lt, ℕ_discrete}

get_or-replicate : (n i d : ℕ) → get_or (replicate n d) i d ≡ d
get_or-replicate zero i d = refl
get_or-replicate (suc n) zero d = refl
get_or-replicate (suc n) (suc i) d = get_or-replicate n i d

-- the ring of `2 ^ k` slots that `io_sched_create` builds
abbrev fresh : ℕ → IoQueue
fresh c = record {
  entries = replicate c no_request;
  done_flags = replicate c 0;
  done_seq = replicate c 0;
  prod_seq = replicate c 0;
  capacity = c;
  capacity_mask = c - 1;
  prod_tail = 0;
  cons_head = 0;
  shutdown = 0;
  submitted_ios = 0;
  merged_ios = 0;
}

start-Sound : (k : ℕ) → k ≤ 31 → Sound k (started (fresh (2 ^ k)))
start-Sound k few = record {
  shape = record {
    capacity = refl;
    mask = refl;
    few = few;
    entries = length-replicate (2 ^ k) no_request;
    done_seq = length-replicate (2 ^ k) 0;
    prod_seq = length-replicate (2 ^ k) 0;
    batch = length-replicate (2 ^ k) no_entry;
    word = omega arith;
    base = refl;
    room = omega arith;
    reach = omega arith;
  };
  numbers = record {
    taken = λ i lt. absurd (omega arith);
    produced = λ i. omega (arith, get_or-replicate (2 ^ k) i 0);
    place = λ i lt pos. absurd (omega (arith, get_or-replicate (2 ^ k) i 0));
    done = λ i lt. omega (arith, get_or-replicate (2 ^ k) i 0);
    noted = λ i lt pos. absurd (omega (arith, get_or-replicate (2 ^ k) i 0));
    quiet = λ e i. refl;
  };
  own = λ p. record {
    below = λ b. absurd (cc);
    ahead = λ b. absurd (cc);
    silent = λ b. absurd (cc);
    within = λ b. absurd (cc);
    near = λ b. absurd (cc);
    kept = λ b. absurd (cc);
    copied = λ b. absurd (cc);
    past = λ b. absurd (cc);
    told = λ b. absurd (cc);
    ended = λ b. absurd (cc);
  };
  apart = λ i j ne b. absurd (cc);
}

created : (c : ℕ) (q : IoQueue) → io_sched_create c ≡ some q → fresh c ≡ q
unfolding io_sched_create
created c q =
    if_either (λ o. o ≡ some q → fresh c ≡ q) (c == 0) (λ z e. absurd (cc))
      (λ z.
        if_either (λ o. o ≡ some q → fresh c ≡ q) (not (bit_and c (c - 1) == 0))
          (λ y e. absurd (cc)) (λ y e. cc))

Step-Sound : (k : ℕ) {s t : System} → Sound k s → Step s t → Sound k t
Step-Sound k is (Step.claim p e idle small) = claim-Sound k _ p e is small
Step-Sound k is (Step.admit p at room) = admit-Sound k _ p is at room
Step-Sound k is (Step.write p at) = write-Sound k _ p is at
Step-Sound k is (Step.publish p at) = publish-Sound k _ p is at
Step-Sound k is (Step.return p at done) = return-Sound k _ p is at
Step-Sound k is (Step.collect limit open' few) = collect-Sound k _ limit is open' few
Step-Sound k is Step.close = close-Sound k _ is
Step-Sound k is (Step.notify j closed lt) = notify-Sound k _ j is closed lt
Step-Sound k is (Step.retire n all) = retire-Sound k _ n is all

-- On a ring of `2 ^ k` slots that `io_sched_create` built.
module _ (k : ℕ) (few : k ≤ 31) (q : IoQueue) (made : io_sched_create (2 ^ k) ≡ some q) where
  Reach-Sound : {s : System} → Reach q s → Sound k s
  Reach-Sound Reach.start =
      subst (λ (r : IoQueue). Sound k (started r)) (created (2 ^ k) q made) (start-Sound k few)
  Reach-Sound (Reach.later r st) = Step-Sound k (Reach-Sound r) st

  -- In every state that can be reached, with fewer than 2^32 requests made, no two threads have the same
  -- slot, and a request that a thread has stored stays in its place of the ring until the scheduler frees
  -- its slot.
  pub Reach-Kept :
      (s : System)
      → Reach q s
      → (p : ℕ) → stored (s.producers p).stage ≡ true
      → s.queue.cons_head ≤ (s.producers p).slot
      → (get_or s.queue.entries (ring_idx s.queue (s.producers p).slot) no_request
          ≡ (s.producers p).request)
        × ((i : ℕ)
            → i ≢ p
            → busy (s.producers i).stage ≡ true
            → (s.producers i).slot ≢ (s.producers p).slot)
  Reach-Kept s r p b lo =
      let is = Reach-Sound r in
      let o = is.own p in
      let ix = ring_idx_lem s.queue k (s.producers p).slot is.shape.mask in
      (rw ix (o.kept b lo), λ i ne c. is.apart i p ne c (stored-busy (s.producers p).stage b))

  ticket_shown :
      (s : System)
      → Reach q s
      → (p : ℕ) → (s.producers p).stage ≡ Stage.waiting
      → (must_wait s.queue (s.producers p).slot
          ≡ ltb
              (get_or s.queue.done_seq ((s.producers p).slot % 2 ^ k) 0)
              ((s.producers p).slot + 1))
  unfolding must_wait
  ticket_shown s r p at =
      let is = Reach-Sound r in
      let below = (is.own p).below (ap busy at) in
      let ticket : u32 ((s.producers p).slot + 1) ≡ (s.producers p).slot + 1 =
        omega (arith, is.shape.word) in
      rw (ring_idx_lem s.queue k (s.producers p).slot is.shape.mask, ticket) refl

  Notified-ended :
      (s : System)
      → Reach q s
      → (p : ℕ) → (s.producers p).stage ≡ Stage.waiting
      → Notified s.queue s.scheduler (s.producers p).slot
      → must_wait s.queue (s.producers p).slot ≡ false
  Notified-ended s r p at n =
      let ge = ((Reach-Sound r).own p).ended (ap pending at) n in
      ticket_shown s r p at ∙ ground arith

  wait-ended :
      (s : System)
      → Reach q s
      → (p : ℕ) → (s.producers p).stage ≡ Stage.waiting
      → must_wait s.queue (s.producers p).slot ≡ false
      → Notified s.queue s.scheduler (s.producers p).slot
  wait-ended s r p at ended =
      let is = Reach-Sound r in
      let sh = is.shape in
      let nu = is.numbers in
      let x = s.producers p in
      let h = s.queue.cons_head in
      let i = x.slot % 2 ^ k in
      let small : i < 2 ^ k = place_lt k x.slot in
      let test : ltb (get_or s.queue.done_seq i 0) (x.slot + 1) ≡ false =
        sym (ticket_shown s r p at) ∙ ended in
      let word = get_or s.queue.done_seq i 0 in
      let ge : x.slot + 1 ≤ word = ground arith in
      let same : (word - 1) % 2 ^ k ≡ i = nu.place i small (omega arith) in
      let done : word ≤ h + s.scheduler.accumulated = nu.done i small in
      elim (dec_lt x.slot h) [
        | yes old ↦ inl old
        | no new ↦ elim (ℕ_discrete word (x.slot + 1)) [
          | yes e ↦
              let less : word - 1 - h ≡ x.slot - h = omega arith in
              inr (omega arith, rw less at (nu.noted i small (omega arith)))
          | no ne ↦
              let gap = word - 1 - x.slot in
              let sum : x.slot + gap ≡ word - 1 = omega arith in
              let room : word ≤ h + 2 ^ k = omega (arith, sh.room) in
              let apart = mod-ne (2 ^ k) x.slot gap (omega arith) (omega arith) in
              absurd (apart (rw sum (sym same)))
        ]
      ]

  served-Notified :
      (s : System)
      → Reach q s
      → (p : ℕ) → (s.producers p).stage ≡ Stage.waiting
      → Notified s.queue s.scheduler (s.producers p).slot
      → s.served (s.producers p).slot ≡ some (drained (s.producers p).request)
  served-Notified s r p at n =
      let o = (Reach-Sound r).own p in
      let b : pending (s.producers p).stage ≡ true = ap pending at in
      elim n [
        | inl old ↦ o.past b old
        | inr (hi, t) ↦ elim (dec_lt (s.producers p).slot s.queue.cons_head) [
          | yes old ↦ o.past b old
          | no ge ↦ o.told b (omega arith) hi t
        ]
      ]

  -- In every state that can be reached, with fewer than 2^32 requests made: the wait of a thread ends just
  -- when the scheduler has notified the thread's own slot, and then its batch had the offset, the
  -- page-cache entry and the size of the thread's own request.
  pub must_wait-Served :
      (s : System)
      → Reach q s
      → (p : ℕ) → (s.producers p).stage ≡ Stage.waiting
      → let x = s.producers p in
        ((must_wait s.queue x.slot ≡ false) ↔ Notified s.queue s.scheduler x.slot)
        × ((must_wait s.queue x.slot ≡ false) → s.served x.slot ≡ some (drained x.request))
  must_wait-Served s r p at = (
    (wait-ended s r p at, Notified-ended s r p at),
    λ e. served-Notified s r p at (wait-ended s r p at e),
  )
