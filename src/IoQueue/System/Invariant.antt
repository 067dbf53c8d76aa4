-- ===== src/IoQueue/System/Invariant.antt =====
-- What holds of the ring, of the scheduler and of every thread in each state that they can reach.
use atc26_shaper_io.Prelude.{
  ℕ, ◌+◌, ◌-◌, ◌%◌, ◌^◌, ◌≤◌, ◌<◌, ◌≡◌, ◌≢◌, ◌⊎◌, Bool, true, false, Option, some, length, get_or,
}
use atc26_shaper_io.IoQueue.{IoQueue, BatchEntry, no_request, no_entry, drained}
use atc26_shaper_io.IoQueue.System.{Stage, Producer, Scheduler, System}
use atc26_shaper_io.IoQueue.System.Producers.{busy, Apart}

-- before `prod_seq` is written
abbrev pub unpublished : Stage → Bool
unpublished Stage.idle = false
unpublished Stage.claimed = true
unpublished Stage.admitted = true
unpublished Stage.written = true
unpublished Stage.waiting = false

-- past the test for room, before `prod_seq` is written
abbrev pub inside : Stage → Bool
inside Stage.idle = false
inside Stage.claimed = false
inside Stage.admitted = true
inside Stage.written = true
inside Stage.waiting = false

-- with the request in the ring
abbrev pub stored : Stage → Bool
stored Stage.idle = false
stored Stage.claimed = false
stored Stage.admitted = false
stored Stage.written = true
stored Stage.waiting = true

abbrev pub pending : Stage → Bool
pending Stage.idle = false
pending Stage.claimed = false
pending Stage.admitted = false
pending Stage.written = false
pending Stage.waiting = true

-- The ring, of `2 ^ k` slots, and the scheduler.
pub record Shape (k : ℕ) (q : IoQueue) (sch : Scheduler) : Type 0 where
  pub capacity : q.capacity ≡ 2 ^ k
  pub mask : q.capacity_mask ≡ 2 ^ k - 1
  pub few : k ≤ 31
  pub entries : length q.entries ≡ 2 ^ k
  pub done_seq : length q.done_seq ≡ 2 ^ k
  pub prod_seq : length q.prod_seq ≡ 2 ^ k
  pub batch : length sch.batch ≡ 2 ^ k
  pub word : q.prod_tail < 2 ^ 32
  pub base : sch.base_head ≡ q.cons_head
  pub room : sch.accumulated ≤ 2 ^ k
  pub reach : q.cons_head + sch.accumulated ≤ q.prod_tail

-- The sequence numbers.
pub record Numbers (k : ℕ) (q : IoQueue) (sch : Scheduler) : Type 0 where
  pub taken :
      (i : ℕ)
      → i < sch.accumulated
      → get_or q.prod_seq ((q.cons_head + i) % 2 ^ k) 0 ≡ q.cons_head + i + 1
  pub produced : (i : ℕ) → get_or q.prod_seq i 0 ≤ q.prod_tail
  pub place :
      (i : ℕ) → i < 2 ^ k → 0 < get_or q.done_seq i 0 → (get_or q.done_seq i 0 - 1) % 2 ^ k ≡ i
  pub done : (i : ℕ) → i < 2 ^ k → get_or q.done_seq i 0 ≤ q.cons_head + sch.accumulated
  pub noted :
      (i : ℕ)
      → i < 2 ^ k
      → q.cons_head < get_or q.done_seq i 0
      → sch.noted (get_or q.done_seq i 0 - 1 - q.cons_head) ≡ true
  pub quiet : sch.closing ≡ false → (i : ℕ) → sch.noted i ≡ false

-- The scheduler has notified a slot.
abbrev pub Notified : IoQueue → Scheduler → ℕ → Type 0
Notified q sch slot =
    (slot < q.cons_head)
    ⊎ ((slot < q.cons_head + sch.accumulated) × (sch.noted (slot - q.cons_head) ≡ true))

-- One thread.
pub record Own (k : ℕ) (q : IoQueue) (sch : Scheduler) (served : ℕ → Option BatchEntry)
    (x : Producer) : Type 0 where
  pub below : busy x.stage ≡ true → x.slot < q.prod_tail
  pub ahead : unpublished x.stage ≡ true → q.cons_head ≤ x.slot
  pub silent : unpublished x.stage ≡ true → get_or q.prod_seq (x.slot % 2 ^ k) 0 ≢ x.slot + 1
  pub within : inside x.stage ≡ true → x.slot < q.cons_head + 2 ^ k
  pub near : stored x.stage ≡ true → x.slot < q.cons_head + 2 ^ k
  pub kept :
      stored x.stage ≡ true
      → q.cons_head ≤ x.slot
      → get_or q.entries (x.slot % 2 ^ k) no_request ≡ x.request
  pub copied :
      pending x.stage ≡ true
      → q.cons_head ≤ x.slot
      → x.slot < q.cons_head + sch.accumulated
      → get_or sch.batch (x.slot - q.cons_head) no_entry ≡ drained x.request
  pub past :
      pending x.stage ≡ true → x.slot < q.cons_head → served x.slot ≡ some (drained x.request)
  pub told :
      pending x.stage ≡ true
      → q.cons_head ≤ x.slot
      → x.slot < q.cons_head + sch.accumulated
      → sch.noted (x.slot - q.cons_head) ≡ true
      → served x.slot ≡ some (drained x.request)
  pub ended :
      pending x.stage ≡ true
      → Notified q sch x.slot
      → x.slot + 1 ≤ get_or q.done_seq (x.slot % 2 ^ k) 0

pub record Sound (k : ℕ) (s : System) : Type 0 where
  pub shape : Shape k s.queue s.scheduler
  pub numbers : Numbers k s.queue s.scheduler
  pub own : (p : ℕ) → Own k s.queue s.scheduler s.served (s.producers p)
  pub apart : Apart s.producers
