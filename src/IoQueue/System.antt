-- ===== src/IoQueue/System.antt =====
-- The ring in use: GPU threads that call `io_sched_read` or `io_sched_write`, interleaved in any order
-- with each other and with the kernel of the write scheduler, built with the global sort.
pub mod Producers
pub mod Invariant
pub mod Memory
pub mod Moves
pub mod Stores
pub mod Publish
pub mod Rounds
pub mod Seen
pub mod Notices
pub mod Served
pub mod Tests
use atc26_shaper_io.Prelude.{
  ℕ, zero, suc, ◌+◌, ◌-◌, ◌^◌, ◌≤◌, ◌<◌, ◌≡◌, Bool, true, false, Option, none, some, List, ◌==◌,
  if◌then◌else◌, replicate, get_or,
}
use atc26_shaper_io.Prelude.Words.{u32}
use atc26_shaper_io.IoQueue.{
  IoRequest, IoQueue, BatchEntry, no_request, no_entry, claim_slot, queue_full, write_entry,
  publish_slot, io_sched_scan_ready, must_wait, copy_entries, notify_entry, retire_batch,
}

-- Where a thread stands in `io_sched_enqueue` and in the wait after it.
pub data Stage : Type 0 where
  idle : Stage
  claimed : Stage
  admitted : Stage
  written : Stage
  waiting : Stage

pub record Producer : Type 0 where
  pub stage : Stage
  pub slot : ℕ
  pub request : IoRequest

abbrev pub at_stage : Producer → Stage → Producer
at_stage x stage = record x { stage = stage }

-- The scheduler's shared variables. `noted` marks the entries that the NOTIFY phase has done, in the order
-- of the sorted keys and by many threads; `closing` says that the batch is complete.
pub record Scheduler : Type 0 where
  pub base_head : ℕ
  pub accumulated : ℕ
  pub batch : List BatchEntry
  pub noted : ℕ → Bool
  pub closing : Bool

-- `served` is a log: what the scheduler had in its batch for a slot that it has notified.
pub record System : Type 0 where
  pub queue : IoQueue
  pub producers : ℕ → Producer
  pub scheduler : Scheduler
  pub served : ℕ → Option BatchEntry

abbrev pub put {ℓ} : {A : Type ℓ} → (ℕ → A) → ℕ → A → ℕ → A
put f p x i = if i == p then x else f i

-- One round of the accumulation, as the serial build scans: `limit` is what is left of the ring, or, for
-- the warp ballots of the parallel build, a block of threads.
pub collected : IoQueue → Scheduler → ℕ → Scheduler
collected q sch limit =
    let avail = io_sched_scan_ready q (u32 (sch.base_head + sch.accumulated)) limit in
    record sch {
      batch = copy_entries q sch.base_head sch.accumulated avail sch.batch;
      accumulated = sch.accumulated + avail;
    }

-- The scheduler at the top of its loop.
pub next_round : IoQueue → Scheduler → Scheduler
next_round q sch = record {
  base_head = q.cons_head;
  accumulated = 0;
  batch = sch.batch;
  noted = λ i. false;
  closing = false;
}

-- Fewer than 2^32 requests are made in all: no counter wraps.
pub data Step (s : System) : System → Type 0 where
  claim :
      (p : ℕ) (e : IoRequest)
      → (s.producers p).stage ≡ Stage.idle
      → s.queue.prod_tail + 1 < 2 ^ 32
      → Step s (record s {
        queue = claim_slot s.queue;
        producers =
            put s.producers p
              (record { stage = Stage.claimed; slot = s.queue.prod_tail; request = e });
      })
  admit :
      (p : ℕ)
      → (s.producers p).stage ≡ Stage.claimed
      → queue_full s.queue (s.producers p).slot ≡ false
      → Step s
          (record s { producers = put s.producers p (at_stage (s.producers p) Stage.admitted) })
  write :
      (p : ℕ)
      → (s.producers p).stage ≡ Stage.admitted
      → Step s (record s {
        queue = write_entry s.queue (s.producers p).slot (s.producers p).request;
        producers = put s.producers p (at_stage (s.producers p) Stage.written);
      })
  publish :
      (p : ℕ)
      → (s.producers p).stage ≡ Stage.written
      → Step s (record s {
        queue = publish_slot s.queue (s.producers p).slot;
        producers = put s.producers p (at_stage (s.producers p) Stage.waiting);
      })
  return :
      (p : ℕ)
      → (s.producers p).stage ≡ Stage.waiting
      → must_wait s.queue (s.producers p).slot ≡ false
      → Step s (record s { producers = put s.producers p (at_stage (s.producers p) Stage.idle) })
  collect :
      (limit : ℕ)
      → s.scheduler.closing ≡ false
      → limit ≤ s.queue.capacity - s.scheduler.accumulated
      → Step s (record s { scheduler = collected s.queue s.scheduler limit })
  close : Step s (record s { scheduler = record s.scheduler { closing = true } })
  notify :
      (orig : ℕ)
      → s.scheduler.closing ≡ true
      → orig < s.scheduler.accumulated
      → Step s (record s {
        queue = notify_entry s.queue s.scheduler.base_head orig;
        scheduler = record s.scheduler { noted = put s.scheduler.noted orig true };
        served =
            put s.served
              (s.scheduler.base_head + orig)
              (some (get_or s.scheduler.batch orig no_entry));
      })
  retire :
      (n_groups : ℕ)
      → ((i : ℕ) → i < s.scheduler.accumulated → s.scheduler.noted i ≡ true)
      → Step s (record s {
        queue = retire_batch s.queue s.scheduler.accumulated n_groups;
        scheduler = next_round (retire_batch s.queue s.scheduler.accumulated n_groups) s.scheduler;
      })

-- A ring as `io_sched_create` returns it, and a scheduler that starts on it.
abbrev pub started : IoQueue → System
started q = record {
  queue = q;
  producers = λ p. record { stage = Stage.idle; slot = 0; request = no_request };
  scheduler = record {
    base_head = 0;
    accumulated = 0;
    batch = replicate q.capacity no_entry;
    noted = λ i. false;
    closing = false;
  };
  served = λ s. none;
}

pub data Reach (q : IoQueue) : System → Type 0 where
  start : Reach q (started q)
  later : {s t : System} → Reach q s → Step s t → Reach q t
