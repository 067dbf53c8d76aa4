-- ===== src/IoQueue/System/Tests.antt =====
-- On a ring of four slots one thread writes 4096 bytes, and the scheduler takes the request and reports
-- it.
use atc26_shaper_io.Prelude.{ℕ, ◌+◌, ◌≡◌, ◌↔◌, ◌≢◌, refl, true, false, some, get_or, arith}
use atc26_shaper_io.IoQueue.{
  drained, no_entry, no_request, ring_idx, claim_slot, queue_full, write_entry, publish_slot,
  io_sched_scan_ready, must_wait, notify_entry, scan_loop,
}
use atc26_shaper_io.IoQueue.Tests.{ring, ring-created, req}
use atc26_shaper_io.IoQueue.System.{Stage, System, Step, Reach, put, at_stage, collected, started}
use atc26_shaper_io.IoQueue.System.Producers.{busy}
use atc26_shaper_io.IoQueue.System.Invariant.{Notified}
use atc26_shaper_io.IoQueue.System.Served.{Reach-Kept, must_wait-Served}

-- the thread's steps, then the scheduler's
abbrev s1 : System
s1 = record (started ring) {
  queue = claim_slot ring;
  producers =
      put (started ring).producers 5 (record { stage = Stage.claimed; slot = 0; request = req });
}

abbrev s2 : System
s2 = record s1 { producers = put s1.producers 5 (at_stage (s1.producers 5) Stage.admitted) }

abbrev s3 : System
s3 = record s2 {
  queue = write_entry s2.queue (s2.producers 5).slot (s2.producers 5).request;
  producers = put s2.producers 5 (at_stage (s2.producers 5) Stage.written);
}

abbrev s4 : System
s4 = record s3 {
  queue = publish_slot s3.queue (s3.producers 5).slot;
  producers = put s3.producers 5 (at_stage (s3.producers 5) Stage.waiting);
}

abbrev s5 : System
s5 = record s4 { scheduler = collected s4.queue s4.scheduler 4 }

abbrev s6 : System
s6 = record s5 { scheduler = record s5.scheduler { closing = true } }

abbrev s7 : System
s7 = record s6 {
  queue = notify_entry s6.queue s6.scheduler.base_head 0;
  scheduler = record s6.scheduler { noted = put s6.scheduler.noted 0 true };
  served = put s6.served (s6.scheduler.base_head + 0) (some (get_or s6.scheduler.batch 0 no_entry));
}

s4-Reach : Reach ring s4
unfolding claim_slot queue_full
s4-Reach =
    Reach.later
      (Reach.later
        (Reach.later (Reach.later Reach.start (Step.claim 5 req refl (omega arith)))
          (Step.admit 5 refl refl))
        (Step.write 5 refl))
      (Step.publish 5 refl)

s7-Reach : Reach ring s7
unfolding claim_slot write_entry publish_slot collected io_sched_scan_ready scan_loop
s7-Reach =
    Reach.later (Reach.later (Reach.later s4-Reach (Step.collect 4 refl (omega arith))) Step.close)
      (Step.notify 0 refl (omega arith))

waits_before : must_wait s4.queue 0 ≡ true
unfolding must_wait claim_slot write_entry publish_slot
waits_before = refl

ended_after : must_wait s7.queue 0 ≡ false
unfolding must_wait claim_slot write_entry publish_slot notify_entry collected
ended_after = refl

must_wait-Served_example :
    ((must_wait s7.queue 0 ≡ false) ↔ Notified s7.queue s7.scheduler 0)
    × ((must_wait s7.queue 0 ≡ false) → s7.served 0 ≡ some (drained req))
must_wait-Served_example = must_wait-Served 2 (omega arith) ring ring-created s7 s7-Reach 5 refl

Reach-Kept_example :
    (get_or s4.queue.entries (ring_idx s4.queue 0) no_request ≡ req)
    × ((i : ℕ) → i ≢ 5 → busy (s4.producers i).stage ≡ true → (s4.producers i).slot ≢ 0)
unfolding claim_slot write_entry publish_slot
Reach-Kept_example = Reach-Kept 2 (omega arith) ring ring-created s4 s4-Reach 5 refl (omega arith)
