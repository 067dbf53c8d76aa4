-- ===== src/ParallelQueue/Complete/Tests.antt =====
-- Runs of `cq_poll` and `cq_dequeue`.
use atc26_shaper_io.Prelude.{◌≡◌, refl, some, none, [], ◌∷◌}
use atc26_shaper_io.ParallelQueue.Complete.{search_phase, cq_scan, cq_poll, retire_loop, cq_dequeue}
use atc26_shaper_io.ParallelQueue.Complete.Observe.{Polled, cq_poll-Polled}
use atc26_shaper_io.ParallelQueue.Tests.{two}

-- Identifier 0 completes in the second state of the queue.
first_seen : cq_poll (record two { mem = [] ∷ [] ∷ [] } ∷ two ∷ []) 0 ≡ some (0, 0, 0)
unfolding cq_poll cq_scan search_phase
first_seen = refl

cq_poll-Polled_example :
    Polled 0
      (record two { mem = [] ∷ [] ∷ [] } ∷ two ∷ [])
      (cq_poll (record two { mem = [] ∷ [] ∷ [] } ∷ two ∷ []) 0)
cq_poll-Polled_example = cq_poll-Polled 0 (record two { mem = [] ∷ [] ∷ [] } ∷ two ∷ [])

-- A lock that is not given back holds the thread up.
held : cq_dequeue 2 3 (record two { head_lock = 1 }) 0 two 0 0 ≡ none
unfolding cq_dequeue retire_loop
held = refl
