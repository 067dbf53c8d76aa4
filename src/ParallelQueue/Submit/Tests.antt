-- ===== src/ParallelQueue/Submit/Tests.antt =====
-- A run of `sq_dequeue`.
use atc26_shaper_io.Prelude.{◌≡◌, refl, none}
use atc26_shaper_io.ParallelQueue.Submit.{sq_dequeue, sq_dequeue_loop}
use atc26_shaper_io.ParallelQueue.Tests.{two}

-- A lock that is not given back holds the thread up.
held : sq_dequeue 2 3 (record two { head_lock = 1 }) 0 ≡ none
unfolding sq_dequeue sq_dequeue_loop
held = refl
