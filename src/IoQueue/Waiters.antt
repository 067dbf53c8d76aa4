-- ===== src/IoQueue/Waiters.antt =====
-- The waits of `io_sched_read`, `io_sched_write` and `io_sched_access`, by requests counted without wrap.
use atc26_shaper_io.Prelude.{ℕ, ◌+◌, ◌-◌, ◌%◌, ◌^◌, ◌≤◌, ◌<◌, ◌≡◌, ◌↔◌, true, get_or, arith}
use atc26_shaper_io.Prelude.Words.{u32}
use atc26_shaper_io.IoQueue.{IoQueue, ring_idx, must_wait}

-- A request waits on a slot that shows the request one round before it: it does so unless its ticket,
-- a 32-bit word, lies in the first round after a wrap.
pub must_wait_iff :
    (q : IoQueue) (s : ℕ)
    → q.capacity ≤ 2 ^ 31
    → 0 < q.capacity
    → q.capacity ≤ s
    → get_or q.done_seq (ring_idx q (u32 s)) 0 ≡ u32 (s + 1 - q.capacity)
    → (must_wait q (u32 s) ≡ true) ↔ (q.capacity ≤ (s + 1) % 2 ^ 32)
unfolding must_wait
must_wait_iff q s hi lo ge shown =
    let ticket : u32 (u32 s + 1) ≡ u32 (s + 1) = omega arith in rw (shown, ticket) (ground arith)
