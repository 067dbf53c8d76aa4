-- ===== src/ParallelQueue/Submit.antt =====
-- `sq_enqueue` and `sq_dequeue` of include/nvm_parallel_queue.h: a thread puts a command into the
-- submission queue, and gives a slot of it back. `moves` is the fuel of the walk over the marks,
-- `fuel` that of the loop which takes the queue's lock.
pub mod Enqueue
pub mod Tests
use atc26_shaper_io.Prelude.{
  ℕ, zero, suc, ◌+◌, Option, none, some, bit_or, ◌==◌, if◌then◌else◌, get_or, set, ◌>>=◌,
}
use atc26_shaper_io.Prelude.Words.{u16, u32}
use atc26_shaper_io.Types.{Dwords, NvmQueue}
use atc26_shaper_io.ParallelQueue.{locked, unlocked, slot, get_id, move_tail, move_head_sq}

-- The loop over `tail_lock` in `sq_enqueue`, entered while the mark of `pos` is up.
pub publish_loop : ℕ → ℕ → NvmQueue → ℕ → Option NvmQueue
publish_loop moves zero sq pos = none
publish_loop moves (suc fuel) sq pos =
    let blocked = publish_loop moves fuel sq pos in
    let round = (do
      let held = record sq { tail_lock = bit_or sq.tail_lock locked }
      (count, sq') ← move_tail moves held sq.tail
      let new_tail = u32 (sq.tail + count)
      let rung = record sq' { doorbell = slot sq' new_tail; tail = new_tail }
      let released = record (if count == 0 then sq' else rung) { tail_lock = unlocked }
      let again = publish_loop moves fuel released pos
      if get_or released.tail_mark pos 0 == locked then again else some released) in
    if sq.tail_lock == locked then blocked else round

-- `pc_tail` is what loading `*pc_tail` gives, where it is not NULL; the last part of the result is
-- then `*cur_pc_tail`. The two waits for the slot's ticket only read.
pub sq_enqueue : ℕ → ℕ → NvmQueue → Dwords → Option ℕ → Option (ℕ × NvmQueue × Option ℕ)
sq_enqueue moves fuel sq cmd pc_tail = do
  let ticket = sq.in_ticket
  let taken = record sq { in_ticket = u32 (sq.in_ticket + 1) }
  let pos = slot sq ticket
  let id = get_id ticket sq.qs_log2
  let written = record taken { mem = set taken.mem pos cmd }
  let marked = record written { tail_mark = set written.tail_mark pos locked }
  let publish = publish_loop moves fuel marked pos
  let run = if get_or marked.tail_mark pos 0 == locked then publish else some marked
  published ← (if get_or taken.tickets pos 0 == id then run else none)
  let next = u32 (get_or published.tickets pos 0 + 1)
  some (u16 pos, record published { tickets = set published.tickets pos next }, pc_tail)

pub sq_dequeue_loop : ℕ → ℕ → NvmQueue → ℕ → Option NvmQueue
sq_dequeue_loop moves zero sq pos = none
sq_dequeue_loop moves (suc fuel) sq pos =
    let blocked = sq_dequeue_loop moves fuel (record sq { head_lock = locked }) pos in
    let round = (do
      (count, sq') ← move_head_sq moves (record sq { head_lock = locked }) sq.head
      let moved = record sq' { head = u32 (sq.head + count) }
      let released = record (if count == 0 then sq' else moved) { head_lock = unlocked }
      let again = sq_dequeue_loop moves fuel released pos
      if get_or released.head_mark pos 0 == locked then again else some released) in
    if sq.head_lock == locked then blocked else round

pub sq_dequeue : ℕ → ℕ → NvmQueue → ℕ → Option NvmQueue
sq_dequeue moves fuel sq pos =
    let marked = record sq { head_mark = set sq.head_mark pos locked } in
    let run = sq_dequeue_loop moves fuel marked pos in
    if get_or marked.head_mark pos 0 == locked then run else some marked
