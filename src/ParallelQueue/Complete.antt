-- ===== src/ParallelQueue/Complete.antt =====
-- `cq_poll` and `cq_dequeue` of include/nvm_parallel_queue.h: a thread finds the completion of its
-- command, and gives its place in the completion queue back.
pub mod Observe
pub mod Poll
pub mod Tests
use atc26_shaper_io.Prelude.{
  ℕ, zero, suc, ◌+◌, ◌/◌, ◌^◌, Bool, false, ◌&&◌, ◌||◌, Option, none, some, List, [], ◌∷◌, bit_and,
  bit_or, ◌==◌, ltb, leb, if◌then◌else◌, get_or, set, ◌>>=◌,
}
use atc26_shaper_io.Prelude.Words.{u32, not_u32}
use atc26_shaper_io.Types.{NvmQueue}
use atc26_shaper_io.ParallelQueue.{locked, unlocked, slot, dword, move_head_cq}

-- The phase tag that the controller writes in the round that `cur_head` lies in.
pub search_phase : NvmQueue → ℕ → ℕ
search_phase cq cur_head = bit_and (not_u32 (cur_head / 2 ^ cq.qs_log2)) 0x01

abbrev pub cpl_cid : ℕ → ℕ
cpl_cid cpl_entry = bit_and cpl_entry 0x0000ffff

abbrev pub cpl_phase : ℕ → ℕ
cpl_phase cpl_entry = bit_and cpl_entry 0x00010000 / 2 ^ 16

-- The `for` loop of `cq_poll`, with `n` rounds left: `loc` and `cur_head` of a hit.
pub cq_scan : NvmQueue → ℕ → ℕ → ℕ → ℕ → Option (ℕ × ℕ)
cq_scan cq search_cid head zero i = none
cq_scan cq search_cid head (suc n) i =
    let cur_head = u32 (head + i) in
    let loc = slot cq cur_head in
    let cpl_entry = dword cq loc 3 in
    let in_phase = cpl_phase cpl_entry == search_phase cq cur_head in
    let rest = cq_scan cq search_cid head n (i + 1) in
    let go_on = if in_phase then rest else none in
    if (cpl_cid cpl_entry == search_cid) && in_phase then some (loc, cur_head) else go_on

-- After the `for` loop: a hit is returned, else the outer loop goes on.
abbrev poll_round : NvmQueue → Option (ℕ × ℕ) → Option (ℕ × ℕ × ℕ) → Option (ℕ × ℕ × ℕ)
poll_round cq none rest = rest
poll_round cq (some (loc, cur_head)) rest = some (loc, cur_head, cq.head)

-- The list holds the queue as each round of the outer loop sees it. The result is `loc`, `*loc_` and
-- `*cq_head`.
pub cq_poll : List NvmQueue → ℕ → Option (ℕ × ℕ × ℕ)
cq_poll [] search_cid = none
cq_poll (cq ∷ later) search_cid =
    poll_round cq (cq_scan cq search_cid cq.head cq.qs_minus_1 0) (cq_poll later search_cid)

-- The loop over `head_lock` in `cq_dequeue`, entered while the mark of `pos` is up.
pub retire_loop : ℕ → ℕ → NvmQueue → NvmQueue → ℕ → Option (NvmQueue × NvmQueue)
retire_loop moves zero cq sq pos = none
retire_loop moves (suc fuel) cq sq pos =
    let held = record cq { head_lock = bit_or cq.head_lock locked } in
    let blocked = retire_loop moves fuel held sq pos in
    let round = (do
      (count, cq', sq') ← move_head_cq moves held cq.head sq
      let new_head = u32 (cq.head + count)
      let rung = record cq' { doorbell = slot cq' new_head; head = new_head }
      let released = record (if count == 0 then cq' else rung) { head_lock = unlocked }
      let again = retire_loop moves fuel released sq' pos
      if get_or released.head_mark pos 0 == locked then again else some (released, sq')) in
    if cq.head_lock == locked then blocked else round

-- The test of the last loop: has the head moved from `cur_head_` past `loc_`?
pub head_passed : ℕ → ℕ → ℕ → Bool
head_passed loc_ cur_head_ new_head =
    if ltb cur_head_ new_head
    then leb cur_head_ loc_ && ltb loc_ new_head
    else (if ltb new_head cur_head_ then leb cur_head_ loc_ || ltb loc_ new_head else false)

-- The waits for `pos_locks` and for the head only read, or set a bit that is set.
pub cq_dequeue : ℕ → ℕ → NvmQueue → ℕ → NvmQueue → ℕ → ℕ → Option (NvmQueue × NvmQueue)
cq_dequeue moves fuel cq pos sq loc_ cur_head_ = do
  let counted = record cq { tail = u32 (cq.tail + 1) }
  let taken = record counted { pos_locks = set cq.pos_locks pos 1 }
  let marked = record taken { head_mark = set cq.head_mark pos locked }
  let retire = retire_loop moves fuel marked sq pos
  let run = if get_or marked.head_mark pos 0 == locked then retire else some (marked, sq)
  (cq', sq') ← (if get_or cq.pos_locks pos 0 == 0 then run else none)
  let freed = record cq' { pos_locks = set cq'.pos_locks pos 0 }
  if head_passed loc_ cur_head_ cq'.head then some (freed, sq') else none
