-- ===== src/ParallelQueue.antt =====
-- include/nvm_parallel_queue.h: the queue operations that GPU threads share. Each function here is one
-- thread's run with no other thread in between.
-- A loop that can run on takes fuel. `none` says that the thread is still in a loop: fuel ran out,
-- or, for a loop that only reads, its test fails and stays so until another thread acts.
pub mod Ticket
pub mod Cid
pub mod Marks
pub mod Tail
pub mod Head
pub mod Freed
pub mod Retire
pub mod Cycle
pub mod Submit
pub mod Tests
pub mod Complete
use atc26_shaper_io.Prelude.{
  ℕ, zero, suc, ◌+◌, ◌-◌, ◌*◌, ◌/◌, ◌%◌, ◌^◌, Bool, true, false, not, ◌&&◌, ◌||◌, Option, none,
  some, List, [], ◌∷◌, bit_and, bit_or, ◌==◌, ltb, leb, if◌then◌else◌, get_or, set, ◌>>=◌,
}
use atc26_shaper_io.Prelude.Words.{u16, u32, u64}
use atc26_shaper_io.Types.{Dwords, NvmQueue}

abbrev pub locked : ℕ
locked = 1

abbrev pub unlocked : ℕ
unlocked = 0

-- `x & q->qs_minus_1`, and the sum of `uint32_t`s that is masked most often
abbrev pub slot : NvmQueue → ℕ → ℕ
slot q x = bit_and x q.qs_minus_1

-- the id that a slot's ticket word must show before ticket `x` may use it
pub get_id : ℕ → ℕ → ℕ
get_id x y = u64 (x / 2 ^ y * 2)

pub get_cid : ℕ → NvmQueue → Option (ℕ × NvmQueue)
get_cid zero sq = none
get_cid (suc fuel) sq =
    let id = bit_and sq.cid_ticket 65535 in
    let old = get_or sq.cid id 0 in
    let sq' = record sq {
      cid_ticket = u32 (sq.cid_ticket + 1);
      cid = set sq.cid id (bit_or old locked);
    } in
    let rest = get_cid fuel sq' in if old == locked then rest else some (id, sq')

pub put_cid : NvmQueue → ℕ → NvmQueue
put_cid sq id = record sq { cid = set sq.cid id unlocked }

-- The loop of `move_tail`: it stops short of `head`, or at the first slot with no mark.
pub move_tail_loop : ℕ → NvmQueue → ℕ → ℕ → Option (ℕ × NvmQueue)
move_tail_loop zero q cur_tail count = none
move_tail_loop (suc fuel) q cur_tail count =
    let loc = slot q (u32 (cur_tail + count)) in
    let q' = record q { tail_mark = set q.tail_mark loc unlocked } in
    let rest = move_tail_loop fuel q' cur_tail (u32 (count + 1)) in
    let marked = if get_or q.tail_mark loc 0 == locked then rest else some (count, q') in
    if slot q (u32 (cur_tail + count + 1)) == slot q q.head then some (count, q) else marked

pub move_tail : ℕ → NvmQueue → ℕ → Option (ℕ × NvmQueue)
move_tail fuel q cur_tail = do
  (count, q') ← move_tail_loop fuel q cur_tail 0
  some (count, record q' { head_lock = u32 (q'.head_lock + 1) })

-- The first loop of `move_head_cq`, with `count` as it is after the loop's `count -= 1`.
pub pop_head_marks : ℕ → NvmQueue → ℕ → ℕ → Option (ℕ × NvmQueue)
pop_head_marks zero q cur_head count = none
pop_head_marks (suc fuel) q cur_head count =
    let loc = slot q (u32 (cur_head + count)) in
    let q' = record q { head_mark = set q.head_mark loc unlocked } in
    let rest = pop_head_marks fuel q' cur_head (u32 (count + 1)) in
    if get_or q.head_mark loc 0 == locked then rest else some (count, q')

-- The loop over the SQ slots that the completion reports as consumed: each gets its next ticket.
pub free_sq_slots : ℕ → NvmQueue → ℕ → ℕ → ℕ → Option (ℕ × NvmQueue)
free_sq_slots zero sq new_sq_head loc moved = none
free_sq_slots (suc fuel) sq new_sq_head loc moved =
    let sq' = record sq { tickets = set sq.tickets loc (u32 (get_or sq.tickets loc 0 + 1)) } in
    let rest = free_sq_slots fuel sq' new_sq_head (slot sq (u32 (loc + 1))) (u32 (moved + 1)) in
    if loc == new_sq_head then some (moved, sq) else rest

-- word `k` of the entry at `loc`
abbrev pub dword : NvmQueue → ℕ → ℕ → ℕ
dword q loc k = get_or (get_or q.mem loc []) k 0

-- The walk from the SQ's head, and the addition that publishes it.
pub advance_sq_head : ℕ → NvmQueue → ℕ → Option NvmQueue
advance_sq_head fuel sq new_sq_head = do
  (moved, sq') ← free_sq_slots fuel sq new_sq_head (slot sq sq.head) 0
  some (record sq' { head = u32 (sq'.head + moved) })

-- The SQ head that the completion at `loc` reports.
abbrev pub reported_sq_head : NvmQueue → ℕ → ℕ
reported_sq_head q loc = bit_and (dword q loc 2) 0xffff

-- The block under `if (count)`.
pub free_reported : ℕ → NvmQueue → ℕ → ℕ → NvmQueue → Option NvmQueue
free_reported fuel q cur_head count sq =
    let new_sq_head = reported_sq_head q (slot q (u32 (cur_head + (count - 1)))) in
    let moved = advance_sq_head fuel sq new_sq_head in
    if count == 0 then some sq else (if slot sq sq.head == new_sq_head then some sq else moved)

pub move_head_cq : ℕ → NvmQueue → ℕ → NvmQueue → Option (ℕ × NvmQueue × NvmQueue)
move_head_cq fuel q cur_head sq = do
  (count, q') ← pop_head_marks fuel q cur_head 0
  sq' ← free_reported fuel q' cur_head count sq
  some (count, q', sq')

pub clean_cids_from : NvmQueue → NvmQueue → ℕ → ℕ → NvmQueue
clean_cids_from cq sq zero i = sq
clean_cids_from cq sq (suc count) i =
    clean_cids_from cq (put_cid sq (get_or cq.clean_cid i 0)) count (i + 1)

pub clean_cids : NvmQueue → NvmQueue → ℕ → NvmQueue
clean_cids cq sq count = clean_cids_from cq sq count 0

pub move_head_sq_loop : ℕ → NvmQueue → ℕ → ℕ → Option (ℕ × NvmQueue)
move_head_sq_loop zero q cur_head count = none
move_head_sq_loop (suc fuel) q cur_head count =
    let loc = slot q (u32 (cur_head + count)) in
    let q' = record q { head_mark = set q.head_mark loc unlocked } in
    let q'' = record q' { tickets = set q.tickets loc (u32 (get_or q.tickets loc 0 + 1)) } in
    let rest = move_head_sq_loop fuel q'' cur_head (u32 (count + 1)) in
    if get_or q.head_mark loc 0 == locked then rest else some (count, q')

pub move_head_sq : ℕ → NvmQueue → ℕ → Option (ℕ × NvmQueue)
move_head_sq fuel q cur_head = move_head_sq_loop fuel q cur_head 0
