-- ===== src/HostQueue.antt =====
-- include/nvm_queue.h and src/queue.cpp: queues with one user at a time, as the host has them. Head and
-- tail are slot numbers here, where the functions that GPU threads share have counters.
-- An entry's pointer is its address, NULL is `none`; cache flushes are left out.
pub mod Ring
pub mod Submission
pub mod Delay
pub mod Completion
pub mod Waiting
pub mod Frame
pub mod Setup
pub mod Warp
use atc26_shaper_io.Prelude.{
  ℕ, zero, suc, ◌+◌, ◌-◌, ◌*◌, ◌/◌, ◌%◌, ◌^◌, Bool, true, false, not, ◌&&◌, ◌||◌, Option, none,
  some, List, [], ◌∷◌, min, ◌==◌, ltb, leb, if◌then◌else◌, get_or,
}
use atc26_shaper_io.Prelude.Words.{u16, u32, u64, sub_u32}
use atc26_shaper_io.Types.{NvmQueue, NvmCtrl}
use atc26_shaper_io.Util.{rb, sq_dbl, cq_dbl}

-- `!x`
abbrev pub lnot : ℕ → ℕ
lnot x = if x == 0 then 1 else 0

abbrev pub einval : ℕ
einval = 22

-- The assignments of `nvm_queue_clear`.
abbrev pub cleared : NvmQueue → NvmCtrl → Bool → ℕ → ℕ → ℕ → ℕ → ℕ → NvmQueue
cleared queue ctrl cq number qs local vaddr ioaddr = record queue {
  no = number;
  qs = qs;
  es = if cq then 16 else 64;
  head = 0;
  tail = 0;
  last = 0;
  phase = 1;
  local = lnot (lnot local);
  head_lock = 0;
  tail_lock = 0;
  in_ticket = 0;
  cid_ticket = 0;
  db =
      some
        (if cq then cq_dbl ctrl.mm_ptr number ctrl.dstrd else sq_dbl ctrl.mm_ptr number ctrl.dstrd);
  vaddr = vaddr;
  ioaddr = ioaddr;
}

-- The error number, and the queue.
pub nvm_queue_clear : NvmQueue → NvmCtrl → Bool → ℕ → ℕ → ℕ → ℕ → ℕ → ℕ × NvmQueue
nvm_queue_clear queue ctrl cq number qs local vaddr ioaddr =
    let fresh = cleared queue ctrl cq number qs local vaddr ioaddr in
    if ltb qs 2 || ltb 0x10000 qs || ltb ctrl.max_qs qs then (einval, queue) else (0, fresh)

pub nvm_queue_reset : NvmQueue → NvmQueue
nvm_queue_reset queue = record queue { head = 0; tail = 0; last = 0; phase = 1 }

pub nvm_sq_enqueue : NvmQueue → Option ℕ × NvmQueue
nvm_sq_enqueue sq =
    let cmd = sq.vaddr + sq.es * sq.tail in
    let next = u32 (sq.tail + 1) in
    let wrapped = record sq { phase = lnot sq.phase; tail = 0 } in
    let full = u16 (sub_u32 sq.tail sq.head) % sq.qs == sq.qs - 1 in
    if full
    then (none, sq)
    else (some cmd, (if next == sq.qs then wrapped else record sq { tail = next }))

-- The `i`th of `n` threads; `last` is the address that it had before.
pub nvm_sq_enqueue_n : NvmQueue → Option ℕ → ℕ → ℕ → Option ℕ × NvmQueue
nvm_sq_enqueue_n sq last n i =
    let start = sq.vaddr in
    let end = start + sq.qs * sq.es in
    let moved = record sq { tail = u32 (sq.tail + n) % sq.qs } in
    let sq' = if i == 0 then moved else sq in
    if leb sq.qs n then (none, sq) else (some (place start end last), sq')
  where
    place : ℕ → ℕ → Option ℕ → ℕ
    place start end none = start + sq.es * i
    place start end (some last) =
        let cmd = last + n * sq.es in if leb end cmd then start + (cmd - end) else cmd

-- `*NVM_CPL_STATUS(cpl)` of the entry in slot `loc`: the high half of its last word.
abbrev pub cpl_status : NvmQueue → ℕ → ℕ
cpl_status cq loc = get_or (get_or cq.mem loc []) 3 0 / 2 ^ 16

pub nvm_cq_poll : NvmQueue → Option ℕ
nvm_cq_poll cq =
    let cpl = cq.vaddr + cq.es * cq.head in
    if lnot (rb (cpl_status cq cq.head) 0 0) == lnot cq.phase then some cpl else none

-- A poll that found an entry moves the head past it.
abbrev pub cq_taken : NvmQueue → Option ℕ → NvmQueue
cq_taken cq none = cq
cq_taken cq (some cpl) =
    let next = u32 (cq.head + 1) in
    let wrapped = record cq { head = 0; phase = lnot cq.phase } in
    if next == cq.qs then wrapped else record cq { head = next }

pub nvm_cq_dequeue : NvmQueue → Option ℕ × NvmQueue
nvm_cq_dequeue cq = (nvm_cq_poll cq, cq_taken cq (nvm_cq_poll cq))

-- `_nvm_delay_remain`, but for the sleep
pub nvm_delay_remain : ℕ → ℕ
nvm_delay_remain remaining = if remaining == 0 then 0 else remaining - min 1000000 remaining

-- The result of a round that polled `cpl`, with `later` for the rounds to come.
abbrev wait_round :
    NvmQueue → Option ℕ → Option (Option ℕ × NvmQueue) → Option (Option ℕ × NvmQueue)
wait_round cq none later = later
wait_round cq (some cpl) later = some (some cpl, cq_taken cq (some cpl))

-- The loop of `nvm_cq_dequeue_block`. The controller may write while the host sleeps: `write` makes the
-- queue of each next round from that of the last.
pub dequeue_wait : ℕ → (NvmQueue → NvmQueue) → ℕ → NvmQueue → Option (Option ℕ × NvmQueue)
dequeue_wait zero write nsecs cq = none
dequeue_wait (suc fuel) write nsecs cq =
    let rest = dequeue_wait fuel write (nvm_delay_remain nsecs) (write cq) in
    wait_round cq (nvm_cq_poll cq) (if nsecs == 0 then some (none, cq) else rest)

pub nvm_cq_dequeue_block : ℕ → (NvmQueue → NvmQueue) → NvmQueue → ℕ → Option (Option ℕ × NvmQueue)
nvm_cq_dequeue_block fuel write cq timeout = dequeue_wait fuel write (u64 (timeout * 1000000)) cq

-- Both write the doorbell if there is one.
abbrev rung : Option ℕ → NvmQueue → NvmQueue → NvmQueue
rung none q q' = q
rung (some db) q q' = q'

pub nvm_sq_submit : NvmQueue → NvmQueue
nvm_sq_submit sq =
    let submitted = record sq { doorbell = sq.tail; last = sq.tail } in
    if sq.last == sq.tail then sq else rung sq.db sq submitted

pub nvm_sq_update : NvmQueue → NvmQueue
nvm_sq_update sq =
    let next = u32 (sq.head + 1) in
    rung sq.db sq (record sq { head = if next == sq.qs then 0 else next })

pub nvm_cq_update : NvmQueue → NvmQueue
nvm_cq_update cq =
    let updated = record cq { doorbell = cq.head; tail = cq.head; last = cq.head } in
    if cq.last == cq.head then cq else rung cq.db cq updated
