-- ===== src/IoQueue.antt =====
-- include/io_scheduler.cuh and the scheduler kernels of
-- benchmarks/io_scheduler/io_scheduler_impl.cuh: the ring through which GPU threads hand their reads
-- and writes to the scheduler. The operations are split where another thread can come in between.
pub mod Ready
pub mod Keys
pub mod Waiters
pub mod System
pub mod Tests
use atc26_shaper_io.Prelude.{
  ℕ, zero, suc, ◌+◌, ◌-◌, ◌*◌, ◌/◌, ◌%◌, ◌^◌, Bool, not, Option, none, some, List, bit_and, bit_or,
  ◌==◌, ltb, leb, if◌then◌else◌, get_or, set, replicate,
}
use atc26_shaper_io.Prelude.Words.{u8, u32, u64, sub_u32}

pub record IoRequest : Type 0 where
  pub byte_offset : ℕ
  pub pc_entry : ℕ
  pub opcode : ℕ
  pub n_bytes_log2 : ℕ

-- What the write scheduler copies of a request: an element of `gsort_keys`, `gsort_pc_entries` and
-- `gsort_nbytes`. `gsort_vals` holds the element's own place.
pub record BatchEntry : Type 0 where
  pub key : ℕ
  pub pc_entry : ℕ
  pub n_bytes_log2 : ℕ

-- The arrays are lists of `capacity` elements.
pub record IoQueue : Type 0 where
  pub entries : List IoRequest
  pub done_flags : List ℕ
  pub done_seq : List ℕ
  pub prod_seq : List ℕ
  pub capacity : ℕ
  pub capacity_mask : ℕ
  pub prod_tail : ℕ
  pub cons_head : ℕ
  pub shutdown : ℕ
  pub submitted_ios : ℕ
  pub merged_ios : ℕ

-- `kSortKeyIndexBits` for the default batch of 512 entries
abbrev pub sort_key_index_bits : ℕ
sort_key_index_bits = 9

abbrev pub sort_key_index_mask : ℕ
sort_key_index_mask = 2 ^ 9 - 1

pub io_sched_make_sort_key : ℕ → ℕ → ℕ
io_sched_make_sort_key byte_offset batch_index =
    bit_or (u64 (byte_offset * 2 ^ sort_key_index_bits)) (bit_and batch_index sort_key_index_mask)

pub io_sched_key_byte_offset : ℕ → ℕ
io_sched_key_byte_offset key = key / 2 ^ sort_key_index_bits

pub io_sched_key_batch_index : ℕ → ℕ
io_sched_key_batch_index key = u32 (bit_and key sort_key_index_mask)

-- `__ffsll` of CUDA: the place of the lowest bit that is set, counted from 1, and 0 for 0
pub ffs_loop : ℕ → ℕ → ℕ
ffs_loop zero n = 0
ffs_loop (suc fuel) n =
    let rest = ffs_loop fuel (n / 2) in if n % 2 == 1 then 1 else if rest == 0 then 0 else suc rest

pub ffsll : ℕ → ℕ
ffsll n = ffs_loop 64 n

pub io_sched_encode_nbytes : ℕ → ℕ
io_sched_encode_nbytes n_bytes = u8 (ffsll n_bytes + 2 ^ 8 - 1)

-- for exponents below 64
pub io_sched_decode_nbytes : ℕ → ℕ
io_sched_decode_nbytes n_bytes_log2 = 2 ^ n_bytes_log2

abbrev pub no_request : IoRequest
no_request = record { byte_offset = 0; pc_entry = 0; opcode = 0; n_bytes_log2 = 0 }

-- what `io_sched_create` refuses, and the ring that it builds
pub io_sched_create : ℕ → Option IoQueue
io_sched_create capacity =
    if capacity == 0
    then none
    else if not (bit_and capacity (capacity - 1) == 0)
    then none
    else some (record {
      entries = replicate capacity no_request;
      done_flags = replicate capacity 0;
      done_seq = replicate capacity 0;
      prod_seq = replicate capacity 0;
      capacity = capacity;
      capacity_mask = capacity - 1;
      prod_tail = 0;
      cons_head = 0;
      shutdown = 0;
      submitted_ios = 0;
      merged_ios = 0;
    })

abbrev pub ring_idx : IoQueue → ℕ → ℕ
ring_idx q slot = bit_and slot q.capacity_mask

-- `io_sched_enqueue`: the slot is the old `prod_tail`.
pub claim_slot : IoQueue → IoQueue
claim_slot q = record q { prod_tail = u32 (q.prod_tail + 1) }

-- the test of its spin loop: the queue is full for this slot
pub queue_full : IoQueue → ℕ → Bool
queue_full q slot = leb q.capacity (sub_u32 slot q.cons_head)

pub request_entry : ℕ → ℕ → ℕ → ℕ → IoRequest
request_entry byte_offset n_bytes pc_entry opcode = record {
  byte_offset = byte_offset;
  pc_entry = pc_entry;
  opcode = opcode;
  n_bytes_log2 = io_sched_encode_nbytes n_bytes;
}

-- its stores up to the fence
pub write_entry : IoQueue → ℕ → IoRequest → IoQueue
write_entry q slot e = record q {
  done_flags = set q.done_flags (ring_idx q slot) 0;
  entries = set q.entries (ring_idx q slot) e;
}

pub publish_slot : IoQueue → ℕ → IoQueue
publish_slot q slot = record q { prod_seq = set q.prod_seq (ring_idx q slot) (u32 (slot + 1)) }

-- The whole of `io_sched_enqueue` with no other thread in between: it spins when the queue is full.
pub io_sched_enqueue : IoQueue → ℕ → ℕ → ℕ → ℕ → Option (IoQueue × ℕ)
io_sched_enqueue q byte_offset n_bytes pc_entry opcode =
    let slot = q.prod_tail in
    let q' = claim_slot q in
    if queue_full q' slot
    then none
    else some (
      publish_slot (write_entry q' slot (request_entry byte_offset n_bytes pc_entry opcode)) slot,
      slot,
    )

pub scan_loop : IoQueue → ℕ → ℕ → ℕ → ℕ
scan_loop q start i zero = i
scan_loop q start i (suc left) =
    let rest = scan_loop q start (i + 1) left in
    if get_or q.prod_seq (ring_idx q (u32 (start + i))) 0 == u32 (start + i + 1) then rest else i

pub io_sched_scan_ready : IoQueue → ℕ → ℕ → ℕ
io_sched_scan_ready q start max_count =
    let pending = sub_u32 q.prod_tail start in
    scan_loop q start 0 (if ltb max_count pending then max_count else pending)

pub io_sched_shutdown : IoQueue → IoQueue
io_sched_shutdown q = record q { shutdown = 1 }

-- The test of the waits in `io_sched_read`, `io_sched_write` and `io_sched_access`.
pub must_wait : IoQueue → ℕ → Bool
must_wait q slot = ltb (get_or q.done_seq (ring_idx q slot) 0) (u32 (slot + 1))

-- `io_sched_wait` on the flag of a slot: `none` while the flag is clear
pub io_sched_wait : IoQueue → ℕ → Option IoQueue
io_sched_wait q idx =
    if get_or q.done_flags idx 0 == 0
    then none
    else some (record q { done_flags = set q.done_flags idx 0 })

abbrev pub drained : IoRequest → BatchEntry
drained e = record { key = e.byte_offset; pc_entry = e.pc_entry; n_bytes_log2 = e.n_bytes_log2 }

-- an element of arrays that are not filled
abbrev pub no_entry : BatchEntry
no_entry = record { key = 0; pc_entry = 0; n_bytes_log2 = 0 }

-- The scheduler's copy of `avail` entries into its own arrays, from place `acc` on.
pub copy_entries : IoQueue → ℕ → ℕ → ℕ → List BatchEntry → List BatchEntry
copy_entries q base acc zero g = g
copy_entries q base acc (suc left) g =
    copy_entries q base (acc + 1) left
      (set g acc (drained (get_or q.entries (ring_idx q (u32 (base + acc))) no_request)))

-- One entry of the NOTIFY phase.
pub notify_entry : IoQueue → ℕ → ℕ → IoQueue
notify_entry q base orig = record q {
  done_seq = set q.done_seq (ring_idx q (u32 (base + orig))) (u32 (base + orig + 1));
  done_flags = set q.done_flags (ring_idx q (u32 (base + orig))) 1;
}

-- The end of a round: thread 0 counts the requests and frees their slots.
pub retire_batch : IoQueue → ℕ → ℕ → IoQueue
retire_batch q accumulated n_groups = record q {
  submitted_ios = u64 (q.submitted_ios + accumulated);
  merged_ios = u64 (q.merged_ios + n_groups);
  cons_head = u32 (q.cons_head + accumulated);
}
