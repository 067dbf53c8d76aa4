-- ===== src/IoQueue/Tests.antt =====
-- A ring of four slots: its construction, the scan, the keys and the waits.
use atc26_shaper_io.Prelude.{
  ℕ, ◌%◌, ◌^◌, ◌≤◌, ◌<◌, ◌≡◌, ◌↔◌, ◌⊎◌, refl, true, false, none, some, [], ◌∷◌, replicate, arith,
}
use atc26_shaper_io.Prelude.Words.{u32}
use atc26_shaper_io.Command.{nvm_io_write}
use atc26_shaper_io.IoQueue.{
  IoRequest, IoQueue, no_request, io_sched_create, request_entry, io_sched_scan_ready, must_wait,
  io_sched_make_sort_key, io_sched_key_byte_offset, io_sched_key_batch_index,
  io_sched_encode_nbytes, io_sched_decode_nbytes, scan_loop, ffs_loop, ffsll,
}
use atc26_shaper_io.IoQueue.Ready.{Ready, scan_ready-Ready}
use atc26_shaper_io.IoQueue.Keys.{sort_key-ordered, encode_nbytes-decodes}
use atc26_shaper_io.IoQueue.Waiters.{must_wait_iff}

abbrev pub ring : IoQueue
ring = record {
  entries = replicate 4 no_request;
  done_flags = replicate 4 0;
  done_seq = replicate 4 0;
  prod_seq = replicate 4 0;
  capacity = 4;
  capacity_mask = 3;
  prod_tail = 0;
  cons_head = 0;
  shutdown = 0;
  submitted_ios = 0;
  merged_ios = 0;
}

pub ring-created : io_sched_create (2 ^ 2) ≡ some ring
unfolding io_sched_create
ring-created = refl

refuses_three : io_sched_create 3 ≡ none
unfolding io_sched_create
refuses_three = refl

abbrev pub req : IoRequest
req = request_entry 8192 4096 7 nvm_io_write

request_size : io_sched_decode_nbytes (req.n_bytes_log2) ≡ 4096
unfolding request_entry io_sched_encode_nbytes io_sched_decode_nbytes ffsll ffs_loop
request_size = refl

-- three of four slots are claimed, the first two of them published
abbrev half_done : IoQueue
half_done = record ring { prod_tail = 3; prod_seq = 1 ∷ 2 ∷ 0 ∷ 0 ∷ [] }

takes_two : io_sched_scan_ready half_done 0 4 ≡ 2
unfolding io_sched_scan_ready scan_loop
takes_two = refl

scan_ready-Ready_example : Ready half_done 0 3 (io_sched_scan_ready half_done 0 4)
scan_ready-Ready_example = scan_ready-Ready half_done 0 4

abbrev offset : ℕ
offset = 4096

sort_key-ordered_example :
    ((io_sched_make_sort_key 4096 3 < io_sched_make_sort_key 8192 1)
      ↔ ((4096 < 8192) ⊎ ((offset ≡ 8192) × (3 < 1))))
    × (io_sched_key_byte_offset (io_sched_make_sort_key 4096 3) ≡ 4096)
    × (io_sched_key_batch_index (io_sched_make_sort_key 4096 3) ≡ 3)
sort_key-ordered_example =
    sort_key-ordered 4096 3 8192 1 (omega arith) (omega arith) (omega arith) (omega arith)

-- the slot of request 4, with the word of request 0
abbrev second_round : IoQueue
second_round = record ring { done_seq = 1 ∷ 0 ∷ 0 ∷ 0 ∷ [] }

must_wait_iff_example : (must_wait second_round (u32 4) ≡ true) ↔ (4 ≤ 5 % 2 ^ 32)
must_wait_iff_example = must_wait_iff second_round 4 (omega arith) (omega arith) (omega arith) refl

-- request 2^32, whose slot shows the ticket of the request before it on this slot
abbrev wrapped : IoQueue
wrapped = record ring { done_seq = 0xfffffffd ∷ 0 ∷ 0 ∷ 0 ∷ [] }

returns_early : must_wait wrapped (u32 (2 ^ 32)) ≡ false
unfolding must_wait
returns_early = refl

encode_nbytes-decodes_largest : io_sched_decode_nbytes (io_sched_encode_nbytes (2 ^ 21)) ≡ 2 ^ 21
encode_nbytes-decodes_largest = encode_nbytes-decodes 21 (omega arith)
