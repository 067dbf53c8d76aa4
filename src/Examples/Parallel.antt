-- ===== src/Examples/Parallel.antt =====
-- The queue operations of include/nvm_parallel_queue.h on a queue of four slots.
use atc26_shaper_io.Prelude.{
  ℕ, zero, suc, ◌+◌, ◌-◌, ◌^◌, ◌≤◌, ◌<◌, ◌≡◌, ◌≢◌, ◌/◌, ◌%◌, ◌↔◌, refl, none, some, [], ◌∷◌, get_or,
  arith,
}
use atc26_shaper_io.Types.{NvmQueue}
use atc26_shaper_io.Prelude.Bits.{and-low_mask}
use atc26_shaper_io.Prelude.Words.{u32}
use atc26_shaper_io.Examples.{four, all_down}
use atc26_shaper_io.ParallelQueue.{get_id, slot, move_tail, move_head_cq, advance_sq_head}
use atc26_shaper_io.ParallelQueue.Ticket.{get_id-exact, ticket_of_slot}
use atc26_shaper_io.ParallelQueue.Marks.{IsRing}
use atc26_shaper_io.ParallelQueue.Tail.{Published, move_tail-Published}
use atc26_shaper_io.ParallelQueue.Retire.{Retired, last_report, move_head_cq-Retired}
use atc26_shaper_io.ParallelQueue.Submit.{sq_enqueue}
use atc26_shaper_io.ParallelQueue.Cycle.{slot_admits_iff}
use atc26_shaper_io.ParallelQueue.Submit.Enqueue.{IsTurn, Submitted, sq_enqueue-Submitted}

ring : IsRing 2 four
ring = record { small = omega arith; mask = refl }

ticket_of_slot_example : (◌≡◌ {A = ℕ} 6 6)
ticket_of_slot_example = ticket_of_slot 6 6 2 (omega arith) (omega arith) refl refl

move_tail-Published_example :
    (count : ℕ) × (q' : NvmQueue) × (move_tail (2 ^ 2) four 0 ≡ some (count, q'))
    × Published 2 four 0 count q'
move_tail-Published_example = move_tail-Published 2 four 0 ring all_down

turn : IsTurn 2 four
turn = record {
  ring = ring;
  log = refl;
  slots = refl;
  marks = refl;
  flags = all_down;
  word = omega arith;
  turn = omega (arith, get_id-exact 0 2);
  at_tail = refl;
  room = λ e. omega arith;
  free_lock = refl;
}

sq_enqueue-Submitted_example :
    (sq' : NvmQueue) × (sq_enqueue (2 ^ 2) 1 four (7 ∷ []) none ≡ some (0, sq', none))
    × Submitted 2 four (7 ∷ []) 0 sq'
sq_enqueue-Submitted_example = sq_enqueue-Submitted 2 four (7 ∷ []) turn none

-- a completion queue with one finished entry, which reports submission head 1
abbrev finished : NvmQueue
finished = record four {
  head_mark = 1 ∷ 0 ∷ 0 ∷ 0 ∷ [];
  mem = (0 ∷ 0 ∷ 1 ∷ 0x10000 ∷ []) ∷ [] ∷ [] ∷ [] ∷ [];
}

finished_marks : (i : ℕ) → get_or finished.head_mark i 0 ≤ 1
finished_marks zero = omega arith
finished_marks (suc zero) = omega arith
finished_marks (suc (suc zero)) = omega arith
finished_marks (suc (suc (suc zero))) = omega arith
finished_marks (suc (suc (suc (suc i)))) = omega arith

report_small : (x : ℕ) → x < 4 → get_or (get_or finished.mem x []) 2 0 % 2 ^ 16 < 4
report_small zero lt = omega arith
report_small (suc zero) lt = omega arith
report_small (suc (suc zero)) lt = omega arith
report_small (suc (suc (suc zero))) lt = omega arith
report_small (suc (suc (suc (suc x)))) lt = absurd (omega arith)

reports : (count : ℕ) → last_report 2 finished 0 four count < 2 ^ 2
reports count =
    let place : ℕ = slot finished (u32 (0 + (count - 1))) in
    report_small place (omega (arith, and-low_mask 2 (u32 (0 + (count - 1)))))

move_head_cq-Retired_example :
    (count : ℕ) × (cq' : NvmQueue) × (sq' : NvmQueue) × (move_head_cq (2 ^ 2) finished 0 four
      ≡ some (count, cq', sq'))
    × Retired 2 finished 0 four count cq' sq'
move_head_cq-Retired_example =
    move_head_cq-Retired 2 finished 0 four ring refl (omega arith) 1
      (record { small = omega arith; mask = refl }) finished_marks (omega arith) refl reports

-- the same queue when the last 32-bit ticket is next
abbrev last_ticket : NvmQueue
last_ticket = record four {
  in_ticket = 0xffffffff;
  tail = 0xffffffff;
  head = 0xffffffff;
  tickets = 0 ∷ 0 ∷ 0 ∷ 0x7ffffffe ∷ [];
}

last-IsTurn : IsTurn 2 last_ticket
last-IsTurn = record {
  ring = record { small = omega arith; mask = refl };
  log = refl;
  slots = refl;
  marks = refl;
  flags = all_down;
  word = omega arith;
  turn = omega (arith, get_id-exact 0xffffffff 2);
  at_tail = refl;
  room = λ e. omega arith;
  free_lock = refl;
}

slot_admits_iff_example :
    (sq' : NvmQueue) × (sq'' : NvmQueue) × (sq_enqueue (2 ^ 2) 1 last_ticket (7 ∷ []) none
      ≡ some (3, sq', none))
    × (advance_sq_head (2 ^ 2) sq' 0 ≡ some sq'')
    × ((t : ℕ) → t < 2 ^ 32 → get_or sq'.tickets 3 0 ≢ get_id t 2)
    × ((t : ℕ)
        → t < 2 ^ 32
        → (get_or sq''.tickets 3 0 ≡ get_id t 2) ↔ (t / 2 ^ 2 ≡ 0xffffffff / 2 ^ 2 + 1))
    × (2 ^ 32 ≤ 0xffffffff + 2 ^ 2 → (t : ℕ) → t < 2 ^ 32 → get_or sq''.tickets 3 0 ≢ get_id t 2)
slot_admits_iff_example =
    slot_admits_iff 2 last_ticket (7 ∷ []) last-IsTurn (omega arith) none 0 0 1 (omega arith)
      (omega arith) refl refl
