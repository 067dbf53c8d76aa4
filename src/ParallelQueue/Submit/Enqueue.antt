-- ===== src/ParallelQueue/Submit/Enqueue.antt =====
-- A submission whose turn it is, on a queue with room and with no other thread at its lock.
use atc26_shaper_io.Prelude.{
  ℕ, suc, ◌+◌, ◌-◌, ◌%◌, ◌^◌, ◌<◌, ◌≡◌, ◌≢◌, inl, inr, refl, sym, ◌∙◌, ap, true, Option, some,
  length, get_or, set, get_or-set_self, get_or-set_le, ◌==◌, eq→==, ne→==, arith,
}
use atc26_shaper_io.Prelude.Powers.{pow-pos, pow_mono}
use atc26_shaper_io.Prelude.Words.{u16, u32}
use atc26_shaper_io.Types.{Dwords, NvmQueue}
use atc26_shaper_io.ParallelQueue.{slot, get_id, move_tail}
use atc26_shaper_io.ParallelQueue.Marks.{IsRing, slot-mod, AreMarks}
use atc26_shaper_io.ParallelQueue.Tail.{Published, move_tail-Published}
use atc26_shaper_io.ParallelQueue.Submit.{publish_loop, sq_enqueue}
use native.Mathlib.Nat.{mod-lt}

-- One round of the loop that finds the lock free and publishes this thread's command.
publish_round :
    (moves fuel : ℕ) (sq : NvmQueue) (pos : ℕ) {count : ℕ} {sq' : NvmQueue}
    → sq.tail_lock ≡ 0
    → move_tail moves (record sq { tail_lock = 1 }) sq.tail ≡ some (count, sq')
    → count ≢ 0
    → get_or sq'.tail_mark pos 0 ≡ 0
    → publish_loop moves (suc fuel) sq pos
      ≡ some (record sq' {
        doorbell = slot sq' (u32 (sq.tail + count));
        tail = u32 (sq.tail + count);
        tail_lock = 0;
      })
unfolding publish_loop
publish_round moves fuel sq pos open_lock e some_moved down =
    rw (open_lock, e, ne→== _ _ some_moved, down)

-- It is this ticket's turn, the queue is not full, and the tail has come up to this ticket.
pub record IsTurn (k : ℕ) (sq : NvmQueue) : Type 0 where
  pub ring : IsRing k sq
  pub log : sq.qs_log2 ≡ k
  pub slots : length sq.tickets ≡ 2 ^ k
  pub marks : length sq.tail_mark ≡ 2 ^ k
  pub flags : AreMarks sq.tail_mark
  pub word : sq.in_ticket < 2 ^ 32
  pub turn : get_or sq.tickets (sq.in_ticket % 2 ^ k) 0 ≡ get_id sq.in_ticket k
  pub at_tail : sq.tail ≡ sq.in_ticket
  pub room : (sq.in_ticket + 1) % 2 ^ k ≢ sq.head % 2 ^ k
  pub free_lock : sq.tail_lock ≡ 0

-- What the submission leaves. The command stands in the slot of the ticket, and the slot's word says
-- that it is in use; the lock is free again; the tail has moved past the slot, no further than the
-- head allows, and the doorbell shows it.
pub record Submitted (k : ℕ) (sq : NvmQueue) (cmd : Dwords) (pos : ℕ) (sq' : NvmQueue)
    : Type 0 where
  pub place : pos ≡ sq.in_ticket % 2 ^ k
  pub stored : sq'.mem ≡ set sq.mem pos cmd
  pub taken : sq'.in_ticket ≡ u32 (sq.in_ticket + 1)
  pub busy : sq'.tickets ≡ set sq.tickets pos (u32 (get_id sq.in_ticket k + 1))
  pub unlocked_again : sq'.tail_lock ≡ 0
  pub moved : ℕ
  pub past : 0 < moved
  pub short : moved < 2 ^ k
  pub tail : sq'.tail ≡ u32 (sq.tail + moved)
  pub rung : sq'.doorbell ≡ sq'.tail % 2 ^ k
  pub below_head : (sq.tail + moved) % 2 ^ k ≢ sq.head % 2 ^ k
  pub head_same : sq'.head ≡ sq.head
  pub mask_same : sq'.qs_minus_1 ≡ sq.qs_minus_1

module _ (k : ℕ) (sq : NvmQueue) (cmd : Dwords) (is : IsTurn k sq) where
  open is use {ring, log, slots, marks, flags, word, turn, at_tail, room, free_lock}

  abbrev pos : ℕ
  pos = sq.in_ticket % 2 ^ k

  -- the queue when the thread has put its command and its mark
  abbrev marked : NvmQueue
  marked = record sq {
    in_ticket = u32 (sq.in_ticket + 1);
    mem = set sq.mem pos cmd;
    tail_mark = set sq.tail_mark pos 1;
  }

  up : get_or marked.tail_mark pos 0 ≡ 1
  up = get_or-set_self sq.tail_mark pos 1 0 (rw marks (mod-lt _ (pow-pos k)))

  flags' : AreMarks marked.tail_mark
  flags' j = get_or-set_le sq.tail_mark pos j 1 0 1 (omega arith) (flags j)

  -- `move_tail` moves at least past this slot.
  moves_past :
      (count : ℕ) (sq' : NvmQueue)
      → Published k (record marked { tail_lock = 1 }) sq.tail count sq'
      → count ≢ 0
  moves_past count sq' p zero_moved = elim p.stop [
    | inl full ↦ room (ap (λ (t : ℕ). (t + 1) % 2 ^ k) here ∙ full)
    | inr down ↦ omega (arith, up, down, ap (λ (t : ℕ). get_or marked.tail_mark (t % 2 ^ k) 0) here)
  ]
    where
      here : sq.in_ticket ≡ sq.tail + count
      here = omega arith

  -- the queue when `move_tail` has returned `count` and left `q`
  abbrev finished : ℕ → NvmQueue → NvmQueue
  finished count q = record q {
    doorbell = slot q (u32 (sq.tail + count));
    tail = u32 (sq.tail + count);
    tail_lock = 0;
    tickets = set q.tickets pos (u32 (get_or q.tickets pos 0 + 1));
  }

  module _ {count : ℕ} {q : NvmQueue}
      (e : move_tail (2 ^ k) (record marked { tail_lock = 1 }) sq.tail ≡ some (count, q))
      (p : Published k (record marked { tail_lock = 1 }) sq.tail count q) where
    down : get_or q.tail_mark pos 0 ≡ 0
    down =
        let here : sq.tail + 0 ≡ sq.in_ticket = omega arith in
        ap (λ (t : ℕ). get_or q.tail_mark (t % 2 ^ k) 0) (sym here)
        ∙ p.cleared.are_down 0 (omega arith) (omega (arith, moves_past count q p))

    enqueue_runs :
        (pc_tail : Option ℕ)
        → sq_enqueue (2 ^ k) 1 sq cmd pc_tail ≡ some (pos, finished count q, pc_tail)
    unfolding sq_enqueue
    enqueue_runs pc_tail =
        let small : u16 pos ≡ pos =
          omega (arith, mod-lt sq.in_ticket (pow-pos k), pow_mono k 16 ring.small) in
        let its_turn : (get_or sq.tickets pos 0 == get_id sq.in_ticket sq.qs_log2) ≡ true =
          eq→== _ _ (turn ∙ ap (λ (t : ℕ). get_id sq.in_ticket t) (sym log)) in
        rw (slot-mod {q = sq} sq.in_ticket ring, its_turn, up)
          (rw (publish_round (2 ^ k) 0 marked pos free_lock e (moves_past count q p) down)
            (rw small))

    finished-Submitted : Submitted k sq cmd pos (finished count q)
    finished-Submitted =
        let same_tickets : q.tickets ≡ sq.tickets = ap (λ (r : NvmQueue). r.tickets) p.same in
        let same_mask : q.qs_minus_1 ≡ sq.qs_minus_1 = ap (λ (r : NvmQueue). r.qs_minus_1) p.same in
        let last : sq.tail + (count - 1) + 1 ≡ sq.tail + count =
          omega (arith, moves_past count q p) in
        record {
          place = refl;
          stored = ap (λ (r : NvmQueue). r.mem) p.same;
          taken = ap (λ (r : NvmQueue). r.in_ticket) p.same;
          busy = rw same_tickets (ap (λ (t : ℕ). set sq.tickets pos (u32 (t + 1))) turn);
          unlocked_again = refl;
          moved = count;
          past = omega (arith, moves_past count q p);
          short = p.short;
          tail = refl;
          rung =
              slot-mod {k = k} {q = q} _
                (record { small = ring.small; mask = same_mask ∙ ring.mask });
          below_head = rw last at (p.room (count - 1) (omega (arith, moves_past count q p)));
          head_same = ap (λ (r : NvmQueue). r.head) p.same;
          mask_same = same_mask;
        }

  -- A thread whose turn it is, on a queue that is not full and with no other thread at its lock, gets its
  -- command in: one round of the loop at the lock is enough.
  pub sq_enqueue-Submitted :
      (pc_tail : Option ℕ)
      → (sq' : NvmQueue) × (sq_enqueue (2 ^ k) 1 sq cmd pc_tail
          ≡ some (sq.in_ticket % 2 ^ k, sq', pc_tail))
        × Submitted k sq cmd (sq.in_ticket % 2 ^ k) sq'
  sq_enqueue-Submitted pc_tail =
      let (count, q, e, p) =
        move_tail-Published k (record marked { tail_lock = 1 }) sq.tail
          (record { small = ring.small; mask = ring.mask }) flags' in
      (finished count q, enqueue_runs e p pc_tail, finished-Submitted e p)
