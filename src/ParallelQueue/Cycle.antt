-- ===== src/ParallelQueue/Cycle.antt =====
-- A slot of the submission queue through one use: submission, consumption, and the tickets that it admits
-- then.
use atc26_shaper_io.Prelude.{
  ℕ, ◌+◌, ◌*◌, ◌/◌, ◌%◌, ◌^◌, ◌≤◌, ◌<◌, ◌≡◌, ◌≢◌, ◌↔◌, sym, ap, ◌∙◌, Option, some, length,
  length-set, get_or, get_or-set_self, arith,
}
use atc26_shaper_io.Prelude.Powers.{pow-pos, pow_mono}
use atc26_shaper_io.Prelude.Words.{u32}
use atc26_shaper_io.Types.{Dwords, NvmQueue}
use atc26_shaper_io.ParallelQueue.{get_id, advance_sq_head}
use atc26_shaper_io.ParallelQueue.Ticket.{get_id-exact, no_next_round}
use atc26_shaper_io.ParallelQueue.Marks.{u32-mod}
use atc26_shaper_io.ParallelQueue.Head.{from, from-ne}
use atc26_shaper_io.ParallelQueue.Freed.{Freed, advance_sq_head-Freed}
use atc26_shaper_io.ParallelQueue.Submit.{sq_enqueue}
use atc26_shaper_io.ParallelQueue.Submit.Enqueue.{IsTurn, Submitted, sq_enqueue-Submitted}
use native.Mathlib.Nat.{mod-lt, div-add-mod}
use native.Mathlib.Decide.{dec_lt}

half : (n k : ℕ) → 1 ≤ k → n / 2 ^ k * 2 ≤ n
half n k lo = grind (arith, div-add-mod n (2 ^ k), pow_mono 1 k lo)

quarter : (n k : ℕ) → 2 ≤ k → n / 2 ^ k * 4 ≤ n
quarter n k lo = grind (arith, div-add-mod n (2 ^ k), pow_mono 2 k lo)

module _ (k : ℕ) (sq : NvmQueue) (cmd : Dwords) (is : IsTurn k sq) (two : 2 ≤ k) where
  abbrev ticket : ℕ
  ticket = sq.in_ticket

  abbrev pos : ℕ
  pos = ticket % 2 ^ k

  module _ {sq' : NvmQueue} (sub : Submitted k sq cmd pos sq') where
    word-submitted : get_or sq'.tickets pos 0 ≡ ticket / 2 ^ k * 2 + 1
    word-submitted =
        rw (sub.busy, get_or-set_self sq.tickets pos (u32 (get_id ticket k + 1)) 0 in_range)
          (omega (arith, get_id-exact ticket k is.word, quarter ticket k two, is.word))
      where
        in_range : pos < length sq.tickets
        in_range = rw is.slots (mod-lt ticket (pow-pos k))

    shut : (t : ℕ) → t < 2 ^ 32 → get_or sq'.tickets pos 0 ≢ get_id t k
    shut t word e = omega (arith, word-submitted, get_id-exact t k word)

    -- The walk over the consumed slots raises this one.
    word-Freed :
        {sq'' : NvmQueue} (new_sq_head i d : ℕ) (freed : Freed k sq' new_sq_head sq'')
        → i < d
        → d < 2 ^ k
        → from k sq.head i ≡ pos
        → from k sq.head d ≡ new_sq_head
        → get_or sq''.tickets pos 0 ≡ ticket / 2 ^ k * 2 + 2
    word-Freed {sq''} new_sq_head i d freed lt small here goal =
        let reached : from k sq.head freed.count ≡ new_sq_head =
          sym (
            ap (λ (h : ℕ). h % 2 ^ k) freed.head
            ∙ u32-mod k (sq'.head + freed.count) is.ring.small
            ∙ ap (λ (h : ℕ). (h + freed.count) % 2 ^ k) sub.head_same)
          ∙ freed.arrived in
        let far : i < freed.count = elim (dec_lt freed.count d) [
          | yes less ↦
              absurd (from-ne k sq.head freed.count d less (omega arith) (reached ∙ sym goal))
          | no ge ↦ omega arith
        ] in
        let there : from k sq'.head i ≡ pos =
          ap (λ (h : ℕ). (h + i) % 2 ^ k) sub.head_same ∙ here in
        let up : get_or sq''.tickets pos 0 ≡ u32 (get_or sq'.tickets pos 0 + 1) =
          let r = freed.raised.raised i (omega arith) far in rw there at r in
        up ∙ omega (arith, word-submitted, quarter ticket k two, is.word)

  -- A thread whose turn it is submits to a queue of four or more slots, and `move_head_cq`'s walk then goes
  -- past its slot. In between the slot admits no ticket. Afterwards it admits just the 32-bit tickets of
  -- the next round; and none, ever, when the tickets of that round have wrapped.
  pub slot_admits_iff :
      (pc_tail : Option ℕ) (new_sq_head i d : ℕ)
      → i < d
      → d < 2 ^ k
      → from k sq.head i ≡ pos
      → from k sq.head d ≡ new_sq_head
      → (sq' : NvmQueue) × (sq'' : NvmQueue) × (sq_enqueue (2 ^ k) 1 sq cmd pc_tail
          ≡ some (pos, sq', pc_tail))
        × (advance_sq_head (2 ^ k) sq' new_sq_head ≡ some sq'')
        × ((t : ℕ) → t < 2 ^ 32 → get_or sq'.tickets pos 0 ≢ get_id t k)
        × ((t : ℕ)
            → t < 2 ^ 32
            → (get_or sq''.tickets pos 0 ≡ get_id t k) ↔ (t / 2 ^ k ≡ ticket / 2 ^ k + 1))
        × (2 ^ 32 ≤ ticket + 2 ^ k → (t : ℕ) → t < 2 ^ 32 → get_or sq''.tickets pos 0 ≢ get_id t k)
  slot_admits_iff pc_tail new_sq_head i d lt small here goal =
      let (sq', e, sub) = sq_enqueue-Submitted k sq cmd is pc_tail in
      let size : length sq'.tickets ≡ 2 ^ k =
        ap length sub.busy ∙ length-set sq.tickets pos (u32 (get_id ticket k + 1)) ∙ is.slots in
      let valid : new_sq_head < 2 ^ k = rw (sym goal) (mod-lt (sq.head + d) (pow-pos k)) in
      let (sq'', f, freed) =
        advance_sq_head-Freed k sq' new_sq_head
          (record { small = is.ring.small; mask = sub.mask_same ∙ is.ring.mask }) size valid in
      let word : get_or sq''.tickets pos 0 ≡ ticket / 2 ^ k * 2 + 2 =
        word-Freed sub new_sq_head i d freed lt small here goal in
      (
        sq',
        sq'',
        e,
        f,
        shut sub,
        λ t b. (λ g. omega (arith, get_id-exact t k b), λ g. omega (arith, get_id-exact t k b)),
        λ last t b g.
            no_next_round ticket t k (omega (arith, is.ring.small)) b last
              (omega (arith, get_id-exact t k b)),
      )
