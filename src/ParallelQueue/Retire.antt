-- ===== src/ParallelQueue/Retire.antt =====
-- `move_head_cq`: finished completions leave the queue, and the submission slots that the last of them
-- reports as consumed get their next ticket.
use atc26_shaper_io.Prelude.{
  ℕ, ◌+◌, ◌-◌, ◌%◌, ◌^◌, ◌≤◌, ◌<◌, ◌≡◌, refl, ◌∙◌, ap, some, List, [], length, get_or, eq→==, ne→==,
  arith,
}
use atc26_shaper_io.Prelude.Bits.{and-low_mask}
use atc26_shaper_io.Prelude.Powers.{pow_mono}
use atc26_shaper_io.Prelude.Words.{u32}
use atc26_shaper_io.Types.{NvmQueue}
use atc26_shaper_io.ParallelQueue.{slot, reported_sq_head, free_reported, move_head_cq}
use atc26_shaper_io.ParallelQueue.Marks.{IsRing, AreMarks}
use atc26_shaper_io.ParallelQueue.Head.{from, Passed, pop_head_marks-Passed}
use atc26_shaper_io.ParallelQueue.Freed.{Freed, Freed-none, advance_sq_head-Freed}
use native.Mathlib.Decide.{ℕ_discrete}

module _ (k : ℕ) (cq : NvmQueue) (cur_head : ℕ) (sq : NvmQueue) where
  -- the SQ head that the last of `count` completions reports: the low half of the third word
  abbrev pub last_report : ℕ → ℕ
  last_report count =
      get_or (get_or cq.mem (slot cq (u32 (cur_head + (count - 1)))) []) 2 0 % 2 ^ 16

  reported :
      (count : ℕ) → reported_sq_head cq (slot cq (u32 (cur_head + (count - 1)))) ≡ last_report count
  reported count =
      and-low_mask 16 (get_or (get_or cq.mem (slot cq (u32 (cur_head + (count - 1)))) []) 2 0)

  -- What `move_head_cq` returns and leaves.
  pub record Retired (count : ℕ) (cq' sq' : NvmQueue) : Type 0 where
    pub passed : Passed k cq cur_head 0 count cq'
    pub idle : count ≡ 0 → sq' ≡ sq
    pub freed : 0 < count → Freed k sq (last_report count) sq'

  -- The reports are read from queue memory, which the walk over the marks leaves alone.
  free_reported-head_mark :
      (count : ℕ) (marks : List ℕ)
      → free_reported (2 ^ k) (record cq { head_mark = marks }) cur_head count sq
        ≡ free_reported (2 ^ k) cq cur_head count sq
  unfolding free_reported
  free_reported-head_mark count marks = refl

  module _ (ring : IsRing k sq) (len : length sq.tickets ≡ 2 ^ k) (word : sq.head < 2 ^ 32) where
    free_reported-Freed :
        (count : ℕ)
        → last_report count < 2 ^ k
        → (sq' : NvmQueue) × (free_reported (2 ^ k) cq cur_head count sq ≡ some sq')
          × (count ≡ 0 → sq' ≡ sq)
          × (0 < count → Freed k sq (last_report count) sq')
    unfolding free_reported
    free_reported-Freed count valid = elim (ℕ_discrete count 0) [
      | yes none_left ↦ (sq, rw (eq→== _ _ none_left), λ e. refl, λ lt. absurd (omega arith))
      | no left ↦ elim (ℕ_discrete (slot sq sq.head) (last_report count)) [
        | yes at_goal ↦ (
          sq,
          rw (reported count, ne→== _ _ left, eq→== _ _ at_goal),
          λ e. absurd (left e),
          λ lt. Freed-none k sq (last_report count) ring word at_goal,
        )
        | no away ↦
            let (sq', e, freed) = advance_sq_head-Freed k sq (last_report count) ring len valid in
            (
              sq',
              rw (reported count, ne→== _ _ left, ne→== _ _ away) e,
              λ e. absurd (left e),
              λ lt. freed,
            )
      ]
    ]

    -- A completion queue of `2 ^ k` places, not all of them marked as finished, next to a submission
    -- queue of as many slots whose positions the completions report: `move_head_cq` ends within `2 ^ k`
    -- rounds of each of its loops. It passes the run of marks at the head; if the run is empty the
    -- submission queue stays as it is, else the slots up to the position that the run's last completion
    -- reports have their next ticket, and the submission head stands there.
    pub move_head_cq-Retired :
        (d : ℕ)
        → IsRing k cq
        → AreMarks cq.head_mark
        → d < 2 ^ k
        → get_or cq.head_mark (from k cur_head d) 0 ≡ 0
        → ((count : ℕ) → last_report count < 2 ^ k)
        → (count : ℕ) × (cq' : NvmQueue) × (sq' : NvmQueue) × (move_head_cq (2 ^ k) cq cur_head sq
            ≡ some (count, cq', sq'))
          × Retired count cq' sq'
    unfolding move_head_cq
    move_head_cq-Retired d ring' flags near down valid =
        let m_le : 2 ^ k ≤ 2 ^ 16 = pow_mono k 16 ring.small in
        let down' : get_or cq.head_mark (from k cur_head (0 + d)) 0 ≡ 0 =
          ap (λ (t : ℕ). get_or cq.head_mark (from k cur_head t) 0)
            (let e : 0 + d ≡ d = omega arith in e)
          ∙ down in
        let (n, cq', e, passed, le) =
          pop_head_marks-Passed k d (2 ^ k) cq cur_head 0 ring' flags (omega arith) down' near
            near in
        let (sq', f, idle, freed) = free_reported-Freed n (valid n) in
        let same : free_reported (2 ^ k) cq' cur_head n sq
            ≡ free_reported (2 ^ k) cq cur_head n sq =
          ap (λ (q : NvmQueue). free_reported (2 ^ k) q cur_head n sq) passed.same
          ∙ free_reported-head_mark n cq'.head_mark in
        (n, cq', sq', rw (e, same, f), record { passed = passed; idle = idle; freed = freed })
