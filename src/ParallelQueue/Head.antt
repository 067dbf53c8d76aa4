-- ===== src/ParallelQueue/Head.antt =====
-- The walk of `move_head_cq` over the marks of finished entries.
use atc26_shaper_io.Prelude.{
  ℕ, zero, suc, ◌+◌, ◌-◌, ◌%◌, ◌^◌, ◌≤◌, ◌<◌, ◌≡◌, ◌≢◌, refl, sym, ◌∙◌, ap, some, get_or, set,
  get_or-set_ne, arith,
}
use atc26_shaper_io.Prelude.Words.{u32}
use atc26_shaper_io.Types.{NvmQueue}
use atc26_shaper_io.ParallelQueue.{unlocked, pop_head_marks}
use atc26_shaper_io.ParallelQueue.Marks.{
  IsRing, slot-u32, mod-ne, AreMarks, AreMarks-set, get-set_zero, Cleared, Cleared-stop,
  Cleared-step,
}
use native.Mathlib.Decide.{ℕ_discrete}

module _ (k : ℕ) where
  abbrev pub from : ℕ → ℕ → ℕ
  from start i = (start + i) % 2 ^ k

  pub from-ne : (start i j : ℕ) → i < j → j < i + 2 ^ k → from start i ≢ from start j
  from-ne start i j lt near =
      let there : start + i + (j - i) ≡ start + j = omega arith in
      rw there at (mod-ne (2 ^ k) (start + i) (j - i) (omega arith) (omega arith))

  -- The run of marks from `c` on that a head passes: it stops at the first that is down.
  pub record Passed (q : NvmQueue) (cur_head c n : ℕ) (q' : NvmQueue) : Type 0 where
    pub cleared : Cleared (from cur_head) q.head_mark c n q'.head_mark
    pub stop : get_or q.head_mark (from cur_head n) 0 ≡ 0
    pub same : q' ≡ record q { head_mark = q'.head_mark }

  abbrev unmarked : NvmQueue → ℕ → NvmQueue
  unmarked q loc = record q { head_mark = set q.head_mark loc unlocked }

  Passed-down :
      (q : NvmQueue) (cur_head c : ℕ)
      → AreMarks q.head_mark
      → get_or q.head_mark (from cur_head c) 0 ≡ 0
      → Passed q cur_head c c (unmarked q (from cur_head c))
  Passed-down q cur_head c flags e = record {
    cleared = Cleared-stop (from cur_head) q.head_mark c (omega arith) flags;
    stop = e;
    same = refl;
  }

  Passed-up :
      (q : NvmQueue) (cur_head c n : ℕ) (q' : NvmQueue)
      → AreMarks q.head_mark
      → get_or q.head_mark (from cur_head c) 0 ≡ 1
      → n < c + 2 ^ k
      → Passed (unmarked q (from cur_head c)) cur_head (c + 1) n q'
      → Passed q cur_head c n q'
  Passed-up q cur_head c n q' flags up near rest =
      let apart : from cur_head c ≢ from cur_head n =
        from-ne cur_head c n (omega (arith, rest.cleared.le)) near in
      record {
        cleared = Cleared-step (from cur_head) q.head_mark c flags up rest.cleared;
        stop =
            sym (get_or-set_ne q.head_mark (from cur_head c) (from cur_head n) 0 0 apart)
            ∙ rest.stop;
        same = rest.same;
      }

  -- One round of the walk, by its two outcomes.
  module _ (fuel : ℕ) (q : NvmQueue) (cur_head c : ℕ) (ring : IsRing k q) where
    round_down :
        get_or q.head_mark (from cur_head c) 0 ≡ 0
        → pop_head_marks (suc fuel) q cur_head c ≡ some (c, unmarked q (from cur_head c))
    unfolding pop_head_marks
    round_down e = rw (slot-u32 {q = q} (cur_head + c) ring, e)

    round_up :
        get_or q.head_mark (from cur_head c) 0 ≡ 1
        → pop_head_marks (suc fuel) q cur_head c
          ≡ pop_head_marks fuel (unmarked q (from cur_head c)) cur_head (u32 (c + 1))
    unfolding pop_head_marks
    round_up e = rw (slot-u32 {q = q} (cur_head + c) ring, e)

  -- `d` places on a mark is down: the walk ends there at the latest.
  pub pop_head_marks-Passed :
      (d : ℕ) (fuel : ℕ) (q : NvmQueue) (cur_head c : ℕ)
      → IsRing k q
      → AreMarks q.head_mark
      → c + d < 2 ^ 16
      → get_or q.head_mark (from cur_head (c + d)) 0 ≡ 0
      → d < 2 ^ k
      → d < fuel
      → (n : ℕ) × (q' : NvmQueue) × (pop_head_marks fuel q cur_head c ≡ some (n, q'))
        × Passed q cur_head c n q'
        × (n ≤ c + d)
  pop_head_marks-Passed d zero q cur_head c ring flags small down near lt = absurd (omega arith)
  pop_head_marks-Passed zero (suc fuel) q cur_head c ring flags small down near lt =
      let e : get_or q.head_mark (from cur_head c) 0 ≡ 0 =
        ap (λ (t : ℕ). get_or q.head_mark (from cur_head t) 0)
          (let f : c ≡ c + 0 = omega arith in f)
        ∙ down in
      (
        c,
        unmarked q (from cur_head c),
        round_down fuel q cur_head c ring e,
        Passed-down q cur_head c flags e,
        omega arith,
      )
  pop_head_marks-Passed (suc d) (suc fuel) q cur_head c ring flags small down near lt =
      let loc = from cur_head c in
      elim (ℕ_discrete (get_or q.head_mark loc 0) 1) [
        | yes up ↦
            let on : from cur_head (c + 1 + d) ≡ from cur_head (c + suc d) =
              ap (λ (t : ℕ). from cur_head t) (let e : c + 1 + d ≡ c + suc d = omega arith in e) in
            let down' : get_or (set q.head_mark loc 0) (from cur_head (c + 1 + d)) 0 ≡ 0 =
              rw on
                (omega (arith, get-set_zero q.head_mark loc (from cur_head (c + suc d)), down)) in
            let (n, q', e, passed, le) =
              pop_head_marks-Passed d fuel (unmarked q loc) cur_head (c + 1)
                (record { small = ring.small; mask = ring.mask })
                (AreMarks-set q.head_mark loc flags) (omega arith) down' (omega arith)
                (omega arith) in
            let exact : u32 (c + 1) ≡ c + 1 = omega arith in
            (
              n,
              q',
              round_up fuel q cur_head c ring up ∙ rw exact e,
              Passed-up q cur_head c n q' flags up (omega arith) passed,
              omega arith,
            )
        | no not_up ↦
            let e : get_or q.head_mark loc 0 ≡ 0 = omega (arith, flags loc) in
            (
              c,
              unmarked q loc,
              round_down fuel q cur_head c ring e,
              Passed-down q cur_head c flags e,
              omega arith,
            )
      ]
