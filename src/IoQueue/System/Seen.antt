-- ===== src/IoQueue/System/Seen.antt =====
-- The words of `done_seq` after one notice of the scheduler.
use atc26_shaper_io.Prelude.{
  ℕ, ◌+◌, ◌-◌, ◌%◌, ◌^◌, ◌≤◌, ◌<◌, ◌≡◌, ◌≢◌, ◌⊎◌, inl, inr, ◌∙◌, sym, subst, Bool, true, List,
  length, get_or, set, get_or-set_ne, arith,
}
use atc26_shaper_io.IoQueue.{IoQueue}
use atc26_shaper_io.IoQueue.System.{Scheduler, put}
use atc26_shaper_io.IoQueue.System.Producers.{put_self, put_ne}
use atc26_shaper_io.IoQueue.System.Invariant.{Notified, Shape, Numbers}
use atc26_shaper_io.IoQueue.System.Memory.{window, set_here}
use native.Mathlib.Decide.{dec_lt, ℕ_discrete}

put-true : (f : ℕ → Bool) (p i : ℕ) → f i ≡ true → put f p true i ≡ true
put-true f p i h = elim (ℕ_discrete i p) [
  | yes e ↦ rw e (put_self f p true)
  | no ne ↦ put_ne f p i true ne ∙ h
]

-- What `done_seq` shows after the notice for slot `t`: at its place the slot's ticket, elsewhere the old
-- word.
noticed :
    (xs : List ℕ) (k t i : ℕ)
    → length xs ≡ 2 ^ k
    → ((i ≡ t % 2 ^ k) × (get_or (set xs (t % 2 ^ k) (t + 1)) i 0 ≡ t + 1))
      ⊎ (get_or (set xs (t % 2 ^ k) (t + 1)) i 0 ≡ get_or xs i 0)
noticed xs k t i size = elim (ℕ_discrete i (t % 2 ^ k)) [
  | yes e ↦ inl (
    e,
    subst (λ (j : ℕ). get_or (set xs (t % 2 ^ k) (t + 1)) j 0 ≡ t + 1) (sym e)
        (set_here xs k t (t + 1) 0 size),
  )
  | no ne ↦ inr (get_or-set_ne xs (t % 2 ^ k) i (t + 1) 0 (λ e. ne (sym e)))
]

-- The words of `done_seq` after a notice for the `j`-th entry of the batch.
module _ (k : ℕ) (q : IoQueue) (sch : Scheduler) (sh : Shape k q sch) (nu : Numbers k q sch) (j : ℕ)
    (lt : j < sch.accumulated) where
  abbrev told_seq : List ℕ
  told_seq = set q.done_seq ((q.cons_head + j) % 2 ^ k) (q.cons_head + j + 1)

  seen :
      (i : ℕ)
      → ((i ≡ (q.cons_head + j) % 2 ^ k) × (get_or told_seq i 0 ≡ q.cons_head + j + 1))
        ⊎ (get_or told_seq i 0 ≡ get_or q.done_seq i 0)
  seen i = noticed q.done_seq k (q.cons_head + j) i sh.done_seq

  pub seq-place :
      (i : ℕ) → i < 2 ^ k → 0 < get_or told_seq i 0 → (get_or told_seq i 0 - 1) % 2 ^ k ≡ i
  seq-place i small pos = elim (seen i) [
    | inl (e, v) ↦
        let less : get_or told_seq i 0 - 1 ≡ q.cons_head + j = omega arith in rw less (sym e)
    | inr v ↦ subst (λ (w : ℕ). (w - 1) % 2 ^ k ≡ i) (sym v) (nu.place i small (omega arith))
  ]

  pub seq-done : (i : ℕ) → i < 2 ^ k → get_or told_seq i 0 ≤ q.cons_head + sch.accumulated
  seq-done i small = elim (seen i) [
    | inl (e, v) ↦ omega arith
    | inr v ↦ omega (arith, nu.done i small)
  ]

  pub seq-noted :
      (i : ℕ)
      → i < 2 ^ k
      → q.cons_head < get_or told_seq i 0
      → put sch.noted j true (get_or told_seq i 0 - 1 - q.cons_head) ≡ true
  seq-noted i small past = elim (seen i) [
    | inl (e, v) ↦
        let there : get_or told_seq i 0 - 1 - q.cons_head ≡ j = omega arith in
        rw there (put_self sch.noted j true)
    | inr v ↦
        subst (λ (w : ℕ). put sch.noted j true (w - 1 - q.cons_head) ≡ true) (sym v)
          (put-true sch.noted j (get_or q.done_seq i 0 - 1 - q.cons_head)
            (nu.noted i small (omega arith)))
  ]

  -- A slot that has been notified shows its ticket, or a later one.
  pub seq-ended :
      (slot : ℕ)
      → (Notified q sch slot → slot + 1 ≤ get_or q.done_seq (slot % 2 ^ k) 0)
      → Notified q (record sch { noted = put sch.noted j true }) slot
      → slot + 1 ≤ get_or told_seq (slot % 2 ^ k) 0
  seq-ended slot old now = elim (ℕ_discrete slot (q.cons_head + j)) [
    | yes e ↦
        subst (λ (t : ℕ). t + 1 ≤ get_or told_seq (t % 2 ^ k) 0) (sym e)
          (let v = set_here q.done_seq k (q.cons_head + j) (q.cons_head + j + 1) 0 sh.done_seq in
            omega arith)
    | no ne ↦ elim now [
      | inl lt ↦ elim (seen (slot % 2 ^ k)) [
        | inl (e, v) ↦ omega arith
        | inr v ↦ omega (arith, old (inl lt))
      ]
      | inr (hi, t) ↦ elim (seen (slot % 2 ^ k)) [
        | inl (e, v) ↦ elim (dec_lt slot q.cons_head) [
          | yes lo ↦ omega arith
          | no ge ↦ absurd (
              window k q.cons_head slot (q.cons_head + j) (omega arith) (omega arith)
                (omega (arith, sh.room)) (omega (arith, sh.room)) ne e)
        ]
        | inr v ↦ elim (dec_lt slot q.cons_head) [
          | yes lo ↦ omega (arith, old (inl lo))
          | no ge ↦
              let away : slot - q.cons_head ≢ j = λ e. ne (omega arith) in
              let was = sym (put_ne sch.noted j (slot - q.cons_head) true away) ∙ t in
              omega (arith, old (inr (hi, was)))
        ]
      ]
    ]
  ]
