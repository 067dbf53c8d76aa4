-- ===== src/IoQueue/Ready.antt =====
-- `io_sched_scan_ready`: what the scheduler may take from the ring.
use atc26_shaper_io.Prelude.{
  ℕ, zero, suc, ◌+◌, ◌≤◌, ◌<◌, ◌≡◌, ◌≢◌, ◌⊎◌, inl, inr, subst, min, true, false, ◌==◌, get_or, ltb,
  if◌then◌else◌, arith,
}
use atc26_shaper_io.Prelude.Words.{u32, sub_u32}
use atc26_shaper_io.IoQueue.{IoQueue, ring_idx, scan_loop, io_sched_scan_ready}
use native.Mathlib.Decide.{dec_lt, ℕ_discrete}

-- The request of slot `s` has been published.
abbrev pub Published : IoQueue → ℕ → Type 0
Published q s = get_or q.prod_seq (ring_idx q (u32 s)) 0 ≡ u32 (s + 1)

-- `n` slots from `start` on are published, and no more than `most`; the next one is not, unless `most`
-- is reached.
pub record Ready (q : IoQueue) (start most n : ℕ) : Type 0 where
  pub bound : n ≤ most
  pub taken : (i : ℕ) → i < n → Published q (start + i)
  pub next : (n ≡ most) ⊎ (get_or q.prod_seq (ring_idx q (u32 (start + n))) 0 ≢ u32 (start + n + 1))

scan_loop-Ready :
    (q : IoQueue) (start i left most : ℕ)
    → i + left ≡ most
    → ((j : ℕ) → j < i → Published q (start + j))
    → Ready q start most (scan_loop q start i left)
unfolding scan_loop
scan_loop-Ready q start i zero most e taken = record {
  bound = omega arith;
  taken = taken;
  next = inl (omega arith);
}
scan_loop-Ready q start i (suc left) most e taken =
    let word = get_or q.prod_seq (ring_idx q (u32 (start + i))) 0 in
    elim (ℕ_discrete word (u32 (start + i + 1))) [
      | yes h ↦
          let test : (word == u32 (start + i + 1)) ≡ true = ground arith in
          rw test (scan_loop-Ready q start (i + 1) left most (omega arith) (more h))
      | no h ↦
          let test : (word == u32 (start + i + 1)) ≡ false = ground arith in
          rw test (record { bound = omega arith; taken = taken; next = inr h })
    ]
  where
    more : Published q (start + i) → (j : ℕ) → j < i + 1 → Published q (start + j)
    more h j lt = elim (dec_lt j i) [
      | yes below ↦ taken j below
      | no ge ↦ let same : i ≡ j = omega arith in subst (λ (t : ℕ). Published q (start + t)) same h
    ]

-- The scan counts the published slots from `start` on, up to the first that is not, to the slots that have
-- been claimed, and to the limit.
pub scan_ready-Ready :
    (q : IoQueue) (start max_count : ℕ)
    → Ready q start
        (min (sub_u32 q.prod_tail start) max_count)
        (io_sched_scan_ready q start max_count)
unfolding io_sched_scan_ready
scan_ready-Ready q start max_count =
    let pending = sub_u32 q.prod_tail start in
    let e : (if ltb max_count pending then max_count else pending) ≡ min pending max_count =
      ground arith in
    rw e (
      scan_loop-Ready q start 0 _ (min pending max_count) (omega arith)
        (λ j h. absurd (omega arith)))
