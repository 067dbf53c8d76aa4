-- ===== src/ParallelQueue/Complete/Poll.antt =====
-- `cq_poll`: which completion a thread takes for its own, and when `cq_dequeue` may return.
use atc26_shaper_io.Prelude.{
  ℕ, zero, suc, ◌+◌, ◌-◌, ◌*◌, ◌/◌, ◌%◌, ◌^◌, ◌≤◌, ◌<◌, ◌≡◌, ◌≢◌, ◌↔◌, ◌⊎◌, inl, inr, refl, sym,
  ◌∙◌, ap, true, none, some, bit_and, ◌==◌, eq→==, ne→==, Bool-cases, arith,
}
use atc26_shaper_io.Prelude.Bits.{and-low_mask}
use atc26_shaper_io.Prelude.Powers.{pow-pos, pow-split, pow_mono}
use atc26_shaper_io.Prelude.Words.{u32, not_u32, sub_u32}
use atc26_shaper_io.Types.{NvmQueue}
use atc26_shaper_io.ParallelQueue.{slot, dword}
use atc26_shaper_io.ParallelQueue.Complete.{search_phase, cpl_cid, cpl_phase, cq_scan, head_passed}
use native.Mathlib.Nat.{add-zero, add-div_right, add-mul-div_right, div-le_self, mod-eq_of_lt}
use native.Mathlib.Decide.{dec_lt, ℕ_discrete}

-- The head has gone from `cur` to `new`: the test holds just when `loc` lies between them on the ring of
-- `uint32_t`s, wherever the counters wrap.
pub head_passed_iff :
    (loc cur new : ℕ)
    → loc < 2 ^ 32
    → cur < 2 ^ 32
    → new < 2 ^ 32
    → (head_passed loc cur new ≡ true) ↔ (sub_u32 loc cur < sub_u32 new cur)
unfolding head_passed
head_passed_iff loc cur new hl hc hn = ground arith

and-one : (a : ℕ) → bit_and a 0x01 ≡ a % 2
and-one a = and-low_mask 1 a

module _ (cur k : ℕ) (hi : k ≤ 31) (word : cur < 2 ^ 32) where
  inside : cur + 2 ^ k < 2 ^ 32 → u32 (cur + 2 ^ k) / 2 ^ k ≡ cur / 2 ^ k + 1
  inside lt = grind (arith, mod-eq_of_lt lt, add-div_right cur {k = 2 ^ k} (pow-pos k))

  abbrev laps : ℕ
  laps = 2 ^ (32 - k)

  laps-even : 2 ^ (32 - k - 1) * 2 ≡ laps
  laps-even = sym (pow-split 1 (32 - k) (omega arith))

  round_wraps : 2 ^ 32 ≤ cur + 2 ^ k → cur ≡ u32 (cur + 2 ^ k) + (laps - 1) * 2 ^ k
  round_wraps ge =
      let less : 2 ^ k ≤ 2 ^ 31 = pow_mono k 31 hi in
      let whole : 2 ^ 32 ≡ (laps - 1 + 1) * 2 ^ k =
        pow-split k 32 (omega arith)
        ∙ ap (λ (t : ℕ). t * 2 ^ k) (omega (arith, pow-pos (32 - k))) in
      let parts : (laps - 1 + 1) * 2 ^ k ≡ (laps - 1) * 2 ^ k + 2 ^ k = ground arith in omega arith

  outside : 2 ^ 32 ≤ cur + 2 ^ k → cur / 2 ^ k ≡ u32 (cur + 2 ^ k) / 2 ^ k + (laps - 1)
  outside ge =
      ap (λ (t : ℕ). t / 2 ^ k) (round_wraps ge)
      ∙ add-mul-div_right (u32 (cur + 2 ^ k)) (laps - 1) (pow-pos k)

  turns : (u32 (cur + 2 ^ k) / 2 ^ k + cur / 2 ^ k) % 2 ≡ 1
  turns = elim (dec_lt (cur + 2 ^ k) (2 ^ 32)) [
    | yes lt ↦ omega (arith, inside lt)
    | no ge ↦ omega (arith, outside (omega arith), laps-even, pow-pos (32 - k))
  ]

-- The phase that a search expects turns over from one round of the ring to the next, also where the
-- 32-bit head wraps.
pub search_phase-next_round :
    (cq : NvmQueue) (cur : ℕ)
    → cq.qs_log2 ≤ 31
    → cur < 2 ^ 32
    → search_phase cq (u32 (cur + 2 ^ cq.qs_log2)) + search_phase cq cur ≡ 1
unfolding search_phase
search_phase-next_round cq cur hi word =
    let k = cq.qs_log2 in
    omega (
      arith,
      and-one (not_u32 (cur / 2 ^ k)),
      and-one (not_u32 (u32 (cur + 2 ^ k) / 2 ^ k)),
      div-le_self cur (2 ^ k),
      div-le_self (u32 (cur + 2 ^ k)) (2 ^ k),
      turns cur k hi word,
    )

-- What a search over `n` places from `head + i` on takes: the first completion of the command, with
-- only other commands' completions of the current round before it.
pub record Hit (cq : NvmQueue) (search_cid head n i loc cur_head : ℕ) : Type 0 where
  pub steps : ℕ
  pub near : steps < n
  pub counter : cur_head ≡ u32 (head + (i + steps))
  pub place : loc ≡ slot cq cur_head
  pub mine : cpl_cid (dword cq loc 3) ≡ search_cid
  pub fresh : cpl_phase (dword cq loc 3) ≡ search_phase cq cur_head
  pub before :
      (j : ℕ)
      → j < steps
      → let h = u32 (head + (i + j)) in
        (cpl_phase (dword cq (slot cq h) 3) ≡ search_phase cq h)
        × (cpl_cid (dword cq (slot cq h) 3) ≢ search_cid)

-- Conversely a search comes back empty only at a completion of an earlier round, or with the whole
-- range full of other commands' completions.
pub record Miss (cq : NvmQueue) (search_cid head n i : ℕ) : Type 0 where
  pub steps : ℕ
  pub near : steps ≤ n
  pub before :
      (j : ℕ)
      → j < steps
      → let h = u32 (head + (i + j)) in
        (cpl_phase (dword cq (slot cq h) 3) ≡ search_phase cq h)
        × (cpl_cid (dword cq (slot cq h) 3) ≢ search_cid)
  pub stop :
      steps < n
      → cpl_phase (dword cq (slot cq (u32 (head + (i + steps)))) 3)
        ≢ search_phase cq (u32 (head + (i + steps)))

module _ (cq : NvmQueue) (search_cid head : ℕ) where
  abbrev entry : ℕ → ℕ
  entry i = dword cq (slot cq (u32 (head + i))) 3

  abbrev InPhase : ℕ → Type 0
  InPhase i = cpl_phase (entry i) ≡ search_phase cq (u32 (head + i))

  module _ (n i : ℕ) where
    scan-hit :
        InPhase i
        → cpl_cid (entry i) ≡ search_cid
        → cq_scan cq search_cid head (suc n) i ≡ some (slot cq (u32 (head + i)), u32 (head + i))
    unfolding cq_scan
    scan-hit p e = rw (eq→== _ _ p, eq→== _ _ e)

    scan-stop : ¬ InPhase i → cq_scan cq search_cid head (suc n) i ≡ none
    unfolding cq_scan
    scan-stop np =
        rw (ne→== _ _ np)
          (elim (Bool-cases (cpl_cid (entry i) == search_cid)) [ inl e ↦ rw e | inr e ↦ rw e ])

    scan-on :
        InPhase i
        → cpl_cid (entry i) ≢ search_cid
        → cq_scan cq search_cid head (suc n) i ≡ cq_scan cq search_cid head n (i + 1)
    unfolding cq_scan
    scan-on p ne = rw (eq→== _ _ p, ne→== _ _ ne)

  scan-zero : (i : ℕ) → cq_scan cq search_cid head zero i ≡ none
  unfolding cq_scan
  scan-zero i = refl

  shift : (i j : ℕ) → i + 1 + j ≡ i + suc j
  shift i j = omega arith

  abbrev Other : ℕ → Type 0
  Other i = InPhase i × (cpl_cid (entry i) ≢ search_cid)

  -- One more entry in front of those already passed.
  before-suc :
      (i s : ℕ)
      → Other i
      → ((j : ℕ) → j < s → Other (i + 1 + j))
      → (j : ℕ) → j < suc s
      → Other (i + j)
  before-suc i s first rest zero lt = rw (add-zero i) first
  before-suc i s first rest (suc j) lt = rw (← shift i j) (rest j (omega arith))

  -- `cq_scan` ends, with the first completion of the command in the current round, or with none where
  -- there is none in front of the entries of an earlier round.
  pub cq_scan_lem :
      (n i : ℕ)
      → ((loc : ℕ) × (cur_head : ℕ) × (cq_scan cq search_cid head n i ≡ some (loc, cur_head))
          × Hit cq search_cid head n i loc cur_head)
        ⊎ ((cq_scan cq search_cid head n i ≡ none) × Miss cq search_cid head n i)
  cq_scan_lem zero i = inr (
    scan-zero i,
    record {
      steps = 0;
      near = omega arith;
      before = λ j lt. absurd (omega arith);
      stop = λ lt. absurd (omega arith);
    },
  )
  cq_scan_lem (suc n) i =
      elim (ℕ_discrete (cpl_phase (entry i)) (search_phase cq (u32 (head + i)))) [
        | no np ↦ inr (
          scan-stop n i np,
          record {
            steps = 0;
            near = omega arith;
            before = λ j lt. absurd (omega arith);
            stop = λ lt. rw (add-zero i) np;
          },
        )
        | yes p ↦ elim (ℕ_discrete (cpl_cid (entry i)) search_cid) [
          | yes e ↦ inl (
            slot cq (u32 (head + i)),
            u32 (head + i),
            scan-hit n i p e,
            record {
              steps = 0;
              near = omega arith;
              counter = rw (add-zero i) refl;
              place = refl;
              mine = e;
              fresh = p;
              before = λ j lt. absurd (omega arith);
            },
          )
          | no ne ↦ elim (cq_scan_lem n (i + 1)) [
            | inl (loc, cur_head, e, hit) ↦ inl (
              loc,
              cur_head,
              scan-on n i p ne ∙ e,
              record {
                steps = suc hit.steps;
                near = omega (arith, hit.near);
                counter = rw (← shift i hit.steps) hit.counter;
                place = hit.place;
                mine = hit.mine;
                fresh = hit.fresh;
                before = before-suc i hit.steps (p, ne) hit.before;
              },
            )
            | inr (e, miss) ↦ inr (
              scan-on n i p ne ∙ e,
              record {
                steps = suc miss.steps;
                near = omega (arith, miss.near);
                before = before-suc i miss.steps (p, ne) miss.before;
                stop = λ lt. rw (← shift i miss.steps) (miss.stop (omega arith));
              },
            )
          ]
        ]
      ]
