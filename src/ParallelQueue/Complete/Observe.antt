-- ===== src/ParallelQueue/Complete/Observe.antt =====
-- `cq_poll` over the states of the completion queue that its successive searches see, told by the bits
-- of the entries and by the rounds of the ring.
use atc26_shaper_io.Prelude.{
  ℕ, ◌+◌, ◌/◌, ◌%◌, ◌^◌, ◌<◌, ◌≡◌, ◌≢◌, ◌↔◌, ◌∙◌, refl, sym, inl, inr, ap, subst, Option, none,
  some, List, [], ◌∷◌, ◌++◌, arith,
}
use atc26_shaper_io.Prelude.Bits.{and-low_mask}
use atc26_shaper_io.Prelude.Masks.{and-field_mask}
use atc26_shaper_io.Prelude.Words.{u32, not_u32}
use atc26_shaper_io.Types.{NvmQueue}
use atc26_shaper_io.ParallelQueue.{slot, dword}
use atc26_shaper_io.ParallelQueue.Complete.{search_phase, cpl_cid, cpl_phase, cq_scan, cq_poll}
use atc26_shaper_io.ParallelQueue.Complete.Poll.{Hit, Miss, cq_scan_lem}
use native.Mathlib.Nat.{div-le_self}
use native.Mathlib.Decide.{dec_lt, ℕ_discrete}

module _ (cq : NvmQueue) where
  -- the counter of the `i`-th place from the head on, and the last word of the entry there
  abbrev pub counter : ℕ → ℕ
  counter i = u32 (cq.head + i)

  abbrev pub word : ℕ → ℕ
  word i = dword cq (slot cq (counter i)) 3

  -- The entry is of the current round: bit 16 is 1 in the rounds of even number and 0 in the others.
  abbrev pub InRound : ℕ → Type 0
  InRound i = word i / 2 ^ 16 % 2 + counter i / 2 ^ cq.qs_log2 % 2 ≡ 1

  -- The `i`-th place is the first with a completion of the command, and all places before it have
  -- entries of the current round.
  pub record Shows (search_cid i : ℕ) : Type 0 where
    pub near : i < cq.qs_minus_1
    pub fresh : InRound i
    pub mine : word i % 2 ^ 16 ≡ search_cid
    pub before : (j : ℕ) → j < i → InRound j × (word j % 2 ^ 16 ≢ search_cid)

  in_round_iff : (i : ℕ) → (cpl_phase (word i) ≡ search_phase cq (counter i)) ↔ InRound i
  unfolding search_phase
  in_round_iff i =
      let tag : cpl_phase (word i) ≡ word i / 2 ^ 16 % 2 =
        omega (arith, and-field_mask 16 1 (word i)) in
      let h = counter i / 2 ^ cq.qs_log2 in
      let wanted = and-low_mask 1 (not_u32 h) in
      let small = div-le_self (counter i) (2 ^ cq.qs_log2) in (λ e. omega arith, λ e. omega arith)

  cid_lem : (i : ℕ) → cpl_cid (word i) ≡ word i % 2 ^ 16
  cid_lem i = and-low_mask 16 (word i)

module _ (search_cid : ℕ) where
  abbrev pub Blank : NvmQueue → Type 0
  Blank cq = (i : ℕ) → Shows cq search_cid i → ⊥

  abbrev pub AllBlank : List NvmQueue → Type 0
  AllBlank [] = Unit {0}
  AllBlank (cq ∷ seen) = Blank cq × AllBlank seen

  -- A result of `cq_poll`: the place in the first state that shows a completion of the command, or
  -- nothing where no state does.
  pub Polled : List NvmQueue → Option (ℕ × ℕ × ℕ) → Type 0
  Polled seen none = AllBlank seen
  Polled seen (some (loc, cur_head, cq_head)) =
      (earlier : List NvmQueue) × (cq : NvmQueue) × (later : List NvmQueue) × (i : ℕ) × (seen
        ≡ earlier ++ (cq ∷ later))
      × AllBlank earlier
      × Shows cq search_cid i
      × (cur_head ≡ counter cq i)
      × (loc ≡ slot cq cur_head)
      × (cq_head ≡ cq.head)

  module _ (cq : NvmQueue) where
    from_zero : (i : ℕ) → 0 + i ≡ i
    from_zero i = omega arith

    abbrev Passed : ℕ → Type 0
    Passed i =
        (cpl_phase (word cq i) ≡ search_phase cq (counter cq i))
        × (cpl_cid (word cq i) ≢ search_cid)

    passed : (i : ℕ) → Passed i → InRound cq i × (word cq i % 2 ^ 16 ≢ search_cid)
    passed i (p, ne) = ((in_round_iff cq i).0 p, λ e. ne (cid_lem cq i ∙ e))

    Hit-Shows :
        {loc cur : ℕ} (hit : Hit cq search_cid cq.head cq.qs_minus_1 0 loc cur)
        → Shows cq search_cid hit.steps × (cur ≡ counter cq hit.steps) × (loc ≡ slot cq cur)
    Hit-Shows {loc} {cur} hit =
        let s = hit.steps in
        let at_counter : cur ≡ counter cq s = rw (from_zero s) at hit.counter in
        let there : loc ≡ slot cq (counter cq s) =
          hit.place ∙ ap (λ (h : ℕ). slot cq h) at_counter in
        let tag = ap (λ (l : ℕ). cpl_phase (dword cq l 3)) there in
        let cid = ap (λ (l : ℕ). cpl_cid (dword cq l 3)) there in
        (
          record {
            near = hit.near;
            fresh =
                (in_round_iff cq s).0
                  (sym tag ∙ hit.fresh ∙ ap (λ (h : ℕ). search_phase cq h) at_counter);
            mine = sym (cid_lem cq s) ∙ sym cid ∙ hit.mine;
            before = λ j lt. passed j (let b = hit.before j lt in rw (from_zero j) at b);
          },
          at_counter,
          hit.place,
        )

    Miss-Blank : Miss cq search_cid cq.head cq.qs_minus_1 0 → Blank cq
    Miss-Blank miss i shows = elim (dec_lt i miss.steps) [
      | yes lt ↦ (passed i (let b = miss.before i lt in rw (from_zero i) at b)).1 shows.mine
      | no ge ↦
          let s = miss.steps in
          let stop : cpl_phase (word cq s) ≢ search_phase cq (counter cq s) =
            let t = miss.stop (omega (arith, shows.near)) in rw (from_zero s) at t in
          elim (ℕ_discrete s i) [
            | yes e ↦
                stop ((in_round_iff cq s).1 (subst (λ (j : ℕ). InRound cq j) (sym e) shows.fresh))
            | no ne ↦ stop ((in_round_iff cq s).1 (shows.before s (omega arith)).0)
          ]
    ]

    module _ (later : List NvmQueue) where
      poll_hit :
          {loc cur : ℕ}
          → cq_scan cq search_cid cq.head cq.qs_minus_1 0 ≡ some (loc, cur)
          → cq_poll (cq ∷ later) search_cid ≡ some (loc, cur, cq.head)
      unfolding cq_poll
      poll_hit e = rw e

      poll_miss :
          cq_scan cq search_cid cq.head cq.qs_minus_1 0 ≡ none
          → cq_poll (cq ∷ later) search_cid ≡ cq_poll later search_cid
      unfolding cq_poll
      poll_miss e = rw e

      -- A state that shows nothing can be put in front.
      Polled-later : (r : Option (ℕ × ℕ × ℕ)) → Blank cq → Polled later r → Polled (cq ∷ later) r
      unfolding Polled
      Polled-later none blank p = (blank, p)
      Polled-later (some (loc, cur_head, cq_head)) blank
            (earlier, now, rest, i, split, all, shows, counted, place, head) =
          (
            cq ∷ earlier,
            now,
            rest,
            i,
            ap (λ (xs : List NvmQueue). cq ∷ xs) split,
            (blank, all),
            shows,
            counted,
            place,
            head,
          )

  -- `cq_poll` returns the place, the counter and the head of the first state that shows a completion of
  -- the command, which is one of the current round with only other commands' completions of that round
  -- before it; and it goes on, for `none`, just when no state that it has seen shows one.
  pub cq_poll-Polled : (seen : List NvmQueue) → Polled seen (cq_poll seen search_cid)
  unfolding Polled cq_poll
  cq_poll-Polled [] = tt
  cq_poll-Polled (cq ∷ later) = elim (cq_scan_lem cq search_cid cq.head cq.qs_minus_1 0) [
    | inl (loc, cur, e, hit) ↦
        let (shows, counted, place) = Hit-Shows cq hit in
        rw (poll_hit cq later e) ([], cq, later, hit.steps, refl, tt, shows, counted, place, refl)
    | inr (e, miss) ↦ rw (poll_miss cq later e) (
        Polled-later cq later (cq_poll later search_cid) (Miss-Blank cq miss)
          (cq_poll-Polled later))
  ]
