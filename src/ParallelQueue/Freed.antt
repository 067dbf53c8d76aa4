-- ===== src/ParallelQueue/Freed.antt =====
-- The walk of `move_head_cq` over the submission slots that a completion reports as consumed.
use atc26_shaper_io.Prelude.{
  ℕ, zero, suc, ◌+◌, ◌%◌, ◌^◌, ◌≤◌, ◌<◌, ◌≡◌, ◌≢◌, refl, sym, ◌∙◌, ap, some, List, length,
  length-set, get_or, set, get_or-set_self, get_or-set_ne, eq→==, ne→==, arith,
}
use atc26_shaper_io.Prelude.Powers.{pow-pos, pow_mono}
use atc26_shaper_io.Prelude.Words.{u32}
use atc26_shaper_io.Types.{NvmQueue}
use atc26_shaper_io.ParallelQueue.{slot, free_sq_slots, advance_sq_head}
use atc26_shaper_io.ParallelQueue.Marks.{
  IsRing, slot-mod, slot-u32, u32-mod, distance, add-distance,
}
use atc26_shaper_io.ParallelQueue.Head.{from, from-ne}
use native.Mathlib.Nat.{mod-lt, mod-add-mod, mod-eq_of_lt}
use native.Mathlib.Decide.{ℕ_discrete}

module _ (k : ℕ) where
  -- The slots from `c` up to `n` have their ticket word raised by one, all others are as they were.
  pub record Raised (start : ℕ) (tickets : List ℕ) (c n : ℕ) (tickets' : List ℕ) : Type 0 where
    pub le : c ≤ n
    pub raised :
        (i : ℕ)
        → c ≤ i
        → i < n
        → get_or tickets' (from k start i) 0 ≡ u32 (get_or tickets (from k start i) 0 + 1)
    pub others :
        (j : ℕ)
        → ((i : ℕ) → c ≤ i → i < n → from k start i ≢ j)
        → get_or tickets' j 0 ≡ get_or tickets j 0

  abbrev raise : NvmQueue → ℕ → NvmQueue
  raise sq loc = record sq { tickets = set sq.tickets loc (u32 (get_or sq.tickets loc 0 + 1)) }

  Raised-step :
      (start : ℕ) (sq : NvmQueue) (c n : ℕ) (tickets' : List ℕ)
      → length sq.tickets ≡ 2 ^ k
      → n < c + 2 ^ k
      → Raised start (raise sq (from k start c)).tickets (c + 1) n tickets'
      → Raised start sq.tickets c n tickets'
  Raised-step start sq c n tickets' len near rest =
      let here = from k start c in
      let next : ℕ = u32 (get_or sq.tickets here 0 + 1) in
      let in_range : here < length sq.tickets = rw len (mod-lt _ (pow-pos k)) in
      let spared : (i : ℕ) → c + 1 ≤ i → i ≤ n → here ≢ from k start i =
        λ i h l. from-ne k start c i (omega arith) (omega arith) in
      record {
        le = omega (arith, rest.le);
        raised = λ i h l. elim (ℕ_discrete c i) [
          | yes e ↦ rw (← e) (
              rest.others here (λ i h l e. spared i h (omega arith) (sym e))
              ∙ get_or-set_self sq.tickets here next 0 in_range)
          | no ne ↦
              rest.raised i (omega arith) l
              ∙ ap (λ (t : ℕ). u32 (t + 1))
                  (get_or-set_ne sq.tickets here (from k start i) next 0
                    (spared i (omega arith) (omega arith)))
        ];
        others = λ j h.
            rest.others j (λ i p l. h i (omega arith) l)
            ∙ get_or-set_ne sq.tickets here j next 0 (h c (omega arith) (omega (arith, rest.le)));
      }

  Raised-none : (start : ℕ) (tickets : List ℕ) (c : ℕ) → Raised start tickets c c tickets
  Raised-none start tickets c = record {
    le = omega arith;
    raised = λ i h l. absurd (omega arith);
    others = λ j h. refl;
  }

  module _ (fuel : ℕ) (sq : NvmQueue) (start goal c : ℕ) (ring : IsRing k sq) where
    loop_end :
        from k start c ≡ goal → free_sq_slots (suc fuel) sq goal (from k start c) c ≡ some (c, sq)
    unfolding free_sq_slots
    loop_end e = rw (eq→== _ _ e)

    loop_next :
        from k start c ≢ goal
        → free_sq_slots (suc fuel) sq goal (from k start c) c
          ≡ free_sq_slots fuel (raise sq (from k start c)) goal (from k start (c + 1)) (u32 (c + 1))
    unfolding free_sq_slots
    loop_next ne = rw (ne→== _ _ ne, slot-u32 {q = sq} (from k start c + 1) ring) (rw there)
      where
        there : (from k start c + 1) % 2 ^ k ≡ from k start (c + 1)
        there = mod-add-mod (start + c) (2 ^ k) 1 ∙ ap (λ (t : ℕ). t % 2 ^ k) (omega arith)

  -- The goal is `d` slots ahead: the walk raises exactly the slots up to it.
  free_sq_slots-Raised :
      (d : ℕ) (fuel : ℕ) (sq : NvmQueue) (start goal c : ℕ)
      → IsRing k sq
      → length sq.tickets ≡ 2 ^ k
      → c + d < 2 ^ 16
      → from k start (c + d) ≡ goal
      → d < 2 ^ k
      → d < fuel
      → (n : ℕ) × (sq' : NvmQueue) × (free_sq_slots fuel sq goal (from k start c) c ≡ some (n, sq'))
        × Raised start sq.tickets c n sq'.tickets
        × (sq' ≡ record sq { tickets = sq'.tickets })
        × (from k start n ≡ goal)
        × (n ≤ c + d)
  free_sq_slots-Raised d zero sq start goal c ring len small there near lt = absurd (omega arith)
  free_sq_slots-Raised zero (suc fuel) sq start goal c ring len small there near lt =
      let e : from k start c ≡ goal =
        ap (λ (t : ℕ). from k start t) (let f : c ≡ c + 0 = omega arith in f) ∙ there in
      (
        c,
        sq,
        loop_end fuel sq start goal c ring e,
        Raised-none start sq.tickets c,
        refl,
        e,
        omega arith,
      )
  free_sq_slots-Raised (suc d) (suc fuel) sq start goal c ring len small there near lt =
      elim (ℕ_discrete (from k start c) goal) [
        | yes e ↦ (
          c,
          sq,
          loop_end fuel sq start goal c ring e,
          Raised-none start sq.tickets c,
          refl,
          e,
          omega arith,
        )
        | no ne ↦
            let loc = from k start c in
            let on : from k start (c + 1 + d) ≡ goal =
              ap (λ (t : ℕ). from k start t) (let e : c + 1 + d ≡ c + suc d = omega arith in e)
              ∙ there in
            let (n, sq', e, r, same, at_goal, le) =
              free_sq_slots-Raised d fuel (raise sq loc) start goal (c + 1)
                (record { small = ring.small; mask = ring.mask })
                (length-set sq.tickets loc _ ∙ len) (omega arith) on (omega arith) (omega arith) in
            let exact : u32 (c + 1) ≡ c + 1 = omega arith in
            (
              n,
              sq',
              loop_next fuel sq start goal c ring ne ∙ rw exact e,
              Raised-step start sq c n sq'.tickets len (omega arith) r,
              same,
              at_goal,
              omega arith,
            )
      ]

  -- What the walk over the consumed slots leaves: from the head up to the reported position each slot
  -- has its next ticket, no other slot has changed, and the head stands at the reported position.
  pub record Freed (sq : NvmQueue) (new_sq_head : ℕ) (sq' : NvmQueue) : Type 0 where
    pub count : ℕ
    pub short : count < 2 ^ k
    pub raised : Raised sq.head sq.tickets 0 count sq'.tickets
    pub head : sq'.head ≡ u32 (sq.head + count)
    pub arrived : sq'.head % 2 ^ k ≡ new_sq_head
    pub same : sq' ≡ record sq { tickets = sq'.tickets; head = sq'.head }

  -- Where the head stands there already, nothing is to be done.
  pub Freed-none :
      (sq : NvmQueue) (new_sq_head : ℕ)
      → IsRing k sq
      → sq.head < 2 ^ 32
      → slot sq sq.head ≡ new_sq_head
      → Freed sq new_sq_head sq
  Freed-none sq new_sq_head ring word e = record {
    count = 0;
    short = pow-pos k;
    raised = Raised-none sq.head sq.tickets 0;
    head = omega arith;
    arrived = sym (slot-mod sq.head ring) ∙ e;
    same = refl;
  }

  pub advance_sq_head-Freed :
      (sq : NvmQueue) (new_sq_head : ℕ)
      → IsRing k sq
      → length sq.tickets ≡ 2 ^ k
      → new_sq_head < 2 ^ k
      → (sq' : NvmQueue) × (advance_sq_head (2 ^ k) sq new_sq_head ≡ some sq')
        × Freed sq new_sq_head sq'
  unfolding advance_sq_head
  advance_sq_head-Freed sq new_sq_head ring len valid =
      let m = 2 ^ k in
      let d = distance m sq.head new_sq_head in
      let d_lt : d < m = mod-lt _ (pow-pos k) in
      let m_le : m ≤ 2 ^ 16 = pow_mono k 16 ring.small in
      let there : from k sq.head (0 + d) ≡ new_sq_head =
        ap (λ (t : ℕ). from k sq.head t) (let e : 0 + d ≡ d = omega arith in e)
        ∙ add-distance m sq.head new_sq_head (pow-pos k)
        ∙ mod-eq_of_lt valid in
      let (n, sq', e, r, same, at_goal, le) =
        free_sq_slots-Raised d m sq sq.head new_sq_head 0 ring len (omega arith) there d_lt d_lt in
      let first : slot sq sq.head ≡ from k sq.head 0 =
        slot-mod sq.head ring ∙ ap (λ (t : ℕ). t % 2 ^ k) (omega arith) in
      let head_same : sq'.head ≡ sq.head = ap (λ (q : NvmQueue). q.head) same in
      (
        record sq' { head = u32 (sq'.head + n) },
        rw (first, e),
        record {
          count = n;
          short = omega arith;
          raised = r;
          head = rw head_same;
          arrived = rw head_same (u32-mod k (sq.head + n) ring.small ∙ at_goal);
          same = ap (λ (q : NvmQueue). record q { head = u32 (sq'.head + n) }) same;
        },
      )
