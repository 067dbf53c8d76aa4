-- ===== src/ParallelQueue/Tail.antt =====
-- `move_tail`: how far the tail of the submission queue moves, and what it leaves behind.
use atc26_shaper_io.Prelude.{
  ℕ, zero, suc, ◌+◌, ◌-◌, ◌%◌, ◌^◌, ◌≤◌, ◌<◌, ◌≡◌, ◌≢◌, refl, sym, ◌∙◌, ◌⊎◌, inl, inr, ap, some,
  get_or, set, get_or-set_ne, eq→==, ne→==, arith,
}
use atc26_shaper_io.Prelude.Powers.{pow-pos, pow_mono}
use atc26_shaper_io.Prelude.Words.{u32}
use atc26_shaper_io.Types.{NvmQueue}
use atc26_shaper_io.ParallelQueue.{slot, unlocked, move_tail_loop, move_tail}
use atc26_shaper_io.ParallelQueue.Marks.{
  IsRing, slot-mod, slot-u32, mod-ne, distance, add-distance, AreMarks, AreMarks-set, Cleared,
  Cleared-stop, Cleared-here, Cleared-step,
}
use native.Mathlib.Nat.{mod-lt}
use native.Mathlib.Decide.{ℕ_discrete}

module _ (k : ℕ) where
  -- the slot of the `i`-th command after the tail
  abbrev after : ℕ → ℕ → ℕ
  after cur_tail i = (cur_tail + i) % 2 ^ k

  -- The run from `c` on: `n` is where it stopped.
  record Moved (q : NvmQueue) (cur_tail c n : ℕ) (q' : NvmQueue) : Type 0 where
    cleared : Cleared (after cur_tail) q.tail_mark c n q'.tail_mark
    room : (i : ℕ) → c ≤ i → i < n → after cur_tail (i + 1) ≢ q.head % 2 ^ k
    stop : (after cur_tail (n + 1) ≡ q.head % 2 ^ k) ⊎ (get_or q.tail_mark (after cur_tail n) 0 ≡ 0)
    rest_same : q' ≡ record q { tail_mark = q'.tail_mark }

  abbrev unmarked : NvmQueue → ℕ → NvmQueue
  unmarked q loc = record q { tail_mark = set q.tail_mark loc unlocked }

  Moved-full :
      (q : NvmQueue) (cur_tail c : ℕ)
      → after cur_tail (c + 1) ≡ q.head % 2 ^ k
      → Moved q cur_tail c c q
  Moved-full q cur_tail c e = record {
    cleared = Cleared-here (after cur_tail) q.tail_mark c;
    room = λ i h l. absurd (omega arith);
    stop = inl e;
    rest_same = refl;
  }

  Moved-down :
      (q : NvmQueue) (cur_tail c : ℕ)
      → AreMarks q.tail_mark
      → get_or q.tail_mark (after cur_tail c) 0 ≡ 0
      → Moved q cur_tail c c (unmarked q (after cur_tail c))
  Moved-down q cur_tail c flags e = record {
    cleared = Cleared-stop (after cur_tail) q.tail_mark c (omega arith) flags;
    room = λ i h l. absurd (omega arith);
    stop = inr e;
    rest_same = refl;
  }

  -- A run that goes on from the next slot; it stops less than a whole ring away.
  Moved-up :
      (q : NvmQueue) (cur_tail c n : ℕ) (q' : NvmQueue)
      → AreMarks q.tail_mark
      → after cur_tail (c + 1) ≢ q.head % 2 ^ k
      → get_or q.tail_mark (after cur_tail c) 0 ≡ 1
      → n < c + 2 ^ k
      → Moved (unmarked q (after cur_tail c)) cur_tail (c + 1) n q'
      → Moved q cur_tail c n q'
  Moved-up q cur_tail c n q' flags ne up near rest = record {
    cleared = Cleared-step (after cur_tail) q.tail_mark c flags up rest.cleared;
    room = λ i h l. elim (ℕ_discrete c i) [
      | yes e ↦ rw (← e) ne
      | no other ↦ rest.room i (omega arith) l
    ];
    stop = elim rest.stop [
      | inl e ↦ inl e
      | inr e ↦
          inr (sym (get_or-set_ne q.tail_mark (after cur_tail c) (after cur_tail n) 0 0 apart) ∙ e)
    ];
    rest_same = rest.rest_same;
  }
    where
      apart : after cur_tail c ≢ after cur_tail n
      apart =
          let there : cur_tail + c + (n - c) ≡ cur_tail + n = omega (arith, rest.cleared.le) in
          rw there at (
            mod-ne (2 ^ k) (cur_tail + c) (n - c) (omega (arith, rest.cleared.le))
              (omega (arith, rest.cleared.le)))

  -- One round of the loop, by its three outcomes.
  module _ (fuel : ℕ) (q : NvmQueue) (cur_tail c : ℕ) (ring : IsRing k q) where
    here : slot q (u32 (cur_tail + c)) ≡ after cur_tail c
    here = slot-u32 (cur_tail + c) ring

    next : slot q (u32 (cur_tail + c + 1)) ≡ after cur_tail (c + 1)
    next = slot-u32 (cur_tail + c + 1) ring ∙ ap (λ (t : ℕ). t % 2 ^ k) (omega arith)

    end : slot q q.head ≡ q.head % 2 ^ k
    end = slot-mod q.head ring

    round_full :
        after cur_tail (c + 1) ≡ q.head % 2 ^ k
        → move_tail_loop (suc fuel) q cur_tail c ≡ some (c, q)
    unfolding move_tail_loop
    round_full e = rw (here, next, end, eq→== _ _ e)

    round_down :
        after cur_tail (c + 1) ≢ q.head % 2 ^ k
        → get_or q.tail_mark (after cur_tail c) 0 ≡ 0
        → move_tail_loop (suc fuel) q cur_tail c ≡ some (c, unmarked q (after cur_tail c))
    unfolding move_tail_loop
    round_down ne e = rw (here, next, end, ne→== _ _ ne, e)

    round_up :
        after cur_tail (c + 1) ≢ q.head % 2 ^ k
        → get_or q.tail_mark (after cur_tail c) 0 ≡ 1
        → move_tail_loop (suc fuel) q cur_tail c
          ≡ move_tail_loop fuel (unmarked q (after cur_tail c)) cur_tail (u32 (c + 1))
    unfolding move_tail_loop
    round_up ne e = rw (here, next, end, ne→== _ _ ne, e)

  move_tail_loop-Moved :
      (d : ℕ) (fuel : ℕ) (q : NvmQueue) (cur_tail c : ℕ)
      → IsRing k q
      → AreMarks q.tail_mark
      → c + d < 2 ^ 16
      → after cur_tail (c + 1 + d) ≡ q.head % 2 ^ k
      → d < 2 ^ k
      → d < fuel
      → (n : ℕ) × (q' : NvmQueue) × (move_tail_loop fuel q cur_tail c ≡ some (n, q'))
        × Moved q cur_tail c n q'
        × (n ≤ c + d)
  move_tail_loop-Moved d zero q cur_tail c ring flags small goal near lt = absurd (omega arith)
  move_tail_loop-Moved zero (suc fuel) q cur_tail c ring flags small goal near lt =
      let full : after cur_tail (c + 1) ≡ q.head % 2 ^ k =
        ap (λ (t : ℕ). after cur_tail t) (let e : c + 1 ≡ c + 1 + 0 = omega arith in e) ∙ goal in
      (c, q, round_full fuel q cur_tail c ring full, Moved-full q cur_tail c full, omega arith)
  move_tail_loop-Moved (suc d) (suc fuel) q cur_tail c ring flags small goal near lt =
      elim (ℕ_discrete (after cur_tail (c + 1)) (q.head % 2 ^ k)) [
        | yes full ↦ (
          c,
          q,
          round_full fuel q cur_tail c ring full,
          Moved-full q cur_tail c full,
          omega arith,
        )
        | no room ↦ elim (ℕ_discrete (get_or q.tail_mark (after cur_tail c) 0) 1) [
          | yes up ↦
              let loc = after cur_tail c in
              let on : after cur_tail (c + 1 + 1 + d) ≡ q.head % 2 ^ k =
                ap (λ (t : ℕ). after cur_tail t)
                  (let e : c + 1 + 1 + d ≡ c + 1 + suc d = omega arith in e)
                ∙ goal in
              let (n, q', e, moved, le) =
                move_tail_loop-Moved d fuel (unmarked q loc) cur_tail (c + 1)
                  (record { small = ring.small; mask = ring.mask })
                  (AreMarks-set q.tail_mark loc flags) (omega arith) on (omega arith)
                  (omega arith) in
              let exact : u32 (c + 1) ≡ c + 1 = omega arith in
              (
                n,
                q',
                round_up fuel q cur_tail c ring room up ∙ rw exact e,
                Moved-up q cur_tail c n q' flags room up (omega arith) moved,
                omega arith,
              )
          | no down ↦
              let zero_mark : get_or q.tail_mark (after cur_tail c) 0 ≡ 0 =
                omega (arith, flags (after cur_tail c)) in
              (
                c,
                unmarked q (after cur_tail c),
                round_down fuel q cur_tail c ring room zero_mark,
                Moved-down q cur_tail c flags zero_mark,
                omega arith,
              )
        ]
      ]

-- What `move_tail` returns and leaves: `count` commands from the tail on are published. Their marks were
-- up and are down, no other mark changes. It passes no slot that would let the tail reach the head, and
-- it stops only there or at a slot whose mark is down.
pub record Published (k : ℕ) (q : NvmQueue) (cur_tail count : ℕ) (q' : NvmQueue) : Type 0 where
  pub short : count < 2 ^ k
  pub cleared : Cleared (λ i. (cur_tail + i) % 2 ^ k) q.tail_mark 0 count q'.tail_mark
  pub room : (i : ℕ) → i < count → (cur_tail + i + 1) % 2 ^ k ≢ q.head % 2 ^ k
  pub stop :
      ((cur_tail + count + 1) % 2 ^ k ≡ q.head % 2 ^ k)
      ⊎ (get_or q.tail_mark ((cur_tail + count) % 2 ^ k) 0 ≡ 0)
  pub same : q' ≡ record q { tail_mark = q'.tail_mark; head_lock = u32 (q.head_lock + 1) }

-- On a ring of `2 ^ k` slots `move_tail` ends within `2 ^ k` rounds, and publishes the longest run.
pub move_tail-Published :
    (k : ℕ) (q : NvmQueue) (cur_tail : ℕ)
    → IsRing k q
    → AreMarks q.tail_mark
    → (count : ℕ) × (q' : NvmQueue) × (move_tail (2 ^ k) q cur_tail ≡ some (count, q'))
      × Published k q cur_tail count q'
unfolding move_tail
move_tail-Published k q cur_tail ring flags =
    let m = 2 ^ k in
    let d = distance m (cur_tail + 1) q.head in
    let d_lt : d < m = mod-lt _ (pow-pos k) in
    let m_le : m ≤ 2 ^ 16 = pow_mono k 16 ring.small in
    let goal : (cur_tail + (0 + 1 + d)) % m ≡ q.head % m =
      ap (λ (t : ℕ). t % m) (let e : cur_tail + (0 + 1 + d) ≡ cur_tail + 1 + d = omega arith in e)
      ∙ add-distance m (cur_tail + 1) q.head (pow-pos k) in
    let (n, q', e, moved, le) =
      move_tail_loop-Moved k d m q cur_tail 0 ring flags (omega arith) goal d_lt d_lt in
    let next : (i : ℕ) → cur_tail + (i + 1) ≡ cur_tail + i + 1 = λ i. omega arith in
    (
      n,
      record q' { head_lock = u32 (q'.head_lock + 1) },
      rw e,
      record {
        short = omega arith;
        cleared = moved.cleared;
        room = λ i l. rw (next i) at (moved.room i (omega arith) l);
        stop = rw (next n) at moved.stop;
        same = rw moved.rest_same;
      },
    )
