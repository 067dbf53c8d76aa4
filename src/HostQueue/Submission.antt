-- ===== src/HostQueue/Submission.antt =====
-- Submission queues: a queue that has taken `t` commands, `h` of which the controller has consumed.
use atc26_shaper_io.Prelude.{
  ℕ, ◌+◌, ◌-◌, ◌*◌, ◌/◌, ◌%◌, ◌≤◌, ◌<◌, ◌≡◌, ◌≢◌, ◌↔◌, refl, sym, ap, ◌∙◌, none, some, ◌==◌,
  if◌then◌else◌, eq→==, ne→==, arith,
}
use atc26_shaper_io.Prelude.Words.{u16, u32, sub_u32}
use atc26_shaper_io.Types.{NvmQueue}
use atc26_shaper_io.ParallelQueue.Marks.{mod-ne}
use atc26_shaper_io.HostQueue.{lnot, nvm_sq_enqueue, nvm_sq_update}
use atc26_shaper_io.HostQueue.Ring.{
  tag, next_slot, mod-inside, tag-inside, mod-last, tag-last, count-u16,
}
use native.Mathlib.Nat.{mod-lt, div-add-mod, mod_self, mod-eq_of_lt}
use native.Mathlib.Decide.{ℕ_discrete}

pub record Runs (sq : NvmQueue) (h t : ℕ) : Type 0 where
  pub lo : 2 ≤ sq.qs
  pub hi : sq.qs ≤ 65536
  pub le : h ≤ t
  pub room : t - h < sq.qs
  pub head : sq.head ≡ h % sq.qs
  pub tail : sq.tail ≡ t % sq.qs
  pub phase : sq.phase ≡ tag sq.qs t

module _ (sq : NvmQueue) (h t c : ℕ) (divides : 65536 ≡ sq.qs * c) (is : Runs sq h t) where
  abbrev qs : ℕ
  qs = sq.qs

  pos : 0 < qs
  pos = omega (arith, is.lo)

  outstanding : u16 (sub_u32 sq.tail sq.head) % qs ≡ t - h
  outstanding =
      let sum : h + (t - h) ≡ t = omega (arith, is.le) in
      rw (is.tail, is.head)
        (ap (λ (u : ℕ). u16 (sub_u32 (u % qs) (h % qs)) % qs) (sym sum)
          ∙ count-u16 qs h (t - h) c is.hi divides is.room)

  enqueue_full : t - h ≡ qs - 1 → nvm_sq_enqueue sq ≡ (none, sq)
  unfolding nvm_sq_enqueue
  enqueue_full e = rw (eq→== _ _ (outstanding ∙ e)) refl

  enqueue_room :
      t - h ≢ qs - 1
      → (sq' : NvmQueue) × (nvm_sq_enqueue sq ≡ (some (sq.vaddr + sq.es * (t % qs)), sq'))
        × Runs sq' h (t + 1)
  unfolding nvm_sq_enqueue
  enqueue_room ne =
      let small : t % qs < qs = mod-lt t pos in
      let not_full =
        ne→== (u16 (sub_u32 sq.tail sq.head) % qs) (qs - 1) (λ e. ne (sym outstanding ∙ e)) in
      let addr : sq.vaddr + sq.es * sq.tail ≡ sq.vaddr + sq.es * (t % qs) =
        ap (λ (u : ℕ). sq.vaddr + sq.es * u) is.tail in
      let one_more : t + 1 - h < qs = omega (arith, is.le, is.room) in
      let word : u32 (sq.tail + 1) ≡ t % qs + 1 = omega (arith, is.tail, is.hi) in
      elim (ℕ_discrete (t % qs + 1) qs) [
        | yes last ↦
            let sq' : NvmQueue = record sq { phase = lnot sq.phase; tail = 0 } in
            (
              sq',
              rw (not_full, eq→== _ _ (word ∙ last)) (ap (λ (u : ℕ). (some u, sq')) addr),
              record {
                lo = is.lo;
                hi = is.hi;
                le = omega (arith, is.le);
                room = one_more;
                head = is.head;
                tail = sym (mod-last qs t pos last);
                phase = ap lnot is.phase ∙ sym (tag-last qs t pos last);
              },
            )
        | no inside ↦
            let sq' : NvmQueue = record sq { tail = u32 (sq.tail + 1) } in
            (
              sq',
              rw (not_full, ne→== _ _ (λ e. inside (sym word ∙ e)))
                  (ap (λ (u : ℕ). (some u, sq')) addr),
              record {
                lo = is.lo;
                hi = is.hi;
                le = omega (arith, is.le);
                room = one_more;
                head = is.head;
                tail = word ∙ sym (mod-inside qs t pos inside);
                phase = is.phase ∙ sym (tag-inside qs t pos inside);
              },
            )
      ]

  -- A queue whose size divides 65536 refuses a command just when all its slots but one are taken. Else
  -- the command's place is the next slot, none that still holds a command, and the queue goes on with
  -- one command more.
  pub nvm_sq_enqueue-Runs :
      (t - h ≡ qs - 1 → nvm_sq_enqueue sq ≡ (none, sq))
      × (t - h ≢ qs - 1
          → (sq' : NvmQueue) × (nvm_sq_enqueue sq ≡ (some (sq.vaddr + sq.es * (t % qs)), sq'))
            × Runs sq' h (t + 1))
      × ((i : ℕ) → h ≤ i → i < t → i % qs ≢ t % qs)
  nvm_sq_enqueue-Runs = (
    enqueue_full,
    enqueue_room,
    λ i ge lt.
        let there : i + (t - i) ≡ t = omega arith in
        rw there at (mod-ne qs i (t - i) (omega arith) (omega (arith, is.room))),
  )

-- On a queue with a doorbell and at least one command not yet consumed, an update gives one slot back.
pub nvm_sq_update-Runs :
    (sq : NvmQueue) (h t db : ℕ)
    → sq.db ≡ some db
    → Runs sq h t
    → h < t
    → Runs (nvm_sq_update sq) (h + 1) t
unfolding nvm_sq_update
nvm_sq_update-Runs sq h t db bell is some_left =
    let next : ℕ = if u32 (sq.head + 1) == sq.qs then 0 else u32 (sq.head + 1) in
    let there : next ≡ (h + 1) % sq.qs =
      ap (λ (u : ℕ). if u32 (u + 1) == sq.qs then 0 else u32 (u + 1)) is.head
      ∙ next_slot sq.qs h (omega (arith, is.lo)) is.hi in
    rw bell (record {
      lo = is.lo;
      hi = is.hi;
      le = omega arith;
      room = omega (arith, is.room);
      head = there;
      tail = is.tail;
      phase = is.phase;
    })

-- a queue after `t` commands, `h` of which the controller has consumed
abbrev pub after : NvmQueue → ℕ → ℕ → NvmQueue
after sq h t = record sq { head = h % sq.qs; tail = t % sq.qs }

-- The test for a full queue, as the code computes it.
abbrev count : ℕ → ℕ → ℕ → ℕ
count qs h t = u16 (sub_u32 (t % qs) (h % qs)) % qs

refused_iff :
    (sq : NvmQueue) (h t : ℕ)
    → ((nvm_sq_enqueue (after sq h t)).0 ≡ none) ↔ (count sq.qs h t ≡ sq.qs - 1)
unfolding nvm_sq_enqueue
refused_iff sq h t = elim (ℕ_discrete (count sq.qs h t) (sq.qs - 1)) [
  | yes full ↦ (λ e. full, λ e. rw (eq→== _ _ full) refl)
  | no ne ↦ (
    λ e. absurd (let r = rw (ne→== (count sq.qs h t) (sq.qs - 1) ne) at e in cc),
    λ e. absurd (ne e),
  )
]

count-exact :
    (qs h t : ℕ) → 2 ≤ qs → qs ≤ 65536 → 65536 % qs ≡ 0 → h ≤ t → t - h < qs → count qs h t ≡ t - h
count-exact qs h t lo hi divides le near =
    let sum : h + (t - h) ≡ t = omega arith in
    ap (λ (u : ℕ). u16 (sub_u32 (u % qs) (h % qs)) % qs) (sym sum)
    ∙ count-u16 qs h (t - h) (65536 / qs) hi (omega (arith, div-add-mod 65536 qs)) near

count-around : (qs : ℕ) → 2 ≤ qs → qs ≤ 65536 → count qs 1 qs ≡ qs - 1 → 65536 % qs ≡ 0
count-around qs lo hi full =
    let low : u16 (sub_u32 (qs % qs) (1 % qs)) ≡ 65535 =
      omega (arith, mod_self qs, mod-eq_of_lt {n = 1} {m = qs} (omega arith)) in
    mod-last qs 65535 (omega arith) (omega (arith, rw low at full))

-- A queue of 2 to 65536 entries refuses commands in just those states in which all slots but one are
-- taken, if and only if its size divides 65536: the difference of the two slot numbers is cut to 16 bits
-- before it is reduced.
pub full_test_iff :
    (sq : NvmQueue)
    → 2 ≤ sq.qs
    → sq.qs ≤ 65536
    → ((h t : ℕ)
        → h ≤ t
        → t - h < sq.qs
        → ((nvm_sq_enqueue (after sq h t)).0 ≡ none) ↔ (t - h ≡ sq.qs - 1))
      ↔ (65536 % sq.qs ≡ 0)
full_test_iff sq lo hi = (
  λ right.
      let refused = (right 1 sq.qs (omega arith) (omega arith)).1 refl in
      count-around sq.qs lo hi ((refused_iff sq 1 sq.qs).0 refused),
  λ divides h t le near.
      let exact = count-exact sq.qs h t lo hi divides le near in
      (λ e. sym exact ∙ (refused_iff sq h t).0 e, λ e. (refused_iff sq h t).1 (exact ∙ e)),
)
