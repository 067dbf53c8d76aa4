-- ===== src/HostQueue/Completion.antt =====
-- Completion queues: a queue that the controller has put `p` completions into, `h` of which the host has
-- taken.
use atc26_shaper_io.Prelude.{
  ℕ, zero, suc, ◌+◌, ◌-◌, ◌*◌, ◌/◌, ◌%◌, ◌≤◌, ◌<◌, ◌≡◌, ◌≢◌, refl, sym, ap, ◌∙◌, false, Option,
  none, some, ◌==◌, if◌then◌else◌, eq→==, ne→==, Option-cases, inl, inr, arith,
}
use atc26_shaper_io.Prelude.Words.{u32, u64}
use atc26_shaper_io.Types.{NvmQueue}
use atc26_shaper_io.Util.{rb}
use atc26_shaper_io.Util.Fields.{rb_lem}
use atc26_shaper_io.HostQueue.{
  lnot, cpl_status, cq_taken, nvm_cq_poll, nvm_cq_dequeue, nvm_delay_remain, dequeue_wait,
  nvm_cq_dequeue_block,
}
use atc26_shaper_io.HostQueue.Ring.{tag, mod-inside, tag-inside, mod-last, tag-last}
use native.Mathlib.Nat.{mod-lt, mod-le, add-mod_right, mod-eq_of_lt, div-eq_of_lt, add-div_right}
use native.Mathlib.Decide.{dec_lt, ℕ_discrete}

-- The phase bit that slot `loc` shows.
abbrev pub shown : NvmQueue → ℕ → ℕ
shown cq loc = cpl_status cq loc % 2

-- The controller is at most a round ahead. A slot shows the phase of its latest use, and 0 before the
-- first.
pub record Ready (cq : NvmQueue) (h p : ℕ) : Type 0 where
  pub lo : 2 ≤ cq.qs
  pub hi : cq.qs ≤ 65536
  pub le : h ≤ p
  pub near : p ≤ h + cq.qs
  pub head : cq.head ≡ h % cq.qs
  pub phase : cq.phase ≡ tag cq.qs h
  pub latest : (n : ℕ) → n < p → p ≤ n + cq.qs → shown cq (n % cq.qs) ≡ tag cq.qs n
  pub fresh : (n : ℕ) → p ≤ n → n < cq.qs → shown cq n ≡ 0

module _ (cq : NvmQueue) (h p : ℕ) (is : Ready cq h p) where
  abbrev qs : ℕ
  qs = cq.qs

  pos : 0 < qs
  pos = omega (arith, is.lo)

  bit : rb (cpl_status cq cq.head) 0 0 ≡ shown cq (h % qs)
  bit =
      rb_lem (cpl_status cq cq.head) 0 0 (omega arith)
      ∙ omega (arith, ap (λ (u : ℕ). shown cq u) is.head)

  -- In the empty queue the slot at the head shows the phase of the last round.
  old_phase : h ≡ p → shown cq (h % qs) ≡ lnot (tag qs h)
  old_phase e = elim (dec_lt h qs) [
    | yes first ↦
        let slot : h % qs ≡ h = mod-eq_of_lt first in
        let none_yet : shown cq h ≡ 0 = is.fresh h (omega arith) first in
        let one : tag qs h ≡ 1 = ap (λ (u : ℕ). lnot (u % 2)) (div-eq_of_lt first) in
        rw (slot, one) none_yet
    | no later ↦
        let n = h - qs in
        let back : n + qs ≡ h = omega arith in
        let same : h % qs ≡ n % qs = ap (λ (u : ℕ). u % qs) (sym back) ∙ add-mod_right n qs in
        let round : h / qs ≡ n / qs + 1 = ap (λ (u : ℕ). u / qs) (sym back) ∙ add-div_right n pos in
        let turned : tag qs n ≡ lnot (tag qs h) = ground arith in
        rw same (is.latest n (omega (arith, pos)) (omega arith) ∙ turned)
  ]

  bits_differ : (b : ℕ) → b ≡ lnot (tag qs h) → (lnot b == lnot (tag qs h)) ≡ false
  bits_differ b e = ground arith

  pub poll_empty : h ≡ p → nvm_cq_poll cq ≡ none
  unfolding nvm_cq_poll
  poll_empty e = rw (bit, is.phase, bits_differ (shown cq (h % qs)) (old_phase e)) refl

  pub poll_ready : h < p → nvm_cq_poll cq ≡ some (cq.vaddr + cq.es * (h % qs))
  unfolding nvm_cq_poll
  poll_ready lt =
      let new : shown cq (h % qs) ≡ tag qs h = is.latest h lt (omega (arith, is.near)) in
      let addr : cq.vaddr + cq.es * cq.head ≡ cq.vaddr + cq.es * (h % qs) =
        ap (λ (u : ℕ). cq.vaddr + cq.es * u) is.head in
      rw (bit, is.phase, new, eq→== (lnot (tag qs h)) (lnot (tag qs h)) refl) (ap some addr)

  abbrev taken : NvmQueue
  taken =
      if u32 (cq.head + 1) == qs
      then record cq { head = 0; phase = lnot cq.phase }
      else record cq { head = u32 (cq.head + 1) }

  pub taken-Ready : h < p → Ready taken (h + 1) p
  taken-Ready lt =
      let small : h % qs < qs = mod-lt h pos in
      let word : u32 (cq.head + 1) ≡ h % qs + 1 = omega (arith, is.head, is.hi) in
      elim (ℕ_discrete (h % qs + 1) qs) [
        | yes last ↦ rw (eq→== _ _ (word ∙ last)) (record {
          lo = is.lo;
          hi = is.hi;
          le = omega arith;
          near = omega (arith, is.near);
          head = sym (mod-last qs h pos last);
          phase = ap lnot is.phase ∙ sym (tag-last qs h pos last);
          latest = is.latest;
          fresh = is.fresh;
        })
        | no inside ↦ rw (ne→== _ _ (λ e. inside (sym word ∙ e))) (record {
          lo = is.lo;
          hi = is.hi;
          le = omega arith;
          near = omega (arith, is.near);
          head = word ∙ sym (mod-inside qs h pos inside);
          phase = is.phase ∙ sym (tag-inside qs h pos inside);
          latest = is.latest;
          fresh = is.fresh;
        })
      ]

  -- The host takes a completion just when the controller has put one in that it has not taken: the phase
  -- tags tell, in each round of the ring. It gets the oldest, and the queue is ready for the next.
  pub nvm_cq_dequeue-Ready :
      (h ≡ p → nvm_cq_dequeue cq ≡ (none, cq))
      × (h < p
          → (cq' : NvmQueue) × (nvm_cq_dequeue cq ≡ (some (cq.vaddr + cq.es * (h % qs)), cq'))
            × Ready cq' (h + 1) p)
  unfolding nvm_cq_dequeue
  nvm_cq_dequeue-Ready =
      (λ e. rw (poll_empty e) refl, λ lt. (taken, rw (poll_ready lt) refl, taken-Ready lt))

-- Each sleep takes up to a million nanoseconds off what remains.
delay_less :
    (rounds nsecs : ℕ)
    → nsecs ≢ 0
    → nsecs ≤ rounds * 1000000
    → nvm_delay_remain nsecs ≤ (rounds - 1) * 1000000
unfolding nvm_delay_remain
delay_less rounds nsecs ne bound = ground arith

module _ (fuel : ℕ) (write : NvmQueue → NvmQueue) (nsecs : ℕ) (cq : NvmQueue) where
  pub wait_hit :
      {cpl : ℕ}
      → nvm_cq_poll cq ≡ some cpl
      → dequeue_wait (suc fuel) write nsecs cq ≡ some (some cpl, cq_taken cq (some cpl))
  unfolding dequeue_wait
  wait_hit e = rw e refl

  pub wait_over :
      nvm_cq_poll cq ≡ none → nsecs ≡ 0 → dequeue_wait (suc fuel) write nsecs cq ≡ some (none, cq)
  unfolding dequeue_wait
  wait_over e over = rw (e, eq→== _ _ over) refl

  pub wait_on :
      nvm_cq_poll cq ≡ none
      → nsecs ≢ 0
      → dequeue_wait (suc fuel) write nsecs cq
        ≡ dequeue_wait fuel write (nvm_delay_remain nsecs) (write cq)
  unfolding dequeue_wait
  wait_on e left = rw (e, ne→== _ _ left) refl

wait_ends :
    (rounds fuel : ℕ) (write : NvmQueue → NvmQueue) (nsecs : ℕ) (cq : NvmQueue)
    → nsecs ≤ rounds * 1000000
    → rounds < fuel
    → (r : Option ℕ × NvmQueue) × (dequeue_wait fuel write nsecs cq ≡ some r)
wait_ends rounds zero write nsecs cq bound lt = absurd (omega arith)
wait_ends rounds (suc fuel) write nsecs cq bound lt = elim (Option-cases (nvm_cq_poll cq)) [
  | inr (cpl, e) ↦ (_, wait_hit fuel write nsecs cq e)
  | inl e ↦ elim (ℕ_discrete nsecs 0) [
    | yes over ↦ (_, wait_over fuel write nsecs cq e over)
    | no left ↦
        let (r, f) =
          wait_ends (rounds - 1) fuel write (nvm_delay_remain nsecs) (write cq)
            (delay_less rounds nsecs left bound) (omega arith) in
        (r, wait_on fuel write nsecs cq e left ∙ f)
  ]
]

-- The wait ends, whatever the controller does meanwhile: a timeout of `timeout` milliseconds takes at
-- most `timeout + 1` polls.
pub nvm_cq_dequeue_block-ends :
    (write : NvmQueue → NvmQueue) (cq : NvmQueue) (timeout : ℕ)
    → (r : Option ℕ × NvmQueue) × (nvm_cq_dequeue_block (timeout + 1) write cq timeout ≡ some r)
unfolding nvm_cq_dequeue_block
nvm_cq_dequeue_block-ends write cq timeout =
    wait_ends timeout (timeout + 1) write (u64 (timeout * 1000000)) cq (mod-le _ _) (omega arith)
