-- ===== src/IoQueue/System/Memory.antt =====
-- The ring's memory: which slots share a place, and what the stores change.
use atc26_shaper_io.Prelude.{
  ℕ, zero, suc, ◌+◌, ◌-◌, ◌%◌, ◌^◌, ◌≤◌, ◌<◌, ◌≡◌, ◌≢◌, ◌∙◌, refl, sym, subst, List, length,
  length-set, get_or, set, get_or-set_self, get_or-set_ne, arith,
}
use atc26_shaper_io.Prelude.Bits.{and-low_mask}
use atc26_shaper_io.Prelude.Powers.{pow-pos}
use atc26_shaper_io.Prelude.Words.{u32}
use atc26_shaper_io.ParallelQueue.Marks.{mod-ne}
use atc26_shaper_io.IoQueue.{
  IoQueue, BatchEntry, no_request, no_entry, drained, ring_idx, copy_entries,
}
use native.Mathlib.Nat.{mod-lt}
use native.Mathlib.Decide.{dec_lt, ℕ_discrete}

pub ring_idx_lem : (q : IoQueue) (k s : ℕ) → q.capacity_mask ≡ 2 ^ k - 1 → ring_idx q s ≡ s % 2 ^ k
ring_idx_lem q k s e = rw e (and-low_mask k s)

pub ring_idx_word :
    (q : IoQueue) (k s : ℕ)
    → q.capacity_mask ≡ 2 ^ k - 1
    → s < 2 ^ 32
    → ring_idx q (u32 s) ≡ s % 2 ^ k
ring_idx_word q k s e lt = let word : u32 s ≡ s = omega arith in rw word (ring_idx_lem q k s e)

-- Slots of one window of the ring have places of their own.
pub window :
    (k h s t : ℕ) → h ≤ s → h ≤ t → s < h + 2 ^ k → t < h + 2 ^ k → s ≢ t → s % 2 ^ k ≢ t % 2 ^ k
window k h s t hs ht ls lt ne e = elim (dec_lt s t) [
  | yes lo ↦
      let sum : s + (t - s) ≡ t = omega arith in
      let apart = mod-ne (2 ^ k) s (t - s) (omega arith) (omega arith) in absurd (apart (rw sum e))
  | no ge ↦
      let sum : t + (s - t) ≡ s = omega arith in
      let apart = mod-ne (2 ^ k) t (s - t) (omega arith) (omega arith) in
      absurd (apart (rw sum (sym e)))
]

pub place_lt : (k s : ℕ) → s % 2 ^ k < 2 ^ k
place_lt k s = mod-lt s (pow-pos k)

module _ {ℓ} {A : Type ℓ} where
  pub set_here :
      (xs : List A) (k s : ℕ) (v d : A)
      → length xs ≡ 2 ^ k
      → get_or (set xs (s % 2 ^ k) v) (s % 2 ^ k) d ≡ v
  set_here xs k s v d e = get_or-set_self xs (s % 2 ^ k) v d (omega (arith, place_lt k s))

-- The scheduler's arrays after a copy: the places before the copied ones are as they were.
pub copy_entries-before :
    (q : IoQueue) (base acc left j : ℕ) (g : List BatchEntry)
    → j < acc
    → get_or (copy_entries q base acc left g) j no_entry ≡ get_or g j no_entry
unfolding copy_entries
copy_entries-before q base acc zero j g lt = refl
copy_entries-before q base acc (suc left) j g lt =
    copy_entries-before q base (acc + 1) left j _ (omega arith)
    ∙ get_or-set_ne g acc j _ no_entry (λ e. omega arith)

pub length-copy_entries :
    (q : IoQueue) (base acc left : ℕ) (g : List BatchEntry)
    → length (copy_entries q base acc left g) ≡ length g
unfolding copy_entries
length-copy_entries q base acc zero g = refl
length-copy_entries q base acc (suc left) g =
    length-copy_entries q base (acc + 1) left _ ∙ length-set g acc _

-- The copied places hold what is copied of the ring's entries for their slots.
pub copy_entries_lem :
    (q : IoQueue) (base acc left j : ℕ) (g : List BatchEntry)
    → acc ≤ j
    → j < acc + left
    → acc + left ≤ length g
    → get_or (copy_entries q base acc left g) j no_entry
      ≡ drained (get_or q.entries (ring_idx q (u32 (base + j))) no_request)
unfolding copy_entries
copy_entries_lem q base acc zero j g lo hi fits = absurd (omega arith)
copy_entries_lem q base acc (suc left) j g lo hi fits = elim (ℕ_discrete acc j) [
  | yes e ↦
      let value = drained (get_or q.entries (ring_idx q (u32 (base + acc))) no_request) in
      let here : get_or (copy_entries q base (acc + 1) left (set g acc value)) acc no_entry
          ≡ value =
        copy_entries-before q base (acc + 1) left acc (set g acc value) (omega arith)
        ∙ get_or-set_self g acc value no_entry (omega arith) in
      subst
        (λ (t : ℕ).
          get_or (copy_entries q base acc (suc left) g) t no_entry
          ≡ drained (get_or q.entries (ring_idx q (u32 (base + t))) no_request))
        e here
  | no ne ↦
      let value = drained (get_or q.entries (ring_idx q (u32 (base + acc))) no_request) in
      copy_entries_lem q base (acc + 1) left j (set g acc value) (omega arith) (omega arith)
        (omega (arith, length-set g acc value))
]
