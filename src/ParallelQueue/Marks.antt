-- ===== src/ParallelQueue/Marks.antt =====
-- The marks over the slots of a ring: what a walk that takes a run of them down leaves behind.
use atc26_shaper_io.Prelude.{
  ℕ, zero, suc, ◌+◌, ◌-◌, ◌*◌, ◌/◌, ◌%◌, ◌^◌, ◌≤◌, ◌<◌, ◌≡◌, ◌≢◌, refl, sym, ◌∙◌, ap, List, [], ◌∷◌,
  get_or, set, get_or-set_ne, arith,
}
use atc26_shaper_io.Prelude.Bits.{and-low_mask}
use atc26_shaper_io.Prelude.Powers.{pow-split}
use atc26_shaper_io.Prelude.Words.{u32}
use atc26_shaper_io.Types.{NvmQueue}
use atc26_shaper_io.ParallelQueue.{slot}
use native.Mathlib.Nat.{
  mod-lt, mod-eq_of_lt, mod-eq-sub-mod, add-mod-mod, mod-add-mod, add-mod_right,
}
use native.Mathlib.Nat.{add-mul-mod_self_right}
use native.Mathlib.Decide.{dec_lt, ℕ_discrete}

-- The queue has `2 ^ k` entries, at most 65536.
pub record IsRing (k : ℕ) (q : NvmQueue) : Type 0 where
  pub small : k ≤ 16
  pub mask : q.qs_minus_1 ≡ 2 ^ k - 1

-- The wrap of a `uint32_t` does not show in a slot.
pub u32-mod : (k x : ℕ) → k ≤ 16 → u32 x % 2 ^ k ≡ x % 2 ^ k
u32-mod k x h =
    let whole : x ≡ u32 x + x / 2 ^ 32 * 2 ^ (32 - k) * 2 ^ k =
      omega (arith, ap (λ (t : ℕ). x / 2 ^ 32 * t) (pow-split k 32 (omega arith))) in
    sym (
      ap (λ (t : ℕ). t % 2 ^ k) whole
      ∙ add-mul-mod_self_right (u32 x) (x / 2 ^ 32 * 2 ^ (32 - k)) (2 ^ k))

pub slot-mod : {k : ℕ} {q : NvmQueue} (x : ℕ) → IsRing k q → slot q x ≡ x % 2 ^ k
slot-mod {k} x ring = rw ring.mask (and-low_mask k x)

pub slot-u32 : {k : ℕ} {q : NvmQueue} (x : ℕ) → IsRing k q → slot q (u32 x) ≡ x % 2 ^ k
slot-u32 {k} x ring = slot-mod (u32 x) ring ∙ u32-mod k x ring.small

-- Fewer than `m` steps round a ring of `m` places do not come back to the start.
pub mod-ne : (m x e : ℕ) → 0 < e → e < m → x % m ≢ (x + e) % m
mod-ne m x e pos lt = elim (dec_lt (x % m + e) m) [
  | yes p ↦ grind (arith, mod-add-mod x m e, mod-eq_of_lt p)
  | no p ↦ grind (
    arith,
    mod-add-mod x m e,
    mod-eq-sub-mod {n = x % m + e} {m = m} (omega arith),
    mod-eq_of_lt {n = x % m + e - m} {m = m} (omega arith),
  )
]

-- The number of steps from `x` round the ring to `h`.
abbrev pub distance : ℕ → ℕ → ℕ → ℕ
distance m x h = (h % m + m - x % m) % m

pub add-distance : (m x h : ℕ) → 0 < m → (x + distance m x h) % m ≡ h % m
add-distance m x h pos =
    let lx : x % m < m = mod-lt x pos in
    let lh : h % m < m = mod-lt h pos in
    let whole : x % m + (h % m + m - x % m) ≡ h % m + m = omega arith in
    sym (mod-add-mod x m (distance m x h))
    ∙ add-mod-mod (x % m) (h % m + m - x % m) m
    ∙ ap (λ t. t % m) whole
    ∙ add-mod_right (h % m) m
    ∙ mod-eq_of_lt lh

-- A mark is up, 1, or down, 0.
abbrev pub AreMarks : List ℕ → Type 0
AreMarks marks = (j : ℕ) → get_or marks j 0 ≤ 1

pub get-set_zero : (marks : List ℕ) (i j : ℕ) → get_or (set marks i 0) j 0 ≤ get_or marks j 0
get-set_zero [] i j = omega arith
get-set_zero (x ∷ xs) zero zero = omega arith
get-set_zero (x ∷ xs) zero (suc j) = omega arith
get-set_zero (x ∷ xs) (suc i) zero = omega arith
get-set_zero (x ∷ xs) (suc i) (suc j) = get-set_zero xs i j

set-zero_self : (marks : List ℕ) (i : ℕ) → get_or (set marks i 0) i 0 ≡ 0
set-zero_self [] i = refl
set-zero_self (x ∷ xs) zero = refl
set-zero_self (x ∷ xs) (suc i) = set-zero_self xs i

pub AreMarks-set : (marks : List ℕ) (i : ℕ) → AreMarks marks → AreMarks (set marks i 0)
AreMarks-set marks i h j = omega (arith, get-set_zero marks i j, h j)

-- A walk over the slots `at c`, `at (c + 1)`, … took the marks from `c` up to `n` down: all were up, all
-- are down, and no other mark has changed.
pub record Cleared (at : ℕ → ℕ) (marks : List ℕ) (c n : ℕ) (marks' : List ℕ) : Type 0 where
  pub le : c ≤ n
  pub were_up : (i : ℕ) → c ≤ i → i < n → get_or marks (at i) 0 ≡ 1
  pub are_down : (i : ℕ) → c ≤ i → i < n → get_or marks' (at i) 0 ≡ 0
  pub others : (j : ℕ) → ((i : ℕ) → c ≤ i → i < n → at i ≢ j) → get_or marks' j 0 ≡ get_or marks j 0
  pub lower : (j : ℕ) → get_or marks' j 0 ≤ get_or marks j 0

module _ (at : ℕ → ℕ) (marks : List ℕ) (c : ℕ) where
  -- Taking down a mark that is down.
  pub Cleared-stop :
      get_or marks (at c) 0 ≢ 1 → AreMarks marks → Cleared at marks c c (set marks (at c) 0)
  Cleared-stop down flags = record {
    le = omega arith;
    were_up = λ i h k. absurd (omega arith);
    are_down = λ i h k. absurd (omega arith);
    others = λ j h. elim (ℕ_discrete (at c) j) [
      | yes e ↦ rw (← e) (omega (arith, set-zero_self marks (at c), flags (at c)))
      | no ne ↦ get_or-set_ne marks (at c) j 0 0 ne
    ];
    lower = get-set_zero marks (at c);
  }

  pub Cleared-here : Cleared at marks c c marks
  Cleared-here = record {
    le = omega arith;
    were_up = λ i h k. absurd (omega arith);
    are_down = λ i h k. absurd (omega arith);
    others = λ j h. refl;
    lower = λ j. omega arith;
  }

  module _ {n : ℕ} {marks' : List ℕ} (flags : AreMarks marks) (up : get_or marks (at c) 0 ≡ 1)
      (rest : Cleared at (set marks (at c) 0) (c + 1) n marks') where
    later_up : (i : ℕ) → c + 1 ≤ i → i < n → get_or marks (at i) 0 ≡ 1
    later_up i h k =
        omega (arith, rest.were_up i h k, get-set_zero marks (at c) (at i), flags (at i))

    pub Cleared-step : Cleared at marks c n marks'
    Cleared-step = record {
      le = omega (arith, rest.le);
      were_up = λ i h k. elim (ℕ_discrete c i) [
        | yes e ↦ rw (← e) up
        | no ne ↦ later_up i (omega arith) k
      ];
      are_down = λ i h k. elim (ℕ_discrete c i) [
        | yes e ↦ rw (← e) (omega (arith, rest.lower (at c), set-zero_self marks (at c)))
        | no ne ↦ rest.are_down i (omega arith) k
      ];
      others = λ j h.
          rest.others j (λ i p k. h i (omega arith) k)
          ∙ get_or-set_ne marks (at c) j 0 0 (h c (omega arith) (omega (arith, rest.le)));
      lower = λ j. omega (arith, rest.lower j, get-set_zero marks (at c) j);
    }
