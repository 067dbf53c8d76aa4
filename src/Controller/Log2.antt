-- ===== src/Controller/Log2.antt =====
-- `_nvm_b2log`: the logarithm of a word.
use atc26_shaper_io.Prelude.{
  ℕ, zero, suc, ◌+◌, ◌/◌, ◌^◌, ◌≤◌, ◌<◌, ◌≡◌, ◌∙◌, refl, true, ltb, arith,
}
use atc26_shaper_io.Prelude.Powers.{pow-pos, pow_mono}
use atc26_shaper_io.Prelude.Words.{u32}
use atc26_shaper_io.Controller.{b2log_loop, nvm_b2log}
use native.Mathlib.Nat.{pow-suc}
use native.Mathlib.Decide.{dec_lt}

-- Rounds that are left over do nothing.
loop-zero : (fuel count : ℕ) → b2log_loop fuel 0 count ≡ count
unfolding b2log_loop
loop-zero zero count = refl
loop-zero (suc fuel) count = refl

-- A number of `b + 1` bits takes `b + 1` rounds.
loop-counts :
    (b fuel n count : ℕ)
    → b < fuel
    → 2 ^ b ≤ n
    → n < 2 ^ suc b
    → count + b + 1 < 2 ^ 32
    → b2log_loop fuel n count ≡ count + b + 1
unfolding b2log_loop
loop-counts zero (suc fuel) n count lt lo hi small =
    let half : n / 2 ≡ 0 = omega arith in
    let word : u32 (count + 1) ≡ count + 1 = omega arith in
    let one : ltb 0 n ≡ true = ground arith in
    rw (one, half, word) (loop-zero fuel (count + 1) ∙ omega arith)
loop-counts (suc b) (suc fuel) n count lt lo hi small =
    let one : ltb 0 n ≡ true = ground (arith, pow-pos (suc b)) in
    let word : u32 (count + 1) ≡ count + 1 = omega arith in
    rw (one, word)
      (loop-counts b fuel (n / 2) (count + 1) (omega arith) (omega (arith, pow-suc 2 b))
          (omega (arith, pow-suc 2 (suc b))) (omega arith)
        ∙ omega arith)
loop-counts b zero n count lt lo hi small = absurd (omega arith)

-- The logarithm of a number between two powers of two.
pub nvm_b2log-between : (b n : ℕ) → b < 32 → 2 ^ b ≤ n → n < 2 ^ suc b → nvm_b2log n ≡ b
unfolding nvm_b2log
nvm_b2log-between b n lt lo hi =
    let word : u32 n ≡ n = omega (arith, pow_mono (suc b) 32 (omega arith)) in
    rw (word, loop-counts b 32 n 0 lt lo hi (omega arith)) (omega arith)

-- The power of two at or below a number that is not 0.
floor : (fuel n : ℕ) → n < 2 ^ fuel → 0 < n → (b : ℕ) × (b < fuel) × (2 ^ b ≤ n) × (n < 2 ^ suc b)
floor zero n small pos = absurd (omega arith)
floor (suc fuel) n small pos = elim (dec_lt n 2) [
  | yes one ↦ (0, omega arith, omega arith, omega arith)
  | no more ↦
      let (b, lt, lo, hi) = floor fuel (n / 2) (omega (arith, pow-suc 2 fuel)) (omega arith) in
      (suc b, omega arith, omega (arith, pow-suc 2 b), omega (arith, pow-suc 2 (suc b)))
]

-- `_nvm_b2log` of a 32-bit word that is not 0 is its logarithm, rounded down.
pub nvm_b2log_lem :
    (n : ℕ) → 0 < n → n < 2 ^ 32 → (2 ^ nvm_b2log n ≤ n) × (n < 2 ^ suc (nvm_b2log n))
nvm_b2log_lem n pos small =
    let (b, lt, lo, hi) = floor 32 n small pos in rw (nvm_b2log-between b n lt lo hi) (lo, hi)
