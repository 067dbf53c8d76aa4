-- ===== src/Prelude/Powers.antt =====
-- Powers of two: the sizes of queues, pages and words.
use Prim.Native.Nat.{ℕ, zero, suc, ◌+◌, ◌-◌, ◌*◌, ◌^◌, ◌≤◌, ◌<◌}
use mathlib.Core.Path.{◌≡◌, ap}
use native.Mathlib.Nat.{pow-suc, one-le-pow}
use native.Mathlib.Omega.{arith}

pub pow-pos : (k : ℕ) → 0 < 2 ^ k
pow-pos k = one-le-pow k 2 (omega arith)

pub pow-add : (a b : ℕ) → 2 ^ (a + b) ≡ 2 ^ a * 2 ^ b
pow-add zero b = ground (arith, ap (λ (t : ℕ). 2 ^ t) (let e : 0 + b ≡ b = omega arith in e))
pow-add (suc a) b = ground (
  arith,
  pow-add a b,
  pow-suc 2 (a + b),
  pow-suc 2 a,
  ap (λ (t : ℕ). 2 ^ t) (let e : suc a + b ≡ suc (a + b) = omega arith in e),
  ap (λ (t : ℕ). t * 2) (pow-add a b),
  ap (λ (t : ℕ). t * 2 ^ b) (pow-suc 2 a),
)

-- The larger power as a multiple of the smaller.
pub pow-split : (k n : ℕ) → k ≤ n → 2 ^ n ≡ 2 ^ (n - k) * 2 ^ k
pow-split k n h =
    ground
      (arith, pow-add (n - k) k, ap (λ (t : ℕ). 2 ^ t) (let e : n - k + k ≡ n = omega arith in e))

pub pow_mono : (k n : ℕ) → k ≤ n → 2 ^ k ≤ 2 ^ n
pow_mono k n h = grind (arith, pow-split k n h, pow-pos (n - k))
