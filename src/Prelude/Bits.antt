-- ===== src/Prelude/Bits.antt =====
-- Laws of `&`, `|` and `^` at variables: the lowest digit, a split of both operands at any bit, low
-- masks as remainders, and disjoint fields as sums.
mod Digits
use Digits.{and-step, or-step, xor-step, differ-zero_right}
use Prim.Native.Nat.{ℕ, zero, suc, ◌+◌, ◌-◌, ◌*◌, ◌/◌, ◌%◌, ◌^◌, ◌≤◌, ◌<◌}
use Prim.Native.Nat.{bit_and, bit_or, bit_xor, bit_and-bitwise, bit_or-bitwise, bit_xor-bitwise}
use mathlib.Core.Path.{◌≡◌, refl, ap}
use native.Mathlib.Nat.{pow-suc, one-le-pow, div-div-eq-div-mul, mod-mod}
use native.Mathlib.Omega.{arith}

mul-pow-suc : (q k : ℕ) → q * 2 ^ suc k ≡ 2 * (q * 2 ^ k)
mul-pow-suc q k = omega (arith, ap (λ (t : ℕ). q * t) (pow-suc 2 k))

-- A number below `2 ^ suc k` halves to one below `2 ^ k`.
half-lt : (k r : ℕ) → r < 2 ^ suc k → r / 2 < 2 ^ k
half-lt k r h = omega (arith, pow-suc 2 k)

and-zero_fuel : (n a : ℕ) → a ≤ n → bit_and a 0 ≡ 0
and-zero_fuel n zero h = refl
and-zero_fuel zero (suc a) h = absurd (omega arith)
and-zero_fuel (suc n) (suc a) h =
    omega (arith, and-step (suc a) 0, and-zero_fuel n (suc a / 2) (omega arith))

pub and-zero : (a : ℕ) → bit_and a 0 ≡ 0
and-zero a = and-zero_fuel a a (omega arith)

or-zero_fuel : (n a : ℕ) → a ≤ n → bit_or a 0 ≡ a
or-zero_fuel n zero h = refl
or-zero_fuel zero (suc a) h = absurd (omega arith)
or-zero_fuel (suc n) (suc a) h =
    omega (arith, or-step (suc a) 0, or-zero_fuel n (suc a / 2) (omega arith))

pub or-zero : (a : ℕ) → bit_or a 0 ≡ a
or-zero a = or-zero_fuel a a (omega arith)

-- Fields that lie above and below bit `k` are combined one by one.
pub and-fields :
    (k p q r s : ℕ)
    → r < 2 ^ k
    → s < 2 ^ k
    → bit_and (p * 2 ^ k + r) (q * 2 ^ k + s) ≡ bit_and p q * 2 ^ k + bit_and r s
and-fields zero p q r s hr hs =
    let e : r ≡ 0 = omega arith in let f : s ≡ 0 = omega arith in ground (arith, e, f)
and-fields (suc k) p q r s hr hs = ground (
  arith,
  and-step (p * 2 ^ suc k + r) (q * 2 ^ suc k + s),
  and-step r s,
  mul-pow-suc p k,
  mul-pow-suc q k,
  mul-pow-suc (bit_and p q) k,
  and-fields k p q (r / 2) (s / 2) (half-lt k r hr) (half-lt k s hs),
)

pub or-fields :
    (k p q r s : ℕ)
    → r < 2 ^ k
    → s < 2 ^ k
    → bit_or (p * 2 ^ k + r) (q * 2 ^ k + s) ≡ bit_or p q * 2 ^ k + bit_or r s
or-fields zero p q r s hr hs =
    let e : r ≡ 0 = omega arith in let f : s ≡ 0 = omega arith in ground (arith, e, f)
or-fields (suc k) p q r s hr hs = ground (
  arith,
  or-step (p * 2 ^ suc k + r) (q * 2 ^ suc k + s),
  or-step r s,
  mul-pow-suc p k,
  mul-pow-suc q k,
  mul-pow-suc (bit_or p q) k,
  or-fields k p q (r / 2) (s / 2) (half-lt k r hr) (half-lt k s hs),
)

pub xor-fields :
    (k p q r s : ℕ)
    → r < 2 ^ k
    → s < 2 ^ k
    → bit_xor (p * 2 ^ k + r) (q * 2 ^ k + s) ≡ bit_xor p q * 2 ^ k + bit_xor r s
xor-fields zero p q r s hr hs =
    let e : r ≡ 0 = omega arith in let f : s ≡ 0 = omega arith in ground (arith, e, f)
xor-fields (suc k) p q r s hr hs = ground (
  arith,
  xor-step (p * 2 ^ suc k + r) (q * 2 ^ suc k + s),
  xor-step r s,
  mul-pow-suc p k,
  mul-pow-suc q k,
  mul-pow-suc (bit_xor p q) k,
  xor-fields k p q (r / 2) (s / 2) (half-lt k r hr) (half-lt k s hs),
)

-- A mask of `k` ones keeps the remainder by `2 ^ k`.
and-low_mask_lt : (k r : ℕ) → r < 2 ^ k → bit_and r (2 ^ k - 1) ≡ r
and-low_mask_lt zero r h = let e : r ≡ 0 = omega arith in ground (arith, e)
and-low_mask_lt (suc k) r h = ground (
  arith,
  and-step r (2 ^ suc k - 1),
  pow-suc 2 k,
  one-le-pow k 2,
  and-low_mask_lt k (r / 2) (half-lt k r h),
)

pub and-low_mask : (k a : ℕ) → bit_and a (2 ^ k - 1) ≡ a % 2 ^ k
and-low_mask k a = ground (
  arith,
  one-le-pow k 2,
  and-fields k (a / 2 ^ k) 0 (a % 2 ^ k) (2 ^ k - 1),
  and-low_mask_lt k (a % 2 ^ k),
  and-zero (a / 2 ^ k),
)

pub zero-or : (a : ℕ) → bit_or 0 a ≡ a
zero-or a = bit_or-bitwise 0 a

pub zero-and : (a : ℕ) → bit_and 0 a ≡ 0
zero-and a = bit_and-bitwise 0 a

pub zero-xor : (a : ℕ) → bit_xor 0 a ≡ a
zero-xor a = bit_xor-bitwise 0 a

-- `(q << k) | r` is a sum where `r` fits in `k` bits.
pub or-disjoint : (k q r : ℕ) → r < 2 ^ k → bit_or (q * 2 ^ k) r ≡ q * 2 ^ k + r
or-disjoint k q r h = ground (arith, one-le-pow k 2, or-fields k q 0 0 r, or-zero q, zero-or r)

xor-zero_fuel : (n a : ℕ) → a ≤ n → bit_xor a 0 ≡ a
xor-zero_fuel n zero h = refl
xor-zero_fuel zero (suc a) h = absurd (omega arith)
xor-zero_fuel (suc n) (suc a) h = omega (
  arith,
  xor-step (suc a) 0,
  xor-zero_fuel n (suc a / 2) (omega arith),
  differ-zero_right (suc a % 2) (omega arith),
)

pub xor-zero : (a : ℕ) → bit_xor a 0 ≡ a
xor-zero a = xor-zero_fuel a a (omega arith)
