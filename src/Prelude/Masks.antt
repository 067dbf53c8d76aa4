-- ===== src/Prelude/Masks.antt =====
-- Masks over a field of bits: `((1 << w) - 1) << lo`.
use Prim.Native.Nat.{ℕ, ◌+◌, ◌-◌, ◌*◌, ◌/◌, ◌%◌, ◌^◌, ◌<◌, bit_and}
use mathlib.Core.Path.{◌≡◌, sym, ap, ◌∙◌}
use native.Mathlib.Omega.{arith}
use native.Mathlib.Nat.{
  div-add-mod, mod-lt, mod-eq_of_lt, add-mul-mod_self_right, mul-lt-mul_of_pos_right,
}
use atc26_shaper_io.Prelude.Bits.{and-fields, and-low_mask, and-zero}
use atc26_shaper_io.Prelude.Powers.{pow-pos, pow-add}

pub and-field_mask : (lo w a : ℕ) → bit_and a ((2 ^ w - 1) * 2 ^ lo) ≡ a / 2 ^ lo % 2 ^ w * 2 ^ lo
and-field_mask lo w a = ground (
  arith,
  pow-pos lo,
  div-add-mod a (2 ^ lo),
  mod-lt a (pow-pos lo),
  and-fields lo (a / 2 ^ lo) (2 ^ w - 1) (a % 2 ^ lo) 0,
  and-low_mask w (a / 2 ^ lo),
  and-zero (a % 2 ^ lo),
)

-- The same mask as a difference.
pub field_mask : (lo w : ℕ) → 2 ^ (lo + w) - 2 ^ lo ≡ (2 ^ w - 1) * 2 ^ lo
field_mask lo w =
    let top : 2 ^ (lo + w) ≡ 2 ^ lo * (2 ^ w - 1 + 1) =
      pow-add lo w ∙ ap (λ (t : ℕ). 2 ^ lo * t) (omega (arith, pow-pos w)) in
    ap (λ (t : ℕ). t - 2 ^ lo) top ∙ less_one (2 ^ lo) (2 ^ w - 1)
  where
    less_one : (p q : ℕ) → p * (q + 1) - p ≡ q * p
    less_one p q = ground arith

module _ (a p : ℕ) where
  spread : (q r : ℕ) → (a * q + r) * p ≡ r * p + q * (a * p)
  spread q r = ground arith

  -- A factor of both goes through a remainder.
  pub mul-mod-mul_right : (v : ℕ) → 0 < a → 0 < p → v * p % (a * p) ≡ v % a * p
  mul-mod-mul_right v pa pp =
      let less : v % a * p < a * p = mul-lt-mul_of_pos_right (mod-lt v pa) pp in
      ap (λ (t : ℕ). t * p % (a * p)) (sym (div-add-mod v a))
      ∙ ap (λ (t : ℕ). t % (a * p)) (spread (v / a) (v % a))
      ∙ add-mul-mod_self_right (v % a * p) (v / a) (a * p)
      ∙ mod-eq_of_lt less
