-- ===== src/Util/Fields.antt =====
-- `_RB` and `_WB`: fields of a word are read back as they were written.
use atc26_shaper_io.Prelude.{ℕ, ◌+◌, ◌-◌, ◌*◌, ◌/◌, ◌%◌, ◌^◌, ◌≤◌, ◌<◌, ◌≡◌, refl, bit_and, arith}
use atc26_shaper_io.Prelude.Masks.{mul-mod-mul_right, and-field_mask, field_mask}
use atc26_shaper_io.Prelude.Powers.{pow-pos, pow-split}
use atc26_shaper_io.Prelude.Words.{u64}
use atc26_shaper_io.Util.{nvm_mask, nvm_mask_part, rb, wb}
use native.Mathlib.Nat.{dvd-mul_left, mul-div_cancel, mod-mod_of_dvd}

-- The mask of the bits from `lo` up to `hi`.
nvm_mask_part_lem : (hi lo : ℕ) → lo ≤ hi → nvm_mask_part hi lo ≡ (2 ^ (hi + 1 - lo) - 1) * 2 ^ lo
unfolding nvm_mask_part nvm_mask
nvm_mask_part_lem hi lo h =
    let whole : lo + (hi + 1 - lo) ≡ hi + 1 = omega arith in
    let e = rw whole at (field_mask lo (hi + 1 - lo)) in
    omega (arith, e, pow-pos lo, pow-pos (hi + 1))

and-mask_part :
    (v hi lo : ℕ)
    → lo ≤ hi
    → bit_and v (nvm_mask_part hi lo) ≡ v / 2 ^ lo % 2 ^ (hi + 1 - lo) * 2 ^ lo
and-mask_part v hi lo h = rw (nvm_mask_part_lem hi lo h) (and-field_mask lo (hi + 1 - lo) v)

-- `_RB` drops the bits below the field and those above it.
pub rb_lem : (v hi lo : ℕ) → lo ≤ hi → rb v hi lo ≡ v / 2 ^ lo % 2 ^ (hi + 1 - lo)
unfolding rb
rb_lem v hi lo h = rw (and-mask_part v hi lo h) (mul-div_cancel _ (pow-pos lo))

-- A shift of a 64-bit word drops the bits that leave it.
shift-u64 : (v lo : ℕ) → lo < 64 → u64 (v * 2 ^ lo) ≡ v % 2 ^ (64 - lo) * 2 ^ lo
shift-u64 v lo h =
    rw (pow-split lo 64 (omega arith))
      (mul-mod-mul_right (2 ^ (64 - lo)) (2 ^ lo) v (pow-pos (64 - lo)) (pow-pos lo))

-- `_WB` cuts the value to the width of the field and shifts it there.
pub wb_lem : (v hi lo : ℕ) → lo ≤ hi → hi < 64 → wb v hi lo ≡ v % 2 ^ (hi + 1 - lo) * 2 ^ lo
unfolding wb
wb_lem v hi lo h small =
    let a = 2 ^ (64 - lo) in
    let w = 2 ^ (hi + 1 - lo) in
    let top : a ≡ 2 ^ (64 - lo - (hi + 1 - lo)) * w =
      pow-split (hi + 1 - lo) (64 - lo) (omega arith) in
    let inner : v % a % w ≡ v % w = mod-mod_of_dvd w v (rw top (dvd-mul_left w _)) in
    rw
      (
        and-mask_part (u64 (v * 2 ^ lo)) hi lo h,
        shift-u64 v lo (omega arith),
        mul-div_cancel (v % a) (pow-pos lo),
        inner,
      )
      refl
