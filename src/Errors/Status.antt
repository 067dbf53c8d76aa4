-- ===== src/Errors/Status.antt =====
-- Packed status codes are read back, and every status has a text.
use atc26_shaper_io.Prelude.{
  ℕ, zero, suc, ◌+◌, ◌-◌, ◌*◌, ◌/◌, ◌%◌, ◌^◌, ◌<◌, ◌≡◌, ◌≢◌, ◌∙◌, refl, Bool, true, false, ◌&&◌,
  ◌==◌, ltb, leb, Option, none, length, some, List, [], ◌∷◌, bit_or, ne→==, if◌then◌else◌, arith,
}
use Prim.Native.String.{String}
use atc26_shaper_io.Prelude.Bits.{and-low_mask, or-disjoint}
use atc26_shaper_io.Util.{rb}
use atc26_shaper_io.Util.Fields.{rb_lem}
use atc26_shaper_io.Errors.{
  ℤ, pos, neg, err_sct, err_sc, err_status, err_pack, err_unpack_errno, err_unpack_sct,
  err_unpack_sc, lookup_string, nvm_strerror, get_elem?, generic_status,
  generic_status_nvm_commands, command_specific_status, command_specific_status_nvm_commands,
  media_and_data_integrity_nvm_commands,
}

-- The three values that a packed status unpacks to.
abbrev pub Unpacks : ℤ → ℕ → ℕ → ℕ → Type 0
Unpacks status err sct sc =
    (err_unpack_errno status ≡ err) × (err_unpack_sct status ≡ sct) × (err_unpack_sc status ≡ sc)

unpack-neg : (sct sc : ℕ) → sct < 8 → sc < 2 ^ 8 → Unpacks (neg (sct * 2 ^ 8 + sc)) 0 sct sc
unfolding err_unpack_errno err_unpack_sct err_unpack_sc
unpack-neg sct sc h1 h2 = by_value (sct * 2 ^ 8 + sc) refl
  where
    by_value : (v : ℕ) → v ≡ sct * 2 ^ 8 + sc → Unpacks (neg v) 0 sct sc
    by_value zero e = (refl, omega arith, omega arith)
    by_value (suc n) e =
        (refl, and-low_mask 8 (suc n / 2 ^ 8) ∙ omega arith, and-low_mask 8 (suc n) ∙ omega arith)

-- An errno comes back as such with no completion status. With no errno the status code type and the
-- status code of the completion come back, as the NVMe specification places them in its status field.
pub err_pack-Unpacks :
    (status err : ℕ)
    → (err ≢ 0 → (cpl : Option ℕ) → Unpacks (err_pack cpl err) err 0 0)
      × Unpacks (err_pack (some status) 0) 0 (status / 2 ^ 9 % 2 ^ 3) (status / 2 % 2 ^ 8)
      × Unpacks (err_pack none 0) 0 0 0
unfolding err_pack err_status err_sct err_sc err_unpack_errno err_unpack_sct err_unpack_sc
err_pack-Unpacks status err =
    (λ ne cpl. rw (ne→== err 0 ne) (refl, refl, refl), packed, (refl, refl, refl))
  where
    sct : rb status 11 9 % 2 ^ 8 ≡ status / 2 ^ 9 % 2 ^ 3
    sct = omega (arith, rb_lem status 11 9 (omega arith))

    sc : rb status 8 1 % 2 ^ 8 ≡ status / 2 % 2 ^ 8
    sc = omega (arith, rb_lem status 8 1 (omega arith))

    whole :
        bit_or (rb status 11 9 % 2 ^ 8 * 2 ^ 8) (rb status 8 1 % 2 ^ 8)
        ≡ status / 2 ^ 9 % 2 ^ 3 * 2 ^ 8 + status / 2 % 2 ^ 8
    whole =
        or-disjoint 8 (rb status 11 9 % 2 ^ 8) (rb status 8 1 % 2 ^ 8) (omega arith)
        ∙ omega (arith, sct, sc)

    packed :
        Unpacks
          (neg (bit_or (rb status 11 9 % 2 ^ 8 * 2 ^ 8) (rb status 8 1 % 2 ^ 8)))
          0
          (status / 2 ^ 9 % 2 ^ 3)
          (status / 2 % 2 ^ 8)
    packed =
        rw whole
          (unpack-neg (status / 2 ^ 9 % 2 ^ 3) (status / 2 % 2 ^ 8) (omega arith) (omega arith))

in_table : (xs : List String) (i : ℕ) → i < length xs → (m : String) × (get_elem? xs i ≡ some m)
in_table [] i lt = absurd (omega arith)
in_table (x ∷ xs) zero lt = (x, refl)
in_table (x ∷ xs) (suc i) lt = in_table xs i (omega arith)

-- A text for a test's two sides.
either :
    (b : Bool) {x y : Option String}
    → (b ≡ true → (m : String) × (x ≡ some m))
    → (b ≡ false → (m : String) × (y ≡ some m))
    → (m : String) × ((if b then x else y) ≡ some m)
either true f g = f refl
either false f g = g refl

and-upper : (lo sc hi : ℕ) → (leb lo sc && leb sc hi) ≡ true → sc - lo < hi + 1 - lo
and-upper lo sc hi e = ground arith

-- Each lookup by a type and a code stays within the tables, so every status has a text.
pub nvm_strerror-in_tables :
    (strerror : ℕ → String) (status : ℤ)
    → (text : String) × (nvm_strerror strerror status ≡ some text)
unfolding nvm_strerror lookup_string
nvm_strerror-in_tables strerror status =
    let sct = err_unpack_sct status in
    let sc = err_unpack_sc status in
    either ((sct == 0) && (sc == 0)) (λ e. (strerror (err_unpack_errno status), refl))
      (λ e.
        either (sct == 0)
          (λ e.
            either (ltb sc 0x20) (λ l. in_table generic_status sc (ground arith))
              (λ l.
                either (leb 0x80 sc && leb sc 0x84)
                  (λ b. in_table generic_status_nvm_commands (sc - 0x80) (and-upper 0x80 sc 0x84 b))
                  (λ b. (_, refl))))
          (λ e.
            either (sct == 1)
              (λ e.
                either (ltb sc 0x23) (λ l. in_table command_specific_status sc (ground arith))
                  (λ l.
                    either (leb 0x80 sc && leb sc 0x82)
                      (λ b.
                        in_table command_specific_status_nvm_commands (sc - 0x80)
                          (and-upper 0x80 sc 0x82 b))
                      (λ b. (_, refl))))
              (λ e.
                either (sct == 2)
                  (λ e.
                    either (leb 0x80 sc && leb sc 0x87)
                      (λ b.
                        in_table media_and_data_integrity_nvm_commands (sc - 0x80)
                          (and-upper 0x80 sc 0x87 b))
                      (λ b. (_, refl)))
                  (λ e. (_, refl)))))

-- No error and no completion is 0.
pub err_pack-none : err_pack none 0 ≡ pos 0
unfolding err_pack err_status
err_pack-none = refl

pub err_pack-errno : (err : ℕ) → err ≢ 0 → err_pack none err ≡ pos err
unfolding err_pack
err_pack-errno err ne = rw (ne→== err 0 ne) refl
