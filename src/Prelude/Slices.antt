-- ===== src/Prelude/Slices.antt =====
-- Laws of `take` and `drop`, and a read after a write.
use Prim.Native.Nat.{ℕ, zero, suc, ◌+◌}
use mathlib.Core.Path.{◌≡◌, refl, ap, ◌∙◌}
use mathlib.Core.List.{List, [], ◌∷◌, ◌++◌}
use mathlib.Core.Bool.{false}
use native.Mathlib.Omega.{arith}
use native.Mathlib.Decide.{dec_lt, ℕ_discrete}
use native.Mathlib.Numerals.{unary_clauses}
use atc26_shaper_io.Prelude.Tests.{eq→==, ne→==, lt→ltb, ◌==◌, ltb, if◌then◌else◌}
use atc26_shaper_io.Prelude.Lists.{
  length, length-set, get_or, get_or-set_self, get_or-set_ne, get_or-default, set, take, drop,
}

module _ {ℓ} {A : Type ℓ} where
  pub drop-drop : (a b : ℕ) (xs : List A) → drop b (drop a xs) ≡ drop (a + b) xs
  drop-drop zero b xs = ap (λ (t : ℕ). drop t xs) (let e : b ≡ 0 + b = omega arith in e)
  drop-drop (suc a) zero [] = simp unary_clauses refl
  drop-drop (suc a) (suc b) [] = simp unary_clauses refl
  drop-drop (suc a) b (x ∷ xs) =
      drop-drop a b xs
      ∙ ap (λ (t : ℕ). drop t (x ∷ xs)) (let e : suc (a + b) ≡ suc a + b = omega arith in e)

  pub take-add : (a b : ℕ) (xs : List A) → take a xs ++ take b (drop a xs) ≡ take (a + b) xs
  take-add zero b xs = ap (λ (t : ℕ). take t xs) (let e : b ≡ 0 + b = omega arith in e)
  take-add (suc a) zero [] = simp unary_clauses refl
  take-add (suc a) (suc b) [] = simp unary_clauses refl
  take-add (suc a) b (x ∷ xs) =
      ap (λ ys. x ∷ ys) (take-add a b xs)
      ∙ ap (λ (t : ℕ). take t (x ∷ xs)) (let e : suc (a + b) ≡ suc a + b = omega arith in e)

  pub take-set : (a : ℕ) (xs : List A) (v : A) → take a (set xs a v) ≡ take a xs
  take-set zero xs v = refl
  take-set (suc a) [] v = refl
  take-set (suc a) (x ∷ xs) v = ap (λ ys. x ∷ ys) (take-set a xs v)

-- What any place holds after a write to place `i`.
pub get_or-set {ℓ} :
    {A : Type ℓ} (xs : List A) (i j : ℕ) (v d : A)
    → get_or (set xs i v) j d
      ≡ (if i == j then (if ltb i (length xs) then v else d) else get_or xs j d)
get_or-set xs i j v d = elim (ℕ_discrete i j) [
  | yes e ↦ elim (dec_lt i (length xs)) [
    | yes lt ↦ rw (eq→== i j e, lt→ltb i (length xs) lt, ← e) (get_or-set_self xs i v d lt)
    | no ge ↦
        let out : ltb i (length xs) ≡ false = ground arith in
        rw (eq→== i j e, out, ← e)
          (get_or-default (set xs i v) i d (omega (arith, length-set xs i v)))
  ]
  | no ne ↦ rw (ne→== i j ne) (get_or-set_ne xs i j v d ne)
]
