-- ===== src/Command/Prp.antt =====
-- `nvm_prp_list`: one page of addresses.
use atc26_shaper_io.Prelude.{
  ℕ, zero, suc, ◌+◌, ◌≤◌, ◌<◌, ◌≡◌, refl, ap, ◌∙◌, List, [], ◌∷◌, length, length-set, get_or,
  get_or-set_self, get_or-set_ne, take, arith,
}
use atc26_shaper_io.Command.{copy_prps}
use native.Mathlib.Decide.{dec_lt}

pub length-copy_prps :
    (n i : ℕ) (entries ioaddrs : List ℕ) → length (copy_prps n i entries ioaddrs) ≡ length entries
unfolding copy_prps
length-copy_prps zero i entries ioaddrs = refl
length-copy_prps (suc n) i entries ioaddrs =
    length-copy_prps n (i + 1) _ ioaddrs ∙ length-set entries i (get_or ioaddrs i 0)

pub copy_prps-before :
    (n i j : ℕ) (entries ioaddrs : List ℕ)
    → j < i
    → get_or (copy_prps n i entries ioaddrs) j 0 ≡ get_or entries j 0
unfolding copy_prps
copy_prps-before zero i j entries ioaddrs lt = refl
copy_prps-before (suc n) i j entries ioaddrs lt =
    copy_prps-before n (i + 1) j _ ioaddrs (omega arith)
    ∙ get_or-set_ne entries i j (get_or ioaddrs i 0) 0 (λ e. absurd (omega arith))

pub copy_prps-copied :
    (n i j : ℕ) (entries ioaddrs : List ℕ)
    → i ≤ j
    → j < i + n
    → i + n ≤ length entries
    → get_or (copy_prps n i entries ioaddrs) j 0 ≡ get_or ioaddrs j 0
unfolding copy_prps
copy_prps-copied zero i j entries ioaddrs le lt room = absurd (omega arith)
copy_prps-copied (suc n) i j entries ioaddrs le lt room = elim (dec_lt i j) [
  | yes later ↦
      copy_prps-copied n (i + 1) j _ ioaddrs (omega arith) (omega arith)
        (omega (arith, length-set entries i (get_or ioaddrs i 0)))
  | no here ↦
      let same : i ≡ j = omega arith in
      rw (← same) (
        copy_prps-before n (i + 1) i _ ioaddrs (omega arith)
        ∙ get_or-set_self entries i (get_or ioaddrs i 0) 0 (omega arith))
]

-- Lists that agree up to `n` have the same first `n` elements.
pub take-ext :
    (n : ℕ) (xs ys : List ℕ)
    → n ≤ length xs
    → n ≤ length ys
    → ((j : ℕ) → j < n → get_or xs j 0 ≡ get_or ys j 0)
    → take n xs ≡ take n ys
take-ext zero xs ys hx hy same = refl
take-ext (suc n) [] ys hx hy same = absurd (omega arith)
take-ext (suc n) (x ∷ xs) [] hx hy same = absurd (omega arith)
take-ext (suc n) (x ∷ xs) (y ∷ ys) hx hy same =
    let tails = take-ext n xs ys (omega arith) (omega arith) (λ j lt. same (suc j) (omega arith)) in
    let heads : x ≡ y = same 0 (omega arith) in
    ap (λ z. z ∷ take n xs) heads ∙ ap (λ zs. y ∷ zs) tails

-- Filling a page: the first `n` entries are the first `n` addresses.
pub take-copy_prps :
    (n : ℕ) (entries ioaddrs : List ℕ)
    → n ≤ length entries
    → n ≤ length ioaddrs
    → take n (copy_prps n 0 entries ioaddrs) ≡ take n ioaddrs
take-copy_prps n entries ioaddrs room given =
    take-ext n _ ioaddrs (omega (arith, length-copy_prps n 0 entries ioaddrs)) given
      (λ j lt. copy_prps-copied n 0 j entries ioaddrs (omega arith) (omega arith) (omega arith))
