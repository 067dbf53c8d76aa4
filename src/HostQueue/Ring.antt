-- ===== src/HostQueue/Ring.antt =====
-- A ring of `qs` slots used over and over: the slot and the phase tag of the `n`-th use.
use atc26_shaper_io.Prelude.{
  ℕ, zero, suc, ◌+◌, ◌-◌, ◌*◌, ◌/◌, ◌%◌, ◌≤◌, ◌<◌, ◌≡◌, ◌≢◌, sym, ap, ◌∙◌, ◌==◌, if◌then◌else◌,
  eq→==, ne→==, arith,
}
use atc26_shaper_io.Prelude.Words.{u16, u32, sub_u32}
use atc26_shaper_io.HostQueue.{lnot}
use native.Mathlib.Nat.{
  div-add-mod, mod-lt, mod-eq_of_lt, mod_self, mul-add-mod_self_left, add-mul-div_left,
  div-eq_of_lt, div-eq_of_eq-mul_left, add-mul-mod_self_left, mod-add-mod, mod-eq-sub-mod,
}
use native.Mathlib.Decide.{dec_lt, ℕ_discrete}

-- The phase tag of the `n`-th use: 1 in the first round, and turned over with each round.
abbrev pub tag : ℕ → ℕ → ℕ
tag qs n = lnot (n / qs % 2)

module _ (qs n : ℕ) (pos : 0 < qs) where
  parts : qs * (n / qs) + n % qs ≡ n
  parts = div-add-mod n qs

  split_next : n + 1 ≡ n % qs + 1 + qs * (n / qs)
  split_next = omega (arith, parts)

  mod_next : (n + 1) % qs ≡ (n % qs + 1) % qs
  mod_next = ap (λ (t : ℕ). t % qs) split_next ∙ add-mul-mod_self_left (n % qs + 1) qs (n / qs)

  div_next : (n + 1) / qs ≡ (n % qs + 1) / qs + n / qs
  div_next = ap (λ (t : ℕ). t / qs) split_next ∙ add-mul-div_left (n % qs + 1) (n / qs) pos

  module _ (inside : n % qs + 1 ≢ qs) where
    less : n % qs + 1 < qs
    less = omega (arith, mod-lt n pos, inside)

    pub mod-inside : (n + 1) % qs ≡ n % qs + 1
    mod-inside = mod_next ∙ mod-eq_of_lt less

    div-inside : (n + 1) / qs ≡ n / qs
    div-inside = omega (arith, div_next, div-eq_of_lt less)

    pub tag-inside : tag qs (n + 1) ≡ tag qs n
    tag-inside = ap (λ (t : ℕ). lnot (t % 2)) div-inside

  module _ (last : n % qs + 1 ≡ qs) where
    pub mod-last : (n + 1) % qs ≡ 0
    mod-last = mod_next ∙ ap (λ (t : ℕ). t % qs) last ∙ mod_self qs

    div-last : (n + 1) / qs ≡ n / qs + 1
    div-last =
        omega (
          arith,
          div_next,
          div-eq_of_eq-mul_left {n = qs} {m = n % qs + 1} {k = 1} pos (omega arith),
        )

    pub tag-last : tag qs (n + 1) ≡ lnot (tag qs n)
    tag-last = ap (λ (t : ℕ). lnot (t % 2)) div-last ∙ turned (n / qs)
      where
        turned : (t : ℕ) → lnot ((t + 1) % 2) ≡ lnot (lnot (t % 2))
        turned t = ground arith

  -- The step of a head or a tail goes to the slot of the next use.
  pub next_slot :
      qs ≤ 65536 → (if u32 (n % qs + 1) == qs then 0 else u32 (n % qs + 1)) ≡ (n + 1) % qs
  next_slot hi =
      let small : u32 (n % qs + 1) ≡ n % qs + 1 = omega (arith, mod-lt n pos) in
      rw small (elim (ℕ_discrete (n % qs + 1) qs) [
        | yes last ↦ rw (eq→== _ _ last) (sym (mod-last last))
        | no inside ↦ rw (ne→== _ _ inside) (sym (mod-inside inside))
      ])

less_one : (qs c : ℕ) → 0 < c → qs * (c - 1) + qs ≡ qs * c
less_one qs zero lt = absurd (omega arith)
less_one qs (suc c) lt = let e : suc c - 1 ≡ c = omega arith in rw e (ground arith)

-- The number of entries between head and tail, where the ring's size divides 65536.
module _ (qs h e c : ℕ) (hi : qs ≤ 65536) (divides : 65536 ≡ qs * c) (near : e < qs) where
  abbrev s : ℕ
  s = h % qs

  abbrev r : ℕ
  r = (h + e) % qs

  tail_slot : r ≡ (s + e) % qs
  tail_slot = sym (mod-add-mod h qs e)

  ahead : s + e < qs → u16 (sub_u32 r s) % qs ≡ e
  ahead lt =
      let same : r ≡ s + e = tail_slot ∙ mod-eq_of_lt lt in
      let word : u16 (sub_u32 r s) ≡ e = omega arith in
      ap (λ (t : ℕ). t % qs) word ∙ mod-eq_of_lt near

  wrapped : qs ≤ s + e → u16 (sub_u32 r s) % qs ≡ e
  wrapped ge =
      let small : s < qs = mod-lt h (omega arith) in
      let same : r ≡ s + e - qs =
        tail_slot
        ∙ mod-eq-sub-mod {n = s + e} {m = qs} ge
        ∙ mod-eq_of_lt {n = s + e - qs} {m = qs} (omega arith) in
      let some_laps : 0 < c = ground arith in
      let less : qs * (c - 1) + qs ≡ qs * c = less_one qs c some_laps in
      let word : u16 (sub_u32 r s) ≡ qs * (c - 1) + e = omega arith in
      ap (λ (t : ℕ). t % qs) word ∙ mul-add-mod_self_left qs (c - 1) e ∙ mod-eq_of_lt near

  pub count-u16 : u16 (sub_u32 r s) % qs ≡ e
  count-u16 = elim (dec_lt (s + e) qs) [ yes lt ↦ ahead lt | no ge ↦ wrapped (omega arith) ]
