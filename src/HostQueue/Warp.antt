-- ===== src/HostQueue/Warp.antt =====
-- `nvm_sq_enqueue_n`: the slots of `n` threads that enqueue together, call after call.
use atc26_shaper_io.Prelude.{
  ℕ, ◌+◌, ◌-◌, ◌*◌, ◌%◌, ◌^◌, ◌≤◌, ◌<◌, ◌≡◌, refl, sym, ap, ◌∙◌, true, false, none, some, leb, ◌==◌,
  if◌then◌else◌, arith,
}
use atc26_shaper_io.Prelude.Words.{u32}
use atc26_shaper_io.Types.{NvmQueue}
use atc26_shaper_io.HostQueue.{nvm_sq_enqueue_n}
use native.Mathlib.Nat.{mod-eq_of_lt, mod-eq-sub-mod, mul-lt-mul_of_pos_right}
use native.Mathlib.Decide.{dec_lt}

-- the address of slot `x`
abbrev pub entry : NvmQueue → ℕ → ℕ
entry sq x = sq.vaddr + sq.es * x

-- Stepping `n` entries on from slot `x`, and back by the whole ring if that leaves it.
module _ (v e q x n : ℕ) (wide : 0 < e) where
  stepped : e * x + n * e ≡ (x + n) * e
  stepped = ground arith

  abbrev placed : ℕ
  placed =
      let cmd = v + e * x + n * e in
      let end = v + q * e in if leb end cmd then v + (cmd - end) else cmd

  placed-inside : x + n < q → placed ≡ v + e * (x + n)
  placed-inside lt =
      let less : (x + n) * e < q * e = mul-lt-mul_of_pos_right lt wide in
      let before : leb (v + q * e) (v + e * x + n * e) ≡ false = ground (arith, stepped) in
      rw before (ground (arith, stepped))

  placed-past : q ≤ x + n → placed ≡ v + e * (x + n - q)
  placed-past ge =
      let y = x + n - q in
      let whole : y + q ≡ x + n = omega arith in
      let sum : (y + q) * e ≡ y * e + q * e = ground arith in
      let cut : (x + n) * e ≡ y * e + q * e = ap (λ (t : ℕ). t * e) (sym whole) ∙ sum in
      let swap : e * y ≡ y * e = ground arith in
      let beyond : leb (v + q * e) (v + e * x + n * e) ≡ true = ground (arith, stepped) in
      rw beyond (omega (arith, stepped))

module _ (sq : NvmQueue) (n i : ℕ) (fits : n < sq.qs) (wide : 0 < sq.es)
    (word : sq.tail + n < 2 ^ 32) where
  abbrev after : NvmQueue
  after = if i == 0 then record sq { tail = (sq.tail + n) % sq.qs } else sq

  few : leb sq.qs n ≡ false
  few = ground arith

  moved : (x : ℕ) → x < sq.qs → placed sq.vaddr sq.es sq.qs x n wide ≡ entry sq ((x + n) % sq.qs)
  moved x lt = elim (dec_lt (x + n) sq.qs) [
    | yes inside ↦
        placed-inside sq.vaddr sq.es sq.qs x n wide inside
        ∙ ap (λ (t : ℕ). entry sq t) (sym (mod-eq_of_lt inside))
    | no past ↦
        let ge : sq.qs ≤ x + n = omega arith in
        let slot : (x + n) % sq.qs ≡ x + n - sq.qs =
          mod-eq-sub-mod {n = x + n} {m = sq.qs} ge
          ∙ mod-eq_of_lt {n = x + n - sq.qs} {m = sq.qs} (omega arith) in
        placed-past sq.vaddr sq.es sq.qs x n wide ge ∙ ap (λ (t : ℕ). entry sq t) (sym slot)
  ]

  -- The first call places thread `i` in slot `i`, each further call `n` slots on from its last slot,
  -- round the ring. Only thread 0 moves the tail, by `n`.
  pub nvm_sq_enqueue_n_lem :
      (nvm_sq_enqueue_n sq none n i ≡ (some (entry sq i), after))
      × ((x : ℕ)
          → x < sq.qs
          → nvm_sq_enqueue_n sq (some (entry sq x)) n i
            ≡ (some (entry sq ((x + n) % sq.qs)), after))
  unfolding nvm_sq_enqueue_n
  nvm_sq_enqueue_n_lem =
      let exact : u32 (sq.tail + n) ≡ sq.tail + n = mod-eq_of_lt word in
      (rw (few, exact) refl, λ x lt. rw (few, exact) (ap (λ (a : ℕ). (some a, after)) (moved x lt)))
