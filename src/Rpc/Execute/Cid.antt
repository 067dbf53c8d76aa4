-- ===== src/Rpc/Execute/Cid.antt =====
-- `NVM_DEFAULT_CID`: the identifiers of the commands on a queue.
use atc26_shaper_io.Prelude.{
  ℕ, zero, suc, ◌+◌, ◌-◌, ◌*◌, ◌/◌, ◌%◌, ◌≤◌, ◌<◌, ◌≡◌, ◌≢◌, ◌∙◌, sym, ap, arith,
}
use atc26_shaper_io.Types.{NvmQueue}
use atc26_shaper_io.HostQueue.{lnot}
use atc26_shaper_io.HostQueue.Submission.{Runs}
use atc26_shaper_io.ParallelQueue.Marks.{mod-ne}
use atc26_shaper_io.Rpc.Execute.{nvm_default_cid}
use native.Mathlib.Nat.{mod-lt, mod-eq_of_lt, div-add-mod, add-mul-mod_self_left}

split_rounds : (qs t : ℕ) → 0 < qs → t % qs + t / qs % 2 * qs ≡ t % (2 * qs)
split_rounds qs t pos =
    let r = t % qs in
    let q = t / qs in
    let low : r + q % 2 * qs < 2 * qs = below (q % 2) (omega arith) in
    let halves : q ≡ 2 * (q / 2) + q % 2 = omega arith in
    let whole : t ≡ r + q % 2 * qs + 2 * qs * (q / 2) =
      omega (arith, div-add-mod t qs, ap (λ (u : ℕ). qs * u) halves) in
    sym (mod-eq_of_lt low)
    ∙ sym (add-mul-mod_self_left (r + q % 2 * qs) (2 * qs) (q / 2))
    ∙ ap (λ (u : ℕ). u % (2 * qs)) (sym whole)
  where
    below : (b : ℕ) → b < 2 → t % qs + b * qs < 2 * qs
    below zero lt = omega (arith, mod-lt t pos)
    below (suc zero) lt = omega (arith, mod-lt t pos)
    below (suc (suc b)) lt = absurd (omega arith)

round : (u : ℕ) → lnot (lnot (u % 2)) ≡ u % 2
round u = ground arith

-- The identifier is the number of the command, modulo twice the queue's size.
pub nvm_default_cid_lem :
    (sq : NvmQueue) (h t : ℕ) → sq.qs ≤ 32768 → Runs sq h t → nvm_default_cid sq ≡ t % (2 * sq.qs)
unfolding nvm_default_cid
nvm_default_cid_lem sq h t small is =
    let pos : 0 < sq.qs = omega (arith, is.lo) in
    let turn : lnot sq.phase ≡ t / sq.qs % 2 = ap lnot is.phase ∙ round (t / sq.qs) in
    let sum : sq.tail + lnot sq.phase * sq.qs ≡ t % (2 * sq.qs) =
      ap (λ (u : ℕ). u + lnot sq.phase * sq.qs) is.tail
      ∙ ap (λ (u : ℕ). t % sq.qs + u * sq.qs) turn
      ∙ split_rounds sq.qs t pos in
    let bound : t % (2 * sq.qs) < 2 * sq.qs = mod-lt t (omega arith) in
    rw sum (mod-eq_of_lt (omega arith))

-- The identifiers of two commands that are fewer than a round apart are different, on a queue of at most
-- 32768 entries: so are those of all commands that a queue can hold.
pub nvm_default_cid-apart :
    (sq sq' : NvmQueue) (h h' t t' : ℕ)
    → sq.qs ≤ 32768
    → sq'.qs ≡ sq.qs
    → Runs sq h t
    → Runs sq' h' t'
    → t < t'
    → t' - t < sq.qs
    → nvm_default_cid sq ≢ nvm_default_cid sq'
nvm_default_cid-apart sq sq' h h' t t' small same is is' lt near e =
    let there : t + (t' - t) ≡ t' = omega arith in
    let apart : t % (2 * sq.qs) ≢ t' % (2 * sq.qs) =
      rw there at (mod-ne (2 * sq.qs) t (t' - t) (omega arith) (omega arith)) in
    apart (
      sym (nvm_default_cid_lem sq h t small is)
      ∙ e
      ∙ nvm_default_cid_lem sq' h' t' (omega arith) is'
      ∙ ap (λ (u : ℕ). t' % (2 * u)) same)
