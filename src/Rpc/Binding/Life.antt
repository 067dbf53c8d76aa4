-- ===== src/Rpc/Binding/Life.antt =====
-- A reference takes one reference to the controller and returns it.
use atc26_shaper_io.Prelude.{
  ℕ, ◌+◌, ◌<◌, ◌≡◌, ◌^◌, refl, ap, Bool, not, ◌==◌, [], if_either, Option,
}
use atc26_shaper_io.Controller.{Container}
use atc26_shaper_io.Dma.{Mapping, Space, Outcomes, Result}
use atc26_shaper_io.Dma.Undo.{
  holding, one_more, get_ctrl-one_more, get_ctrl-refused, put_ctrl-back, Outcome,
}
use atc26_shaper_io.Rpc.{Reference, unbound}
use atc26_shaper_io.Rpc.Binding.{
  nvm_ref_get, nvm_ref_put, release_handles, release_bound, release_loop,
}
use native.Mathlib.Decide.{ℕ_discrete}

abbrev pub blank : Reference
blank = record { handles = []; bound = unbound }

module _ (before : Space) (c : Container) (pos : 0 < c.count) (small : c.count + 1 < 2 ^ 32) where
  pub nvm_ref_get-Outcome :
      (env : Outcomes) (memory : Bool) (mutex : ℕ)
      → Outcome
          (holding before c)
          (λ ref s. (ref ≡ blank) × (s ≡ holding before (one_more c)))
          (nvm_ref_get env memory mutex (holding before c))
  unfolding nvm_ref_get Outcome
  nvm_ref_get-Outcome env memory mutex = elim (ℕ_discrete env.ctrl_lock 0) [
    | yes free ↦
        rw (free, get_ctrl-one_more before c pos small)
          (if_either P (not memory) (λ e. put_ctrl-back before c pos small)
            (λ e.
              if_either P (mutex == 0) (λ e. (refl, refl)) (λ e. put_ctrl-back before c pos small)))
    | no busy ↦ rw (get_ctrl-refused env.ctrl_lock before c busy) refl
  ]
    where
      P : Result Reference → Type 0
      P = Outcome (holding before c) (λ ref s. (ref ≡ blank) × (s ≡ holding before (one_more c)))

  pub nvm_ref_put-back :
      (md : Option Mapping)
      → nvm_ref_put blank md (holding before (one_more c)) ≡ ([], md, holding before c)
  unfolding nvm_ref_put release_handles release_bound release_loop
  nvm_ref_put-back md = ap (λ (s : Space). ([], md, s)) (put_ctrl-back before c pos small)
