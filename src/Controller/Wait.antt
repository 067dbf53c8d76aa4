-- ===== src/Controller/Wait.antt =====
-- The waits for CSTS.RDY: they end, and they see a controller that answers in time.
use atc26_shaper_io.Prelude.{
  iterate, ℕ, zero, suc, ◌*◌, ◌≤◌, ◌<◌, ◌≡◌, ◌≢◌, ◌∙◌, refl, Bool, true, false, some, eq→==, ne→==,
  arith,
}
use atc26_shaper_io.HostQueue.{nvm_delay_remain}
use atc26_shaper_io.HostQueue.Delay.{delay_le, delay_ge}
use atc26_shaper_io.Controller.{Registers, csts_rdy, wait_rdy}
use native.Mathlib.Decide.{ℕ_discrete}

module _ (fuel : ℕ) (device : Registers → Registers) (want remaining : ℕ) (regs : Registers) where
  wait_seen :
      csts_rdy regs ≡ want → wait_rdy (suc fuel) device want remaining regs ≡ some (true, regs)
  unfolding wait_rdy
  wait_seen e = rw (eq→== _ _ e) refl

  wait_over :
      csts_rdy regs ≢ want
      → remaining ≡ 0
      → wait_rdy (suc fuel) device want remaining regs ≡ some (false, regs)
  unfolding wait_rdy
  wait_over ne over = rw (ne→== _ _ ne, eq→== _ _ over) refl

  wait_on :
      csts_rdy regs ≢ want
      → remaining ≢ 0
      → wait_rdy (suc fuel) device want remaining regs
        ≡ wait_rdy fuel device want (nvm_delay_remain remaining) (device regs)
  unfolding wait_rdy
  wait_on ne left = rw (ne→== _ _ ne, ne→== _ _ left) refl

-- A wait with time left for `rounds` rounds ends in one more, whatever the controller does.
pub wait_ends :
    (rounds : ℕ) (device : Registers → Registers) (want remaining : ℕ) (regs : Registers)
    → remaining ≤ rounds * 1000000
    → (r : Bool × Registers) × (wait_rdy (suc rounds) device want remaining regs ≡ some r)
wait_ends zero device want remaining regs bound = elim (ℕ_discrete (csts_rdy regs) want) [
  | yes e ↦ (_, wait_seen 0 device want remaining regs e)
  | no ne ↦ (_, wait_over 0 device want remaining regs ne (omega arith))
]
wait_ends (suc rounds) device want remaining regs bound = elim (ℕ_discrete (csts_rdy regs) want) [
  | yes e ↦ (_, wait_seen (suc rounds) device want remaining regs e)
  | no ne ↦ elim (ℕ_discrete remaining 0) [
    | yes over ↦ (_, wait_over (suc rounds) device want remaining regs ne over)
    | no left ↦
        let (r, e) =
          wait_ends rounds device want (nvm_delay_remain remaining) (device regs)
            (delay_le rounds remaining bound) in
        (r, wait_on (suc rounds) device want remaining regs ne left ∙ e)
  ]
]

-- A wait with time for `d` rounds sees a state that the controller reaches in `d` steps.
pub wait_sees :
    (d fuel : ℕ) (device : Registers → Registers) (want remaining : ℕ) (regs : Registers)
    → d < fuel
    → d * 1000000 ≤ remaining
    → csts_rdy (iterate d device regs) ≡ want
    → (k : ℕ) × (wait_rdy fuel device want remaining regs ≡ some (true, iterate k device regs))
      × (csts_rdy (iterate k device regs) ≡ want)
wait_sees d zero device want remaining regs lt time e = absurd (omega arith)
wait_sees zero (suc fuel) device want remaining regs lt time e =
    (0, wait_seen fuel device want remaining regs e, e)
wait_sees (suc d) (suc fuel) device want remaining regs lt time e =
    elim (ℕ_discrete (csts_rdy regs) want) [
      | yes now ↦ (0, wait_seen fuel device want remaining regs now, now)
      | no ne ↦
          let (k, f, g) =
            wait_sees d fuel device want (nvm_delay_remain remaining) (device regs) (omega arith)
              (delay_ge d remaining time) e in
          (suc k, wait_on fuel device want remaining regs ne (omega arith) ∙ f, g)
    ]
