-- ===== src/HostQueue/Delay.antt =====
-- The time that `_nvm_delay_remain` leaves, in rounds of a millisecond.
use atc26_shaper_io.Prelude.{ℕ, suc, ◌*◌, ◌≤◌, ◌≡◌, arith}
use atc26_shaper_io.HostQueue.{nvm_delay_remain}

pub delay_le :
    (rounds remaining : ℕ)
    → remaining ≤ suc rounds * 1000000
    → nvm_delay_remain remaining ≤ rounds * 1000000
unfolding nvm_delay_remain
delay_le rounds remaining bound = ground arith

pub delay_ge :
    (rounds remaining : ℕ)
    → suc rounds * 1000000 ≤ remaining
    → rounds * 1000000 ≤ nvm_delay_remain remaining
unfolding nvm_delay_remain
delay_ge rounds remaining bound = ground arith

pub one_less :
    (rounds remaining : ℕ)
    → remaining ≡ suc rounds * 1000000
    → nvm_delay_remain remaining ≡ rounds * 1000000
unfolding nvm_delay_remain
one_less rounds remaining e = ground arith
