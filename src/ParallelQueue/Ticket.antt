-- ===== src/ParallelQueue/Ticket.antt =====
-- Tickets of the submission queue: which slot a ticket is for, and when it is that ticket's turn.
use atc26_shaper_io.Prelude.{ℕ, ◌+◌, ◌-◌, ◌*◌, ◌/◌, ◌^◌, ◌≤◌, ◌<◌, ◌≡◌, ◌≢◌, ap, bit_and, arith}
use atc26_shaper_io.Prelude.Bits.{and-low_mask}
use atc26_shaper_io.Prelude.Powers.{pow-pos, pow-split}
use atc26_shaper_io.ParallelQueue.{get_id}
use native.Mathlib.Nat.{
  div-lt_iff_lt-mul, le-div_iff_mul-le, div-add-mod, div-le_self, add-div_right,
}

-- No shift of a 32-bit ticket wraps in `get_id`.
pub get_id-exact : (x k : ℕ) → x < 2 ^ 32 → get_id x k ≡ x / 2 ^ k * 2
unfolding get_id
get_id-exact x k h = omega (arith, div-le_self x (2 ^ k))

-- Two tickets that are for the same slot and wait for the same id are one ticket: so a slot whose word
-- shows that id admits one thread.
pub ticket_of_slot :
    (x y k : ℕ)
    → x < 2 ^ 32
    → y < 2 ^ 32
    → bit_and x (2 ^ k - 1) ≡ bit_and y (2 ^ k - 1)
    → get_id x k ≡ get_id y k
    → x ≡ y
ticket_of_slot x y k hx hy e f = ground (
  arith,
  get_id-exact x k hx,
  get_id-exact y k hy,
  and-low_mask k x,
  and-low_mask k y,
  div-add-mod x (2 ^ k),
  div-add-mod y (2 ^ k),
  ap (λ (t : ℕ). 2 ^ k * (t / 2)) f,
)

-- After the last round of 32-bit tickets there is none.
pub no_next_round :
    (x t k : ℕ) → k ≤ 32 → t < 2 ^ 32 → 2 ^ 32 ≤ x + 2 ^ k → t / 2 ^ k ≢ x / 2 ^ k + 1
no_next_round x t k hi lt last e =
    let rounds = 2 ^ (32 - k) in
    let whole : 2 ^ 32 ≡ rounds * 2 ^ k = pow-split k 32 hi in
    let below : t / 2 ^ k < rounds = (div-lt_iff_lt-mul (pow-pos k)).1 (omega arith) in
    let reached : rounds ≤ (x + 2 ^ k) / 2 ^ k = (le-div_iff_mul-le (pow-pos k)).1 (omega arith) in
    omega (arith, add-div_right x {k = 2 ^ k} (pow-pos k))
