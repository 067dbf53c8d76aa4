-- ===== src/IoQueue/Keys.antt =====
-- The sort keys of the scheduler and the sizes that a request can have.
use atc26_shaper_io.Prelude.{
  ℕ, zero, suc, ◌+◌, ◌-◌, ◌*◌, ◌/◌, ◌%◌, ◌^◌, ◌<◌, ◌≡◌, ◌↔◌, ◌⊎◌, refl, false, ◌==◌, bit_and, arith,
}
use atc26_shaper_io.Prelude.Bits.{and-low_mask, or-disjoint}
use atc26_shaper_io.Prelude.Words.{u8, u64}
use atc26_shaper_io.IoQueue.{
  io_sched_make_sort_key, io_sched_key_byte_offset, io_sched_key_batch_index, ffs_loop, ffsll,
  io_sched_encode_nbytes, io_sched_decode_nbytes,
}
use native.Mathlib.Nat.{pow-suc}

sort_key_lem : (b i : ℕ) → b < 2 ^ 55 → i < 512 → io_sched_make_sort_key b i ≡ b * 512 + i
unfolding io_sched_make_sort_key
sort_key_lem b i hb hi =
    let word : u64 (b * 2 ^ 9) ≡ b * 2 ^ 9 = omega arith in
    let low : bit_and i (2 ^ 9 - 1) ≡ i = ground (arith, and-low_mask 9 i) in
    rw (word, low) (or-disjoint 9 b i (omega arith))

-- Keys of offsets below 2^55 are ordered by the offset, and for one offset by the place in the batch; both
-- are read back from the key.
pub sort_key-ordered :
    (b i c j : ℕ)
    → b < 2 ^ 55
    → c < 2 ^ 55
    → i < 512
    → j < 512
    → ((io_sched_make_sort_key b i < io_sched_make_sort_key c j) ↔ ((b < c) ⊎ ((b ≡ c) × (i < j))))
      × (io_sched_key_byte_offset (io_sched_make_sort_key b i) ≡ b)
      × (io_sched_key_batch_index (io_sched_make_sort_key b i) ≡ i)
unfolding io_sched_key_byte_offset io_sched_key_batch_index
sort_key-ordered b i c j hb hc hi hj =
    rw (sort_key_lem b i hb hi, sort_key_lem c j hc hj)
      (ground arith, omega arith, ground (arith, and-low_mask 9 (b * 512 + i)))

ffs_pow : (k fuel : ℕ) → k < fuel → ffs_loop fuel (2 ^ k) ≡ suc k
unfolding ffs_loop
ffs_pow zero (suc fuel) lt = refl
ffs_pow (suc k) (suc fuel) lt =
    let half : 2 ^ suc k / 2 ≡ 2 ^ k = omega (arith, pow-suc 2 k) in
    let even : (2 ^ suc k % 2 == 1) ≡ false = ground (arith, pow-suc 2 k) in
    let some_bit : (suc k == 0) ≡ false = ground arith in
    rw (even, half, ffs_pow k fuel (omega arith), some_bit) refl
ffs_pow k zero lt = absurd (omega arith)

-- A size that is a power of two below 2^64 comes back from its encoding.
pub encode_nbytes-decodes :
    (k : ℕ) → k < 64 → io_sched_decode_nbytes (io_sched_encode_nbytes (2 ^ k)) ≡ 2 ^ k
unfolding io_sched_encode_nbytes io_sched_decode_nbytes ffsll
encode_nbytes-decodes k lt =
    let word : u8 (suc k + 2 ^ 8 - 1) ≡ k = omega arith in rw (ffs_pow k 64 lt, word) refl
