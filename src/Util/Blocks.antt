-- ===== src/Util/Blocks.antt =====
-- Numbers of pages and blocks, and the addresses of the pages of a buffer.
use atc26_shaper_io.Prelude.{ℕ, ◌+◌, ◌*◌, ◌/◌, ◌%◌, ◌^◌, ◌≤◌, ◌<◌, ◌≡◌, ◌∙◌, arith}
use atc26_shaper_io.Prelude.Words.{u64}
use atc26_shaper_io.Util.{page_to_block, block_to_page, addr_offset, addr_mask}
use atc26_shaper_io.Util.Pages.{addr_mask_lem}
use native.Mathlib.Nat.{
  mod-eq_of_lt, mul-div_cancel_left, add-mul-mod_self_left, div-add-mod, mul-pos,
}

-- A page of `n` blocks: its first block's number is `n` times its own, and leads back to it.
pub page_block-round_trip :
    (block_size n pageno : ℕ)
    → 0 < block_size
    → 0 < n
    → block_size * n * pageno < 2 ^ 64
    → (page_to_block (block_size * n) block_size pageno ≡ n * pageno)
      × (block_to_page (block_size * n) block_size (n * pageno) ≡ pageno)
unfolding page_to_block block_to_page
page_block-round_trip block_size n pageno wide some_blocks fits =
    let word : u64 (block_size * n * pageno) ≡ block_size * n * pageno = mod-eq_of_lt fits in
    let same : block_size * (n * pageno) ≡ block_size * n * pageno = ground arith in
    (
      rw (word, ← same) (mul-div_cancel_left (n * pageno) wide),
      rw (same, word) (mul-div_cancel_left pageno pos),
    )
  where
    pos : 0 < block_size * n
    pos = mul-pos wide some_blocks

-- The pages of an aligned buffer are aligned.
pub addr_offset-aligned :
    (k addr pageno : ℕ)
    → k ≤ 64
    → addr % 2 ^ k ≡ 0
    → addr + 2 ^ k * pageno < 2 ^ 64
    → addr_mask (addr_offset addr (2 ^ k) pageno) (2 ^ k) ≡ addr + 2 ^ k * pageno
unfolding addr_offset
addr_offset-aligned k addr pageno h aligned fits =
    let word : u64 (addr + 2 ^ k * pageno) ≡ addr + 2 ^ k * pageno = mod-eq_of_lt fits in
    let none_left : (addr + 2 ^ k * pageno) % 2 ^ k ≡ 0 =
      add-mul-mod_self_left addr (2 ^ k) pageno ∙ aligned in
    let whole : (addr + 2 ^ k * pageno) / 2 ^ k * 2 ^ k ≡ addr + 2 ^ k * pageno =
      ground (arith, div-add-mod (addr + 2 ^ k * pageno) (2 ^ k)) in
    rw word (addr_mask_lem k h (addr + 2 ^ k * pageno) fits ∙ whole)
