-- ===== src/PageCache/Words.antt =====
-- The state word of a page: three flags over a count of users.
use atc26_shaper_io.Prelude.{
  ℕ, ◌+◌, ◌-◌, ◌*◌, ◌/◌, ◌%◌, ◌^◌, ◌<◌, ◌≡◌, ◌∙◌, bit_and, bit_or, bit_xor, arith,
}
use atc26_shaper_io.Prelude.Bits.{
  and-fields, or-fields, xor-fields, and-zero, or-zero, and-low_mask, xor-zero,
}
use atc26_shaper_io.PageCache.{busy, dirty, cnt_mask, disable_busy_mask, disable_busy_enable_valid}

-- A page is not in the cache, in it and the same as on the device, or in it and newer.
pub data Mode : Type 0 where
  missing : Mode
  clean : Mode
  modified : Mode

-- the flags VALID, BUSY and DIRTY of a page that no thread works on
abbrev pub flags : Mode → ℕ
flags missing = 0
flags clean = 4
flags modified = 5

abbrev pub word : ℕ → ℕ → ℕ
word top count = top * 2 ^ 29 + count

module _ (top count : ℕ) (small : count < 2 ^ 29) where
  pub count-word : bit_and (word top count) cnt_mask ≡ count
  count-word = and-low_mask 29 (word top count) ∙ omega arith

  pub busy-word : bit_and (word top count) busy ≡ bit_and top 2 * 2 ^ 29
  busy-word = and-fields 29 top 2 count 0 small (omega arith) ∙ omega (arith, and-zero count)

  pub dirty-word : bit_and (word top count) dirty ≡ bit_and top 1 * 2 ^ 29
  dirty-word = and-fields 29 top 1 count 0 small (omega arith) ∙ omega (arith, and-zero count)

  pub or_busy-word : bit_or (word top count) busy ≡ word (bit_or top 2) count
  or_busy-word = or-fields 29 top 2 count 0 small (omega arith) ∙ omega (arith, or-zero count)

  pub or_dirty-word : bit_or (word top count) dirty ≡ word (bit_or top 1) count
  or_dirty-word = or-fields 29 top 1 count 0 small (omega arith) ∙ omega (arith, or-zero count)

  pub not_busy-word : bit_and (word top count) disable_busy_mask ≡ word (bit_and top 5) count
  not_busy-word =
      and-fields 29 top 5 count (2 ^ 29 - 1) small (omega arith)
      ∙ omega (arith, and-low_mask 29 count)

  pub valid-word : bit_xor (word top count) disable_busy_enable_valid ≡ word (bit_xor top 6) count
  valid-word = xor-fields 29 top 6 count 0 small (omega arith) ∙ omega (arith, xor-zero count)

  pub status-word : bit_and (word top count / 2 ^ 30) 0x03 ≡ top / 2 % 4
  status-word = and-low_mask 2 (word top count / 2 ^ 30) ∙ omega arith
