-- ===== src/Util/Pages.antt =====
-- Page arithmetic: rounding to pages of a power-of-two size, the pages that queues need, and where the
-- doorbells of the queues lie.
use atc26_shaper_io.Prelude.{ℕ, ◌+◌, ◌-◌, ◌*◌, ◌/◌, ◌%◌, ◌^◌, ◌≤◌, ◌<◌, ◌≡◌, ap, ◌∙◌, refl, arith}
use atc26_shaper_io.Prelude.Masks.{and-field_mask, field_mask}
use atc26_shaper_io.Prelude.Powers.{pow-pos, pow_mono, pow-split}
use atc26_shaper_io.Prelude.Words.{u16}
use atc26_shaper_io.Util.{
  page_mask, addr_mask, page_align, ctrl_pages, sq_pages, cq_pages, sq_dbl, cq_dbl,
}
use native.Mathlib.Nat.{
  mul-div_cancel, mod-eq_of_lt, div-lt_iff_lt-mul, div-mul-le_self, lt-div-mul-add, mul-mod_left,
  mul-div-mul_right, mul-le-mul_right, mul-lt-mul_of_pos_right,
}

module _ (k : ℕ) (h : k ≤ 64) where
  page_mask_lem : page_mask (2 ^ k) ≡ (2 ^ (64 - k) - 1) * 2 ^ k
  unfolding page_mask
  page_mask_lem =
      let whole : k + (64 - k) ≡ 64 = omega arith in
      let e = rw whole at (field_mask k (64 - k)) in omega (arith, e, pow-pos k, pow_mono k 64 h)

  -- Rounding an address down to its page.
  pub addr_mask_lem : (addr : ℕ) → addr < 2 ^ 64 → addr_mask addr (2 ^ k) ≡ addr / 2 ^ k * 2 ^ k
  unfolding addr_mask
  addr_mask_lem addr word = rw (page_mask_lem, and-field_mask k (64 - k) addr) (rw small refl)
    where
      small : addr / 2 ^ k % 2 ^ (64 - k) ≡ addr / 2 ^ k
      small = mod-eq_of_lt ((div-lt_iff_lt-mul (pow-pos k)).1 (rw (← pow-split k 64 h) word))

  module _ (size : ℕ) (fits : size + 2 ^ k ≤ 2 ^ 64) where
    page_align_lem : page_align size (2 ^ k) ≡ (size + 2 ^ k - 1) / 2 ^ k * 2 ^ k
    unfolding page_align addr_mask
    page_align_lem =
        let small : size + 2 ^ k - 1 < 2 ^ 64 = omega (arith, pow-pos k) in
        ap (λ (t : ℕ). addr_mask t (2 ^ k)) (mod-eq_of_lt small) ∙ addr_mask_lem _ small

    -- A size is aligned up to the least multiple of the page size that is no smaller, and the number of
    -- controller pages is the number of pages in it.
    pub page_align-least :
        (page_align size (2 ^ k) % 2 ^ k ≡ 0)
        × (size ≤ page_align size (2 ^ k))
        × (page_align size (2 ^ k) < size + 2 ^ k)
        × (ctrl_pages (2 ^ k) size * 2 ^ k ≡ page_align size (2 ^ k))
    unfolding ctrl_pages
    page_align-least =
        let n = (size + 2 ^ k - 1) / 2 ^ k in
        rw page_align_lem (
          mul-mod_left n (2 ^ k),
          omega (arith, lt-div-mul-add {a = size + 2 ^ k - 1} (pow-pos k)),
          omega (arith, div-mul-le_self (size + 2 ^ k - 1) (2 ^ k), pow-pos k),
          ap (λ (t : ℕ). t * 2 ^ k) (mul-div_cancel n (pow-pos k)),
        )

-- `n` entries to a page: `pages` of them hold `qs` entries, and one page less does not.
abbrev pub Enough : (n entry_size qs pages : ℕ) → Type 0
Enough n entry_size qs pages =
    (qs * entry_size ≤ pages * (n * entry_size))
    × ((pages - 1) * (n * entry_size) < qs * entry_size)

module _ (n es qs : ℕ) (some_entries : 0 < n) (some_bytes : 0 < es) (lo : 1 ≤ qs) where
  whole_pages : Enough n es qs ((qs - 1) * es / (n * es) + 1)
  whole_pages =
      let p = (qs - 1) / n in
      let same : (qs - 1) * es / (n * es) ≡ p = mul-div-mul_right (qs - 1) n some_bytes in
      let up : qs ≤ (p + 1) * n = grind (arith, lt-div-mul-add {a = qs - 1} some_entries) in
      let down : p * n < qs = omega (arith, div-mul-le_self (qs - 1) n) in
      let one : p + 1 - 1 ≡ p = omega arith in
      rw same (
        rw (assoc (p + 1)) at (mul-le-mul_right es up),
        rw (one, ← assoc p) (mul-lt-mul_of_pos_right down some_bytes),
      )
    where
      assoc : (t : ℕ) → t * n * es ≡ t * (n * es)
      assoc t = ground arith

module _ (n qs : ℕ) (some_entries : 0 < n) (lo : 1 ≤ qs) (hi : qs ≤ 65536) where
  count_u16 : u16 (qs - 1) ≡ qs - 1
  count_u16 = omega arith

  -- For a controller page of whole commands (and so of whole completions) the pages that a queue of up
  -- to 65536 entries is given are just enough.
  pub queue_pages-Enough :
      Enough n 64 qs (sq_pages (n * 64) qs) × Enough (n * 4) 16 qs (cq_pages (n * 4 * 16) qs)
  unfolding sq_pages cq_pages
  queue_pages-Enough = rw count_u16 (
    whole_pages n 64 qs some_entries (omega arith) lo,
    whole_pages (n * 4) 16 qs (omega arith) (omega arith) lo,
  )

-- Doorbells are four bytes wide and do not overlap: each queue's submission doorbell comes before its
-- completion doorbell, and that before all doorbells of queues with a higher number.
pub doorbells_apart :
    (p dstrd x y : ℕ)
    → x < y
    → (sq_dbl p x dstrd + 4 ≤ cq_dbl p x dstrd) × (cq_dbl p x dstrd + 4 ≤ sq_dbl p y dstrd)
unfolding sq_dbl cq_dbl
doorbells_apart p dstrd x y lt =
    let stride = 4 * 2 ^ dstrd in
    let wide : 4 ≤ stride = omega (arith, pow-pos dstrd) in
    let up : (2 * x + 1 + 1) * stride ≤ 2 * y * stride = mul-le-mul_right stride (omega arith) in
    (ground arith, ground arith)
