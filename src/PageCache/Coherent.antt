-- ===== src/PageCache/Coherent.antt =====
-- When a cache stands for a memory `m`: each page's content is in its frame if the page is in the cache,
-- and on its devices unless it has been modified.
use atc26_shaper_io.Prelude.{ℕ, ◌-◌, ◌*◌, ◌^◌, ◌<◌, ◌≡◌, ◌≢◌, ◌⊎◌, zero, suc}
use atc26_shaper_io.PageCache.{Cache, Device, free, unlocked, all_ctrls}
use atc26_shaper_io.PageCache.Words.{Mode, missing, modified, flags, word}
use atc26_shaper_io.PageCache.Memory.{Layout, In, Serves, place, gaddr}

-- a page whose state word is as it says
abbrev pub Never : ℕ → ℕ → Type 0
Never r a = zero ≡ suc zero

abbrev pub At : ℕ → ℕ → ℕ → ℕ → Type 0
At range pg r a = (r ≡ range) × (a ≡ pg)

module _ {Disk Content : Type 0} (dev : Device Disk Content) (y : Layout) where
  abbrev pub Frozen : (c : Cache Disk Content) → Type 0
  Frozen c =
      (c.n_pages ≡ y.n_pages)
      × (c.n_ctrls ≡ y.n_ctrls)
      × (c.n_ranges_bits ≡ y.bits)
      × (c.n_ranges_mask ≡ 2 ^ y.bits - 1)
      × (c.n_blocks_per_page ≡ y.blocks)
      × (c.ranges_dists ≡ y.dists)
      × (c.ranges_page_starts ≡ y.starts)
      × (c.evict_ctrl_override ≡ all_ctrls)
      × (c.read_ctrl_override ≡ all_ctrls)

  -- Cache page `p` holds page `a` of range `r`.
  abbrev pub Holds : Cache Disk Content → (ℕ → ℕ → Mode) → ℕ → ℕ → ℕ → Type 0
  Holds c mode p r a =
      In y r a × (c.page_translation p ≡ gaddr y r a) × (mode r a ≢ missing) × (c.offset r a ≡ p)

  -- `Open` are pages that a thread works on, and `hole` is a cache page that it has won.
  pub record IsCache (c : Cache Disk Content) (m : ℕ → ℕ → Content) (mode : ℕ → ℕ → Mode)
      (refs : ℕ → ℕ → ℕ) (Open : ℕ → ℕ → Type 0) (hole : ℕ) : Type 0 where
    pub frozen : Frozen c
    pub words : (r a : ℕ) → In y r a → ¬ Open r a → c.state r a ≡ word (flags (mode r a)) (refs r a)
    pub few : (r a : ℕ) → In y r a → refs r a < 2 ^ 29
    pub held :
        (r a : ℕ)
        → In y r a
        → mode r a ≢ missing
        → (c.offset r a < y.n_pages)
          × (c.page_take_lock (c.offset r a) ≡ unlocked)
          × (c.page_translation (c.offset r a) ≡ gaddr y r a)
    pub in_frame : (r a : ℕ) → In y r a → mode r a ≢ missing → c.frame (c.offset r a) ≡ m r a
    pub on_disk :
        (r a ctrl : ℕ)
        → In y r a
        → mode r a ≢ modified
        → Serves y r a ctrl
        → dev.read c.disk ctrl (place y r a * y.blocks) y.blocks ≡ m r a
    pub owned :
        (p : ℕ)
        → p < y.n_pages
        → p ≢ hole
        → (c.page_take_lock p ≡ free)
          ⊎ ((c.page_take_lock p ≡ unlocked) × ((r : ℕ) × (a : ℕ) × Holds c mode p r a))
