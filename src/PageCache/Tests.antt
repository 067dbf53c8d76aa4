-- ===== src/PageCache/Tests.antt =====
-- An empty page cache of two pages over one device, one block to a page.
use atc26_shaper_io.Prelude.{ℕ, ◌+◌, ◌*◌, ◌/◌, ◌≡◌, inl, inr, refl, true, some, arith}
use atc26_shaper_io.PageCache.{
  Cache, Device, put2, stripe, free, all_ctrls, acquire_page, release_page, get_backing_page,
}
use atc26_shaper_io.PageCache.Words.{missing}
use atc26_shaper_io.PageCache.Memory.{IsDevice, Layout, IsLayout, put2_self, put2-ne}
use atc26_shaper_io.PageCache.Coherent.{Never, IsCache}
use atc26_shaper_io.PageCache.Acquire.{Acquired}
use atc26_shaper_io.PageCache.Miss.{acquire_page-Acquired}
use atc26_shaper_io.PageCache.Hit.{release_page-IsCache}

-- a device with a number in each block
abbrev device : Device (ℕ → ℕ → ℕ) ℕ
device = record { read = λ d c lba n. d c lba; write = λ d c lba n x. put2 d c lba x }

device-IsDevice : IsDevice device
device-IsDevice = record {
  read-written = λ d c lba n x wide. put2_self d c lba x;
  read-other = λ d c lba n x c' lba' wide other. elim other [
    | inl ne ↦ put2-ne d c lba x c' lba' (inl ne)
    | inr apart ↦ put2-ne d c lba x c' lba' (
        inr (λ e. elim apart [
          | inl before ↦ absurd (omega arith)
          | inr after ↦ absurd (omega arith)
        ]))
  ];
}

abbrev layout : Layout
layout = record {
  n_pages = 2;
  n_ctrls = 1;
  bits = 1;
  blocks = 1;
  dists = λ r. stripe;
  starts = λ r. r * 100;
  count = λ r. 100;
}

layout-IsLayout : IsLayout layout
unfolding get_backing_page
layout-IsLayout = record {
  some_pages = omega arith;
  some_ctrls = omega arith;
  some_blocks = omega arith;
  few_ctrls = omega arith;
  words = λ r a i. let (_, la) = i in omega arith;
  apart = λ r a s x ctrl i j away serves also e.
      let (lr, la) = i in
      let (ls, lx) = j in
      let whole : (t : ℕ) → t / 1 ≡ t = λ t. omega arith in
      let same : r * 100 + a ≡ s * 100 + x = rw (whole a, whole x) at e in
      elim away [ inl ne ↦ ne (omega arith) | inr ne ↦ ne (omega arith) ];
}

-- the memory and the cache: page `a` of range `r` has the content that the device holds
abbrev memory : ℕ → ℕ → ℕ
memory r a = r * 100 + a

abbrev empty : Cache (ℕ → ℕ → ℕ) ℕ
empty = record {
  n_pages = 2;
  n_ctrls = 1;
  n_ranges_bits = 1;
  n_ranges_mask = 1;
  n_blocks_per_page = 1;
  evict_ctrl_override = all_ctrls;
  read_ctrl_override = all_ctrls;
  ranges_dists = λ r. stripe;
  ranges_page_starts = λ r. r * 100;
  page_ticket = 0;
  ctrl_counter = 0;
  page_take_lock = λ p. free;
  page_translation = λ p. 0;
  state = λ r a. 0;
  offset = λ r a. 0;
  frame = λ p. 0;
  disk = λ ctrl lba. lba;
}

empty-IsCache : IsCache device layout empty memory (λ r a. missing) (λ r a. 0) Never 2
unfolding get_backing_page
empty-IsCache = record {
  frozen = (refl, refl, refl, refl, refl, refl, refl, refl, refl);
  words = λ r a i closed. refl;
  few = λ r a i. omega arith;
  held = λ r a i present. absurd (present refl);
  in_frame = λ r a i present. absurd (present refl);
  on_disk = λ r a ctrl i old serves. omega arith;
  owned = λ p lt other. inl refl;
}

acquire_page-Acquired_example :
    (page_trans : ℕ) × (c' : Cache (ℕ → ℕ → ℕ) ℕ) × (acquire_page device 2 empty 1 7 3 true
      ≡ some (page_trans, c'))
    × Acquired device layout memory (λ r a. missing) (λ r a. 0) 1 7 3 true empty page_trans c'
acquire_page-Acquired_example =
    acquire_page-Acquired device device-IsDevice layout layout-IsLayout memory (λ r a. missing)
      (λ r a. 0) 1 7 3 empty empty-IsCache (omega arith, omega arith) (omega arith) 0 1 true
      (omega arith) (inl refl) (omega arith)

-- the page is in the cache, with three users
acquired :
    (page_trans : ℕ) × (c' : Cache (ℕ → ℕ → ℕ) ℕ) × (acquire_page device 2 empty 1 7 3 true
      ≡ some (page_trans, c'))
    × Acquired device layout memory (λ r a. missing) (λ r a. 0) 1 7 3 true empty page_trans c'
acquired =
    acquire_page-Acquired device device-IsDevice layout layout-IsLayout memory (λ r a. missing)
      (λ r a. 0) 1 7 3 empty empty-IsCache (omega arith, omega arith) (omega arith) 0 1 true
      (omega arith) (inl refl) (omega arith)

release_page-IsCache_example :
    IsCache device layout
      (release_page acquired.1 1 7 3)
      memory
      acquired.3.mode'
      (put2 (put2 (λ r a. 0) 1 7 3) 1 7 0)
      Never
      2
release_page-IsCache_example =
    release_page-IsCache device layout memory acquired.3.mode' (put2 (λ r a. 0) 1 7 3) 1 7 3
      acquired.1 acquired.3.stands (omega arith, omega arith) (omega arith) (omega arith)
