-- ===== src/PageCache/Evict.antt =====
-- Evicting a page: its cache page is won only if the page has no users, and its content is on the
-- devices then.
use atc26_shaper_io.Prelude.{
  ℕ, ◌*◌, ◌^◌, ◌<◌, ◌≡◌, ◌≢◌, inl, inr, refl, sym, ap, ◌∙◌, true, false, ne→==, arith,
}
use atc26_shaper_io.PageCache.{
  Cache, Device, put, put2, get_backing_page, write_back, evict_page, evict,
}
use atc26_shaper_io.PageCache.Words.{Mode, missing, clean, modified, flags, word, count-word}
use atc26_shaper_io.PageCache.Memory.{
  IsDevice, Layout, IsLayout, In, Serves, place, gaddr-range, gaddr-address, gaddr-inj, Apart2,
  page_cases, put-ne, put2_self, put2-ne,
}
use atc26_shaper_io.PageCache.Coherent.{At, Holds, IsCache}
use atc26_shaper_io.PageCache.WriteBack.{
  WrittenBack, write_back-WrittenBack, dec-Serving, places_apart,
}

module _ {Disk Content : Type 0} (dev : Device Disk Content) (c : Cache Disk Content)
    (p g r a : ℕ) where
  abbrev pub vacated : Disk → Cache Disk Content
  vacated d = record c {
    disk = d;
    state = put2 c.state r a 0;
    page_translation = put c.page_translation p g;
  }

  page_kept : (top n : ℕ) → n < 2 ^ 29 → n ≢ 0 → evict_page dev c p g r a (word top n) ≡ (false, c)
  unfolding evict_page
  page_kept top n small used = rw (count-word top n small, ne→== n 0 used) refl

  page_clean : evict_page dev c p g r a (word 4 0) ≡ (true, vacated c.disk)
  unfolding evict_page
  page_clean = refl

  page_dirty : evict_page dev c p g r a (word 5 0) ≡ (true, vacated (write_back dev c r a p))
  unfolding evict_page
  page_dirty = refl

clean≢modified : clean ≢ modified
clean≢modified e = cc

module _ {Disk Content : Type 0} (dev : Device Disk Content) (y : Layout) (lay : IsLayout y)
    (c : Cache Disk Content) (m : ℕ → ℕ → Content) (mode : ℕ → ℕ → Mode) (refs : ℕ → ℕ → ℕ)
    (range pg : ℕ) (is : IsCache dev y c m mode refs (At range pg) y.n_pages) (p r a : ℕ)
    (plt : p < y.n_pages) (holds : Holds dev y c mode p r a) where
  abbrev mode' : ℕ → ℕ → Mode
  mode' = put2 mode r a missing

  In-ra : In y r a
  In-ra = let (i, _, _, _) = holds in i

  -- All pages that are in the cache after the eviction were so before, in other cache pages.
  still : (s x : ℕ) → mode' s x ≢ missing → Apart2 r a s x
  still s x there = elim (page_cases r a s x) [
    | inl (e, f) ↦ absurd (there (rw (e, f) (put2_self mode r a missing)))
    | inr other ↦ other
  ]

  before : (s x : ℕ) → mode' s x ≢ missing → mode s x ≢ missing
  before s x there e = there (put2-ne mode r a missing s x (still s x there) ∙ e)

  elsewhere : (s x : ℕ) → In y s x → mode' s x ≢ missing → c.offset s x ≢ p
  elsewhere s x (small, inside) there e =
      let (_, _, t) = is.held s x (small, inside) (before s x there) in
      let (_, t', _, _) = holds in
      let (small', _) = In-ra in
      let (es, ex) =
        gaddr-inj y s x r a small small' (sym t ∙ ap (λ (q : ℕ). c.page_translation q) e ∙ t') in
      elim (still s x there) [ inl ne ↦ absurd (ne es) | inr ne ↦ absurd (ne ex) ]

  vacated-IsCache :
      (g : ℕ) (d : Disk)
      → refs r a ≡ 0
      → ((s x ctrl : ℕ)
          → In y s x
          → mode' s x ≢ modified
          → Serves y s x ctrl
          → dev.read d ctrl (place y s x * y.blocks) y.blocks ≡ m s x)
      → IsCache dev y (vacated dev c p g r a d) m mode' refs (At range pg) p
  vacated-IsCache g d unused kept = record {
    frozen = is.frozen;
    words = λ s x i closed. elim (page_cases r a s x) [
      | inl (e, f) ↦ rw (e, f, put2_self mode r a missing, unused) (put2_self c.state r a 0)
      | inr other ↦
          rw (put2-ne mode r a missing s x other)
            (put2-ne c.state r a 0 s x other ∙ is.words s x i closed)
    ];
    few = is.few;
    held = λ s x i there.
        let (lt, up, t) = is.held s x i (before s x there) in
        (lt, up, put-ne c.page_translation p g (c.offset s x) (elsewhere s x i there) ∙ t);
    in_frame = λ s x i there. is.in_frame s x i (before s x there);
    on_disk = kept;
    owned = λ q qlt other. elim (is.owned q qlt (λ e. absurd (omega arith))) [
      | inl f ↦ inl f
      | inr (up, (s, x, (i, t, there, at_q))) ↦
          let away : Apart2 r a s x = elim (page_cases r a s x) [
            | inl (e, f) ↦ let (_, _, _, at_p) = holds in absurd (other (sym at_q ∙ rw (e, f) at_p))
            | inr away ↦ away
          ] in
          inr (
            up,
            (
              s,
              x,
              (
                i,
                put-ne c.page_translation p g q other ∙ t,
                (λ e. there (sym (put2-ne mode r a missing s x away) ∙ e)),
                at_q,
              ),
            ),
          )
    ];
  }

  module _ (keeps : IsDevice dev) (closed : ¬ At range pg r a) (g : ℕ) where
    decoded : evict dev c p g ≡ evict_page dev c p g r a (word (flags (mode r a)) (refs r a))
    unfolding evict
    decoded =
        let (_, _, bits, mask, _, _, _, _, _) = is.frozen in
        let (_, t, _, _) = holds in
        let (small, _) = In-ra in
        rw
          (
            mask,
            bits,
            t,
            gaddr-range y r a small,
            gaddr-address y r a small,
            is.words r a In-ra closed,
          )
          refl

    pub evict_kept : refs r a ≢ 0 → evict dev c p g ≡ (false, c)
    evict_kept used =
        decoded ∙ page_kept dev c p g r a (flags (mode r a)) (refs r a) (is.few r a In-ra) used

    abbrev Evicted : Type 0
    Evicted =
        (d : Disk) × (evict dev c p g ≡ (true, vacated dev c p g r a d))
        × IsCache dev y (vacated dev c p g r a d) m mode' refs (At range pg) p

    at_once :
        (top : Mode)
        → mode r a ≡ top
        → refs r a ≡ 0
        → evict dev c p g ≡ evict_page dev c p g r a (word (flags top) 0)
    at_once top e unused =
        decoded
        ∙ ap (λ (n : ℕ). evict_page dev c p g r a (word (flags (mode r a)) n)) unused
        ∙ ap (λ (k : Mode). evict_page dev c p g r a (word (flags k) 0)) e

    evict_clean : mode r a ≡ clean → refs r a ≡ 0 → Evicted
    evict_clean e unused = (
      c.disk,
      at_once clean e unused ∙ page_clean dev c p g r a,
      vacated-IsCache g c.disk unused kept,
    )
      where
        kept :
            (s x ctrl : ℕ)
            → In y s x
            → mode' s x ≢ modified
            → Serves y s x ctrl
            → dev.read c.disk ctrl (place y s x * y.blocks) y.blocks ≡ m s x
        kept s x ctrl i ok serves = elim (page_cases r a s x) [
          | inl (es, ex) ↦
              is.on_disk s x ctrl i
                (λ f.
                  clean≢modified
                    (sym e ∙ sym (ap (λ (t : ℕ). mode t x) es ∙ ap (λ (t : ℕ). mode r t) ex) ∙ f))
                serves
          | inr other ↦
              is.on_disk s x ctrl i (λ f. ok (put2-ne mode r a missing s x other ∙ f)) serves
        ]

    in_layout :
        (d : Disk)
        → WrittenBack dev c.disk
            (c.ranges_dists r)
            c.n_ctrls
            a
            (get_backing_page (c.ranges_page_starts r) a c.n_ctrls (c.ranges_dists r)
              * c.n_blocks_per_page)
            c.n_blocks_per_page
            (c.frame p)
            d
        → WrittenBack dev c.disk
            (y.dists r)
            y.n_ctrls
            a
            (place y r a * y.blocks)
            y.blocks
            (c.frame p)
            d
    in_layout d w =
        let (_, ctrls, _, _, blocks, dists, starts, _, _) = is.frozen in
        rw (ctrls, blocks, dists, starts) at w

    written :
        WrittenBack dev c.disk
          (y.dists r)
          y.n_ctrls
          a
          (place y r a * y.blocks)
          y.blocks
          (c.frame p)
          (write_back dev c r a p)
    written =
        let (_, ctrls, _, _, blocks, _, _, no_override, _) = is.frozen in
        in_layout (write_back dev c r a p) (
          write_back-WrittenBack dev keeps c no_override (rw ctrls lay.some_ctrls)
            (rw blocks lay.some_blocks) (rw ctrls lay.few_ctrls) r a p)

    framed : c.frame p ≡ m r a
    framed =
        let (i, _, there, at_p) = holds in
        ap (λ (q : ℕ). c.frame q) (sym at_p) ∙ is.in_frame r a i there

    evict_modified : mode r a ≡ modified → refs r a ≡ 0 → Evicted
    evict_modified e unused = (
      write_back dev c r a p,
      at_once modified e unused ∙ page_dirty dev c p g r a,
      vacated-IsCache g (write_back dev c r a p) unused kept,
    )
      where
        kept :
            (s x ctrl : ℕ)
            → In y s x
            → mode' s x ≢ modified
            → Serves y s x ctrl
            → dev.read (write_back dev c r a p) ctrl (place y s x * y.blocks) y.blocks ≡ m s x
        kept s x ctrl i ok serves = elim (page_cases r a s x) [
          | inl (es, ex) ↦
              let mine : Serves y r a ctrl = rw (es, ex) at serves in
              rw (es, ex) (written.here ctrl mine ∙ framed)
          | inr other ↦
              written.elsewhere ctrl (place y s x * y.blocks)
                (elim (dec-Serving (y.dists r) y.n_ctrls a ctrl) [
                  | inr away ↦ inl away
                  | inl mine ↦ inr (
                      places_apart y.blocks (place y r a) (place y s x)
                        (lay.apart r a s x ctrl In-ra i other mine serves))
                ])
              ∙ is.on_disk s x ctrl i (λ f. ok (put2-ne mode r a missing s x other ∙ f)) serves
        ]

    -- A page without users is evicted, whichever of the two states it is in.
    pub evict_unused : refs r a ≡ 0 → Evicted
    evict_unused unused = by_mode (mode r a) refl
      where
        by_mode : (top : Mode) → mode r a ≡ top → Evicted
        by_mode missing e = let (_, _, there, _) = holds in absurd (there e)
        by_mode clean e = evict_clean e unused
        by_mode modified e = evict_modified e unused
