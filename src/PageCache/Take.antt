-- ===== src/PageCache/Take.antt =====
-- `take_slot`: a cache page is won for a page that is not in the cache, or left to the page in it.
use atc26_shaper_io.Prelude.{
  ℕ, ◌<◌, ◌≡◌, ◌≢◌, inl, inr, refl, sym, ap, ◌∙◌, true, false, Bool, eq→==, ne→==, arith,
}
use atc26_shaper_io.PageCache.{Cache, Device, put, put2, free, unlocked, evict, take_slot}
use atc26_shaper_io.PageCache.Words.{Mode, missing}
use atc26_shaper_io.PageCache.Memory.{
  IsDevice, Layout, IsLayout, In, gaddr, Apart2, page_cases, put_self, put-ne, put2-ne,
}
use atc26_shaper_io.PageCache.Coherent.{At, Holds, IsCache}
use atc26_shaper_io.PageCache.Evict.{vacated, evict_kept, evict_unused}
use native.Mathlib.Decide.{ℕ_discrete}

module _ {Disk Content : Type 0} (dev : Device Disk Content) (keeps : IsDevice dev) (y : Layout)
    (lay : IsLayout y) (m : ℕ → ℕ → Content) (refs : ℕ → ℕ → ℕ) (range pg : ℕ)
    (in_page : In y range pg) where
  abbrev pub g : ℕ
  g = gaddr y range pg

  abbrev pub Stands : Cache Disk Content → (ℕ → ℕ → Mode) → ℕ → Type 0
  Stands c mode hole = IsCache dev y c m mode refs (At range pg) hole

  -- Cache page `p` of `c'` has been won for the page; pages with users stay where they were.
  pub record Won (c : Cache Disk Content) (mode : ℕ → ℕ → Mode) (p : ℕ) (c' : Cache Disk Content)
      : Type 0 where
    pub mode' : ℕ → ℕ → Mode
    pub small : p < y.n_pages
    pub stands : Stands c' mode' p
    pub absent : mode' range pg ≡ missing
    pub open_lock : c'.page_take_lock p ≡ unlocked
    pub translated : c'.page_translation p ≡ g
    pub same_state : c'.state range pg ≡ c.state range pg
    pub same_offset : c'.offset ≡ c.offset
    pub pinned : (s x : ℕ) → refs s x ≢ 0 → mode' s x ≡ mode s x

  pub lock_same :
      (c : Cache Disk Content) (p : ℕ)
      → c.page_take_lock p ≡ unlocked
      → (q : ℕ) → put c.page_take_lock p unlocked q ≡ c.page_take_lock q
  lock_same c p up q = elim (ℕ_discrete q p) [
    | yes e ↦ rw e (put_self c.page_take_lock p unlocked ∙ sym up)
    | no ne ↦ put-ne c.page_take_lock p unlocked q ne
  ]

  -- Storing the value that a lock has.
  pub Stands-lock :
      (c : Cache Disk Content) (mode : ℕ → ℕ → Mode) (hole p : ℕ)
      → c.page_take_lock p ≡ unlocked
      → Stands c mode hole
      → Stands (record c { page_take_lock = put c.page_take_lock p unlocked }) mode hole
  Stands-lock c mode hole p up is = record {
    frozen = is.frozen;
    words = is.words;
    few = is.few;
    held = λ r a i there.
        let (lt, l, t) = is.held r a i there in (lt, lock_same c p up (c.offset r a) ∙ l, t);
    in_frame = is.in_frame;
    on_disk = is.on_disk;
    owned = λ q lt other. elim (is.owned q lt other) [
      | inl f ↦ inl (lock_same c p up q ∙ f)
      | inr (l, h) ↦ inr (lock_same c p up q ∙ l, h)
    ];
  }

  module _ (c : Cache Disk Content) (mode : ℕ → ℕ → Mode) (absent : mode range pg ≡ missing)
      (is : Stands c mode y.n_pages) (p : ℕ) (plt : p < y.n_pages) where
    abbrev pub fresh : Cache Disk Content
    fresh = record c {
      page_translation = put c.page_translation p g;
      page_take_lock = put c.page_take_lock p unlocked;
    }

    pub take_free : c.page_take_lock p ≡ free → take_slot dev c p g ≡ (true, fresh)
    unfolding take_slot
    take_free e = rw (eq→== (c.page_take_lock p) free e) refl

    take_owned :
        {won : Bool} {c' : Cache Disk Content}
        → c.page_take_lock p ≡ unlocked
        → evict dev c p g ≡ (won, c')
        → take_slot dev c p g
          ≡ (won, record c' { page_take_lock = put c'.page_take_lock p unlocked })
    unfolding take_slot
    take_owned up e =
        let not_free : c.page_take_lock p ≢ free = λ f. absurd (omega arith) in
        rw (ne→== (c.page_take_lock p) free not_free, eq→== (c.page_take_lock p) unlocked up, e)
          refl

    -- No page that is in the cache is in a cache page that is free.
    not_here :
        c.page_take_lock p ≡ free → (r a : ℕ) → In y r a → mode r a ≢ missing → c.offset r a ≢ p
    not_here f r a i there e =
        let (_, l, _) = is.held r a i there in
        absurd (omega (arith, f, l, ap (λ (q : ℕ). c.page_take_lock q) e))

    pub free-Won : c.page_take_lock p ≡ free → Won c mode p fresh
    free-Won f = record {
      mode' = mode;
      small = plt;
      stands = record {
        frozen = is.frozen;
        words = is.words;
        few = is.few;
        held = λ r a i there.
            let (lt, l, t) = is.held r a i there in
            let away : c.offset r a ≢ p = not_here f r a i there in
            (
              lt,
              put-ne c.page_take_lock p unlocked (c.offset r a) away ∙ l,
              put-ne c.page_translation p g (c.offset r a) away ∙ t,
            );
        in_frame = is.in_frame;
        on_disk = is.on_disk;
        owned = λ q lt other. elim (is.owned q lt (λ e. absurd (omega arith))) [
          | inl e ↦ inl (put-ne c.page_take_lock p unlocked q other ∙ e)
          | inr (l, (r, a, (i, t, there, at_q))) ↦ inr (
            put-ne c.page_take_lock p unlocked q other ∙ l,
            (r, a, (i, put-ne c.page_translation p g q other ∙ t, there, at_q)),
          )
        ];
      };
      absent = absent;
      open_lock = put_self c.page_take_lock p unlocked;
      translated = put_self c.page_translation p g;
      same_state = refl;
      same_offset = refl;
      pinned = λ s x used. refl;
    }

    module _ (up : c.page_take_lock p ≡ unlocked) (r a : ℕ) (holds : Holds dev y c mode p r a) where
      closed : ¬ At range pg r a
      closed (er, ea) =
          let (_, _, there, _) = holds in
          there (ap (λ (t : ℕ). mode t a) er ∙ ap (λ (t : ℕ). mode range t) ea ∙ absent)

      apart : Apart2 r a range pg
      apart = elim (page_cases r a range pg) [
        | inl (er, ea) ↦ absurd (closed (sym er, sym ea))
        | inr other ↦ other
      ]

      abbrev pub lost : Cache Disk Content
      lost = record c { page_take_lock = put c.page_take_lock p unlocked }

      pub owned_lost :
          refs r a ≢ 0 → (take_slot dev c p g ≡ (false, lost)) × Stands lost mode y.n_pages
      owned_lost used = (
        take_owned up
            (evict_kept dev y lay c m mode refs range pg is p r a plt holds keeps closed g used),
        Stands-lock c mode y.n_pages p up is,
      )

      abbrev pub Taken : Type 0
      Taken = (c' : Cache Disk Content) × (take_slot dev c p g ≡ (true, c')) × Won c mode p c'

      pub owned_won : refs r a ≡ 0 → Taken
      owned_won unused =
          let (d, e, stands) =
            evict_unused dev y lay c m mode refs range pg is p r a plt holds keeps closed g
              unused in
          let c' = vacated dev c p g r a d in
          (
            record c' { page_take_lock = put c.page_take_lock p unlocked },
            take_owned up e,
            record {
              mode' = put2 mode r a missing;
              small = plt;
              stands = Stands-lock c' (put2 mode r a missing) p p up stands;
              absent = put2-ne mode r a missing range pg apart ∙ absent;
              open_lock = put_self c.page_take_lock p unlocked;
              translated = put_self c.page_translation p g;
              same_state = put2-ne c.state r a 0 range pg apart;
              same_offset = refl;
              pinned = λ s x used. elim (page_cases r a s x) [
                | inl (es, ex) ↦
                    absurd
                      (used (ap (λ (t : ℕ). refs t x) es ∙ ap (λ (t : ℕ). refs r t) ex ∙ unused))
                | inr other ↦ put2-ne mode r a missing s x other
              ];
            },
          )
