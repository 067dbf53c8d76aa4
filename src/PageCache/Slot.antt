-- ===== src/PageCache/Slot.antt =====
-- `find_slot`: a cache page for a page that is not in the cache.
use atc26_shaper_io.Prelude.{
  ℕ, zero, suc, ◌+◌, ◌-◌, ◌%◌, ◌^◌, ◌<◌, ◌≡◌, ◌≢◌, ◌⊎◌, inl, inr, refl, sym, ap, ◌∙◌, true, false,
  some, arith,
}
use atc26_shaper_io.Prelude.Words.{u32}
use atc26_shaper_io.PageCache.{
  Cache, Device, put, free, unlocked, take_slot, find_slot, global_address,
}
use atc26_shaper_io.PageCache.Words.{Mode, missing}
use atc26_shaper_io.PageCache.Memory.{
  IsDevice, Layout, IsLayout, In, gaddr, gaddr-inj, global_address-lem,
}
use atc26_shaper_io.PageCache.Coherent.{Holds}
use atc26_shaper_io.PageCache.Take.{
  Stands, Won, lock_same, take_free, free-Won, owned_lost, owned_won,
}
use native.Mathlib.Nat.{mod-lt}
use native.Mathlib.Decide.{ℕ_discrete}

module _ {Disk Content : Type 0} (dev : Device Disk Content) (keeps : IsDevice dev) (y : Layout)
    (lay : IsLayout y) (m : ℕ → ℕ → Content) (refs : ℕ → ℕ → ℕ) (range pg : ℕ)
    (in_page : In y range pg) where
  abbrev g : ℕ
  g = gaddr y range pg

  abbrev Standing : Cache Disk Content → (ℕ → ℕ → Mode) → ℕ → Type 0
  Standing = Stands dev keeps y lay m refs range pg in_page

  abbrev Winning : Cache Disk Content → (ℕ → ℕ → Mode) → ℕ → Cache Disk Content → Type 0
  Winning = Won dev keeps y lay m refs range pg in_page

  -- A cache page that can be won: no page is in it, or one without users.
  abbrev pub Available : Cache Disk Content → (ℕ → ℕ → Mode) → ℕ → Type 0
  Available c mode p =
      (c.page_take_lock p ≡ free)
      ⊎ ((c.page_take_lock p ≡ unlocked)
          × ((r : ℕ) × (a : ℕ) × (Holds dev y c mode p r a × (refs r a ≡ 0))))

  module _ (c : Cache Disk Content) where
    abbrev page : ℕ
    page = c.page_ticket % c.n_pages

    abbrev counted : Cache Disk Content
    counted = record c { page_ticket = u32 (c.page_ticket + 1) }

    Stands-counted :
        (mode : ℕ → ℕ → Mode) → Standing c mode y.n_pages → Standing counted mode y.n_pages
    Stands-counted mode is = record {
      frozen = is.frozen;
      words = is.words;
      few = is.few;
      held = is.held;
      in_frame = is.in_frame;
      on_disk = is.on_disk;
      owned = is.owned;
    }

    Won-counted :
        (mode : ℕ → ℕ → Mode) {p : ℕ} {c' : Cache Disk Content}
        → Winning counted mode p c'
        → Winning c mode p c'
    Won-counted mode won = record {
      mode' = won.mode';
      small = won.small;
      stands = won.stands;
      absent = won.absent;
      open_lock = won.open_lock;
      translated = won.translated;
      same_state = won.same_state;
      same_offset = won.same_offset;
      pinned = won.pinned;
    }

    bits : (mode : ℕ → ℕ → Mode) → Standing c mode y.n_pages → c.n_ranges_bits ≡ y.bits
    bits mode is = let (_, _, b, _, _, _, _, _, _) = is.frozen in b

    in_cache : (mode : ℕ → ℕ → Mode) → Standing c mode y.n_pages → page < y.n_pages
    in_cache mode is =
        let (n, _, _, _, _, _, _, _, _) = is.frozen in
        omega (arith, mod-lt c.page_ticket {m = c.n_pages} (omega (arith, n, lay.some_pages)), n)

  module _ (fuel : ℕ) (c : Cache Disk Content) (bits : c.n_ranges_bits ≡ y.bits) where
    abbrev next : Cache Disk Content
    next = record c { page_ticket = u32 (c.page_ticket + 1) }

    address : global_address c.n_ranges_bits range pg ≡ g
    address =
        ap (λ (b : ℕ). global_address b range pg) bits ∙ global_address-lem y range pg lay in_page

    find_won :
        {c' : Cache Disk Content}
        → take_slot dev next (c.page_ticket % c.n_pages) g ≡ (true, c')
        → find_slot dev (suc fuel) c pg range ≡ some (c.page_ticket % c.n_pages, c')
    unfolding find_slot
    find_won e = rw (address, e) refl

    find_lost :
        {c' : Cache Disk Content}
        → take_slot dev next (c.page_ticket % c.n_pages) g ≡ (false, c')
        → find_slot dev (suc fuel) c pg range ≡ find_slot dev fuel c' pg range
    unfolding find_slot
    find_lost e = rw (address, e) refl

  abbrev Found : ℕ → Cache Disk Content → (ℕ → ℕ → Mode) → Type 0
  Found fuel c mode =
      (p : ℕ) × (c' : Cache Disk Content) × (find_slot dev fuel c pg range ≡ some (p, c'))
      × Winning c mode p c'

  -- The round at a page with users: the search goes on one ticket later, from the same cache.
  module _ (c : Cache Disk Content) (mode : ℕ → ℕ → Mode) (absent : mode range pg ≡ missing)
      (is : Standing c mode y.n_pages) (d fuel : ℕ) (near : c.page_ticket + d < 2 ^ 32)
      (there : Available c mode ((c.page_ticket + d) % c.n_pages))
      (up : c.page_take_lock (page c) ≡ unlocked) (r a : ℕ)
      (holds : Holds dev y c mode (page c) r a) (used : refs r a ≢ 0) where
    abbrev passed : Cache Disk Content
    passed = record (counted c) { page_take_lock = put c.page_take_lock (page c) unlocked }

    round_lost :
        (take_slot dev (counted c) (page c) g ≡ (false, passed)) × Standing passed mode y.n_pages
    round_lost =
        owned_lost dev keeps y lay m refs range pg in_page (counted c) mode absent
          (Stands-counted c mode is) (page c) (in_cache c mode is) up r a holds used

    -- The page at hand is not the one that is available.
    not_yet : d ≢ 0
    not_yet e =
        let here : c.page_ticket + d ≡ c.page_ticket = omega arith in
        elim (rw here at there) [
          | inl f ↦ absurd (omega (arith, up, f))
          | inr (_, (s, x, ((i, t, _, _), unused))) ↦
              let (i', t', _, _) = holds in
              let (es, ex) = gaddr-inj y r a s x i'.0 i.0 (sym t' ∙ t) in
              used (ap (λ (z : ℕ). refs z a) es ∙ ap (λ (z : ℕ). refs s z) ex ∙ unused)
        ]

    Available-passed : (q : ℕ) → Available c mode q → Available passed mode q
    Available-passed q (inl f) =
        inl (lock_same dev keeps y lay m refs range pg in_page c (page c) up q ∙ f)
    Available-passed q (inr (l, h)) =
        inr (lock_same dev keeps y lay m refs range pg in_page c (page c) up q ∙ l, h)

    there_passed : Available passed mode ((passed.page_ticket + (d - 1)) % c.n_pages)
    there_passed =
        let same : passed.page_ticket + (d - 1) ≡ c.page_ticket + d = omega (arith, not_yet) in
        rw same (Available-passed ((c.page_ticket + d) % c.n_pages) there)

    round_on : find_slot dev (suc fuel) c pg range ≡ find_slot dev fuel passed pg range
    round_on = let (e, _) = round_lost in find_lost fuel c (bits c mode is) e

    Won-passed : {p : ℕ} {c' : Cache Disk Content} → Winning passed mode p c' → Winning c mode p c'
    Won-passed won = record {
      mode' = won.mode';
      small = won.small;
      stands = won.stands;
      absent = won.absent;
      open_lock = won.open_lock;
      translated = won.translated;
      same_state = won.same_state;
      same_offset = won.same_offset;
      pinned = won.pinned;
    }

  -- A search ends at the latest at an available cache page, within as many rounds as it takes the ticket
  -- to get there.
  pub find_slot-Won :
      (d fuel : ℕ) (c : Cache Disk Content) (mode : ℕ → ℕ → Mode)
      → mode range pg ≡ missing
      → Standing c mode y.n_pages
      → c.page_ticket + d < 2 ^ 32
      → Available c mode ((c.page_ticket + d) % c.n_pages)
      → d < fuel
      → Found fuel c mode
  find_slot-Won d zero c mode absent is near there lt = absurd (omega arith)
  find_slot-Won d (suc fuel) c mode absent is near there lt =
      elim (is.owned (page c) (in_cache c mode is)
        (λ e. absurd (omega (arith, in_cache c mode is)))) [
          | inl f ↦
              let is' = Stands-counted c mode is in
              (
                page c,
                _,
                find_won fuel c (bits c mode is) (
                    take_free dev keeps y lay m refs range pg in_page (counted c) mode absent is'
                      (page c) (in_cache c mode is) f),
                Won-counted c mode (
                    free-Won dev keeps y lay m refs range pg in_page (counted c) mode absent is'
                      (page c) (in_cache c mode is) f),
              )
          | inr (up, (r, a, holds)) ↦ elim (ℕ_discrete (refs r a) 0) [
            | yes unused ↦
                let (c', e, won) =
                  owned_won dev keeps y lay m refs range pg in_page (counted c) mode absent
                    (Stands-counted c mode is) (page c) (in_cache c mode is) up r a holds unused in
                (page c, c', find_won fuel c (bits c mode is) e, Won-counted c mode won)
            | no used ↦
                let (_, is') = round_lost c mode absent is d fuel near there up r a holds used in
                let some_left : d ≢ 0 =
                  not_yet c mode absent is d fuel near there up r a holds used in
                let (p, c', e, won) =
                  find_slot-Won (d - 1) fuel
                    (passed c mode absent is d fuel near there up r a holds used) mode absent is'
                    (omega arith)
                    (there_passed c mode absent is d fuel near there up r a holds used)
                    (omega arith) in
                (
                  p,
                  c',
                  round_on c mode absent is d fuel near there up r a holds used ∙ e,
                  Won-passed c mode absent is d fuel near there up r a holds used won,
                )
          ]
        ]
