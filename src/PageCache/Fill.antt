-- ===== src/PageCache/Fill.antt =====
-- Filling a cache page that has been won: the page's content comes from a controller that keeps it.
use atc26_shaper_io.Prelude.{
  ℕ, ◌*◌, ◌%◌, ◌^◌, ◌<◌, ◌≡◌, ◌≢◌, ◌⊎◌, inl, inr, refl, sym, ap, ◌∙◌, true, false, Bool, eq→==,
  ne→==, arith,
}
use atc26_shaper_io.PageCache.{
  Cache, Device, DataDist, replicate, stripe, put2, unlocked, all_ctrls, get_backing_page,
  get_backing_ctrl, read_ctrl, fill,
}
use atc26_shaper_io.PageCache.Words.{
  Mode, missing, clean, modified, flags, word, or_dirty-word, valid-word,
}
use atc26_shaper_io.PageCache.Memory.{
  Layout, IsLayout, In, Serves, Serving, gaddr, gaddr-inj, Apart2, page_cases, put_self, put-ne,
  put2_self, put2-ne,
}
use atc26_shaper_io.PageCache.Coherent.{At, Never, IsCache}
use native.Mathlib.Nat.{mod-lt}
use native.Mathlib.Decide.{ℕ_discrete}

module _ {Disk Content : Type 0} (c : Cache Disk Content)
    (no_override : c.read_ctrl_override ≡ all_ctrls) (some : 0 < c.n_ctrls)
    (few : c.n_ctrls < all_ctrls) (r a : ℕ) where
  read_ctrl-Serving :
      (dist : DataDist) → c.ranges_dists r ≡ dist → Serving dist c.n_ctrls a (read_ctrl c r a).0
  unfolding read_ctrl get_backing_ctrl
  read_ctrl-Serving replicate e =
      rw (e, eq→== c.read_ctrl_override all_ctrls no_override) (mod-lt c.ctrl_counter some)
  read_ctrl-Serving stripe e =
      let ne : a % c.n_ctrls ≢ all_ctrls = λ f. absurd (omega (arith, mod-lt a some)) in
      rw (e, eq→== c.read_ctrl_override all_ctrls no_override, ne→== (a % c.n_ctrls) all_ctrls ne)
        refl

-- The mode of a page after an access.
abbrev pub after : Bool → Mode
after true = modified
after false = clean

module _ {Disk Content : Type 0} (dev : Device Disk Content) (y : Layout) (lay : IsLayout y)
    (m : ℕ → ℕ → Content) (refs : ℕ → ℕ → ℕ) (range pg : ℕ) (in_page : In y range pg)
    (c : Cache Disk Content) (mode' : ℕ → ℕ → Mode) (p : ℕ) (small : p < y.n_pages)
    (stands : IsCache dev y c m mode' refs (At range pg) p) (absent : mode' range pg ≡ missing)
    (up : c.page_take_lock p ≡ unlocked) (t : c.page_translation p ≡ gaddr y range pg)
    (taken : c.state range pg ≡ word 2 (refs range pg)) (write : Bool) where
  serves : Serves y range pg (read_ctrl c range pg).0
  serves =
      let (_, ctrls, _, _, _, dists, _, _, no_override) = stands.frozen in
      in_layout (read_ctrl c range pg).0 (
        read_ctrl-Serving c no_override (rw ctrls lay.some_ctrls) (rw ctrls lay.few_ctrls) range pg
          (c.ranges_dists range) refl)
    where
      in_layout :
          (ctrl : ℕ) → Serving (c.ranges_dists range) c.n_ctrls pg ctrl → Serves y range pg ctrl
      in_layout ctrl s =
          let (_, ctrls, _, _, _, dists, _, _, _) = stands.frozen in rw (ctrls, dists) at s

  content :
      (ctrl : ℕ)
      → Serves y range pg ctrl
      → dev.read c.disk ctrl
          (get_backing_page (c.ranges_page_starts range) pg c.n_ctrls (c.ranges_dists range)
            * c.n_blocks_per_page)
          c.n_blocks_per_page
        ≡ m range pg
  content ctrl s =
      let (_, ctrls, _, _, blocks, dists, starts, _, _) = stands.frozen in
      let not_modified : mode' range pg ≢ modified = λ e. missing≢modified (sym absent ∙ e) in
      rw (ctrls, blocks, dists, starts) (stands.on_disk range pg ctrl in_page not_modified s)
    where
      missing≢modified : missing ≢ modified
      missing≢modified e = cc

  abbrev pub filled : Cache Disk Content
  filled = fill dev c range pg write p

  abbrev pub mode'' : ℕ → ℕ → Mode
  mode'' = put2 mode' range pg (after write)

  filled_word : filled.state range pg ≡ word (flags (after write)) (refs range pg)
  unfolding fill
  filled_word = by_write write
    where
      n : ℕ
      n = refs range pg

      few : refs range pg < 2 ^ 29
      few = stands.few range pg in_page

      by_write :
          (w : Bool)
          → (fill dev c range pg w p).state range pg ≡ word (flags (after w)) (refs range pg)
      by_write true =
          put2_self c.state range pg _
          ∙ rw (taken, or_dirty-word 2 (refs range pg) few) (valid-word 3 (refs range pg) few)
      by_write false = put2_self c.state range pg _ ∙ rw taken (valid-word 2 (refs range pg) few)

  -- The pages that were in the cache are in other cache pages.
  other : (s x : ℕ) → In y s x → mode' s x ≢ missing → Apart2 range pg s x × (c.offset s x ≢ p)
  other s x (hs, inside) there =
      let (_, _, t') = stands.held s x (hs, inside) there in
      let apart : Apart2 range pg s x = elim (page_cases range pg s x) [
        | inl (es, ex) ↦
            absurd
              (there (ap (λ (z : ℕ). mode' z x) es ∙ ap (λ (z : ℕ). mode' range z) ex ∙ absent))
        | inr away ↦ away
      ] in
      (
        apart,
        λ e.
            let (es, ex) =
              gaddr-inj y s x range pg hs in_page.0
                (sym t' ∙ ap (λ (q : ℕ). c.page_translation q) e ∙ t) in
            elim apart [ inl ne ↦ absurd (ne es) | inr ne ↦ absurd (ne ex) ],
      )

  pub after≢missing : (w : Bool) → after w ≢ missing
  after≢missing true e = cc
  after≢missing false e = cc

  -- In the cache afterwards are the page itself, and the pages that were there.
  now_or_before :
      (s x : ℕ)
      → mode'' s x ≢ missing
      → ((s ≡ range) × (x ≡ pg)) ⊎ (Apart2 range pg s x × (mode' s x ≢ missing))
  now_or_before s x there = elim (page_cases range pg s x) [
    | inl e ↦ inl e
    | inr away ↦ inr (away, λ e. there (put2-ne mode' range pg (after write) s x away ∙ e))
  ]

  pub filled-IsCache : IsCache dev y filled m mode'' refs Never y.n_pages
  unfolding fill
  filled-IsCache = record {
    frozen = stands.frozen;
    words = λ s x i closed. elim (page_cases range pg s x) [
      | inl (es, ex) ↦ rw (es, ex, put2_self mode' range pg (after write)) filled_word
      | inr away ↦ rw (put2-ne mode' range pg (after write) s x away) (
          put2-ne c.state range pg _ s x away
          ∙ stands.words s x i (λ e. elim away [ inl ne ↦ ne e.0 | inr ne ↦ ne e.1 ]))
    ];
    few = stands.few;
    held = λ s x i there. elim (now_or_before s x there) [
      | inl (es, ex) ↦ rw (es, ex, put2_self c.offset range pg p) (small, up, t)
      | inr (away, before) ↦ rw (put2-ne c.offset range pg p s x away) (stands.held s x i before)
    ];
    in_frame = λ s x i there. elim (now_or_before s x there) [
      | inl (es, ex) ↦
          rw (es, ex, put2_self c.offset range pg p)
            (put_self c.frame p _ ∙ content (read_ctrl c range pg).0 serves)
      | inr (away, before) ↦
          let (_, elsewhere) = other s x i before in
          rw (put2-ne c.offset range pg p s x away)
            (put-ne c.frame p _ (c.offset s x) elsewhere ∙ stands.in_frame s x i before)
    ];
    on_disk = λ s x ctrl i ok served. elim (page_cases range pg s x) [
      | inl (es, ex) ↦
          stands.on_disk s x ctrl i
            (λ e.
              missing≢modified (
                sym (ap (λ (z : ℕ). mode' z x) es ∙ ap (λ (z : ℕ). mode' range z) ex ∙ absent) ∙ e))
            served
      | inr away ↦
          stands.on_disk s x ctrl i (λ e. ok (put2-ne mode' range pg (after write) s x away ∙ e))
            served
    ];
    owned = λ q lt hole. elim (ℕ_discrete q p) [
      | yes e ↦ inr (
        ap (λ (z : ℕ). c.page_take_lock z) e ∙ up,
        (
          range,
          pg,
          (
            in_page,
            ap (λ (z : ℕ). c.page_translation z) e ∙ t,
            (λ f. after≢missing write (sym (put2_self mode' range pg (after write)) ∙ f)),
            put2_self c.offset range pg p ∙ sym e,
          ),
        ),
      )
      | no ne ↦ elim (stands.owned q lt ne) [
        | inl f ↦ inl f
        | inr (l, (s, x, (i, tr, there, at_q))) ↦
            let (away, _) = other s x i there in
            inr (
              l,
              (
                s,
                x,
                (
                  i,
                  tr,
                  (λ e. there (sym (put2-ne mode' range pg (after write) s x away) ∙ e)),
                  put2-ne c.offset range pg p s x away ∙ at_q,
                ),
              ),
            )
      ]
    ];
  }
    where
      missing≢modified : missing ≢ modified
      missing≢modified e = cc
