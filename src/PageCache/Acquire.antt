-- ===== src/PageCache/Acquire.antt =====
-- `acquire_page` and `release_page`: the cache is transparent.
use atc26_shaper_io.Prelude.{
  ℕ, suc, ◌+◌, ◌/◌, ◌^◌, ◌<◌, ◌≡◌, ◌≢◌, inl, inr, refl, sym, ap, ◌∙◌, true, Bool, ◌&&◌, ◌==◌,
  if◌then◌else◌, some, bit_and, bit_or, arith,
}
use atc26_shaper_io.PageCache.{Cache, Device, put2, busy, dirty, find_slot, fill, acquire_loop}
use atc26_shaper_io.PageCache.Words.{Mode, missing, modified, flags, word}
use atc26_shaper_io.PageCache.Memory.{Layout, Apart2, page_cases, put2_self, put2-ne}
use atc26_shaper_io.PageCache.Coherent.{At, Never, IsCache}

pub modified≢missing : modified ≢ missing
modified≢missing e = cc

module _ {Disk Content : Type 0} (dev : Device Disk Content) (y : Layout) (m : ℕ → ℕ → Content)
    (mode : ℕ → ℕ → Mode) (refs : ℕ → ℕ → ℕ) (range pg : ℕ) where
  -- A thread starts to work on a page: its count is `n` and its state word is for the thread to set.
  pub opened :
      (c : Cache Disk Content) (w n : ℕ)
      → n < 2 ^ 29
      → IsCache dev y c m mode refs Never y.n_pages
      → IsCache dev y
          (record c { state = put2 c.state range pg w })
          m
          mode
          (put2 refs range pg n)
          (At range pg)
          y.n_pages
  opened c w n few is = record {
    frozen = is.frozen;
    words = λ r a i closed. elim (page_cases range pg r a) [
      | inl e ↦ absurd (closed e)
      | inr away ↦
          rw (put2-ne refs range pg n r a away)
            (put2-ne c.state range pg w r a away ∙ is.words r a i (λ e. absurd (omega arith)))
    ];
    few = λ r a i. elim (page_cases range pg r a) [
      | inl (er, ea) ↦ rw (er, ea, put2_self refs range pg n) few
      | inr away ↦ rw (put2-ne refs range pg n r a away) (is.few r a i)
    ];
    held = is.held;
    in_frame = is.in_frame;
    on_disk = is.on_disk;
    owned = is.owned;
  }

  -- It may set the word again.
  pub reworded :
      (c : Cache Disk Content) (refs' : ℕ → ℕ → ℕ) (w : ℕ)
      → IsCache dev y c m mode refs' (At range pg) y.n_pages
      → IsCache dev y
          (record c { state = put2 c.state range pg w })
          m
          mode
          refs'
          (At range pg)
          y.n_pages
  reworded c refs' w is = record {
    frozen = is.frozen;
    words = λ r a i free. elim (page_cases range pg r a) [
      | inl e ↦ absurd (free e)
      | inr away ↦ put2-ne c.state range pg w r a away ∙ is.words r a i free
    ];
    few = is.few;
    held = is.held;
    in_frame = is.in_frame;
    on_disk = is.on_disk;
    owned = is.owned;
  }

  -- A page in the cache may be called modified.
  pub remoded :
      (c : Cache Disk Content) (refs' : ℕ → ℕ → ℕ)
      → mode range pg ≢ missing
      → IsCache dev y c m mode refs' (At range pg) y.n_pages
      → IsCache dev y c m (put2 mode range pg modified) refs' (At range pg) y.n_pages
  remoded c refs' present is =
      let was : (r a : ℕ) → put2 mode range pg modified r a ≢ missing → mode r a ≢ missing =
        λ r a there e. elim (page_cases range pg r a) [
          | inl (er, ea) ↦
              present (sym (ap (λ (z : ℕ). mode z a) er ∙ ap (λ (z : ℕ). mode range z) ea) ∙ e)
          | inr away ↦ there (put2-ne mode range pg modified r a away ∙ e)
        ] in
      record {
        frozen = is.frozen;
        words = λ r a i free. elim (page_cases range pg r a) [
          | inl e ↦ absurd (free e)
          | inr away ↦ rw (put2-ne mode range pg modified r a away) (is.words r a i free)
        ];
        few = is.few;
        held = λ r a i there. is.held r a i (was r a there);
        in_frame = λ r a i there. is.in_frame r a i (was r a there);
        on_disk = λ r a ctrl i ok served. elim (page_cases range pg r a) [
          | inl (er, ea) ↦ absurd (ok (rw (er, ea) (put2_self mode range pg modified)))
          | inr away ↦
              is.on_disk r a ctrl i (λ e. ok (put2-ne mode range pg modified r a away ∙ e)) served
        ];
        owned = λ q lt hole. elim (is.owned q lt hole) [
          | inl f ↦ inl f
          | inr (l, (r, a, (i, t, there, at_q))) ↦ inr (
            l,
            (
              r,
              a,
              (
                i,
                t,
                (λ e. elim (page_cases range pg r a) [
                  | inl (er, ea) ↦
                      modified≢missing (sym (rw (er, ea) (put2_self mode range pg modified)) ∙ e)
                  | inr away ↦ there (sym (put2-ne mode range pg modified r a away) ∙ e)
                ]),
                at_q,
              ),
            ),
          )
        ];
      }

  -- It is done when the word says what the page's mode and count are.
  pub closed :
      (c : Cache Disk Content) (refs' : ℕ → ℕ → ℕ)
      → c.state range pg ≡ word (flags (mode range pg)) (refs' range pg)
      → IsCache dev y c m mode refs' (At range pg) y.n_pages
      → IsCache dev y c m mode refs' Never y.n_pages
  closed c refs' w is = record {
    frozen = is.frozen;
    words = λ r a i never. elim (page_cases range pg r a) [
      | inl (er, ea) ↦ rw (er, ea) w
      | inr away ↦ is.words r a i (λ e. elim away [ inl ne ↦ ne e.0 | inr ne ↦ ne e.1 ])
    ];
    few = is.few;
    held = is.held;
    in_frame = is.in_frame;
    on_disk = is.on_disk;
    owned = is.owned;
  }

-- What a thread has that has acquired a page: a cache page that holds the page's content. The cache still
-- stands for the same memory, the page's users are counted, a page to be written counts as modified,
-- and pages with users have not moved.
pub record Acquired {Disk Content : Type 0} (dev : Device Disk Content) (y : Layout)
    (m : ℕ → ℕ → Content) (mode : ℕ → ℕ → Mode) (refs : ℕ → ℕ → ℕ) (range pg count : ℕ)
    (write : Bool) (c : Cache Disk Content) (page_trans : ℕ) (c' : Cache Disk Content)
    : Type 0 where
  pub mode' : ℕ → ℕ → Mode
  pub stands : IsCache dev y c' m mode' (put2 refs range pg (refs range pg + count)) Never y.n_pages
  pub present : mode' range pg ≢ missing
  pub slot : c'.offset range pg ≡ page_trans
  pub content : c'.frame page_trans ≡ m range pg
  pub written : write ≡ true → mode' range pg ≡ modified
  pub pinned :
      (s x : ℕ)
      → Apart2 range pg s x
      → refs s x ≢ 0
      → (mode' s x ≡ mode s x) × (c'.offset s x ≡ c.offset s x)

module _ {Disk Content : Type 0} (dev : Device Disk Content) (fuel : ℕ) (k : Cache Disk Content)
    (range pg : ℕ) (write : Bool) where
  abbrev pub marked : Cache Disk Content
  marked = record k { state = put2 k.state range pg (bit_or (k.state range pg) dirty) }

  abbrev pub taken : Cache Disk Content
  taken = record k { state = put2 k.state range pg (bit_or (k.state range pg) busy) }

  pub loop_hit :
      (read_state : ℕ)
      → bit_and (read_state / 2 ^ 30) 0x03 ≡ 2
      → acquire_loop dev (suc fuel) k range pg write read_state
        ≡ some (k.offset range pg, (if write && (bit_and read_state dirty == 0) then marked else k))
  unfolding acquire_loop
  loop_hit read_state e = rw e refl

  pub loop_miss :
      (read_state : ℕ)
      → bit_and (read_state / 2 ^ 30) 0x03 ≡ 0
      → bit_and (k.state range pg) busy ≡ 0
      → bit_and (k.state range pg / 2 ^ 30) 0x03 ≡ 0
      → {page_trans : ℕ} {c' : Cache Disk Content}
      → find_slot dev fuel taken pg range ≡ some (page_trans, c')
      → acquire_loop dev (suc fuel) k range pg write read_state
        ≡ some (page_trans, fill dev c' range pg write page_trans)
  unfolding acquire_loop
  loop_miss read_state e b s f = rw (e, b, s, f) refl
