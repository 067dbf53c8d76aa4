-- ===== src/PageCache/Hit.antt =====
-- `acquire_page` on a page that is in the cache, and `release_page`.
use atc26_shaper_io.Prelude.{
  ℕ, suc, ◌+◌, ◌-◌, ◌*◌, ◌/◌, ◌%◌, ◌^◌, ◌≤◌, ◌<◌, ◌≡◌, ◌≢◌, refl, sym, ap, ◌∙◌, true, false, Bool,
  ◌&&◌, ◌==◌, if◌then◌else◌, some, bit_and, bit_or, arith,
}
use atc26_shaper_io.Prelude.Words.{u32, sub_u32}
use atc26_shaper_io.PageCache.{Cache, Device, put2, dirty, acquire_page, release_page}
use atc26_shaper_io.PageCache.Words.{
  Mode, missing, clean, modified, flags, word, dirty-word, or_dirty-word, status-word,
}
use atc26_shaper_io.PageCache.Memory.{Layout, In, put2_self, put2-ne}
use atc26_shaper_io.PageCache.Coherent.{At, Never, IsCache}
use atc26_shaper_io.PageCache.Acquire.{
  modified≢missing, opened, closed, reworded, remoded, Acquired, marked, loop_hit,
}

module _ {Disk Content : Type 0} (dev : Device Disk Content) (y : Layout) (m : ℕ → ℕ → Content)
    (mode : ℕ → ℕ → Mode) (refs : ℕ → ℕ → ℕ) (range pg count : ℕ) (c : Cache Disk Content)
    (is : IsCache dev y c m mode refs Never y.n_pages) (in_page : In y range pg)
    (few : refs range pg + count < 2 ^ 29) where
  abbrev pub total : ℕ
  total = refs range pg + count

  abbrev pub counted : Cache Disk Content
  counted = record c { state = put2 c.state range pg (u32 (c.state range pg + count)) }

  pub old_word : c.state range pg ≡ word (flags (mode range pg)) (refs range pg)
  old_word = is.words range pg in_page (λ e. absurd (omega arith))

  pub small_flags : (k : Mode) → flags k < 8
  small_flags missing = omega arith
  small_flags clean = omega arith
  small_flags modified = omega arith

  pub new_word : counted.state range pg ≡ word (flags (mode range pg)) total
  new_word =
      put2_self c.state range pg (u32 (c.state range pg + count))
      ∙ omega (arith, old_word, small_flags (mode range pg), few)

  pub opened_counted :
      IsCache dev y counted m mode (put2 refs range pg total) (At range pg) y.n_pages
  opened_counted = opened dev y m mode refs range pg c (u32 (c.state range pg + count)) total few is

  counted_stands : IsCache dev y counted m mode (put2 refs range pg total) Never y.n_pages
  counted_stands =
      closed dev y m mode refs range pg counted (put2 refs range pg total)
        (new_word
          ∙ ap (λ (n : ℕ). word (flags (mode range pg)) n) (sym (put2_self refs range pg total)))
        opened_counted

  module _ (fuel : ℕ) (write : Bool) (present : mode range pg ≢ missing) where
    abbrev pub Here : Type 0
    Here =
        (c' : Cache Disk Content) × (acquire_page dev (suc fuel) c range pg count write
          ≡ some (c.offset range pg, c'))
        × Acquired dev y m mode refs range pg count write c (c.offset range pg) c'

    status : bit_and (c.state range pg / 2 ^ 30) 0x03 ≡ flags (mode range pg) / 2 % 4
    status =
        ap (λ (w : ℕ). bit_and (w / 2 ^ 30) 0x03) old_word
        ∙ status-word (flags (mode range pg)) (refs range pg) (omega arith)

    two : flags (mode range pg) / 2 % 4 ≡ 2
    two = by_mode (mode range pg) present
      where
        by_mode : (k : Mode) → k ≢ missing → flags k / 2 % 4 ≡ 2
        by_mode missing ne = absurd (ne refl)
        by_mode clean ne = refl
        by_mode modified ne = refl

    runs :
        acquire_page dev (suc fuel) c range pg count write
        ≡ some (
          c.offset range pg,
          (if write && (bit_and (c.state range pg) dirty == 0)
              then marked dev fuel counted range pg write
              else counted),
        )
    unfolding acquire_page
    runs = loop_hit dev fuel counted range pg write (c.state range pg) (status ∙ two)

    kept_Acquired :
        (write ≡ true → mode range pg ≡ modified)
        → Acquired dev y m mode refs range pg count write c (c.offset range pg) counted
    kept_Acquired written = record {
      mode' = mode;
      stands = counted_stands;
      present = present;
      slot = refl;
      content = is.in_frame range pg in_page present;
      written = written;
      pinned = λ s x away used. (refl, refl);
    }

    dirty_bit :
        (k : Mode)
        → mode range pg ≡ k
        → bit_and (c.state range pg) dirty ≡ bit_and (flags k) 1 * 2 ^ 29
    dirty_bit k e =
        ap (λ (w : ℕ). bit_and w dirty) old_word
        ∙ dirty-word (flags (mode range pg)) (refs range pg) (omega arith)
        ∙ ap (λ (j : Mode). bit_and (flags j) 1 * 2 ^ 29) e

    abbrev rewritten : Cache Disk Content
    rewritten = marked dev fuel counted range pg write

    rewritten_word : mode range pg ≡ clean → rewritten.state range pg ≡ word (flags modified) total
    rewritten_word e =
        put2_self counted.state range pg (bit_or (counted.state range pg) dirty)
        ∙ ap (λ (w : ℕ). bit_or w dirty) (new_word ∙ ap (λ (k : Mode). word (flags k) total) e)
        ∙ or_dirty-word 4 total few

    rewritten_Acquired :
        mode range pg ≡ clean
        → Acquired dev y m mode refs range pg count write c (c.offset range pg) rewritten
    rewritten_Acquired e =
        let mode' = put2 mode range pg modified in
        let now : mode' range pg ≡ modified = put2_self mode range pg modified in
        record {
          mode' = mode';
          stands =
              closed dev y m mode' refs range pg rewritten (put2 refs range pg total)
                (rw (now, put2_self refs range pg total) (rewritten_word e))
                (remoded dev y m mode refs range pg rewritten (put2 refs range pg total) present (
                  reworded dev y m mode refs range pg counted (put2 refs range pg total)
                    (bit_or (counted.state range pg) dirty) opened_counted));
          present = λ f. modified≢missing (sym now ∙ f);
          slot = refl;
          content = is.in_frame range pg in_page present;
          written = λ w. now;
          pinned = λ s x away used. (put2-ne mode range pg modified s x away, refl);
        }

  hit_by_mode :
      (fuel : ℕ) (write : Bool) (present : mode range pg ≢ missing) (k : Mode)
      → mode range pg ≡ k
      → Here fuel write present
  hit_by_mode fuel write present missing e = absurd (present e)
  hit_by_mode fuel false present clean e = (
    counted,
    runs fuel false present,
    kept_Acquired fuel false present (λ f. absurd (false≢true f)),
  )
    where
      false≢true : false ≢ true
      false≢true f = cc
  hit_by_mode fuel true present clean e = (
    rewritten fuel true present,
    runs fuel true present ∙ rw (dirty_bit fuel true present clean e) refl,
    rewritten_Acquired fuel true present e,
  )
  hit_by_mode fuel false present modified e =
      (counted, runs fuel false present, kept_Acquired fuel false present (λ f. e))
  hit_by_mode fuel true present modified e = (
    counted,
    runs fuel true present ∙ rw (dirty_bit fuel true present modified e) refl,
    kept_Acquired fuel true present (λ f. e),
  )

  -- A page that is in the cache is acquired at once, where it is.
  pub acquire_page-hit :
      (fuel : ℕ) (write : Bool) (present : mode range pg ≢ missing) → Here fuel write present
  acquire_page-hit fuel write present = hit_by_mode fuel write present (mode range pg) refl

  -- Releasing what has been acquired: the count goes down, and nothing else changes.
  pub release_page-IsCache :
      count ≤ refs range pg
      → IsCache dev y
          (release_page c range pg count)
          m
          mode
          (put2 refs range pg (refs range pg - count))
          Never
          y.n_pages
  unfolding release_page
  release_page-IsCache le =
      let left = refs range pg - count in
      let w = sub_u32 (c.state range pg) count in
      let c' : Cache Disk Content = record c { state = put2 c.state range pg w } in
      let now : w ≡ word (flags (mode range pg)) left =
        omega (arith, old_word, small_flags (mode range pg), few, le) in
      closed dev y m mode refs range pg c' (put2 refs range pg left)
        (put2_self c.state range pg w
          ∙ now
          ∙ ap (λ (n : ℕ). word (flags (mode range pg)) n) (sym (put2_self refs range pg left)))
        (opened dev y m mode refs range pg c w left (omega arith) is)
