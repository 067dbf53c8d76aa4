-- ===== src/PageCache/Miss.antt =====
-- `acquire_page` on a page that is not in the cache, and in both cases.
use atc26_shaper_io.Prelude.{
  ℕ, suc, ◌+◌, ◌/◌, ◌%◌, ◌^◌, ◌<◌, ◌≡◌, ◌≢◌, inl, inr, refl, sym, ap, ◌∙◌, Bool, some, bit_and,
  bit_or, arith,
}
use atc26_shaper_io.PageCache.{Cache, Device, put2, busy, find_slot, fill, acquire_page}
use atc26_shaper_io.PageCache.Words.{
  Mode, missing, clean, modified, flags, word, busy-word, or_busy-word, status-word,
}
use atc26_shaper_io.PageCache.Memory.{
  IsDevice, Layout, IsLayout, In, Apart2, page_cases, put2_self, put2-ne,
}
use atc26_shaper_io.PageCache.Coherent.{At, Never, IsCache}
use atc26_shaper_io.PageCache.Take.{Won}
use atc26_shaper_io.PageCache.Slot.{Available, find_slot-Won}
use atc26_shaper_io.PageCache.Fill.{after, filled, filled-IsCache, after≢missing}
use atc26_shaper_io.PageCache.Acquire.{modified≢missing, reworded, Acquired, taken, loop_miss}
use atc26_shaper_io.PageCache.Hit.{counted, old_word, new_word, opened_counted, acquire_page-hit}

module _ {Disk Content : Type 0} (dev : Device Disk Content) (keeps : IsDevice dev) (y : Layout)
    (lay : IsLayout y) (m : ℕ → ℕ → Content) (mode : ℕ → ℕ → Mode) (refs : ℕ → ℕ → ℕ)
    (range pg count : ℕ) (c : Cache Disk Content) (is : IsCache dev y c m mode refs Never y.n_pages)
    (in_page : In y range pg) (few : refs range pg + count < 2 ^ 29) where
  abbrev refs' : ℕ → ℕ → ℕ
  refs' = put2 refs range pg (refs range pg + count)

  module _ (absent : mode range pg ≡ missing) (d fuel : ℕ) (near : c.page_ticket + d < 2 ^ 32)
      (there : Available dev keeps y lay m refs range pg in_page c mode
        ((c.page_ticket + d) % c.n_pages))
      (lt : d < fuel) (write : Bool) where
    abbrev k : Cache Disk Content
    k = counted dev y m mode refs range pg count c is in_page few

    abbrev k' : Cache Disk Content
    k' = taken dev fuel k range pg write

    k_word : k.state range pg ≡ word 0 (refs range pg + count)
    k_word =
        new_word dev y m mode refs range pg count c is in_page few
        ∙ ap (λ (j : Mode). word (flags j) (refs range pg + count)) absent

    k'_stands : IsCache dev y k' m mode refs' (At range pg) y.n_pages
    k'_stands =
        reworded dev y m mode refs range pg k refs' (bit_or (k.state range pg) busy)
          (opened_counted dev y m mode refs range pg count c is in_page few)

    k'_word : k'.state range pg ≡ word 2 (refs' range pg)
    k'_word =
        put2_self k.state range pg (bit_or (k.state range pg) busy)
        ∙ ap (λ (w : ℕ). bit_or w busy) k_word
        ∙ or_busy-word 0 (refs range pg + count) few
        ∙ ap (λ (n : ℕ). word 2 n) (sym (put2_self refs range pg (refs range pg + count)))

    -- The page itself is not the one that can be evicted, since it is not in the cache.
    still_there :
        Available dev keeps y lay m refs' range pg in_page k' mode ((c.page_ticket + d) % c.n_pages)
    still_there = elim there [
      | inl f ↦ inl f
      | inr (l, (r, a, (holds, unused))) ↦
          let (_, _, present, _) = holds in
          let away : Apart2 range pg r a = elim (page_cases range pg r a) [
            | inl (er, ea) ↦
                absurd
                  (present (ap (λ (z : ℕ). mode z a) er ∙ ap (λ (z : ℕ). mode range z) ea ∙ absent))
            | inr other ↦ other
          ] in
          inr (l, (r, a, (holds, put2-ne refs range pg (refs range pg + count) r a away ∙ unused)))
    ]

    abbrev Missed : Type 0
    Missed =
        (page_trans : ℕ) × (c' : Cache Disk Content) × (acquire_page dev (suc fuel) c range pg count
            write
          ≡ some (page_trans, c'))
        × Acquired dev y m mode refs range pg count write c page_trans c'

    status : bit_and (c.state range pg / 2 ^ 30) 0x03 ≡ 0
    status =
        ap (λ (w : ℕ). bit_and (w / 2 ^ 30) 0x03)
          (old_word dev y m mode refs range pg count c is in_page few
            ∙ ap (λ (j : Mode). word (flags j) (refs range pg)) absent)
        ∙ status-word 0 (refs range pg) (omega arith)

    now_status : bit_and (k.state range pg / 2 ^ 30) 0x03 ≡ 0
    now_status =
        ap (λ (w : ℕ). bit_and (w / 2 ^ 30) 0x03) k_word ∙ status-word 0 (refs range pg + count) few

    not_busy : bit_and (k.state range pg) busy ≡ 0
    not_busy = ap (λ (w : ℕ). bit_and w busy) k_word ∙ busy-word 0 (refs range pg + count) few

    module _ {p : ℕ} {c' : Cache Disk Content}
        (found : find_slot dev fuel k' pg range ≡ some (p, c'))
        (won : Won dev keeps y lay m refs' range pg in_page k' mode p c') where
      c'_word : c'.state range pg ≡ word 2 (refs' range pg)
      c'_word = won.same_state ∙ k'_word

      abbrev c'' : Cache Disk Content
      c'' =
          filled dev y lay m refs' range pg in_page c' won.mode' p won.small won.stands won.absent
            won.open_lock won.translated c'_word write

      runs : acquire_page dev (suc fuel) c range pg count write ≡ some (p, c'')
      unfolding acquire_page
      runs = loop_miss dev fuel k range pg write (c.state range pg) status not_busy now_status found

      slot : c''.offset range pg ≡ p
      unfolding fill
      slot = put2_self c'.offset range pg p

      offset_same : (s x : ℕ) → Apart2 range pg s x → c''.offset s x ≡ c.offset s x
      unfolding fill
      offset_same s x away =
          put2-ne c'.offset range pg p s x away ∙ ap (λ (f : ℕ → ℕ → ℕ). f s x) won.same_offset

      abbrev new_mode : ℕ → ℕ → Mode
      new_mode = put2 won.mode' range pg (after write)

      new_stands : IsCache dev y c'' m new_mode refs' Never y.n_pages
      new_stands =
          filled-IsCache dev y lay m refs' range pg in_page c' won.mode' p won.small won.stands
            won.absent won.open_lock won.translated c'_word write

      after_present : new_mode range pg ≢ missing
      after_present e =
          after≢missing dev y lay m refs' range pg in_page c' won.mode' p won.small won.stands
            won.absent won.open_lock won.translated c'_word write write
            (sym (put2_self won.mode' range pg (after write)) ∙ e)

      missed_Acquired : Acquired dev y m mode refs range pg count write c p c''
      missed_Acquired = record {
        mode' = new_mode;
        stands = new_stands;
        present = after_present;
        slot = slot;
        content =
            ap (λ (q : ℕ). c''.frame q) (sym slot)
            ∙ new_stands.in_frame range pg in_page after_present;
        written = λ w. put2_self won.mode' range pg (after write) ∙ ap after w;
        pinned = λ s x away used. (
          put2-ne won.mode' range pg (after write) s x away
              ∙ won.pinned s x
                  (λ e. used (sym (put2-ne refs range pg (refs range pg + count) s x away) ∙ e)),
          offset_same s x away,
        );
      }

    acquire_page-miss : Missed
    acquire_page-miss =
        let (p, c', found, won) =
          find_slot-Won dev keeps y lay m refs' range pg in_page d fuel k' mode absent k'_stands
            near still_there lt in
        (p, c'' found won, runs found won, missed_Acquired found won)

  -- A thread that runs alone gets the page that it asks for, with the content that the memory has there,
  -- whether the page is in the cache or another must give way: some cache page can be won within `d`
  -- steps of the ticket, and the fuel is enough for these. The cache still stands for the same memory:
  -- whatever has been evicted is on its devices.
  pub acquire_page-Acquired :
      (d fuel : ℕ) (write : Bool)
      → c.page_ticket + d < 2 ^ 32
      → Available dev keeps y lay m refs range pg in_page c mode ((c.page_ticket + d) % c.n_pages)
      → d < fuel
      → (page_trans : ℕ) × (c' : Cache Disk Content) × (acquire_page dev
            (suc fuel)
            c
            range
            pg
            count
            write
          ≡ some (page_trans, c'))
        × Acquired dev y m mode refs range pg count write c page_trans c'
  acquire_page-Acquired d fuel write near there lt = by_mode (mode range pg) refl
    where
      at_once :
          mode range pg ≢ missing
          → (page_trans : ℕ) × (c' : Cache Disk Content) × (acquire_page dev
                (suc fuel)
                c
                range
                pg
                count
                write
              ≡ some (page_trans, c'))
            × Acquired dev y m mode refs range pg count write c page_trans c'
      at_once present =
          let (c', e, acquired) =
            acquire_page-hit dev y m mode refs range pg count c is in_page few fuel write present in
          (c.offset range pg, c', e, acquired)

      by_mode :
          (j : Mode)
          → mode range pg ≡ j
          → (page_trans : ℕ) × (c' : Cache Disk Content) × (acquire_page dev
                (suc fuel)
                c
                range
                pg
                count
                write
              ≡ some (page_trans, c'))
            × Acquired dev y m mode refs range pg count write c page_trans c'
      by_mode missing e = acquire_page-miss e d fuel near there lt write
      by_mode clean e = at_once (λ f. clean≢missing (sym e ∙ f))
        where
          clean≢missing : clean ≢ missing
          clean≢missing q = cc
      by_mode modified e = at_once (λ f. modified≢missing (sym e ∙ f))
