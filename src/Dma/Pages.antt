-- ===== src/Dma/Pages.antt =====
-- The addresses and the flag that `populate_handle` sets.
use atc26_shaper_io.Prelude.{
  ℕ, zero, suc, ◌+◌, ◌*◌, ◌/◌, ◌%◌, ◌<◌, ◌≡◌, ◌↔◌, ◌∙◌, refl, sym, ap, Bool, true, false, not, ◌&&◌,
  List, ◌==◌, ltb, lt→ltb, if◌then◌else◌, get_or, length, eq→==, ne→==, arith,
}
use native.Mathlib.Nat.{add-zero}
use native.Mathlib.Decide.{ℕ_discrete}
use atc26_shaper_io.Dma.{VaRange, Handle, n_ctrl_pages, page_ioaddr, populate_loop, populate_handle}

module _ (cs ps : ℕ) (io : List ℕ) where
  abbrev addr : ℕ → ℕ
  addr i = page_ioaddr cs ps io i

  abbrev pages : ℕ → ℕ → ℕ → Bool → List ℕ
  pages n i previous flag = (populate_loop cs ps io n i previous flag).0

  shift : (i j : ℕ) → i + 1 + j ≡ i + suc j
  shift i j = omega arith

  loop-length : (n i previous : ℕ) (flag : Bool) → length (pages n i previous flag) ≡ n
  unfolding populate_loop
  loop-length zero i previous flag = refl
  loop-length (suc n) i previous flag = ap suc (loop-length n (i + 1) _ _)

  loop-pages :
      (n i previous : ℕ) (flag : Bool) (j : ℕ)
      → j < n
      → get_or (pages n i previous flag) j 0 ≡ addr (i + j)
  unfolding populate_loop
  loop-pages zero i previous flag j lt = absurd (omega arith)
  loop-pages (suc n) i previous flag zero lt = ap (λ (t : ℕ). addr t) (sym (add-zero i))
  loop-pages (suc n) i previous flag (suc j) lt =
      loop-pages n (i + 1) _ _ j (omega arith) ∙ ap (λ (t : ℕ). addr t) (shift i j)

  -- The flag after one page.
  abbrev still : ℕ → ℕ → Bool → Bool
  still i previous flag = if ltb 0 i && not (previous + cs == addr i) then false else flag

  still-keeps :
      (i previous : ℕ) (flag : Bool)
      → flag ≡ true
      → (0 < i → previous + cs ≡ addr i)
      → still i previous flag ≡ true
  still-keeps zero previous flag up next = up
  still-keeps (suc i) previous flag up next =
      rw (lt→ltb 0 (suc i) (omega arith), eq→== (previous + cs) (addr (suc i)) (next (omega arith)))
        up

  still-tells :
      (i previous : ℕ) (flag : Bool)
      → still i previous flag ≡ true
      → (flag ≡ true) × (0 < i → previous + cs ≡ addr i)
  still-tells zero previous flag e = (e, λ lt. absurd (omega arith))
  still-tells (suc i) previous flag e = elim (ℕ_discrete (previous + cs) (addr (suc i))) [
    | yes same ↦ (
      rw (lt→ltb 0 (suc i) (omega arith), eq→== (previous + cs) (addr (suc i)) same) at e,
      λ lt. same,
    )
    | no ne ↦ absurd (
        let f = rw (lt→ltb 0 (suc i) (omega arith), ne→== (previous + cs) (addr (suc i)) ne) at e in
        cc)
  ]

  -- Each of `n` pages from `i` on follows the one before, the first of them `previous`.
  abbrev Follow : ℕ → ℕ → ℕ → Type 0
  Follow n i previous =
      (0 < i → 0 < n → previous + cs ≡ addr i)
      × ((j : ℕ) → suc j < n → addr (i + j) + cs ≡ addr (i + suc j))

  flag-keeps :
      (n i previous : ℕ) (flag : Bool)
      → flag ≡ true
      → Follow n i previous
      → (populate_loop cs ps io n i previous flag).1 ≡ true
  unfolding populate_loop
  flag-keeps zero i previous flag up follow = up
  flag-keeps (suc n) i previous flag up (first, rest) =
      flag-keeps n (i + 1) (addr i) (still i previous flag)
        (still-keeps i previous flag up (λ lt. first lt (omega arith)))
        (
          (λ lt some_left. ap (λ (t : ℕ). addr t + cs) (sym (add-zero i)) ∙ rest 0 (omega arith)),
          λ j lt.
              ap (λ (t : ℕ). addr t + cs) (shift i j)
              ∙ rest (suc j) (omega arith)
              ∙ ap (λ (t : ℕ). addr t) (sym (shift i (suc j))),
        )

  flag-tells :
      (n i previous : ℕ) (flag : Bool)
      → (populate_loop cs ps io n i previous flag).1 ≡ true
      → (flag ≡ true) × Follow n i previous
  unfolding populate_loop
  flag-tells zero i previous flag e =
      (e, (λ lt none_left. absurd (omega arith), λ j lt. absurd (omega arith)))
  flag-tells (suc n) i previous flag e =
      let (kept, (first, rest)) = flag-tells n (i + 1) (addr i) (still i previous flag) e in
      let (up, here) = still-tells i previous flag kept in
      (up, (λ lt some_left. here lt, follow n i first rest))
    where
      follow :
          (n i : ℕ)
          → (0 < i + 1 → 0 < n → addr i + cs ≡ addr (i + 1))
          → ((j : ℕ) → suc j < n → addr (i + 1 + j) + cs ≡ addr (i + 1 + suc j))
          → (j : ℕ) → suc j < suc n
          → addr (i + j) + cs ≡ addr (i + suc j)
      follow n i first rest zero lt =
          ap (λ (t : ℕ). addr t + cs) (add-zero i) ∙ first (omega arith) (omega arith)
      follow n i first rest (suc j) lt =
          ap (λ (t : ℕ). addr t + cs) (sym (shift i j))
          ∙ rest j (omega arith)
          ∙ ap (λ (t : ℕ). addr t) (shift i (suc j))

-- A handle has one address for each controller page, at its offset in the buffer's page that it lies in.
-- The handle is marked as contiguous just when each of these addresses is a page size after the one
-- before.
pub populate_handle_lem :
    (blank : Handle) (va : VaRange) (ctrl_page_size : ℕ) (ioaddrs : List ℕ)
    → let handle = populate_handle blank va ctrl_page_size ioaddrs in
      let n = va.page_size * va.n_pages / ctrl_page_size in
      let at_page : ℕ → ℕ = λ i.
        get_or ioaddrs (i * ctrl_page_size / va.page_size) 0 + i * ctrl_page_size % va.page_size in
      (length handle.ioaddrs ≡ n)
      × ((i : ℕ) → i < n → get_or handle.ioaddrs i 0 ≡ at_page i)
      × ((handle.contiguous ≡ true)
          ↔ ((i : ℕ) → i + 1 < n → at_page i + ctrl_page_size ≡ at_page (i + 1)))
unfolding populate_handle n_ctrl_pages page_ioaddr
populate_handle_lem blank va cs io =
    let n : ℕ = va.page_size * va.n_pages / cs in
    (
      loop-length cs va.page_size io n 0 0 true,
      λ i lt. loop-pages cs va.page_size io n 0 0 true i lt ∙ ap at_page (start i),
      (
        λ e i lt.
            let (_, (_, rest)) = flag-tells cs va.page_size io n 0 0 true e in
            ap (λ (t : ℕ). at_page t + cs) (sym (start i))
            ∙ rest i (omega arith)
            ∙ ap at_page (next i),
        λ follow. flag-keeps cs va.page_size io n 0 0 true refl (
          λ lt some_left. absurd (omega arith),
          λ j lt.
              ap (λ (t : ℕ). at_page t + cs) (start j)
              ∙ follow j (omega arith)
              ∙ ap at_page (sym (next j)),
        ),
      ),
    )
  where
    at_page : ℕ → ℕ
    at_page i = get_or io (i * cs / va.page_size) 0 + i * cs % va.page_size

    start : (i : ℕ) → 0 + i ≡ i
    start i = omega arith

    next : (i : ℕ) → 0 + suc i ≡ i + 1
    next i = omega arith

-- The flag for local memory is not set there.
pub populate_handle-local :
    (blank : Handle) (va : VaRange) (ctrl_page_size : ℕ) (ioaddrs : List ℕ)
    → (populate_handle blank va ctrl_page_size ioaddrs).local ≡ blank.local
unfolding populate_handle
populate_handle-local blank va cs io = refl
