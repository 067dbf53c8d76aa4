-- ===== src/Dma/Addresses.antt =====
-- `nvm_dma_map`: a mapping from addresses that the user has.
use atc26_shaper_io.Prelude.{
  ℕ, ◌+◌, ◌*◌, ◌%◌, ◌<◌, ◌≡◌, ◌⊎◌, inl, inr, ◌^◌, refl, true, false, if_either, Option, none, some,
  ◌==◌, List, arith,
}
use atc26_shaper_io.Controller.{Container}
use atc26_shaper_io.Dma.{
  VaRange, Handle, Mapping, Space, Outcomes, Result, failed, made, note, allocated, released_range,
  remove_map, create_container, populate_handle, map_container, nvm_dma_map,
}
use atc26_shaper_io.Dma.Undo.{
  holding, one_more, fresh, Outcome, put_ctrl-back, create_map-Outcome, container-even,
}

-- The state as it was, or with a range allocated and released.
pub Balanced : Space → VaRange → Space → Type 0
Balanced before va after =
    (after ≡ before) ⊎ (after ≡ note (note before (allocated va)) (released_range va))

-- What a function may return: an error and a balanced state, or what `Good` says.
pub Kept :
    Space → VaRange → (Mapping × Handle → Space → Type 0) → Result (Mapping × Handle) → Type 0
Kept before va Good (failed err space) = Balanced before va space
Kept before va Good (made a space) = Good a space

module _ (env : Outcomes) (before : Space) (c : Container) (vaddr page_size n_pages : ℕ) where
  abbrev pub range : VaRange
  range = record { remote = false; vaddr = vaddr; page_size = page_size; n_pages = n_pages }

  abbrev ranged : Space
  ranged = note before (allocated range)

  -- A mapping of given addresses, which the device need not undo.
  pub record Given (ioaddrs : Option (List ℕ)) (pair : Mapping × Handle) (after : Space)
      : Type 0 where
    pub new : pair.0 ≡ fresh range
    pub referenced : after ≡ holding ranged (one_more c)
    pub aligned : page_size * n_pages % c.handle.page_size ≡ 0
    pub pages :
        (blank : Handle) × (io : List ℕ) × (ioaddrs ≡ some io)
        × (pair.1 ≡ populate_handle blank range c.handle.page_size io)

  container-Kept :
      (io : List ℕ)
      → 0 < c.count
      → c.count + 1 < 2 ^ 32
      → (r : Result Mapping)
      → Outcome
          (holding ranged c)
          (λ md s. (md ≡ fresh range) × (s ≡ holding ranged (one_more c)))
          r
      → Kept (holding before c) range (Given (some io)) (map_container env range io r)
  unfolding Kept Balanced Outcome remove_map
  container-Kept io pos small (failed err s) is = rw is (inr refl)
  container-Kept io pos small (made md s) (new, same) =
      let cc = create_container env c.handle.page_size (fresh range) in
      rw (new, same)
        (if_either (Kept (holding before c) range (Given (some io))) (cc.0 == 0)
          (λ zero. record {
            new = refl;
            referenced = refl;
            aligned = (container-even env ranged c range (fresh range) (ground arith)).0;
            pages = (cc.1, io, refl, refl);
          })
          (λ bad. rw (put_ctrl-back ranged c pos small) (inr refl)))

  -- Mapping given addresses either fails, and then the controller's references are as they were and a
  -- range, if one was allocated, has been freed, whichever of the calls it is that fails, or gives a
  -- handle on a new mapping of whole controller pages at those addresses, which holds a reference to
  -- the controller.
  pub nvm_dma_map-Kept :
      (ioaddrs : Option (List ℕ))
      → 0 < c.count
      → c.count + 1 < 2 ^ 32
      → Kept
          (holding before c)
          range
          (Given ioaddrs)
          (nvm_dma_map env (holding before c) vaddr page_size n_pages ioaddrs)
  unfolding nvm_dma_map Kept Balanced
  nvm_dma_map-Kept none pos small = inl refl
  nvm_dma_map-Kept (some io) pos small =
      if_either (Kept (holding before c) range (Given (some io))) env.va_memory
        (λ e. container-Kept io pos small _ (create_map-Outcome env ranged c range true pos small))
        (λ e. inl refl)
