-- ===== src/Dma/Undo.antt =====
-- Errors while a range is mapped: what had been taken is given back.
use atc26_shaper_io.Prelude.{
  ℕ, ◌+◌, ◌*◌, ◌%◌, ◌<◌, ◌≡◌, ◌≢◌, ◌^◌, ◌∙◌, refl, ap, Bool, true, false, not, ◌||◌, if_either,
  List, some, ◌==◌, arith,
}
use atc26_shaper_io.Controller.{Container, Release}
use atc26_shaper_io.Controller.References.{
  nvm_ctrl_get-counts, nvm_ctrl_get-refused, nvm_ctrl_put-more, nvm_ctrl_free_lem,
}
use mathlib.Core.List.{append-nil}
use atc26_shaper_io.Dma.{
  VaRange, Handle, Mapping, mapped, Space, Outcomes, Result, failed, made, note, get_ctrl, put_ctrl,
  create_map, remove_map, create_container, dma_map, mapped_or_removed, init_container,
  nvm_dma_init, populate_handle,
}
use atc26_shaper_io.Dma.Pages.{populate_handle-local}
use native.Mathlib.Decide.{ℕ_discrete}

-- The state with the controller `c`.
abbrev pub holding : Space → Container → Space
holding space c = record space { controller = some c }

abbrev pub one_more : Container → Container
one_more c = record c { count = c.count + 1 }

module _ (space : Space) (c : Container) (pos : 0 < c.count) (small : c.count + 1 < 2 ^ 32) where
  pub get_ctrl-one_more : get_ctrl 0 (holding space c) ≡ (true, holding space (one_more c))
  unfolding get_ctrl
  get_ctrl-one_more = rw (nvm_ctrl_get-counts c small) refl

  pub put_ctrl-back : put_ctrl (holding space (one_more c)) ≡ holding space c
  unfolding put_ctrl
  put_ctrl-back =
      rw
        (
          nvm_ctrl_free_lem (one_more c),
          nvm_ctrl_put-more (one_more c) c.count (omega arith) pos (omega arith),
        )
        (ap (λ (l : List Release). record space { controller = some c; closed = l })
          (append-nil space.closed))

pub get_ctrl-refused :
    (lock : ℕ) (space : Space) (c : Container)
    → lock ≢ 0
    → get_ctrl lock (holding space c) ≡ (false, holding space c)
unfolding get_ctrl
get_ctrl-refused lock space c ne = rw (nvm_ctrl_get-refused c lock ne) refl

-- What a function may return: an error with the state as it was, or what `Good` says.
unfoldable pub Outcome : {A : Type 0} → Space → (A → Space → Type 0) → Result A → Type 0
Outcome before Good (failed err space) = space ≡ before
Outcome before Good (made a space) = Good a space

abbrev pub fresh : VaRange → Mapping
fresh va = record { count = 1; va = va; unmap = false }

module _ (env : Outcomes) (before : Space) (c : Container) (va : VaRange) where
  abbrev pub held : Space
  held = holding before (one_more c)

  pub create_map-Outcome :
      (release : Bool)
      → 0 < c.count
      → c.count + 1 < 2 ^ 32
      → Outcome
          (holding before c)
          (λ md s. (md ≡ fresh va) × (s ≡ held))
          (create_map env (holding before c) va release)
  unfolding create_map Outcome
  create_map-Outcome release pos small = elim (ℕ_discrete env.ctrl_lock 0) [
    | yes free ↦
        rw (free, get_ctrl-one_more before c pos small)
          (if_either P (not release) (λ e. refl)
            (λ e.
              if_either P (not env.map_memory) (λ e. put_ctrl-back before c pos small)
                (λ e.
                  if_either P (env.mutex == 0) (λ e. (refl, refl))
                    (λ e. put_ctrl-back before c pos small))))
    | no busy ↦
        rw (get_ctrl-refused env.ctrl_lock before c busy)
          (if_either P (not release) (λ e. refl) (λ e. refl))
  ]
    where
      P : Result Mapping → Type 0
      P = Outcome (holding before c) (λ md s. (md ≡ fresh va) × (s ≡ held))

  -- A range that has been mapped for the controller, and its handle.
  pub record Mapped (pair : Mapping × Handle) (after : Space) : Type 0 where
    pub one : pair.0.count ≡ 1
    pub range : pair.0.va ≡ va
    pub undo : pair.0.unmap ≡ c.ops.unmap_range
    pub referenced : after ≡ note held (mapped va)
    pub aligned : va.page_size * va.n_pages % c.handle.page_size ≡ 0
    pub local : pair.1.local ≡ not va.remote
    pub pages :
        (blank : Handle) × (pair.1
          ≡ populate_handle blank va c.handle.page_size (env.map_range va).1)

  pub container-even :
      (md : Mapping)
      → (create_container env c.handle.page_size md).0 ≡ 0
      → (md.va.page_size * md.va.n_pages % c.handle.page_size ≡ 0)
        × ((create_container env c.handle.page_size md).1.local ≡ not md.va.remote)
  unfolding create_container
  container-even md =
      if_either Even (page_size == 0 || n_pages == 0 || not (rest == 0))
        (λ bad e. absurd (omega arith))
        (λ good.
          if_either Even env.container_memory (λ e zero. (even rest good, refl))
            (λ e zero. absurd (omega arith)))
    where
      page_size : ℕ
      page_size = md.va.page_size

      n_pages : ℕ
      n_pages = md.va.n_pages

      rest : ℕ
      rest = page_size * n_pages % c.handle.page_size

      Even : ℕ × Handle → Type 0
      Even r = r.0 ≡ 0 → (rest ≡ 0) × (r.1.local ≡ not md.va.remote)

      even : (r : ℕ) → (page_size == 0 || n_pages == 0 || not (r == 0)) ≡ false → r ≡ 0
      even r good = ground arith

  dma_map-Outcome :
      (handle : Handle)
      → va.page_size * va.n_pages % c.handle.page_size ≡ 0
      → handle.local ≡ not va.remote
      → Outcome held Mapped (dma_map env (fresh va) handle held)
  unfolding dma_map Outcome
  dma_map-Outcome handle even local =
      if_either P (not c.ops.map_range) (λ e. refl)
        (λ e.
          if_either P (not env.list_memory) (λ e. refl)
            (λ e.
              if_either P ((env.map_range va).0 == 0)
                (λ e. record {
                  one = refl;
                  range = refl;
                  undo = refl;
                  referenced = refl;
                  aligned = even;
                  local =
                      populate_handle-local handle va c.handle.page_size (env.map_range va).1
                      ∙ local;
                  pages = (handle, refl);
                })
                (λ e. refl)))
    where
      P : Result (Mapping × Handle) → Type 0
      P = Outcome held Mapped

  undone :
      0 < c.count
      → c.count + 1 < 2 ^ 32
      → (r : Result (Mapping × Handle)) → Outcome held Mapped r
      → Outcome (holding before c) Mapped (mapped_or_removed r)
  unfolding Outcome remove_map
  undone pos small (failed err s) is = rw is (put_ctrl-back before c pos small)
  undone pos small (made pair s) is = is

  container-Outcome :
      0 < c.count
      → c.count + 1 < 2 ^ 32
      → (r : Result Mapping) → Outcome (holding before c) (λ md s. (md ≡ fresh va) × (s ≡ held)) r
      → Outcome (holding before c) Mapped (init_container env r)
  unfolding Outcome remove_map
  container-Outcome pos small (failed err s) is = is
  container-Outcome pos small (made md s) (new, same) =
      let cc = create_container env c.handle.page_size (fresh va) in
      rw (new, same)
        (if_either (Outcome (holding before c) Mapped) (cc.0 == 0)
          (λ zero.
            let (even, local) = container-even (fresh va) (ground arith) in
            undone pos small _ (dma_map-Outcome cc.1 even local))
          (λ bad. put_ctrl-back before c pos small))

  -- Mapping a range for a controller either fails and leaves the controller's references, the device and
  -- the range as they were, whichever of the calls it is that fails, or gives a handle on a new mapping,
  -- which holds a reference to the controller: the range is a whole number of its pages, it has been
  -- mapped, and the mapping knows how to undo that.
  pub nvm_dma_init-Outcome :
      (release : Bool)
      → 0 < c.count
      → c.count + 1 < 2 ^ 32
      → Outcome (holding before c) Mapped (nvm_dma_init env (holding before c) va release)
  unfolding nvm_dma_init Outcome
  nvm_dma_init-Outcome release pos small =
      if_either (Outcome (holding before c) Mapped) release
        (λ e. container-Outcome pos small _ (create_map-Outcome release pos small)) (λ e. refl)
