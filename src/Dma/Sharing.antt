-- ===== src/Dma/Sharing.antt =====
-- The handles that share a mapping: `nvm_dma_remap` and `nvm_dma_unmap` over the mapping's life.
use atc26_shaper_io.Prelude.{
  ℕ, zero, suc, ◌+◌, ◌<◌, ◌≡◌, ◌≢◌, ◌^◌, ◌-◌, ◌∙◌, refl, ap, Bool, true, false, Bool-cases, inl,
  inr, List, [], ◌∷◌, ◌++◌, if_either, if◌then◌else◌, Option, none, some, ◌==◌, ne→==, arith,
}
use atc26_shaper_io.Prelude.Words.{u32, sub_u32}
use atc26_shaper_io.Dma.{
  VaRange, Handle, Mapping, Space, Event, Outcomes, unmapped, released_range, note, page_size_of,
  put_map, get_map, put_ctrl, remove_map, create_container, nvm_dma_remap, nvm_dma_unmap,
}
use atc26_shaper_io.Controller.{Container, Release, nvm_ctrl_free, released}
use atc26_shaper_io.Controller.References.{
  ReleasedOnce, released-ReleasedOnce, put-last, nvm_ctrl_put-more, nvm_ctrl_free_lem,
}
use mathlib.Core.List.{append_assoc, append-nil}
use native.Mathlib.Decide.{ℕ_discrete}

-- One for a handle, none for NULL.
abbrev pub handles : Option Handle → ℕ
handles none = 0
handles (some handle) = 1

-- What can become of the mapping `md` of one handle in the state `before`: `n` is the number of handles.
pub data Shared (md : Mapping) (before : Space) : ℕ → Option Mapping → Space → Type 0 where
  begin : Shared md before 1 (some md) before
  copy :
      {n : ℕ} {now : Mapping} {space : Space}
      → Shared md before n (some now) space
      → n + 1 < 2 ^ 32
      → (env : Outcomes) (other : Handle)
      → Shared md before
          (n + handles (nvm_dma_remap env now other space).1)
          (nvm_dma_remap env now other space).2
          (nvm_dma_remap env now other space).3
  drop :
      {n : ℕ} {now : Mapping} {space : Space}
      → Shared md before (suc n) (some now) space
      → Shared md before n (nvm_dma_unmap now space).0 (nvm_dma_unmap now space).1

-- The state that `put_map` makes for the last handle.
abbrev closed_map : Mapping → Space → Space
closed_map md before =
    remove_map
      (note (if md.unmap then note before (unmapped md.va) else before) (released_range md.va))

-- The calls for a range that is given up.
abbrev pub range_calls : Bool → VaRange → List Event
range_calls true va = unmapped va ∷ (released_range va ∷ [])
range_calls false va = released_range va ∷ []

-- What the last handle of `md` leaves of `before`, with the controller `c`: the range is unmapped, if the
-- device can, and then released; of the controller's references there is one less, and when that was the
-- last the controller is gone and its device has been released.
pub record Closed (md : Mapping) (c : Container) (before after : Space) : Type 0 where
  pub calls : after.calls ≡ before.calls ++ range_calls md.unmap md.va
  pub others :
      1 < c.count
      → (after.controller ≡ some (record c { count = c.count - 1 }))
        × (after.closed ≡ before.closed)
  pub last :
      c.count ≡ 1
      → (after.controller ≡ none)
        × (done : List Release) × (after.closed ≡ before.closed ++ done)
        × ReleasedOnce c done

-- A mapping with `n` handles. `Gone` is what is to hold when it has none.
unfoldable pub Live : Mapping → Space → (Space → Type 0) → ℕ → Option Mapping → Space → Type 0
Live md before Gone n (some now) space =
    (0 < n) × (n < 2 ^ 32) × (now ≡ record md { count = n }) × (space ≡ before)
Live md before Gone n none space = (n ≡ 0) × Gone space

pub get_map-counts :
    (lock : ℕ) (md : Mapping)
    → lock ≡ 0
    → md.count + 1 < 2 ^ 32
    → get_map lock md ≡ (0, record md { count = md.count + 1 })
unfolding get_map
get_map-counts lock md free small =
    let more : u32 (md.count + 1) ≡ md.count + 1 = omega arith in rw (free, more) refl

module _ (md : Mapping) (before : Space) where
  abbrev counted : ℕ → Mapping
  counted n = record md { count = n }

  put_map-last : put_map (counted 1) before ≡ (none, closed_map md before)
  unfolding put_map
  put_map-last = refl

  pub put_map-more :
      (n : ℕ)
      → 0 < n
      → suc n < 2 ^ 32
      → put_map (counted (suc n)) before ≡ (some (counted n), before)
  unfolding put_map
  put_map-more n pos small =
      let less : sub_u32 (suc n) 1 ≡ n = omega arith in rw (less, ne→== n 0 (omega arith)) refl

  get_map_next :
      (lock n : ℕ) → lock ≡ 0 → n + 1 < 2 ^ 32 → get_map lock (counted n) ≡ (0, counted (suc n))
  get_map_next lock n free small =
      let e : n + 1 ≡ suc n = omega arith in
      get_map-counts lock (counted n) free small ∙ (λ i. (0, counted (e i)))

  get_map-busy : (lock n : ℕ) → lock ≢ 0 → get_map lock (counted n) ≡ (lock, counted n)
  unfolding get_map
  get_map-busy lock n ne = rw (ne→== lock 0 ne) refl

  pub nvm_dma_unmap_lem :
      (n : ℕ)
      → 0 < n
      → suc n < 2 ^ 32
      → nvm_dma_unmap (counted (suc n)) before ≡ (some (counted n), before)
  unfolding nvm_dma_unmap
  nvm_dma_unmap_lem n pos small = put_map-more n pos small

  pub copy-Live :
      (Gone : Space → Type 0) (n : ℕ) (env : Outcomes) (other : Handle)
      → 0 < n
      → n + 1 < 2 ^ 32
      → let r = nvm_dma_remap env (counted n) other before in
        Live md before Gone (n + handles r.1) r.2 r.3
  unfolding Live nvm_dma_remap
  copy-Live Gone n env other pos small = elim (ℕ_discrete env.map_lock 0) [
    | no busy ↦
        rw (get_map-busy env.map_lock n busy, ne→== env.map_lock 0 busy)
          (omega arith, omega arith, same n, refl)
    | yes free ↦
        rw (get_map_next env.map_lock n free small, put_map-more n pos (omega arith))
          (if_either At ((create_container env ps (counted (suc n))).0 == 0)
            (λ e. (omega arith, omega arith, λ i. counted (grown i), refl))
            (λ e. (omega arith, omega arith, same n, refl)))
  ]
    where
      ps : ℕ
      ps = page_size_of before.controller

      At : ℕ × Option Handle × Option Mapping × Space → Type 0
      At r = Live md before Gone (n + handles r.1) r.2 r.3

      same : (n : ℕ) → counted n ≡ counted (n + 0)
      same n = let e : n ≡ n + 0 = omega arith in λ i. counted (e i)

      grown : suc n ≡ n + 1
      grown = omega arith

-- What returning a reference to the controller `c` leaves of the state `space`.
module _ (space : Space) (c : Container) (with_c : space.controller ≡ some c) where
  put_ctrl-calls : (put_ctrl space).calls ≡ space.calls
  unfolding put_ctrl
  put_ctrl-calls = refl

  put_ctrl-others :
      1 < c.count
      → c.count < 2 ^ 32
      → ((put_ctrl space).controller ≡ some (record c { count = c.count - 1 }))
        × ((put_ctrl space).closed ≡ space.closed)
  unfolding put_ctrl
  put_ctrl-others more small =
      let put : nvm_ctrl_free space.controller ≡ (some (record c { count = c.count - 1 }), []) =
        ap nvm_ctrl_free with_c
        ∙ nvm_ctrl_free_lem c
        ∙ nvm_ctrl_put-more c (c.count - 1) (omega arith) (omega arith) (omega arith) in
      rw put (refl, append-nil space.closed)

  put_ctrl-last :
      c.count ≡ 1
      → ((put_ctrl space).controller ≡ none)
        × ((put_ctrl space).closed ≡ space.closed ++ released c.device c.handle)
  unfolding put_ctrl
  put_ctrl-last one =
      let put : nvm_ctrl_free space.controller ≡ (none, released c.device c.handle) =
        ap nvm_ctrl_free with_c ∙ nvm_ctrl_free_lem c ∙ put-last c c one refl refl in
      rw put (refl, refl)

-- With the controller `c`.
module _ (md : Mapping) (before : Space) (c : Container) (with_c : before.controller ≡ some c)
    (small : c.count < 2 ^ 32) where
  -- when the range has been given up
  abbrev given_up : Space
  given_up = note (if md.unmap then note before (unmapped md.va) else before) (released_range md.va)

  given_up-lem :
      (given_up.calls ≡ before.calls ++ range_calls md.unmap md.va)
      × (given_up.controller ≡ before.controller)
      × (given_up.closed ≡ before.closed)
  given_up-lem = elim (Bool-cases md.unmap) [
    | inl e ↦
        rw e
          (append_assoc before.calls (unmapped md.va ∷ []) (released_range md.va ∷ []), refl, refl)
    | inr e ↦ rw e (refl, refl, refl)
  ]

  closed_map-Closed : Closed md c before (closed_map md before)
  unfolding remove_map
  closed_map-Closed =
      let (calls, same, closed) = given_up-lem in
      let still : given_up.controller ≡ some c = same ∙ with_c in
      record {
        calls = put_ctrl-calls given_up c still ∙ calls;
        others = λ more.
            let (gone, left) = put_ctrl-others given_up c still more small in (gone, left ∙ closed);
        last = λ one.
            let (gone, left) = put_ctrl-last given_up c still one in
            (
              gone,
              released c.device c.handle,
              left ∙ ap (λ (l : List Release). l ++ released c.device c.handle) closed,
              released-ReleasedOnce c,
            );
      }

  abbrev counted' : ℕ → Mapping
  counted' n = record md { count = n }

  drop-Live :
      (n : ℕ)
      → suc n < 2 ^ 32
      → Live md before
          (Closed md c before)
          n
          (nvm_dma_unmap (counted' (suc n)) before).0
          (nvm_dma_unmap (counted' (suc n)) before).1
  unfolding Live nvm_dma_unmap
  drop-Live zero small' = rw (put_map-last md before) (refl, closed_map-Closed)
  drop-Live (suc n) small' =
      rw (put_map-more md before (suc n) (omega arith) small')
        (omega arith, omega arith, refl, refl)

  -- However handles on a mapping are made from each other and dropped, and whichever of the calls fail:
  -- while there are handles, fewer than 2^32, the mapping's count is their number and nothing else has
  -- changed. When the last is gone the mapping is gone: its range has been unmapped if the device can do
  -- so, then released, once each. A controller `c` of the state, with fewer than 2^32 references, then has
  -- one less; if the mapping's was the only one it is gone, and its device, if it has one, has been
  -- released once.
  pub Shared-Live :
      md.count ≡ 1
      → {n : ℕ} {now : Option Mapping} {space : Space} → Shared md before n now space
      → Live md before (Closed md c before) n now space
  unfolding Live
  Shared-Live one begin = (omega arith, omega arith, λ i. record md { count = one i }, refl)
  Shared-Live one (copy {n} {now} {space} r small' env other) =
      let (pos', lt, is, same) = Shared-Live one r in
      rw (is, same) (copy-Live md before (Closed md c before) n env other pos' small')
  Shared-Live one (drop {n} {now} {space} r) =
      let (pos', lt, is, same) = Shared-Live one r in rw (is, same) (drop-Live n lt)
