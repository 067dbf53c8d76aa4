-- ===== src/Dma/Copies.antt =====
-- `nvm_dma_remap`: the handle that it makes is a copy of the one that it is given.
use atc26_shaper_io.Prelude.{
  ℕ, ◌+◌, ◌*◌, ◌/◌, ◌%◌, ◌<◌, ◌≤◌, ◌≡◌, ◌≢◌, ◌↔◌, ◌^◌, ◌∙◌, refl, sym, ap, Bool, true, not, some,
  ne→==, eq→==, get_or, length, arith,
}
use atc26_shaper_io.Controller.{Container}
use atc26_shaper_io.Dma.{
  VaRange, Handle, Mapping, Space, Outcomes, n_ctrl_pages, create_container, populate_handle,
  nvm_dma_remap,
}
use atc26_shaper_io.Dma.Pages.{populate_handle_lem, populate_handle-local}
use atc26_shaper_io.Dma.Undo.{holding}
use atc26_shaper_io.Dma.Sharing.{get_map-counts}
use native.Mathlib.Nat.{mul-div_cancel, mul-div_cancel_left, mul-mod_left}

-- A handle on the same pages: it says of memory and addresses what the other does.
pub record Copy (h other : Handle) (page_size : ℕ) : Type 0 where
  pub same_page_size : h.page_size ≡ page_size
  pub same_count : h.n_ioaddrs ≡ other.n_ioaddrs
  pub listed : length h.ioaddrs ≡ other.n_ioaddrs
  pub same_pages : (i : ℕ) → i < other.n_ioaddrs → get_or h.ioaddrs i 0 ≡ get_or other.ioaddrs i 0
  pub adjacent : (h.contiguous ≡ true) ↔ (
      (i : ℕ)
      → i + 1 < other.n_ioaddrs
      → get_or other.ioaddrs i 0 + page_size ≡ get_or other.ioaddrs (i + 1) 0)

module _ (blank other : Handle) (remote : Bool) (vaddr cs : ℕ) (pos : 0 < cs) where
  abbrev again : VaRange
  again = record { remote = remote; vaddr = vaddr; page_size = cs; n_pages = other.n_ioaddrs }

  abbrev copied : Handle
  copied = populate_handle blank again cs other.ioaddrs

  pages : cs * other.n_ioaddrs / cs ≡ other.n_ioaddrs
  pages = mul-div_cancel_left other.n_ioaddrs pos

  place : (i : ℕ) → get_or other.ioaddrs (i * cs / cs) 0 + i * cs % cs ≡ get_or other.ioaddrs i 0
  place i = rw (mul-div_cancel i pos, mul-mod_left i cs) (omega arith)

  copied-Copy : Copy copied other cs
  unfolding populate_handle n_ctrl_pages
  copied-Copy =
      let (len, at_page, (up, down)) = populate_handle_lem blank again cs other.ioaddrs in
      record {
        same_page_size = refl;
        same_count = pages;
        listed = len ∙ pages;
        same_pages = λ i lt. at_page i (omega (arith, pages)) ∙ place i;
        adjacent = (
          λ flag i lt.
              ap (λ (t : ℕ). t + cs) (sym (place i))
              ∙ up flag i (omega (arith, pages))
              ∙ place (i + 1),
          λ follow. down (λ i lt.
              ap (λ (t : ℕ). t + cs) (place i)
              ∙ follow i (omega (arith, pages))
              ∙ sym (place (i + 1))),
        );
      }

  copied-local : copied.local ≡ blank.local
  copied-local = populate_handle-local blank again cs other.ioaddrs

create_container-made :
    (env : Outcomes) (cs : ℕ) (md : Mapping)
    → env.container_memory ≡ true
    → md.va.page_size ≢ 0
    → md.va.n_pages ≢ 0
    → md.va.page_size * md.va.n_pages % cs ≡ 0
    → (create_container env cs md).0 ≡ 0
unfolding create_container
create_container-made env cs md room size some_pages even =
    rw (ne→== _ _ size, ne→== _ _ some_pages, eq→== _ _ even, room) refl

-- With its lock free, memory for a container and fewer than 2^32 - 1 handles, a mapping of a whole number
-- of controller pages, not none, gives a second handle from any handle of the controller's page size that
-- has no more pages than the mapping (the code relies on this and does not test it): the copy has the
-- other's addresses and their number, it is marked as contiguous just when they follow each other, and
-- the mapping counts it.
pub nvm_dma_remap-Copy :
    (env : Outcomes) (md : Mapping) (other : Handle) (before : Space) (c : Container)
    → env.map_lock ≡ 0
    → env.container_memory ≡ true
    → md.count + 1 < 2 ^ 32
    → 0 < c.handle.page_size
    → md.va.page_size ≢ 0
    → md.va.n_pages ≢ 0
    → md.va.page_size * md.va.n_pages % c.handle.page_size ≡ 0
    → other.page_size ≡ c.handle.page_size
    → other.n_ioaddrs ≤ n_ctrl_pages c.handle.page_size md.va.page_size md.va.n_pages
    → (h : Handle) × (nvm_dma_remap env md other (holding before c)
        ≡ (0, some h, some (record md { count = md.count + 1 }), holding before c))
      × Copy h other c.handle.page_size
unfolding nvm_dma_remap
nvm_dma_remap-Copy env md other before c free memory small pos size some_pages even same room =
    let held : Mapping = record md { count = md.count + 1 } in
    let blank = (create_container env c.handle.page_size held).1 in
    let copy = copied-Copy blank other (not other.local) md.va.vaddr c.handle.page_size pos in
    (
      copied blank other (not other.local) md.va.vaddr c.handle.page_size pos,
      rw
          (
            get_map-counts env.map_lock md free small,
            create_container-made env c.handle.page_size held memory size some_pages even,
            same,
          )
          refl,
      copy,
    )
