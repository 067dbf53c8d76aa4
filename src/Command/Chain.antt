-- ===== src/Command/Chain.antt =====
-- `nvm_prp_list_chain` and `nvm_cmd_data`: what the controller reads back from the lists of a command.
use atc26_shaper_io.Prelude.{
  ℕ, ◌+◌, ◌-◌, ◌*◌, ◌/◌, ◌≤◌, ◌<◌, ◌≡◌, refl, sym, ap, ◌∙◌, false, some, List, [], ◌∷◌, ◌++◌,
  length, length-drop, set, take, drop, ltb, lt→ltb, arith,
}
use atc26_shaper_io.Types.{PrpList}
use atc26_shaper_io.Command.{
  copy_prps, nvm_prp_list, prp_chain_loop, nvm_prp_list_chain, first_ioaddr,
}
use native.Mathlib.Decide.{dec_le}
use atc26_shaper_io.Prelude.Slices.{drop-drop, take-add}
use atc26_shaper_io.Command.Walk.{walk, ArePages, last_page, full_page, read_last, read_linked}

module _ (n : ℕ) (some_room : 1 < n) where
  module _ (n_pages : ℕ) (ioaddrs : List ℕ) (given : n_pages ≤ length ioaddrs) where
    loop_done :
        (last : PrpList) (lists : List PrpList) (used : ℕ)
        → prp_chain_loop last lists used n_pages n_pages ioaddrs ≡ (n_pages, last ∷ lists)
    unfolding prp_chain_loop
    loop_done last [] used = refl
    loop_done last (list ∷ lists) used =
        let e : ltb n_pages n_pages ≡ false = ground arith in rw e refl

    loop_more :
        (last next filled : PrpList) (lists lists' : List PrpList) (done list_prps used : ℕ)
        → done < n_pages
        → nvm_prp_list next (n_pages - done) (drop done ioaddrs) ≡ (used, filled)
        → prp_chain_loop filled lists used (done + used) n_pages ioaddrs ≡ (n_pages, lists')
        → prp_chain_loop last (next ∷ lists) list_prps done n_pages ioaddrs
          ≡ (n_pages, record last { entries = set last.entries list_prps next.ioaddr } ∷ lists')
    unfolding prp_chain_loop
    loop_more last next filled lists lists' done list_prps used lt e f =
        rw (lt→ltb done n_pages lt, e, f) refl

    -- What the loop makes of the lists that are left when `done` addresses are placed.
    abbrev Chained : PrpList → List PrpList → ℕ → Type 0
    Chained list lists done =
        let left = n_pages - done in
        (used : ℕ) × (filled : PrpList) × (next' : PrpList) × (lists' : List PrpList)
        × (nvm_prp_list list left (drop done ioaddrs) ≡ (used, filled))
        × (prp_chain_loop filled lists used (done + used) n_pages ioaddrs
            ≡ (n_pages, next' ∷ lists'))
        × (walk n (next' ∷ lists') left ≡ some (take left (drop done ioaddrs)))
        × (next'.ioaddr ≡ list.ioaddr)

    module _ (list : PrpList) (page : list.page_size / 8 ≡ n) (len : length list.entries ≡ n)
        (done : ℕ) (lt : done < n_pages) where
      abbrev left : ℕ
      left = n_pages - done

      given' : left ≤ length (drop done ioaddrs)
      given' = omega (arith, length-drop done ioaddrs)

      Chained-last : (lists : List PrpList) → left ≤ n → Chained list lists done
      Chained-last lists le =
          let io = drop done ioaddrs in
          let filled = record list { entries = copy_prps left 0 list.entries io } in
          let all : done + left ≡ n_pages = omega arith in
          (
            left,
            filled,
            filled,
            lists,
            last_page n some_room list page len left io given' le,
            rw all (loop_done filled lists left),
            read_last n some_room list page len left io given' lists le,
            refl,
          )

      Chained-more :
          (next : PrpList) (lists : List PrpList)
          → n < left
          → Chained next lists (done + (n - 1))
          → Chained list (next ∷ lists) done
      Chained-more next lists gt (used, filled, next', lists', e, f, g, same) =
          let io = drop done ioaddrs in
          let kept = copy_prps (n - 1) 0 list.entries io in
          let fewer : n_pages - (done + (n - 1)) ≡ left - (n - 1) = omega arith in
          let rest = take (left - (n - 1)) (drop (done + (n - 1)) ioaddrs) in
          let g' : walk n (next' ∷ lists') (left - (n - 1)) ≡ some rest = rw fewer at g in
          let sum : n - 1 + (left - (n - 1)) ≡ left = omega arith in
          let whole : take (n - 1) io ++ rest ≡ take left io =
            ap (λ (xs : List ℕ). take (n - 1) io ++ take (left - (n - 1)) xs)
              (sym (drop-drop done (n - 1) ioaddrs))
            ∙ take-add (n - 1) (left - (n - 1)) io
            ∙ ap (λ (t : ℕ). take t io) sum in
          let linked = record list { entries = set kept (n - 1) next.ioaddr } in
          (
            n - 1,
            record list { entries = kept },
            linked,
            next' ∷ lists',
            full_page n some_room list page len left io given' gt,
            loop_more (record list { entries = kept }) next filled lists (next' ∷ lists')
                (done + (n - 1)) (n - 1) used (omega arith) e f,
            ap
                  (λ (a : ℕ).
                    walk n (record list { entries = set kept (n - 1) a } ∷ next' ∷ lists') left)
                  (sym same)
                ∙ read_linked n some_room list page len left io given' next' lists' rest gt g'
                ∙ ap some whole,
            refl,
          )

    chain :
        (list : PrpList) (lists : List PrpList) (done : ℕ)
        → done < n_pages
        → ArePages n (list ∷ lists)
        → n_pages - done ≤ (1 + length lists) * (n - 1) + 1
        → Chained list lists done
    chain list [] done lt (page, len, _) enough =
        Chained-last list page len done lt [] (omega arith)
    chain list (next ∷ lists) done lt (page, len, pages) enough = elim (dec_le (n_pages - done) n) [
      | yes le ↦ Chained-last list page len done lt (next ∷ lists) le
      | no gt ↦
          Chained-more list page len done lt next lists (omega arith)
            (chain next lists (done + (n - 1)) (omega arith) pages fewer)
    ]
      where
        fewer : n_pages - (done + (n - 1)) ≤ (1 + length lists) * (n - 1) + 1
        fewer = ground arith

    whole : n_pages - 0 ≡ n_pages
    whole = omega arith

    start : (used : ℕ) → 0 + used ≡ used
    start used = omega arith

    chain_start :
        (list : PrpList) (lists : List PrpList)
        → Chained list lists 0
        → (lists' : List PrpList) × (nvm_prp_list_chain (list ∷ lists) n_pages ioaddrs
            ≡ (n_pages, lists'))
          × (walk n lists' n_pages ≡ some (take n_pages ioaddrs))
          × (first_ioaddr lists' ≡ list.ioaddr)
    unfolding nvm_prp_list_chain
    chain_start list lists (used, filled, next', lists', e, f, g, same) =
        let e' : nvm_prp_list list n_pages ioaddrs ≡ (used, filled) = rw whole at e in
        (next' ∷ lists', rw e' (rw (start used) at f), rw whole at g, same)

    -- Lists of `n` entries to a page, enough of them for the addresses: the chain takes all addresses,
    -- and a controller that starts at the first list reads exactly these, in order, link by link.
    pub nvm_prp_list_chain-walk :
        (list : PrpList) (lists : List PrpList)
        → ArePages n (list ∷ lists)
        → 0 < n_pages
        → n_pages ≤ (1 + length lists) * (n - 1) + 1
        → (lists' : List PrpList) × (nvm_prp_list_chain (list ∷ lists) n_pages ioaddrs
            ≡ (n_pages, lists'))
          × (walk n lists' n_pages ≡ some (take n_pages ioaddrs))
          × (first_ioaddr lists' ≡ list.ioaddr)
    nvm_prp_list_chain-walk list lists pages pos enough =
        chain_start list lists (chain list lists 0 pos pages (omega arith))
