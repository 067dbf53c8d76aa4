-- ===== src/Command/Walk.antt =====
-- How the controller reads PRP lists, and what it makes of one page that `nvm_prp_list` has filled.
use atc26_shaper_io.Prelude.{
  ℕ, ◌-◌, ◌/◌, ◌≤◌, ◌<◌, ◌≡◌, refl, ap, ◌∙◌, true, false, Option, none, some, ◌>>=◌, List, [], ◌∷◌,
  ◌++◌, length, get_or, get_or-set_self, set, take, ◌==◌, eq→==, ltb, leb, lt→ltb, if◌then◌else◌,
  arith,
}
use atc26_shaper_io.Types.{PrpList}
use atc26_shaper_io.Command.{copy_prps, nvm_prp_list, first_ioaddr}
use atc26_shaper_io.Command.Prp.{length-copy_prps, take-copy_prps}
use atc26_shaper_io.Prelude.Slices.{take-set}

-- How a controller reads `left` addresses from lists of `n` entries to a page: the last entry of a page
-- is an address if it is the last one wanted, else it must point to the next list.
pub walk : ℕ → List PrpList → ℕ → Option (List ℕ)
walk n [] left = none
walk n (list ∷ lists) left =
    let further = (do
      rest ← walk n lists (left - (n - 1))
      let both = some (take (n - 1) list.entries ++ rest)
      if get_or list.entries (n - 1) 0 == first_ioaddr lists then both else none) in
    if leb left n then some (take left list.entries) else further

-- All lists are pages of `n` entries.
abbrev pub ArePages : ℕ → List PrpList → Type 0
ArePages n [] = Unit {0}
ArePages n (list ∷ lists) = (list.page_size / 8 ≡ n) × (length list.entries ≡ n) × ArePages n lists

module _ (n : ℕ) (some_room : 1 < n) where
  module _ (list : PrpList) (page : list.page_size / 8 ≡ n) (len : length list.entries ≡ n)
      (left : ℕ) (ioaddrs : List ℕ) (given : left ≤ length ioaddrs) where
    -- A page that takes all addresses that are left.
    pub last_page :
        left ≤ n
        → nvm_prp_list list left ioaddrs
          ≡ (left, record list { entries = copy_prps left 0 list.entries ioaddrs })
    unfolding nvm_prp_list
    last_page le = rw (page, leb→ltb le)
      where
        leb→ltb : left ≤ n → ltb n left ≡ false
        leb→ltb h = ground arith

    -- A page whose last entry is kept for the next list.
    pub full_page :
        n < left
        → nvm_prp_list list left ioaddrs
          ≡ (n - 1, record list { entries = copy_prps (n - 1) 0 list.entries ioaddrs })
    unfolding nvm_prp_list
    full_page lt = rw (page, lt→ltb n left lt)

    pub read_last :
        (lists : List PrpList)
        → left ≤ n
        → walk n (record list { entries = copy_prps left 0 list.entries ioaddrs } ∷ lists) left
          ≡ some (take left ioaddrs)
    unfolding walk
    read_last lists le =
        let e : leb left n ≡ true = ground arith in
        rw e (ap some (take-copy_prps left list.entries ioaddrs (omega arith) given))

    -- A page with its link set reads on in the next list.
    pub read_linked :
        (next : PrpList) (lists : List PrpList) (rest : List ℕ)
        → n < left
        → walk n (next ∷ lists) (left - (n - 1)) ≡ some rest
        → walk n
            (record list {
              entries = set (copy_prps (n - 1) 0 list.entries ioaddrs) (n - 1) next.ioaddr;
            }
              ∷ next
              ∷ lists)
            left
          ≡ some (take (n - 1) ioaddrs ++ rest)
    unfolding walk
    read_linked next lists rest lt e =
        let filled = copy_prps (n - 1) 0 list.entries ioaddrs in
        let size : length filled ≡ n = length-copy_prps (n - 1) 0 list.entries ioaddrs ∙ len in
        let far : leb left n ≡ false = ground arith in
        let link : get_or (set filled (n - 1) next.ioaddr) (n - 1) 0 ≡ next.ioaddr =
          get_or-set_self filled (n - 1) next.ioaddr 0 (omega arith) in
        let first : take (n - 1) (set filled (n - 1) next.ioaddr) ≡ take (n - 1) ioaddrs =
          take-set (n - 1) filled next.ioaddr
          ∙ take-copy_prps (n - 1) list.entries ioaddrs (omega arith) (omega arith) in
        rw (far, e, link, eq→== next.ioaddr next.ioaddr refl, first) refl
