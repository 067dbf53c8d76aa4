-- ===== src/Command/Data.antt =====
-- `nvm_cmd_data`: the controller reads back from a command, and from the lists that it names, the pages
-- that the caller passed.
use atc26_shaper_io.Prelude.{
  ℕ, zero, suc, ◌+◌, ◌-◌, ◌*◌, ◌^◌, ◌≤◌, ◌<◌, ◌≡◌, refl, sym, ap, true, false, Option, none, some,
  ◌>>=◌, List, [], ◌∷◌, length, length-drop, get_or, take, drop, ◌==◌, eq→==, ne→==, ltb, lt→ltb,
  if◌then◌else◌, arith,
}
use native.Mathlib.Decide.{ℕ_discrete}
use atc26_shaper_io.Types.{Dwords, PrpList}
use atc26_shaper_io.Command.{nvm_prp_list_chain, nvm_cmd_data_ptr, nvm_cmd_data, first_ioaddr}
use atc26_shaper_io.Command.Fields.{data_ptr_lem}
use atc26_shaper_io.Command.Walk.{walk, ArePages}
use atc26_shaper_io.Command.Chain.{nvm_prp_list_chain-walk}

-- The two data pointers of a command.
abbrev pub prp1 : Dwords → ℕ
prp1 cmd = get_or cmd 6 0 + get_or cmd 7 0 * 2 ^ 32

abbrev pub prp2 : Dwords → ℕ
prp2 cmd = get_or cmd 8 0 + get_or cmd 9 0 * 2 ^ 32

-- How a controller finds the pages of a transfer: one in the first pointer, a second in the second
-- pointer, and if there are more, all but the first in lists that the second pointer names.
pub data_pages : ℕ → Dwords → List PrpList → ℕ → Option (List ℕ)
data_pages n cmd lists n_pages =
    let listed = (do
      rest ← walk n lists (n_pages - 1)
      let all = some (prp1 cmd ∷ rest)
      if first_ioaddr lists == prp2 cmd then all else none) in
    if n_pages == 1
    then some (prp1 cmd ∷ [])
    else (if n_pages == 2 then some (prp1 cmd ∷ prp2 cmd ∷ []) else listed)

first_two : (io : List ℕ) → 2 ≤ length io → take 2 io ≡ get_or io 0 0 ∷ get_or io 1 0 ∷ []
first_two [] h = absurd (omega arith)
first_two (a ∷ []) h = absurd (omega arith)
first_two (a ∷ b ∷ io) h = refl

first_one : (io : List ℕ) → 1 ≤ length io → take 1 io ≡ get_or io 0 0 ∷ []
first_one [] h = absurd (omega arith)
first_one (a ∷ io) h = refl

first_more :
    (n : ℕ) (io : List ℕ)
    → 1 ≤ n
    → 1 ≤ length io
    → take n io ≡ get_or io 0 0 ∷ take (n - 1) (drop 1 io)
first_more zero io hn h = absurd (omega arith)
first_more (suc n) [] hn h = absurd (omega arith)
first_more (suc n) (a ∷ io) hn h =
    ap (λ (t : ℕ). a ∷ take t io) (let e : n ≡ suc n - 1 = omega arith in e)

module _ (n : ℕ) (some_room : 1 < n) (cmd : Dwords) (sixteen : length cmd ≡ 16) (ioaddrs : List ℕ)
    (words : (i : ℕ) → get_or ioaddrs i 0 < 2 ^ 64) where
  abbrev Placed : List PrpList → ℕ → Type 0
  Placed lists n_pages =
      (cmd' : Dwords) × (lists' : List PrpList) × (nvm_cmd_data cmd lists n_pages ioaddrs
        ≡ (n_pages, cmd', lists'))
      × (data_pages n cmd' lists' n_pages ≡ some (take n_pages ioaddrs))

  Placed-one : (lists : List PrpList) → 1 ≤ length ioaddrs → Placed lists 1
  unfolding nvm_cmd_data data_pages
  Placed-one lists given =
      let (first, second) =
        data_ptr_lem cmd (get_or ioaddrs 0 0) 0 sixteen (words 0) (omega arith) in
      (
        nvm_cmd_data_ptr cmd (get_or ioaddrs 0 0) 0,
        lists,
        refl,
        rw first (ap some (sym (first_one ioaddrs given))),
      )

  Placed-two : (lists : List PrpList) → 2 ≤ length ioaddrs → Placed lists 2
  unfolding nvm_cmd_data data_pages
  Placed-two lists given =
      let (first, second) =
        data_ptr_lem cmd (get_or ioaddrs 0 0) (get_or ioaddrs 1 0) sixteen (words 0) (words 1) in
      (
        nvm_cmd_data_ptr cmd (get_or ioaddrs 0 0) (get_or ioaddrs 1 0),
        lists,
        refl,
        rw (first, second) (ap some (sym (first_two ioaddrs given))),
      )

  Placed-more :
      (n_pages : ℕ) (list : PrpList) (lists lists' : List PrpList)
      → 2 < n_pages
      → n_pages ≤ length ioaddrs
      → list.ioaddr < 2 ^ 64
      → nvm_prp_list_chain (list ∷ lists) (n_pages - 1) (drop 1 ioaddrs) ≡ (n_pages - 1, lists')
      → walk n lists' (n_pages - 1) ≡ some (take (n_pages - 1) (drop 1 ioaddrs))
      → first_ioaddr lists' ≡ list.ioaddr
      → Placed (list ∷ lists) n_pages
  unfolding nvm_cmd_data data_pages
  Placed-more n_pages list lists lists' more given word e w same =
      let (first, second) =
        data_ptr_lem cmd (get_or ioaddrs 0 0) list.ioaddr sixteen (words 0) word in
      let some_lists : ltb 0 (suc (length lists)) ≡ true =
        lt→ltb 0 (suc (length lists)) (omega arith) in
      let count : 1 + (n_pages - 1) ≡ n_pages = omega arith in
      let ne : (m : ℕ) → m < 3 → (n_pages == m) ≡ false =
        λ m h. ne→== n_pages m (λ e. absurd (omega arith)) in
      (
        nvm_cmd_data_ptr cmd (get_or ioaddrs 0 0) list.ioaddr,
        lists',
        rw (ne 0 (omega arith), lt→ltb 2 n_pages more, some_lists, e, count) refl,
        rw
            (
              ne 1 (omega arith),
              ne 2 (omega arith),
              w,
              same,
              second,
              first,
              eq→== list.ioaddr list.ioaddr refl,
            )
            (ap some (sym (first_more n_pages ioaddrs (omega arith) (omega arith)))),
      )

  -- The pages of a transfer go into the command and its lists, and the controller finds just these
  -- pages: for one or two of them in the pointers themselves, for more where there is a list and the
  -- lists have room.
  pub nvm_cmd_data-Placed :
      (n_pages : ℕ) (list : PrpList) (lists : List PrpList)
      → 0 < n_pages
      → n_pages ≤ length ioaddrs
      → list.ioaddr < 2 ^ 64
      → ArePages n (list ∷ lists)
      → n_pages ≤ (1 + length lists) * (n - 1) + 2
      → Placed (list ∷ lists) n_pages
  nvm_cmd_data-Placed n_pages list lists pos given word pages room = elim (ℕ_discrete n_pages 1) [
    | yes one ↦ rw one (Placed-one (list ∷ lists) (omega arith))
    | no not_one ↦ elim (ℕ_discrete n_pages 2) [
      | yes two ↦ rw two (Placed-two (list ∷ lists) (omega arith))
      | no more ↦
          let (lists', e, w, same) =
            nvm_prp_list_chain-walk n some_room (n_pages - 1) (drop 1 ioaddrs)
              (omega (arith, length-drop 1 ioaddrs)) list lists pages (omega arith) (omega arith) in
          Placed-more n_pages list lists lists' (omega arith) given word e w same
    ]
  ]
