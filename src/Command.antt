-- ===== src/Command.antt =====
-- include/nvm_cmd.h: NVMe commands, and the lists of pages (PRP lists) that their data pointers name.
pub mod Fields
pub mod Blank
pub mod Prp
pub mod Walk
pub mod Chain
pub mod Data
use atc26_shaper_io.Prelude.{
  ℕ, zero, suc, ◌+◌, ◌-◌, ◌*◌, ◌/◌, ◌^◌, Bool, ◌&&◌, Option, none, some, List, [], ◌∷◌, bit_and,
  bit_or, ◌==◌, ltb, leb, if◌then◌else◌, get_or, set, drop, length,
}
use atc26_shaper_io.Prelude.Words.{u32, sub_u32, not_u32}
use atc26_shaper_io.Types.{Dwords, PrpList}
use atc26_shaper_io.Util.{wb}

pub nvm_cmd_opcode : ℕ → ℕ → ℕ → ℕ
nvm_cmd_opcode gen fun bits = bit_or (bit_or (wb gen 7 7) (wb fun 6 2)) (wb bits 1 0)

-- Two of the enumerations' members by their definition.
abbrev pub nvm_io_write : ℕ
nvm_io_write = nvm_cmd_opcode 0 0 1

abbrev pub nvm_io_read : ℕ
nvm_io_read = nvm_cmd_opcode 0 0 2

abbrev pub nvm_admin_format_nvm : ℕ
nvm_admin_format_nvm = nvm_cmd_opcode 1 0 0

pub nvm_cmd_header : Dwords → ℕ → ℕ → ℕ → Dwords
nvm_cmd_header cmd cid opcode ns_id =
    set (set cmd 0 (bit_or (bit_or (cid * 2 ^ 16) (0 * 2 ^ 14 + 0 * 2 ^ 8)) (bit_and opcode 0x7f)))
      1 ns_id

pub nvm_cmd_data_ptr : Dwords → ℕ → ℕ → Dwords
nvm_cmd_data_ptr cmd prp1 prp2 =
    let kept = bit_and (get_or cmd 0 0) (not_u32 (bit_or (0x03 * 2 ^ 14) (0x03 * 2 ^ 8))) in
    let low = set (set (set cmd 0 kept) 6 (u32 prp1)) 7 (u32 (prp1 / 2 ^ 32)) in
    set (set low 8 (u32 prp2)) 9 (u32 (prp2 / 2 ^ 32))

-- `n_blks - 1` is an `int`.
pub nvm_cmd_rw_blks : Dwords → ℕ → ℕ → Dwords
nvm_cmd_rw_blks cmd start_lba n_blks =
    let count = bit_or (bit_and (get_or cmd 12 0) 0xffff0000) (bit_and (sub_u32 n_blks 1) 0xffff) in
    set (set (set cmd 10 (u32 start_lba)) 11 (u32 (start_lba / 2 ^ 32))) 12 count

pub nvm_cmd_dsm : Dwords → ℕ → ℕ → Dwords
nvm_cmd_dsm cmd nr attr = set (set cmd 10 nr) 11 attr

-- The loop of `nvm_prp_list`, with `n` entries still to be copied.
pub copy_prps : ℕ → ℕ → List ℕ → List ℕ → List ℕ
copy_prps zero i entries ioaddrs = entries
copy_prps (suc n) i entries ioaddrs =
    copy_prps n (i + 1) (set entries i (get_or ioaddrs i 0)) ioaddrs

-- The number of entries used, and the list with them. Where there are no pages the loop copies none,
-- with or without the test that the host has.
pub nvm_prp_list : PrpList → ℕ → List ℕ → ℕ × PrpList
nvm_prp_list list n_pages ioaddrs =
    let room = list.page_size / 8 in
    let n_prps = if ltb room n_pages then room - 1 else n_pages in
    (n_prps, record list { entries = copy_prps n_prps 0 list.entries ioaddrs })

-- The loop of `nvm_prp_list_chain`: `last` is `lists[i_list - 1]`, whose last entry will point to the
-- next list.
pub prp_chain_loop : PrpList → List PrpList → ℕ → ℕ → ℕ → List ℕ → ℕ × List PrpList
prp_chain_loop last [] list_prps n_prps n_pages ioaddrs = (n_prps, last ∷ [])
prp_chain_loop last (list ∷ lists) list_prps n_prps n_pages ioaddrs =
    let linked = record last { entries = set last.entries list_prps list.ioaddr } in
    let (used, filled) = nvm_prp_list list (n_pages - n_prps) (drop n_prps ioaddrs) in
    let (total, rest) = prp_chain_loop filled lists used (n_prps + used) n_pages ioaddrs in
    if ltb n_prps n_pages then (total, linked ∷ rest) else (n_prps, last ∷ list ∷ lists)

pub nvm_prp_list_chain : List PrpList → ℕ → List ℕ → ℕ × List PrpList
nvm_prp_list_chain [] n_pages ioaddrs = (0, [])
nvm_prp_list_chain (list ∷ lists) n_pages ioaddrs =
    let (list_prps, first) = nvm_prp_list list n_pages ioaddrs in
    prp_chain_loop first lists list_prps list_prps n_pages ioaddrs

-- `lists[0].ioaddr`
abbrev pub first_ioaddr : List PrpList → ℕ
first_ioaddr [] = 0
first_ioaddr (list ∷ lists) = list.ioaddr

-- `lists` is empty where the source has `NULL` or no lists. The result is the number of addresses used,
-- the command and the lists. This is the host's build: the device's has no test for no pages.
pub nvm_cmd_data : Dwords → List PrpList → ℕ → List ℕ → ℕ × Dwords × List PrpList
nvm_cmd_data cmd lists n_pages ioaddrs =
    let dptr0 = get_or ioaddrs 0 0 in
    let (chained, lists') = nvm_prp_list_chain lists (n_pages - 1) (drop 1 ioaddrs) in
    let by_list : ℕ × Dwords × List PrpList =
      (1 + chained, nvm_cmd_data_ptr cmd dptr0 (first_ioaddr lists), lists') in
    let by_second : ℕ × Dwords × List PrpList =
      (2, nvm_cmd_data_ptr cmd dptr0 (get_or ioaddrs 1 0), lists) in
    let by_first : ℕ × Dwords × List PrpList = (1, nvm_cmd_data_ptr cmd dptr0 0, lists) in
    if n_pages == 0
    then (0, cmd, lists)
    else (if ltb 2 n_pages && ltb 0 (length lists)
        then by_list
        else (if leb 2 n_pages then by_second else by_first))
