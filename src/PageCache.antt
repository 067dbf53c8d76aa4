-- ===== src/PageCache.antt =====
-- include/page_cache.h: the cache of storage pages in GPU memory, as one thread's calls go with no other
-- thread in between. The build is the one without the I/O scheduler, and eviction neither stages nor
-- skips its writes. Counters of accesses, the choice of a queue pair and back-off are left out.
pub mod Words
pub mod Memory
pub mod Coherent
pub mod WriteBack
pub mod Evict
pub mod Take
pub mod Slot
pub mod Fill
pub mod Acquire
pub mod Hit
pub mod Miss
pub mod Tests
use atc26_shaper_io.Prelude.{
  ℕ, zero, suc, ◌+◌, ◌-◌, ◌*◌, ◌/◌, ◌%◌, ◌^◌, Bool, true, false, not, ◌&&◌, Option, none, some,
  bit_and, bit_or, bit_xor, ◌==◌, ltb, if◌then◌else◌, ◌>>=◌,
}
use atc26_shaper_io.Prelude.Words.{u32, u64, sub_u32}

abbrev pub busy : ℕ
busy = 0x40000000

abbrev pub dirty : ℕ
dirty = 0x20000000

abbrev pub cnt_mask : ℕ
cnt_mask = 0x1fffffff

abbrev pub disable_busy_mask : ℕ
disable_busy_mask = 0xbfffffff

abbrev pub disable_busy_enable_valid : ℕ
disable_busy_enable_valid = 0xc0000000

abbrev pub nv_nb : ℕ
nv_nb = 0

abbrev pub v_nb : ℕ
v_nb = 2

abbrev pub all_ctrls : ℕ
all_ctrls = 2 ^ 64 - 1

abbrev pub free : ℕ
free = 2

abbrev pub unlocked : ℕ
unlocked = 0

pub data DataDist : Type 0 where
  replicate : DataDist
  stripe : DataDist

pub get_backing_page : ℕ → ℕ → ℕ → DataDist → ℕ
get_backing_page page_start page_offset n_ctrls stripe = page_start + page_offset / n_ctrls
get_backing_page page_start page_offset n_ctrls replicate = page_start + page_offset

pub get_backing_ctrl : ℕ → ℕ → DataDist → ℕ
get_backing_ctrl page_offset n_ctrls stripe = page_offset % n_ctrls
get_backing_ctrl page_offset n_ctrls replicate = all_ctrls

-- The storage devices: what `read_data` and `write_data` make of `n_blocks` blocks from a block address
-- on, of one controller. A command's data are a page's content.
pub record Device (Disk Content : Type 0) : Type 0 where
  pub read : Disk → ℕ → ℕ → ℕ → Content
  pub write : Disk → ℕ → ℕ → ℕ → Content → Disk

-- `page_cache_d_t` with its ranges: the lock and the translation of each cache page, the state and the
-- offset of each page of a range, the frames that the cache pages' memory holds, and the devices.
pub record Cache (Disk Content : Type 0) : Type 0 where
  pub n_pages : ℕ
  pub n_ctrls : ℕ
  pub n_ranges_bits : ℕ
  pub n_ranges_mask : ℕ
  pub n_blocks_per_page : ℕ
  pub evict_ctrl_override : ℕ
  pub read_ctrl_override : ℕ
  pub ranges_dists : ℕ → DataDist
  pub ranges_page_starts : ℕ → ℕ
  pub page_ticket : ℕ
  pub ctrl_counter : ℕ
  pub page_take_lock : ℕ → ℕ
  pub page_translation : ℕ → ℕ
  pub state : ℕ → ℕ → ℕ
  pub offset : ℕ → ℕ → ℕ
  pub frame : ℕ → Content
  pub disk : Disk

-- an array with one element set
abbrev pub put : {A : Type 0} → (ℕ → A) → ℕ → A → ℕ → A
put f a v x = if x == a then v else f x

abbrev pub put2 : {A : Type 0} → (ℕ → ℕ → A) → ℕ → ℕ → A → ℕ → ℕ → A
put2 f r a v s x = if (s == r) && (x == a) then v else f s x

pub global_address : ℕ → ℕ → ℕ → ℕ
global_address n_ranges_bits range_id page = bit_or (u64 (page * 2 ^ n_ranges_bits)) range_id

-- The controller that a missing page is read from, and the counter after the choice.
pub read_ctrl : {Disk Content : Type 0} → Cache Disk Content → ℕ → ℕ → ℕ × ℕ
read_ctrl c range pg =
    let backing = get_backing_ctrl pg c.n_ctrls (c.ranges_dists range) in
    let next : ℕ × ℕ = (c.ctrl_counter % c.n_ctrls, u64 (c.ctrl_counter + 1)) in
    let fixed : ℕ × ℕ = (backing, c.ctrl_counter) in
    if c.read_ctrl_override == all_ctrls
    then (if backing == all_ctrls then next else fixed)
    else (c.read_ctrl_override % c.n_ctrls, c.ctrl_counter)

module _ {Disk Content : Type 0} (dev : Device Disk Content) where
  -- The loop over all controllers, with `n` still to be written.
  pub write_ctrls : ℕ → ℕ → Disk → ℕ → ℕ → Content → Disk
  write_ctrls zero ctrl disk lba n_blocks content = disk
  write_ctrls (suc n) ctrl disk lba n_blocks content =
      write_ctrls n (ctrl + 1) (dev.write disk ctrl lba n_blocks content) lba n_blocks content

  -- The dirty page `address` of `range`, which cache page `page` holds, goes to its controllers.
  pub write_back : Cache Disk Content → ℕ → ℕ → ℕ → Disk
  write_back c range address page =
      let dist = c.ranges_dists range in
      let backing = get_backing_ctrl address c.n_ctrls dist in
      let ctrl =
        if c.evict_ctrl_override == all_ctrls then backing else c.evict_ctrl_override % c.n_ctrls in
      let index = get_backing_page (c.ranges_page_starts range) address c.n_ctrls dist in
      let lba = index * c.n_blocks_per_page in
      let nb = c.n_blocks_per_page in
      let one = dev.write c.disk ctrl lba nb (c.frame page) in
      let all = write_ctrls c.n_ctrls 0 c.disk lba nb (c.frame page) in
      if ctrl == all_ctrls then all else one

  -- Cache page `page` holds page `address` of `range`, whose state word is `expected`: is it won?
  pub evict_page : Cache Disk Content → ℕ → ℕ → ℕ → ℕ → ℕ → Bool × Cache Disk Content
  evict_page c page gaddr range address expected =
      let taken = bit_or expected busy in
      let written : Cache Disk Content = record c {
        disk = if bit_and expected dirty == 0 then c.disk else write_back c range address page;
        state = put2 c.state range address (bit_and taken cnt_mask);
        page_translation = put c.page_translation page gaddr;
      } in
      let raced : Cache Disk Content = record c {
        state = put2 c.state range address (bit_and taken disable_busy_mask);
      } in
      let kept : Bool × Cache Disk Content = (false, c) in
      let won : Bool × Cache Disk Content = (true, written) in
      let lost : Bool × Cache Disk Content = (false, raced) in
      if (bit_and expected cnt_mask == 0) && (bit_and expected busy == 0)
      then (if bit_and expected busy == 0
          then (if bit_and expected cnt_mask == 0 then won else lost)
          else kept)
      else kept

  -- A cache page that belongs to another page, with its lock taken.
  pub evict : Cache Disk Content → ℕ → ℕ → Bool × Cache Disk Content
  evict c page gaddr =
      let previous = c.page_translation page in
      let range = bit_and previous c.n_ranges_mask in
      let address = previous / 2 ^ c.n_ranges_bits in
      evict_page c page gaddr range address (c.state range address)

  -- One round of `find_slot`: has it won cache page `page`?
  pub take_slot : Cache Disk Content → ℕ → ℕ → Bool × Cache Disk Content
  take_slot c page gaddr =
      let first : Bool × Cache Disk Content = (
        true,
        record c {
          page_translation = put c.page_translation page gaddr;
          page_take_lock = put c.page_take_lock page unlocked;
        },
      ) in
      let (won, c') = evict c page gaddr in
      let second : Bool × Cache Disk Content =
        (won, record c' { page_take_lock = put c'.page_take_lock page unlocked }) in
      if c.page_take_lock page == free
      then first
      else (if c.page_take_lock page == unlocked then second else (false, c))

  pub find_slot : ℕ → Cache Disk Content → ℕ → ℕ → Option (ℕ × Cache Disk Content)
  find_slot zero c address range_id = none
  find_slot (suc fuel) c address range_id =
      let page = c.page_ticket % c.n_pages in
      let counted : Cache Disk Content = record c { page_ticket = u32 (c.page_ticket + 1) } in
      let (won, c') = take_slot counted page (global_address c.n_ranges_bits range_id address) in
      let rest = find_slot fuel c' address range_id in if won then some (page, c') else rest

  -- What follows `find_slot` when a page is missing: the page is read and becomes valid.
  pub fill : Cache Disk Content → ℕ → ℕ → Bool → ℕ → Cache Disk Content
  fill c range pg write page_trans =
      let (ctrl, counter) = read_ctrl c range pg in
      let b_page =
        get_backing_page (c.ranges_page_starts range) pg c.n_ctrls (c.ranges_dists range) in
      let content = dev.read c.disk ctrl (b_page * c.n_blocks_per_page) c.n_blocks_per_page in
      let old = c.state range pg in
      let marked = if write then bit_or old dirty else old in
      record c {
        ctrl_counter = counter;
        frame = put c.frame page_trans content;
        offset = put2 c.offset range pg page_trans;
        state = put2 c.state range pg (bit_xor marked disable_busy_enable_valid);
      }

  pub acquire_loop : ℕ → Cache Disk Content → ℕ → ℕ → Bool → ℕ → Option (ℕ × Cache Disk Content)
  acquire_loop zero c range pg write read_state = none
  acquire_loop (suc fuel) c range pg write read_state =
      let now = c.state range pg in
      let st = bit_and (read_state / 2 ^ 30) 0x03 in
      let taken : Cache Disk Content = record c {
        state = put2 c.state range pg (bit_or now busy);
      } in
      let cleared : Cache Disk Content = record c {
        state = put2 c.state range pg (bit_and (bit_or now busy) disable_busy_mask);
      } in
      let marked : Cache Disk Content = record c {
        state = put2 c.state range pg (bit_or now dirty);
      } in
      let raced = acquire_loop fuel cleared range pg write (cleared.state range pg) in
      let waited = acquire_loop fuel taken range pg write (taken.state range pg) in
      let blocked = acquire_loop fuel c range pg write now in
      let missed = (do
        (page_trans, c') ← find_slot fuel taken pg range
        some (page_trans, fill c' range pg write page_trans)) in
      let miss =
        if bit_and now busy == 0
        then (if bit_and (now / 2 ^ 30) 0x03 == nv_nb then missed else raced)
        else waited in
      let hit =
        some
          (c.offset range pg, (if write && (bit_and read_state dirty == 0) then marked else c)) in
      if st == nv_nb then miss else (if st == v_nb then hit else blocked)

  pub acquire_page : ℕ → Cache Disk Content → ℕ → ℕ → ℕ → Bool → Option (ℕ × Cache Disk Content)
  acquire_page fuel c range pg count write =
      let read_state = c.state range pg in
      let counted = record c { state = put2 c.state range pg (u32 (read_state + count)) } in
      acquire_loop fuel counted range pg write read_state

pub release_page : {Disk Content : Type 0} → Cache Disk Content → ℕ → ℕ → ℕ → Cache Disk Content
release_page c range pg count = record c {
  state = put2 c.state range pg (sub_u32 (c.state range pg) count);
}
