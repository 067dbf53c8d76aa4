-- ===== src/Dma.antt =====
-- src/dma.cpp: DMA handles, the mappings that they share, and the addresses of a buffer's controller
-- pages. Sizes and addresses are in range, so no sum wraps. Allocations, locks and the device's own
-- functions are arguments. Calls of the device's functions and of the ranges' callbacks are logged.
pub mod Pages
pub mod Undo
pub mod Sharing
pub mod Copies
pub mod Addresses
pub mod Tests
use atc26_shaper_io.Controller.{Container, DeviceOps, Release, enomem, nvm_ctrl_get, nvm_ctrl_free}
use atc26_shaper_io.HostQueue.{einval}
use atc26_shaper_io.Prelude.Words.{u32, sub_u32}
use atc26_shaper_io.Prelude.{
  Option, none, some, ◌||◌, ◌++◌, ℕ, zero, suc, ◌+◌, ◌*◌, ◌/◌, ◌%◌, Bool, true, false, not, ◌&&◌,
  List, [], ◌∷◌, ◌==◌, ltb, if◌then◌else◌, get_or,
}

-- `struct va_range`
pub record VaRange : Type 0 where
  pub remote : Bool
  pub vaddr : ℕ
  pub page_size : ℕ
  pub n_pages : ℕ

-- `nvm_dma_t`
pub record Handle : Type 0 where
  pub vaddr : ℕ
  pub page_size : ℕ
  pub n_ioaddrs : ℕ
  pub ioaddrs : List ℕ
  pub contiguous : Bool
  pub local : Bool

pub n_ctrl_pages : ℕ → ℕ → ℕ → ℕ
n_ctrl_pages ctrl_page_size page_size n_pages = page_size * n_pages / ctrl_page_size

-- The address of controller page `i_page`.
pub page_ioaddr : ℕ → ℕ → List ℕ → ℕ → ℕ
page_ioaddr ctrl_page_size page_size ioaddrs i_page =
    let current_page = i_page * ctrl_page_size / page_size in
    let offset_within_page = i_page * ctrl_page_size % page_size in
    get_or ioaddrs current_page 0 + offset_within_page

-- The loop of `populate_handle` with `n` pages to go: `previous` is the address of the page before
-- `i_page`, where there is one.
pub populate_loop : ℕ → ℕ → List ℕ → ℕ → ℕ → ℕ → Bool → List ℕ × Bool
populate_loop ctrl_page_size page_size ioaddrs zero i_page previous contiguous = ([], contiguous)
populate_loop ctrl_page_size page_size ioaddrs (suc n) i_page previous contiguous =
    let addr = page_ioaddr ctrl_page_size page_size ioaddrs i_page in
    let gap = ltb 0 i_page && not (previous + ctrl_page_size == addr) in
    let still = if gap then false else contiguous in
    let (rest, all) = populate_loop ctrl_page_size page_size ioaddrs n (i_page + 1) addr still in
    (addr ∷ rest, all)

pub populate_handle : Handle → VaRange → ℕ → List ℕ → Handle
populate_handle handle va ctrl_page_size ioaddrs =
    let n = n_ctrl_pages ctrl_page_size va.page_size va.n_pages in
    let (pages, contiguous) = populate_loop ctrl_page_size va.page_size ioaddrs n 0 0 true in
    record handle {
      vaddr = va.vaddr;
      page_size = ctrl_page_size;
      n_ioaddrs = n;
      ioaddrs = pages;
      contiguous = contiguous;
    }

-- `struct map`, but for its lock and its controller, of which it holds a reference. `unmap` tells whether
-- there is a function to call.
pub record Mapping : Type 0 where
  pub count : ℕ
  pub va : VaRange
  pub unmap : Bool

-- The calls of `map_range`, `unmap_range` and a range's `release`, and a range's allocation.
pub data Event : Type 0 where
  allocated : VaRange → Event
  mapped : VaRange → Event
  unmapped : VaRange → Event
  released_range : VaRange → Event

-- What the functions change besides mappings and handles: the controller, its `release_device`
-- calls, and the calls for ranges.
pub record Space : Type 0 where
  pub controller : Option Container
  pub closed : List Release
  pub calls : List Event

-- What the calls of one run give: the controller's and the mapping's locks, the allocations and the
-- `errno` that they leave, the making of a lock, and the device's `map_range`.
pub record Outcomes : Type 0 where
  pub ctrl_lock : ℕ
  pub map_lock : ℕ
  pub va_memory : Bool
  pub map_memory : Bool
  pub container_memory : Bool
  pub list_memory : Bool
  pub errno : ℕ
  pub mutex : ℕ
  pub map_range : VaRange → ℕ × List ℕ

-- What a function returns: an error number or what it makes, and the state it leaves.
pub data Result {ℓ} (A : Type ℓ) : Type ℓ where
  failed : ℕ → Space → Result A
  made : A → Space → Result A

abbrev pub enospc : ℕ
enospc = 28

abbrev note : Space → Event → Space
note space event = record space { calls = space.calls ++ (event ∷ []) }

abbrev get_from : ℕ → Space → Option Container → Bool × Space
get_from lock space none = (false, space)
get_from lock space (some c) =
    ((nvm_ctrl_get lock c).0, record space { controller = some (nvm_ctrl_get lock c).1 })

-- `_nvm_ctrl_get` on the controller of a state
pub get_ctrl : ℕ → Space → Bool × Space
get_ctrl lock space = get_from lock space space.controller

-- `_nvm_ctrl_put` on it
pub put_ctrl : Space → Space
put_ctrl space =
    let (controller, calls) = nvm_ctrl_free space.controller in
    record space { controller = controller; closed = space.closed ++ calls }

abbrev ops_of : Option Container → DeviceOps
ops_of none = record { release_device = false; map_range = false; unmap_range = false }
ops_of (some c) = c.ops

abbrev page_size_of : Option Container → ℕ
page_size_of none = 0
page_size_of (some c) = c.handle.page_size

-- `release` tells whether there is a callback.
pub create_map : Outcomes → Space → VaRange → Bool → Result Mapping
create_map env space va release =
    let (taken, held) = get_ctrl env.ctrl_lock space in
    let mapping : Mapping = record { count = 1; va = va; unmap = false } in
    if not release
    then failed einval space
    else (if not taken
        then failed enospc held
        else (if not env.map_memory
            then failed env.errno (put_ctrl held)
            else (if env.mutex == 0 then made mapping held else failed env.mutex (put_ctrl held))))

-- The function frees the descriptor and returns the reference.
pub remove_map : Space → Space
remove_map space = put_ctrl space

-- The handle is blank but for what the function sets, and of no meaning where there is an error.
pub create_container : Outcomes → ℕ → Mapping → ℕ × Handle
create_container env ctrl_page_size md =
    let page_size = md.va.page_size in
    let n_pages = md.va.n_pages in
    let handle : Handle = record {
      vaddr = 0;
      page_size = 0;
      n_ioaddrs = 0;
      ioaddrs = [];
      contiguous = true;
      local = not md.va.remote;
    } in
    let uneven = not (page_size * n_pages % ctrl_page_size == 0) in
    if page_size == 0 || n_pages == 0 || uneven
    then (einval, handle)
    else (if env.container_memory then (0, handle) else (enomem, handle))

pub dma_map : Outcomes → Mapping → Handle → Space → Result (Mapping × Handle)
dma_map env md handle space =
    let ops = ops_of space.controller in
    let (err, ioaddrs) = env.map_range md.va in
    let filled = populate_handle handle md.va (page_size_of space.controller) ioaddrs in
    if not ops.map_range
    then failed einval space
    else (if not env.list_memory
        then failed enomem space
        else (if err == 0
            then made (record md { unmap = ops.unmap_range }, filled) (note space (mapped md.va))
            else failed err space))

-- The mapping, which is gone with its last handle.
pub put_map : Mapping → Space → Option Mapping × Space
put_map md space =
    let count = sub_u32 md.count 1 in
    let after_unmap = if md.unmap then note space (unmapped md.va) else space in
    if count == 0
    then (none, remove_map (note after_unmap (released_range md.va)))
    else (some (record md { count = count }), space)

-- `lock` is the result of taking the mapping's lock.
pub get_map : ℕ → Mapping → ℕ × Mapping
get_map lock md =
    let counted = record md { count = u32 (md.count + 1) } in
    if lock == 0 then (0, counted) else (lock, md)

-- The last step of `_nvm_dma_init`: an error gives the mapping up.
abbrev mapped_or_removed : Result (Mapping × Handle) → Result (Mapping × Handle)
mapped_or_removed (failed err space) = failed err (remove_map space)
mapped_or_removed (made pair space) = made pair space

abbrev init_container : Outcomes → Result Mapping → Result (Mapping × Handle)
init_container env (failed err space) = failed err space
init_container env (made md space) =
    let (err, handle) = create_container env (page_size_of space.controller) md in
    if err == 0
    then mapped_or_removed (dma_map env md handle space)
    else failed err (remove_map space)

-- `_nvm_dma_init`
pub nvm_dma_init : Outcomes → Space → VaRange → Bool → Result (Mapping × Handle)
nvm_dma_init env space va release =
    if release then init_container env (create_map env space va release) else failed einval space

-- The steps of `nvm_dma_map` after the range's allocation.
abbrev map_container : Outcomes → VaRange → List ℕ → Result Mapping → Result (Mapping × Handle)
map_container env va ioaddrs (failed err space) = failed err (note space (released_range va))
map_container env va ioaddrs (made md space) =
    let (err, handle) = create_container env (page_size_of space.controller) md in
    let filled = populate_handle handle va (page_size_of space.controller) ioaddrs in
    if err == 0
    then made (md, filled) space
    else failed err (note (remove_map space) (released_range va))

abbrev map_range_at : Outcomes → Space → VaRange → Option (List ℕ) → Result (Mapping × Handle)
map_range_at env space va none = failed einval space
map_range_at env space va (some ioaddrs) =
    let ranged = note space (allocated va) in
    if env.va_memory
    then map_container env va ioaddrs (create_map env ranged va true)
    else failed enomem space

-- The addresses are NULL or a list.
pub nvm_dma_map : Outcomes → Space → ℕ → ℕ → ℕ → Option (List ℕ) → Result (Mapping × Handle)
nvm_dma_map env space vaddr page_size n_pages ioaddrs =
    let va : VaRange = record {
      remote = false;
      vaddr = vaddr;
      page_size = page_size;
      n_pages = n_pages;
    } in
    map_range_at env space va ioaddrs

-- The error, the handle if there is none, the mapping and the state.
pub nvm_dma_remap : Outcomes → Mapping → Handle → Space → ℕ × Option Handle × Option Mapping × Space
nvm_dma_remap env md other space =
    let (status, held) = get_map env.map_lock md in
    let ctrl_page_size = page_size_of space.controller in
    let (err, handle) = create_container env ctrl_page_size held in
    let va : VaRange = record {
      remote = not other.local;
      vaddr = held.va.vaddr;
      page_size = other.page_size;
      n_pages = other.n_ioaddrs;
    } in
    let (back, undone) = put_map held space in
    if not (status == 0)
    then (status, none, some md, space)
    else (if err == 0
        then (0, some (populate_handle handle va ctrl_page_size other.ioaddrs), some held, space)
        else (err, none, back, undone))

-- `remove_container` of a handle that is not NULL
pub nvm_dma_unmap : Mapping → Space → Option Mapping × Space
nvm_dma_unmap md space = put_map md space
