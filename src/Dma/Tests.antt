-- ===== src/Dma/Tests.antt =====
-- A buffer of two pages of 8192 bytes, for a controller with pages of 4096.
use atc26_shaper_io.Prelude.{ℕ, ◌≡◌, false, true, none, some, refl, arith, List, [], ◌∷◌}
use atc26_shaper_io.Types.{NvmCtrl}
use atc26_shaper_io.Controller.{
  Container, DeviceOps, device_type_ioctl, nvm_ctrl_free, nvm_ctrl_put,
}
use atc26_shaper_io.Dma.{
  VaRange, Handle, Mapping, Space, Outcomes, n_ctrl_pages, populate_handle, nvm_dma_init,
  nvm_dma_map, nvm_dma_remap, nvm_dma_unmap, get_map, create_container, put_map, remove_map,
  put_ctrl, unmapped, released_range,
}
use atc26_shaper_io.Dma.Undo.{holding, Outcome, Mapped, nvm_dma_init-Outcome}
use atc26_shaper_io.Dma.Addresses.{Kept, Given, range, nvm_dma_map-Kept}
use atc26_shaper_io.Dma.Copies.{Copy, nvm_dma_remap-Copy}
use atc26_shaper_io.Dma.Sharing.{Shared, Live, begin, copy, drop, Closed, Shared-Live}

abbrev buffer : VaRange
buffer = record { remote = false; vaddr = 0x10000; page_size = 8192; n_pages = 2 }

abbrev blank : Handle
blank = record {
  vaddr = 0;
  page_size = 0;
  n_ioaddrs = 0;
  ioaddrs = [];
  contiguous = true;
  local = true;
}

abbrev bus : List ℕ
bus = 0x20000 ∷ 0x30000 ∷ []

abbrev handle : NvmCtrl
handle = record {
  page_size = 4096;
  dstrd = 0;
  timeout = 5000;
  max_qs = 1024;
  mm_size = 0x4000;
  mm_ptr = 0x10000;
}

abbrev ops : DeviceOps
ops = record { release_device = true; map_range = true; unmap_range = true }

abbrev controller : Container
controller = record {
  count = 1;
  kind = device_type_ioctl;
  device = some 7;
  ops = ops;
  handle = handle;
}

abbrev space : Space
space = record { controller = some controller; closed = []; calls = [] }

-- All calls succeed.
abbrev fine : Outcomes
fine = record {
  ctrl_lock = 0;
  map_lock = 0;
  va_memory = true;
  map_memory = true;
  container_memory = true;
  list_memory = true;
  errno = 12;
  mutex = 0;
  map_range = λ va. (0, bus);
}

nvm_dma_init-Outcome_example :
    Outcome
      (holding space controller)
      (Mapped fine space controller buffer)
      (nvm_dma_init fine (holding space controller) buffer true)
nvm_dma_init-Outcome_example =
    nvm_dma_init-Outcome fine space controller buffer true (omega arith) (omega arith)

nvm_dma_map-Kept_example :
    Kept
      (holding space controller)
      (range fine space controller 0x10000 8192 2)
      (Given fine space controller 0x10000 8192 2 (some bus))
      (nvm_dma_map fine (holding space controller) 0x10000 8192 2 (some bus))
nvm_dma_map-Kept_example =
    nvm_dma_map-Kept fine space controller 0x10000 8192 2 (some bus) (omega arith) (omega arith)

abbrev mapping : Mapping
mapping = record { count = 1; va = buffer; unmap = true }

abbrev first : Handle
first = populate_handle blank buffer 4096 bus

nvm_dma_remap-Copy_example :
    (h : Handle) × (nvm_dma_remap fine mapping first (holding space controller)
      ≡ (0, some h, some (record mapping { count = 2 }), holding space controller))
    × Copy h first 4096
unfolding populate_handle n_ctrl_pages
nvm_dma_remap-Copy_example =
    nvm_dma_remap-Copy fine mapping first space controller refl refl (omega arith) (omega arith)
      (omega arith) (omega arith) refl refl (omega arith)

-- the state in which the range and the controller's device have been given up
abbrev ended : Space
ended = record {
  controller = none;
  closed = record { device = 7; mm_ptr = 0x10000; mm_size = 0x4000 } ∷ [];
  calls = unmapped buffer ∷ (released_range buffer ∷ []);
}

-- The handle is copied, and both are dropped.
shared-Shared : Shared mapping space 0 none ended
unfolding nvm_dma_remap nvm_dma_unmap get_map create_container put_map remove_map put_ctrl
    nvm_ctrl_free nvm_ctrl_put
shared-Shared =
    drop {now = mapping}
      (drop {now = record mapping { count = 2 }} (copy begin (omega arith) fine first))

Shared-Live_example : Live mapping space (Closed mapping controller space) 0 none ended
Shared-Live_example = Shared-Live mapping space controller refl (omega arith) refl shared-Shared
