-- ===== src/Rpc/Queues/Tests.antt =====
-- Admin queues in a window of two pages.
use atc26_shaper_io.Prelude.{refl, true, false, [], ◌∷◌, some, arith}
use atc26_shaper_io.Types.{NvmCtrl}
use atc26_shaper_io.Examples.{four}
use atc26_shaper_io.HostQueue.Completion.{Ready}
use atc26_shaper_io.Controller.{Registers, Container, device_type_ioctl}
use atc26_shaper_io.Dma.{Handle, Mapping, Space, Outcomes}
use atc26_shaper_io.Dma.Undo.{holding}
use atc26_shaper_io.Rpc.Queues.{admin_queues, nvm_aq_create}
use atc26_shaper_io.Rpc.Queues.Create.{Balanced, nvm_aq_create-Balanced}
use atc26_shaper_io.Rpc.Queues.Fresh.{admin_queues-Working}
use atc26_shaper_io.Rpc.Execute.Served.{Working}

abbrev handle : NvmCtrl
handle = record {
  page_size = 4096;
  dstrd = 0;
  timeout = 5000;
  max_qs = 1024;
  mm_size = 0x4000;
  mm_ptr = 0x10000;
}

abbrev controller : Container
controller = record {
  count = 1;
  kind = device_type_ioctl;
  device = some 7;
  ops = record { release_device = true; map_range = true; unmap_range = true };
  handle = handle;
}

abbrev space : Space
space = record { controller = some controller; closed = []; calls = [] }

abbrev fine : Outcomes
fine = record {
  ctrl_lock = 0;
  map_lock = 0;
  va_memory = true;
  map_memory = true;
  container_memory = true;
  list_memory = true;
  errno = 12;
  mutex = 0;
  map_range = λ va. (0, 0x20000 ∷ 0x21000 ∷ []);
}

abbrev window : Handle
window = record {
  vaddr = 0x8000;
  page_size = 4096;
  n_ioaddrs = 2;
  ioaddrs = 0x20000 ∷ 0x21000 ∷ [];
  contiguous = true;
  local = true;
}

abbrev mapping : Mapping
mapping = record {
  count = 1;
  va = record { remote = false; vaddr = 0x8000; page_size = 4096; n_pages = 2 };
  unmap = true;
}

abbrev registers : Registers
registers = record { cap = 0; ver = 0x10200; cc = 0; csts = 0; aqa = 0; asq = 0; acq = 0 }

nvm_aq_create-Balanced_example :
    Balanced
      (λ regs. regs)
      fine
      handle
      window
      mapping
      four
      four
      registers
      space
      controller
      (nvm_aq_create 5001
        (λ regs. regs)
        fine
        true
        0
        true
        handle
        window
        mapping
        four
        four
        registers
        (holding space controller))
nvm_aq_create-Balanced_example =
    nvm_aq_create-Balanced (λ regs. regs) fine handle window mapping four four registers space
      controller (omega arith) (omega arith) (omega arith) (omega arith) true true 0

admin_queues-Working_example :
    Working (admin_queues handle window four four) 0 0
    × Ready (admin_queues handle window four four).acq 0 0
admin_queues-Working_example =
    admin_queues-Working handle window four four 0 refl (omega arith) (omega arith) (omega arith)
