-- ===== src/Controller/Tests.antt =====
-- The controller's functions at concrete values: 4 KB pages, a controller that is ready one step after
-- it is enabled.
use atc26_shaper_io.Prelude.{
  inr, ◌^◌, iterate, ℕ, ◌≤◌, ◌<◌, ◌≡◌, refl, true, Option, none, some, [], ◌++◌, ◌∷◌, arith,
}
use atc26_shaper_io.Types.{NvmCtrl}
use atc26_shaper_io.Util.{rb}
use atc26_shaper_io.Util.Fields.{rb_lem}
use atc26_shaper_io.HostQueue.{einval}
use atc26_shaper_io.Controller.{
  Registers, Container, DeviceOps, Release, device_type_ioctl, csts_rdy, nvm_b2log, b2log_loop,
  encode_page_size, nvm_raw_ctrl_reset, nvm_ctrl_init, nvm_ctrl_get, nvm_ctrl_put, filled, enomem,
  erange,
}
use atc26_shaper_io.Controller.Reset.{
  Configured, Answers, nvm_raw_ctrl_reset-ends, nvm_raw_ctrl_reset-Configured,
}
use atc26_shaper_io.Controller.Init.{
  Initialised, Possible, Impossible, Within, Beyond, nvm_ctrl_init-Initialised,
}
use atc26_shaper_io.Controller.References.{Reached, Users, begin, take, return, Reached-Users}

abbrev registers : Registers
registers = record {
  cap = 0x004000200a0103ff;
  ver = 0x10200;
  cc = 0x460001;
  csts = 1;
  aqa = 0;
  asq = 0;
  acq = 0;
}

abbrev handle : NvmCtrl
handle = record {
  page_size = 4096;
  dstrd = 0;
  timeout = 5000;
  max_qs = 1024;
  mm_size = 0x4000;
  mm_ptr = 0x10000;
}

abbrev device : Registers → Registers
device regs = record regs { csts = rb regs.cc 0 0 }

nvm_b2log_test : nvm_b2log 4096 ≡ 12
unfolding nvm_b2log b2log_loop
nvm_b2log_test = refl

encode_page_size_test : encode_page_size 65536 ≡ 4
unfolding encode_page_size nvm_b2log b2log_loop
encode_page_size_test = refl

device-Answers : Answers device 1
unfolding csts_rdy
device-Answers = record {
  same_cc = λ regs. refl;
  same_aqa = λ regs. refl;
  same_acq = λ regs. refl;
  same_asq = λ regs. refl;
  follows = follows;
}
  where
    follows : (regs : Registers) → csts_rdy (iterate 1 device regs) ≡ rb regs.cc 0 0
    follows regs =
        let inner = rb_lem regs.cc 0 0 (omega arith) in
        omega (arith, rb_lem (rb regs.cc 0 0) 0 0 (omega arith))

nvm_raw_ctrl_reset-Configured_example :
    (on : Registers) × (nvm_raw_ctrl_reset 5001 device handle 0x8000 0x9000 registers
      ≡ some (0, on))
    × Configured on 0 0x8000 0x9000
    × (csts_rdy on ≡ 1)
nvm_raw_ctrl_reset-Configured_example =
    nvm_raw_ctrl_reset-Configured device 0 handle 0 0x8000 0x9000 registers device-Answers
      (omega arith) (omega arith) refl (omega arith)

nvm_raw_ctrl_reset-ends_example :
    (r : ℕ × Registers) × (nvm_raw_ctrl_reset 5001 (λ regs. regs) handle 0x8000 0x9000 registers
      ≡ some r)
nvm_raw_ctrl_reset-ends_example =
    nvm_raw_ctrl_reset-ends handle (λ regs. regs) 0x8000 0x9000 registers

abbrev ops : DeviceOps
ops = record { release_device = true; map_range = true; unmap_range = true }

abbrev init : ℕ → ℕ × Option Container
init page_size =
    nvm_ctrl_init true 0 (some 7) (some ops) device_type_ioctl page_size registers 0x10000 0x4000

nvm_ctrl_init-Initialised_example :
    (Impossible true 0 (some 7) (some ops) device_type_ioctl → init (2 ^ 12) ≡ (enomem, none))
    × (Possible true 0 (some 7) (some ops) device_type_ioctl
        → 0x4000 < 0x2000
        → init (2 ^ 12) ≡ (einval, none))
    × (Possible true 0 (some 7) (some ops) device_type_ioctl
        → 0x2000 ≤ 0x4000
        → init 0 ≡ (enomem, none))
    × (Possible true 0 (some 7) (some ops) device_type_ioctl
        → 0x2000 ≤ 0x4000
        → Beyond registers 0
        → init (2 ^ 12) ≡ (erange, none))
    × (Possible true 0 (some 7) (some ops) device_type_ioctl
        → 0x2000 ≤ 0x4000
        → Within registers 0
        → (c : Container) × (init (2 ^ 12) ≡ (0, some c))
          × Initialised c (some 7) device_type_ioctl registers (2 ^ 12) 0x10000 0x4000)
nvm_ctrl_init-Initialised_example =
    nvm_ctrl_init-Initialised true 0 (some 7) (some ops) device_type_ioctl registers 0x10000 0x4000
      0 (omega arith)

-- The largest pages that these limits allow have 64 KB.
Within-Beyond : Within registers 4 × Beyond registers 5
Within-Beyond = ((omega arith, omega arith), inr (omega arith))

abbrev opened : Container
opened = filled (some 7) (some ops) device_type_ioctl

abbrev shared : Container
shared = (nvm_ctrl_get 0 opened).1

abbrev closed : Release
closed = record { device = 7; mm_ptr = 0; mm_size = 0 }

abbrev gone : Container
gone = record opened { count = 1 }

-- A second reference is taken, then both are returned.
shared-Reached : Reached opened 0 none (([] ++ []) ++ (closed ∷ []))
unfolding nvm_ctrl_put nvm_ctrl_get
shared-Reached = return {now = gone} (return {now = shared} (take begin (omega arith)))

Reached-Users_example : Users opened 0 none (closed ∷ [])
Reached-Users_example = Reached-Users opened refl shared-Reached
