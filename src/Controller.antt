-- ===== src/Controller.antt =====
-- src/ctrl.cpp, src/regs.h and `_nvm_b2log` of src/lib_util.h: the controller's registers, its reset and
-- the set-up of its handle. The handle's lock and reference count are in References.
pub mod Log2
pub mod Wait
pub mod Reset
pub mod Init
pub mod References
pub mod Tests
use atc26_shaper_io.Prelude.{
  ℕ, zero, suc, ◌+◌, ◌-◌, ◌*◌, ◌/◌, ◌%◌, ◌^◌, Bool, true, false, not, ◌&&◌, ◌||◌, List, [], ◌∷◌,
  Option, none, some, bit_and, bit_or, ◌==◌, ltb, leb, if◌then◌else◌,
}
use atc26_shaper_io.Prelude.Words.{u8, u32, u64, sub_u32, sub_u64, not_u32}
use atc26_shaper_io.Types.{NvmCtrl}
use atc26_shaper_io.Util.{rb, wb}
use atc26_shaper_io.HostQueue.{einval, nvm_delay_remain}

-- The registers that the library uses.
pub record Registers : Type 0 where
  pub cap : ℕ
  pub ver : ℕ
  pub cc : ℕ
  pub csts : ℕ
  pub aqa : ℕ
  pub asq : ℕ
  pub acq : ℕ

-- CAP$MPSMAX, CAP$MPSMIN, CAP$DSTRD, CAP$TO, CAP$CQR and CAP$MQES
pub cap_mpsmax : Registers → ℕ
cap_mpsmax regs = rb regs.cap 55 52

pub cap_mpsmin : Registers → ℕ
cap_mpsmin regs = rb regs.cap 51 48

pub cap_dstrd : Registers → ℕ
cap_dstrd regs = rb regs.cap 35 32

pub cap_to : Registers → ℕ
cap_to regs = rb regs.cap 31 24

pub cap_cqr : Registers → ℕ
cap_cqr regs = rb regs.cap 16 16

pub cap_mqes : Registers → ℕ
cap_mqes regs = rb regs.cap 15 0

pub csts_rdy : Registers → ℕ
csts_rdy regs = rb regs.csts 0 0

pub cc_iocqes : ℕ → ℕ
cc_iocqes v = wb v 23 20

pub cc_iosqes : ℕ → ℕ
cc_iosqes v = wb v 19 16

pub cc_mps : ℕ → ℕ
cc_mps v = wb v 10 7

-- The macro shifts 0, not its argument.
pub cc_css : ℕ → ℕ
cc_css v = wb 0 3 1

pub cc_en : ℕ → ℕ
cc_en v = wb v 0 0

pub aqa_acqs : ℕ → ℕ
aqa_acqs v = wb v 27 16

pub aqa_asqs : ℕ → ℕ
aqa_asqs v = wb v 11 0

-- The loop of `_nvm_b2log`, for as many rounds as a word has bits.
pub b2log_loop : ℕ → ℕ → ℕ → ℕ
b2log_loop zero n count = count
b2log_loop (suc fuel) n count =
    let rest = b2log_loop fuel (n / 2) (u32 (count + 1)) in if ltb 0 n then rest else count

pub nvm_b2log : ℕ → ℕ
nvm_b2log n = sub_u32 (b2log_loop 32 (u32 n) 0) 1

pub encode_page_size : ℕ → ℕ
encode_page_size ps = nvm_b2log (ps / 2 ^ 12)

pub encode_entry_size : ℕ → ℕ
encode_entry_size es = nvm_b2log es

abbrev pub etime : ℕ
etime = 62

-- A loop that waits for CSTS.RDY to be `want`, with true when it is and false at the timeout. `device`
-- is what the controller does to the registers while the host sleeps.
pub wait_rdy : ℕ → (Registers → Registers) → ℕ → ℕ → Registers → Option (Bool × Registers)
wait_rdy zero device want remaining regs = none
wait_rdy (suc fuel) device want remaining regs =
    let rest = wait_rdy fuel device want (nvm_delay_remain remaining) (device regs) in
    let over = if remaining == 0 then some (false, regs) else rest in
    if csts_rdy regs == want then some (true, regs) else over

-- A wait that starts with a delay.
pub await_rdy : ℕ → (Registers → Registers) → ℕ → ℕ → Registers → Option (Bool × Registers)
await_rdy fuel device want timeout regs =
    wait_rdy fuel device want (nvm_delay_remain timeout) (device regs)

-- `*cc & ~1`
pub disabled : Registers → Registers
disabled regs = record regs { cc = bit_and regs.cc (not_u32 1) }

-- The writes between the two waits: the admin queues, then the configuration that enables the controller.
pub configured : NvmCtrl → ℕ → ℕ → Registers → Registers
configured ctrl acq_addr asq_addr regs =
    let cq_max_entries = u32 (sub_u64 (ctrl.page_size / 16) 1) in
    let sq_max_entries = u32 (sub_u64 (ctrl.page_size / 64) 1) in
    let cqes = encode_entry_size 16 in
    let sqes = encode_entry_size 64 in
    let mps = encode_page_size ctrl.page_size in
    record regs {
      aqa = bit_or (aqa_acqs cq_max_entries) (aqa_asqs sq_max_entries);
      acq = acq_addr;
      asq = asq_addr;
      cc =
          bit_or
            (bit_or (bit_or (bit_or (cc_iocqes cqes) (cc_iosqes sqes)) (cc_mps mps)) (cc_css 0))
            (cc_en 1);
    }

-- What follows a wait: an error, or the rest of the function.
pub after_wait :
    Option (Bool × Registers) → (Registers → Option (ℕ × Registers)) → Option (ℕ × Registers)
after_wait none next = none
after_wait (some (false, regs)) next = some (etime, regs)
after_wait (some (true, regs)) next = next regs

pub nvm_raw_ctrl_reset :
    ℕ → (Registers → Registers) → NvmCtrl → ℕ → ℕ → Registers → Option (ℕ × Registers)
nvm_raw_ctrl_reset fuel device ctrl acq_addr asq_addr regs =
    let timeout = u64 (ctrl.timeout * 1000000) in
    after_wait (await_rdy fuel device 0 timeout (disabled regs)) (λ off.
      after_wait (await_rdy fuel device 1 timeout (configured ctrl acq_addr asq_addr off))
        (λ on. some (0, on)))

-- Which functions of `struct device_ops` are there.
pub record DeviceOps : Type 0 where
  pub release_device : Bool
  pub map_range : Bool
  pub unmap_range : Bool

-- `enum device_type`
pub data DeviceType : Type 0 where
  device_type_unknown : DeviceType
  device_type_ioctl : DeviceType
  device_type_smartio : DeviceType

-- `struct controller`, but for its lock: the device is its address.
pub record Container : Type 0 where
  pub count : ℕ
  pub kind : DeviceType
  pub device : Option ℕ
  pub ops : DeviceOps
  pub handle : NvmCtrl

abbrev no_ops : DeviceOps
no_ops = record { release_device = false; map_range = false; unmap_range = false }

-- a device without the function that releases it
pub inconsistent : Option ℕ → Option DeviceOps → Bool
inconsistent none ops = false
inconsistent (some dev) none = true
inconsistent (some dev) (some ops) = not ops.release_device

abbrev given : Option DeviceOps → DeviceOps
given none = no_ops
given (some ops) = ops

-- The container that `create_handle` fills in.
abbrev pub filled : Option ℕ → Option DeviceOps → DeviceType → Container
filled dev ops kind = record {
  count = 1;
  kind = kind;
  device = dev;
  ops = given ops;
  handle = record { page_size = 0; dstrd = 0; timeout = 0; max_qs = 0; mm_size = 0; mm_ptr = 0 };
}

-- `memory` tells whether malloc succeeds, `lock` is the result of making the lock.
pub create_handle : Bool → ℕ → Option ℕ → Option DeviceOps → DeviceType → Option Container
create_handle memory lock dev ops kind =
    if inconsistent dev ops || not memory || not (lock == 0)
    then none
    else some (filled dev ops kind)

abbrev pub enomem : ℕ
enomem = 12

abbrev pub erange : ℕ
erange = 34

-- The host's page size is within the controller's limits.
pub compatible : Registers → ℕ → Bool
compatible regs page_size =
    let host_page_size = u8 (encode_page_size page_size) in
    let max_page_size = u8 (cap_mpsmax regs) in
    let min_page_size = u8 (cap_mpsmin regs) in
    leb min_page_size host_page_size && leb host_page_size max_page_size

-- The controller's properties, from its capabilities.
abbrev pub properties : ℕ → Registers → ℕ → ℕ → NvmCtrl
properties page_size regs mm_ptr mm_size = record {
  page_size = page_size;
  dstrd = u8 (cap_dstrd regs);
  timeout = u64 (cap_to regs * 500);
  max_qs = u32 (cap_mqes regs + 1);
  mm_size = mm_size;
  mm_ptr = mm_ptr;
}

-- The rest of `_nvm_ctrl_init` with the container that was made. `page_size` is the host's, 0 where it
-- is not known.
pub init_handle : ℕ → Registers → ℕ → ℕ → Option Container → ℕ × Option Container
init_handle page_size regs mm_ptr mm_size none = (enomem, none)
init_handle page_size regs mm_ptr mm_size (some container) =
    if ltb mm_size 0x2000
    then (einval, none)
    else (if page_size == 0
        then (enomem, none)
        else (if not (compatible regs page_size) then (erange, none) else (
          0,
          some (record container { handle = properties page_size regs mm_ptr mm_size }),
        )))

-- The arguments are those of `create_handle`, then the host's page size, the registers, and where they
-- are mapped.
pub nvm_ctrl_init :
    Bool
    → ℕ
    → Option ℕ
    → Option DeviceOps
    → DeviceType
    → ℕ
    → Registers
    → ℕ
    → ℕ
    → ℕ × Option Container
nvm_ctrl_init memory lock dev ops kind page_size regs mm_ptr mm_size =
    init_handle page_size regs mm_ptr mm_size (create_handle memory lock dev ops kind)

-- `nvm_raw_ctrl_init`
pub nvm_raw_ctrl_init : Bool → ℕ → ℕ → Registers → ℕ → ℕ → ℕ × Option Container
nvm_raw_ctrl_init memory lock page_size regs mm_ptr mm_size =
    nvm_ctrl_init memory lock none none device_type_unknown page_size regs mm_ptr mm_size

-- `lock` is the result of taking the lock. Whether a reference was taken, and the container.
pub nvm_ctrl_get : ℕ → Container → Bool × Container
nvm_ctrl_get lock controller =
    let counted = record controller { count = u32 (controller.count + 1) } in
    if lock == 0 then (true, counted) else (false, controller)

-- A call of `release_device`.
pub record Release : Type 0 where
  pub device : ℕ
  pub mm_ptr : ℕ
  pub mm_size : ℕ

abbrev pub released : Option ℕ → NvmCtrl → List Release
released none ctrl = []
released (some dev) ctrl =
    record { device = dev; mm_ptr = ctrl.mm_ptr; mm_size = ctrl.mm_size } ∷ []

-- The container, which is gone with its last reference, and the calls of `release_device`.
unfoldable pub nvm_ctrl_put : Container → Option Container × List Release
nvm_ctrl_put controller =
    let count = sub_u32 controller.count 1 in
    if count == 0
    then (none, released controller.device controller.handle)
    else (some (record controller { count = count }), [])

-- `NULL` is let alone.
unfoldable pub nvm_ctrl_free : Option Container → Option Container × List Release
nvm_ctrl_free none = (none, [])
nvm_ctrl_free (some controller) = nvm_ctrl_put controller
