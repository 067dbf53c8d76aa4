-- ===== src/Admin/Info.antt =====
-- src/admin.cpp: `nvm_admin_ctrl_info`, `nvm_admin_ns_info`, `nvm_admin_get_log_page` and
-- `nvm_admin_format`. A page is the list of its bytes; pointers that are NULL, and the bus address 0, are
-- tested by `given`.
pub mod Namespace
pub mod Tests
use atc26_shaper_io.Prelude.{
  ℕ, zero, suc, ◌+◌, ◌*◌, ◌/◌, ◌^◌, Bool, not, List, [], ◌∷◌, none, drop, take, replicate, get_or,
  ◌==◌, if◌then◌else◌,
}
use atc26_shaper_io.Prelude.Words.{u16, u32, u64}
use atc26_shaper_io.Types.{Dwords, NvmCtrl}
use atc26_shaper_io.Util.{rb}
use atc26_shaper_io.Errors.{ℤ, err_pack}
use atc26_shaper_io.HostQueue.{einval}
use atc26_shaper_io.Controller.{Registers, cap_to, cap_cqr, cap_mqes, cap_mpsmin}
use atc26_shaper_io.Admin.{
  Rpc, nvm_ok, blank, admin_identify_ctrl, admin_identify_ns, admin_get_log_page, admin_format_nvm,
}

-- `n` bytes from `offset` as a number, lowest byte first
abbrev pub little_endian : ℕ → List ℕ → ℕ → ℕ
little_endian zero page offset = 0
little_endian (suc n) page offset = get_or page offset 0 + 2 ^ 8 * little_endian n page (offset + 1)

-- `struct nvm_ctrl_info`
pub record CtrlInfo : Type 0 where
  pub nvme_version : ℕ
  pub page_size : ℕ
  pub db_stride : ℕ
  pub timeout : ℕ
  pub contiguous : ℕ
  pub max_entries : ℕ
  pub pci_vendor : List ℕ
  pub serial_no : List ℕ
  pub model_no : List ℕ
  pub firmware : List ℕ
  pub max_data_size : ℕ
  pub max_data_pages : ℕ
  pub cq_entry_size : ℕ
  pub sq_entry_size : ℕ
  pub max_out_cmds : ℕ
  pub max_n_ns : ℕ

-- `struct nvm_ns_info`
pub record NsInfo : Type 0 where
  pub ns_id : ℕ
  pub size : ℕ
  pub capacity : ℕ
  pub utilization : ℕ
  pub lba_data_size : ℕ
  pub metadata_size : ℕ

-- What is known without the command: the rest is 0. `max_entries` has 16 bits.
abbrev pub ctrl_info_registers : NvmCtrl → Registers → CtrlInfo
ctrl_info_registers ctrl regs = record {
  nvme_version = regs.ver;
  page_size = ctrl.page_size;
  db_stride = 2 ^ ctrl.dstrd;
  timeout = u64 (cap_to regs * 500);
  contiguous = if cap_cqr regs == 0 then 0 else 1;
  max_entries = u16 (cap_mqes regs + 1);
  pci_vendor = replicate 4 0;
  serial_no = replicate 20 0;
  model_no = replicate 40 0;
  firmware = replicate 8 0;
  max_data_size = 0;
  max_data_pages = 0;
  cq_entry_size = 0;
  sq_entry_size = 0;
  max_out_cmds = 0;
  max_n_ns = 0;
}

abbrev pub ctrl_info_page : NvmCtrl → Registers → List ℕ → CtrlInfo
ctrl_info_page ctrl regs bytes =
    let max_data_size = u64 (2 ^ get_or bytes 77 0 * 2 ^ (12 + cap_mpsmin regs)) in
    record (ctrl_info_registers ctrl regs) {
      pci_vendor = take 4 bytes;
      serial_no = take 20 (drop 4 bytes);
      model_no = take 40 (drop 24 bytes);
      firmware = take 8 (drop 64 bytes);
      max_data_size = max_data_size;
      max_data_pages = max_data_size / ctrl.page_size;
      sq_entry_size = 2 ^ rb (get_or bytes 512 0) 3 0;
      cq_entry_size = 2 ^ rb (get_or bytes 513 0) 3 0;
      max_out_cmds = little_endian 2 bytes 514;
      max_n_ns = little_endian 4 bytes 516;
    }

abbrev ctrl_answer : NvmCtrl → Registers → ℤ × Dwords × List ℕ → ℤ × CtrlInfo
ctrl_answer ctrl regs (status, completion, page) =
    if nvm_ok status
    then (err_pack none 0, ctrl_info_page ctrl regs page)
    else (status, ctrl_info_registers ctrl regs)

-- The status and the information, whose old value comes in.
pub nvm_admin_ctrl_info : Rpc → Bool → NvmCtrl → Registers → ℕ → CtrlInfo → ℤ × CtrlInfo
nvm_admin_ctrl_info rpc given ctrl regs ioaddr info =
    if given
    then ctrl_answer ctrl regs (rpc (admin_identify_ctrl blank ioaddr))
    else (err_pack none einval, info)

abbrev pub ns_info_page : ℕ → List ℕ → NsInfo
ns_info_page ns_id bytes =
    let format_idx = rb (get_or bytes 26 0) 3 0 in
    let lba_format = little_endian 4 bytes (128 + 4 * format_idx) in
    record {
      ns_id = ns_id;
      size = little_endian 8 bytes 0;
      capacity = little_endian 8 bytes 8;
      utilization = little_endian 8 bytes 16;
      lba_data_size = 2 ^ rb lba_format 23 16;
      metadata_size = rb lba_format 15 0;
    }

abbrev pub ns_info_blank : ℕ → NsInfo
ns_info_blank ns_id = record {
  ns_id = ns_id;
  size = 0;
  capacity = 0;
  utilization = 0;
  lba_data_size = 0;
  metadata_size = 0;
}

abbrev ns_answer : ℕ → ℤ × Dwords × List ℕ → ℤ × NsInfo
ns_answer ns_id (status, completion, page) =
    if nvm_ok status
    then (err_pack none 0, ns_info_page ns_id page)
    else (status, ns_info_blank ns_id)

-- The shift `1 << LBADS` is one of an `int`: it is right for fewer than 31.
pub nvm_admin_ns_info : Rpc → Bool → ℕ → ℕ → NsInfo → ℤ × NsInfo
nvm_admin_ns_info rpc given ns_id ioaddr info =
    if given
    then ns_answer ns_id (rpc (admin_identify_ns blank ns_id ioaddr))
    else (err_pack none einval, info)

abbrev page_answer : ℤ × Dwords × List ℕ → ℤ × List ℕ
page_answer (status, completion, page) = (if nvm_ok status then err_pack none 0 else status, page)

-- The status, and the page.
pub nvm_admin_get_log_page : Rpc → ℕ → ℕ → ℕ → ℕ → ℤ × List ℕ
nvm_admin_get_log_page rpc ns_id ioaddr log_id log_offset =
    page_answer (rpc (admin_get_log_page blank ns_id ioaddr log_id log_offset))

pub nvm_admin_format : Rpc → ℕ → ℕ → ℕ → ℕ → ℕ → ℕ → ℤ
nvm_admin_format rpc ns_id ses lbaf mset pi pil =
    (page_answer (rpc (admin_format_nvm blank ns_id ses lbaf mset pi pil))).0
