-- ===== src/Admin.antt =====
-- src/admin.cpp: the admin commands as the library builds them. Queues has the calls that make and delete
-- I/O queues and ask for their numbers, Info those that identify a controller or a namespace, read a log
-- page or format.
pub mod Fields
pub mod Queues
pub mod Info
use atc26_shaper_io.Prelude.{
  ℕ, ◌+◌, ◌*◌, ◌/◌, ◌^◌, Bool, true, false, Option, none, some, List, [], ◌∷◌, bit_and, bit_or, set,
  replicate, ◌==◌, if◌then◌else◌,
}
use atc26_shaper_io.Prelude.Words.{u32, sub_u32}
use atc26_shaper_io.Types.{Dwords, NvmQueue}
use atc26_shaper_io.Errors.{ℤ, pos, negsuc}
use atc26_shaper_io.Command.{nvm_cmd_opcode, nvm_cmd_header, nvm_cmd_data_ptr, nvm_admin_format_nvm}

-- What `nvm_raw_rpc` gives for a command: the packed status, the completion, and the content of the
-- buffer page that the command names, by its bytes.
abbrev pub Rpc : Type 0
Rpc = Dwords → ℤ × Dwords × List ℕ

-- `nvm_ok`
abbrev pub nvm_ok : ℤ → Bool
nvm_ok (pos n) = if n == 0 then true else false
nvm_ok (negsuc n) = false

-- a command of zeros
abbrev pub blank : Dwords
blank = replicate 16 0

abbrev pub nvm_admin_delete_sq : ℕ
nvm_admin_delete_sq = nvm_cmd_opcode 0 0 0

abbrev pub nvm_admin_create_sq : ℕ
nvm_admin_create_sq = nvm_cmd_opcode 0 0 1

abbrev pub nvm_admin_get_log_page_op : ℕ
nvm_admin_get_log_page_op = nvm_cmd_opcode 0 0 2

abbrev pub nvm_admin_delete_cq : ℕ
nvm_admin_delete_cq = nvm_cmd_opcode 0 1 0

abbrev pub nvm_admin_create_cq : ℕ
nvm_admin_create_cq = nvm_cmd_opcode 0 1 1

abbrev pub nvm_admin_identify : ℕ
nvm_admin_identify = nvm_cmd_opcode 0 1 2

abbrev pub nvm_admin_set_features : ℕ
nvm_admin_set_features = nvm_cmd_opcode 0 2 1

abbrev pub nvm_admin_get_features : ℕ
nvm_admin_get_features = nvm_cmd_opcode 0 2 2

-- `!need_prp`
abbrev pub contiguous_bit : Bool → ℕ
contiguous_bit need_prp = if need_prp then 0 else 1

pub admin_cq_create : Dwords → NvmQueue → ℕ → Bool → Dwords
admin_cq_create cmd cq ioaddr need_prp =
    let pointed = nvm_cmd_data_ptr (nvm_cmd_header cmd 0 nvm_admin_create_cq 0) ioaddr 0 in
    set (set pointed 10 (bit_or (u32 (sub_u32 cq.qs 1 * 2 ^ 16)) cq.no)) 11
      (bit_or (bit_or (0 * 2 ^ 16) (0 * 2)) (contiguous_bit need_prp))

pub admin_cq_delete : Dwords → NvmQueue → Dwords
admin_cq_delete cmd cq = set (nvm_cmd_header cmd 0 nvm_admin_delete_cq 0) 10 (bit_and cq.no 0xffff)

pub admin_sq_create : Dwords → NvmQueue → NvmQueue → ℕ → Bool → Dwords
admin_sq_create cmd sq cq ioaddr need_prp =
    let pointed = nvm_cmd_data_ptr (nvm_cmd_header cmd 0 nvm_admin_create_sq 0) ioaddr 0 in
    set (set pointed 10 (bit_or (u32 (sub_u32 sq.qs 1 * 2 ^ 16)) sq.no)) 11
      (bit_or (bit_or (u32 (cq.no * 2 ^ 16)) (0 * 2)) (contiguous_bit need_prp))

pub admin_sq_delete : Dwords → NvmQueue → Dwords
admin_sq_delete cmd sq = set (nvm_cmd_header cmd 0 nvm_admin_delete_sq 0) 10 (bit_and sq.no 0xffff)

pub admin_current_num_queues : Dwords → Bool → ℕ → ℕ → Dwords
admin_current_num_queues cmd change n_cqs n_sqs =
    let op = if change then nvm_admin_set_features else nvm_admin_get_features in
    let pointed = nvm_cmd_data_ptr (nvm_cmd_header cmd 0 op 0) 0 0 in
    let counts = bit_or (u32 (sub_u32 n_cqs 1 * 2 ^ 16)) (sub_u32 n_sqs 1) in
    set (set pointed 10 (bit_or (0 * 2 ^ 8) 0x07)) 11 (if change then counts else 0)

pub admin_identify_ctrl : Dwords → ℕ → Dwords
admin_identify_ctrl cmd ioaddr =
    let pointed = nvm_cmd_data_ptr (nvm_cmd_header cmd 0 nvm_admin_identify 0) ioaddr 0 in
    set (set pointed 10 (bit_or (0 * 2 ^ 16) 0x01)) 11 0

pub admin_identify_ns : Dwords → ℕ → ℕ → Dwords
admin_identify_ns cmd ns_id ioaddr =
    let pointed = nvm_cmd_data_ptr (nvm_cmd_header cmd 0 nvm_admin_identify ns_id) ioaddr 0 in
    set (set pointed 10 (bit_or (0 * 2 ^ 16) 0x00)) 11 0

pub admin_get_log_page : Dwords → ℕ → ℕ → ℕ → ℕ → Dwords
admin_get_log_page cmd ns_id ioaddr log_id log_offset =
    let op = nvm_admin_get_log_page_op in
    let pointed = nvm_cmd_data_ptr (nvm_cmd_header cmd 0 op ns_id) ioaddr 0 in
    let asked = set (set pointed 10 (bit_or (1024 * 2 ^ 16) log_id)) 11 0 in
    set (set asked 12 (u32 log_offset)) 13 (u32 (log_offset / 2 ^ 32))

pub admin_format_nvm : Dwords → ℕ → ℕ → ℕ → ℕ → ℕ → ℕ → Dwords
admin_format_nvm cmd ns_id ses lbaf mset pi pil =
    let pointed = nvm_cmd_data_ptr (nvm_cmd_header cmd 0 nvm_admin_format_nvm ns_id) 0 0 in
    let with_lbaf = bit_or 0 (bit_and lbaf 0x0f) in
    let with_mset = bit_or with_lbaf (bit_and mset 0x01 * 2 ^ 4) in
    let with_pi = bit_or with_mset (bit_and pi 0x07 * 2 ^ 5) in
    let with_pil = bit_or with_pi (bit_and pil 0x01 * 2 ^ 8) in
    set pointed 10 (bit_or with_pil (bit_and ses 0x07 * 2 ^ 9))
