-- ===== src/Types.antt =====
-- include/nvm_types.h: the queue descriptor, shared by the host's queue functions and the GPU's.
use atc26_shaper_io.Prelude.{ℕ, List, Option}

-- An entry of queue memory by its 32-bit words: 16 of a command (`nvm_cmd_t`), 4 of a completion
-- (`nvm_cpl_t`).
abbrev pub Dwords : Type 0
Dwords = List ℕ

-- `nvm_queue_t`. Atomic words and fields are numbers, the arrays that the descriptor points to are
-- lists of their words. `mem` is the queue memory that `vaddr` points to, `doorbell` the value last
-- written through `db`. Padding, and the two copies that no code reads, are left out.
pub record NvmQueue : Type 0 where
  pub head_lock : ℕ
  pub tail_lock : ℕ
  pub head : ℕ
  pub tail : ℕ
  pub in_ticket : ℕ
  pub cid_ticket : ℕ
  pub tickets : List ℕ
  pub head_mark : List ℕ
  pub tail_mark : List ℕ
  pub cid : List ℕ
  pub pos_locks : List ℕ
  pub clean_cid : List ℕ
  pub qs_minus_1 : ℕ
  pub qs_log2 : ℕ
  pub no : ℕ
  pub es : ℕ
  pub qs : ℕ
  pub phase : ℕ
  pub local : ℕ
  pub last : ℕ
  pub db : Option ℕ
  pub doorbell : ℕ
  pub vaddr : ℕ
  pub ioaddr : ℕ
  pub mem : List Dwords

-- `nvm_prp_list_t`, with the page that `vaddr` points to as its 64-bit entries.
pub record PrpList : Type 0 where
  pub entries : List ℕ
  pub local : ℕ
  pub page_size : ℕ
  pub ioaddr : ℕ

-- `nvm_ctrl_t`. `mm_ptr` is the address of the registers.
pub record NvmCtrl : Type 0 where
  pub page_size : ℕ
  pub dstrd : ℕ
  pub timeout : ℕ
  pub max_qs : ℕ
  pub mm_size : ℕ
  pub mm_ptr : ℕ
