-- ===== src/Util.antt =====
-- include/nvm_util.h and src/regs.h: bit fields of words, page arithmetic, doorbell addresses.
pub mod Blocks
pub mod Fields
pub mod Pages
use atc26_shaper_io.Prelude.{ℕ, ◌+◌, ◌-◌, ◌*◌, ◌/◌, ◌^◌, bit_and}
use atc26_shaper_io.Prelude.Words.{u16, u64, not_u64}

-- `1ULL << num_bits`, for fewer than 64 bits
pub nvm_mask : ℕ → ℕ
nvm_mask num_bits = 2 ^ num_bits - 1

pub nvm_mask_part : ℕ → ℕ → ℕ
nvm_mask_part hi lo = nvm_mask (hi + 1) - nvm_mask lo

pub rb : ℕ → ℕ → ℕ → ℕ
rb v hi lo = bit_and v (nvm_mask_part hi lo) / 2 ^ lo

pub wb : ℕ → ℕ → ℕ → ℕ
wb v hi lo = bit_and (u64 (v * 2 ^ lo)) (nvm_mask_part hi lo)

pub page_to_block : ℕ → ℕ → ℕ → ℕ
page_to_block page_size block_size pageno = u64 (page_size * pageno) / block_size

pub block_to_page : ℕ → ℕ → ℕ → ℕ
block_to_page page_size block_size blockno = u64 (block_size * blockno) / page_size

pub page_mask : ℕ → ℕ
page_mask page_size = not_u64 (page_size - 1)

pub addr_mask : ℕ → ℕ → ℕ
addr_mask addr page_size = bit_and addr (page_mask page_size)

pub page_align : ℕ → ℕ → ℕ
page_align size page_size = bit_and (u64 (size + page_size - 1)) (page_mask page_size)

pub addr_offset : ℕ → ℕ → ℕ → ℕ
addr_offset addr page_size pageno = u64 (addr + page_size * pageno)

-- `NVM_CTRL_PAGES` by the controller's page size
pub ctrl_pages : ℕ → ℕ → ℕ
ctrl_pages page_size size = page_align size page_size / page_size

-- a command has 64 bytes, a completion 16
pub sq_pages : ℕ → ℕ → ℕ
sq_pages page_size qs = u16 (qs - 1) * 64 / page_size + 1

pub cq_pages : ℕ → ℕ → ℕ
cq_pages page_size qs = u16 (qs - 1) * 16 / page_size + 1

-- Addresses are offsets from `mm_ptr`, and so in range.
pub sq_dbl : ℕ → ℕ → ℕ → ℕ
sq_dbl p y dstrd = p + 0x1000 + 2 * y * (4 * 2 ^ dstrd)

pub cq_dbl : ℕ → ℕ → ℕ → ℕ
cq_dbl p y dstrd = p + 0x1000 + (2 * y + 1) * (4 * 2 ^ dstrd)
