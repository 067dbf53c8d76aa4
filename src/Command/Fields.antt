-- ===== src/Command/Fields.antt =====
-- The fields that a controller reads from a command, as the command's functions set them.
use atc26_shaper_io.Prelude.{
  ℕ, ◌+◌, ◌*◌, ◌/◌, ◌%◌, ◌^◌, ◌≤◌, ◌<◌, ◌≡◌, refl, ◌∙◌, bit_and, bit_or, length, length-set, get_or,
  set, get_or-set_ne, sym, ◌≢◌, arith,
}
use atc26_shaper_io.Prelude.Bits.{and-fields, zero-and, and-low_mask, or-disjoint, or-zero}
use atc26_shaper_io.Prelude.Masks.{and-field_mask}
use atc26_shaper_io.Prelude.Slices.{get_or-set}
use atc26_shaper_io.Prelude.Words.{sub_u32}
use atc26_shaper_io.Types.{Dwords}
use atc26_shaper_io.Util.Fields.{wb_lem}
use atc26_shaper_io.Command.{
  nvm_cmd_opcode, nvm_cmd_header, nvm_cmd_data_ptr, nvm_cmd_rw_blks, nvm_cmd_dsm,
}

-- An opcode by its three parts.
pub nvm_cmd_opcode_lem :
    (gen fun bits : ℕ) → nvm_cmd_opcode gen fun bits ≡ gen % 2 * 128 + fun % 32 * 4 + bits % 4
unfolding nvm_cmd_opcode
nvm_cmd_opcode_lem gen fun bits =
    let top : bit_or (gen % 2 * 2 ^ 7) (fun % 32 * 2 ^ 2) ≡ (gen % 2 * 32 + fun % 32) * 2 ^ 2 =
      omega (arith, or-disjoint 7 (gen % 2) (fun % 32 * 2 ^ 2) (omega arith)) in
    let all = or-disjoint 2 (gen % 2 * 32 + fun % 32) (bits % 4) (omega arith) in
    let low : bits % 2 ^ 2 * 2 ^ 0 ≡ bits % 4 = omega arith in
    rw
      (
        wb_lem gen 7 7 (omega arith) (omega arith),
        wb_lem fun 6 2 (omega arith) (omega arith),
        wb_lem bits 1 0 (omega arith) (omega arith),
      )
      (rw (low, top) (all ∙ omega arith))

pub header_lem :
    (cid opcode : ℕ)
    → bit_or (bit_or (cid * 2 ^ 16) (0 * 2 ^ 14 + 0 * 2 ^ 8)) (bit_and opcode 0x7f)
      ≡ cid * 2 ^ 16 + opcode % 2 ^ 7
header_lem cid opcode =
    rw (or-zero (cid * 2 ^ 16), and-low_mask 7 opcode)
      (or-disjoint 16 cid (opcode % 2 ^ 7) (omega arith))

-- Clearing the bits of the flags keeps a header's other fields.
pub clear_flags :
    (cid op : ℕ)
    → cid < 2 ^ 16
    → op < 2 ^ 7
    → bit_and (cid * 2 ^ 16 + op) 0xffff3cff ≡ cid * 2 ^ 16 + op
clear_flags cid op hc ho =
    let none_above : 0 * 2 ^ 8 + op ≡ op = omega arith in
    let low : bit_and op 0x3cff ≡ op = omega (
      arith,
      rw none_above at (and-fields 8 0 0x3c op 0xff (omega arith) (omega arith)),
      zero-and 0x3c,
      and-low_mask 8 op,
    ) in
    and-fields 16 cid 65535 op 0x3cff (omega arith) (omega arith)
    ∙ omega (arith, low, and-low_mask 16 cid)

blocks_lem :
    (word n_blks : ℕ)
    → bit_or (bit_and word 0xffff0000) (bit_and (sub_u32 n_blks 1) 0xffff)
      ≡ word / 2 ^ 16 % 2 ^ 16 * 2 ^ 16 + sub_u32 n_blks 1 % 2 ^ 16
blocks_lem word n_blks =
    rw (and-field_mask 16 16 word, and-low_mask 16 (sub_u32 n_blks 1))
      (or-disjoint 16 (word / 2 ^ 16 % 2 ^ 16) (sub_u32 n_blks 1 % 2 ^ 16) (omega arith))

-- A data pointer is read back from its four words.
pub data_ptr_lem :
    (cmd : Dwords) (prp1 prp2 : ℕ)
    → length cmd ≡ 16
    → prp1 < 2 ^ 64
    → prp2 < 2 ^ 64
    → let cmd' = nvm_cmd_data_ptr cmd prp1 prp2 in
      (get_or cmd' 6 0 + get_or cmd' 7 0 * 2 ^ 32 ≡ prp1)
      × (get_or cmd' 8 0 + get_or cmd' 9 0 * 2 ^ 32 ≡ prp2)
unfolding nvm_cmd_data_ptr
data_ptr_lem cmd prp1 prp2 len h1 h2 = simp (get_or-set, length-set, len) (omega arith, omega arith)

-- The fields of a read or write command, as the NVMe specification places them.
pub record IoFields (cmd : Dwords) (cid opcode ns_id prp1 prp2 lba n_blks : ℕ) : Type 0 where
  pub op : get_or cmd 0 0 % 2 ^ 8 ≡ opcode
  pub flags : get_or cmd 0 0 / 2 ^ 8 % 2 ^ 8 ≡ 0
  pub id : get_or cmd 0 0 / 2 ^ 16 ≡ cid
  pub namespace : get_or cmd 1 0 ≡ ns_id
  pub first : get_or cmd 6 0 + get_or cmd 7 0 * 2 ^ 32 ≡ prp1
  pub second : get_or cmd 8 0 + get_or cmd 9 0 * 2 ^ 32 ≡ prp2
  pub start : get_or cmd 10 0 + get_or cmd 11 0 * 2 ^ 32 ≡ lba
  pub count : get_or cmd 12 0 % 2 ^ 16 + 1 ≡ n_blks
  pub size : length cmd ≡ 16

-- Header, data pointer and block fields, set in this order as the I/O code does, can each be read back;
-- the header keeps seven bits of the opcode only.
pub IoFields-built :
    (cmd : Dwords) (cid opcode ns_id prp1 prp2 lba n_blks : ℕ)
    → length cmd ≡ 16
    → cid < 2 ^ 16
    → prp1 < 2 ^ 64
    → prp2 < 2 ^ 64
    → lba < 2 ^ 64
    → 1 ≤ n_blks
    → n_blks < 2 ^ 16
    → IoFields
        (nvm_cmd_rw_blks
          (nvm_cmd_data_ptr (nvm_cmd_header cmd cid opcode ns_id) prp1 prp2)
          lba
          n_blks)
        cid
        (opcode % 2 ^ 7)
        ns_id
        prp1
        prp2
        lba
        n_blks
unfolding nvm_cmd_rw_blks nvm_cmd_data_ptr nvm_cmd_header
IoFields-built cmd cid opcode ns_id prp1 prp2 lba n_blks len hc h1 h2 hl lo hi =
    let word0 = clear_flags cid (opcode % 2 ^ 7) hc (omega arith) in
    record {
      op = simp (get_or-set, length-set, len, header_lem, word0) (omega arith);
      flags = simp (get_or-set, length-set, len, header_lem, word0) (omega arith);
      id = simp (get_or-set, length-set, len, header_lem, word0) (omega arith);
      namespace = simp (get_or-set, length-set, len) refl;
      first = simp (get_or-set, length-set, len) (omega arith);
      second = simp (get_or-set, length-set, len) (omega arith);
      start = simp (get_or-set, length-set, len) (omega arith);
      count = simp (get_or-set, length-set, len, blocks_lem) (omega arith);
      size = simp (length-set, len) refl;
    }

-- The two words of dataset management are read back, and all others stay.
pub nvm_cmd_dsm_lem :
    (cmd : Dwords) (nr attr i : ℕ)
    → length cmd ≡ 16
    → (get_or (nvm_cmd_dsm cmd nr attr) 10 0 ≡ nr)
      × (get_or (nvm_cmd_dsm cmd nr attr) 11 0 ≡ attr)
      × (i ≢ 10 → i ≢ 11 → get_or (nvm_cmd_dsm cmd nr attr) i 0 ≡ get_or cmd i 0)
unfolding nvm_cmd_dsm
nvm_cmd_dsm_lem cmd nr attr i len = (
  simp (get_or-set, len) refl,
  simp (get_or-set, length-set, len) refl,
  λ n10 n11.
      get_or-set_ne (set cmd 10 nr) 11 i attr 0 (λ e. n11 (sym e))
      ∙ get_or-set_ne cmd 10 i nr 0 (λ e. n10 (sym e)),
)
