-- ===== src/Admin/Fields.antt =====
-- The fields that a controller reads from admin commands, as the NVMe specification places them.
use atc26_shaper_io.Prelude.{
  ℕ, ◌+◌, ◌-◌, ◌*◌, ◌/◌, ◌%◌, ◌^◌, ◌≤◌, ◌<◌, ◌≡◌, refl, Bool, true, false, get_or, bit_or, arith,
}
use atc26_shaper_io.Prelude.Bits.{or-disjoint, or-zero, zero-or}
use atc26_shaper_io.Prelude.Words.{u32, sub_u32}
use atc26_shaper_io.Types.{Dwords, NvmQueue}
use atc26_shaper_io.Command.{nvm_cmd_opcode}
use atc26_shaper_io.Command.Blank.{pointed-words}
use atc26_shaper_io.Command.Fields.{nvm_cmd_opcode_lem}
use atc26_shaper_io.Admin.{blank, admin_cq_create, admin_sq_create, contiguous_bit}

-- A command that makes a queue: its opcode, the queue's number and size, its memory, the bit for
-- contiguous memory, and the number of the completion queue that it posts to.
pub record CreateFields (cmd : Dwords) (opcode id qs ioaddr contiguous cq_id : ℕ) : Type 0 where
  pub op : get_or cmd 0 0 % 2 ^ 8 ≡ opcode
  pub cid : get_or cmd 0 0 / 2 ^ 16 ≡ 0
  pub memory : get_or cmd 6 0 + get_or cmd 7 0 * 2 ^ 32 ≡ ioaddr
  pub number : get_or cmd 10 0 % 2 ^ 16 ≡ id
  pub size : get_or cmd 10 0 / 2 ^ 16 + 1 ≡ qs
  pub physical : get_or cmd 11 0 % 2 ≡ contiguous
  pub posts_to : get_or cmd 11 0 / 2 ^ 16 ≡ cq_id

size_word :
    (qs id : ℕ)
    → 1 ≤ qs
    → qs ≤ 65536
    → id < 2 ^ 16
    → bit_or (u32 (sub_u32 qs 1 * 2 ^ 16)) id ≡ (qs - 1) * 2 ^ 16 + id
size_word qs id lo hi small =
    let word : u32 (sub_u32 qs 1 * 2 ^ 16) ≡ (qs - 1) * 2 ^ 16 = omega arith in
    rw word (or-disjoint 16 (qs - 1) id small)

flag_word :
    (id b : ℕ)
    → id < 2 ^ 16
    → b < 2
    → bit_or (bit_or (u32 (id * 2 ^ 16)) (0 * 2)) b ≡ id * 2 ^ 16 + b
flag_word id b small bit =
    let word : u32 (id * 2 ^ 16) ≡ id * 2 ^ 16 = omega arith in
    rw (word, or-zero (id * 2 ^ 16)) (or-disjoint 16 id b (omega arith))

contiguous_bit-small : (need_prp : Bool) → contiguous_bit need_prp < 2
contiguous_bit-small true = omega arith
contiguous_bit-small false = omega arith

module _ (q : NvmQueue) (ioaddr : ℕ) (need_prp : Bool) (lo : 1 ≤ q.qs) (hi : q.qs ≤ 65536)
    (id : q.no < 2 ^ 16) (addr : ioaddr < 2 ^ 64) where
  abbrev bit : ℕ
  bit = contiguous_bit need_prp

  pub admin_cq_create-Fields :
      CreateFields (admin_cq_create blank q ioaddr need_prp) 0x05 q.no q.qs ioaddr bit 0
  unfolding admin_cq_create
  admin_cq_create-Fields =
      let op : nvm_cmd_opcode 0 1 1 % 2 ^ 7 ≡ 5 = omega (arith, nvm_cmd_opcode_lem 0 1 1) in
      let small = contiguous_bit-small need_prp in
      let flag : bit_or 0 bit ≡ bit = zero-or bit in
      rw (pointed-words (nvm_cmd_opcode 0 1 1) 0 ioaddr, op, size_word q.qs q.no lo hi id, flag)
        (record {
          op = refl;
          cid = refl;
          memory = omega arith;
          number = omega arith;
          size = omega arith;
          physical = omega arith;
          posts_to = omega arith;
        })

  pub admin_sq_create-Fields :
      (cq : NvmQueue)
      → cq.no < 2 ^ 16
      → CreateFields (admin_sq_create blank q cq ioaddr need_prp) 0x01 q.no q.qs ioaddr bit cq.no
  unfolding admin_sq_create
  admin_sq_create-Fields cq cq_id =
      let op : nvm_cmd_opcode 0 0 1 % 2 ^ 7 ≡ 1 = omega (arith, nvm_cmd_opcode_lem 0 0 1) in
      let small = contiguous_bit-small need_prp in
      rw
        (
          pointed-words (nvm_cmd_opcode 0 0 1) 0 ioaddr,
          op,
          size_word q.qs q.no lo hi id,
          flag_word cq.no bit cq_id small,
        )
        (record {
          op = refl;
          cid = refl;
          memory = omega arith;
          number = omega arith;
          size = omega arith;
          physical = omega arith;
          posts_to = omega arith;
        })
