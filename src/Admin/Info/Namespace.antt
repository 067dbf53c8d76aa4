-- ===== src/Admin/Info/Namespace.antt =====
-- What is read from the pages that the controller writes, and how many bytes it writes.
use atc26_shaper_io.Prelude.{
  ℕ, ◌+◌, ◌*◌, ◌/◌, ◌%◌, ◌^◌, ◌<◌, ◌≡◌, ◌∙◌, refl, true, false, List, get_or, arith,
}
use atc26_shaper_io.Prelude.Bits.{or-disjoint}
use atc26_shaper_io.Types.{Dwords}
use atc26_shaper_io.Util.{rb}
use atc26_shaper_io.Util.Fields.{rb_lem}
use atc26_shaper_io.Errors.{ℤ, pos}
use atc26_shaper_io.Errors.Status.{err_pack-none, err_pack-errno}
use atc26_shaper_io.HostQueue.{einval}
use atc26_shaper_io.Command.{nvm_cmd_opcode}
use atc26_shaper_io.Command.Blank.{pointed-words}
use atc26_shaper_io.Admin.{Rpc, nvm_ok, blank, admin_identify_ns, admin_get_log_page}
use atc26_shaper_io.Admin.Info.{NsInfo, little_endian, ns_info_blank, nvm_admin_ns_info}

-- A page whose elements are bytes.
abbrev pub Bytes : List ℕ → Type 0
Bytes page = (i : ℕ) → get_or page i 0 < 2 ^ 8

-- Four bytes by name.
four_bytes :
    (page : List ℕ) (at_byte : ℕ)
    → little_endian 4 page at_byte
      ≡ get_or page at_byte 0
        + 2 ^ 8 * get_or page (at_byte + 1) 0
        + 2 ^ 16 * get_or page (at_byte + 2) 0
        + 2 ^ 24 * get_or page (at_byte + 3) 0
four_bytes page at_byte =
    let two : at_byte + 1 + 1 ≡ at_byte + 2 = omega arith in
    let three : at_byte + 2 + 1 ≡ at_byte + 3 = omega arith in rw (two, three) (omega arith)

format_lem :
    (page : List ℕ) (at_byte : ℕ)
    → Bytes page
    → (rb (little_endian 4 page at_byte) 23 16 ≡ get_or page (at_byte + 2) 0)
      × (rb (little_endian 4 page at_byte) 15 0
          ≡ get_or page at_byte 0 + 2 ^ 8 * get_or page (at_byte + 1) 0)
format_lem page at_byte small =
    let e = four_bytes page at_byte in
    let b0 = small at_byte in
    let b1 = small (at_byte + 1) in
    let b2 = small (at_byte + 2) in
    let b3 = small (at_byte + 3) in
    (
      rb_lem (little_endian 4 page at_byte) 23 16 (omega arith) ∙ omega arith,
      rb_lem (little_endian 4 page at_byte) 15 0 (omega arith) ∙ omega arith,
    )

module _ (rpc : Rpc) (ns_id ioaddr : ℕ) (info : NsInfo) where
  abbrev answer : ℤ × Dwords × List ℕ
  answer = rpc (admin_identify_ns blank ns_id ioaddr)

  abbrev page : List ℕ
  page = answer.2

  -- the place of the format in use, by the low half of byte 26
  abbrev format : ℕ
  format = 128 + 4 * (get_or page 26 0 % 2 ^ 4)

  -- Without a place for the answer the call fails with EINVAL; where the controller refuses it gives the
  -- controller's status and nothing but the namespace's number. Else the sizes are those of the page,
  -- and the block and metadata sizes are those of the format that byte 26 names.
  pub nvm_admin_ns_info_lem :
      Bytes page
      → (nvm_admin_ns_info rpc false ns_id ioaddr info ≡ (pos einval, info))
        × (nvm_ok answer.0 ≡ false
            → nvm_admin_ns_info rpc true ns_id ioaddr info ≡ (answer.0, ns_info_blank ns_id))
        × (nvm_ok answer.0 ≡ true
            → nvm_admin_ns_info rpc true ns_id ioaddr info ≡ (
              pos 0,
              record {
                ns_id = ns_id;
                size = little_endian 8 page 0;
                capacity = little_endian 8 page 8;
                utilization = little_endian 8 page 16;
                lba_data_size = 2 ^ get_or page (format + 2) 0;
                metadata_size = get_or page format 0 + 2 ^ 8 * get_or page (format + 1) 0;
              },
            ))
  unfolding nvm_admin_ns_info
  nvm_admin_ns_info_lem small =
      let low : rb (get_or page 26 0) 3 0 ≡ get_or page 26 0 % 2 ^ 4 =
        rb_lem (get_or page 26 0) 3 0 (omega arith) ∙ omega arith in
      let (lba, meta) = format_lem page format small in
      (
        rw (err_pack-errno einval (omega arith)) refl,
        λ bad. rw bad refl,
        λ fine. rw (fine, err_pack-none, low, lba, meta) refl,
      )

-- The count of words that a log page command names is one less than what the controller sends: 4100 bytes,
-- more than the page of 4096 that the caller has cleared for them.
pub log_page_overruns :
    (ns_id ioaddr log_id log_offset : ℕ)
    → log_id < 2 ^ 8
    → (get_or (admin_get_log_page blank ns_id ioaddr log_id log_offset) 10 0 / 2 ^ 16 + 1) * 4
      ≡ 4100
unfolding admin_get_log_page
log_page_overruns ns_id ioaddr log_id log_offset small =
    rw (pointed-words (nvm_cmd_opcode 0 0 2) ns_id ioaddr, or-disjoint 16 1024 log_id (omega arith))
      (omega arith)
