-- ===== src/Admin/Info/Tests.antt =====
-- A short page: the bytes that it does not have are 0.
use atc26_shaper_io.Prelude.{
  ℕ, zero, suc, ◌+◌, ◌*◌, ◌/◌, ◌≡◌, ◌^◌, true, false, List, [], ◌∷◌, get_or, arith,
}
use atc26_shaper_io.Errors.{pos}
use atc26_shaper_io.HostQueue.{einval}
use atc26_shaper_io.Admin.{Rpc, nvm_ok, blank, admin_get_log_page}
use atc26_shaper_io.Admin.Info.{NsInfo, little_endian, ns_info_blank, nvm_admin_ns_info}
use atc26_shaper_io.Admin.Info.Namespace.{Bytes, nvm_admin_ns_info_lem, log_page_overruns}

abbrev page : List ℕ
page = 200 ∷ []

page-Bytes : Bytes page
page-Bytes zero = omega arith
page-Bytes (suc i) = omega arith

abbrev answers : Rpc
answers cmd = (pos 0, 0 ∷ 0 ∷ 0 ∷ 0 ∷ [], page)

abbrev old : NsInfo
old = ns_info_blank 1

nvm_admin_ns_info_lem_example :
    (nvm_admin_ns_info answers false 1 0x9000 old ≡ (pos einval, old))
    × (nvm_ok (pos 0) ≡ false
        → nvm_admin_ns_info answers true 1 0x9000 old ≡ (pos 0, ns_info_blank 1))
    × (nvm_ok (pos 0) ≡ true
        → nvm_admin_ns_info answers true 1 0x9000 old ≡ (
          pos 0,
          record {
            ns_id = 1;
            size = little_endian 8 page 0;
            capacity = little_endian 8 page 8;
            utilization = little_endian 8 page 16;
            lba_data_size = 2 ^ get_or page 130 0;
            metadata_size = get_or page 128 0 + 2 ^ 8 * get_or page 129 0;
          },
        ))
nvm_admin_ns_info_lem_example = nvm_admin_ns_info_lem answers 1 0x9000 old page-Bytes

log_page_overruns_example :
    (get_or (admin_get_log_page blank 1 0x9000 2 0) 10 0 / 2 ^ 16 + 1) * 4 ≡ 4100
log_page_overruns_example = log_page_overruns 1 0x9000 2 0 (omega arith)
