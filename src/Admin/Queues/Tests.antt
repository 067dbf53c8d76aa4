-- ===== src/Admin/Queues/Tests.antt =====
-- Queues in a window of four pages of 4096 bytes, with a controller that accepts every command.
use atc26_shaper_io.Prelude.{
  ℕ, ◌+◌, ◌*◌, ◌≡◌, ◌≢◌, ◌⊎◌, ◌^◌, ◌||◌, ◌==◌, refl, Bool, true, false, none, some, [], ◌∷◌, arith,
}
use atc26_shaper_io.Types.{Dwords, NvmQueue, NvmCtrl}
use atc26_shaper_io.Util.{sq_pages, cq_pages}
use atc26_shaper_io.Errors.{pos}
use atc26_shaper_io.HostQueue.{einval}
use atc26_shaper_io.Examples.{four}
use atc26_shaper_io.Dma.{Handle}
use atc26_shaper_io.Admin.{Rpc, nvm_ok, blank, admin_cq_create, admin_sq_create}
use atc26_shaper_io.Admin.Fields.{CreateFields}
use atc26_shaper_io.Admin.Queues.{
  bad_size, outside, nvm_admin_cq_create, nvm_admin_sq_create, nvm_admin_cq_delete,
  nvm_admin_sq_delete, nvm_admin_request_num_queues,
}
use atc26_shaper_io.Admin.Queues.Create.{Answered, laid_out, Placed}
use atc26_shaper_io.Admin.Queues.Create.Completion.{nvm_admin_cq_create-Placed}
use atc26_shaper_io.Admin.Queues.Create.Submission.{nvm_admin_sq_create-Placed}
use atc26_shaper_io.Admin.Queues.Delete.{silenced, queues-deleted}
use atc26_shaper_io.Admin.Queues.Numbers.{request_num_queues-swapped}

abbrev handle : NvmCtrl
handle = record {
  page_size = 64 * 64;
  dstrd = 0;
  timeout = 5000;
  max_qs = 1024;
  mm_size = 0x4000;
  mm_ptr = 0x10000;
}

abbrev window : Handle
window = record {
  vaddr = 0x8000;
  page_size = 4096;
  n_ioaddrs = 4;
  ioaddrs = 0x20000 ∷ 0x21000 ∷ 0x22000 ∷ 0x23000 ∷ [];
  contiguous = true;
  local = true;
}

-- It grants 8 completion queues and 4 submission queues.
abbrev accepts : Rpc
accepts cmd = (pos 0, (7 * 2 ^ 16 + 3) ∷ 0 ∷ 0 ∷ 0 ∷ [], [])

abbrev cq_made : NvmQueue
cq_made = laid_out handle four 1 window 1 256 true

abbrev cq_command : Dwords
cq_command = admin_cq_create blank cq_made 0x21000 false

abbrev cq_window : Bool
cq_window = window.vaddr == 0 || outside window 1 (cq_pages (64 * 64) 256)

nvm_admin_cq_create-Placed_example :
    (◌≡◌ {A = ℕ} 1 0
      → nvm_admin_cq_create accepts (some handle) four four 1 window 1 0 false ≡ (pos einval, four))
    × (◌≢◌ {A = ℕ} 1 0
        → (bad_size handle 256 ≡ true) ⊎ (cq_window ≡ true)
        → nvm_admin_cq_create accepts (some handle) four four 1 window 1 0 false
          ≡ (pos einval, four))
    × (◌≢◌ {A = ℕ} 1 0
        → bad_size handle 256 ≡ false
        → cq_window ≡ false
        → Answered
            (nvm_admin_cq_create accepts (some handle) four four 1 window 1 0 false)
            (pos 0)
            four
            cq_made
          × Placed handle four 1 window 1 256 true
          × CreateFields cq_command 0x05 1 256 0x21000 1 0)
nvm_admin_cq_create-Placed_example =
    nvm_admin_cq_create-Placed accepts handle four four 1 window 1 0 64 false (omega arith) refl
      (omega arith) (omega arith)

abbrev sq_made : NvmQueue
sq_made = laid_out handle four 1 window 2 64 false

abbrev sq_command : Dwords
sq_command = admin_sq_create blank sq_made cq_made 0x22000 false

abbrev sq_window : Bool
sq_window = window.vaddr == 0 || outside window 2 (sq_pages (64 * 64) 64)

nvm_admin_sq_create-Placed_example :
    (◌≡◌ {A = ℕ} 1 0
      → nvm_admin_sq_create accepts (some handle) four four cq_made 1 window 2 64 false
        ≡ (pos einval, four))
    × (◌≢◌ {A = ℕ} 1 0
        → (bad_size handle 64 ≡ true) ⊎ (sq_window ≡ true)
        → nvm_admin_sq_create accepts (some handle) four four cq_made 1 window 2 64 false
          ≡ (pos einval, four))
    × (◌≢◌ {A = ℕ} 1 0
        → bad_size handle 64 ≡ false
        → sq_window ≡ false
        → Answered
            (nvm_admin_sq_create accepts (some handle) four four cq_made 1 window 2 64 false)
            (pos 0)
            four
            sq_made
          × Placed handle four 1 window 2 64 false
          × CreateFields sq_command 0x01 1 64 0x22000 1 1)
nvm_admin_sq_create-Placed_example =
    nvm_admin_sq_create-Placed accepts handle four four cq_made 1 window 2 64 64 false (omega arith)
      refl (omega arith) (omega arith) (omega arith)

queues-deleted_example :
    (nvm_ok (pos 0) ≡ true
      → nvm_admin_sq_delete accepts sq_made (some cq_made) ≡ (pos 0, silenced sq_made))
    × (nvm_ok (pos 0) ≡ false
        → nvm_admin_sq_delete accepts sq_made (some cq_made) ≡ (pos 0, sq_made))
    × (nvm_ok (pos 0) ≡ true → nvm_admin_cq_delete accepts cq_made ≡ (pos 0, silenced cq_made))
    × (nvm_ok (pos 0) ≡ false → nvm_admin_cq_delete accepts cq_made ≡ (pos 0, cq_made))
    × (nvm_admin_sq_delete accepts (silenced sq_made) (some cq_made)
        ≡ (pos einval, silenced sq_made))
    × (nvm_admin_cq_delete accepts (silenced cq_made) ≡ (pos einval, silenced cq_made))
    × (nvm_admin_sq_delete accepts sq_made (some (silenced cq_made)) ≡ (pos einval, sq_made))
    × (nvm_admin_sq_delete accepts sq_made none ≡ (pos einval, sq_made))
queues-deleted_example = queues-deleted accepts sq_made cq_made _ _ refl refl

request_num_queues-swapped_example : nvm_admin_request_num_queues accepts 8 4 ≡ (pos 0, 4, 8)
request_num_queues-swapped_example =
    request_num_queues-swapped accepts 8 4 8 4 ((7 * 2 ^ 16 + 3) ∷ 0 ∷ 0 ∷ 0 ∷ []) [] (omega arith)
      (omega arith) (omega arith) (omega arith) (omega arith) (omega arith) refl refl
