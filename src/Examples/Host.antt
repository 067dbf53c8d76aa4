-- ===== src/Examples/Host.antt =====
-- The host's queue functions, and the arithmetic of pages and fields, at concrete values.
use atc26_shaper_io.Prelude.{
  ℕ, zero, suc, ◌+◌, ◌-◌, ◌*◌, ◌/◌, ◌%◌, ◌^◌, ◌≤◌, ◌<◌, ◌≡◌, ◌≢◌, ◌↔◌, refl, none, some, Option, [],
  ◌∷◌, get_or, if◌then◌else◌, ◌==◌, arith,
}
use atc26_shaper_io.Types.{NvmQueue, NvmCtrl}
use atc26_shaper_io.Examples.{four}
use atc26_shaper_io.HostQueue.{nvm_sq_enqueue, nvm_cq_dequeue, nvm_cq_dequeue_block}
use atc26_shaper_io.HostQueue.Submission.{Runs, nvm_sq_enqueue-Runs, after, full_test_iff}
use atc26_shaper_io.HostQueue.Completion.{Ready, nvm_cq_dequeue-Ready, nvm_cq_dequeue_block-ends}

-- three commands have been taken, and the controller has consumed one
abbrev used : NvmQueue
used = record four { head = 1; tail = 3 }

used-Runs : Runs used 1 3
used-Runs = record {
  lo = omega arith;
  hi = omega arith;
  le = omega arith;
  room = omega arith;
  head = refl;
  tail = refl;
  phase = refl;
}

nvm_sq_enqueue-Runs_example :
    (3 - 1 ≡ used.qs - 1 → nvm_sq_enqueue used ≡ (none, used))
    × (3 - 1 ≢ used.qs - 1
        → (sq' : NvmQueue) × (nvm_sq_enqueue used
            ≡ (some (used.vaddr + used.es * (3 % used.qs)), sq'))
          × Runs sq' 1 (3 + 1))
    × ((i : ℕ) → 1 ≤ i → i < 3 → i % used.qs ≢ 3 % used.qs)
nvm_sq_enqueue-Runs_example = nvm_sq_enqueue-Runs used 1 3 16384 refl used-Runs

-- a queue of a size that does not divide 65536
abbrev odd : NvmQueue
odd = record four { qs = 1000 }

full_test_iff_example :
    ((h t : ℕ)
      → h ≤ t
      → t - h < 1000
      → ((nvm_sq_enqueue (after odd h t)).0 ≡ none) ↔ (t - h ≡ 1000 - 1))
    ↔ (65536 % 1000 ≡ 0)
full_test_iff_example = full_test_iff odd (omega arith) (omega arith)

-- a completion queue with one completion in it
abbrev pub posted : NvmQueue
posted = record four { es = 16; mem = (0 ∷ 0 ∷ 1 ∷ 0x10000 ∷ []) ∷ [] ∷ [] ∷ [] ∷ [] }

pub posted-Ready : Ready posted 0 1
posted-Ready = record {
  lo = omega arith;
  hi = omega arith;
  le = omega arith;
  near = omega arith;
  head = refl;
  phase = refl;
  latest = latest;
  fresh = fresh;
}
  where
    latest :
        (n : ℕ)
        → n < 1
        → 1 ≤ n + 4
        → get_or (get_or posted.mem (n % 4) []) 3 0 / 2 ^ 16 % 2 ≡ (if n / 4 % 2 == 0 then 1 else 0)
    latest zero lt le = refl
    latest (suc n) lt le = absurd (omega arith)

    fresh : (n : ℕ) → 1 ≤ n → n < 4 → get_or (get_or posted.mem n []) 3 0 / 2 ^ 16 % 2 ≡ 0
    fresh zero le lt = absurd (omega arith)
    fresh (suc zero) le lt = refl
    fresh (suc (suc zero)) le lt = refl
    fresh (suc (suc (suc zero))) le lt = refl
    fresh (suc (suc (suc (suc n)))) le lt = absurd (omega arith)

nvm_cq_dequeue-Ready_example :
    (◌≡◌ {A = ℕ} 0 1 → nvm_cq_dequeue posted ≡ (none, posted))
    × (0 < 1
        → (cq' : NvmQueue) × (nvm_cq_dequeue posted
            ≡ (some (posted.vaddr + posted.es * (0 % posted.qs)), cq'))
          × Ready cq' (0 + 1) 1)
nvm_cq_dequeue-Ready_example = nvm_cq_dequeue-Ready posted 0 1 posted-Ready

nvm_cq_dequeue_block-ends_example :
    (r : Option ℕ × NvmQueue) × (nvm_cq_dequeue_block (50 + 1) (λ cq. cq) four 50 ≡ some r)
nvm_cq_dequeue_block-ends_example = nvm_cq_dequeue_block-ends (λ cq. cq) four 50

abbrev ctrl : NvmCtrl
ctrl = record {
  page_size = 4096;
  dstrd = 0;
  timeout = 500;
  max_qs = 1024;
  mm_size = 0x2000;
  mm_ptr = 0x10000;
}

-- a completion queue whose head has moved
abbrev moved : NvmQueue
moved = record posted { head = 1 }
