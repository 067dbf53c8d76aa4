-- ===== src/Rpc/Execute/Tests.antt =====
-- A command on queues of four entries, with a controller that answers at once and one that never does.
use atc26_shaper_io.Prelude.{
  ℕ, zero, suc, ◌+◌, ◌/◌, ◌%◌, ◌^◌, ◌≤◌, ◌<◌, ◌≡◌, ◌≢◌, refl, none, some, [], ◌∷◌, get_or, set,
  iterate, true, arith,
}
use atc26_shaper_io.Types.{Dwords, NvmQueue}
use atc26_shaper_io.Examples.{four}
use atc26_shaper_io.Examples.Host.{posted, posted-Ready}
use atc26_shaper_io.HostQueue.Submission.{Runs}
use atc26_shaper_io.HostQueue.Completion.{Ready}
use atc26_shaper_io.Dma.{Handle}
use atc26_shaper_io.Rpc.{LocalAdmin, eagain, etime}
use atc26_shaper_io.Rpc.Execute.{nvm_default_cid, set_cid, execute_command}
use atc26_shaper_io.Rpc.Execute.Cid.{nvm_default_cid-apart}
use atc26_shaper_io.Rpc.Execute.Answer.{polled}
use atc26_shaper_io.Rpc.Execute.Served.{Working, execute_command-Answered, execute_command-Missed}

abbrev pages : Handle
pages = record {
  vaddr = 0x8000;
  page_size = 4096;
  n_ioaddrs = 2;
  ioaddrs = 0x20000 ∷ 0x21000 ∷ [];
  contiguous = true;
  local = true;
}

-- an empty completion queue
abbrev silent : NvmQueue
silent = record four { es = 16 }

abbrev admin : LocalAdmin
admin = record { qmem = pages; acq = silent; asq = four; timeout = 50 }

abbrev cmd : Dwords
cmd = 6 ∷ 0 ∷ 0 ∷ 0 ∷ 0 ∷ 0 ∷ 0 ∷ 0 ∷ 0 ∷ 0 ∷ 0 ∷ 0 ∷ 0 ∷ 0 ∷ 0 ∷ 0 ∷ []

four-Runs : Runs four 0 0
four-Runs = record {
  lo = omega arith;
  hi = omega arith;
  le = omega arith;
  room = omega arith;
  head = refl;
  tail = refl;
  phase = refl;
}

admin-Working : Working admin 0 0
admin-Working = record {
  runs = four-Runs;
  whole = refl;
  small = omega arith;
  entries = omega arith;
  bell = (0x1000, refl);
  fits = omega arith;
}

silent-Ready : Ready silent 0 0
silent-Ready = record {
  lo = omega arith;
  hi = omega arith;
  le = omega arith;
  near = omega arith;
  head = refl;
  phase = refl;
  latest = λ n lt. absurd (omega arith);
  fresh = λ n le lt. fresh n lt;
}
  where
    fresh : (n : ℕ) → n < 4 → get_or (get_or silent.mem n []) 3 0 / 2 ^ 16 % 2 ≡ 0
    fresh zero lt = refl
    fresh (suc zero) lt = refl
    fresh (suc (suc zero)) lt = refl
    fresh (suc (suc (suc zero))) lt = refl
    fresh (suc (suc (suc (suc n)))) lt = absurd (omega arith)

silent-stays : (i : ℕ) → Ready (iterate i (λ (q : NvmQueue). q) silent) 0 0
silent-stays zero = silent-Ready
silent-stays (suc i) = silent-stays i

abbrev answers : NvmQueue → NvmQueue → NvmQueue
answers sq cq = posted

execute_command-Answered_example :
    (admin' : LocalAdmin) × (execute_command (50 + 1) answers admin cmd
      ≡ some (0, some (0 ∷ 0 ∷ 1 ∷ 0x10000 ∷ []), admin'))
    × Working admin' 1 1
    × Ready admin'.acq 1 1
    × (admin'.asq.mem ≡ set admin.asq.mem 0 (set_cid cmd 1))
execute_command-Answered_example =
    execute_command-Answered answers admin cmd 0 0 0 admin-Working 1 0 (omega arith) (omega arith)
      (λ i lt. absurd (omega arith)) posted-Ready (omega arith) (omega arith)

execute_command-Missed_example :
    (◌≡◌ {A = ℕ} 0 3
      → execute_command (50 + 1) (λ sq cq. cq) admin cmd ≡ some (eagain, none, admin))
    × (◌≢◌ {A = ℕ} 0 3
        → ((i : ℕ) → i ≤ 50 → Ready (polled (λ sq cq. cq) admin cmd i) 0 0)
        → (admin' : LocalAdmin) × (execute_command (50 + 1) (λ sq cq. cq) admin cmd
            ≡ some (etime, none, admin'))
          × Working admin' 0 1
          × Ready admin'.acq 0 0)
execute_command-Missed_example = execute_command-Missed (λ sq cq. cq) admin cmd 0 0 0 admin-Working

-- The silent controller times the first command out.
timed_out :
    (admin' : LocalAdmin) × (execute_command 51 (λ sq cq. cq) admin cmd
      ≡ some (etime, none, admin'))
    × Working admin' 0 1
    × Ready admin'.acq 0 0
timed_out =
    let (full, missed) = execute_command-Missed (λ sq cq. cq) admin cmd 0 0 0 admin-Working in
    missed (omega arith) (λ i le. silent-stays i)

-- the queue with one command
abbrev next : NvmQueue
next = record four { tail = 1 }

nvm_default_cid-apart_example : nvm_default_cid four ≢ nvm_default_cid next
nvm_default_cid-apart_example =
    nvm_default_cid-apart four next 0 0 0 1 (omega arith) refl four-Runs
      (record {
        lo = omega arith;
        hi = omega arith;
        le = omega arith;
        room = omega arith;
        head = refl;
        tail = refl;
        phase = refl;
      })
      (omega arith) (omega arith)
