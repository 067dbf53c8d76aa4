-- ===== src/Examples.antt =====
-- Small concrete queues, lists, commands and caches on which the theorems are applied.
pub mod Parallel
pub mod Host
pub mod Commands
pub mod Lists
use atc26_shaper_io.Prelude.{ℕ, zero, suc, ◌≤◌, List, [], ◌∷◌, some, get_or, arith}
use atc26_shaper_io.Types.{NvmQueue}

-- an empty queue of four slots, of either kind
abbrev pub four : NvmQueue
four = record {
  head_lock = 0;
  tail_lock = 0;
  head = 0;
  tail = 0;
  in_ticket = 0;
  cid_ticket = 0;
  tickets = 0 ∷ 0 ∷ 0 ∷ 0 ∷ [];
  head_mark = 0 ∷ 0 ∷ 0 ∷ 0 ∷ [];
  tail_mark = 0 ∷ 0 ∷ 0 ∷ 0 ∷ [];
  cid = [];
  pos_locks = 0 ∷ 0 ∷ 0 ∷ 0 ∷ [];
  clean_cid = [];
  qs_minus_1 = 3;
  qs_log2 = 2;
  no = 1;
  es = 64;
  qs = 4;
  phase = 1;
  local = 1;
  last = 0;
  db = some 0x1000;
  doorbell = 0;
  vaddr = 0x8000;
  ioaddr = 0x8000;
  mem = [] ∷ [] ∷ [] ∷ [] ∷ [];
}

-- no marks on four slots
pub all_down : (i : ℕ) → get_or four.tail_mark i 0 ≤ 1
all_down zero = omega arith
all_down (suc zero) = omega arith
all_down (suc (suc zero)) = omega arith
all_down (suc (suc (suc zero))) = omega arith
all_down (suc (suc (suc (suc i)))) = omega arith
