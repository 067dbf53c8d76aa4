-- ===== src/ParallelQueue/Tests.antt =====
-- Runs of the functions that give slots, identifiers and queue places back.
use atc26_shaper_io.Prelude.{◌≡◌, refl, some, none, [], ◌∷◌}
use atc26_shaper_io.Types.{NvmQueue}
use atc26_shaper_io.ParallelQueue.{
  put_cid, clean_cids, clean_cids_from, move_head_sq, move_head_sq_loop,
}

-- a queue of two slots, the first of which is to be given back
abbrev pub two : NvmQueue
two = record {
  head_lock = 0;
  tail_lock = 0;
  head = 0;
  tail = 1;
  in_ticket = 1;
  cid_ticket = 2;
  tickets = 1 ∷ 0 ∷ [];
  head_mark = 1 ∷ 0 ∷ [];
  tail_mark = 0 ∷ 0 ∷ [];
  cid = 1 ∷ 1 ∷ 0 ∷ [];
  pos_locks = 0 ∷ 0 ∷ [];
  clean_cid = 1 ∷ 0 ∷ [];
  qs_minus_1 = 1;
  qs_log2 = 1;
  no = 1;
  es = 64;
  qs = 2;
  phase = 1;
  local = 1;
  last = 0;
  db = none;
  doorbell = 0;
  vaddr = 0;
  ioaddr = 0;
  mem = (0 ∷ 0 ∷ 1 ∷ 0x10000 ∷ []) ∷ [] ∷ [];
}

identifiers : (clean_cids two two 1).cid ≡ 1 ∷ 0 ∷ 0 ∷ []
unfolding clean_cids clean_cids_from put_cid
identifiers = refl

one_slot :
    move_head_sq 2 two 0 ≡ some (1, record two { head_mark = 0 ∷ 0 ∷ []; tickets = 2 ∷ 0 ∷ [] })
unfolding move_head_sq move_head_sq_loop
one_slot = refl
