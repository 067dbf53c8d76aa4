-- ===== src/Admin/Queues/Numbers.antt =====
-- The numbers of queues that a controller grants.
use atc26_shaper_io.Prelude.{
  ℕ, ◌+◌, ◌-◌, ◌*◌, ◌/◌, ◌%◌, ◌^◌, ◌≤◌, ◌<◌, ◌≡◌, refl, true, false, ◌||◌, ◌==◌, List, get_or,
  bit_and, arith,
}
use atc26_shaper_io.Prelude.Bits.{or-disjoint, and-low_mask}
use atc26_shaper_io.Prelude.Words.{u16, u32, sub_u32}
use atc26_shaper_io.Types.{Dwords}
use atc26_shaper_io.Errors.{pos}
use atc26_shaper_io.Errors.Status.{err_pack-none}
use atc26_shaper_io.Command.{nvm_cmd_opcode}
use atc26_shaper_io.Command.Blank.{pointed-words}
use atc26_shaper_io.Command.Fields.{nvm_cmd_opcode_lem}
use atc26_shaper_io.Admin.{Rpc, blank, admin_current_num_queues}
use atc26_shaper_io.Admin.Queues.{nvm_admin_request_num_queues}

-- The request by its words: feature 7, the number of completion queues in the high half of word 11 and
-- that of submission queues in the low half, both less one.
pub num_queues_words :
    (n_cqs n_sqs : ℕ)
    → 1 ≤ n_cqs
    → n_cqs < 2 ^ 16
    → 1 ≤ n_sqs
    → n_sqs < 2 ^ 16
    → (get_or (admin_current_num_queues blank true n_cqs n_sqs) 0 0 ≡ 9)
      × (get_or (admin_current_num_queues blank true n_cqs n_sqs) 10 0 ≡ 7)
      × (get_or (admin_current_num_queues blank true n_cqs n_sqs) 11 0
          ≡ (n_cqs - 1) * 2 ^ 16 + (n_sqs - 1))
unfolding admin_current_num_queues
num_queues_words n_cqs n_sqs c1 c2 s1 s2 =
    let op : nvm_cmd_opcode 0 2 1 % 2 ^ 7 ≡ 9 = omega (arith, nvm_cmd_opcode_lem 0 2 1) in
    let high : u32 (sub_u32 n_cqs 1 * 2 ^ 16) ≡ (n_cqs - 1) * 2 ^ 16 = omega arith in
    let low : sub_u32 n_sqs 1 ≡ n_sqs - 1 = omega arith in
    rw
      (
        pointed-words (nvm_cmd_opcode 0 2 1) 0 0,
        op,
        high,
        low,
        or-disjoint 16 (n_cqs - 1) (n_sqs - 1) (omega arith),
      )
      (refl, refl, refl)

-- The NVMe specification has a controller answer the request with the granted numbers placed as in the
-- request. From a controller that grants `c` completion queues and `s` submission queues the caller is
-- told `s` completion queues and `c` submission queues.
pub request_num_queues-swapped :
    (rpc : Rpc) (n_cqs n_sqs c s : ℕ) (completion : Dwords) (page : List ℕ)
    → 1 ≤ n_cqs
    → 1 ≤ n_sqs
    → 1 ≤ c
    → c < 2 ^ 16
    → 1 ≤ s
    → s < 2 ^ 16
    → rpc (admin_current_num_queues blank true n_cqs n_sqs) ≡ (pos 0, completion, page)
    → get_or completion 0 0 ≡ (c - 1) * 2 ^ 16 + (s - 1)
    → nvm_admin_request_num_queues rpc n_cqs n_sqs ≡ (pos 0, s, c)
unfolding nvm_admin_request_num_queues
request_num_queues-swapped rpc n_cqs n_sqs c s completion page c0 s0 c1 c2 s1 s2 answer granted =
    let asked : (n_cqs == 0 || n_sqs == 0) ≡ false = ground arith in
    let low : u16 (bit_and (get_or completion 0 0) 0xffff + 1) ≡ s =
      omega (arith, and-low_mask 16 (get_or completion 0 0), granted) in
    let high : u16 (get_or completion 0 0 / 2 ^ 16 + 1) ≡ c = omega (arith, granted) in
    rw (asked, answer, err_pack-none, low, high) refl
