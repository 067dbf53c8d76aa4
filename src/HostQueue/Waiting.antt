-- ===== src/HostQueue/Waiting.antt =====
-- `nvm_cq_dequeue_block` when the controller answers in time, and when it does not.
use atc26_shaper_io.Prelude.{
  ℕ, zero, suc, ◌+◌, ◌*◌, ◌%◌, ◌^◌, ◌≤◌, ◌<◌, ◌≡◌, ◌∙◌, refl, none, some, iterate, arith,
}
use atc26_shaper_io.Prelude.Words.{u64}
use atc26_shaper_io.Types.{NvmQueue}
use atc26_shaper_io.HostQueue.{cq_taken, nvm_delay_remain, dequeue_wait, nvm_cq_dequeue_block}
use atc26_shaper_io.HostQueue.Completion.{
  Ready, poll_empty, poll_ready, taken-Ready, wait_hit, wait_over, wait_on,
}
use atc26_shaper_io.HostQueue.Delay.{delay_ge, one_less}

-- the address of the entry at use `n`
abbrev pub entry : NvmQueue → ℕ → ℕ
entry cq n = cq.vaddr + cq.es * (n % cq.qs)

wait_finds :
    (d fuel : ℕ) (write : NvmQueue → NvmQueue) (nsecs : ℕ) (cq : NvmQueue) (n p : ℕ)
    → d < fuel
    → d * 1000000 ≤ nsecs
    → ((i : ℕ) → i < d → Ready (iterate i write cq) n n)
    → Ready (iterate d write cq) n p
    → n < p
    → let there = iterate d write cq in
      dequeue_wait fuel write nsecs cq
      ≡ some (some (entry there n), cq_taken there (some (entry there n)))
wait_finds d zero write nsecs cq n p lt time before is new = absurd (omega arith)
wait_finds zero (suc fuel) write nsecs cq n p lt time before is new =
    wait_hit fuel write nsecs cq (poll_ready cq n p is new)
wait_finds (suc d) (suc fuel) write nsecs cq n p lt time before is new =
    wait_on fuel write nsecs cq (poll_empty cq n n (before 0 (omega arith)) refl) (omega arith)
    ∙ wait_finds d fuel write (nvm_delay_remain nsecs) (write cq) n p (omega arith)
        (delay_ge d nsecs time) (λ i small. before (suc i) (omega arith)) is new

-- A completion that the controller posts within `timeout` polls is found, and is the one at the head.
pub nvm_cq_dequeue_block-finds :
    (write : NvmQueue → NvmQueue) (cq : NvmQueue) (timeout d n p : ℕ)
    → timeout * 1000000 < 2 ^ 64
    → d ≤ timeout
    → ((i : ℕ) → i < d → Ready (iterate i write cq) n n)
    → Ready (iterate d write cq) n p
    → n < p
    → let there = iterate d write cq in
      (nvm_cq_dequeue_block (timeout + 1) write cq timeout
        ≡ some (some (entry there n), cq_taken there (some (entry there n))))
      × Ready (cq_taken there (some (entry there n))) (n + 1) p
unfolding nvm_cq_dequeue_block
nvm_cq_dequeue_block-finds write cq timeout d n p fits le before is new = (
  wait_finds d (timeout + 1) write (u64 (timeout * 1000000)) cq n p (omega arith) (omega arith)
      before is new,
  taken-Ready (iterate d write cq) n p is new,
)

wait_misses :
    (rounds fuel : ℕ) (write : NvmQueue → NvmQueue) (nsecs : ℕ) (cq : NvmQueue) (n : ℕ)
    → rounds < fuel
    → nsecs ≡ rounds * 1000000
    → ((i : ℕ) → i ≤ rounds → Ready (iterate i write cq) n n)
    → dequeue_wait fuel write nsecs cq ≡ some (none, iterate rounds write cq)
wait_misses rounds zero write nsecs cq n lt time before = absurd (omega arith)
wait_misses zero (suc fuel) write nsecs cq n lt time before =
    wait_over fuel write nsecs cq (poll_empty cq n n (before 0 (omega arith)) refl) time
wait_misses (suc rounds) (suc fuel) write nsecs cq n lt time before =
    wait_on fuel write nsecs cq (poll_empty cq n n (before 0 (omega arith)) refl) (omega arith)
    ∙ wait_misses rounds fuel write (nvm_delay_remain nsecs) (write cq) n (omega arith)
        (one_less rounds nsecs time) (λ i small. before (suc i) (omega arith))

-- Where it posts none in that time there is none.
pub nvm_cq_dequeue_block-misses :
    (write : NvmQueue → NvmQueue) (cq : NvmQueue) (timeout n : ℕ)
    → timeout * 1000000 < 2 ^ 64
    → ((i : ℕ) → i ≤ timeout → Ready (iterate i write cq) n n)
    → nvm_cq_dequeue_block (timeout + 1) write cq timeout ≡ some (none, iterate timeout write cq)
unfolding nvm_cq_dequeue_block
nvm_cq_dequeue_block-misses write cq timeout n fits before =
    wait_misses timeout (timeout + 1) write (u64 (timeout * 1000000)) cq n (omega arith)
      (omega arith) before
