-- ===== src/HostQueue/Frame.antt =====
-- What the queue functions leave alone, the states that they keep, and the identifiers of commands.
use atc26_shaper_io.Prelude.{
  ℕ, ◌+◌, ◌-◌, ◌*◌, ◌%◌, ◌≡◌, refl, List, Option, none, some, ◌==◌, if_either,
}
use atc26_shaper_io.Prelude.Words.{u16, u32, sub_u32}
use atc26_shaper_io.Types.{NvmQueue, Dwords}
use atc26_shaper_io.HostQueue.{nvm_sq_enqueue, nvm_sq_submit, nvm_sq_update, nvm_cq_update, rung}
use atc26_shaper_io.HostQueue.Submission.{Runs}
use atc26_shaper_io.HostQueue.Completion.{Ready}

-- The fields that are set when a queue is made.
pub record Same (q q' : NvmQueue) : Type 0 where
  pub qs : q'.qs ≡ q.qs
  pub es : q'.es ≡ q.es
  pub vaddr : q'.vaddr ≡ q.vaddr
  pub db : q'.db ≡ q.db

pub nvm_sq_enqueue-Same :
    (sq : NvmQueue) → Same sq (nvm_sq_enqueue sq).1 × ((nvm_sq_enqueue sq).1.mem ≡ sq.mem)
unfolding nvm_sq_enqueue
nvm_sq_enqueue-Same sq =
    if_either P (u16 (sub_u32 sq.tail sq.head) % sq.qs == sq.qs - 1)
      (λ e. (record { qs = refl; es = refl; vaddr = refl; db = refl }, refl))
      (λ e.
        if_either (λ q. P (some (sq.vaddr + sq.es * sq.tail), q)) (u32 (sq.tail + 1) == sq.qs)
          (λ e. (record { qs = refl; es = refl; vaddr = refl; db = refl }, refl))
          (λ e. (record { qs = refl; es = refl; vaddr = refl; db = refl }, refl)))
  where
    P : Option ℕ × NvmQueue → Type 0
    P r = Same sq r.1 × (r.1.mem ≡ sq.mem)

ring_or :
    {q q' : NvmQueue} (P : NvmQueue → Type 0) → P q → P q' → (db : Option ℕ) → P (rung db q q')
ring_or P a b none = a
ring_or P a b (some db) = b

pub nvm_sq_submit-Runs :
    (sq : NvmQueue) (h t : ℕ)
    → Runs sq h t
    → Runs (nvm_sq_submit sq) h t × Same sq (nvm_sq_submit sq) × ((nvm_sq_submit sq).mem ≡ sq.mem)
unfolding nvm_sq_submit
nvm_sq_submit-Runs sq h t is =
    if_either P (sq.last == sq.tail) (λ e. kept) (λ e. ring_or P kept moved sq.db)
  where
    P : NvmQueue → Type 0
    P q = Runs q h t × Same sq q × (q.mem ≡ sq.mem)

    kept : P sq
    kept = (is, record { qs = refl; es = refl; vaddr = refl; db = refl }, refl)

    moved : P (record sq { doorbell = sq.tail; last = sq.tail })
    moved = (
      record {
        lo = is.lo;
        hi = is.hi;
        le = is.le;
        room = is.room;
        head = is.head;
        tail = is.tail;
        phase = is.phase;
      },
      record { qs = refl; es = refl; vaddr = refl; db = refl },
      refl,
    )

pub nvm_sq_update-Same :
    (sq : NvmQueue) → Same sq (nvm_sq_update sq) × ((nvm_sq_update sq).mem ≡ sq.mem)
unfolding nvm_sq_update
nvm_sq_update-Same sq =
    ring_or (λ q. Same sq q × (q.mem ≡ sq.mem))
      (record { qs = refl; es = refl; vaddr = refl; db = refl }, refl)
      (record { qs = refl; es = refl; vaddr = refl; db = refl }, refl) sq.db

pub nvm_cq_update-Ready : (cq : NvmQueue) (h p : ℕ) → Ready cq h p → Ready (nvm_cq_update cq) h p
unfolding nvm_cq_update
nvm_cq_update-Ready cq h p is =
    if_either P (cq.last == cq.head) (λ e. is) (λ e. ring_or P is moved cq.db)
  where
    P : NvmQueue → Type 0
    P q = Ready q h p

    moved : P (record cq { doorbell = cq.head; tail = cq.head; last = cq.head })
    moved = record {
      lo = is.lo;
      hi = is.hi;
      le = is.le;
      near = is.near;
      head = is.head;
      phase = is.phase;
      latest = is.latest;
      fresh = is.fresh;
    }

-- A write to the memory keeps a submission queue's state.
pub stored-Runs :
    (sq : NvmQueue) (h t : ℕ) (mem : List Dwords) → Runs sq h t → Runs (record sq { mem = mem }) h t
stored-Runs sq h t mem is = record {
  lo = is.lo;
  hi = is.hi;
  le = is.le;
  room = is.room;
  head = is.head;
  tail = is.tail;
  phase = is.phase;
}
