-- ===== src/Admin/Queues/Delete.antt =====
-- The deletion of queues, and its order.
use atc26_shaper_io.Prelude.{ℕ, ◌≡◌, refl, ap, true, false, none, some, arith}
use atc26_shaper_io.Types.{NvmQueue}
use atc26_shaper_io.Errors.{pos, err_pack}
use atc26_shaper_io.Errors.Status.{err_pack-none, err_pack-errno}
use atc26_shaper_io.HostQueue.{einval}
use atc26_shaper_io.Admin.{Rpc, nvm_ok, blank, admin_cq_delete, admin_sq_delete}
use atc26_shaper_io.Admin.Queues.{no_doorbell, nvm_admin_cq_delete, nvm_admin_sq_delete}

-- The queue without its doorbell.
abbrev pub silenced : NvmQueue → NvmQueue
silenced queue = record queue { db = none }

module _ (rpc : Rpc) (sq cq : NvmQueue) (sq_db cq_db : ℕ) (sq_bell : sq.db ≡ some sq_db)
    (cq_bell : cq.db ≡ some cq_db) where
  -- A queue with a doorbell is deleted if the controller accepts the command and stays as it is
  -- otherwise, with the controller's status. A deleted queue is refused with EINVAL and no command is
  -- sent, and so is a submission queue whose completion queue has been deleted first.
  pub queues-deleted :
      (nvm_ok (rpc (admin_sq_delete blank sq)).0 ≡ true
        → nvm_admin_sq_delete rpc sq (some cq) ≡ (pos 0, silenced sq))
      × (nvm_ok (rpc (admin_sq_delete blank sq)).0 ≡ false
          → nvm_admin_sq_delete rpc sq (some cq) ≡ ((rpc (admin_sq_delete blank sq)).0, sq))
      × (nvm_ok (rpc (admin_cq_delete blank cq)).0 ≡ true
          → nvm_admin_cq_delete rpc cq ≡ (pos 0, silenced cq))
      × (nvm_ok (rpc (admin_cq_delete blank cq)).0 ≡ false
          → nvm_admin_cq_delete rpc cq ≡ ((rpc (admin_cq_delete blank cq)).0, cq))
      × (nvm_admin_sq_delete rpc (silenced sq) (some cq) ≡ (pos einval, silenced sq))
      × (nvm_admin_cq_delete rpc (silenced cq) ≡ (pos einval, silenced cq))
      × (nvm_admin_sq_delete rpc sq (some (silenced cq)) ≡ (pos einval, sq))
      × (nvm_admin_sq_delete rpc sq none ≡ (pos einval, sq))
  unfolding nvm_admin_cq_delete nvm_admin_sq_delete
  queues-deleted = (
    λ fine. rw (sq_has, cq_has, fine, err_pack-none) refl,
    λ bad. rw (sq_has, cq_has, bad) refl,
    λ fine. rw (cq_has, fine, err_pack-none) refl,
    λ bad. rw (cq_has, bad) refl,
    rw (cq_has, refused) refl,
    rw refused refl,
    rw refused refl,
    rw refused refl,
  )
    where
      refused : err_pack none einval ≡ pos einval
      refused = err_pack-errno einval (omega arith)

      sq_has : no_doorbell sq.db ≡ false
      sq_has = ap no_doorbell sq_bell

      cq_has : no_doorbell cq.db ≡ false
      cq_has = ap no_doorbell cq_bell
