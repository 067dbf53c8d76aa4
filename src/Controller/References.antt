-- ===== src/Controller/References.antt =====
-- `_nvm_ctrl_get` and `_nvm_ctrl_put`: the references to a controller over its life.
use atc26_shaper_io.Prelude.{
  ℕ, zero, suc, ◌+◌, ◌<◌, ◌≡◌, ◌≢◌, ◌^◌, refl, ap, true, false, List, [], ◌∷◌, ◌++◌, Option, none,
  some, eq→==, ne→==, arith,
}
use atc26_shaper_io.Prelude.Words.{u32, sub_u32}
use atc26_shaper_io.Controller.{
  Container, Release, released, nvm_ctrl_get, nvm_ctrl_put, nvm_ctrl_free,
}

-- The states that a controller can get to from `c`: `n` of its references have been taken and not
-- returned, and `calls` are the calls of `release_device` so far.
pub data Reached (c : Container) : ℕ → Option Container → List Release → Type 0 where
  begin : Reached c 1 (some c) []
  take :
      {n : ℕ} {now : Container} {calls : List Release}
      → Reached c n (some now) calls
      → n + 1 < 2 ^ 32
      → Reached c (n + 1) (some (nvm_ctrl_get 0 now).1) calls
  refuse :
      {n : ℕ} {now : Container} {calls : List Release} {lock : ℕ}
      → Reached c n (some now) calls
      → lock ≢ 0
      → Reached c n (some (nvm_ctrl_get lock now).1) calls
  return :
      {n : ℕ} {now : Container} {calls : List Release}
      → Reached c (suc n) (some now) calls
      → Reached c n (nvm_ctrl_put now).0 (calls ++ (nvm_ctrl_put now).1)

-- What is to be called when the last reference to `c` is gone: nothing where it has no device, else one
-- `release_device` for its device, with the address and the size of its registers.
abbrev pub ReleasedOnce : Container → List Release → Type 0
ReleasedOnce c calls =
    (c.device ≡ none → calls ≡ [])
    × ((dev : ℕ)
        → c.device ≡ some dev
        → calls
          ≡ record { device = dev; mm_ptr = c.handle.mm_ptr; mm_size = c.handle.mm_size } ∷ [])

-- A controller with `n` users.
pub Users : Container → ℕ → Option Container → List Release → Type 0
Users c n (some now) calls =
    (0 < n)
    × (n < 2 ^ 32)
    × (now.count ≡ n)
    × (now.device ≡ c.device)
    × (now.handle ≡ c.handle)
    × (calls ≡ [])
Users c n none calls = (n ≡ 0) × ReleasedOnce c calls

pub nvm_ctrl_put-more :
    (now : Container) (n : ℕ)
    → now.count ≡ suc n
    → 0 < n
    → suc n < 2 ^ 32
    → nvm_ctrl_put now ≡ (some (record now { count = n }), [])
unfolding nvm_ctrl_put
nvm_ctrl_put-more now n count pos small =
    let less : sub_u32 now.count 1 ≡ n = omega arith in rw (less, ne→== n 0 (omega arith)) refl

pub nvm_ctrl_free_lem : (now : Container) → nvm_ctrl_free (some now) ≡ nvm_ctrl_put now
unfolding nvm_ctrl_free
nvm_ctrl_free_lem now = refl

pub nvm_ctrl_get-counts :
    (now : Container)
    → now.count + 1 < 2 ^ 32
    → nvm_ctrl_get 0 now ≡ (true, record now { count = now.count + 1 })
unfolding nvm_ctrl_get
nvm_ctrl_get-counts now small =
    let more : u32 (now.count + 1) ≡ now.count + 1 = omega arith in
    λ i. (true, record now { count = more i })

pub nvm_ctrl_get-refused :
    (now : Container) (lock : ℕ) → lock ≢ 0 → nvm_ctrl_get lock now ≡ (false, now)
unfolding nvm_ctrl_get
nvm_ctrl_get-refused now lock ne = rw (ne→== _ _ ne) refl

module _ (c : Container) where
  pub released-ReleasedOnce : ReleasedOnce c (released c.device c.handle)
  released-ReleasedOnce = (
    λ e. ap (λ (dev : Option ℕ). released dev c.handle) e,
    λ dev e. ap (λ (dev : Option ℕ). released dev c.handle) e,
  )

  pub put-last :
      (now : Container)
      → now.count ≡ 1
      → now.device ≡ c.device
      → now.handle ≡ c.handle
      → nvm_ctrl_put now ≡ (none, released c.device c.handle)
  unfolding nvm_ctrl_put
  put-last now one device handle =
      let last : sub_u32 now.count 1 ≡ 0 = omega arith in
      rw (eq→== _ _ last) (λ i. (none, released (device i) (handle i)))

  put-Users :
      (n : ℕ) (now : Container) (calls : List Release)
      → Users c (suc n) (some now) calls
      → Users c n (nvm_ctrl_put now).0 (calls ++ (nvm_ctrl_put now).1)
  unfolding Users
  put-Users zero now calls (pos, small, count, device, handle, none_yet) =
      rw (put-last now count device handle, none_yet) (refl, released-ReleasedOnce)
  put-Users (suc n) now calls (pos, small, count, device, handle, none_yet) =
      rw (nvm_ctrl_put-more now (suc n) count (omega arith) small, none_yet)
        (omega arith, omega arith, refl, device, handle, refl)

  -- However references to a controller are taken and returned, refused requests included: while there
  -- are users, fewer than 2^32, its count is their number, its device is its own and has not been
  -- released. When the last is gone the controller is gone, and its device, if it has one, has been
  -- released once, with the address and the size of its registers.
  pub Reached-Users :
      c.count ≡ 1
      → {n : ℕ} {now : Option Container} {calls : List Release} → Reached c n now calls
      → Users c n now calls
  unfolding Users
  Reached-Users one begin = (omega arith, omega arith, one, refl, refl, refl)
  Reached-Users one (take {n} {now} {calls} r small) =
      let (pos, lt, count, device, handle, none_yet) = Reached-Users one r in
      rw (nvm_ctrl_get-counts now (omega arith))
        (omega arith, small, ap (λ (t : ℕ). t + 1) count, device, handle, none_yet)
  Reached-Users one (refuse {n} {now} {calls} {lock} r ne) =
      rw (nvm_ctrl_get-refused now lock ne) (Reached-Users one r)
  Reached-Users one (return {n} {now} {calls} r) = put-Users n now calls (Reached-Users one r)
