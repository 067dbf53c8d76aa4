-- ===== src/Controller/Init.antt =====
-- `_nvm_ctrl_init`: when a handle is made, and what it says of the controller.
use atc26_shaper_io.Controller.Log2.{nvm_b2log-between}
use native.Mathlib.Nat.{pow-suc, mul-div_cancel_left}
use atc26_shaper_io.Prelude.Powers.{pow-pos, pow-add}
use atc26_shaper_io.Prelude.{
  ◌+◌, ◌%◌, ◌/◌, ◌⊎◌, inl, inr, ◌==◌, Bool-cases, ℕ, ◌*◌, ◌^◌, ◌≤◌, ◌<◌, ◌≡◌, ◌≢◌, refl, Bool, true,
  false, Option, none, some, ltb, lt→ltb, eq→==, ne→==, arith,
}
use atc26_shaper_io.Util.Fields.{rb_lem}
use atc26_shaper_io.Controller.{
  Registers, Container, DeviceOps, DeviceType, filled, inconsistent, encode_page_size, cap_mpsmin,
  cap_mpsmax, cap_dstrd, cap_to, cap_mqes, compatible, properties, create_handle, init_handle,
  nvm_ctrl_init, enomem, erange,
}
use atc26_shaper_io.HostQueue.{einval}

-- A handle with one reference, and what it says: the mapping of the registers and the host's page size as
-- given, the doorbell stride (bits 32 to 35), the timeout (bits 24 to 31, in units of 500 ms) and the
-- number of queue entries (bits 0 to 15, less one) from the capabilities.
pub record Initialised (c : Container) (dev : Option ℕ) (kind : DeviceType) (regs : Registers)
    (page_size mm_ptr mm_size : ℕ) : Type 0 where
  pub one : c.count ≡ 1
  pub device : c.device ≡ dev
  pub same_kind : c.kind ≡ kind
  pub page : c.handle.page_size ≡ page_size
  pub stride : c.handle.dstrd ≡ regs.cap / 2 ^ 32 % 2 ^ 4
  pub timeout : c.handle.timeout ≡ regs.cap / 2 ^ 24 % 2 ^ 8 * 500
  pub entries : c.handle.max_qs ≡ regs.cap % 2 ^ 16 + 1
  pub pointer : c.handle.mm_ptr ≡ mm_ptr
  pub size : c.handle.mm_size ≡ mm_size

module _ (regs : Registers) where
  cap_dstrd_lem : cap_dstrd regs ≡ regs.cap / 2 ^ 32 % 2 ^ 4
  unfolding cap_dstrd
  cap_dstrd_lem = rb_lem regs.cap 35 32 (omega arith)

  cap_to_lem : cap_to regs ≡ regs.cap / 2 ^ 24 % 2 ^ 8
  unfolding cap_to
  cap_to_lem = rb_lem regs.cap 31 24 (omega arith)

  cap_mqes_lem : cap_mqes regs ≡ regs.cap % 2 ^ 16
  unfolding cap_mqes
  cap_mqes_lem = omega (arith, rb_lem regs.cap 15 0 (omega arith))

  cap_mpsmin_lem : cap_mpsmin regs ≡ regs.cap / 2 ^ 48 % 2 ^ 4
  unfolding cap_mpsmin
  cap_mpsmin_lem = rb_lem regs.cap 51 48 (omega arith)

  cap_mpsmax_lem : cap_mpsmax regs ≡ regs.cap / 2 ^ 52 % 2 ^ 4
  unfolding cap_mpsmax
  cap_mpsmax_lem = rb_lem regs.cap 55 52 (omega arith)

  -- the host's page size is within the limits, bits 48 to 51 and 52 to 55 of the capabilities
  abbrev pub Within : ℕ → Type 0
  Within j = (regs.cap / 2 ^ 48 % 2 ^ 4 ≤ j) × (j ≤ regs.cap / 2 ^ 52 % 2 ^ 4)

  abbrev pub Beyond : ℕ → Type 0
  Beyond j = (j < regs.cap / 2 ^ 48 % 2 ^ 4) ⊎ (regs.cap / 2 ^ 52 % 2 ^ 4 < j)

  encode_page_size_lem : (j : ℕ) → j < 32 → encode_page_size (2 ^ (12 + j)) ≡ j
  unfolding encode_page_size
  encode_page_size_lem j lt =
      let e : 2 ^ (12 + j) / 2 ^ 12 ≡ 2 ^ j =
        rw (pow-add 12 j) (mul-div_cancel_left (2 ^ j) (omega arith)) in
      rw e (nvm_b2log-between j (2 ^ j) lt (omega arith) (omega (arith, pow-suc 2 j, pow-pos j)))

  compatible-Within : (j : ℕ) → j < 32 → Within j → compatible regs (2 ^ (12 + j)) ≡ true
  unfolding compatible
  compatible-Within j lt (lo, hi) =
      ground (arith, encode_page_size_lem j lt, cap_mpsmin_lem, cap_mpsmax_lem)

  compatible-Beyond : (j : ℕ) → j < 32 → Beyond j → compatible regs (2 ^ (12 + j)) ≡ false
  unfolding compatible
  compatible-Beyond j lt off =
      ground (arith, encode_page_size_lem j lt, cap_mpsmin_lem, cap_mpsmax_lem)

module _ (memory : Bool) (lock : ℕ) (dev : Option ℕ) (ops : Option DeviceOps)
    (kind : DeviceType) where
  -- There is memory, the lock can be made, and a device can be released.
  abbrev pub Possible : Type 0
  Possible =
      (memory ≡ true)
      × (lock ≡ 0)
      × ((dev ≡ none) ⊎ ((o : DeviceOps) × (ops ≡ some o) × (o.release_device ≡ true)))

  abbrev pub Impossible : Type 0
  Impossible =
      (memory ≡ false)
      ⊎ ((lock ≢ 0)
          ⊎ ((d : ℕ) × (dev ≡ some d)
              × ((ops ≡ none) ⊎ ((o : DeviceOps) × (ops ≡ some o) × (o.release_device ≡ false)))))

  consistent :
      (dev ≡ none) ⊎ ((o : DeviceOps) × (ops ≡ some o) × (o.release_device ≡ true))
      → inconsistent dev ops ≡ false
  unfolding inconsistent
  consistent (inl e) = rw e refl
  consistent (inr (o, e, f)) = rw e (known dev)
    where
      known : (d : Option ℕ) → inconsistent d (some o) ≡ false
      known none = refl
      known (some d) = rw f refl

  create_handle-made :
      Possible → create_handle memory lock dev ops kind ≡ some (filled dev ops kind)
  unfolding create_handle
  create_handle-made (room, free, good) = rw (consistent good, room, eq→== lock 0 free) refl

  create_handle-none : Impossible → create_handle memory lock dev ops kind ≡ none
  unfolding create_handle inconsistent
  create_handle-none (inl e) =
      rw e (elim (Bool-cases (inconsistent dev ops)) [ inl b ↦ rw b refl | inr b ↦ rw b refl ])
  create_handle-none (inr (inl ne)) =
      rw (ne→== lock 0 ne) (elim (Bool-cases (inconsistent dev ops)) [
        | inl b ↦ rw b refl
        | inr b ↦ rw b (elim (Bool-cases memory) [ inl m ↦ rw m refl | inr m ↦ rw m refl ])
      ])
  create_handle-none (inr (inr (d, e, inl f))) = rw (e, f) refl
  create_handle-none (inr (inr (d, e, inr (o, f, g)))) = rw (e, f, g) refl

  module _ (regs : Registers) (mm_ptr mm_size : ℕ) where
    abbrev init : ℕ → ℕ × Option Container
    init page_size = nvm_ctrl_init memory lock dev ops kind page_size regs mm_ptr mm_size

    -- A host with pages of `2 ^ (12 + j)` bytes, j below 32, gets a handle just where a container can be
    -- made, 8 KB of registers are mapped, and the controller's limits allow pages of that size; the
    -- handle says of the controller what its capabilities say. In all other cases there is none, with
    -- ENOMEM, EINVAL and ERANGE in that order; and ENOMEM where the host's page size is not known.
    pub nvm_ctrl_init-Initialised :
        (j : ℕ)
        → j < 32
        → (Impossible → init (2 ^ (12 + j)) ≡ (enomem, none))
          × (Possible → mm_size < 0x2000 → init (2 ^ (12 + j)) ≡ (einval, none))
          × (Possible → 0x2000 ≤ mm_size → init 0 ≡ (enomem, none))
          × (Possible → 0x2000 ≤ mm_size → Beyond regs j → init (2 ^ (12 + j)) ≡ (erange, none))
          × (Possible
              → 0x2000 ≤ mm_size
              → Within regs j
              → (c : Container) × (init (2 ^ (12 + j)) ≡ (0, some c))
                × Initialised c dev kind regs (2 ^ (12 + j)) mm_ptr mm_size)
    unfolding nvm_ctrl_init init_handle
    nvm_ctrl_init-Initialised j lt = (
      λ bad. rw (create_handle-none bad) refl,
      λ good less. rw (create_handle-made good, lt→ltb mm_size 0x2000 less) refl,
      λ good le. rw (create_handle-made good, big le) refl,
      λ good le off.
          rw (create_handle-made good, big le, nonzero, compatible-Beyond regs j lt off) refl,
      λ good le on. (
        record (filled dev ops kind) { handle = properties (2 ^ (12 + j)) regs mm_ptr mm_size },
        rw (create_handle-made good, big le, nonzero, compatible-Within regs j lt on) refl,
        record {
          one = refl;
          device = refl;
          same_kind = refl;
          page = refl;
          stride = omega (arith, cap_dstrd_lem regs);
          timeout = omega (arith, cap_to_lem regs);
          entries = omega (arith, cap_mqes_lem regs);
          pointer = refl;
          size = refl;
        },
      ),
    )
      where
        big : 0x2000 ≤ mm_size → ltb mm_size 0x2000 ≡ false
        big le = ground arith

        nonzero : (2 ^ (12 + j) == 0) ≡ false
        nonzero = ne→== _ _ (omega (arith, pow-pos (12 + j)))
