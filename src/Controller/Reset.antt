-- ===== src/Controller/Reset.antt =====
-- `nvm_raw_ctrl_reset`: it ends, and it enables a controller that answers in time.
use atc26_shaper_io.Prelude.{
  iterate, ℕ, zero, suc, ◌+◌, ◌-◌, ◌*◌, ◌/◌, ◌^◌, ◌≤◌, ◌<◌, ◌≡◌, ◌∙◌, refl, ap, Bool, true, false,
  Option, some, bit_or, arith,
}
use atc26_shaper_io.Prelude.Bits.{or-disjoint}
use atc26_shaper_io.Prelude.Masks.{and-field_mask}
use atc26_shaper_io.Prelude.Powers.{pow-pos, pow-add, pow_mono}
use atc26_shaper_io.Prelude.Words.{u32, u64, sub_u64}
use atc26_shaper_io.Types.{NvmCtrl}
use atc26_shaper_io.Util.{rb, wb}
use atc26_shaper_io.Util.Fields.{rb_lem, wb_lem}
use atc26_shaper_io.HostQueue.{nvm_delay_remain}
use atc26_shaper_io.HostQueue.Delay.{delay_le, delay_ge}
use atc26_shaper_io.Controller.{
  Registers, csts_rdy, cc_iocqes, cc_iosqes, cc_mps, cc_css, cc_en, aqa_acqs, aqa_asqs,
  encode_page_size, encode_entry_size, await_rdy, disabled, configured, after_wait,
  nvm_raw_ctrl_reset,
}
use atc26_shaper_io.Controller.Log2.{nvm_b2log-between}
use atc26_shaper_io.Controller.Wait.{wait_ends, wait_sees}
use native.Mathlib.Nat.{mod-le, pow-suc}

-- The registers of a controller that is enabled for pages of `2 ^ (12 + e)` bytes, entries of 16 and 64
-- bytes, and admin queues of a page each at the given addresses.
pub record Configured (regs : Registers) (e acq_addr asq_addr : ℕ) : Type 0 where
  pub enabled : rb regs.cc 0 0 ≡ 1
  pub nvm_set : rb regs.cc 3 1 ≡ 0
  pub page_size : rb regs.cc 10 7 ≡ e
  pub sq_entry : 2 ^ rb regs.cc 19 16 ≡ 64
  pub cq_entry : 2 ^ rb regs.cc 23 20 ≡ 16
  pub acq_size : 16 * (rb regs.aqa 27 16 + 1) ≡ 2 ^ (12 + e)
  pub asq_size : 64 * (rb regs.aqa 11 0 + 1) ≡ 2 ^ (12 + e)
  pub acq_base : regs.acq ≡ acq_addr
  pub asq_base : regs.asq ≡ asq_addr

cc_word :
    (m : ℕ)
    → m < 16
    → bit_or (bit_or (bit_or (bit_or (cc_iocqes 4) (cc_iosqes 6)) (cc_mps m)) (cc_css 0)) (cc_en 1)
      ≡ 4 * 2 ^ 20 + 6 * 2 ^ 16 + m * 2 ^ 7 + 1
unfolding cc_iocqes cc_iosqes cc_mps cc_css cc_en
cc_word m small =
    let a : wb 4 23 20 ≡ 4 * 2 ^ 20 = wb_lem 4 23 20 (omega arith) (omega arith) in
    let b : wb 6 19 16 ≡ 6 * 2 ^ 16 = wb_lem 6 19 16 (omega arith) (omega arith) in
    let c : wb m 10 7 ≡ m * 2 ^ 7 = wb_lem m 10 7 (omega arith) (omega arith) ∙ omega arith in
    let d : wb 0 3 1 ≡ 0 = wb_lem 0 3 1 (omega arith) (omega arith) in
    let f : wb 1 0 0 ≡ 1 = wb_lem 1 0 0 (omega arith) (omega arith) in
    let ab : bit_or (4 * 2 ^ 20) (6 * 2 ^ 16) ≡ 70 * 2 ^ 16 =
      or-disjoint 20 4 (6 * 2 ^ 16) (omega arith) in
    let abc : bit_or (70 * 2 ^ 16) (m * 2 ^ 7) ≡ (70 * 2 ^ 9 + m) * 2 ^ 7 =
      or-disjoint 16 70 (m * 2 ^ 7) (omega arith) ∙ omega arith in
    let abcd : bit_or ((70 * 2 ^ 9 + m) * 2 ^ 7) 0 ≡ (70 * 2 ^ 9 + m) * 2 ^ 7 =
      or-disjoint 7 (70 * 2 ^ 9 + m) 0 (omega arith) ∙ omega arith in
    let all : bit_or ((70 * 2 ^ 9 + m) * 2 ^ 7) 1 ≡ (70 * 2 ^ 9 + m) * 2 ^ 7 + 1 =
      or-disjoint 7 (70 * 2 ^ 9 + m) 1 (omega arith) in
    rw (a, b, c, d, f, ab, abc, abcd, all) (omega arith)

aqa_word : (a s : ℕ) → a < 2 ^ 12 → s < 2 ^ 12 → bit_or (aqa_acqs a) (aqa_asqs s) ≡ a * 2 ^ 16 + s
unfolding aqa_acqs aqa_asqs
aqa_word a s h k =
    let high : wb a 27 16 ≡ a * 2 ^ 16 = wb_lem a 27 16 (omega arith) (omega arith) ∙ omega arith in
    let low : wb s 11 0 ≡ s = wb_lem s 11 0 (omega arith) (omega arith) ∙ omega arith in
    rw (high, low) (or-disjoint 16 a s (omega arith))

module _ (ctrl : NvmCtrl) (e acq_addr asq_addr : ℕ) (size : ctrl.page_size ≡ 2 ^ (12 + e))
    (small : e ≤ 4) where
  mps : encode_page_size ctrl.page_size ≡ e
  unfolding encode_page_size
  mps =
      let pages : 2 ^ (12 + e) / 2 ^ 12 ≡ 2 ^ e = omega (arith, pow-add 12 e) in
      rw (size, pages)
        (nvm_b2log-between e (2 ^ e) (omega arith) (omega arith)
          (omega (arith, pow-suc 2 e, pow-pos e)))

  -- What the two writes leave.
  pub configured-Configured :
      (regs : Registers) → Configured (configured ctrl acq_addr asq_addr regs) e acq_addr asq_addr
  unfolding configured encode_entry_size
  configured-Configured regs =
      let p = 2 ^ e in
      let whole : ctrl.page_size ≡ 4096 * p = size ∙ pow-add 12 e in
      let bound : p ≤ 16 = pow_mono e 4 small in
      let cqes : encode_entry_size 16 ≡ 4 =
        nvm_b2log-between 4 16 (omega arith) (omega arith) (omega arith) in
      let sqes : encode_entry_size 64 ≡ 6 =
        nvm_b2log-between 6 64 (omega arith) (omega arith) (omega arith) in
      let acqs : u32 (sub_u64 (ctrl.page_size / 16) 1) ≡ 256 * p - 1 = omega (arith, pow-pos e) in
      let asqs : u32 (sub_u64 (ctrl.page_size / 64) 1) ≡ 64 * p - 1 = omega (arith, pow-pos e) in
      let cc = cc_word e (omega arith) in
      let aqa = aqa_word (256 * p - 1) (64 * p - 1) (omega arith) (omega arith) in
      let w : ℕ = 4 * 2 ^ 20 + 6 * 2 ^ 16 + e * 2 ^ 7 + 1 in
      let v : ℕ = (256 * p - 1) * 2 ^ 16 + (64 * p - 1) in
      let sq : rb w 19 16 ≡ 6 = rb_lem w 19 16 (omega arith) ∙ omega arith in
      let cq : rb w 23 20 ≡ 4 = rb_lem w 23 20 (omega arith) ∙ omega arith in
      rw (mps, cqes, sqes, acqs, asqs, cc, aqa)
        (record {
          enabled = rb_lem w 0 0 (omega arith) ∙ omega arith;
          nvm_set = rb_lem w 3 1 (omega arith) ∙ omega arith;
          page_size = rb_lem w 10 7 (omega arith) ∙ omega arith;
          sq_entry = ap (λ (t : ℕ). 2 ^ t) sq;
          cq_entry = ap (λ (t : ℕ). 2 ^ t) cq;
          acq_size = omega (arith, rb_lem v 27 16 (omega arith), pow-add 12 e, pow-pos e);
          asq_size = omega (arith, rb_lem v 11 0 (omega arith), pow-add 12 e, pow-pos e);
          acq_base = refl;
          asq_base = refl;
        })

module _ (ctrl : NvmCtrl) (device : Registers → Registers) where
  abbrev nsecs : ℕ
  nsecs = u64 (ctrl.timeout * 1000000)

  await_ends :
      (want : ℕ) (regs : Registers)
      → (r : Bool × Registers) × (await_rdy (suc ctrl.timeout) device want nsecs regs ≡ some r)
  unfolding await_rdy
  await_ends want regs =
      let bound : nsecs ≤ suc ctrl.timeout * 1000000 =
        omega (arith, mod-le (ctrl.timeout * 1000000) (2 ^ 64)) in
      wait_ends ctrl.timeout device want (nvm_delay_remain nsecs) (device regs)
        (delay_le ctrl.timeout nsecs bound)

  after-ends :
      (w : Bool × Registers) (next : Registers → Option (ℕ × Registers))
      → ((regs : Registers) → (r : ℕ × Registers) × (next regs ≡ some r))
      → (r : ℕ × Registers) × (after_wait (some w) next ≡ some r)
  unfolding after_wait
  after-ends (false, regs) next go = (_, refl)
  after-ends (true, regs) next go = go regs

  -- A reset ends, whatever the controller does meanwhile: each of its two waits takes at most
  -- `timeout + 1` polls.
  pub nvm_raw_ctrl_reset-ends :
      (acq_addr asq_addr : ℕ) (regs : Registers)
      → (r : ℕ × Registers) × (nvm_raw_ctrl_reset
            (suc ctrl.timeout)
            device
            ctrl
            acq_addr
            asq_addr
            regs
          ≡ some r)
  unfolding nvm_raw_ctrl_reset
  nvm_raw_ctrl_reset-ends acq_addr asq_addr regs =
      let (off, e) = await_ends 0 (disabled regs) in
      rw e (
        after-ends off _ (λ regs.
          let (on, f) = await_ends 1 (configured ctrl acq_addr asq_addr regs) in
          rw f (after-ends on _ (λ regs. (_, refl)))))

-- A controller that leaves the host's registers alone and makes CSTS.RDY equal to CC.EN in `d` steps.
pub record Answers (device : Registers → Registers) (d : ℕ) : Type 0 where
  pub same_cc : (regs : Registers) → (device regs).cc ≡ regs.cc
  pub same_aqa : (regs : Registers) → (device regs).aqa ≡ regs.aqa
  pub same_acq : (regs : Registers) → (device regs).acq ≡ regs.acq
  pub same_asq : (regs : Registers) → (device regs).asq ≡ regs.asq
  pub follows : (regs : Registers) → csts_rdy (iterate d device regs) ≡ rb regs.cc 0 0

off-rdy : (regs : Registers) → rb (disabled regs).cc 0 0 ≡ 0
unfolding disabled
off-rdy regs = rb_lem _ 0 0 (omega arith) ∙ omega (arith, and-field_mask 1 31 regs.cc)

module _ (device : Registers → Registers) (d e acq_addr asq_addr : ℕ)
    (live : Answers device d) where
  kept-Configured :
      (n : ℕ) (regs : Registers)
      → Configured regs e acq_addr asq_addr
      → Configured (iterate n device regs) e acq_addr asq_addr
  kept-Configured zero regs is = is
  kept-Configured (suc n) regs is =
      let cc = live.same_cc regs in
      let aqa = live.same_aqa regs in
      kept-Configured n (device regs) (record {
        enabled = ap (λ (t : ℕ). rb t 0 0) cc ∙ is.enabled;
        nvm_set = ap (λ (t : ℕ). rb t 3 1) cc ∙ is.nvm_set;
        page_size = ap (λ (t : ℕ). rb t 10 7) cc ∙ is.page_size;
        sq_entry = ap (λ (t : ℕ). 2 ^ rb t 19 16) cc ∙ is.sq_entry;
        cq_entry = ap (λ (t : ℕ). 2 ^ rb t 23 20) cc ∙ is.cq_entry;
        acq_size = ap (λ (t : ℕ). 16 * (rb t 27 16 + 1)) aqa ∙ is.acq_size;
        asq_size = ap (λ (t : ℕ). 64 * (rb t 11 0 + 1)) aqa ∙ is.asq_size;
        acq_base = live.same_acq regs ∙ is.acq_base;
        asq_base = live.same_asq regs ∙ is.asq_base;
      })

await_sees :
    (ctrl : NvmCtrl) (device : Registers → Registers) (d want : ℕ) (regs : Registers)
    → d < ctrl.timeout
    → ctrl.timeout * 1000000 < 2 ^ 64
    → csts_rdy (iterate (suc d) device regs) ≡ want
    → (k : ℕ) × (await_rdy (suc ctrl.timeout) device want (u64 (ctrl.timeout * 1000000)) regs
        ≡ some (true, iterate k device regs))
      × (csts_rdy (iterate k device regs) ≡ want)
unfolding await_rdy
await_sees ctrl device d want regs lt fits e =
    let (k, f, g) =
      wait_sees d (suc ctrl.timeout) device want (nvm_delay_remain (u64 (ctrl.timeout * 1000000)))
        (device regs) (omega arith) (delay_ge d (u64 (ctrl.timeout * 1000000)) (omega arith)) e in
    (suc k, f, g)

-- A controller with pages of 4 to 64 KB that answers within its timeout is enabled by a reset: the reset
-- returns 0, CSTS.RDY is 1, and the registers show the page size, the entry sizes, and the sizes and
-- addresses of the admin queues.
pub nvm_raw_ctrl_reset-Configured :
    (device : Registers → Registers) (d : ℕ) (ctrl : NvmCtrl) (e acq_addr asq_addr : ℕ)
    (regs : Registers)
    → Answers device (suc d)
    → d < ctrl.timeout
    → ctrl.timeout * 1000000 < 2 ^ 64
    → ctrl.page_size ≡ 2 ^ (12 + e)
    → e ≤ 4
    → (on : Registers) × (nvm_raw_ctrl_reset (suc ctrl.timeout) device ctrl acq_addr asq_addr regs
        ≡ some (0, on))
      × Configured on e acq_addr asq_addr
      × (csts_rdy on ≡ 1)
unfolding nvm_raw_ctrl_reset after_wait
nvm_raw_ctrl_reset-Configured device d ctrl e acq_addr asq_addr regs live lt fits size small =
    let (j, f, down) =
      await_sees ctrl device d 0 (disabled regs) lt fits
        (live.follows (disabled regs) ∙ off-rdy regs) in
    let set = configured ctrl acq_addr asq_addr (iterate j device (disabled regs)) in
    let is = configured-Configured ctrl e acq_addr asq_addr size small _ in
    let (k, g, up) = await_sees ctrl device d 1 set lt fits (live.follows set ∙ is.enabled) in
    (
      iterate k device set,
      rw (f, g) refl,
      kept-Configured device (suc d) e acq_addr asq_addr live k set is,
      up,
    )
