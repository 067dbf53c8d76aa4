-- ===== src/PageCache/WriteBack.antt =====
-- `write_back`: a dirty page reaches all its controllers, and no other page's place.
use atc26_shaper_io.Prelude.{
  ℕ, zero, suc, ◌+◌, ◌*◌, ◌%◌, ◌≤◌, ◌<◌, ◌≡◌, ◌≢◌, ◌⊎◌, inl, inr, refl, ap, ◌∙◌, ◌==◌, eq→==, ne→==,
  if◌then◌else◌, arith,
}
use atc26_shaper_io.PageCache.{
  Cache, Device, DataDist, replicate, stripe, all_ctrls, get_backing_page, get_backing_ctrl,
  write_ctrls, write_back,
}
use atc26_shaper_io.PageCache.Memory.{IsDevice, Serving}
use native.Mathlib.Nat.{mod-lt, mul-le-mul_right}
use native.Mathlib.Decide.{ℕ_discrete, dec_lt}

-- Two places of `nb` blocks that do not overlap.
abbrev pub Disjoint : ℕ → ℕ → ℕ → Type 0
Disjoint nb lba lba' = (lba' + nb ≤ lba) ⊎ (lba + nb ≤ lba')

pub dec-Serving :
    (dist : DataDist) (n_ctrls a ctrl : ℕ)
    → Serving dist n_ctrls a ctrl ⊎ (¬ Serving dist n_ctrls a ctrl)
dec-Serving replicate n_ctrls a ctrl = elim (dec_lt ctrl n_ctrls) [
  | yes lt ↦ inl lt
  | no ge ↦ inr ge
]
dec-Serving stripe n_ctrls a ctrl = elim (ℕ_discrete ctrl (a % n_ctrls)) [
  | yes e ↦ inl e
  | no ne ↦ inr ne
]

pub places_apart : (nb i j : ℕ) → i ≢ j → Disjoint nb (i * nb) (j * nb)
places_apart nb i j ne = elim (dec_lt j i) [
  | yes lt ↦ inl (
      let e : (j + 1) * nb ≡ j * nb + nb = ground arith in
      rw e at (mul-le-mul_right {m = j + 1} {n = i} nb (omega arith)))
  | no ge ↦ inr (
      let e : (i + 1) * nb ≡ i * nb + nb = ground arith in
      rw e at (mul-le-mul_right {m = i + 1} {n = j} nb (omega arith)))
]

module _ {Disk Content : Type 0} (dev : Device Disk Content) (keeps : IsDevice dev) (lba nb : ℕ)
    (x : Content) (wide : 0 < nb) where
  write_ctrls-place :
      (n first : ℕ) (d : Disk) (ctrl lba' : ℕ)
      → Disjoint nb lba lba'
      → dev.read (write_ctrls dev n first d lba nb x) ctrl lba' nb ≡ dev.read d ctrl lba' nb
  unfolding write_ctrls
  write_ctrls-place zero first d ctrl lba' apart = refl
  write_ctrls-place (suc n) first d ctrl lba' apart =
      write_ctrls-place n (first + 1) (dev.write d first lba nb x) ctrl lba' apart
      ∙ keeps.read-other d first lba nb x ctrl lba' wide (inr apart)

  write_ctrls-before :
      (n first : ℕ) (d : Disk) (ctrl lba' : ℕ)
      → ctrl < first
      → dev.read (write_ctrls dev n first d lba nb x) ctrl lba' nb ≡ dev.read d ctrl lba' nb
  unfolding write_ctrls
  write_ctrls-before zero first d ctrl lba' lt = refl
  write_ctrls-before (suc n) first d ctrl lba' lt =
      write_ctrls-before n (first + 1) (dev.write d first lba nb x) ctrl lba' (omega arith)
      ∙ keeps.read-other d first lba nb x ctrl lba' wide (inl (λ e. absurd (omega arith)))

  write_ctrls-beyond :
      (n first : ℕ) (d : Disk) (ctrl lba' : ℕ)
      → first + n ≤ ctrl
      → dev.read (write_ctrls dev n first d lba nb x) ctrl lba' nb ≡ dev.read d ctrl lba' nb
  unfolding write_ctrls
  write_ctrls-beyond zero first d ctrl lba' ge = refl
  write_ctrls-beyond (suc n) first d ctrl lba' ge =
      write_ctrls-beyond n (first + 1) (dev.write d first lba nb x) ctrl lba' (omega arith)
      ∙ keeps.read-other d first lba nb x ctrl lba' wide (inl (λ e. absurd (omega arith)))

  write_ctrls-written :
      (n first : ℕ) (d : Disk) (ctrl : ℕ)
      → first ≤ ctrl
      → ctrl < first + n
      → dev.read (write_ctrls dev n first d lba nb x) ctrl lba nb ≡ x
  unfolding write_ctrls
  write_ctrls-written zero first d ctrl ge lt = absurd (omega arith)
  write_ctrls-written (suc n) first d ctrl ge lt = elim (ℕ_discrete ctrl first) [
    | yes e ↦
        write_ctrls-before n (first + 1) (dev.write d first lba nb x) ctrl lba (omega arith)
        ∙ ap (λ (t : ℕ). dev.read (dev.write d first lba nb x) t lba nb) e
        ∙ keeps.read-written d first lba nb x wide
    | no ne ↦
        write_ctrls-written n (first + 1) (dev.write d first lba nb x) ctrl (omega arith)
          (omega arith)
  ]

-- What writing a page back does to the devices.
pub record WrittenBack {Disk Content : Type 0} (dev : Device Disk Content) (d : Disk)
    (dist : DataDist) (n_ctrls a lba nb : ℕ) (x : Content) (d' : Disk) : Type 0 where
  pub here : (ctrl : ℕ) → (serves : Serving dist n_ctrls a ctrl) → dev.read d' ctrl lba nb ≡ x
  pub elsewhere :
      (ctrl lba' : ℕ)
      → (¬ Serving dist n_ctrls a ctrl) ⊎ Disjoint nb lba lba'
      → dev.read d' ctrl lba' nb ≡ dev.read d ctrl lba' nb

module _ {Disk Content : Type 0} (dev : Device Disk Content) (keeps : IsDevice dev)
    (c : Cache Disk Content) (no_override : c.evict_ctrl_override ≡ all_ctrls)
    (some : 0 < c.n_ctrls) (wide : 0 < c.n_blocks_per_page) (few : c.n_ctrls < all_ctrls)
    (r a page : ℕ) where
  abbrev lba : ℕ
  lba =
      get_backing_page (c.ranges_page_starts r) a c.n_ctrls (c.ranges_dists r) * c.n_blocks_per_page

  abbrev Done : DataDist → Disk → Type 0
  Done dist d' = WrittenBack dev c.disk dist c.n_ctrls a lba c.n_blocks_per_page (c.frame page) d'

  by_dist :
      (dist : DataDist)
      → Done dist (
          let ctrl = get_backing_ctrl a c.n_ctrls dist in
          if ctrl == all_ctrls
          then write_ctrls dev c.n_ctrls 0 c.disk lba c.n_blocks_per_page (c.frame page)
          else dev.write c.disk ctrl lba c.n_blocks_per_page (c.frame page))
  unfolding get_backing_ctrl
  by_dist replicate = record {
    here = λ ctrl serves.
        write_ctrls-written dev keeps lba c.n_blocks_per_page (c.frame page) wide c.n_ctrls 0 c.disk
          ctrl (omega arith) (omega arith);
    elsewhere = λ ctrl lba' other. elim other [
      | inl away ↦
          write_ctrls-beyond dev keeps lba c.n_blocks_per_page (c.frame page) wide c.n_ctrls 0
            c.disk ctrl lba' (omega arith)
      | inr apart ↦
          write_ctrls-place dev keeps lba c.n_blocks_per_page (c.frame page) wide c.n_ctrls 0 c.disk
            ctrl lba' apart
    ];
  }
  by_dist stripe =
      let ne : a % c.n_ctrls ≢ all_ctrls = λ e. absurd (omega (arith, mod-lt a some)) in
      rw (ne→== (a % c.n_ctrls) all_ctrls ne) (record {
        here = λ ctrl serves.
            ap
              (λ (t : ℕ).
                dev.read (dev.write c.disk (a % c.n_ctrls) lba c.n_blocks_per_page (c.frame page)) t
                  lba c.n_blocks_per_page)
              serves
            ∙ keeps.read-written c.disk (a % c.n_ctrls) lba c.n_blocks_per_page (c.frame page) wide;
        elsewhere = λ ctrl lba' other.
            keeps.read-other c.disk (a % c.n_ctrls) lba c.n_blocks_per_page (c.frame page) ctrl lba'
              wide other;
      })

  pub write_back-WrittenBack : Done (c.ranges_dists r) (write_back dev c r a page)
  unfolding write_back
  write_back-WrittenBack =
      rw (eq→== c.evict_ctrl_override all_ctrls no_override) (by_dist (c.ranges_dists r))
