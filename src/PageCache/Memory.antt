-- ===== src/PageCache/Memory.antt =====
-- What the cache stands for: one content for each page of each range, wherever it is kept.
use atc26_shaper_io.Prelude.{
  ℕ, ◌+◌, ◌-◌, ◌*◌, ◌/◌, ◌%◌, ◌^◌, ◌≤◌, ◌<◌, ◌≡◌, ◌≢◌, ◌⊎◌, inl, inr, refl, sym, ap, ◌∙◌, eq→==,
  ne→==, bit_and, arith,
}
use atc26_shaper_io.Prelude.Bits.{or-disjoint, and-low_mask}
use atc26_shaper_io.Prelude.Powers.{pow-pos}
use atc26_shaper_io.PageCache.{
  Device, DataDist, replicate, stripe, put, put2, all_ctrls, get_backing_page, global_address,
}
use native.Mathlib.Nat.{mul-add-mod_self_right, mod-eq_of_lt, mul-add-div_right, div-eq_of_lt}
use native.Mathlib.Decide.{ℕ_discrete}

pub put_self : {A : Type 0} (f : ℕ → A) (a : ℕ) (v : A) → put f a v a ≡ v
put_self f a v = rw (eq→== a a refl) refl

pub put-ne : {A : Type 0} (f : ℕ → A) (a : ℕ) (v : A) (x : ℕ) → x ≢ a → put f a v x ≡ f x
put-ne f a v x ne = rw (ne→== x a ne) refl

pub put2_self : {A : Type 0} (f : ℕ → ℕ → A) (r a : ℕ) (v : A) → put2 f r a v r a ≡ v
put2_self f r a v = rw (eq→== r r refl, eq→== a a refl) refl

abbrev pub Apart2 : ℕ → ℕ → ℕ → ℕ → Type 0
Apart2 r a s x = (s ≢ r) ⊎ (x ≢ a)

pub put2-ne :
    {A : Type 0} (f : ℕ → ℕ → A) (r a : ℕ) (v : A) (s x : ℕ)
    → Apart2 r a s x
    → put2 f r a v s x ≡ f s x
put2-ne f r a v s x (inl ne) = rw (ne→== s r ne) refl
put2-ne f r a v s x (inr ne) = elim (ℕ_discrete s r) [
  | yes e ↦ rw (eq→== s r e, ne→== x a ne) refl
  | no other ↦ rw (ne→== s r other) refl
]

-- The same page, or another.
pub page_cases : (r a s x : ℕ) → ((s ≡ r) × (x ≡ a)) ⊎ Apart2 r a s x
page_cases r a s x = elim (ℕ_discrete s r) [
  | no ne ↦ inr (inl ne)
  | yes e ↦ elim (ℕ_discrete x a) [ yes f ↦ inl (e, f) | no ne ↦ inr (inr ne) ]
]

-- The devices keep what is written, per controller and per place.
pub record IsDevice {Disk Content : Type 0} (dev : Device Disk Content) : Type 0 where
  pub read-written :
      (d : Disk) (c lba n : ℕ) (x : Content) → 0 < n → dev.read (dev.write d c lba n x) c lba n ≡ x
  pub read-other :
      (d : Disk) (c lba n : ℕ) (x : Content) (c' lba' : ℕ)
      → 0 < n
      → (c' ≢ c) ⊎ ((lba' + n ≤ lba) ⊎ (lba + n ≤ lba'))
      → dev.read (dev.write d c lba n x) c' lba' n ≡ dev.read d c' lba' n

-- The fixed part of the setting: how many ranges there are, how many pages each has, and where they lie.
pub record Layout : Type 0 where
  pub n_pages : ℕ
  pub n_ctrls : ℕ
  pub bits : ℕ
  pub blocks : ℕ
  pub dists : ℕ → DataDist
  pub starts : ℕ → ℕ
  pub count : ℕ → ℕ

abbrev pub Serving : DataDist → ℕ → ℕ → ℕ → Type 0
Serving replicate n_ctrls a ctrl = ctrl < n_ctrls
Serving stripe n_ctrls a ctrl = ctrl ≡ a % n_ctrls

module _ (y : Layout) where
  -- a page of a range
  abbrev pub In : ℕ → ℕ → Type 0
  In r a = (r < 2 ^ y.bits) × (a < y.count r)

  abbrev pub place : ℕ → ℕ → ℕ
  place r a = get_backing_page (y.starts r) a y.n_ctrls (y.dists r)

  -- Controller `ctrl` keeps the page.
  abbrev pub Serves : ℕ → ℕ → ℕ → Type 0
  Serves r a ctrl = Serving (y.dists r) y.n_ctrls a ctrl

  -- Global addresses are 64-bit words, ranges do not overlap on any controller, and there are
  -- controllers, cache pages, and blocks in a page.
  pub record IsLayout : Type 0 where
    pub some_pages : 0 < y.n_pages
    pub some_ctrls : 0 < y.n_ctrls
    pub some_blocks : 0 < y.blocks
    pub few_ctrls : y.n_ctrls < all_ctrls
    pub words : (r a : ℕ) → In r a → a * 2 ^ y.bits < 2 ^ 64
    pub apart :
        (r a s x ctrl : ℕ)
        → In r a
        → In s x
        → Apart2 r a s x
        → Serves r a ctrl
        → Serves s x ctrl
        → place r a ≢ place s x

  pub global_address-lem :
      (r a : ℕ) → IsLayout → In r a → global_address y.bits r a ≡ a * 2 ^ y.bits + r
  unfolding global_address
  global_address-lem r a is (small, inside) =
      let fits : a * 2 ^ y.bits % 2 ^ 64 ≡ a * 2 ^ y.bits =
        omega (arith, is.words r a (small, inside)) in
      rw fits (or-disjoint y.bits a r small)

  abbrev pub gaddr : ℕ → ℕ → ℕ
  gaddr r a = a * 2 ^ y.bits + r

  -- A global address tells the page.
  pub gaddr-range : (r a : ℕ) → r < 2 ^ y.bits → bit_and (gaddr r a) (2 ^ y.bits - 1) ≡ r
  gaddr-range r a small =
      and-low_mask y.bits (gaddr r a) ∙ mul-add-mod_self_right a (2 ^ y.bits) r ∙ mod-eq_of_lt small

  pub gaddr-address : (r a : ℕ) → r < 2 ^ y.bits → gaddr r a / 2 ^ y.bits ≡ a
  gaddr-address r a small =
      mul-add-div_right (pow-pos y.bits) a r ∙ omega (arith, div-eq_of_lt small)

  pub gaddr-inj :
      (r a s x : ℕ) → r < 2 ^ y.bits → s < 2 ^ y.bits → gaddr r a ≡ gaddr s x → (r ≡ s) × (a ≡ x)
  gaddr-inj r a s x hr hs e = (
    sym (gaddr-range r a hr) ∙ ap (λ (t : ℕ). bit_and t (2 ^ y.bits - 1)) e ∙ gaddr-range s x hs,
    sym (gaddr-address r a hr) ∙ ap (λ (t : ℕ). t / 2 ^ y.bits) e ∙ gaddr-address s x hs,
  )
