-- ===== src/Kernel/Registry/Rollback.antt =====
-- `add_pci_dev` on its error paths: what it took for a controller it gives back.
use atc26_shaper_io.Prelude.{
  ℕ, ◌+◌, ◌≡◌, ◌≢◌, ◌∙◌, refl, sym, ap, some, eq→==, ne→==, Bool-cases, inl, inr, List, [], ◌∷◌,
  ◌++◌,
}
use native.Mathlib.Decide.{ℕ_discrete}
use atc26_shaper_io.Kernel.{Nodes, put, null, list_node_init, list_insert, list_remove}
use atc26_shaper_io.Kernel.Links.{
  put_self, put-ne, NotIn, Linked-frame, SameBut, Belong-put, IsList,
}
use atc26_shaper_io.Kernel.Insert.{list_insert-IsList}
use atc26_shaper_io.Kernel.Remove.{list_remove-IsList}
use atc26_shaper_io.Kernel.Registry.{
  Driver, ErrPtr, err_ptr, ptr, Returns, ge_int, ctrl_get, ctrl_chrdev_remove, ctrl_put,
  ctrl_chrdev_create, dev_added, dev_claimed, add_pci_dev,
}

append-nil : (xs : List ℕ) → xs ++ [] ≡ xs
append-nil [] = refl
append-nil (x ∷ xs) = ap (λ ys. x ∷ ys) (append-nil xs)

-- Raising a flag that was down, and lowering it again.
pub put-back : (f : ℕ → ℕ) (a v x : ℕ) → f a ≡ 0 → put (put f a v) a 0 x ≡ f x
put-back f a v x e = elim (ℕ_discrete x a) [
  | yes q ↦ rw q (put_self (put f a v) a 0 ∙ sym e)
  | no ne ↦ put-ne (put f a v) a 0 x ne ∙ put-ne f a v x ne
]

module _ (s : Nodes) (l a : ℕ) (xs : List ℕ) (real : a ≢ null) (away : NotIn a (l ∷ xs))
    (is : IsList s l xs) where
  IsList-node_init : IsList (list_node_init s a) l xs
  unfolding list_node_init
  IsList-node_init =
      let (other, axs) = away in
      record {
        real = is.real;
        distinct = is.distinct;
        own = put-ne s.list a null l (λ q. other (sym q)) ∙ is.own;
        belong = Belong-put s.list a null l xs axs is.belong;
        linked = Linked-frame same l other other l xs away away axs axs is.linked;
      }
    where
      same :
          SameBut s
            (record {
              list = put s.list a null;
              next = put s.next a null;
              prev = put s.prev a null;
            })
            a
            a
            a
            a
      same = record {
        nexts = λ x n _. put-ne s.next a null x n;
        prevs = λ x n _. put-ne s.prev a null x n;
      }

  -- A node that has just been put in, and is taken out.
  in_and_out : IsList (list_remove (list_insert (list_node_init s a) l a) a) l xs
  in_and_out =
      let inserted = list_insert-IsList (list_node_init s a) l a xs real away IsList-node_init in
      let (removed, _, _) =
        list_remove-IsList (list_insert (list_node_init s a) l a) l a xs [] inserted in
      rw (append-nil xs) at removed

-- All as it was: the list of controllers, their number, and what the kernel holds for the driver.
pub record Restored (d : Driver) (l : ℕ) (xs : List ℕ) (d' : Driver) : Type 0 where
  pub list : IsList d'.nodes l xs
  pub region : (x : ℕ) → d'.region x ≡ d.region x
  pub enabled : (x : ℕ) → d'.enabled x ≡ d.enabled x
  pub master : (x : ℕ) → d'.master x ≡ d.master x
  pub allocated : (x : ℕ) → d'.allocated x ≡ d.allocated x
  pub cdev : (x : ℕ) → d'.cdev x ≡ d.cdev x
  pub curr_ctrls : d'.curr_ctrls ≡ d.curr_ctrls

-- The device is not yet in use, and `kmalloc` hands out memory that is in no list and not in use.
pub record Unused (d : Driver) (l : ℕ) (xs : List ℕ) (dev a : ℕ) : Type 0 where
  pub list : IsList d.nodes l xs
  pub real : a ≢ null
  pub away : NotIn a (l ∷ xs)
  pub region : d.region dev ≡ 0
  pub enabled : d.enabled dev ≡ 0
  pub allocated : d.allocated a ≡ 0
  pub cdev : d.cdev a ≡ 0

module _ (d : Driver) (l : ℕ) (xs : List ℕ) (dev a cls : ℕ) (unused : Unused d l xs dev a) where
  -- the driver as `ctrl_get` leaves it
  abbrev got : Driver
  got = record d {
    nodes = list_insert (list_node_init d.nodes a) l a;
    allocated = put d.allocated a 1;
    pdev = put d.pdev a dev;
    number = put d.number a d.curr_ctrls;
    rdev = put d.rdev a 0;
    cls = put d.cls a cls;
    chrdev = put d.chrdev a null;
  }

  no_device : got.chrdev a ≡ null
  no_device = put_self d.chrdev a null

  -- `ctrl_put` on a controller that has no character device.
  ctrl_put-got :
      (rdev cdev region enabled : ℕ → ℕ)
      → ctrl_put (record got { rdev = rdev; cdev = cdev; region = region; enabled = enabled }) a
        ≡ record got {
          rdev = rdev;
          cdev = cdev;
          region = region;
          enabled = enabled;
          nodes = list_remove got.nodes a;
          allocated = put (put d.allocated a 1) a 0;
        }
  unfolding ctrl_put ctrl_chrdev_remove
  ctrl_put-got rdev cdev region enabled = rw (ne→== a null unused.real, no_device) refl

  Restored-put :
      (rdev cdev region enabled : ℕ → ℕ)
      → ((x : ℕ) → cdev x ≡ d.cdev x)
      → ((x : ℕ) → region x ≡ d.region x)
      → ((x : ℕ) → enabled x ≡ d.enabled x)
      → Restored d l xs
          (ctrl_put (record got { rdev = rdev; cdev = cdev; region = region; enabled = enabled }) a)
  Restored-put rdev cdev region enabled hc hr he =
      rw (ctrl_put-got rdev cdev region enabled) (record {
        list = in_and_out d.nodes l a xs unused.real unused.away unused.list;
        region = hr;
        enabled = he;
        master = λ x. refl;
        allocated = λ x. put-back d.allocated a 1 x unused.allocated;
        cdev = hc;
        curr_ctrls = refl;
      })

  back : (f : ℕ → ℕ) (x : ℕ) → f dev ≡ 0 → put (put f dev 1) dev 0 x ≡ f x
  back f x e = put-back f dev 1 x e

  abbrev Undone : ℕ × Driver → Type 0
  Undone (err, d') = err ≢ 0 → Restored d l xs d'

  abbrev running : Driver
  running = record got { region = put d.region dev 1; enabled = put d.enabled dev 1 }

  module _ (first : ℕ) where
    device-Undone :
        (device : ErrPtr) → Undone (dev_added dev a (ctrl_chrdev_create running a first 0 device))
    unfolding ctrl_chrdev_create
    device-Undone (err_ptr e) = rw no_device (elim (ℕ_discrete e 0) [
      | yes none_set ↦ rw (eq→== e 0 none_set) (λ ne. absurd (ne refl))
      | no some_set ↦ rw (ne→== e 0 some_set) (λ ne.
          Restored-put (put got.rdev a (first + got.number a)) (put (put d.cdev a 1) a 0)
            (put (put d.region dev 1) dev 0) (put (put d.enabled dev 1) dev 0)
            (λ x. put-back d.cdev a 1 x unused.cdev) (λ x. back d.region x unused.region)
            (λ x. back d.enabled x unused.enabled))
    ])
    device-Undone (ptr device) = rw no_device (λ ne. absurd (ne refl))

    cdev-Undone :
        (cdev_add : ℕ) (device : ErrPtr)
        → cdev_add ≢ 0
        → Undone (dev_added dev a (ctrl_chrdev_create running a first cdev_add device))
    unfolding ctrl_chrdev_create
    cdev-Undone cdev_add device fails =
        rw (no_device, ne→== cdev_add 0 fails)
          (rw (ne→== cdev_add 0 fails) λ ne.
            Restored-put (put got.rdev a (first + got.number a)) d.cdev
              (put (put d.region dev 1) dev 0) (put (put d.enabled dev 1) dev 0) (λ x. refl)
              (λ x. back d.region x unused.region) (λ x. back d.enabled x unused.enabled))

    claimed-Undone : (k : Returns) → Undone (dev_claimed dev first k (ptr a, got))
    claimed-Undone k = elim (ℕ_discrete k.request_region 0) [
      | no fails ↦ rw (ne→== k.request_region 0 fails) (λ ne.
          Restored-put got.rdev d.cdev d.region d.enabled (λ x. refl) (λ x. refl) (λ x. refl))
      | yes claimed ↦
          rw (eq→== k.request_region 0 claimed) (elim (Bool-cases (ge_int k.enable_device 0)) [
            | inr fails ↦ rw fails (λ ne.
                Restored-put got.rdev d.cdev (put (put d.region dev 1) dev 0) d.enabled (λ x. refl)
                  (λ x. back d.region x unused.region) (λ x. refl))
            | inl enabled ↦ rw enabled (elim (ℕ_discrete k.cdev_add 0) [
              | yes added ↦ rw added (device-Undone k.device_create)
              | no fails ↦ cdev-Undone k.cdev_add k.device_create fails
            ])
          ])
    ]

    add-Undone :
        (max_num_ctrls : ℕ) (k : Returns)
        → k.kmalloc ≡ some a
        → Undone (add_pci_dev d l cls first max_num_ctrls dev k)
    unfolding add_pci_dev ctrl_get
    add-Undone max_num_ctrls k e = elim (Bool-cases (ge_int d.curr_ctrls max_num_ctrls)) [
      | inl most ↦ rw most (λ ne. absurd (ne refl))
      | inr fewer ↦ rw (fewer, e) (claimed-Undone k)
    ]

    -- A controller that cannot be added leaves no trace: whichever of the kernel's functions fails after
    -- `kmalloc`, the list, the number of controllers and all that the kernel holds for the driver are as
    -- before.
    pub add_pci_dev-Restored :
        (max_num_ctrls : ℕ) (k : Returns)
        → k.kmalloc ≡ some a
        → (add_pci_dev d l cls first max_num_ctrls dev k).0 ≢ 0
        → Restored d l xs (add_pci_dev d l cls first max_num_ctrls dev k).1
    add_pci_dev-Restored max_num_ctrls k e failed = add-Undone max_num_ctrls k e failed
