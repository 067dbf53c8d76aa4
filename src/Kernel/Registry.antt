-- ===== src/Kernel/Registry.antt =====
-- module/ctrl.c, and the driver's functions of module/pci.c that add and remove controllers.
-- What the kernel's own functions return is an argument: `kmalloc` an address or none, the others an
-- `int` as a 32-bit word, 0 for success and negative, from 2^31 on, for errors.
pub mod Rollback
pub mod Removal
pub mod Tests
use atc26_shaper_io.Prelude.{
  ℕ, ◌+◌, ◌-◌, ◌%◌, ◌^◌, Bool, Option, none, some, ◌==◌, leb, not, if◌then◌else◌, ◌>>=◌,
}
use atc26_shaper_io.Prelude.Words.{u32, sub_u32}
use atc26_shaper_io.Kernel.{Nodes, put, null, list_node_init, list_insert, list_remove, find}

-- The driver's variables, the fields of all `struct ctrl`s by address, and what the kernel holds for the
-- driver: claimed regions, enabled devices and bus masters by device, registered character devices by
-- controller. `curr_ctrls` is an `int`, as a 32-bit word.
pub record Driver : Type 0 where
  pub nodes : Nodes
  pub pdev : ℕ → ℕ
  pub number : ℕ → ℕ
  pub rdev : ℕ → ℕ
  pub cls : ℕ → ℕ
  pub chrdev : ℕ → ℕ
  pub allocated : ℕ → ℕ
  pub cdev : ℕ → ℕ
  pub region : ℕ → ℕ
  pub enabled : ℕ → ℕ
  pub master : ℕ → ℕ
  pub curr_ctrls : ℕ

pub data ErrPtr : Type 0 where
  err_ptr : ℕ → ErrPtr
  ptr : ℕ → ErrPtr

-- `-ENOMEM`
abbrev pub enomem : ℕ
enomem = 2 ^ 32 - 12

pub ctrl_get : Driver → ℕ → ℕ → ℕ → ℕ → Option ℕ → ErrPtr × Driver
ctrl_get d list cls pdev number none = (err_ptr enomem, d)
ctrl_get d list cls pdev number (some ctrl) = (
  ptr ctrl,
  record d {
    nodes = list_insert (list_node_init d.nodes ctrl) list ctrl;
    allocated = put d.allocated ctrl 1;
    pdev = put d.pdev ctrl pdev;
    number = put d.number ctrl number;
    rdev = put d.rdev ctrl 0;
    cls = put d.cls ctrl cls;
    chrdev = put d.chrdev ctrl null;
  },
)

pub ctrl_chrdev_remove : Driver → ℕ → Driver
ctrl_chrdev_remove d ctrl =
    if d.chrdev ctrl == null
    then d
    else record d { cdev = put d.cdev ctrl 0; chrdev = put d.chrdev ctrl null }

pub ctrl_put : Driver → ℕ → Driver
ctrl_put d ctrl =
    let removed = ctrl_chrdev_remove (record d { nodes = list_remove d.nodes ctrl }) ctrl in
    if ctrl == null then d else record removed { allocated = put removed.allocated ctrl 0 }

pub ctrl_find_by_pci_dev : ℕ → Driver → ℕ → ℕ → Option ℕ
ctrl_find_by_pci_dev fuel d list pdev = find fuel d.nodes (λ ctrl. d.pdev ctrl == pdev) list

-- The last part of `ctrl_chrdev_create`, with what `device_create` returns.
abbrev pub chrdev_created : Driver → ℕ → ErrPtr → ℕ × Driver
chrdev_created d ctrl (err_ptr e) = (e, record d { cdev = put d.cdev ctrl 0 })
chrdev_created d ctrl (ptr device) = (0, record d { chrdev = put d.chrdev ctrl device })

-- `first` is a device number whose minor part has room for all controllers.
pub ctrl_chrdev_create : Driver → ℕ → ℕ → ℕ → ErrPtr → ℕ × Driver
ctrl_chrdev_create d ctrl first cdev_add device_create =
    let numbered = record d { rdev = put d.rdev ctrl (first + d.number ctrl) } in
    let added = record numbered { cdev = put d.cdev ctrl 1 } in
    let run =
      if cdev_add == 0 then chrdev_created added ctrl device_create else (cdev_add, numbered) in
    if d.chrdev ctrl == null then run else (0, d)

-- What the kernel's functions return to one call of `add_pci_dev`.
pub record Returns : Type 0 where
  pub kmalloc : Option ℕ
  pub request_region : ℕ
  pub enable_device : ℕ
  pub cdev_add : ℕ
  pub device_create : ErrPtr

-- `a >= b` on `int`s
abbrev pub ge_int : ℕ → ℕ → Bool
ge_int a b = leb (u32 (b + 2 ^ 31)) (u32 (a + 2 ^ 31))

-- After `ctrl_chrdev_create`.
abbrev pub dev_added : ℕ → ℕ → ℕ × Driver → ℕ × Driver
dev_added dev ctrl (err, d) =
    let undone = record d { enabled = put d.enabled dev 0; region = put d.region dev 0 } in
    let added = record d { master = put d.master dev 1; curr_ctrls = u32 (d.curr_ctrls + 1) } in
    if err == 0 then (0, added) else (err, ctrl_put undone ctrl)

-- After `ctrl_get`.
abbrev pub dev_claimed : ℕ → ℕ → Returns → ErrPtr × Driver → ℕ × Driver
dev_claimed dev first k (err_ptr e, d) = (e, d)
dev_claimed dev first k (ptr ctrl, d) =
    let held = record d { region = put d.region dev 1 } in
    let enabled = record held { enabled = put d.enabled dev 1 } in
    let created =
      dev_added dev ctrl (ctrl_chrdev_create enabled ctrl first k.cdev_add k.device_create) in
    let released = record held { region = put held.region dev 0 } in
    let enable =
      if ge_int k.enable_device 0 then created else (k.enable_device, ctrl_put released ctrl) in
    if k.request_region == 0 then enable else (k.request_region, ctrl_put d ctrl)

pub add_pci_dev : Driver → ℕ → ℕ → ℕ → ℕ → ℕ → Returns → ℕ × Driver
add_pci_dev d ctrl_list dev_class dev_first max_num_ctrls dev k =
    let got = ctrl_get d ctrl_list dev_class dev d.curr_ctrls k.kmalloc in
    if ge_int d.curr_ctrls max_num_ctrls then (0, d) else dev_claimed dev dev_first k got

pub remove_pci_dev : ℕ → Driver → ℕ → ℕ → Option Driver
remove_pci_dev fuel d ctrl_list dev =
    let run = (do
      let fewer = record d { curr_ctrls = sub_u32 d.curr_ctrls 1 }
      ctrl ← ctrl_find_by_pci_dev fuel fewer ctrl_list dev
      let dropped = ctrl_put fewer ctrl
      some (record dropped {
        region = put dropped.region dev 0;
        master = put dropped.master dev 0;
        enabled = put dropped.enabled dev 0;
      })) in
    if dev == null then some d else run
