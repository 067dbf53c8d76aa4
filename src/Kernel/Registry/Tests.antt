-- ===== src/Kernel/Registry/Tests.antt =====
-- `add_pci_dev` where the last of the kernel's functions fails.
use atc26_shaper_io.Prelude.{◌≢◌, refl, ◌∷◌, [], arith}
use atc26_shaper_io.Examples.Lists.{driver, failing, unused}
use atc26_shaper_io.Kernel.Registry.{add_pci_dev, ctrl_get, ctrl_chrdev_create}
use atc26_shaper_io.Kernel.Registry.Rollback.{Restored, add_pci_dev-Restored}

failed : (add_pci_dev driver 1 99 1000 64 17 failing).0 ≢ 0
unfolding add_pci_dev ctrl_get ctrl_chrdev_create
failed e = omega arith

add_pci_dev-Restored_example :
    Restored driver 1 (5 ∷ 6 ∷ []) (add_pci_dev driver 1 99 1000 64 17 failing).1
add_pci_dev-Restored_example =
    add_pci_dev-Restored driver 1 (5 ∷ 6 ∷ []) 17 7 99 unused 1000 64 failing refl failed
