-- ===== src/Examples/Lists.antt =====
-- The kernel module's lists, and the driver with two controllers.
use atc26_shaper_io.Prelude.{◌+◌, ◌≡◌, refl, ◌==◌, leb, some, [], ◌∷◌, ◌++◌, if◌then◌else◌, arith}
use atc26_shaper_io.Kernel.{Nodes, null, list_init, list_insert, list_remove}
use atc26_shaper_io.Kernel.Links.{IsList}
use atc26_shaper_io.Kernel.Insert.{list_init-IsList, list_insert-IsList}
use atc26_shaper_io.Kernel.Remove.{list_remove-IsList}
use atc26_shaper_io.Kernel.Registry.{Driver, Returns, err_ptr, enomem}
use atc26_shaper_io.Kernel.Registry.Rollback.{Unused}

abbrev nobody : Nodes
nobody = record { list = λ a. 0; next = λ a. 0; prev = λ a. 0 }

abbrev empty : Nodes
empty = list_init nobody 1

empty-IsList : IsList empty 1 []
empty-IsList = list_init-IsList nobody 1 (λ e. omega arith)

abbrev one_node : Nodes
one_node = list_insert empty 1 5

one-IsList : IsList one_node 1 (5 ∷ [])
one-IsList = list_insert-IsList empty 1 5 [] (λ e. omega arith) (λ e. omega arith, tt) empty-IsList

abbrev two_nodes : Nodes
two_nodes = list_insert one_node 1 6

two-IsList : IsList two_nodes 1 (5 ∷ 6 ∷ [])
two-IsList =
    list_insert-IsList one_node 1 6 (5 ∷ []) (λ e. omega arith)
      (λ e. omega arith, (λ e. omega arith, tt)) one-IsList

list_remove-IsList_example :
    IsList (list_remove two_nodes 5) 1 ([] ++ (6 ∷ []))
    × ((list_remove two_nodes 5).list 5 ≡ null)
    × (list_remove (list_remove two_nodes 5) 5 ≡ list_remove two_nodes 5)
list_remove-IsList_example = list_remove-IsList two_nodes 1 5 [] (6 ∷ []) two-IsList

-- controllers 5 and 6 of devices 15 and 16, with numbers 0 and 1
abbrev pub driver : Driver
driver = record {
  nodes = two_nodes;
  pdev = λ a. a + 10;
  number = λ a. if a == 6 then 1 else 0;
  rdev = λ a. 0;
  cls = λ a. 0;
  chrdev = λ a. 0;
  allocated = λ a. if leb a 6 then 1 else 0;
  cdev = λ a. 0;
  region = λ a. if leb a 16 then 1 else 0;
  enabled = λ a. if leb a 16 then 1 else 0;
  master = λ a. 1;
  curr_ctrls = 2;
}

-- `device_create` fails
abbrev pub failing : Returns
failing = record {
  kmalloc = some 7;
  request_region = 0;
  enable_device = 0;
  cdev_add = 0;
  device_create = err_ptr enomem;
}

pub unused : Unused driver 1 (5 ∷ 6 ∷ []) 17 7
unused = record {
  list = two-IsList;
  real = λ e. omega arith;
  away = (λ e. omega arith, (λ e. omega arith, (λ e. omega arith, tt)));
  region = refl;
  enabled = refl;
  allocated = refl;
  cdev = refl;
}
