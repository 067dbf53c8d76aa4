-- ===== src/Kernel.antt =====
-- module/list.c, module/list.h and `map_find` of module/map.c: the kernel module's doubly linked lists,
-- on a store of nodes. An address stands for a node, 0 for NULL; a list has the address of its head.
-- Each function runs under the list's lock, from start to end.
pub mod Links
pub mod Insert
pub mod Remove
pub mod Find
pub mod Registry
use atc26_shaper_io.Prelude.{
  ℕ, zero, suc, ◌+◌, ◌-◌, ◌^◌, Bool, true, false, not, ◌&&◌, ◌||◌, Option, none, some, ◌==◌,
  bit_and, if◌then◌else◌,
}
use atc26_shaper_io.Prelude.Words.{not_u64}

-- The fields of all nodes.
pub record Nodes : Type 0 where
  pub list : ℕ → ℕ
  pub next : ℕ → ℕ
  pub prev : ℕ → ℕ

-- `a->field = v`
abbrev pub put : (ℕ → ℕ) → ℕ → ℕ → ℕ → ℕ
put field a v x = if x == a then v else field x

abbrev pub null : ℕ
null = 0

pub list_node_init : Nodes → ℕ → Nodes
list_node_init s element = record {
  list = put s.list element null;
  next = put s.next element null;
  prev = put s.prev element null;
}

pub list_init : Nodes → ℕ → Nodes
list_init s list = record {
  list = put s.list list list;
  prev = put s.prev list list;
  next = put s.next list list;
}

pub list_next : Nodes → ℕ → ℕ
list_next s current = if s.next current == s.list current then null else s.next current

pub list_insert : Nodes → ℕ → ℕ → Nodes
list_insert s list element =
    let last = s.prev list in
    let next = put s.next last element in
    record {
      list = put s.list element list;
      next = put next element list;
      prev = put (put s.prev element last) list element;
    }

abbrev pub unlinked : Nodes → ℕ → Nodes
unlinked s element =
    let next = put s.next (s.prev element) (s.next element) in
    let prev = put s.prev (next element) (s.prev element) in
    record {
      list = put s.list element null;
      next = put next element null;
      prev = put prev element null;
    }

-- `element->next` is read again for the second assignment, as the source does.
pub list_remove : Nodes → ℕ → Nodes
list_remove s element =
    if not (element == null) && (not (s.list element == null) && not (element == s.list element))
    then unlinked s element
    else s

-- The loop of `ctrl_find_by_pci_dev`, `ctrl_find_by_inode` and `map_find`, from `element` on, with the
-- test that each of them has. A node's address stands for the structure that holds it (`container_of`).
pub find_from : ℕ → Nodes → (ℕ → Bool) → ℕ → Option ℕ
find_from zero s test element = none
find_from (suc fuel) s test element =
    let rest = find_from fuel s test (list_next s element) in
    let here = if test element then some element else rest in
    if element == null then some null else here

-- `GPU_PAGE_MASK`, on 64 bits
abbrev pub gpu_page_mask : ℕ
gpu_page_mask = not_u64 (2 ^ 16 - 1)

pub find : ℕ → Nodes → (ℕ → Bool) → ℕ → Option ℕ
find fuel s test list = find_from fuel s test (list_next s list)

-- `map_find`: `owner` and `vaddr` are the fields of all `struct map`s, `page_mask` is the kernel's
-- `PAGE_MASK`.
pub map_find : ℕ → Nodes → (ℕ → ℕ) → (ℕ → ℕ) → ℕ → ℕ → ℕ → ℕ → Option ℕ
map_find fuel s owner vaddr page_mask current list addr =
    let starts = λ (map : ℕ).
      (vaddr map == bit_and addr page_mask) || (vaddr map == bit_and addr gpu_page_mask) in
    find fuel s (λ (map : ℕ). (owner map == current) && starts map) list
