-- ===== src/Kernel/Registry/Removal.antt =====
-- `remove_pci_dev`, and the number that the next controller gets.
use atc26_shaper_io.Prelude.{ℕ, ◌+◌, ◌≡◌, ◌≢◌, ◌==◌, List, ◌∷◌, ◌++◌, length}
use atc26_shaper_io.Prelude.Words.{sub_u32}
use atc26_shaper_io.Kernel.{null}
use atc26_shaper_io.Kernel.Links.{IsList}
use atc26_shaper_io.Kernel.Find.{Fails}
use atc26_shaper_io.Kernel.Registry.{Driver}

-- What `ctrl_put` leaves of a controller.
pub record Dropped (d : Driver) (l : ℕ) (xs : List ℕ) (ctrl : ℕ) (d' : Driver) : Type 0 where
  pub list : IsList d'.nodes l xs
  pub freed : d'.allocated ctrl ≡ 0
  pub no_device : d'.chrdev ctrl ≡ null
  pub number : d'.number ≡ d.number
  pub curr_ctrls : d'.curr_ctrls ≡ d.curr_ctrls

module _ (d : Driver) (l dev : ℕ) (xs : List ℕ) (ctrl : ℕ) (ys : List ℕ)
    (is : IsList d.nodes l (xs ++ (ctrl ∷ ys))) (real : dev ≢ null) (mine : d.pdev ctrl ≡ dev)
    (fails : Fails (λ c. d.pdev c == dev) xs) where
  abbrev fuel : ℕ
  fuel = length (xs ++ (ctrl ∷ ys)) + 1

  abbrev fewer : Driver
  fewer = record d { curr_ctrls = sub_u32 d.curr_ctrls 1 }

  -- What is left when a device's controller has been removed.
  pub record Removed (d' : Driver) : Type 0 where
    pub list : IsList d'.nodes l (xs ++ ys)
    pub freed : d'.allocated ctrl ≡ 0
    pub no_device : d'.chrdev ctrl ≡ null
    pub released : d'.region dev ≡ 0
    pub disabled : d'.enabled dev ≡ 0
    pub number : d'.number ≡ d.number
    pub one_less : d'.curr_ctrls ≡ sub_u32 d.curr_ctrls 1
