-- ===== src/Examples/Commands.antt =====
-- Commands and PRP lists with four entries to a page.
use atc26_shaper_io.Prelude.{
  ℕ, zero, suc, ◌%◌, ◌^◌, ◌<◌, ◌≡◌, refl, some, List, [], ◌∷◌, get_or, take, arith,
}
use atc26_shaper_io.Types.{Dwords, PrpList}
use atc26_shaper_io.Command.{
  nvm_cmd_header, nvm_cmd_data_ptr, nvm_cmd_rw_blks, nvm_prp_list_chain, nvm_cmd_data, first_ioaddr,
}
use atc26_shaper_io.Command.Fields.{IoFields, IoFields-built}
use atc26_shaper_io.Command.Walk.{walk}
use atc26_shaper_io.Command.Chain.{nvm_prp_list_chain-walk}
use atc26_shaper_io.Command.Data.{data_pages, nvm_cmd_data-Placed}

abbrev blank : Dwords
blank = 0 ∷ 0 ∷ 0 ∷ 0 ∷ 0 ∷ 0 ∷ 0 ∷ 0 ∷ 0 ∷ 0 ∷ 0 ∷ 0 ∷ 0 ∷ 0 ∷ 0 ∷ 0 ∷ []

-- an empty PRP list at `ioaddr`
abbrev list_at : ℕ → PrpList
list_at ioaddr = record { entries = 0 ∷ 0 ∷ 0 ∷ 0 ∷ []; local = 1; page_size = 32; ioaddr = ioaddr }

-- seven pages
abbrev pages : List ℕ
pages = 100 ∷ 200 ∷ 300 ∷ 400 ∷ 500 ∷ 600 ∷ 700 ∷ []

pages_small : (i : ℕ) → get_or pages i 0 < 2 ^ 64
pages_small zero = omega arith
pages_small (suc zero) = omega arith
pages_small (suc (suc zero)) = omega arith
pages_small (suc (suc (suc zero))) = omega arith
pages_small (suc (suc (suc (suc zero)))) = omega arith
pages_small (suc (suc (suc (suc (suc zero))))) = omega arith
pages_small (suc (suc (suc (suc (suc (suc zero)))))) = omega arith
pages_small (suc (suc (suc (suc (suc (suc (suc i))))))) = omega arith

IoFields-built_example :
    IoFields
      (nvm_cmd_rw_blks (nvm_cmd_data_ptr (nvm_cmd_header blank 5 2 1) 100 200) 4096 8)
      5
      (2 % 2 ^ 7)
      1
      100
      200
      4096
      8
IoFields-built_example =
    IoFields-built blank 5 2 1 100 200 4096 8 refl (omega arith) (omega arith) (omega arith)
      (omega arith) (omega arith) (omega arith)

nvm_prp_list_chain-walk_example :
    (lists' : List PrpList) × (nvm_prp_list_chain (list_at 8000 ∷ list_at 9000 ∷ []) 7 pages
      ≡ (7, lists'))
    × (walk 4 lists' 7 ≡ some (take 7 pages))
    × (first_ioaddr lists' ≡ 8000)
nvm_prp_list_chain-walk_example =
    nvm_prp_list_chain-walk 4 (omega arith) 7 pages (omega arith) (list_at 8000) (list_at 9000 ∷ [])
      (refl, refl, (refl, refl, tt)) (omega arith) (omega arith)

nvm_cmd_data-Placed_example :
    (cmd' : Dwords) × (lists' : List PrpList) × (nvm_cmd_data blank
        (list_at 8000 ∷ list_at 9000 ∷ [])
        7
        pages
      ≡ (7, cmd', lists'))
    × (data_pages 4 cmd' lists' 7 ≡ some (take 7 pages))
nvm_cmd_data-Placed_example =
    nvm_cmd_data-Placed 4 (omega arith) blank refl pages pages_small 7 (list_at 8000)
      (list_at 9000 ∷ []) (omega arith) (omega arith) (omega arith) (refl, refl, (refl, refl, tt))
      (omega arith)
