-- ===== src/Rpc/Binding/Handles/Tests.antt =====
-- A server's list with two handles.
use atc26_shaper_io.Prelude.{ℕ, ◌≡◌, ◌≢◌, ◌++◌, refl, Bool, true, false, none, some, List, [], ◌∷◌}
use atc26_shaper_io.HostQueue.{einval}
use atc26_shaper_io.Controller.{enomem}
use atc26_shaper_io.Rpc.{RpcHandle, Reference, unbound, handle_released}
use atc26_shaper_io.Rpc.Binding.{nvm_rpc_handle_insert, nvm_rpc_handle_remove}
use atc26_shaper_io.Rpc.Binding.Handles.{
  has_key, distinct, nvm_rpc_handle_insert_lem, nvm_rpc_handle_remove_lem,
}

abbrev two : Reference
two = record {
  handles = record { key = 1; value = 10 } ∷ record { key = 2; value = 20 } ∷ [];
  bound = unbound;
}

two-distinct : distinct two.handles ≡ true
unfolding distinct has_key
two-distinct = refl

abbrev three : Reference
three = record two { handles = two.handles ++ (record { key = 3; value = 30 } ∷ []) }

nvm_rpc_handle_insert_lem_example :
    ((memory : Bool) (lock : ℕ) → nvm_rpc_handle_insert false memory lock two 3 30 ≡ (einval, two))
    × ((lock : ℕ) → nvm_rpc_handle_insert true false lock two 3 30 ≡ (enomem, two))
    × ((lock : ℕ) → lock ≢ 0 → nvm_rpc_handle_insert true true lock two 3 30 ≡ (lock, two))
    × (has_key two.handles 3 ≡ true → nvm_rpc_handle_insert true true 0 two 3 30 ≡ (einval, two))
    × (has_key two.handles 3 ≡ false
        → (nvm_rpc_handle_insert true true 0 two 3 30 ≡ (0, three))
          × (distinct three.handles ≡ true)
          × (nvm_rpc_handle_remove three 3 ≡ some (two, handle_released 3 30 ∷ [])))
nvm_rpc_handle_insert_lem_example = nvm_rpc_handle_insert_lem two two-distinct 3 30

nvm_rpc_handle_remove_lem_example :
    (has_key two.handles 1 ≡ false → nvm_rpc_handle_remove two 1 ≡ none)
    × (has_key two.handles 1 ≡ true
        → (rest : List RpcHandle) × (value' : ℕ) × (nvm_rpc_handle_remove two 1
            ≡ some (record two { handles = rest }, handle_released 1 value' ∷ []))
          × (distinct rest ≡ true)
          × (has_key rest 1 ≡ false)
          × ((k : ℕ) → k ≢ 1 → has_key rest k ≡ has_key two.handles k))
nvm_rpc_handle_remove_lem_example = nvm_rpc_handle_remove_lem two two-distinct 1
