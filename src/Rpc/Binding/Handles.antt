-- ===== src/Rpc/Binding/Handles.antt =====
-- The list of a server's handles: no two have the same key.
pub mod Tests
use atc26_shaper_io.Prelude.{
  ℕ, ◌≡◌, ◌≢◌, ◌∙◌, refl, sym, ap, Bool, true, false, not, ◌||◌, ◌==◌, List, [], ◌∷◌, ◌++◌, Option,
  none, some, if_either, if◌then◌else◌, Bool-cases, inl, inr, eq→==, ne→==, arith,
}
use atc26_shaper_io.HostQueue.{einval}
use atc26_shaper_io.Rpc.{RpcHandle, Reference, Call, handle_released}
use atc26_shaper_io.Rpc.Binding.{
  insert_loop, inserted, nvm_rpc_handle_insert, remove_loop, removed, nvm_rpc_handle_remove,
}
use atc26_shaper_io.Controller.{enomem}
use native.Mathlib.Decide.{ℕ_discrete}

-- whether a handle has the key
pub has_key : List RpcHandle → ℕ → Bool
has_key [] key = false
has_key (curr ∷ rest) key = (curr.key == key) || has_key rest key

-- no key twice
pub distinct : List RpcHandle → Bool
distinct [] = true
distinct (curr ∷ rest) = if has_key rest curr.key then false else distinct rest

module _ (handle : RpcHandle) where
  insert_loop-end :
      (handles : List RpcHandle)
      → has_key handles handle.key ≡ false
      → insert_loop handles handle ≡ some (handles ++ (handle ∷ []))
  unfolding insert_loop has_key
  insert_loop-end [] absent = refl
  insert_loop-end (curr ∷ rest) absent = elim (Bool-cases (curr.key == handle.key)) [
    | inl e ↦ absurd (let f = rw e at absent in cc)
    | inr e ↦ rw (e, insert_loop-end rest (rw e at absent)) refl
  ]

  insert_loop-refuses :
      (handles : List RpcHandle)
      → has_key handles handle.key ≡ true
      → insert_loop handles handle ≡ none
  unfolding insert_loop has_key
  insert_loop-refuses [] present = absurd (cc)
  insert_loop-refuses (curr ∷ rest) present = elim (Bool-cases (curr.key == handle.key)) [
    | inl e ↦ rw e refl
    | inr e ↦ rw (e, insert_loop-refuses rest (rw e at present)) refl
  ]

  remove_loop-end :
      (handles : List RpcHandle)
      → has_key handles handle.key ≡ false
      → remove_loop (handles ++ (handle ∷ [])) handle.key ≡ some (handle, handles)
  unfolding remove_loop has_key
  remove_loop-end [] absent = rw (eq→== handle.key handle.key refl) refl
  remove_loop-end (curr ∷ rest) absent = elim (Bool-cases (curr.key == handle.key)) [
    | inl e ↦ absurd (let f = rw e at absent in cc)
    | inr e ↦ rw (e, remove_loop-end rest (rw e at absent)) refl
  ]

  has_key-end :
      (handles : List RpcHandle) (key : ℕ)
      → has_key handles key ≡ false
      → handle.key ≢ key
      → has_key (handles ++ (handle ∷ [])) key ≡ false
  unfolding has_key
  has_key-end [] key absent ne = rw (ne→== handle.key key ne) refl
  has_key-end (curr ∷ rest) key absent ne = elim (Bool-cases (curr.key == key)) [
    | inl e ↦ absurd (let f = rw e at absent in cc)
    | inr e ↦ rw (e, has_key-end rest key (rw e at absent) ne) refl
  ]

  distinct-end :
      (handles : List RpcHandle)
      → distinct handles ≡ true
      → has_key handles handle.key ≡ false
      → distinct (handles ++ (handle ∷ [])) ≡ true
  unfolding distinct has_key
  distinct-end [] is absent = refl
  distinct-end (curr ∷ rest) is absent = elim (Bool-cases (has_key rest curr.key)) [
    | inl e ↦ absurd (let f = rw e at is in cc)
    | inr e ↦ elim (Bool-cases (curr.key == handle.key)) [
      | inl same ↦ absurd (let f = rw same at absent in cc)
      | inr other ↦
          rw
            (
              has_key-end rest curr.key e
                  (λ s. absurd (let f = eq→== curr.key handle.key (sym s) in cc)),
              distinct-end rest (rw e at is) (rw other at absent),
            )
            refl
    ]
  ]

-- What a removal leaves.
record Cut (handles : List RpcHandle) (key : ℕ) (found : RpcHandle) (rest : List RpcHandle)
    : Type 0 where
  loop : remove_loop handles key ≡ some (found, rest)
  is : found.key ≡ key
  gone : has_key rest key ≡ false
  others : (k : ℕ) → k ≢ key → has_key rest k ≡ has_key handles k
  still : distinct rest ≡ true

cut :
    (handles : List RpcHandle) (key : ℕ)
    → distinct handles ≡ true
    → has_key handles key ≡ true
    → (found : RpcHandle) × (rest : List RpcHandle) × Cut handles key found rest
unfolding remove_loop has_key distinct
cut [] key is present = absurd cc
cut (curr ∷ rest) key is present = elim (Bool-cases (has_key rest curr.key)) [
  | inl e ↦ absurd (let f = rw e at is in cc)
  | inr e ↦ elim (ℕ_discrete curr.key key) [
    | yes same ↦ (
      curr,
      rest,
      record {
        loop = rw (eq→== curr.key key same) refl;
        is = same;
        gone = rw same at e;
        others = λ k ne. rw (ne→== curr.key k (λ s. ne (sym s ∙ same))) refl;
        still = rw e at is;
      },
    )
    | no other ↦
        let (found, left, c) =
          cut rest key (rw e at is) (rw (ne→== curr.key key other) at present) in
        (
          found,
          curr ∷ left,
          record {
            loop = rw (ne→== curr.key key other, c.loop) refl;
            is = c.is;
            gone = rw (ne→== curr.key key other, c.gone) refl;
            others = λ k ne. ap (λ (b : Bool). (curr.key == k) || b) (c.others k ne);
            still = rw (c.others curr.key other ∙ e, c.still) refl;
          },
        )
  ]
]

missing :
    (handles : List RpcHandle) (key : ℕ)
    → has_key handles key ≡ false
    → remove_loop handles key ≡ none
unfolding remove_loop has_key
missing [] key absent = refl
missing (curr ∷ rest) key absent = elim (Bool-cases (curr.key == key)) [
  | inl e ↦ absurd (let f = rw e at absent in cc)
  | inr e ↦ rw (e, missing rest key (rw e at absent)) refl
]

module _ (ref : Reference) (is : distinct ref.handles ≡ true) (key value : ℕ) where
  abbrev new : RpcHandle
  new = record { key = key; value = value }

  abbrev grown : Reference
  grown = record ref { handles = ref.handles ++ (new ∷ []) }

  -- A key that is in the list is refused with EINVAL, and a handle without data or callback, without
  -- memory or without the lock is refused too, all with the list as it was. A new key goes to the end:
  -- the keys remain distinct, and the removal of the handle gives the list back as it was and calls its
  -- callback once.
  pub nvm_rpc_handle_insert_lem :
      ((memory : Bool) (lock : ℕ)
        → nvm_rpc_handle_insert false memory lock ref key value ≡ (einval, ref))
      × ((lock : ℕ) → nvm_rpc_handle_insert true false lock ref key value ≡ (enomem, ref))
      × ((lock : ℕ) → lock ≢ 0 → nvm_rpc_handle_insert true true lock ref key value ≡ (lock, ref))
      × (has_key ref.handles key ≡ true
          → nvm_rpc_handle_insert true true 0 ref key value ≡ (einval, ref))
      × (has_key ref.handles key ≡ false
          → (nvm_rpc_handle_insert true true 0 ref key value ≡ (0, grown))
            × (distinct grown.handles ≡ true)
            × (nvm_rpc_handle_remove grown key ≡ some (ref, handle_released key value ∷ [])))
  unfolding nvm_rpc_handle_insert nvm_rpc_handle_remove
  nvm_rpc_handle_insert_lem = (
    λ memory lock. refl,
    λ lock. refl,
    λ lock ne. rw (ne→== lock 0 ne) refl,
    λ present. rw (insert_loop-refuses new ref.handles present) refl,
    λ absent. (
      rw (insert_loop-end new ref.handles absent) refl,
      distinct-end new ref.handles is absent,
      rw (remove_loop-end new ref.handles absent) refl,
    ),
  )

module _ (ref : Reference) (is : distinct ref.handles ≡ true) (key : ℕ) where
  -- Removing a key that is in the list, whose keys are distinct, takes just that handle out and calls its
  -- callback once with the key. With a key that is not, the code reads through NULL.
  pub nvm_rpc_handle_remove_lem :
      (has_key ref.handles key ≡ false → nvm_rpc_handle_remove ref key ≡ none)
      × (has_key ref.handles key ≡ true
          → (rest : List RpcHandle) × (value' : ℕ) × (nvm_rpc_handle_remove ref key
              ≡ some (record ref { handles = rest }, handle_released key value' ∷ []))
            × (distinct rest ≡ true)
            × (has_key rest key ≡ false)
            × ((k : ℕ) → k ≢ key → has_key rest k ≡ has_key ref.handles k))
  unfolding nvm_rpc_handle_remove
  nvm_rpc_handle_remove_lem = (
    λ absent. rw (missing ref.handles key absent) refl,
    λ present.
        let (found, rest, c) = cut ref.handles key is present in
        (
          rest,
          found.value,
          rw c.loop (
              ap
                (λ (k : ℕ).
                  some (record ref { handles = rest }, handle_released k found.value ∷ []))
                c.is),
          c.still,
          c.gone,
          c.others,
        ),
  )
