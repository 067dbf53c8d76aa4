-- ===== src/Prelude/Steps.antt =====
-- A step taken a number of times.
use Prim.Native.Nat.{ℕ, zero, suc}

abbrev pub iterate {ℓ} : {A : Type ℓ} → ℕ → (A → A) → A → A
iterate zero f a = a
iterate (suc n) f a = iterate n f (f a)
