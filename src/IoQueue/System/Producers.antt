-- ===== src/IoQueue/System/Producers.antt =====
-- Families of producers: what holds of every thread after one of them has moved.
use atc26_shaper_io.Prelude.{ℕ, ◌≡◌, ◌≢◌, refl, sym, Bool, true, false, eq→==, ne→==, arith}
use atc26_shaper_io.IoQueue.System.{Stage, Producer, put}
use native.Mathlib.Decide.{ℕ_discrete}

abbrev pub busy : Stage → Bool
busy Stage.idle = false
busy Stage.claimed = true
busy Stage.admitted = true
busy Stage.written = true
busy Stage.waiting = true

module _ {ℓ} {A : Type ℓ} where
  pub put_self : (f : ℕ → A) (p : ℕ) (x : A) → put f p x p ≡ x
  put_self f p x = rw (eq→== p p refl) refl

  pub put_ne : (f : ℕ → A) (p i : ℕ) (x : A) → i ≢ p → put f p x i ≡ f i
  put_ne f p i x ne = rw (ne→== i p ne) refl

  pub put_all {κ} :
      (P : A → Type κ) (f : ℕ → A) (p : ℕ) (x : A)
      → P x
      → ((i : ℕ) → i ≢ p → P (f i))
      → (i : ℕ) → P (put f p x i)
  put_all P f p x here there i = elim (ℕ_discrete i p) [
    | yes e ↦ rw (eq→== i p e) here
    | no ne ↦ rw (ne→== i p ne) (there i ne)
  ]

-- No two threads that are busy have the same slot.
abbrev pub Apart : (ℕ → Producer) → Type 0
Apart f =
    (i j : ℕ) → i ≢ j → busy (f i).stage ≡ true → busy (f j).stage ≡ true → (f i).slot ≢ (f j).slot

pub put-Apart :
    (f : ℕ → Producer) (p : ℕ) (x : Producer)
    → Apart f
    → ((i : ℕ) → i ≢ p → busy x.stage ≡ true → busy (f i).stage ≡ true → x.slot ≢ (f i).slot)
    → Apart (put f p x)
put-Apart f p x apart new i j ne bi bj e = elim (ℕ_discrete i p) [
  | yes ip ↦ elim (ℕ_discrete j p) [
    | yes jp ↦ absurd (ne (omega arith))
    | no jn ↦
        let a = rw (eq→== i p ip) at bi in
        let b = rw (ne→== j p jn) at bj in
        let c = rw (eq→== i p ip, ne→== j p jn) at e in new j jn a b c
  ]
  | no in' ↦ elim (ℕ_discrete j p) [
    | yes jp ↦
        let a = rw (ne→== i p in') at bi in
        let b = rw (eq→== j p jp) at bj in
        let c = rw (ne→== i p in', eq→== j p jp) at e in new i in' b a (sym c)
    | no jn ↦
        let a = rw (ne→== i p in') at bi in
        let b = rw (ne→== j p jn) at bj in
        let c = rw (ne→== i p in', ne→== j p jn) at e in apart i j ne a b c
  ]
]
