-- ===== src/Kernel/Links.antt =====
-- The shape of a list: which nodes it links, in which order, both ways.
use atc26_shaper_io.Prelude.{ℕ, ◌≡◌, ◌≢◌, ◌∙◌, refl, sym, List, [], ◌∷◌, eq→==, ne→==}
use atc26_shaper_io.Kernel.{Nodes, put, null}

pub put_self : (f : ℕ → ℕ) (a v : ℕ) → put f a v a ≡ v
put_self f a v = rw (eq→== a a refl) refl

pub put-ne : (f : ℕ → ℕ) (a v x : ℕ) → x ≢ a → put f a v x ≡ f x
put-ne f a v x ne = rw (ne→== x a ne) refl

abbrev pub NotIn : ℕ → List ℕ → Type 0
NotIn a [] = Unit {0}
NotIn a (x ∷ xs) = (a ≢ x) × NotIn a xs

abbrev pub Distinct : List ℕ → Type 0
Distinct [] = Unit {0}
Distinct (x ∷ xs) = NotIn x xs × Distinct xs

-- From `p` through `xs` to `l`.
abbrev pub Linked : Nodes → ℕ → List ℕ → ℕ → Type 0
Linked s p [] l = (s.next p ≡ l) × (s.prev l ≡ p)
Linked s p (x ∷ xs) l = (s.next p ≡ x) × (s.prev x ≡ p) × Linked s x xs l

abbrev pub Belong : (ℕ → ℕ) → List ℕ → ℕ → Type 0
Belong list [] l = Unit {0}
Belong list (x ∷ xs) l = (list x ≡ l) × Belong list xs l

-- The list at `l` links the nodes `xs`.
pub record IsList (s : Nodes) (l : ℕ) (xs : List ℕ) : Type 0 where
  pub real : NotIn null (l ∷ xs)
  pub distinct : Distinct (l ∷ xs)
  pub own : s.list l ≡ l
  pub belong : Belong s.list xs l
  pub linked : Linked s l xs l

-- Two stores with the same links but at `a`, `b` (next) and at `c`, `d` (prev).
pub record SameBut (s s' : Nodes) (a b c d : ℕ) : Type 0 where
  pub nexts : (x : ℕ) → x ≢ a → x ≢ b → s'.next x ≡ s.next x
  pub prevs : (x : ℕ) → x ≢ c → x ≢ d → s'.prev x ≡ s.prev x

module _ {s s' : Nodes} {a b c d : ℕ} (same : SameBut s s' a b c d) (l : ℕ) (nc : c ≢ l)
    (nd : d ≢ l) where
  pub Linked-frame :
      (p : ℕ) (xs : List ℕ)
      → NotIn a (p ∷ xs)
      → NotIn b (p ∷ xs)
      → NotIn c xs
      → NotIn d xs
      → Linked s p xs l
      → Linked s' p xs l
  Linked-frame p [] (ap', _) (bp, _) _ _ (n, v) = (
    same.nexts p (λ e. ap' (sym e)) (λ e. bp (sym e)) ∙ n,
    same.prevs l (λ e. nc (sym e)) (λ e. nd (sym e)) ∙ v,
  )
  Linked-frame p (x ∷ xs) (ap', na) (bp, nb) (cx, ncs) (dx, nds) (n, v, rest) = (
    same.nexts p (λ e. ap' (sym e)) (λ e. bp (sym e)) ∙ n,
    same.prevs x (λ e. cx (sym e)) (λ e. dx (sym e)) ∙ v,
    Linked-frame x xs na nb ncs nds rest,
  )

pub Belong-put :
    (list : ℕ → ℕ) (e v l : ℕ) (xs : List ℕ)
    → NotIn e xs
    → Belong list xs l
    → Belong (put list e v) xs l
Belong-put list e v l [] away belong = tt
Belong-put list e v l (x ∷ xs) (ne, away) (b, belong) =
    (put-ne list e v x (λ q. ne (sym q)) ∙ b, Belong-put list e v l xs away belong)

-- the last of the nodes `p ∷ xs`
abbrev pub last_of : ℕ → List ℕ → ℕ
last_of p [] = p
last_of p (x ∷ xs) = last_of x xs

pub NotIn-last : (a p : ℕ) (xs : List ℕ) → NotIn a (p ∷ xs) → a ≢ last_of p xs
NotIn-last a p [] (ne, _) = ne
NotIn-last a p (x ∷ xs) (_, away) = NotIn-last a x xs away

-- A list's head finds the last node through `prev`.
pub prev-last : (s : Nodes) (p l : ℕ) (xs : List ℕ) → Linked s p xs l → s.prev l ≡ last_of p xs
prev-last s p l [] (n, v) = v
prev-last s p l (x ∷ xs) (n, v, rest) = prev-last s x l xs rest
