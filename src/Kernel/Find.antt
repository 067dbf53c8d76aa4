-- ===== src/Kernel/Find.antt =====
-- Walks over a list: what the loops that look for a structure find.
use atc26_shaper_io.Prelude.{
  ℕ, zero, suc, ◌+◌, ◌<◌, ◌≡◌, ◌≢◌, ◌∙◌, refl, sym, Bool, true, false, some, eq→==, ne→==,
  if◌then◌else◌, Bool-cases, inl, inr, List, [], ◌∷◌, ◌++◌, length, arith,
}
use atc26_shaper_io.Kernel.{Nodes, null, list_next, find_from, find}
use atc26_shaper_io.Kernel.Links.{NotIn, Linked, Belong, IsList}

-- The first of the nodes that passes the test, or NULL.
pub first_match : (ℕ → Bool) → List ℕ → ℕ
first_match test [] = null
first_match test (x ∷ xs) = if test x then x else first_match test xs

-- the first of the nodes, or NULL
abbrev pub head_or_null : List ℕ → ℕ
head_or_null [] = null
head_or_null (x ∷ xs) = x

module _ (s : Nodes) (l : ℕ) where
  pub list_next-lem :
      (p : ℕ) (xs : List ℕ)
      → s.list p ≡ l
      → NotIn l xs
      → Linked s p xs l
      → list_next s p ≡ head_or_null xs
  unfolding list_next
  list_next-lem p [] own away (n, _) = rw (n, own, eq→== l l refl) refl
  list_next-lem p (x ∷ xs) own (lx, _) (n, _, _) = rw (n, own, ne→== x l (λ q. lx (sym q))) refl

  module _ (test : ℕ → Bool) where
    find_nothing : (fuel : ℕ) → find_from (suc fuel) s test null ≡ some null
    unfolding find_from
    find_nothing fuel = refl

    find_here : (fuel x : ℕ) → x ≢ null → test x ≡ true → find_from (suc fuel) s test x ≡ some x
    unfolding find_from
    find_here fuel x real e = rw (ne→== x null real, e) refl

    find_later :
        (fuel x : ℕ)
        → x ≢ null
        → test x ≡ false
        → find_from (suc fuel) s test x ≡ find_from fuel s test (list_next s x)
    unfolding find_from
    find_later fuel x real e = rw (ne→== x null real, e) refl

    find_from-first :
        (fuel p : ℕ) (xs : List ℕ)
        → length xs < fuel
        → Belong s.list xs l
        → NotIn l xs
        → NotIn null xs
        → Linked s p xs l
        → find_from fuel s test (head_or_null xs) ≡ some (first_match test xs)
    unfolding first_match
    find_from-first zero p xs lt belong away reals linked = absurd (omega arith)
    find_from-first (suc fuel) p [] lt belong away reals linked = find_nothing fuel
    find_from-first (suc fuel) p (x ∷ xs) lt (b, belong) (lx, away) (nx, reals) (_, _, linked) =
        let real : x ≢ null = λ q. nx (sym q) in
        elim (Bool-cases (test x)) [
          | inl e ↦ rw e (find_here fuel x real e)
          | inr e ↦
              let next : list_next s x ≡ head_or_null xs = list_next-lem x xs b away linked in
              let rest : find_from fuel s test (list_next s x) ≡ some (first_match test xs) =
                rw next (find_from-first fuel x xs (omega arith) belong away reals linked) in
              rw e (find_later fuel x real e ∙ rest)
        ]

-- A search through a list ends in one step more than the list has nodes, with the first node that passes
-- the test, and with NULL where none does.
pub find_lem :
    (s : Nodes) (l : ℕ) (xs : List ℕ) (test : ℕ → Bool)
    → IsList s l xs
    → find (length xs + 1) s test l ≡ some (first_match test xs)
unfolding find
find_lem s l xs test is =
    let (away, _) = is.distinct in
    let (_, reals) = is.real in
    let next : list_next s l ≡ head_or_null xs = list_next-lem s l l xs is.own away is.linked in
    rw next
      (find_from-first s l test (length xs + 1) l xs (omega arith) is.belong away reals is.linked)

abbrev pub Fails : (ℕ → Bool) → List ℕ → Type 0
Fails test [] = Unit {0}
Fails test (x ∷ xs) = (test x ≡ false) × Fails test xs

pub first_match-at :
    (test : ℕ → Bool) (xs : List ℕ) (x : ℕ) (ys : List ℕ)
    → Fails test xs
    → test x ≡ true
    → first_match test (xs ++ (x ∷ ys)) ≡ x
unfolding first_match
first_match-at test [] x ys fails e = rw e refl
first_match-at test (z ∷ xs) x ys (f, fails) e = rw f (first_match-at test xs x ys fails e)
