-- ===== src/Kernel/Remove.antt =====
-- `list_remove`.
use atc26_shaper_io.Prelude.{ℕ, ◌≡◌, ◌≢◌, ◌∙◌, refl, sym, eq→==, ne→==, List, [], ◌∷◌, ◌++◌}
use native.Mathlib.Decide.{ℕ_discrete}
use atc26_shaper_io.Kernel.{Nodes, put, null, unlinked, list_remove}
use atc26_shaper_io.Kernel.Links.{
  put_self, put-ne, NotIn, Distinct, Linked, Linked-frame, SameBut, Belong, Belong-put, IsList,
  last_of, NotIn-last,
}

module _ (a : ℕ) where
  pub NotIn-left : (xs ys : List ℕ) → NotIn a (xs ++ ys) → NotIn a xs
  NotIn-left [] ys away = tt
  NotIn-left (x ∷ xs) ys (ne, away) = (ne, NotIn-left xs ys away)

  pub NotIn-right : (xs ys : List ℕ) → NotIn a (xs ++ ys) → NotIn a ys
  NotIn-right [] ys away = away
  NotIn-right (x ∷ xs) ys (ne, away) = NotIn-right xs ys away

  pub NotIn-drop :
      (xs : List ℕ) (x : ℕ) (ys : List ℕ) → NotIn a (xs ++ (x ∷ ys)) → NotIn a (xs ++ ys)
  NotIn-drop [] x ys (ne, away) = away
  NotIn-drop (y ∷ xs) x ys (ne, away) = (ne, NotIn-drop xs x ys away)

  pub NotIn-at : (xs : List ℕ) (x : ℕ) (ys : List ℕ) → NotIn a (xs ++ (x ∷ ys)) → a ≢ x
  NotIn-at [] x ys (ne, away) = ne
  NotIn-at (y ∷ xs) x ys (ne, away) = NotIn-at xs x ys away

Distinct-drop :
    (xs : List ℕ) (x : ℕ) (ys : List ℕ) → Distinct (xs ++ (x ∷ ys)) → Distinct (xs ++ ys)
Distinct-drop [] x ys (away, d) = d
Distinct-drop (y ∷ xs) x ys (away, d) = (NotIn-drop y xs x ys away, Distinct-drop xs x ys d)

-- The node that is taken out is none of those that stay.
Distinct-NotIn :
    (xs : List ℕ) (x : ℕ) (ys : List ℕ) → Distinct (xs ++ (x ∷ ys)) → NotIn x (xs ++ ys)
Distinct-NotIn [] x ys (away, d) = away
Distinct-NotIn (y ∷ xs) x ys (away, d) =
    (λ q. NotIn-at y xs x ys away (sym q), Distinct-NotIn xs x ys d)

Belong-drop :
    (list : ℕ → ℕ) (l : ℕ) (xs : List ℕ) (x : ℕ) (ys : List ℕ)
    → Belong list (xs ++ (x ∷ ys)) l
    → (list x ≡ l) × Belong list (xs ++ ys) l
Belong-drop list l [] x ys (b, belong) = (b, belong)
Belong-drop list l (y ∷ xs) x ys (b, belong) =
    let (bx, rest) = Belong-drop list l xs x ys belong in (bx, (b, rest))

-- first of `ys`, or `l` after the last node
abbrev first_or : ℕ → List ℕ → ℕ
first_or l [] = l
first_or l (y ∷ ys) = y

module _ (s : Nodes) (l x : ℕ) (other : x ≢ l) where
  abbrev after : ℕ → ℕ → Nodes
  after p n = record {
    list = put s.list x null;
    next = put (put s.next p n) x null;
    prev = put (put s.prev n p) x null;
  }

  -- Behind the node nothing has changed but that the next one points back to `p`.
  Linked-behind :
      (p : ℕ) (ys : List ℕ)
      → NotIn p (x ∷ ys)
      → NotIn x ys
      → NotIn l ys
      → Distinct ys
      → Linked s x ys l
      → Linked (after p (first_or l ys)) p ys l
  Linked-behind p [] (px, _) xys lys d (n, v) = (
    put-ne (put s.next p l) x null p px ∙ put_self s.next p l,
    put-ne (put s.prev l p) x null l (λ q. other (sym q)) ∙ put_self s.prev l p,
  )
  Linked-behind p (y ∷ ys) (px, (py, pys)) (xy, xys) (ly, lys) (yys, d) (n, v, rest) = (
    put-ne (put s.next p y) x null p px ∙ put_self s.next p y,
    put-ne (put s.prev y p) x null y (λ q. xy (sym q)) ∙ put_self s.prev y p,
    Linked-frame same l (λ q. ly (sym q)) other y ys (py, pys) (xy, xys) yys xys rest,
  )
    where
      same : SameBut s (after p y) p x y x
      same = record {
        nexts = λ z np nx. put-ne (put s.next p y) x null z nx ∙ put-ne s.next p y z np;
        prevs = λ z ny nx. put-ne (put s.prev y p) x null z nx ∙ put-ne s.prev y p z ny;
      }

  neighbours :
      (p : ℕ) (xs ys : List ℕ)
      → Linked s p (xs ++ (x ∷ ys)) l
      → (s.prev x ≡ last_of p xs) × (s.next x ≡ first_or l ys)
  neighbours p [] [] (n, v, rest) = let (n', _) = rest in (v, n')
  neighbours p [] (y ∷ ys) (n, v, rest) = let (n', _, _) = rest in (v, n')
  neighbours p (y ∷ xs) ys (n, v, rest) = neighbours y xs ys rest

  first-NotIn : (a : ℕ) (ys : List ℕ) → a ≢ l → NotIn a ys → a ≢ first_or l ys
  first-NotIn a [] ne away = ne
  first-NotIn a (y ∷ ys) ne (ny, away) = ny

  Linked-remove :
      (p : ℕ) (xs ys : List ℕ)
      → Distinct (p ∷ (xs ++ (x ∷ ys)))
      → NotIn l (xs ++ (x ∷ ys))
      → Linked s p (xs ++ (x ∷ ys)) l
      → Linked (after (last_of p xs) (first_or l ys)) p (xs ++ ys) l
  Linked-remove p [] ys (away, (xys, d)) (lx, lys) (n, v, rest) =
      Linked-behind p ys away xys lys d rest
  Linked-remove p (y ∷ xs) ys (away, (yaway, d)) (ly, laway) (n, v, rest) =
      let last = last_of y xs in
      let first = first_or l ys in
      let px : p ≢ x = NotIn-at p (y ∷ xs) x ys away in
      let yx : y ≢ x = NotIn-at y xs x ys yaway in
      let p_last : p ≢ last = NotIn-last p y xs (NotIn-left p (y ∷ xs) (x ∷ ys) away) in
      let (_, ytail) = NotIn-split y xs ys yaway in
      let y_first : y ≢ first = first-NotIn y ys (λ q. ly (sym q)) ytail in
      (
        put-ne (put s.next last first) x null p px ∙ put-ne s.next last first p p_last ∙ n,
        put-ne (put s.prev first last) x null y yx ∙ put-ne s.prev first last y y_first ∙ v,
        Linked-remove y xs ys (yaway, d) laway rest,
      )
    where
      NotIn-split : (a : ℕ) (zs ws : List ℕ) → NotIn a (zs ++ (x ∷ ws)) → (a ≢ x) × NotIn a ws
      NotIn-split a zs ws h = NotIn-right a zs (x ∷ ws) h

module _ (s : Nodes) (l x : ℕ) (xs ys : List ℕ) (is : IsList s l (xs ++ (x ∷ ys))) where
  pub x_real : x ≢ null
  x_real = let (_, reals) = is.real in λ q. NotIn-at null xs x ys reals (sym q)

  x_other : x ≢ l
  x_other = let (away, _) = is.distinct in λ q. NotIn-at l xs x ys away (sym q)

  unlink_runs : list_remove s x ≡ unlinked s x
  unfolding list_remove
  unlink_runs =
      let (lx, _) = Belong-drop s.list l xs x ys is.belong in
      let (l_real, _) = is.real in
      rw (lx, ne→== x null x_real, ne→== l null (λ q. l_real (sym q)), ne→== x l x_other) refl

  reread : put s.next (s.prev x) (s.next x) x ≡ s.next x
  reread = elim (ℕ_discrete x (s.prev x)) [
    | yes e ↦ rw (eq→== x (s.prev x) e) refl
    | no ne ↦ put-ne s.next (s.prev x) (s.next x) x ne
  ]

  abbrev removed : Nodes
  removed = after s l x x_other (last_of l xs) (first_or l ys)

  unlinked-removed : unlinked s x ≡ removed
  unlinked-removed =
      let (pv, nx) = neighbours s l x x_other l xs ys is.linked in rw reread (rw (pv, nx) refl)

  removed-IsList : IsList removed l (xs ++ ys)
  removed-IsList =
      let (l_away, d) = is.distinct in
      let (l_real, reals) = is.real in
      let (_, belong) = Belong-drop s.list l xs x ys is.belong in
      record {
        real = (l_real, NotIn-drop null xs x ys reals);
        distinct = (NotIn-drop l xs x ys l_away, Distinct-drop xs x ys d);
        own = put-ne s.list x null l (λ q. x_other (sym q)) ∙ is.own;
        belong = Belong-put s.list x null l (xs ++ ys) (Distinct-NotIn xs x ys d) belong;
        linked = Linked-remove s l x x_other l xs ys (l_away, d) l_away is.linked;
      }

  again : list_remove removed x ≡ removed
  unfolding list_remove
  again = rw (put_self s.list x null, ne→== x null x_real) refl

  list_remove-removed : list_remove s x ≡ removed
  list_remove-removed = unlink_runs ∙ unlinked-removed

  -- Taking a node out of a list leaves the others linked as they were, in both directions, and the node
  -- in no list; to take it out again changes nothing.
  pub list_remove-IsList :
      IsList (list_remove s x) l (xs ++ ys)
      × ((list_remove s x).list x ≡ null)
      × (list_remove (list_remove s x) x ≡ list_remove s x)
  list_remove-IsList = rw list_remove-removed (removed-IsList, put_self s.list x null, again)
