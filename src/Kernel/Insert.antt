-- ===== src/Kernel/Insert.antt =====
-- `list_init` and `list_insert`.
use atc26_shaper_io.Prelude.{ℕ, ◌≡◌, ◌≢◌, ◌∙◌, sym, List, [], ◌∷◌, ◌++◌}
use atc26_shaper_io.Kernel.{Nodes, put, null, list_init, list_insert}
use atc26_shaper_io.Kernel.Links.{
  put_self, put-ne, NotIn, Distinct, Linked, Belong, Belong-put, IsList, last_of, NotIn-last,
  prev-last,
}

-- An initialised list has no elements.
pub list_init-IsList : (s : Nodes) (l : ℕ) → l ≢ null → IsList (list_init s l) l []
unfolding list_init
list_init-IsList s l real = record {
  real = (λ e. real (sym e), tt);
  distinct = (tt, tt);
  own = put_self s.list l l;
  belong = tt;
  linked = (put_self s.next l l, put_self s.prev l l);
}

pub NotIn-snoc : (a e : ℕ) (xs : List ℕ) → NotIn a xs → a ≢ e → NotIn a (xs ++ (e ∷ []))
NotIn-snoc a e [] away ne = (ne, tt)
NotIn-snoc a e (x ∷ xs) (nx, away) ne = (nx, NotIn-snoc a e xs away ne)

Distinct-snoc : (e : ℕ) (xs : List ℕ) → Distinct xs → NotIn e xs → Distinct (xs ++ (e ∷ []))
Distinct-snoc e [] d away = (tt, tt)
Distinct-snoc e (x ∷ xs) (away', d) (ne, away) =
    (NotIn-snoc x e xs away' (λ q. ne (sym q)), Distinct-snoc e xs d away)

Belong-snoc :
    (list : ℕ → ℕ) (e l : ℕ) (xs : List ℕ)
    → Belong list xs l
    → list e ≡ l
    → Belong list (xs ++ (e ∷ [])) l
Belong-snoc list e l [] b q = (q, tt)
Belong-snoc list e l (x ∷ xs) (bx, b) q = (bx, Belong-snoc list e l xs b q)

module _ (s : Nodes) (l e : ℕ) (other : e ≢ l) where
  abbrev after : ℕ → Nodes
  after last = record {
    list = put s.list e l;
    next = put (put s.next last e) e l;
    prev = put (put s.prev e last) l e;
  }

  -- The links up to the last node stay, and the new node is linked in behind it.
  Linked-insert :
      (p : ℕ) (xs : List ℕ)
      → NotIn e (p ∷ xs)
      → NotIn l xs
      → Distinct (p ∷ xs)
      → Linked s p xs l
      → Linked (after (last_of p xs)) p (xs ++ (e ∷ [])) l
  Linked-insert p [] (ne, _) away d (n, v) = (
    put-ne (put s.next p e) e l p (λ q. ne (sym q)) ∙ put_self s.next p e,
    put-ne (put s.prev e p) l e e other ∙ put_self s.prev e p,
    (put_self (put s.next p e) e l, put_self (put s.prev e p) l e),
  )
  Linked-insert p (x ∷ xs) (ne, (nx, ns)) (lx, ls) (away, d) (n, v, rest) =
      let last = last_of x xs in
      (
        put-ne (put s.next last e) e l p (λ q. ne (sym q))
            ∙ put-ne s.next last e p (NotIn-last p x xs away)
            ∙ n,
        put-ne (put s.prev e last) l e x (λ q. lx (sym q))
            ∙ put-ne s.prev e last x (λ q. nx (sym q))
            ∙ v,
        Linked-insert x xs (nx, ns) ls d rest,
      )

-- A new node goes to the end of the list; all others stay where they are, in both directions.
pub list_insert-IsList :
    (s : Nodes) (l e : ℕ) (xs : List ℕ)
    → e ≢ null
    → NotIn e (l ∷ xs)
    → IsList s l xs
    → IsList (list_insert s l e) l (xs ++ (e ∷ []))
unfolding list_insert
list_insert-IsList s l e xs real (other, away) is =
    let (l_away, d) = is.distinct in
    let (l_real, reals) = is.real in
    let end : s.prev l ≡ last_of l xs = prev-last s l l xs is.linked in
    record {
      real = (l_real, NotIn-snoc null e xs reals (λ q. real (sym q)));
      distinct = (NotIn-snoc l e xs l_away (λ q. other (sym q)), Distinct-snoc e xs d away);
      own = put-ne s.list e l l (λ q. other (sym q)) ∙ is.own;
      belong =
          Belong-snoc (put s.list e l) e l xs (Belong-put s.list e l l xs away is.belong)
            (put_self s.list e l);
      linked = rw end (Linked-insert s l e other l xs (other, away) l_away (l_away, d) is.linked);
    }
