-- ===== src/ParallelQueue/Cid.antt =====
-- Command identifiers: `get_cid` finds a free one, and `put_cid` gives it back.
use atc26_shaper_io.Prelude.{
  ℕ, zero, suc, ◌+◌, ◌-◌, ◌%◌, ◌≤◌, ◌<◌, ◌≡◌, ◌≢◌, sym, ◌∙◌, inl, inr, ap, some, bit_and, bit_or,
  ◌==◌, Bool-cases, get_or, set, get_or-set_self, get_or-set_ne, set-get_or, set-set, set_comm,
  get_or-set_le, length, List, arith,
}
use atc26_shaper_io.Prelude.Bits.{and-low_mask}
use native.Mathlib.Nat.{add-zero}
use atc26_shaper_io.Prelude.Words.{u32}
use atc26_shaper_io.Types.{NvmQueue}
use atc26_shaper_io.ParallelQueue.{locked, get_cid, put_cid}

-- Each identifier is free, 0, or in use, 1.
abbrev pub AreFlags : NvmQueue → Type 0
AreFlags sq = (i : ℕ) → get_or sq.cid i 0 ≤ 1

-- What a successful search leaves: the identifier was free, is marked now, and the marks of all others
-- are as they were.
pub record Got (sq : NvmQueue) (id : ℕ) (sq' : NvmQueue) : Type 0 where
  pub small : id < 65536
  pub was_free : get_or sq.cid id 0 ≡ 0
  pub marked : sq'.cid ≡ set sq.cid id 1

module _ (sq : NvmQueue) where
  -- the queue after one round of the search that meets an identifier in use
  abbrev skipped : NvmQueue
  skipped =
      let id = bit_and sq.cid_ticket 65535 in
      record sq {
        cid_ticket = u32 (sq.cid_ticket + 1);
        cid = set sq.cid id (bit_or (get_or sq.cid id 0) locked);
      }

  -- Such a round changes no mark.
  cid-skipped : get_or sq.cid (bit_and sq.cid_ticket 65535) 0 ≡ 1 → skipped.cid ≡ sq.cid
  cid-skipped e =
      rw e (ap (λ v. set sq.cid (bit_and sq.cid_ticket 65535) v) (sym e) ∙ set-get_or sq.cid _ 0)

  AreFlags-skipped :
      get_or sq.cid (bit_and sq.cid_ticket 65535) 0 ≡ 1 → AreFlags sq → AreFlags skipped
  AreFlags-skipped e flags i = rw (cid-skipped e) (flags i)

  Got-skipped :
      {id : ℕ} {sq' : NvmQueue}
      → get_or sq.cid (bit_and sq.cid_ticket 65535) 0 ≡ 1
      → Got skipped id sq'
      → Got sq id sq'
  Got-skipped e got = record {
    small = got.small;
    was_free = rw (cid-skipped e) at got.was_free;
    marked = rw (cid-skipped e) at got.marked;
  }

low_word : (t : ℕ) → bit_and t 65535 ≡ t % 65536
low_word t = and-low_mask 16 t

get_cid-Got :
    (fuel : ℕ) (sq : NvmQueue) {id : ℕ} {sq' : NvmQueue}
    → AreFlags sq
    → get_cid fuel sq ≡ some (id, sq')
    → Got sq id sq'
unfolding get_cid
get_cid-Got zero sq flags h = cc
get_cid-Got (suc fuel) sq {id} {sq'} flags h =
    elim (Bool-cases (get_or sq.cid (bit_and sq.cid_ticket 65535) 0 == locked)) [
      | inl used ↦
          let e : get_or sq.cid (bit_and sq.cid_ticket 65535) 0 ≡ 1 = ground arith in
          Got-skipped sq e
            (get_cid-Got fuel (skipped sq) (AreFlags-skipped sq e flags) (rw used at h))
      | inr free ↦ ground (arith, flags (bit_and sq.cid_ticket 65535), low_word sq.cid_ticket)
    ]

-- Some identifier is free `d` places ahead of the counter: then `d + 1` rounds find one.
get_cid-returns :
    (d : ℕ) (fuel : ℕ) (sq : NvmQueue)
    → d < fuel
    → AreFlags sq
    → get_or sq.cid ((sq.cid_ticket + d) % 65536) 0 ≡ 0
    → (id : ℕ) × (sq' : NvmQueue) × (get_cid fuel sq ≡ some (id, sq'))
unfolding get_cid
get_cid-returns d zero sq lt flags free = absurd (omega arith)
get_cid-returns zero (suc fuel) sq lt flags free =
    let e : get_or sq.cid (bit_and sq.cid_ticket 65535) 0 ≡ 0 =
      rw (low_word sq.cid_ticket, ← add-zero sq.cid_ticket) free in
    (bit_and sq.cid_ticket 65535, skipped sq, rw e)
get_cid-returns (suc d) (suc fuel) sq lt flags free =
    elim (Bool-cases (get_or sq.cid (bit_and sq.cid_ticket 65535) 0 == locked)) [
      | inl used ↦
          let e : get_or sq.cid (bit_and sq.cid_ticket 65535) 0 ≡ 1 = ground arith in
          let same : (u32 (sq.cid_ticket + 1) + d) % 65536 ≡ (sq.cid_ticket + suc d) % 65536 =
            omega arith in
          rw used (
            get_cid-returns d fuel (skipped sq) (omega arith) (AreFlags-skipped sq e flags)
              (rw (cid-skipped sq e, same) free))
      | inr unused ↦ (bit_and sq.cid_ticket 65535, skipped sq, rw unused)
    ]

-- Where some identifier is free, a thread that runs alone gets one within 65536 rounds. The one that
-- it gets was free, is marked as in use, and no other mark changes.
pub get_cid_lem :
    (sq : NvmQueue) (j : ℕ)
    → j < 65536
    → AreFlags sq
    → get_or sq.cid j 0 ≡ 0
    → (id : ℕ) × (sq' : NvmQueue) × (get_cid 65536 sq ≡ some (id, sq')) × Got sq id sq'
get_cid_lem sq j lt flags free =
    let d : ℕ = (j + 65536 - sq.cid_ticket % 65536) % 65536 in
    let at_j : (sq.cid_ticket + d) % 65536 ≡ j = omega arith in
    let (id, sq', e) = get_cid-returns d 65536 sq (omega arith) flags (rw at_j free) in
    (id, sq', e, get_cid-Got 65536 sq flags e)

-- Raising two flags and lowering them gives the array back.
module _ (xs : List ℕ) (i j : ℕ) (ne : i ≢ j) (p : get_or xs i 0 ≡ 0) (q : get_or xs j 0 ≡ 0) where
  lower : (ys : List ℕ) (k : ℕ) → get_or ys k 0 ≡ 0 → set (set ys k 1) k 0 ≡ ys
  lower ys k e = set-set ys k 1 0 ∙ ap (λ v. set ys k v) (sym e) ∙ set-get_or ys k 0

  last_first : set (set (set (set xs i 1) j 1) j 0) i 0 ≡ xs
  last_first = rw (lower (set xs i 1) j (get_or-set_ne xs i j 1 0 ne ∙ q)) (lower xs i p)

  first_first : set (set (set (set xs i 1) j 1) i 0) j 0 ≡ xs
  first_first =
      ap (λ ys. set ys j 0)
        (ap (λ ys. set ys i 0) (set_comm xs i j 1 1 ne)
          ∙ lower (set xs j 1) i (get_or-set_ne xs j i 1 0 (λ e. ne (sym e)) ∙ p))
      ∙ lower xs j q

-- Two commands that are in flight at once have different identifiers: the second search cannot find
-- what the first one marked. Giving both back, in either order, restores the marks.
pub two_in_flight :
    (f g : ℕ) (sq : NvmQueue) {i j : ℕ} {sq₁ sq₂ : NvmQueue}
    → AreFlags sq
    → length sq.cid ≡ 65536
    → get_cid f sq ≡ some (i, sq₁)
    → get_cid g sq₁ ≡ some (j, sq₂)
    → (i ≢ j)
      × ((put_cid (put_cid sq₂ j) i).cid ≡ sq.cid)
      × ((put_cid (put_cid sq₂ i) j).cid ≡ sq.cid)
unfolding put_cid
two_in_flight f g sq {i} {j} {sq₁} {sq₂} flags len p q =
    let a = get_cid-Got f sq flags p in
    let b =
      get_cid-Got g sq₁ (λ k. rw a.marked (get_or-set_le sq.cid i k 1 0 1 (omega arith) (flags k)))
        q in
    let here : get_or sq₁.cid i 0 ≡ 1 =
      rw a.marked (get_or-set_self sq.cid i 1 0 (omega (arith, a.small))) in
    let ne : i ≢ j = λ e. omega (arith, here, b.was_free, ap (λ (t : ℕ). get_or sq₁.cid t 0) e) in
    let free : get_or sq.cid j 0 ≡ 0 =
      sym (get_or-set_ne sq.cid i j 1 0 ne) ∙ (rw a.marked at b.was_free) in
    (
      ne,
      rw (b.marked, a.marked) (last_first sq.cid i j ne a.was_free free),
      rw (b.marked, a.marked) (first_first sq.cid i j ne a.was_free free),
    )
