-- ===== src/Web/Pairs/Laws.antt =====
-- The pairs that `pairNearest` of internal/web/compare.go makes.
use torpeek.Prelude.{
  ℕ, zero, suc, ◌+◌, ◌-◌, ◌/◌, ◌≤◌, ◌<◌, ◌≡◌, ◌≢◌, refl, sym, ap, ◌∙◌, subst, Bool, true, false,
  ◌||◌, List, [], ◌∷◌, ◌==◌, ltb, Option, none, some, some_inj, arith, Bool-cases, ◌⊎◌, inl, inr,
  All, length, get_elem?,
}
use torpeek.Web.Pairs.{
  Positions, search, reaches, nearest_index, nearest_in, points_back, within, pairs_from,
  pair_nearest,
}

-- Where a binary search may end: at an end of the stretch, or between an index that fails the test and one that holds.
abbrev pub Found : (ℕ → Bool) → ℕ → ℕ → ℕ → Type 0
Found holds i j r =
    (i ≤ r) × (r ≤ j) × ((r ≡ j) ⊎ (holds r ≡ true)) × ((r ≡ i) ⊎ (holds (r - 1) ≡ false))

module _ (fuel : ℕ) (holds : ℕ → Bool) (i j : ℕ) where
  search-low :
      ltb i j ≡ true
      → holds ((i + j) / 2) ≡ true
      → search (suc fuel) holds i j ≡ search fuel holds i ((i + j) / 2)
  unfolding search
  search-low y t = rw (y, search) (rw t refl)

  search-high :
      ltb i j ≡ true
      → holds ((i + j) / 2) ≡ false
      → search (suc fuel) holds i j ≡ search fuel holds ((i + j) / 2 + 1) j
  unfolding search
  search-high y f = rw (y, search) (rw f refl)

  search-done : ltb i j ≡ false → search (suc fuel) holds i j ≡ i
  unfolding search
  search-done n = rw (n, search) refl

-- As many rounds as the stretch is long are enough for the search to end.
pub search-Found :
    (fuel : ℕ) (holds : ℕ → Bool) (i j : ℕ)
    → i ≤ j
    → j ≤ i + fuel
    → Found holds i j (search fuel holds i j)
unfolding search
search-Found zero holds i j h k = (omega arith, omega arith, inl (omega arith), inl refl)
search-Found (suc fuel) holds i j h k = elim (Bool-cases (ltb i j)) [
  | inl y ↦ elim (Bool-cases (holds ((i + j) / 2))) [
    | inl t ↦
        let (a, b, c, d) = search-Found fuel holds i ((i + j) / 2) (ground arith) (ground arith) in
        subst (Found holds i j) (sym (search-low fuel holds i j y t))
          (a, ground (arith, b), elim c [ inl e ↦ inr (ap holds e ∙ t) | inr e ↦ inr e ], d)
    | inr f ↦
        let (a, b, c, d) =
          search-Found fuel holds ((i + j) / 2 + 1) j (ground arith) (ground arith) in
        subst (Found holds i j) (sym (search-high fuel holds i j y f)) (
          ground (arith, a),
          b,
          c,
          elim d [
            | inl e ↦ inr (ap (λ r. holds (r - 1)) e ∙ ap holds (omega arith) ∙ f)
            | inr e ↦ inr e
          ],
        )
  ]
  | inr n ↦
      subst (Found holds i j) (sym (search-done fuel holds i j n))
        (omega arith, omega arith, inl (ground arith), inl refl)
]

-- No two pairs share a point, and the first points ascend.
abbrev pub Apart : List (ℕ × ℕ) → Type 0
Apart [] = Unit
Apart (p ∷ ps) = All (λ q. (p.0 < q.0) × (p.1 ≢ q.1)) ps × Apart ps

module _ (P : Positions) where
  -- The two points are each the nearest of the other, within the tolerance.
  abbrev pub AreMutual :
      List (Positions.Position P)
      → List (Positions.Position P)
      → Positions.Position P
      → ℕ × ℕ
      → Type 0
  AreMutual a b tolerance (i, j) =
      (v : Positions.Position P) × (w : Positions.Position P) × (get_elem? a i ≡ some v)
      × (get_elem? b j ≡ some w)
      × (nearest_index P b v ≡ j)
      × (nearest_index P a w ≡ i)
      × (within P v (some w) tolerance ≡ true)

  pub get_elem?-nearest_in :
      (a b : List (Positions.Position P)) (j i : ℕ)
      → get_elem? (nearest_in P a b) j ≡ some i
      → (w : Positions.Position P) × (get_elem? b j ≡ some w) × (nearest_index P a w ≡ i)
  unfolding nearest_in
  get_elem?-nearest_in a [] j i e = cc
  get_elem?-nearest_in a (w ∷ ws) zero i e = (w, refl, some_inj _ _ e)
  get_elem?-nearest_in a (w ∷ ws) (suc j) i e = get_elem?-nearest_in a ws j i e

  points_back-some : (o : Option ℕ) (i : ℕ) → points_back P o i ≡ true → o ≡ some i
  points_back-some none i e = cc
  points_back-some (some k) i e = ap (λ n. some n) (ground (arith, e))

  -- What is known of the pairs found from index `i` on, whatever is left.
  abbrev Later : List ℕ → ℕ → ℕ × ℕ → Type 0
  Later near_a m (i, j) = (m ≤ i) × (get_elem? near_a j ≡ some i)

  weaken_lem :
      (near_a : List ℕ) (m : ℕ) (ps : List (ℕ × ℕ))
      → All (Later near_a (suc m)) ps
      → All (Later near_a m) ps
  weaken_lem near_a m [] h = tt
  weaken_lem near_a m ((k, l) ∷ ps) h = ((omega (arith, h.0.0), h.0.1), weaken_lem near_a m ps h.1)

  pairs_from-Later :
      (near_a : List ℕ) (b : List (Positions.Position P)) (tolerance : Positions.Position P) (i : ℕ)
      (vs : List (Positions.Position P)) (js : List ℕ)
      → All (Later near_a i) (pairs_from P near_a b tolerance i vs js)
  unfolding pairs_from
  pairs_from-Later near_a b tolerance i [] js = tt
  pairs_from-Later near_a b tolerance i (v ∷ vs) [] = tt
  pairs_from-Later near_a b tolerance i (v ∷ vs) (j ∷ js) =
      let rest =
        weaken_lem near_a i (pairs_from P near_a b tolerance (suc i) vs js)
          (pairs_from-Later near_a b tolerance (suc i) vs js) in
      elim (Bool-cases (points_back P (get_elem? near_a j) i)) [
        | inl y ↦ elim (Bool-cases (within P v (get_elem? b j) tolerance)) [
          | inl t ↦ rw y (rw t ((omega arith, points_back-some (get_elem? near_a j) i y), rest))
          | inr f ↦ rw y (rw f rest)
        ]
        | inr n ↦ rw n rest
      ]

  cons_lem :
      (near_a : List ℕ) (i j : ℕ) (ps : List (ℕ × ℕ))
      → get_elem? near_a j ≡ some i
      → All (Later near_a (suc i)) ps
      → All (λ q. (i < q.0) × (j ≢ q.1)) ps
  cons_lem near_a i j [] e h = tt
  cons_lem near_a i j ((k, l) ∷ ps) e h = (
    (
      h.0.0,
      λ q.
          let same : i ≡ k = some_inj _ _ (sym e ∙ ap (get_elem? near_a) q ∙ h.0.1) in
          omega (arith, same, h.0.0),
    ),
    cons_lem near_a i j ps e h.1,
  )

  pairs_from-Apart :
      (near_a : List ℕ) (b : List (Positions.Position P)) (tolerance : Positions.Position P) (i : ℕ)
      (vs : List (Positions.Position P)) (js : List ℕ)
      → Apart (pairs_from P near_a b tolerance i vs js)
  unfolding pairs_from
  pairs_from-Apart near_a b tolerance i [] js = tt
  pairs_from-Apart near_a b tolerance i (v ∷ vs) [] = tt
  pairs_from-Apart near_a b tolerance i (v ∷ vs) (j ∷ js) =
      let rest = pairs_from-Apart near_a b tolerance (suc i) vs js in
      elim (Bool-cases (points_back P (get_elem? near_a j) i)) [
        | inl y ↦ elim (Bool-cases (within P v (get_elem? b j) tolerance)) [
          | inl t ↦ rw y (
              rw t (
                cons_lem near_a i j (pairs_from P near_a b tolerance (suc i) vs js)
                    (points_back-some (get_elem? near_a j) i y)
                    (pairs_from-Later near_a b tolerance (suc i) vs js),
                rest,
              ))
          | inr f ↦ rw y (rw f rest)
        ]
        | inr n ↦ rw n rest
      ]

  pairs_from-Partners :
      (a b : List (Positions.Position P)) (tolerance : Positions.Position P) (i : ℕ)
      (vs : List (Positions.Position P))
      → ((k : ℕ) → get_elem? a (i + k) ≡ get_elem? vs k)
      → All
          (AreMutual a b tolerance)
          (pairs_from P (nearest_in P a b) b tolerance i vs (nearest_in P b vs))
  unfolding pairs_from nearest_in
  pairs_from-Partners a b tolerance i [] at = tt
  pairs_from-Partners a b tolerance i (v ∷ vs) at =
      let j = nearest_index P b v in
      let rest =
        pairs_from-Partners a b tolerance (suc i) vs
          (λ k. ap (get_elem? a) (omega arith) ∙ at (suc k)) in
      elim (Bool-cases (points_back P (get_elem? (nearest_in P a b) j) i)) [
        | inl y ↦ elim (Bool-cases (within P v (get_elem? b j) tolerance)) [
          | inl t ↦
              let (w, e, back) =
                get_elem?-nearest_in a b j i
                  (points_back-some (get_elem? (nearest_in P a b) j) i y) in
              rw y (
                rw t (
                  (
                    v,
                    w,
                    ap (get_elem? a) (omega arith) ∙ at 0,
                    e,
                    refl,
                    back,
                    ap (λ o. within P v o tolerance) (sym e) ∙ t,
                  ),
                  rest,
                ))
          | inr f ↦ rw y (rw f rest)
        ]
        | inr n ↦ rw n rest
      ]

  -- Whatever float64 answers: the pairs share no point, come in order, and are mutual by `nearest_index`.
  pub pair_nearest-Apart :
      (a b : List (Positions.Position P)) (tolerance : Positions.Position P)
      → Apart (pair_nearest P a b tolerance)
        × All (AreMutual a b tolerance) (pair_nearest P a b tolerance)
  unfolding pair_nearest
  pair_nearest-Apart a b tolerance = elim (Bool-cases (length a == 0 || length b == 0)) [
    | inl y ↦ rw y (tt, tt)
    | inr n ↦ rw n (
      pairs_from-Apart (nearest_in P a b) b tolerance 0 a (nearest_in P b a),
      pairs_from-Partners a b tolerance 0 a (λ k. ap (get_elem? a) (omega arith)),
    )
  ]

  -- An index that is asked for is never out of range.
  nearest_index-bound :
      (sorted : List (Positions.Position P)) (v : Positions.Position P)
      → 0 < length sorted
      → nearest_index P sorted v < length sorted
  unfolding nearest_index
  nearest_index-bound sorted v h =
      let n = length sorted in
      let found =
        search-Found n (λ k. reaches P v (get_elem? sorted k)) 0 n (omega arith) (omega arith) in
      ground (arith, found.1, h)
