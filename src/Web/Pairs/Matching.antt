-- ===== src/Web/Pairs/Matching.antt =====
-- `pairNearest` of internal/web/compare.go is a matching of the points that are nearest to each other.
use torpeek.Prelude.{
  ℕ, zero, suc, ◌+◌, ◌<◌, ◌≡◌, refl, sym, ap, ◌∙◌, subst, Bool, true, false, not, ◌&&◌, ◌||◌, List,
  [], ◌∷◌, ◌==◌, if◌then◌else◌, some, some_inj, arith, Bool-cases, inl, inr, ==_iff, All, length,
  get_elem?,
}
use torpeek.Web.Pairs.{
  Positions, nearest_index, nearest_in, points_back, within, pairs_from, pair_nearest,
}
use torpeek.Web.Pairs.Laws.{Apart, AreMutual, pair_nearest-Apart}
use torpeek.Web.Pairs.Nearest.{
  IsOrdered, distance, Ascends, within-distance, nearest_index-IsNearest, get_bound,
}

abbrev pub has_pair : ℕ → ℕ → List (ℕ × ℕ) → Bool
has_pair i j [] = false
has_pair i j ((k, l) ∷ ps) = (k == i && l == j) || has_pair i j ps

All-map_to :
    (P Q : ℕ × ℕ → Type 0) (ps : List (ℕ × ℕ)) → ((p : ℕ × ℕ) → P p → Q p) → All P ps → All Q ps
All-map_to P Q [] f a = tt
All-map_to P Q (p ∷ ps) f a = (f p a.0, All-map_to P Q ps f a.1)

module _ (P : Positions) (o : IsOrdered P) where
  abbrev At : Type 0
  At = Positions.Position P

  -- No point of the other set is nearer to either of the two, and they are within the tolerance.
  abbrev pub ArePartners : List At → List At → At → ℕ × ℕ → Type 0
  ArePartners a b tolerance (i, j) =
      (v : At) × (w : At) × (get_elem? a i ≡ some v)
      × (get_elem? b j ≡ some w)
      × ((k : ℕ) (x : At)
          → get_elem? b k ≡ some x
          → Positions.le P (distance P o v w) (distance P o v x) ≡ true)
      × ((k : ℕ) (x : At)
          → get_elem? a k ≡ some x
          → Positions.le P (distance P o w v) (distance P o w x) ≡ true)
      × (Positions.le P (distance P o v w) tolerance ≡ true)

  -- Every other value of the list is farther from `v` than `w`, which is at `j`.
  abbrev pub IsStrictlyNearest : List At → At → ℕ → At → Type 0
  IsStrictlyNearest xs v j w =
      (k : ℕ) (x : At)
      → get_elem? xs k ≡ some x
      → (k == j) ≡ false
      → Positions.lt P (distance P o v w) (distance P o v x) ≡ true

  -- What is said of the nearest index is said of the value there.
  nearest_at :
      (xs : List At) (v w : At) (j : ℕ)
      → Ascends P o xs
      → get_elem? xs j ≡ some w
      → nearest_index P xs v ≡ j
      → (k : ℕ) (x : At) → get_elem? xs k ≡ some x
      → Positions.le P (distance P o v w) (distance P o v x) ≡ true
  nearest_at xs v w j a e n k x f =
      let (u, g, near) = nearest_index-IsNearest P o xs v a (not_nil j w e) in
      let same : u ≡ w = some_inj _ _ (sym g ∙ ap (get_elem? xs) n ∙ e) in
      subst (λ y. Positions.le P (distance P o v y) (distance P o v x) ≡ true) same (near k x f)
    where
      not_nil : (j : ℕ) (w : At) → get_elem? xs j ≡ some w → 0 < length xs
      not_nil j w e = let h = get_bound P o xs j w e in omega (arith, h)

  mutual-ArePartners :
      (a b : List At) (tolerance : At)
      → Ascends P o a
      → Ascends P o b
      → (p : ℕ × ℕ) → AreMutual P a b tolerance p
      → ArePartners a b tolerance p
  mutual-ArePartners a b tolerance up_a up_b (i, j) (v, w, e, f, n, m, t) = (
    v,
    w,
    e,
    f,
    nearest_at b v w j up_b f n,
    nearest_at a w v i up_a e m,
    sym (within-distance P o v w tolerance) ∙ t,
  )

  -- The one strictly nearest value is found.
  strictly-nearest_index :
      (xs : List At) (v w : At) (j : ℕ)
      → Ascends P o xs
      → get_elem? xs j ≡ some w
      → IsStrictlyNearest xs v j w
      → nearest_index P xs v ≡ j
  strictly-nearest_index xs v w j a e s = elim (Bool-cases (nearest_index P xs v == j)) [
    | inl y ↦ (==_iff (nearest_index P xs v) j).0 y
    | inr n ↦
        let (u, g, near) =
          nearest_index-IsNearest P o xs v a (let h = get_bound P o xs j w e in omega (arith, h)) in
        let farther = s (nearest_index P xs v) u g n in
        let never : ⊥ =
          ground (arith, farther, near j w e, o.lt_le (distance P o v w) (distance P o v u)) in
        elim never [ ]
  ]

  nearest_in-get :
      (a b : List At) (j : ℕ) (w : At)
      → get_elem? b j ≡ some w
      → get_elem? (nearest_in P a b) j ≡ some (nearest_index P a w)
  unfolding nearest_in
  nearest_in-get a [] j w e = cc
  nearest_in-get a (x ∷ xs) zero w e = ap (λ u. some (nearest_index P a u)) (some_inj _ _ e)
  nearest_in-get a (x ∷ xs) (suc j) w e = nearest_in-get a xs j w e

  -- With a point in each set, the loop runs.
  pairs_made :
      {i j : ℕ} (a b : List At) (tolerance : At)
      → i < length a
      → j < length b
      → pair_nearest P a b tolerance
        ≡ pairs_from P (nearest_in P a b) b tolerance 0 a (nearest_in P b a)
  unfolding pair_nearest
  pairs_made a b tolerance h k =
      let full : (length a == 0 || length b == 0) ≡ false = ground (arith, h, k) in rw full refl

  -- A pair that passes both tests is made.
  pairs_from-has :
      (near_a : List ℕ) (b : List At) (tolerance : At) (i k j : ℕ) (vs : List At) (v : At)
      → get_elem? vs k ≡ some v
      → nearest_index P b v ≡ j
      → get_elem? near_a j ≡ some (i + k)
      → within P v (get_elem? b j) tolerance ≡ true
      → has_pair (i + k) j (pairs_from P near_a b tolerance i vs (nearest_in P b vs)) ≡ true
  unfolding pairs_from nearest_in
  pairs_from-has near_a b tolerance i k j [] v e n m t = cc
  pairs_from-has near_a b tolerance i zero j (x ∷ vs) v e n m t =
      let here : x ≡ v = some_inj _ _ e in
      let at_j : nearest_index P b x ≡ j = ap (nearest_index P b) here ∙ n in
      let back : points_back P (get_elem? near_a (nearest_index P b x)) i ≡ true =
        ap (λ q. points_back P (get_elem? near_a q) i) at_j
        ∙ ap (λ q. points_back P q i) m
        ∙ (ground arith) in
      let close : within P x (get_elem? b (nearest_index P b x)) tolerance ≡ true =
        ap (λ q. within P x (get_elem? b q) tolerance) at_j
        ∙ ap (λ y. within P y (get_elem? b j) tolerance) here
        ∙ t in
      rw back (rw close (ground (arith, at_j)))
  pairs_from-has near_a b tolerance i (suc k) j (x ∷ vs) v e n m t =
      let next : suc i + k ≡ i + suc k = omega arith in
      let rest = pairs_from P near_a b tolerance (suc i) vs (nearest_in P b vs) in
      let more : has_pair (i + suc k) j rest ≡ true =
        subst (λ q. has_pair q j rest ≡ true) next
          (pairs_from-has near_a b tolerance (suc i) k j vs v e n (m ∙ ap (λ q. some q) (sym next))
            t) in
      any_branch (points_back P (get_elem? near_a (nearest_index P b x)) i)
        (within P x (get_elem? b (nearest_index P b x)) tolerance) rest more
    where
      any_branch :
          (c d : Bool) (rest : List (ℕ × ℕ))
          → has_pair (i + suc k) j rest ≡ true
          → has_pair
              (i + suc k)
              j
              (if not c then rest else if not d then rest else (i, nearest_index P b x) ∷ rest)
            ≡ true
      any_branch true true rest h = ground (arith, h)
      any_branch true false rest h = h
      any_branch false d rest h = h

  -- For the points of two result sets in ascending order, and what float64 promises of finite numbers. The pairs
  -- share no point and come in the order of the first set. In each of them no point of the other set is nearer
  -- to either point, and the two are no farther apart than the tolerance. Every two points that are within the
  -- tolerance, and each of which is strictly the nearest of its set to the other, are a pair.
  pub pair_nearest_lem :
      (a b : List At) (tolerance : At)
      → Ascends P o a
      → Ascends P o b
      → Apart (pair_nearest P a b tolerance)
        × All (ArePartners a b tolerance) (pair_nearest P a b tolerance)
        × ((i j : ℕ) (v w : At)
            → get_elem? a i ≡ some v
            → get_elem? b j ≡ some w
            → IsStrictlyNearest b v j w
            → IsStrictlyNearest a w i v
            → Positions.le P (distance P o v w) tolerance ≡ true
            → has_pair i j (pair_nearest P a b tolerance) ≡ true)
  pair_nearest_lem a b tolerance up_a up_b =
      let (apart, partners) = pair_nearest-Apart P a b tolerance in
      (
        apart,
        All-map_to (AreMutual P a b tolerance) (ArePartners a b tolerance)
            (pair_nearest P a b tolerance) (mutual-ArePartners a b tolerance up_a up_b) partners,
        (λ i j v w e f s t c. made i j v w e f s t c),
      )
    where
      made :
          (i j : ℕ) (v w : At)
          → get_elem? a i ≡ some v
          → get_elem? b j ≡ some w
          → IsStrictlyNearest b v j w
          → IsStrictlyNearest a w i v
          → Positions.le P (distance P o v w) tolerance ≡ true
          → has_pair i j (pair_nearest P a b tolerance) ≡ true
      made i j v w e f s t c =
          ap (has_pair i j)
            (pairs_made a b tolerance (get_bound P o a i v e) (get_bound P o b j w f))
          ∙ ap
              (λ q.
                has_pair q j (pairs_from P (nearest_in P a b) b tolerance 0 a (nearest_in P b a)))
              (omega arith)
          ∙ pairs_from-has (nearest_in P a b) b tolerance 0 i j a v e
              (strictly-nearest_index b v w j up_b f s)
              (nearest_in-get a b j w f
                ∙ ap (λ q. some q) (strictly-nearest_index a w v i up_a e t ∙ (omega arith)))
              (ap (λ q. within P v q tolerance) f ∙ within-distance P o v w tolerance ∙ c)
