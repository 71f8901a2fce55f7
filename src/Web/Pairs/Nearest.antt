-- ===== src/Web/Pairs/Nearest.antt =====
-- `nearestIndex` of internal/web/compare.go is the index of a nearest value, by what float64 promises of finite numbers.
use torpeek.Prelude.{
  ℕ, zero, suc, ◌-◌, ◌≤◌, ◌<◌, ◌≡◌, refl, sym, ap, ◌∙◌, subst, true, false, not, ◌||◌, List, [],
  ◌∷◌, ◌==◌, leb, if◌then◌else◌, some, some_inj, arith, Bool-cases, inl, inr, ==_iff, All,
  All-get_elem?, length, get_elem?,
}
use torpeek.Web.Pairs.{Positions, abs, reaches, not_farther, nearest_index, within}
use torpeek.Web.Pairs.Laws.{Found, search-Found}

-- What holds of finite float64 numbers whose differences are finite: they are ordered, a difference grows with its
-- first operand and falls with its second, it is below zero just when the first operand is below the second, and
-- its negation is the difference of the operands exchanged, as far as `<=` can tell.
pub record IsOrdered (P : Positions) : Type 0 where
  pub total : (a b : Positions.Position P) → (Positions.le P a b || Positions.le P b a) ≡ true
  pub trans :
      (a b c : Positions.Position P)
      → Positions.le P a b ≡ true
      → Positions.le P b c ≡ true
      → Positions.le P a c ≡ true
  pub lt_le : (a b : Positions.Position P) → Positions.lt P a b ≡ not (Positions.le P b a)
  pub sub_left :
      (a b c : Positions.Position P)
      → Positions.le P a b ≡ true
      → Positions.le P (Positions.sub P a c) (Positions.sub P b c) ≡ true
  pub sub_right :
      (a b c : Positions.Position P)
      → Positions.le P a b ≡ true
      → Positions.le P (Positions.sub P c b) (Positions.sub P c a) ≡ true
  pub sign :
      (a b : Positions.Position P)
      → Positions.lt P (Positions.sub P a b) (Positions.nought P) ≡ Positions.lt P a b
  pub neg_sub :
      (a b : Positions.Position P)
      → (Positions.le P (Positions.neg P (Positions.sub P a b)) (Positions.sub P b a) ≡ true)
        × (Positions.le P (Positions.sub P b a) (Positions.neg P (Positions.sub P a b)) ≡ true)

module _ (P : Positions) (o : IsOrdered P) where
  abbrev At : Type 0
  At = Positions.Position P

  -- How far apart two positions are: the larger less the smaller.
  abbrev pub distance : At → At → At
  distance v w = if Positions.le P w v then Positions.sub P v w else Positions.sub P w v

  -- No value is followed by a smaller one.
  abbrev pub Ascends : List At → Type 0
  Ascends [] = Unit
  Ascends (x ∷ xs) = All (λ y. Positions.le P x y ≡ true) xs × Ascends xs

  -- The value at `j` is as near to `v` as any.
  abbrev pub IsNearest : List At → At → ℕ → Type 0
  IsNearest xs v j =
      (w : At) × (get_elem? xs j ≡ some w)
      × ((k : ℕ) (x : At)
          → get_elem? xs k ≡ some x
          → Positions.le P (distance v w) (distance v x) ≡ true)

  same_le : (a : At) → Positions.le P a a ≡ true
  same_le a = ground (arith, o.total a a)

  below : (a b : At) → Positions.le P a b ≡ false → Positions.le P b a ≡ true
  below a b n = ground (arith, o.total a b, n)

  distance-left : (v w : At) → Positions.le P w v ≡ true → distance v w ≡ Positions.sub P v w
  distance-left v w y = rw y refl

  -- With the second value at least as large, the distance is their difference the other way.
  distance-right :
      (v w : At)
      → Positions.le P v w ≡ true
      → (Positions.le P (distance v w) (Positions.sub P w v) ≡ true)
        × (Positions.le P (Positions.sub P w v) (distance v w) ≡ true)
  distance-right v w h = elim (Bool-cases (Positions.le P w v)) [
    | inr n ↦ rw n (same_le (Positions.sub P w v), same_le (Positions.sub P w v))
    | inl y ↦ rw y (
      o.trans _ (Positions.sub P w w) _ (o.sub_left v w w h) (o.sub_right v w w h),
      o.trans _ (Positions.sub P v v) _ (o.sub_left w v v y) (o.sub_right w v v y),
    )
  ]

  far_left :
      (v w x : At)
      → Positions.le P w v ≡ true
      → Positions.le P x w ≡ true
      → Positions.le P (distance v w) (distance v x) ≡ true
  far_left v w x h k =
      rw (distance-left v w h) (rw (distance-left v x (o.trans x w v k h)) (o.sub_right x w v k))

  far_right :
      (v w x : At)
      → Positions.le P v w ≡ true
      → Positions.le P w x ≡ true
      → Positions.le P (distance v w) (distance v x) ≡ true
  far_right v w x h k =
      o.trans _ _ _ (distance-right v w h).0
        (o.trans _ _ _ (o.sub_left w x v k) (distance-right v x (o.trans v w x h k)).1)

  -- What `abs` makes of a difference is the distance.
  abs-distance :
      (v w : At)
      → (Positions.le P (abs P (Positions.sub P v w)) (distance v w) ≡ true)
        × (Positions.le P (distance v w) (abs P (Positions.sub P v w)) ≡ true)
  unfolding abs
  abs-distance v w = elim (Bool-cases (Positions.le P w v)) [
    | inl y ↦
        let e : Positions.lt P (Positions.sub P v w) (Positions.nought P) ≡ false =
          o.sign v w ∙ o.lt_le v w ∙ ap not y in
        rw (e, y) (same_le (Positions.sub P v w), same_le (Positions.sub P v w))
    | inr n ↦
        let e : Positions.lt P (Positions.sub P v w) (Positions.nought P) ≡ true =
          o.sign v w ∙ o.lt_le v w ∙ ap not n in
        rw (e, n) (o.neg_sub v w)
  ]

  pub within-distance :
      (v w tolerance : At) → within P v (some w) tolerance ≡ Positions.le P (distance v w) tolerance
  within-distance v w tolerance =
      let (near, far) = abs-distance v w in
      ground (
        arith,
        o.lt_le tolerance (abs P (Positions.sub P v w)),
        o.trans (distance v w) (abs P (Positions.sub P v w)) tolerance far,
        o.trans (abs P (Positions.sub P v w)) (distance v w) tolerance near,
      )

  get_in : (xs : List At) (k : ℕ) → k < length xs → (x : At) × (get_elem? xs k ≡ some x)
  get_in [] k h = let never : ⊥ = omega (arith, h) in elim never [ ]
  get_in (x ∷ xs) zero h = (x, refl)
  get_in (x ∷ xs) (suc k) h = get_in xs k (omega (arith, h))

  pub get_bound : (xs : List At) (k : ℕ) (x : At) → get_elem? xs k ≡ some x → k < length xs
  get_bound [] k x e = cc
  get_bound (y ∷ ys) zero x e = omega arith
  get_bound (y ∷ ys) (suc k) x e = omega (arith, get_bound ys k x e)

  ascending :
      (xs : List At) (i j : ℕ) (x y : At)
      → Ascends xs
      → i ≤ j
      → get_elem? xs i ≡ some x
      → get_elem? xs j ≡ some y
      → Positions.le P x y ≡ true
  ascending [] i j x y a h e f = cc
  ascending (z ∷ zs) zero zero x y a h e f =
      subst (λ u. Positions.le P x u ≡ true) (some_inj _ _ (sym e ∙ f)) (same_le x)
  ascending (z ∷ zs) zero (suc j) x y a h e f =
      subst (λ u. Positions.le P u y ≡ true) (some_inj _ _ e)
        (All-get_elem? (λ u. Positions.le P z u ≡ true) zs j f a.0)
  ascending (z ∷ zs) (suc i) zero x y a h e f = let never : ⊥ = omega (arith, h) in elim never [ ]
  ascending (z ∷ zs) (suc i) (suc j) x y a h e f = ascending zs i j x y a.1 (omega (arith, h)) e f

  module _ (xs : List At) (v : At) (a : Ascends xs) (full : 0 < length xs) where
    -- The index that is chosen once the search has ended at `r`.
    abbrev near_of : ℕ → ℕ
    near_of r =
        if r == 0
        then 0
        else if r == length xs
        then length xs - 1
        else if not_farther P v (get_elem? xs (r - 1)) (get_elem? xs r)
        then r - 1
        else r

    abbrev Nears : At → Type 0
    Nears w =
        (k : ℕ) (x : At)
        → get_elem? xs k ≡ some x
        → Positions.le P (distance v w) (distance v x) ≡ true

    reached :
        (r : ℕ) (x : At)
        → get_elem? xs r ≡ some x
        → reaches P v (get_elem? xs r) ≡ Positions.le P v x
    reached r x e = ap (reaches P v) e

    -- The search ended before the first value.
    at_start : (w : At) → get_elem? xs 0 ≡ some w → Positions.le P v w ≡ true → Nears w
    at_start w e h k x f = far_right v w x h (ascending xs 0 k w x a (omega arith) e f)

    at_end : (w : At) → get_elem? xs (length xs - 1) ≡ some w → Positions.le P w v ≡ true → Nears w
    at_end w e h k x f =
        far_left v w x h
          (ascending xs k (length xs - 1) x w a (omega (arith, get_bound xs k x f)) f e)

    module _ (r : ℕ) (w x : At) (pos_r : 0 < r) (e : get_elem? xs (r - 1) ≡ some w)
        (f : get_elem? xs r ≡ some x) (h : Positions.le P w v ≡ true)
        (g : Positions.le P v x ≡ true) where
      -- Between a value on the left of `v` and one on its right, whichever is nearer is nearest.
      nearer_left : Positions.le P (Positions.sub P v w) (Positions.sub P x v) ≡ true → Nears w
      nearer_left c k y q = elim (Bool-cases (leb k (r - 1))) [
        | inl l ↦ far_left v w y h (ascending xs k (r - 1) y w a (ground arith) q e)
        | inr l ↦ rw (distance-left v w h) (
            o.trans _ _ _ c (
              o.trans _ _ _ (distance-right v x g).1
                (far_right v x y g (ascending xs r k x y a (ground arith) f q))))
      ]

      nearer_right : Positions.le P (Positions.sub P x v) (Positions.sub P v w) ≡ true → Nears x
      nearer_right c k y q = elim (Bool-cases (leb k (r - 1))) [
        | inr l ↦ far_right v x y g (ascending xs r k x y a (ground arith) f q)
        | inl l ↦ o.trans _ _ _ (distance-right v x g).0 (
            o.trans _ _ _ c (
              subst (λ d. Positions.le P d (distance v y) ≡ true) (distance-left v w h)
                (far_left v w y h (ascending xs k (r - 1) y w a (ground arith) q e))))
      ]

    near_of-IsNearest :
        (r : ℕ)
        → Found (λ k. reaches P v (get_elem? xs k)) 0 (length xs) r
        → IsNearest xs v (near_of r)
    near_of-IsNearest r (low, high, end, start) = elim (Bool-cases (r == 0)) [
      | inl y ↦
          let (w, e) = get_in xs 0 full in
          let zero_r : r ≡ 0 = (==_iff r 0).0 y in
          let holds : reaches P v (get_elem? xs r) ≡ true = elim end [
            | inl n ↦ let never : ⊥ = omega (arith, n, zero_r, full) in elim never [ ]
            | inr t ↦ t
          ] in
          rw y (
            w,
            e,
            at_start w e
                (sym (reached 0 w e) ∙ ap (λ k. reaches P v (get_elem? xs k)) (sym zero_r) ∙ holds),
          )
      | inr n ↦
          let more : 0 < r = ground (arith, n) in
          let (w, e) = get_in xs (r - 1) (omega arith) in
          let fails : reaches P v (get_elem? xs (r - 1)) ≡ false = elim start [
            | inl z ↦ let never : ⊥ = omega (arith, z, more) in elim never [ ]
            | inr t ↦ t
          ] in
          let left : Positions.le P w v ≡ true = below v w (sym (reached (r - 1) w e) ∙ fails) in
          elim (Bool-cases (r == length xs)) [
            | inl y ↦
                let all : r ≡ length xs = (==_iff r (length xs)).0 y in
                let e' : get_elem? xs (length xs - 1) ≡ some w =
                  ap (λ m. get_elem? xs (m - 1)) (sym all) ∙ e in
                rw n (rw y (w, e', at_end w e' left))
            | inr m ↦
                let inside : r < length xs = ground (arith, m, high) in
                let (x, f) = get_in xs r inside in
                let holds : reaches P v (get_elem? xs r) ≡ true = elim end [
                  | inl z ↦ let never : ⊥ = omega (arith, z, inside) in elim never [ ]
                  | inr t ↦ t
                ] in
                let right : Positions.le P v x ≡ true = sym (reached r x f) ∙ holds in
                let test : not_farther P v (get_elem? xs (r - 1)) (get_elem? xs r)
                    ≡ Positions.le P (Positions.sub P v w) (Positions.sub P x v) =
                  ap (λ u. not_farther P v u (get_elem? xs r)) e
                  ∙ ap (not_farther P v (some w)) f in
                elim (Bool-cases (Positions.le P (Positions.sub P v w) (Positions.sub P x v))) [
                  | inl c ↦
                      rw n (rw m (rw (test ∙ c) (w, e, nearer_left r w x more e f left right c)))
                  | inr c ↦ rw n (
                      rw m (
                        rw (test ∙ c) (x, f, nearer_right r w x more e f left right (below _ _ c))))
                ]
          ]
    ]

    pub nearest_index-IsNearest : IsNearest xs v (nearest_index P xs v)
    unfolding nearest_index
    nearest_index-IsNearest = near_of-IsNearest _ (
        search-Found (length xs) (λ k. reaches P v (get_elem? xs k)) 0 (length xs) (omega arith)
          (omega arith))
