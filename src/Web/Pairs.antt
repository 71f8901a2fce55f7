-- ===== src/Web/Pairs.antt =====
-- Pairing the capture points of two result sets, internal/web/compare.go: pairNearest with nearestIndex and abs. What
-- float64 answers is an argument.
pub mod Laws
pub mod Nearest
pub mod Matching
mod Tests
use torpeek.Prelude.{
  ℕ, zero, suc, ◌+◌, ◌-◌, ◌/◌, Bool, true, false, ◌&&◌, ◌||◌, not, List, [], ◌∷◌, ◌==◌, leb, ltb,
  if◌then◌else◌, Option, none, some, length, get_elem?,
}

-- The floating-point operations that the pairing uses.
pub record Positions : Type 1 where
  pub Position : Type 0
  pub nought : Position
  pub sub : Position → Position → Position
  pub neg : Position → Position
  pub lt : Position → Position → Bool
  pub le : Position → Position → Bool

-- The loop of `sort.Search`: each round leaves less than the whole of the stretch from `i` to `j`.
unfoldable pub search : ℕ → (ℕ → Bool) → ℕ → ℕ → ℕ
search zero holds i j = i
search (suc fuel) holds i j = elim (ltb i j) [
  | true ↦ elim (holds ((i + j) / 2)) [
    | true ↦ search fuel holds i ((i + j) / 2)
    | false ↦ search fuel holds ((i + j) / 2 + 1) j
  ]
  | false ↦ i
]

module _ (P : Positions) where
  unfoldable pub abs : Positions.Position P → Positions.Position P
  abs v = if Positions.lt P v (Positions.nought P) then Positions.neg P v else v

  abbrev pub reaches : Positions.Position P → Option (Positions.Position P) → Bool
  reaches v none = false
  reaches v (some w) = Positions.le P v w

  abbrev pub not_farther :
      Positions.Position P → Option (Positions.Position P) → Option (Positions.Position P) → Bool
  not_farther v (some w) (some x) = Positions.le P (Positions.sub P v w) (Positions.sub P x v)
  not_farther v none x = false
  not_farther v (some w) none = false

  unfoldable pub nearest_index : List (Positions.Position P) → Positions.Position P → ℕ
  unfolding search
  nearest_index sorted v =
      let n = length sorted in
      let i = search n (λ k. reaches v (get_elem? sorted k)) 0 n in
      if i == 0
      then 0
      else if i == n
      then n - 1
      else if not_farther v (get_elem? sorted (i - 1)) (get_elem? sorted i)
      then i - 1
      else i

  -- `nearestInA` or `nearestInB`.
  unfoldable pub nearest_in : List (Positions.Position P) → List (Positions.Position P) → List ℕ
  unfolding nearest_index
  nearest_in sorted [] = []
  nearest_in sorted (v ∷ vs) = nearest_index sorted v ∷ nearest_in sorted vs

  abbrev pub points_back : Option ℕ → ℕ → Bool
  points_back none i = false
  points_back (some k) i = k == i

  abbrev pub within :
      Positions.Position P → Option (Positions.Position P) → Positions.Position P → Bool
  within v none tolerance = false
  within v (some w) tolerance = not (Positions.lt P tolerance (abs (Positions.sub P v w)))

  -- The loop from index `i` on, over what is left of `a` and of `nearestInB`.
  unfoldable pub pairs_from :
      List ℕ
      → List (Positions.Position P)
      → Positions.Position P
      → ℕ
      → List (Positions.Position P)
      → List ℕ
      → List (ℕ × ℕ)
  unfolding abs
  pairs_from near_a b tolerance i [] js = []
  pairs_from near_a b tolerance i (v ∷ vs) [] = []
  pairs_from near_a b tolerance i (v ∷ vs) (j ∷ js) =
      let rest = pairs_from near_a b tolerance (suc i) vs js in
      if not (points_back (get_elem? near_a j) i)
      then rest
      else if not (within v (get_elem? b j) tolerance)
      then rest
      else (i, j) ∷ rest

  unfoldable pub pair_nearest :
      List (Positions.Position P)
      → List (Positions.Position P)
      → Positions.Position P
      → List (ℕ × ℕ)
  unfolding nearest_in pairs_from
  pair_nearest a b tolerance =
      if length a == 0 || length b == 0
      then []
      else pairs_from (nearest_in a b) b tolerance 0 a (nearest_in b a)
