-- ===== src/Web/Pairs/Tests.antt =====
-- Pairing of internal/web/compare.go, with integers for the floating-point numbers.
use torpeek.Prelude.{ℕ, ◌≡◌, refl, true, List, [], ◌∷◌, All, get_elem?, some, arith}
use torpeek.Prelude.Int.{ℤ, pos, ltb_ℤ, leb_ℤ, ◌-ℤ◌}
use torpeek.Web.Pairs.{Positions, pair_nearest}
use torpeek.Web.Pairs.Laws.{Apart}
use torpeek.Web.Pairs.Nearest.{IsOrdered, distance}
use torpeek.Web.Pairs.Matching.{has_pair, ArePartners, IsStrictlyNearest, pair_nearest_lem}

abbrev whole : Positions
whole = record {
  Position = ℤ;
  nought = pos 0;
  sub = λ a b. a -ℤ b;
  neg = λ a. pos 0 -ℤ a;
  lt = ltb_ℤ;
  le = leb_ℤ;
}

abbrev left : List ℤ
left = pos 10 ∷ pos 20 ∷ pos 30 ∷ []

abbrev right : List ℤ
right = pos 12 ∷ pos 29 ∷ pos 60 ∷ []

-- The point at 20 has 12 for its nearest, which is nearer to 10.
pairs_made : pair_nearest whole left right (pos 3) ≡ (0, 0) ∷ (2, 1) ∷ []
unfolding pair_nearest
pairs_made = refl

whole-IsOrdered : IsOrdered whole
whole-IsOrdered = record {
  total = λ a b. ground arith;
  trans = λ a b c h k. ground arith;
  lt_le = λ a b. ground arith;
  sub_left = λ a b c h. ground arith;
  sub_right = λ a b c h. ground arith;
  sign = λ a b. ground arith;
  neg_sub = λ a b. (ground arith, ground arith);
}

pair_nearest_lem_example :
    Apart (pair_nearest whole left right (pos 3))
    × All
        (ArePartners whole whole-IsOrdered left right (pos 3))
        (pair_nearest whole left right (pos 3))
    × ((i j : ℕ) (v w : ℤ)
        → get_elem? left i ≡ some v
        → get_elem? right j ≡ some w
        → IsStrictlyNearest whole whole-IsOrdered right v j w
        → IsStrictlyNearest whole whole-IsOrdered left w i v
        → leb_ℤ (distance whole whole-IsOrdered v w) (pos 3) ≡ true
        → has_pair i j (pair_nearest whole left right (pos 3)) ≡ true)
pair_nearest_lem_example =
    pair_nearest_lem whole whole-IsOrdered left right (pos 3)
      ((refl, (refl, tt)), ((refl, tt), (tt, tt))) ((refl, (refl, tt)), ((refl, tt), (tt, tt)))
