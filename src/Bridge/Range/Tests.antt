-- ===== src/Bridge/Range/Tests.antt =====
-- internal/bridge/httprange.go on a resource of ten bytes.
use torpeek.Prelude.{ℕ, ◌≡◌, refl, List, [], ◌∷◌, ◌++◌}
use torpeek.Bridge.Range.{resolved, malformed, unsatisfiable, bytes_unit, parse_range}

-- "bytes=-3", "bytes= 4 -100", "bytes=5-2" and "bytes=10-".
abbrev last_three : List ℕ
last_three = bytes_unit ++ (45 ∷ 51 ∷ [])

abbrev from_four : List ℕ
from_four = bytes_unit ++ (32 ∷ 52 ∷ 32 ∷ 45 ∷ 49 ∷ 48 ∷ 48 ∷ [])

abbrev backwards : List ℕ
backwards = bytes_unit ++ (53 ∷ 45 ∷ 50 ∷ [])

abbrev past_end : List ℕ
past_end = bytes_unit ++ (49 ∷ 48 ∷ 45 ∷ [])

last_three_resolved : parse_range last_three 10 ≡ resolved (record { start = 7; length = 3 })
unfolding parse_range
last_three_resolved = refl

from_four_resolved : parse_range from_four 10 ≡ resolved (record { start = 4; length = 6 })
unfolding parse_range
from_four_resolved = refl

backwards_refused : parse_range backwards 10 ≡ malformed
unfolding parse_range
backwards_refused = refl

past_end_refused : parse_range past_end 10 ≡ unsatisfiable
unfolding parse_range
past_end_refused = refl
