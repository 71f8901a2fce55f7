-- ===== src/Core/Stall/Tests.antt =====
-- A file that waits for peers, then for pieces: the stall clock of internal/core/events.go.
use torpeek.Prelude.{◌≡◌, refl, List, [], ◌∷◌, Option, none, some}
use torpeek.Prelude.Int.{ℤ, pos, ◌-ℤ◌}
use torpeek.Core.Stall.{ErrorCode, peek, observe_all, classify_point_failure, observe}
use torpeek.Core.Stall.Streak.{streak_start, observe_all_lem}

abbrev waited : List (ℤ × Option ErrorCode)
waited =
    (pos 7, some ErrorCode.unavailable)
    ∷ (pos 5, some ErrorCode.unavailable)
    ∷ (pos 3, some ErrorCode.no_peers)
    ∷ []

since_five :
    peek (observe_all waited) (pos 9)
    ≡ some (record { code = ErrorCode.unavailable; since = pos 4 })
unfolding peek observe_all observe
since_five = refl

nobody_there : classify_point_failure ErrorCode.read_stalled 0 ≡ some ErrorCode.no_peers
unfolding classify_point_failure
nobody_there = refl

observe_all_lem_example :
    peek (observe_all ((pos 8, some ErrorCode.unavailable) ∷ waited)) (pos 9)
    ≡ some (record {
      code = ErrorCode.unavailable;
      since = pos 9 -ℤ (elim (streak_start ErrorCode.unavailable waited) [
        | some start ↦ start
        | none ↦ pos 8
      ]);
    })
observe_all_lem_example = observe_all_lem (pos 9) (pos 8) (some ErrorCode.unavailable) waited
