-- ===== src/Core/Stall.antt =====
-- The codes of internal/core/errors.go and the stall clock of internal/core/events.go: why a file makes no
-- progress, and since when. Times are readings of the clock, in nanoseconds.
mod Streak
mod Tests
use torpeek.Prelude.{
  ℕ, Bool, true, false, not, ◌&&◌, ◌||◌, ◌==◌, List, [], ◌∷◌, if◌then◌else◌, Option, none, some,
}
use torpeek.Prelude.Int.{ℤ, ◌-ℤ◌}

pub data ErrorCode : Type 0 where
  no_metadata no_peers privacy_unresolvable no_port_available torrent_busy no_video : ErrorCode
  no_file_match unprobeable read_stalled unavailable decode_failed seek_failed : ErrorCode
  tool_missing budget_exhausted traffic_roof cancelled storage internal : ErrorCode

-- A number for each code, by which codes are compared.
abbrev pub code_number : ErrorCode → ℕ
code_number no_metadata = 0
code_number no_peers = 1
code_number privacy_unresolvable = 2
code_number no_port_available = 3
code_number torrent_busy = 4
code_number no_video = 5
code_number no_file_match = 6
code_number unprobeable = 7
code_number read_stalled = 8
code_number unavailable = 9
code_number decode_failed = 10
code_number seek_failed = 11
code_number tool_missing = 12
code_number budget_exhausted = 13
code_number traffic_roof = 14
code_number cancelled = 15
code_number storage = 16
code_number internal = 17

abbrev pub same_code : ErrorCode → ErrorCode → Bool
same_code c d = code_number c == code_number d

pub record Stall : Type 0 where
  pub code : ErrorCode
  pub since : ℤ

-- The empty code is `none`, and so is the zero time.
pub record StallClock : Type 0 where
  pub code : Option ErrorCode
  pub start_at : Option ℤ

abbrev pub new_clock : StallClock
new_clock = record { code = none; start_at = none }

abbrev pub runs_for : StallClock → ErrorCode → Option ℤ
runs_for c code = elim c.code [
  | none ↦ none
  | some d ↦ if same_code code d then c.start_at else none
]

unfoldable pub observe : StallClock → ℤ → Option ErrorCode → StallClock × Option Stall
observe c now none = (record c { code = none }, none)
observe c now (some code) = elim (runs_for c code) [
  | some start ↦ (c, some (record { code = code; since = now -ℤ start }))
  | none ↦ (
    record { code = some code; start_at = some now },
    some (record { code = code; since = now -ℤ now }),
  )
]

-- A code is always set along with the time it starts from.
unfoldable pub peek : StallClock → ℤ → Option Stall
peek c now = elim c.code [
  | none ↦ none
  | some code ↦ elim c.start_at [
    | none ↦ none
    | some start ↦ some (record { code = code; since = now -ℤ start })
  ]
]

unfoldable pub classify_point_failure : ErrorCode → ℕ → Option ErrorCode
classify_point_failure unavailable peers = if peers == 0 then some no_peers else some unavailable
classify_point_failure read_stalled peers = if peers == 0 then some no_peers else some read_stalled
classify_point_failure no_metadata peers = none
classify_point_failure no_peers peers = none
classify_point_failure privacy_unresolvable peers = none
classify_point_failure no_port_available peers = none
classify_point_failure torrent_busy peers = none
classify_point_failure no_video peers = none
classify_point_failure no_file_match peers = none
classify_point_failure unprobeable peers = none
classify_point_failure decode_failed peers = none
classify_point_failure seek_failed peers = none
classify_point_failure tool_missing peers = none
classify_point_failure budget_exhausted peers = none
classify_point_failure traffic_roof peers = none
classify_point_failure cancelled peers = none
classify_point_failure storage peers = none
classify_point_failure internal peers = none

-- The clock after a file's verdicts, the latest of them first.
unfoldable pub observe_all : List (ℤ × Option ErrorCode) → StallClock
unfolding observe
observe_all [] = new_clock
observe_all ((now, code) ∷ earlier) = (observe (observe_all earlier) now code).0
