-- ===== src/Core/Capture.antt =====
-- One capture point of internal/core/engine.go: where to try, and what is taken. ffprobe and ffmpeg are
-- arguments that answer a place or a frame, and so is the float64 estimate of an offset; times are
-- integers, counted in nanoseconds.
mod Nearest
mod Taking
pub mod Blank
mod Tests
use torpeek.Prelude.{
  ℕ, zero, suc, ◌+◌, ◌*◌, Bool, true, false, not, ◌&&◌, ◌||◌, List, [], ◌∷◌, ◌++◌, ◌==◌, ltb,
  if◌then◌else◌, Option, none, some,
}
use torpeek.Prelude.Int.{ℤ, pos, ltb_ℤ, leb_ℤ, ◌+ℤ◌, ◌-ℤ◌, ◌*ℤ◌}
use torpeek.Swarm.Torrent.{FileInfo}
use torpeek.Swarm.Availability.{Availability, known, over_file_range}

abbrev pub max_shift : ℕ
max_shift = 2

abbrev pub reach_start : ℕ
reach_start = 2

-- The candidate alone, if it lies inside the film.
abbrev pub keep : ℤ → ℤ → List ℤ
keep duration c =
    if ltb_ℤ (pos 0) c && (leb_ℤ duration (pos 0) || ltb_ℤ c duration) then c ∷ [] else []

-- The loop from the `n`th distance on, with the rounds left.
unfoldable pub candidates_from : ℤ → ℤ → ℤ → ℕ → ℕ → List ℤ
candidates_from at step duration n zero = []
candidates_from at step duration n (suc k) =
    keep duration (at +ℤ (pos n *ℤ step))
    ++ (keep duration (at -ℤ (pos n *ℤ step)) ++ candidates_from at step duration (n + 1) k)

unfoldable pub shift_candidates : ℤ → ℤ → ℤ → List ℤ
unfolding candidates_from
shift_candidates at step duration =
    if leb_ℤ step (pos 0) then at ∷ [] else at ∷ candidates_from at step duration 1 max_shift

-- `estimate` is the offset of a time in a file of that length, and `window` the profile's window.
unfoldable pub reachable : (ℕ → ℤ → ℤ → ℤ) → ℕ → Availability → FileInfo → ℤ → ℤ → Bool
unfolding known over_file_range
reachable estimate window a f duration at =
    let pieces = a.piece_length * reach_start in
    let span = if pieces == 0 then window else pieces in
    if not (known a) || leb_ℤ duration (pos 0) || f.length == 0
    then true
    else ltb 0 (over_file_range a f (estimate f.length at duration) (pos span))

-- Why a frame is not from where it was asked for.
pub data ShiftReason : Type 0 where
  shift_none shift_unavailable shift_blank : ShiftReason

pub record Capture : Type 0 where
  pub frame : ℕ
  pub asked : ℤ
  pub actual : ℤ
  pub shift : ShiftReason

pub data Taken : Type 0 where
  taken : Capture → Taken
  tool_failed unavailable : Taken

abbrev pub differs : ℤ → ℤ → Bool
differs a b = ltb_ℤ a b || ltb_ℤ b a

abbrev pub shift_of : ℤ → ℤ → ShiftReason
shift_of c at = if differs c at then shift_unavailable else shift_none

-- The frame at a candidate that can be reached.
unfoldable pub take : (ℤ → Option ℤ) → (ℤ → Option ℕ) → ℤ → ℤ → Taken
take keyframe_at frame_at at c = elim (keyframe_at c) [
  | none ↦ tool_failed
  | some pts ↦ elim (frame_at pts) [
    | none ↦ tool_failed
    | some frame ↦ taken (record { frame = frame; asked = c; actual = pts; shift = shift_of c at })
  ]
]

unfoldable pub capture_from : (ℤ → Bool) → (ℤ → Option ℤ) → (ℤ → Option ℕ) → ℤ → List ℤ → Taken
unfolding take
capture_from reach keyframe_at frame_at at [] = unavailable
capture_from reach keyframe_at frame_at at (c ∷ cs) =
    let rest = capture_from reach keyframe_at frame_at at cs in
    if reach c then take keyframe_at frame_at at c else rest

unfoldable pub capture_one :
    (ℕ → ℤ → ℤ → ℤ)
    → ℕ
    → Availability
    → (ℤ → Option ℤ)
    → (ℤ → Option ℕ)
    → FileInfo
    → ℤ
    → ℤ
    → ℤ
    → Taken
unfolding capture_from shift_candidates
capture_one estimate window a keyframe_at frame_at f duration at step =
    capture_from (reachable estimate window a f duration) keyframe_at frame_at at
      (shift_candidates at step duration)
