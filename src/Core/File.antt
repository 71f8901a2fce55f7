-- ===== src/Core/File.antt =====
-- One file of a run, internal/core/engine.go: `processFile` takes the capture points one after another.
-- This module has the records of the frames, of internal/manifest/manifest.go, and what the loop over the
-- points asks once. Times are integers, counted in nanoseconds unless they are called milliseconds.
pub mod Point
pub mod Loop
pub mod Told
mod Advance
mod Reusable
pub mod Points
pub mod Filed
mod Ranges
mod Complete
pub mod Tests
use torpeek.Prelude.{
  ℕ, Bool, true, false, not, ◌&&◌, ◌||◌, ◌==◌, List, [], ◌∷◌, if◌then◌else◌, get_elem?, Option,
  none, some,
}
use torpeek.Prelude.Int.{ℤ, pos, negsuc, ltb_ℤ, leb_ℤ, ◌+ℤ◌, ◌-ℤ◌, quot_ℤ}
use torpeek.Core.Stall.{ErrorCode}
use torpeek.Core.Capture.{ShiftReason, differs}
use torpeek.Core.Capture.Blank.{min_seek_tolerance}

-- A frame came from where it was asked for or was moved there, or the point failed.
pub data Shift : Type 0 where
  marked : ShiftReason → Shift
  failed : Shift

-- `size` is the width and the height. A path is the list of its runes, and the empty path is none.
pub record Frame : Type 0 where
  pub index : ℤ
  pub requested_ms : ℤ
  pub actual_ms : Option ℤ
  pub path : List ℕ
  pub shift : Shift
  pub size : ℕ × ℕ
  pub error : Option ErrorCode
  pub byte_ranges : List (ℕ × ℕ)

abbrev pub milliseconds : ℤ → ℤ
milliseconds d = quot_ℤ d 1000000

unfoldable pub seek_tolerance : List ℤ → ℤ
seek_tolerance [] = pos min_seek_tolerance
seek_tolerance (p ∷ []) = pos min_seek_tolerance
seek_tolerance (p ∷ q ∷ ps) =
    let spacing = q -ℤ p in
    if ltb_ℤ spacing (pos min_seek_tolerance) then pos min_seek_tolerance else spacing

-- A second of slack forward.
unfoldable pub landed_near : ℤ → ℤ → ℤ → Bool
landed_near requested actual tolerance =
    if ltb_ℤ (requested +ℤ pos 1000000000) actual
    then false
    else leb_ℤ (requested -ℤ actual) tolerance

abbrev pub is_failed : Shift → Bool
is_failed (marked reason) = false
is_failed failed = true

abbrev pub is_empty : List ℕ → Bool
is_empty [] = true
is_empty (c ∷ cs) = false

abbrev pub is_some : Option ℤ → Bool
is_some (some x) = true
is_some none = false

-- The frame is of the point at that time, and `stored` says that its file is there and is not empty.
abbrev pub is_reusable : (List ℕ → Bool) → ℤ → Frame → Bool
is_reusable stored at f =
    not (is_failed f.shift)
    && is_some f.actual_ms
    && not (is_empty f.path)
    && not (differs f.requested_ms (milliseconds at))
    && stored f.path

abbrev pub point_of : List ℤ → ℤ → Option ℤ
point_of points (pos i) = get_elem? points i
point_of points (negsuc n) = none

abbrev pub is_at : ℤ → ℕ → Bool
is_at (pos j) i = j == i
is_at (negsuc n) i = false

-- The earlier frame that stands in for the point `i`: of several, the last one counts.
unfoldable pub reusable_frames : (List ℕ → Bool) → List ℤ → List Frame → ℕ → Option Frame
reusable_frames stored points [] i = none
reusable_frames stored points (f ∷ fs) i = elim (reusable_frames stored points fs i) [
  | some g ↦ some g
  | none ↦ elim (point_of points f.index) [
    | none ↦ none
    | some at ↦ if is_reusable stored at f && is_at f.index i then some f else none
  ]
]
