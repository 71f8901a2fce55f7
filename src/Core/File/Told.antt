-- ===== src/Core/File/Told.antt =====
-- What `processFile`, internal/core/engine.go, says of a capture point: in its record and by an event.
use torpeek.Prelude.{
  ℕ, ◌+◌, ◌≡◌, refl, Bool, true, false, List, [], ◌∷◌, ◌++◌, if◌then◌else◌, Option, none, some, ◌⊎◌,
  ap,
}
use torpeek.Prelude.Int.{ℤ, pos}
use torpeek.Core.Stall.{ErrorCode}
use torpeek.Core.File.{Frame, Shift, marked, failed, milliseconds, is_failed, is_some}
use torpeek.Core.File.Point.{Event, frame_ready, frame_skipped, budget_warning, progress}

-- What is said of a point: its index, where the frame came from, its path and size, and the code of
-- its failure.
pub record Told : Type 0 where
  pub index : ℤ
  pub shift : Shift
  pub path : List ℕ
  pub size : ℕ × ℕ
  pub error : Option ErrorCode

abbrev pub failure : Shift → Option ErrorCode → Option ErrorCode
failure (marked reason) e = none
failure failed e = e

abbrev pub told_of : Frame → Told
told_of r = record {
  index = r.index;
  shift = r.shift;
  path = r.path;
  size = r.size;
  error = failure r.shift r.error;
}

-- What the events say of points, in order.
abbrev pub announced : List Event → List Told
announced [] = []
announced (frame_ready e ∷ es) =
    record { index = pos e.index; shift = e.shift; path = e.path; size = e.size; error = none }
    ∷ announced es
announced (frame_skipped i at code ∷ es) =
    record { index = pos i; shift = failed; path = []; size = (0, 0); error = some code }
    ∷ announced es
announced (budget_warning w ∷ es) = announced es
announced (progress done total stall ∷ es) = announced es

pub announced-append : (xs ys : List Event) → announced (xs ++ ys) ≡ announced xs ++ announced ys
announced-append [] ys = refl
announced-append (frame_ready e ∷ xs) ys =
    ap
      (λ zs.
        record { index = pos e.index; shift = e.shift; path = e.path; size = e.size; error = none }
        ∷ zs)
      (announced-append xs ys)
announced-append (frame_skipped i at code ∷ xs) ys =
    ap
      (λ zs.
        record { index = pos i; shift = failed; path = []; size = (0, 0); error = some code } ∷ zs)
      (announced-append xs ys)
announced-append (budget_warning w ∷ xs) ys = announced-append xs ys
announced-append (progress done total stall ∷ xs) ys = announced-append xs ys

-- The record of the point `i` at that time: with a frame, or with the code of its failure and nothing else.
abbrev pub RecordOf : ℕ → ℤ → Frame → Type 0
RecordOf i at r =
    (r.index ≡ pos i)
    × (r.requested_ms ≡ milliseconds at)
    × (((is_failed r.shift ≡ false) × (is_some r.actual_ms ≡ true))
        ⊎ ((is_failed r.shift ≡ true)
            × (r.actual_ms ≡ none)
            × (r.path ≡ [])
            × (r.size ≡ (0, 0))
            × ((code : ErrorCode) × (r.error ≡ some code))))

-- The last record counts as a frame or as a failure.
abbrev pub Counted : Bool → ℕ → ℕ → ℕ → ℕ → Type 0
Counted lost produced skipped produced' skipped' =
    if lost
    then ((produced' ≡ produced) × (skipped' ≡ skipped + 1))
    else ((produced' ≡ produced + 1) × (skipped' ≡ skipped))

-- An earlier frame that is of the point.
abbrev pub IsReused : ℕ → ℤ → Frame → Type 0
IsReused i at r =
    (r.index ≡ pos i)
    × (r.requested_ms ≡ milliseconds at)
    × (is_failed r.shift ≡ false)
    × (is_some r.actual_ms ≡ true)

-- A frame has no failure to tell of.
pub told-marked : (sh : Shift) (e : Option ErrorCode) → is_failed sh ≡ false → failure sh e ≡ none
told-marked (marked reason) e h = refl
told-marked failed e h = cc
