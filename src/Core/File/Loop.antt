-- ===== src/Core/File/Loop.antt =====
-- `processFile` of internal/core/engine.go: what comes before the loop over the capture points, the loop,
-- and what comes after it. The heartbeat that runs beside it is left out.
use torpeek.Prelude.{
  ℕ, ◌+◌, Bool, false, not, ◌&&◌, ◌||◌, List, [], ◌∷◌, ◌++◌, ◌==◌, if◌then◌else◌, length, Option,
  none, some,
}
use torpeek.Prelude.Int.{ℤ}
use torpeek.Swarm.Torrent.{FileInfo, Torrent}
use torpeek.Core.Budget.{Floats, BudgetTracker}
use torpeek.Core.Stall.{ErrorCode, new_clock}
use torpeek.Core.File.{Frame, seek_tolerance, reusable_frames}
use torpeek.Core.File.Point.{
  FilePlan, PointWorld, LoopState, Flow, goes_on, halts, storage_fails, reuse, take_point,
  point_code,
}

-- What ffprobe makes of the file: its duration, a container without one, or another failure.
pub data Inspected : Type 0 where
  inspected : ℤ → Inspected
  no_duration : Inspected
  inspect_failed : ErrorCode → Inspected

-- What the world answers for the file as a whole: why the bridge does not publish it, if so; ffprobe, and whether
-- its read ran out of time; the key frames found by reading on, of which there is at least one, and the
-- points of the plan for a duration; what each point is answered; and whether manifest and sheet are
-- written. `prior` is the manifest of an earlier run, and `stored` says that a path has a file.
pub record FileWorld : Type 0 where
  pub publish_error : Option ErrorCode
  pub inspect : Inspected
  pub inspect_stalled : Bool
  pub sequential : Bool
  pub keyframes : Option (List ℤ × ℤ)
  pub points : ℤ → Option (List ℤ)
  pub plan_code : ErrorCode
  pub no_duration_code : ErrorCode
  pub prior : List Frame
  pub stored : List ℕ → Bool
  pub point : ℕ → PointWorld
  pub manifest_written : Bool
  pub sheet_written : Bool
  pub estimate : ℕ → ℤ → ℤ → ℤ
  pub window : ℕ
  pub size_of : ℕ → ℕ × ℕ

-- The points that will be worked on, and the duration they are placed in.
pub data Planned : Type 0 where
  planned : List ℤ → ℤ → Planned
  unplanned : ErrorCode → Planned

-- The key frames read on stand for the points, and the last of them for the duration.
unfoldable pub plan_file : FileWorld → Planned
unfolding point_code
plan_file w = elim w.inspect [
  | inspected d ↦ elim (w.points d) [ none ↦ unplanned w.plan_code | some ps ↦ planned ps d ]
  | no_duration ↦
      if w.inspect_stalled || not w.sequential
      then unplanned (point_code w.inspect_stalled w.no_duration_code)
      else (elim w.keyframes [
        | none ↦ unplanned w.no_duration_code
        | some (before, last) ↦ planned (before ++ (last ∷ [])) last
      ])
  | inspect_failed code ↦ unplanned (point_code w.inspect_stalled code)
]

module _ (f : Floats) where
  -- How the loop ended.
  pub data Ended : Type 0 where
    all_worked stopped unstored : LoopState f → Ended

  -- The point `i`: what an earlier run took is used again.
  unfoldable pub work_point : FilePlan → PointWorld → Option Frame → ℕ → ℤ → LoopState f → Flow f
  unfolding reuse take_point
  work_point p w none i at s = take_point f p w i at s
  work_point p w (some earlier) i at s = goes_on (reuse f i at earlier s)

  -- The points from the `i`th on.
  unfoldable pub points_loop :
      FilePlan → (ℕ → PointWorld) → (ℕ → Option Frame) → ℕ → List ℤ → LoopState f → Ended
  unfolding work_point
  points_loop p w done i [] s = all_worked s
  points_loop p w done i (at ∷ ats) s = elim (work_point p (w i) (done i) i at s) [
    | goes_on s' ↦ points_loop p w done (i + 1) ats s'
    | halts s' ↦ stopped s'
    | storage_fails s' ↦ unstored s'
  ]

  pub record FileResult : Type 0 where
    pub produced : ℕ
    pub complete : Bool
    pub error : Option ErrorCode

  -- After the loop: what was taken is recorded, and complete is a frame for each point.
  unfoldable pub finish_file : FileWorld → ℕ → LoopState f → FileResult
  finish_file w total s =
      if not (w.manifest_written && w.sheet_written)
      then record { produced = s.produced; complete = false; error = some ErrorCode.storage }
      else record { produced = s.produced; complete = s.produced == total; error = none }

  unfoldable pub end_file : FileWorld → ℕ → Ended → FileResult
  unfolding finish_file
  end_file w total (all_worked s) = finish_file w total s
  end_file w total (stopped s) = finish_file w total s
  end_file w total (unstored s) = record {
    produced = s.produced;
    complete = false;
    error = some ErrorCode.storage;
  }

  unfoldable pub plan_of : FileWorld → FileInfo → List ℤ → ℤ → FilePlan
  unfolding seek_tolerance
  plan_of w file points duration = record {
    file = file;
    duration = duration;
    tolerance = seek_tolerance points;
    total = length points;
    estimate = w.estimate;
    window = w.window;
    size_of = w.size_of;
  }

  abbrev pub loop_start : BudgetTracker f → Torrent → LoopState f
  loop_start tracker torrent = record {
    tracker = tracker;
    torrent = torrent;
    clock = new_clock;
    produced = 0;
    skipped = 0;
    records = [];
    events = [];
  }

  unfoldable pub work_points : FileWorld → FileInfo → BudgetTracker f → Torrent → List ℤ → ℤ → Ended
  unfolding points_loop plan_of reusable_frames
  work_points w file tracker torrent points duration =
      points_loop (plan_of w file points duration) w.point (reusable_frames w.stored points w.prior)
        0 points (loop_start tracker torrent)

  unfoldable pub process_file : FileWorld → FileInfo → BudgetTracker f → Torrent → FileResult
  unfolding plan_file work_points end_file
  process_file w file tracker torrent = elim w.publish_error [
    | some code ↦ record { produced = 0; complete = false; error = some code }
    | none ↦ elim (plan_file w) [
      | unplanned code ↦ record { produced = 0; complete = false; error = some code }
      | planned points duration ↦
          end_file w (length points) (work_points w file tracker torrent points duration)
    ]
  ]
