-- ===== src/Core/File/Tests.antt =====
-- A file with two points, internal/core/engine.go: the first has a frame from an earlier run, the second is
-- taken, and the piece that is ordered for it is recorded.
use torpeek.Prelude.{◌≡◌, refl, true, false, List, [], ◌∷◌, ◌++◌, none, some, arith, ap}
use torpeek.Prelude.Int.{ℤ, pos, ltb_ℤ, leb_ℤ, ◌*ℤ◌, quot_ℤ}
use torpeek.Swarm.Torrent.{FileInfo, Torrent}
use torpeek.Core.Budget.{
  Floats, BudgetTracker, Reading, exhausted, met, elapsed, spent_bytes, warning,
}
use torpeek.Core.Stall.{ErrorCode}
use torpeek.Core.Capture.{shift_none, capture_one, reachable}
use torpeek.Core.File.{Frame, marked}
use torpeek.Core.File.Point.{PointWorld, live, FilePlan, take_point}
use torpeek.Core.File.Loop.{FileWorld, inspected, loop_start, work_points, process_file}
use torpeek.Core.File.Filed.{Filed, work_points_lem}
use torpeek.Core.File.Ranges.{Traced, take_point-Traced}
use torpeek.Core.File.Complete.{IsWhole, process_file-IsWhole}

-- Whole numbers in place of float64.
abbrev pub whole : Floats
whole = record { Float = ℤ; of_int = λ n. n; mul = λ a b. a *ℤ b; lt = ltb_ℤ; le = leb_ℤ }

abbrev at_rest : Reading
at_rest = record { downloaded = pos 0; received = pos 0; now = pos 0 }

abbrev pub tracker : BudgetTracker whole
tracker = record {
  budget = record { max_bytes = pos 1000; max_time = pos 1000; warn_at = pos 0 };
  has_meter = true;
  roof = record { max_bytes = pos 0; warn_at = pos 0 };
  has_client = false;
  start = pos 0;
  warned = false;
  warned_above = false;
}

abbrev pub film : FileInfo
film = record { index = 0; length = 50; offset = 0 }

abbrev pub torrent : Torrent
torrent = record {
  files = film ∷ [];
  length = 50;
  piece_length = 10;
  num_pieces = 5;
  claimed_seen = [];
  claimed_byte = 0;
  claim_log = λ i. none;
}

abbrev answers : PointWorld
answers = record {
  ctx = live;
  at_halt = at_rest;
  at_warning = at_rest;
  availability = record { counts = []; peers = 0; piece_length = 10; length = 50 };
  keyframe_at = λ t. some t;
  frame_at = λ t. some 7;
  is_blank = λ n. some false;
  stalled = false;
  tool_code = ErrorCode.internal;
  claims = (0, record { begin = 3; end = 4 }) ∷ [];
  step_claims = [];
  written = some (49 ∷ []);
  connected = 1;
  now = pos 5;
}

abbrev earlier : Frame
earlier = record {
  index = pos 0;
  requested_ms = pos 1;
  actual_ms = some (pos 1);
  path = 48 ∷ [];
  shift = marked shift_none;
  size = (640, 360);
  error = none;
  byte_ranges = [];
}

abbrev pub points : List ℤ
points = pos 1000000 ∷ pos 30000000 ∷ []

abbrev pub world : FileWorld
world = record {
  publish_error = none;
  inspect = inspected (pos 50000000);
  inspect_stalled = false;
  sequential = false;
  keyframes = none;
  points = λ d. some points;
  plan_code = ErrorCode.internal;
  no_duration_code = ErrorCode.unprobeable;
  prior = earlier ∷ [];
  stored = λ path. true;
  point = λ i. answers;
  manifest_written = true;
  sheet_written = true;
  estimate = λ length at duration. at;
  window = 10;
  size_of = λ n. (640, 360);
}

abbrev plan : FilePlan
plan = record {
  file = film;
  duration = pos 50000000;
  tolerance = pos 10000000000;
  total = 2;
  estimate = λ length at duration. at;
  window = 10;
  size_of = λ n. (640, 360);
}

both_done :
    process_file whole world film tracker torrent
    ≡ record { produced = 2; complete = true; error = none }
unfolding process_file quot_ℤ exhausted met elapsed spent_bytes capture_one reachable warning
both_done = refl

work_points_lem_example :
    Filed whole world points (work_points whole world film tracker torrent points (pos 50000000))
work_points_lem_example = work_points_lem whole world film tracker torrent points (pos 50000000)

take_point-Traced_example :
    Traced whole torrent film
      (answers.claims ++ answers.step_claims)
      []
      (take_point whole plan answers 1 (pos 30000000) (loop_start whole tracker torrent))
take_point-Traced_example =
    take_point-Traced whole plan answers 1 (pos 30000000) (loop_start whole tracker torrent) refl
      (omega arith)

both_done_complete : (process_file whole world film tracker torrent).complete ≡ true
both_done_complete = ap (λ r. r.complete) both_done

process_file-IsWhole_example :
    IsWhole whole world film tracker torrent (process_file whole world film tracker torrent)
process_file-IsWhole_example =
    process_file-IsWhole whole world film tracker torrent both_done_complete
