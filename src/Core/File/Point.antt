-- ===== src/Core/File/Point.antt =====
-- One capture point of `processFile`, internal/core/engine.go: all that happens between it and the next.
-- Of a heartbeat, the figures of traffic and of the swarm are left out; so are texts of errors.
use torpeek.Prelude.{
  ℕ, ◌+◌, Bool, true, false, not, List, [], ◌∷◌, ◌++◌, if◌then◌else◌, Option, none, some,
}
use torpeek.Prelude.Int.{ℤ, pos, ◌*ℤ◌, quot_ℤ, wrap64}
use torpeek.Swarm.Torrent.{FileInfo, PieceRange, Torrent}
use torpeek.Swarm.Torrent.ClaimLog.{start_claim_log, end_claim_log, log_claims}
use torpeek.Swarm.Availability.{Availability}
use torpeek.Core.Budget.{
  Floats, BudgetTracker, Reading, Warning, StopReason, completed, stop_time, stop_cancelled,
  exhausted, warning,
}
use torpeek.Core.Stall.{ErrorCode, Stall, StallClock, observe, classify_point_failure}
use torpeek.Core.Capture.{Capture, Taken, taken, tool_failed, unavailable, capture_one}
use torpeek.Core.Capture.Blank.{reject_blank}
use torpeek.Core.File.{Frame, Shift, marked, failed, milliseconds, landed_near}

-- The context of the run: live, expired, or cancelled by the caller.
pub data Ctx : Type 0 where
  live expired revoked : Ctx

-- What the world answers while one point is worked on: the meters, when the run is asked to stop and to
-- warn; the map of peers; ffprobe, ffmpeg and the test of a blank frame; whether a read of the point ran
-- out of time, and the code of a tool's error; the claims of the torrent's files up to the capture and
-- while stepping past blank frames; where the frame is written, if it is; the peers and the clock at the
-- end.
pub record PointWorld : Type 0 where
  pub ctx : Ctx
  pub at_halt : Reading
  pub at_warning : Reading
  pub availability : Availability
  pub keyframe_at : ℤ → Option ℤ
  pub frame_at : ℤ → Option ℕ
  pub is_blank : ℕ → Option Bool
  pub stalled : Bool
  pub tool_code : ErrorCode
  pub claims : List (ℕ × PieceRange)
  pub step_claims : List (ℕ × PieceRange)
  pub written : Option (List ℕ)
  pub connected : ℕ
  pub now : ℤ

-- What stays the same for the file: its length and place, what its duration is taken to be, the tolerance,
-- the number of points, the estimate of an offset, the profile's window and the size of a decoded frame.
pub record FilePlan : Type 0 where
  pub file : FileInfo
  pub duration : ℤ
  pub tolerance : ℤ
  pub total : ℕ
  pub estimate : ℕ → ℤ → ℤ → ℤ
  pub window : ℕ
  pub size_of : ℕ → ℕ × ℕ

pub record FrameReady : Type 0 where
  pub index : ℕ
  pub requested : ℤ
  pub actual : ℤ
  pub shift : Shift
  pub path : List ℕ
  pub size : ℕ × ℕ

pub data Event : Type 0 where
  frame_ready : FrameReady → Event
  frame_skipped : ℕ → ℤ → ErrorCode → Event
  budget_warning : Warning → Event
  progress : ℕ → ℕ → Option Stall → Event  -- frames done, frames in all, stall

abbrev pub time_of : Option ℤ → ℤ
time_of none = pos 0
time_of (some ms) = wrap64 (ms *ℤ pos 1000000)

-- The error of a capture that failed, with a read that ran out of time put first.
unfoldable pub point_code : Bool → ErrorCode → ErrorCode
point_code true code = ErrorCode.read_stalled
point_code false code = code

abbrev pub taken_frame : FilePlan → ℕ → ℤ → Capture → List ℕ → List (ℕ × ℕ) → Frame
taken_frame p i at shot path byte_ranges = record {
  index = pos i;
  requested_ms = milliseconds at;
  actual_ms = some (milliseconds shot.actual);
  path = path;
  shift = marked shot.shift;
  size = p.size_of shot.frame;
  error = none;
  byte_ranges = byte_ranges;
}

abbrev pub ready_at : FilePlan → ℕ → ℤ → Capture → List ℕ → FrameReady
ready_at p i at shot path = record {
  index = i;
  requested = at;
  actual = shot.actual;
  shift = marked shot.shift;
  path = path;
  size = p.size_of shot.frame;
}

abbrev pub reused_at : ℕ → ℤ → Frame → FrameReady
reused_at i at earlier = record {
  index = i;
  requested = at;
  actual = time_of earlier.actual_ms;
  shift = earlier.shift;
  path = earlier.path;
  size = earlier.size;
}

module _ (f : Floats) where
  unfoldable pub halt_reason : Ctx → BudgetTracker f → Reading → StopReason × Bool
  halt_reason expired t r = (stop_time, true)
  halt_reason revoked t r = (stop_cancelled, true)
  halt_reason live t r =
      if (exhausted f t r).0 then ((exhausted f t r).1, true) else (completed, false)

  pub record LoopState : Type 0 where
    pub tracker : BudgetTracker f
    pub torrent : Torrent
    pub clock : StallClock
    pub produced : ℕ
    pub skipped : ℕ
    pub records : List Frame
    pub events : List Event

  -- The loop goes on, it is stopped before the point, or the frame could not be written.
  pub data Flow : Type 0 where
    goes_on halts storage_fails : LoopState → Flow

  abbrev pub publish_event : Event → LoopState → LoopState
  publish_event e s = record s { events = s.events ++ (e ∷ []) }

  unfoldable pub reuse : ℕ → ℤ → Frame → LoopState → LoopState
  reuse i at earlier s =
      publish_event (frame_ready (reused_at i at earlier))
        (record s { produced = s.produced + 1; records = s.records ++ (earlier ∷ []) })

  unfoldable pub warn : PointWorld → LoopState → LoopState
  warn w s = elim (warning f s.tracker w.at_warning).1 [
    | none ↦ record s { tracker = (warning f s.tracker w.at_warning).0 }
    | some m ↦
        publish_event (budget_warning m)
          (record s { tracker = (warning f s.tracker w.at_warning).0 })
  ]

  -- A point without a frame. Its log of claims is closed and thrown away.
  unfoldable pub skip : FilePlan → ℕ → ℤ → ErrorCode → LoopState → LoopState
  skip p i at code s = publish_event (frame_skipped i at code) (record s {
    torrent = (end_claim_log s.torrent p.file.index).0;
    skipped = s.skipped + 1;
    records =
        s.records
        ++ (record {
          index = pos i;
          requested_ms = milliseconds at;
          actual_ms = none;
          path = [];
          shift = failed;
          size = (0, 0);
          error = some code;
          byte_ranges = [];
        }
            ∷ []);
  })

  -- The clock is told why the point failed, and a heartbeat goes out.
  unfoldable pub report_failure : FilePlan → PointWorld → ErrorCode → LoopState → LoopState
  unfolding observe classify_point_failure
  report_failure p w code s =
      let seen = observe s.clock w.now (classify_point_failure code w.connected) in
      publish_event (progress s.produced p.total seen.1) (record s { clock = seen.0 })

  unfoldable pub clear_stall : PointWorld → LoopState → LoopState
  unfolding observe
  clear_stall w s = record s { clock = (observe s.clock w.now none).0 }

  -- The frame is written, recorded with the bytes that were ordered for it, and announced.
  unfoldable pub store : FilePlan → PointWorld → ℕ → ℤ → Capture → LoopState → Flow
  unfolding observe
  store p w i at shot s =
      let closed = end_claim_log s.torrent p.file.index in
      let s' = record s { torrent = closed.0 } in
      elim w.written [
        | none ↦ storage_fails s'
        | some path ↦
            let seen = observe s.clock w.now none in
            goes_on (
              publish_event (progress (s.produced + 1) p.total seen.1) (
                publish_event (frame_ready (ready_at p i at shot path)) (record s' {
                  produced = s.produced + 1;
                  records = s.records ++ (taken_frame p i at shot path closed.1 ∷ []);
                  clock = seen.0;
                })))
      ]

  abbrev pub claim : List (ℕ × PieceRange) → LoopState → LoopState
  claim cs s = record s { torrent = log_claims s.torrent cs }

  unfoldable pub after_capture : FilePlan → PointWorld → ℕ → ℤ → Taken → LoopState → Flow
  unfolding skip report_failure clear_stall landed_near store reject_blank point_code
  after_capture p w i at tool_failed s =
      let code = point_code w.stalled w.tool_code in
      goes_on (report_failure p w code (skip p i at code s))
  after_capture p w i at unavailable s =
      let code = point_code w.stalled ErrorCode.unavailable in
      goes_on (report_failure p w code (skip p i at code s))
  after_capture p w i at (taken shot) s =
      if not (landed_near shot.asked shot.actual p.tolerance)
      then goes_on (clear_stall w (skip p i at ErrorCode.seek_failed s))
      else store p w i at
          (reject_blank w.keyframe_at w.frame_at w.is_blank (quot_ℤ p.tolerance 4) shot)
          (claim w.step_claims s)

  -- A point that has no frame from an earlier run.
  unfoldable pub take_point : FilePlan → PointWorld → ℕ → ℤ → LoopState → Flow
  unfolding halt_reason warn after_capture
  take_point p w i at s =
      if (halt_reason w.ctx s.tracker w.at_halt).1
      then halts s
      else after_capture p w i at
          (capture_one p.estimate p.window w.availability w.keyframe_at w.frame_at p.file p.duration
            at (quot_ℤ p.tolerance 4))
          (let warned = warn w s in
            claim w.claims
              (record warned { torrent = start_claim_log warned.torrent p.file.index }))
