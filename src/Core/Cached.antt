-- ===== src/Core/Cached.antt =====
-- internal/core/cached.go: a run that was recorded is published again. Which manifests there are, and which
-- files lie at their paths, is an argument; names and times that are only handed on are left out.
mod Replay
mod Tests
use torpeek.Prelude.{
  ℕ, ◌+◌, Bool, true, false, not, ◌&&◌, ◌||◌, List, [], ◌∷◌, ◌++◌, map, if◌then◌else◌, length, ltb,
  Option, none, some,
}
use torpeek.Prelude.Int.{ℤ, pos, ◌*ℤ◌, wrap64}
use torpeek.Prelude.Ids.{contains}
use torpeek.Core.Stall.{ErrorCode}
use torpeek.Core.File.{Frame, Shift, is_failed, is_empty}
use torpeek.Core.File.Point.{time_of}

-- The manifest of the file with that index.
pub record Manifest : Type 0 where
  pub file : ℕ
  pub frames : List Frame

-- What the disk holds: the manifest of a file, if it can be read, and whether a path has a file that is not empty.
pub record Disk : Type 0 where
  pub manifest : ℕ → Option Manifest
  pub stored : List ℕ → Bool

-- The record of a run, as far as it matters here: its videos and those that are complete.
pub record RunRecord : Type 0 where
  pub videos : List ℕ
  pub complete : List ℕ

pub record ReplayedFrame : Type 0 where
  pub file : ℕ
  pub index : ℤ
  pub requested : ℤ
  pub actual : ℤ
  pub shift : Shift
  pub path : List ℕ
  pub size : ℕ × ℕ

pub data CachedEvent : Type 0 where
  metadata_ready : List ℕ → List ℕ → CachedEvent  -- videos and selected
  file_started : ℕ → List ℤ → CachedEvent
  frame_ready : ReplayedFrame → CachedEvent
  frame_skipped : ℕ → ℤ → ℤ → Option ErrorCode → CachedEvent
  file_done : ℕ → ℕ → ℕ → CachedEvent  -- frames and skipped
  done : ℕ → ℕ → CachedEvent  -- files and frames
  run_failed : ErrorCode → CachedEvent

-- The point produced nothing.
abbrev pub is_gap : Frame → Bool
is_gap r = is_failed r.shift || is_empty r.path

-- The loop of `Usable`, with the frames served so far.
unfoldable pub usable_from : (List ℕ → Bool) → ℕ → List Frame → Bool
usable_from stored served [] = ltb 0 served
usable_from stored served (r ∷ rs) =
    let past = usable_from stored served rs in
    let more = usable_from stored (served + 1) rs in
    if is_gap r then past else if not (stored r.path) then false else more

unfoldable pub usable : (List ℕ → Bool) → Manifest → Bool
unfolding usable_from
usable stored m = usable_from stored 0 m.frames

-- The manifest of a file that can be shown.
unfoldable pub load_usable : Disk → ℕ → Option Manifest
unfolding usable
load_usable d file = elim (d.manifest file) [
  | none ↦ none
  | some m ↦ if usable d.stored m then some m else none
]

unfoldable pub produced_videos : Disk → List ℕ → List ℕ
unfolding load_usable
produced_videos d [] = []
produced_videos d (v ∷ vs) =
    let rest = produced_videos d vs in elim (load_usable d v) [ none ↦ rest | some m ↦ v ∷ rest ]

-- The manifests of the selected files, if each of them can be served.
unfoldable pub load_cache_hit : Disk → RunRecord → List ℕ → Bool → Option (List Manifest)
unfolding load_usable
load_cache_hit d record' [] require_complete = some []
load_cache_hit d record' (v ∷ vs) require_complete =
    let rest = load_cache_hit d record' vs require_complete in
    if require_complete && not (contains v record'.complete) then none else elim (load_usable d v) [
      | none ↦ none
      | some m ↦ elim rest [ none ↦ none | some ms ↦ some (m ∷ ms) ]
    ]

abbrev pub replay_frame : ℕ → Frame → CachedEvent
replay_frame file r =
    if is_gap r
    then frame_skipped file r.index (wrap64 (r.requested_ms *ℤ pos 1000000)) r.error
    else frame_ready (record {
      file = file;
      index = r.index;
      requested = wrap64 (r.requested_ms *ℤ pos 1000000);
      actual = time_of r.actual_ms;
      shift = r.shift;
      path = r.path;
      size = r.size;
    })

-- The frames that a manifest has.
unfoldable pub count_produced : List Frame → ℕ
count_produced [] = 0
count_produced (r ∷ rs) = let rest = count_produced rs in if is_gap r then rest else rest + 1

abbrev pub plan_from_manifest : List Frame → List ℤ
plan_from_manifest rs = map (λ r. wrap64 (r.requested_ms *ℤ pos 1000000)) rs

-- The skipped points of `FileDone` are not set.
unfoldable pub replay_file : Manifest → List CachedEvent
unfolding count_produced
replay_file m =
    file_started m.file (plan_from_manifest m.frames)
    ∷ (map (replay_frame m.file) m.frames ++ (file_done m.file (count_produced m.frames) 0 ∷ []))

unfoldable pub replay_files : List Manifest → List CachedEvent
unfolding replay_file
replay_files [] = []
replay_files (m ∷ ms) = replay_file m ++ replay_files ms

unfoldable pub total_produced : List Manifest → ℕ
unfolding count_produced
total_produced [] = 0
total_produced (m ∷ ms) = count_produced m.frames + total_produced ms

unfoldable pub publish_hit : List ℕ → List ℕ → List Manifest → List CachedEvent
unfolding replay_files total_produced
publish_hit videos selected ms =
    metadata_ready videos selected
    ∷ (replay_files ms ++ (done (length ms) (total_produced ms) ∷ []))

-- `serveFromCache`, once the selection is made: the events, or nothing when the run must go to the swarm.
unfoldable pub serve_selected : Disk → RunRecord → List ℕ → Option (List CachedEvent)
unfolding load_cache_hit publish_hit
serve_selected d record' [] = none
serve_selected d record' (v ∷ vs) = elim (load_cache_hit d record' (v ∷ vs) true) [
  | none ↦ none
  | some ms ↦ some (publish_hit record'.videos (v ∷ vs) ms)
]

-- `ReplayRun` on the record of a run, if it can be read.
unfoldable pub replay_run : Disk → Option RunRecord → List CachedEvent
unfolding produced_videos load_cache_hit publish_hit
replay_run d none = run_failed ErrorCode.storage ∷ []
replay_run d (some record') = elim (produced_videos d record'.videos) [
  | [] ↦ run_failed ErrorCode.storage ∷ []
  | v ∷ vs ↦ elim (load_cache_hit d record' (v ∷ vs) false) [
    | none ↦ run_failed ErrorCode.storage ∷ []
    | some ms ↦ publish_hit record'.videos (v ∷ vs) ms
  ]
]
