-- ===== src/Core/Cached/Tests.antt =====
-- The file of the capture loop's test, replayed as internal/core/cached.go replays it.
use torpeek.Prelude.{◌≡◌, refl, false, [], ◌∷◌, All, map, none, some}
use torpeek.Prelude.Int.{pos, quot_ℤ}
use torpeek.Core.Budget.{exhausted, met, elapsed, spent_bytes, warning}
use torpeek.Core.Capture.{shift_none, capture_one, reachable}
use torpeek.Core.File.{marked}
use torpeek.Core.File.Told.{announced}
use torpeek.Core.File.Loop.{work_points}
use torpeek.Core.File.Points.{state_of}
use torpeek.Core.File.Tests.{whole, tracker, film, torrent, points, world}
use torpeek.Core.Stall.{ErrorCode}
use torpeek.Core.Cached.{Disk, RunRecord, run_failed, replay_file, replay_run, serve_selected}
use torpeek.Core.Cached.Replay.{
  HasPath, replayed, requests, whole_milliseconds, recorded_points, file_counts,
  replay_file-announced,
}

have_paths :
    All HasPath
      (state_of whole (work_points whole world film tracker torrent points (pos 50000000))).records
unfolding work_points quot_ℤ exhausted met elapsed spent_bytes capture_one reachable warning
have_paths = (λ h. refl, (λ h. refl, tt))

replay_file-announced_example :
    let s = state_of whole (work_points whole world film tracker torrent points (pos 50000000)) in
    let replay = replay_file (record { file = 0; frames = s.records }) in
    (replayed replay ≡ announced s.events)
    × (requests replay ≡ map whole_milliseconds (recorded_points s.records points))
    × (file_counts replay (0, 0) ≡ (s.produced, 0))
replay_file-announced_example =
    replay_file-announced whole world film tracker torrent points (pos 50000000) have_paths

-- A manifest whose only frame is gone from the disk.
abbrev emptied : Disk
emptied = record {
  manifest = λ v. some (record {
    file = v;
    frames =
        record {
          index = pos 0;
          requested_ms = pos 1;
          actual_ms = some (pos 1);
          path = 48 ∷ [];
          shift = marked shift_none;
          size = (640, 360);
          error = none;
          byte_ranges = [];
        }
        ∷ [];
  });
  stored = λ path. false;
}

abbrev recorded : RunRecord
recorded = record { videos = 0 ∷ []; complete = 0 ∷ [] }

nothing_to_show : replay_run emptied (some recorded) ≡ run_failed ErrorCode.storage ∷ []
unfolding replay_run
nothing_to_show = refl

to_the_swarm : serve_selected emptied recorded (0 ∷ []) ≡ none
unfolding serve_selected
to_the_swarm = refl
