-- ===== src/Web/TopUp/Tests.antt =====
-- A top-up of internal/web/runs.go at concrete inputs.
use torpeek.Prelude.{
  ℕ, ◌+◌, ◌*◌, ◌≤◌, ◌≡◌, refl, true, false, ◌&&◌, ◌||◌, List, [], ◌∷◌, ◌==◌, if◌then◌else◌, Option,
  none, some, length, All, arith,
}
use torpeek.Prelude.Int.{pos, pos_part, ltb_ℤ, ◌≤ℤ◌, quot_ℤ, wrap64}
use torpeek.Core.Budget.{stop_budget, default_bytes}
use torpeek.Core.Budget.TopUp.{top_up_bytes, top_up_floor, capped, whole_mib, raised, measured}
use torpeek.Core.File.{Frame, marked}
use torpeek.Core.Capture.{shift_none}
use torpeek.Web.Queue.{RunEntry, done, final}
use torpeek.Web.Queue.Inv.{Inv}
use torpeek.Web.Queue.Steps.{new_server}
use torpeek.Prelude.Ids.{contains}
use torpeek.Web.Ticks.{is_nil, asks_every_video}
use torpeek.Web.Ticks.Handlers.{Registry, run_state, new_row}
use torpeek.Web.Ticks.Sets.{names}
use torpeek.Web.TopUp.{Receipt, RecordedRun, TopUp, top_up_for, top_up_request}
use torpeek.Web.TopUp.Laws.{top_up_for_lem}
use torpeek.Web.TopUp.Asks.{lacks, top_up_request-names}
use torpeek.Web.TopUp.Run.{top_up_run, top_up_run_lem}

abbrev taken : Frame
taken = record {
  index = pos 0;
  requested_ms = pos 1000;
  actual_ms = none;
  path = 102 ∷ [];
  shift = marked shift_none;
  size = (16, 9);
  error = none;
  byte_ranges = [];
}

-- File 1 has one frame of two, at a cost of 40 MB until the traffic ceiling; file 2 has nothing on disk.
abbrev receipt : Receipt
receipt = record {
  frames = taken ∷ [];
  cost = record {
    downloaded_bytes = pos 40000000;
    limit_bytes = pos 40000000;
    elapsed_ms = pos 9000;
    limit_ms = pos 0;
    limit_hit = some stop_budget;
  };
}

abbrev disk : ℕ → List ℕ → Option Receipt
disk i path = if i == 1 then some receipt else none

abbrev recorded : RecordedRun
recorded = record {
  count = pos 2;
  source = 109 ∷ [];
  selected = some (1 ∷ 2 ∷ []);
  videos = (1, 97 ∷ []) ∷ (2, 98 ∷ []) ∷ [];
}

abbrev plan : TopUp
plan = top_up_for disk (pos 200000000) recorded

plan_figures : (plan.captured ≡ 1) × (plan.remaining ≡ 3) × (plan.refused ≡ none)
unfolding top_up_for top_up_floor top_up_bytes quot_ℤ wrap64 capped whole_mib raised default_bytes
    measured
plan_figures = (refl, refl, refl)

top_up_for_lem_example :
    All (λ f. (f.planned ≡ pos_part recorded.count) × (f.captured ≤ f.planned)) plan.files
    × (plan.captured + plan.remaining ≡ length plan.files * pos_part recorded.count)
    × (plan.refused ≡ none → is_nil (top_up_request plan recorded).files ≡ false)
    × (ltb_ℤ (pos 0) (pos 200000000) ≡ true → plan.offer_bytes ≤ℤ pos 200000000)
    × (plan.raise_helps ≡ false → plan.offer_bytes ≡ pos 0)
top_up_for_lem_example = top_up_for_lem disk (pos 200000000) recorded

top_up_request-names_example :
    names (top_up_request plan recorded).files (pos 2)
    ≡ (contains 2 (1 ∷ 2 ∷ []) && lacks disk recorded.videos 2 2)
unfolding top_up_for top_up_floor top_up_bytes quot_ℤ wrap64 capped whole_mib raised default_bytes
    measured
top_up_request-names_example =
    top_up_request-names disk (pos 200000000) recorded 2 (omega arith, (omega arith, tt)) refl

-- Run 7 has ended, and its row names the torrent.
abbrev ended_run : RunEntry
ended_run = record {
  state = done;
  is_cancelled = false;
  listed = false;
  files = 2;
  priority = pos 0;
  queue_seq = 0;
  arrival = 0;
}

abbrev ended : Registry
ended = record {
  queue = let s = new_server 1 false (λ i. ended_run) in record s { order = 7 ∷ [] };
  rows = λ i. new_row (top_up_request plan recorded);
}

ended-Inv : Inv ended.queue
unfolding new_server
ended-Inv = record {
  at = λ j. record {
    waits_queued = λ h. cc;
    waits_known = λ h. cc;
    queued_waits = λ h q. cc;
    active_running = λ h. cc;
    active_known = λ h. cc;
    running_active = λ h q. cc;
  };
  sorted = tt;
  waiting_nodup = tt;
  active_nodup = tt;
}

top_up_run_lem_example :
    let r' = (top_up_run (λ i. true) ended (some 7) [] (some (plan, recorded)) 8).0 in
    ((contains 7 r'.queue.waiting || contains 7 r'.queue.active) ≡ true)
    × ((r'.rows 7).request ≡ top_up_request plan recorded)
    × (asks_every_video (run_state r' 7) (r'.rows 7) ≡ false)
    × ((j : ℕ) → (7 == j) ≡ false → r'.rows j ≡ ended.rows j)
    × ((j : ℕ) → contains j ended.queue.active ≡ true → contains j r'.queue.active ≡ true)
unfolding new_server top_up_for top_up_floor top_up_bytes quot_ℤ wrap64 final capped whole_mib
    raised default_bytes measured
top_up_run_lem_example =
    top_up_run_lem (λ i. true) ended 7 disk (pos 200000000) recorded 8 refl refl refl refl refl
      ended-Inv
