-- ===== src/Web/TopUp.antt =====
-- What it takes to finish a run that stopped short, internal/web/runs.go: the figures that are read from disk,
-- the offer made from them, and the request that asks for what is missing.
pub mod Laws
pub mod Asks
pub mod Run
mod Tests
use torpeek.Prelude.{
  ℕ, ◌+◌, ◌-◌, Bool, true, false, not, ◌&&◌, ◌||◌, List, [], ◌∷◌, ◌++◌, ◌==◌, ltb, leb,
  if◌then◌else◌, Option, none, some,
}
use torpeek.Prelude.Int.{ℤ, pos, pos_part, ltb_ℤ, leb_ℤ}
use torpeek.Prelude.Text.{itoa}
use torpeek.Core.Budget.{StopReason, stop_roof, stop_time}
use torpeek.Core.Budget.TopUp.{top_up_bytes, top_up_floor}
use torpeek.Core.File.{Frame}
use torpeek.Core.Cached.{is_gap}
use torpeek.Web.Ticks.{Spec, Request, is_nil}

-- `manifest.Cost`; no limit hit is the empty string.
pub record Cost : Type 0 where
  pub downloaded_bytes : ℤ
  pub limit_bytes : ℤ
  pub elapsed_ms : ℤ
  pub limit_ms : ℤ
  pub limit_hit : Option StopReason

pub record Receipt : Type 0 where
  pub frames : List Frame
  pub cost : Cost

-- What of `cache.Run` the offer reads; `selected` is `none` in a record from before it was kept.
pub record RecordedRun : Type 0 where
  pub count : ℤ
  pub source : List ℕ
  pub selected : Option (List ℕ)
  pub videos : List (ℕ × List ℕ)

pub data Limit : Type 0 where
  traffic time roof : Limit

pub data TopUpRefusal : Type 0 where
  no_plan no_source_kept no_selection no_files nothing_owed : TopUpRefusal
  roof_below_floor : TopUpRefusal

pub record TopUpFile : Type 0 where
  pub index : ℕ
  pub captured : ℕ
  pub planned : ℕ

pub record TopUp : Type 0 where
  pub files : List TopUpFile
  pub captured : ℕ
  pub remaining : ℕ
  pub spent_bytes : ℤ
  pub ceiling_bytes : ℤ
  pub stopped_by : Option StopReason
  pub limit : Option Limit
  pub offer_bytes : ℤ
  pub raise_helps : Bool
  pub roof_capped : Bool
  pub refused : Option TopUpRefusal
  pub complete : Bool

abbrev pub short : TopUpFile → Bool
short f = ltb f.captured f.planned

unfoldable pub captured_frames : List Frame → ℕ
captured_frames [] = 0
captured_frames (f ∷ fs) = let n = captured_frames fs in if is_gap f then n else n + 1

abbrev is_roof : Option StopReason → Bool
is_roof (some stop_roof) = true
is_roof _ = false

abbrev limit_of : StopReason → Cost → Limit
limit_of stop_roof c = roof
limit_of stop_time c = time
limit_of r c = if ltb_ℤ (pos 0) c.limit_ms && leb_ℤ c.limit_ms c.elapsed_ms then time else traffic

-- The receipt with the most bytes speaks for the spending.
unfoldable pub absorb_spending : TopUp → Cost → TopUp
absorb_spending t c =
    if ltb_ℤ t.spent_bytes c.downloaded_bytes
    then (record t { spent_bytes = c.downloaded_bytes; ceiling_bytes = c.limit_bytes })
    else t

abbrev absorb_limit : Option StopReason → TopUp → Cost → TopUp
absorb_limit none t c = t
absorb_limit (some hit) t c =
    if is_roof t.stopped_by
    then t
    else (record t { stopped_by = some hit; limit = some (limit_of hit c) })

unfoldable pub absorb_cost : TopUp → Cost → TopUp
unfolding absorb_spending
absorb_cost t c = absorb_limit c.limit_hit (absorb_spending t c) c

-- The map by index keeps the last video of an index.
unfoldable pub video_path : ℕ → List (ℕ × List ℕ) → Option (List ℕ)
video_path i [] = none
video_path i ((j, path) ∷ vs) = elim (video_path i vs) [
  | some p ↦ some p
  | none ↦ if j == i then some path else none
]

abbrev pub add_file : TopUp → TopUpFile → TopUp
add_file t f = record t {
  files = t.files ++ (f ∷ []);
  captured = t.captured + f.captured;
  remaining = t.remaining + (f.planned - f.captured);
}

abbrev pub at_most : ℕ → ℕ → ℕ
at_most a b = if ltb b a then b else a

unfoldable pub file_of : ℕ → ℕ → Option Receipt → TopUpFile
unfolding captured_frames
file_of count i none = record { index = i; captured = 0; planned = count }
file_of count i (some m) = record {
  index = i;
  captured = at_most (captured_frames m.frames) count;
  planned = count;
}

abbrev pub absorb : TopUp → Option Receipt → TopUp
absorb t none = t
absorb t (some m) = absorb_cost t m.cost

-- One index of the selection.
unfoldable pub add_selected :
    (ℕ → List ℕ → Option Receipt) → List (ℕ × List ℕ) → ℕ → TopUp → ℕ → TopUp
unfolding absorb_cost file_of video_path
add_selected manifest videos count t i = elim (video_path i videos) [
  | none ↦ t
  | some path ↦ add_file (absorb t (manifest i path)) (file_of count i (manifest i path))
]

unfoldable pub add_all :
    (ℕ → List ℕ → Option Receipt) → List (ℕ × List ℕ) → ℕ → TopUp → List ℕ → TopUp
unfolding add_selected
add_all manifest videos count t [] = t
add_all manifest videos count t (i ∷ is) =
    add_all manifest videos count (add_selected manifest videos count t i) is

unfoldable pub short_files : List TopUpFile → ℕ
short_files [] = 0
short_files (f ∷ fs) = let n = short_files fs in if short f then n + 1 else n

abbrev pub above_roof : ℤ → ℤ → Bool
above_roof roof_bytes bytes = ltb_ℤ (pos 0) roof_bytes && ltb_ℤ roof_bytes bytes

abbrev pub raise_answers : Option Limit → Bool
raise_answers none = true
raise_answers (some traffic) = true
raise_answers (some l) = false

unfoldable pub price : ℤ → TopUp → TopUp
unfolding short_files
price roof_bytes t =
    let floor = top_up_floor (pos t.remaining) (pos t.captured) t.spent_bytes in
    let offer =
      top_up_bytes (pos t.remaining) (pos (short_files t.files)) (pos t.captured) t.spent_bytes in
    if above_roof roof_bytes floor
    then (record t { refused = some roof_below_floor })
    else if not (raise_answers t.limit)
    then (record t { raise_helps = false })
    else if above_roof roof_bytes offer
    then (record t { raise_helps = true; offer_bytes = roof_bytes; roof_capped = true })
    else (record t { raise_helps = true; offer_bytes = offer })

abbrev pub no_top_up : TopUp
no_top_up = record {
  files = [];
  captured = 0;
  remaining = 0;
  spent_bytes = pos 0;
  ceiling_bytes = pos 0;
  stopped_by = none;
  limit = none;
  offer_bytes = pos 0;
  raise_helps = false;
  roof_capped = false;
  refused = none;
  complete = false;
}

abbrev pub refuse : TopUpRefusal → TopUp → TopUp
refuse why t = record t { refused = some why }

-- The figures of the selection, then the price.
unfoldable pub settle_top_up : ℤ → TopUp → TopUp
unfolding price
settle_top_up roof_bytes t =
    if is_nil t.files
    then refuse no_files t
    else if t.remaining == 0
    then (record t { refused = some nothing_owed; complete = true })
    else price roof_bytes t

abbrev pub of_selection :
    (ℕ → List ℕ → Option Receipt) → ℤ → RecordedRun → ℕ → Option (List ℕ) → TopUp
of_selection manifest roof_bytes run count none = refuse no_selection no_top_up
of_selection manifest roof_bytes run count (some selected) =
    settle_top_up roof_bytes (add_all manifest run.videos count no_top_up selected)

-- `topUpFor`, once the record of the run is read.
unfoldable pub top_up_for : (ℕ → List ℕ → Option Receipt) → ℤ → RecordedRun → TopUp
unfolding add_all settle_top_up
top_up_for manifest roof_bytes run =
    if leb_ℤ run.count (pos 0)
    then refuse no_plan no_top_up
    else if is_nil run.source
    then refuse no_source_kept no_top_up
    else of_selection manifest roof_bytes run (pos_part run.count) run.selected

-- The files that are short, under the names that a page gives them.
unfoldable pub short_specs : List TopUpFile → List Spec
short_specs [] = []
short_specs (f ∷ fs) = let rest = short_specs fs in if short f then itoa f.index ∷ rest else rest

unfoldable pub top_up_request : TopUp → RecordedRun → Request
unfolding short_specs
top_up_request t run = record {
  source = run.source;
  label = [];
  files = short_specs t.files;
  count = run.count;
  max_bytes = t.offer_bytes;
}
