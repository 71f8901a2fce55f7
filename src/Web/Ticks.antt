-- ===== src/Web/Ticks.antt =====
-- The choice of a run's files in internal/web/server.go: the ticks that a row of the page has taken,
-- where each of them waits, and what is refused. The state of the run itself is the queue's.
pub mod Specs
pub mod Handlers
pub mod Report
pub mod Sets
pub mod Inv
pub mod Entry
pub mod Keeps
pub mod Chosen
pub mod Steps
pub mod Names
pub mod Union
pub mod Laws
pub mod Undo
pub mod Engine
pub mod Turn
pub mod Pass
pub mod Ends
mod Tests
use torpeek.Prelude.{
  ℕ, zero, suc, Bool, true, false, not, ◌&&◌, ◌||◌, List, [], ◌∷◌, ◌++◌, ◌==◌, ltb, if◌then◌else◌,
  length, Option, none, some,
}
use torpeek.Prelude.Int.{ℤ, pos, ltb_ℤ, leb_ℤ}
use torpeek.Prelude.Text.{same, trim_space, parse_int}
use torpeek.Web.Queue.{
  RunState, running, replaying, needs_action, queued, final, queueable, is_running, is_needs_action,
}

-- A file as a page names it.
abbrev pub Spec : Type 0
Spec = List ℕ

-- What of a `RunRequest` the choice of files reads or writes.
pub record Request : Type 0 where
  pub source : List ℕ
  pub label : List ℕ
  pub files : List Spec
  pub count : ℤ
  pub max_bytes : ℤ

-- What of a `*runEntry` it reads or writes, beside the state.
pub record Row : Type 0 where
  pub request : Request
  pub asked : List Spec
  pub pending : List Spec
  pub videos : List ℤ
  pub info_hash : List ℕ

unfoldable pub contains_file : List Spec → Spec → Bool
contains_file [] spec = false
contains_file (f ∷ fs) spec = same f spec || contains_file fs spec

-- A new slice at each call: a list here is a value, which nobody else can change.
unfoldable pub with_files : List Spec → List Spec → List Spec
with_files out [] = out
with_files out (spec ∷ want) =
    with_files (if contains_file out spec then out else out ++ (spec ∷ [])) want

unfoldable pub without_files : List Spec → List Spec → List Spec
without_files [] have = []
without_files (spec ∷ want) have =
    let rest = without_files want have in if contains_file have spec then rest else spec ∷ rest

abbrev pub same_int : ℤ → ℤ → Bool
same_int a b = leb_ℤ a b && leb_ℤ b a

unfoldable pub has_index : List ℤ → ℤ → Bool
has_index [] k = false
has_index (known ∷ ks) k = same_int known k || has_index ks k

unfoldable pub holds_file : Row → Spec → Bool
holds_file row spec = elim (parse_int spec) [ none ↦ false | some k ↦ has_index row.videos k ]

abbrev pub is_nil {ℓ} : {A : Type ℓ} → List A → Bool
is_nil [] = true
is_nil (x ∷ xs) = false

unfoldable pub asks_every_video : RunState → Row → Bool
asks_every_video st row = not (is_needs_action st) && is_nil row.request.files

-- The sentences with which a tick or an un-tick is refused.
pub data Refusal : Type 0 where
  no_list staged_copy read_back in_the_pass not_waiting : Refusal
  no_run_left undecided : RunState → Refusal

unfoldable pub refuse_tick : RunState → Row → Option Refusal
refuse_tick st row = if is_nil row.videos then some no_list else by_state st
  where
    by_state : RunState → Option Refusal
    by_state needs_action = none
    by_state queued = none
    by_state running = if is_nil row.request.label then none else some staged_copy
    by_state replaying = some read_back
    by_state other = some (no_run_left other)

abbrev pub is_replaying : RunState → Bool
is_replaying replaying = true
is_replaying _ = false

unfoldable pub refuse_untick : RunState → Row → Spec → Option Refusal
refuse_untick st row spec =
    if contains_file row.pending spec
    then none
    else if is_running st && (asks_every_video st row || contains_file row.request.files spec)
    then some in_the_pass
    else if is_replaying st
    then some read_back
    else if not (final st) && not (queueable st) && contains_file row.request.files spec
    then some (undecided st)
    else if queueable st && contains_file row.request.files spec
    then none
    else if final st
    then some (no_run_left st)
    else some not_waiting

-- The files of a tick, trimmed, if the torrent holds every one of them.
unfoldable pub choose : Row → List Spec → Option (List Spec)
choose row [] = some []
choose row (f ∷ fs) = elim (holds_file row (trim_space f)) [
  | false ↦ none
  | true ↦ elim (choose row fs) [ none ↦ none | some chosen ↦ some (trim_space f ∷ chosen) ]
]

-- The first tick of a pass settles how many frames each file of it gets.
unfoldable pub lock_count : ℤ → Bool → Request → Request
lock_count count opens req =
    if ltb_ℤ (pos 0) count && opens then (record req { count = count }) else req

abbrev pub note_asked : Row → List Spec → Row
note_asked row chosen = record row { asked = with_files row.asked chosen }

-- A tick while the run is going: the row, and whether it has grown.
unfoldable pub tick_in_flight : Row → List Spec → ℤ → Row × Bool
unfolding with_files without_files lock_count
tick_in_flight row chosen count =
    let want = without_files chosen row.request.files in
    let grown = with_files row.pending want in
    if length grown == length row.pending then (note_asked row chosen, false) else (
      (record (note_asked row chosen) {
        pending = grown;
        request = lock_count count (is_nil row.pending) row.request;
      }),
      true,
    )

-- A tick before the run starts.
unfoldable pub tick_waiting : Bool → Row → List Spec → ℤ → Row × Bool
unfolding with_files lock_count
tick_waiting parked row chosen count =
    let grown = with_files row.request.files chosen in
    if length grown == length row.request.files && not parked
    then (note_asked row chosen, false)
    else (
      (record (note_asked row chosen) {
        request =
            lock_count count (is_nil row.request.files) (record row.request { files = grown });
      }),
      true,
    )

unfoldable pub tick_row : RunState → Row → List Spec → ℤ → Row × Bool
unfolding tick_in_flight tick_waiting
tick_row st row chosen count =
    if is_running st
    then tick_in_flight row chosen count
    else tick_waiting (is_needs_action st) row chosen count

-- An un-tick of a file that is not refused: out of what waits, and out of the pass if nothing has been
-- handed to the engine.
unfoldable pub untick_row : RunState → Row → Spec → Row
unfolding without_files
untick_row st row spec =
    let dropped = record row {
      pending = without_files row.pending (spec ∷ []);
      asked = without_files row.asked (spec ∷ []);
    } in
    if queueable st && contains_file row.request.files spec
    then (record dropped {
      request = record row.request { files = without_files row.request.files (spec ∷ []) };
    })
    else dropped

-- Whether the un-tick took the last file of a queued row, which then waits for a decision again.
unfoldable pub parks : RunState → Row → Spec → Bool
unfolding without_files
parks queued row spec =
    contains_file row.request.files spec && is_nil (without_files row.request.files (spec ∷ []))
parks _ row spec = false
