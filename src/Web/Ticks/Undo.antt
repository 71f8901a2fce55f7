-- ===== src/Web/Ticks/Undo.antt =====
-- A tick and its un-tick, DecideRun and UntickFile of internal/web/server.go, one after the other.
use torpeek.Prelude.{ℕ, ◌≡◌, Bool, true, false, not, ◌&&◌, ◌||◌, [], ◌∷◌, if◌then◌else◌, none}
use torpeek.Prelude.Int.{ℤ, pos, ltb_ℤ}
use torpeek.Prelude.Ids.{contains}
use torpeek.Prelude.Text.{trim_space}
use torpeek.Web.Queue.{
  RunState, Server, queued, needs_action, is_running, is_needs_action, final, dispatch,
}
use torpeek.Web.Queue.Inv.{Inv}
use torpeek.Web.Ticks.{
  Spec, Row, Request, contains_file, with_files, is_nil, refuse_untick, tick_row, untick_row, parks,
}
use torpeek.Web.Ticks.Handlers.{Registry, run_state, update_row, requeue}

-- The request with the number of frames that a first tick settles.
abbrev pub counted : ℤ → Bool → Request → Request
counted count opens req = record req {
  count = if ltb_ℤ (pos 0) count && opens then count else req.count;
}

-- Whether the tick is the first of its pass.
abbrev pub opens_pass : RunState → Row → Bool
opens_pass st row = if is_running st then is_nil row.pending else is_nil row.request.files

module _ (row : Row) (spec : Spec) (count : ℤ) (na : contains_file row.asked spec ≡ false)
    (nf : contains_file row.request.files spec ≡ false)
    (np : contains_file row.pending spec ≡ false) where
  abbrev asking : Row
  asking = record row { asked = with_files row.asked (spec ∷ []) }

  abbrev deferred : Row
  deferred = record asking {
    pending = with_files row.pending (spec ∷ []);
    request = counted count (is_nil row.pending) row.request;
  }

  abbrev waiting : Row
  waiting = record asking {
    request =
        counted count (is_nil row.request.files)
          (let req = row.request in record req { files = with_files req.files (spec ∷ []) });
  }

-- The state of a run that takes a tick and stays where it is.
abbrev pub ticked_state : RunState → RunState
ticked_state st = if is_needs_action st then queued else st

-- What the un-tick of the row comes to, in the two kinds of state that take ticks.
record Undone (st : RunState) (row : Row) (spec : Spec) (count : ℤ) : Type 0 where
  grew : (tick_row st row (spec ∷ []) count).1 ≡ true
  taken : refuse_untick (ticked_state st) (tick_row st row (spec ∷ []) count).0 spec ≡ none
  undone :
      untick_row (ticked_state st) (tick_row st row (spec ∷ []) count).0 spec
      ≡ record row { request = counted count (opens_pass st row) row.request }
  left :
      (if parks (ticked_state st) (tick_row st row (spec ∷ []) count).0 spec
        then needs_action
        else ticked_state st)
      ≡ (if is_needs_action st && not (is_nil row.request.files) then queued else st)
  kept : (tick_row st row (spec ∷ []) count).0.videos ≡ row.videos

-- `dispatch` forgets no run that has not ended, and does not close the server.
abbrev is_kept : Server → ℕ → Bool
is_kept t i = contains i t.order || final (t.heap i).state

module _ (ok : ℕ → Bool) (r : Registry) (i : ℕ) (file : Spec) (count : ℤ) where
  abbrev row_ticked : Row
  row_ticked = (tick_row (run_state r i) (r.rows i) (trim_space file ∷ []) count).0

  abbrev ticked_once : Registry
  ticked_once = record {
    queue =
        dispatch ok (requeue (is_needs_action (run_state r i)) r.queue i row_ticked.request.files);
    rows = update_row r.rows i row_ticked;
  }
