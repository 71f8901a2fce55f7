-- ===== src/Web/Ticks/Handlers.antt =====
-- The handlers of internal/web/server.go through which a person's choice of files reaches the queue.
-- `id` is `none` when it is blank; `new` is the id that a run gets when one has to be made.
use torpeek.Prelude.{
  ℕ, Bool, false, not, ◌&&◌, ◌||◌, List, [], ◌==◌, if◌then◌else◌, Option, none, some, length,
}
use torpeek.Prelude.Int.{ℤ, pos, ltb_ℤ}
use torpeek.Prelude.Ids.{contains}
use torpeek.Prelude.Text.{same, trim_space}
use torpeek.Web.Queue.{
  RunState, Server, unlisted, videos, queued, done, cancelled, needs_action, final, is_needs_action,
  put, drop_waiting, enqueue_waiting, release_slot, trim, dispatch,
}
use torpeek.Web.Queue.Handlers.{
  RunRequest, RunEvent, Error, start_run, list_then_run, is_done, outcome,
}
use torpeek.Web.Ticks.{
  Spec, Request, Row, Refusal, is_nil, holds_file, asks_every_video, refuse_tick, refuse_untick,
  choose, tick_row, untick_row, parks,
}

-- The server's table of runs: the queue's part of each entry, and the choice's.
pub record Registry : Type 0 where
  pub queue : Server
  pub rows : ℕ → Row

pub data Verdict : Type 0 where
  accepted no_such_run no_file_picked negative_frames closed not_a_video staged_file : Verdict
  refused : Refusal → Verdict
  not_finished : RunState → Verdict
  not_started : Error → Verdict

abbrev pub update_row : (ℕ → Row) → ℕ → Row → ℕ → Row
update_row rows i row j = if i == j then row else rows j

abbrev pub run_state : Registry → ℕ → RunState
run_state r i = (r.queue.heap i).state

-- The queue's entry, with a request that names so many files.
unfoldable pub name_files : Server → ℕ → List Spec → Server
name_files s i files = let e = s.heap i in put s i (record e { files = length files })

-- A row that waited for a decision has one, and joins the queue behind what waits there.
unfoldable pub join_queue : Server → ℕ → Server
unfolding enqueue_waiting
join_queue s i = let e = s.heap i in enqueue_waiting (put s i (record e { state = queued })) i

-- What a tick that has grown the row does to the queue.
unfoldable pub requeue : Bool → Server → ℕ → List Spec → Server
unfolding name_files join_queue
requeue parked s i files = let s' = name_files s i files in if parked then join_queue s' i else s'

unfoldable pub decide_entry : (ℕ → Bool) → Registry → ℕ → List Spec → ℤ → Registry × Verdict
unfolding choose tick_row requeue
decide_entry ok r i files count = elim (choose (r.rows i) files) [
  | none ↦ (r, not_a_video)
  | some chosen ↦
      if asks_every_video (run_state r i) (r.rows i)
      then (r, accepted)
      else (let (row, grew) = tick_row (run_state r i) (r.rows i) chosen count in
          let rows = update_row r.rows i row in
          let parked = is_needs_action (run_state r i) in
          (
            (if grew
                then (record {
                  queue = dispatch ok (requeue parked r.queue i row.request.files);
                  rows = rows;
                })
                else (record r { rows = rows })),
            accepted,
          ))
]

unfoldable pub decide_run : (ℕ → Bool) → Registry → Option ℕ → List Spec → ℤ → Registry × Verdict
unfolding decide_entry refuse_tick
decide_run ok r none files count = (r, no_such_run)
decide_run ok r (some i) files count =
    if is_nil files
    then (r, no_file_picked)
    else if ltb_ℤ count (pos 0)
    then (r, negative_frames)
    else if r.queue.stopped
    then (r, closed)
    else if not (contains i r.queue.order)
    then (r, no_such_run)
    else (elim (refuse_tick (run_state r i) (r.rows i)) [
      | some refusal ↦ (r, refused refusal)
      | none ↦ decide_entry ok r i files count
    ])

-- The row leaves the queue, and waits for a decision.
unfoldable pub park : Server → ℕ → Server
unfolding drop_waiting
park s i = let e = s.heap i in put (drop_waiting s i) i (record e { state = needs_action })

unfoldable pub untick_entry : Registry → ℕ → Spec → Registry
unfolding untick_row parks park name_files
untick_entry r i spec =
    let st = run_state r i in
    let row = untick_row st (r.rows i) spec in
    let named = name_files r.queue i row.request.files in
    (record {
      queue = if parks st (r.rows i) spec then park named i else named;
      rows = update_row r.rows i row;
    })

unfoldable pub untick_file : Registry → Option ℕ → Spec → Registry × Verdict
unfolding untick_entry refuse_untick holds_file
untick_file r none file = (r, no_such_run)
untick_file r (some i) file =
    let spec = trim_space file in
    if r.queue.stopped
    then (r, closed)
    else if not (contains i r.queue.order)
    then (r, no_such_run)
    else if not (holds_file (r.rows i) spec)
    then (r, not_a_video)
    else (elim (refuse_untick (run_state r i) (r.rows i) spec) [
      | some refusal ↦ (r, refused refusal)
      | none ↦ (untick_entry r i spec, accepted)
    ])

-- A new run: the queue's part of it, and a row on which nothing has been ticked.
abbrev pub new_row : Request → Row
new_row req = record {
  request = record req { source = trim_space req.source };
  asked = [];
  pending = [];
  videos = [];
  info_hash = [];
}

abbrev pub queue_request : Request → RunRequest
queue_request req = record {
  is_blank = is_nil (trim_space req.source);
  count = req.count;
  files = length req.files;
}

abbrev pub enter : Registry → ℕ → Request → Server × Option Error → Registry × Verdict
enter r new req (s, some e) = (r, not_started e)
enter r new req (s, none) =
    ((record { queue = s; rows = update_row r.rows new (new_row req) }), accepted)

unfoldable pub start_row : (ℕ → Bool) → Registry → ℕ → Request → Registry × Verdict
unfolding start_run
start_row ok r new req = enter r new req (start_run ok r.queue new (queue_request req))

-- The entry takes the request, and waits for a slot again.
unfoldable pub rearm : Registry → ℕ → Request → Registry
unfolding enqueue_waiting
rearm r i req =
    let e = r.queue.heap i in
    let row = r.rows i in
    (record {
      queue =
          enqueue_waiting
            (put r.queue i
              (record e { state = queued; is_cancelled = false; files = length req.files }))
            i;
      rows = update_row r.rows i (record row { request = req });
    })

unfoldable pub again : (ℕ → Bool) → Registry → Option ℕ → List ℕ → Request → ℕ → Registry × Verdict
unfolding rearm start_row
again ok r none hash req new = if r.queue.stopped then (r, closed) else start_row ok r new req
again ok r (some i) hash req new =
    if r.queue.stopped
    then (r, closed)
    else if not (contains i r.queue.order)
    then start_row ok r new req
    else if not (final (run_state r i))
    then (r, not_finished (run_state r i))
    else if not (is_nil hash)
        && not (is_nil (r.rows i).info_hash)
        && not (same (r.rows i).info_hash hash)
    then start_row ok r new req
    else (let r' = rearm r i req in ((record r' { queue = dispatch ok r'.queue }), accepted))

unfoldable pub retry_run : (ℕ → Bool) → Registry → Option ℕ → ℕ → Registry × Verdict
unfolding again
retry_run ok r none new = (r, no_such_run)
retry_run ok r (some i) new =
    if not (contains i r.queue.order)
    then (r, no_such_run)
    else if not (is_nil (r.rows i).request.label)
    then (r, staged_file)
    else (let req = (r.rows i).request in
        again ok r (some i) [] (record req { max_bytes = pos 0 }) new)

abbrev pub clear_pending : Registry → ℕ → Registry
clear_pending r i =
    let row = r.rows i in record r { rows = update_row r.rows i (record row { pending = [] }) }

-- The files ticked while the run was going are claimed, once.
unfoldable pub pending_pass : Registry → ℕ → Registry × Option Request
pending_pass r i =
    let row = r.rows i in
    if is_nil row.pending || (r.queue.heap i).is_cancelled || r.queue.stopped
    then (clear_pending r i, none)
    else (let req = row.request in
        (clear_pending r i, some (record req { files = row.pending; max_bytes = pos 0 })))

-- `pump` up to the pass that is pending: the run has ended, and its slot is free.
unfoldable pub settle_run : Server → ℕ → List RunEvent → Server
unfolding outcome release_slot
settle_run s i evs =
    let e = s.heap i in
    let o = outcome done evs in
    let v = if is_done o && e.is_cancelled then cancelled else o in
    release_slot (put s i (record e { state = v })) i

-- The pass that was claimed, if there is one. `again`'s answer is not looked at.
unfoldable pub run_pending : (ℕ → Bool) → Registry → ℕ → Option Request → ℕ → Registry
unfolding again
run_pending ok r i none new = r
run_pending ok r i (some req) new = (again ok r (some i) (r.rows i).info_hash req new).0

-- `pump` from the end of the events on.
unfoldable pub pump_row : (ℕ → Bool) → Registry → ℕ → List RunEvent → ℕ → Registry
unfolding settle_run pending_pass run_pending trim
pump_row ok r i evs new =
    let settled = record r { queue = settle_run r.queue i evs } in
    let (claimed, next) = pending_pass settled i in
    let r' = run_pending ok claimed i next new in
    (record r' { queue = dispatch ok (trim r'.queue) })

-- What the torrent holds is known: the numbers of its videos, and its infohash.
unfoldable pub learn : Registry → ℕ → List ℤ → List ℕ → Registry
learn r i held hash =
    let row = r.rows i in
    record r { rows = update_row r.rows i (record row { videos = held; info_hash = hash }) }

-- `listThenRun` with the lister's answer.
unfoldable pub list_run : (ℕ → Bool) → Registry → ℕ → Option (List ℤ × List ℕ) → Registry
unfolding learn list_then_run
list_run ok r i none = record r { queue = list_then_run ok r.queue i unlisted }
list_run ok r i (some (held, hash)) = record (learn r i held hash) {
  queue = list_then_run ok r.queue i (videos (length held));
}
