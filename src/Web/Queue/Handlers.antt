-- ===== src/Web/Queue/Handlers.antt =====
-- The handlers of internal/web/server.go that move a run between states. The runner's and the
-- lister's answers are arguments: `ok i` is whether the runner accepts run `i`.
use torpeek.Prelude.{
  ℕ, ◌+◌, Bool, true, false, not, ◌&&◌, ◌||◌, List, [], ◌∷◌, ◌++◌, ◌==◌, ltb, if◌then◌else◌, Option,
  none, some,
}
use torpeek.Prelude.Int.{ℤ, pos, negsuc, ltb_ℤ}
use torpeek.Prelude.Ids.{contains}
use torpeek.Web.Queue.{
  RunState, RunEntry, Server, Listing, queued, running, done, failed, cancelled, needs_action,
  unlisted, videos, queueable, is_needs_action, valid, put, insert_waiting, drop_waiting,
  enqueue_waiting, release_slot, trim, begin_run, dispatch,
}

pub data Error : Type 0 where
  no_source negative_count closed no_such_run no_run_in_progress bad_request not_waiting : Error
  already : RunState → Error

-- `is_blank` is whether the source is empty once trimmed; `files` counts the files named.
pub record RunRequest : Type 0 where
  pub is_blank : Bool
  pub count : ℤ
  pub files : ℕ

abbrev pub new_entry : RunRequest → ℕ → RunEntry
new_entry req arrival = record {
  state = queued;
  is_cancelled = false;
  listed = false;
  files = req.files;
  priority = pos 0;
  queue_seq = 0;
  arrival = arrival;
}

-- The run is known and waits; the new id is `i`.
unfoldable pub admit : Server → ℕ → RunRequest → Server
unfolding enqueue_waiting
admit s i req =
    let arrival = s.arrival_seq + 1 in
    enqueue_waiting
      (record (put s i (new_entry req arrival)) {
        arrival_seq = arrival;
        order = s.order ++ (i ∷ []);
      })
      i

unfoldable pub start_run : (ℕ → Bool) → Server → ℕ → RunRequest → Server × Option Error
start_run ok s i req =
    if req.is_blank
    then (s, some no_source)
    else if ltb_ℤ req.count (pos 0)
    then (s, some negative_count)
    else if s.stopped
    then (s, some closed)
    else (dispatch ok (admit s i req), none)

-- What `listThenRun` settles under the lock, before the slot is given back.
unfoldable pub listing_verdict : Server → RunEntry → Listing → Option RunState
listing_verdict s e unlisted = some (if e.is_cancelled || s.stopped then cancelled else failed)
listing_verdict s e (videos n) =
    if e.is_cancelled || s.stopped
    then some cancelled
    else if ltb 1 n
    then some needs_action
    else none

unfoldable pub settle_listing : Server → ℕ → RunState → Server
unfolding trim release_slot
settle_listing s i needs_action =
    release_slot (put s i (record e { listed = true; state = needs_action })) i
  where
    e : RunEntry
    e = s.heap i
settle_listing s i v = trim (release_slot (put s i (record e { listed = true; state = v })) i)
  where
    e : RunEntry
    e = s.heap i

-- `listThenRun` after the lister's answer. With one video or none the run starts at once, and the
-- queue is looked at again only if that fails.
unfoldable pub list_then_run : (ℕ → Bool) → Server → ℕ → Listing → Server
unfolding listing_verdict settle_listing
list_then_run ok s i l = elim (listing_verdict s (s.heap i) l) [
  | some v ↦ dispatch ok (settle_listing s i v)
  | none ↦
      let e = s.heap i in
      let s' = begin_run (put s i (record e { listed = true })) i (ok i) in
      if ok i then s' else dispatch ok s'
]

-- The events of a run that decide how it ends.
pub data RunEvent : Type 0 where
  progress : RunEvent
  failure : ℤ → RunEvent  -- the file, or below 0 for the whole run
  finish : Bool → RunEvent  -- whether the reason is that the run was cancelled

abbrev pub is_failed : RunState → Bool
is_failed failed = true
is_failed _ = false

unfoldable pub outcome_after : RunState → RunEvent → RunState
outcome_after o progress = o
outcome_after o (failure file) = if ltb_ℤ file (pos 0) then failed else o
outcome_after o (finish by_cancel) = if by_cancel && not (is_failed o) then cancelled else o

unfoldable pub outcome : RunState → List RunEvent → RunState
unfolding outcome_after
outcome o [] = o
outcome o (ev ∷ evs) = outcome (outcome_after o ev) evs

abbrev pub is_done : RunState → Bool
is_done done = true
is_done _ = false

-- `pump` once the events are over.
unfoldable pub pump : (ℕ → Bool) → Server → ℕ → List RunEvent → Server
unfolding outcome release_slot trim
pump ok s i evs =
    let e = s.heap i in
    let o = outcome done evs in
    let v = if is_done o && e.is_cancelled then cancelled else o in
    dispatch ok (trim (release_slot (put s i (record e { state = v })) i))

-- The state of the run decides what cancelling it does.
unfoldable pub cancel_in : RunState → Server → ℕ → Server × Option Error
unfolding trim drop_waiting
cancel_in running s i = (put s i (record e { is_cancelled = true }), none)
  where
    e : RunEntry
    e = s.heap i
cancel_in queued s i =
    (trim (drop_waiting (put s i (record e { is_cancelled = true; state = cancelled })) i), none)
  where
    e : RunEntry
    e = s.heap i
cancel_in needs_action s i =
    (trim (put s i (record e { is_cancelled = true; state = cancelled })), none)
  where
    e : RunEntry
    e = s.heap i
cancel_in st s i = (s, some (already st))

abbrev pub cancel_entry : Server → ℕ → Server × Option Error
cancel_entry s i = cancel_in (s.heap i).state s i

-- With no id the one run that is going is meant.
unfoldable pub cancel_only : List ℕ → Server → Server × Option Error
cancel_only [] s = (s, some no_run_in_progress)
cancel_only (i ∷ []) s = cancel_entry s i
cancel_only (i ∷ j ∷ js) s = (s, some bad_request)

unfoldable pub cancel_run : Server → Option ℕ → Server × Option Error
unfolding cancel_only cancel_in
cancel_run s (some i) = if contains i s.order then cancel_entry s i else (s, some no_such_run)
cancel_run s none = cancel_only s.active s

abbrev pub is_waiting : RunState → Bool
is_waiting queued = true
is_waiting _ = false

-- The run's priority is set, and a queued run is put in again at its new place.
unfoldable pub reprioritise : Server → ℕ → ℤ → Server
unfolding insert_waiting drop_waiting
reprioritise s i p =
    let e = s.heap i in
    let s' = put s i (record e { priority = p }) in
    if is_waiting e.state
    then (record s' { waiting = insert_waiting s'.heap i (drop_waiting s' i).waiting })
    else s'

unfoldable pub set_run_priority : (ℕ → Bool) → Server → Option ℕ → ℤ → Server × Option Error
unfolding reprioritise queueable valid
set_run_priority ok s none p = (s, some no_such_run)
set_run_priority ok s (some i) p =
    if not (valid p)
    then (s, some bad_request)
    else if s.stopped
    then (s, some closed)
    else if not (contains i s.order)
    then (s, some no_such_run)
    else if not (queueable (s.heap i).state)
    then (s, some not_waiting)
    else (dispatch ok (reprioritise s i p), none)

unfoldable pub set_max_active_torrents : (ℕ → Bool) → Server → ℤ → Server × Option Error
set_max_active_torrents ok s (negsuc n) = (s, some bad_request)
set_max_active_torrents ok s (pos n) =
    if ltb n 1 then (s, some bad_request) else (dispatch ok (record s { max_active = n }), none)

abbrev pub parked : (ℕ → RunEntry) → List ℕ → List ℕ
parked h [] = []
parked h (i ∷ is) = if is_needs_action (h i).state then i ∷ parked h is else parked h is

abbrev pub strand : (ℕ → RunEntry) → ℕ → RunEntry
strand h i = let e = h i in record e { is_cancelled = true; state = cancelled }

unfoldable pub cancel_all : (ℕ → RunEntry) → List ℕ → ℕ → RunEntry
cancel_all h [] = h
cancel_all h (i ∷ is) = cancel_all (λ j. if i == j then strand h i else h j) is

-- `Close`: what waits or wants an answer is over; what runs is told to stop, and ends by itself.
unfoldable pub close : Server → Server
unfolding cancel_all
close s = if s.stopped then s else (record s {
  stopped = true;
  waiting = [];
  heap = cancel_all s.heap (s.waiting ++ parked s.heap s.order);
})
