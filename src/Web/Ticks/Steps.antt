-- ===== src/Web/Ticks/Steps.antt =====
-- Every handler of internal/web/server.go that moves a run or changes its choice of files, as a step of
-- the server, and what holds along every sequence of steps.
use torpeek.Prelude.{ℕ, ◌≡◌, Bool, true, false, List, [], Option}
use torpeek.Prelude.Int.{ℤ}
use torpeek.Prelude.Ids.{contains}
use torpeek.Web.Queue.{RunEntry}
use torpeek.Web.Queue.Handlers.{
  RunEvent, cancel_run, set_run_priority, set_max_active_torrents, close,
}
use torpeek.Web.Queue.Going.{
  cancel_run-Goes, set_run_priority-Goes, set_max_active_torrents-Goes, close-Goes, close-known,
}
use torpeek.Web.Queue.Steps.{
  Step-Inv, cancels, prioritises, widens, closes, new_server, new_server-Inv,
}
use torpeek.Web.Ticks.{Spec, Row, Request}
use torpeek.Web.Ticks.Handlers.{
  Registry, start_row, again, retry_run, pump_row, learn, list_run, decide_run, untick_file,
}
use torpeek.Web.Ticks.Keeps.{Sound, move_Sound, start_row-Sound, again-Sound, retry_run-Sound}
use torpeek.Web.Ticks.Ends.{learn-Sound, list_run-Sound, pump_row-Sound}
use torpeek.Web.Ticks.Chosen.{decide_run-Sound, untick_file-Sound}

-- One handler, run to its end. A listing, a run's metadata and its end come from the goroutine of a run
-- that holds a slot, a listing from one whose request names no files; a new id is not in use.
pub data Move (r : Registry) : Registry → Type 0 where
  starts :
      (ok : ℕ → Bool) (new : ℕ) (req : Request)
      → contains new r.queue.order ≡ false
      → Move r (start_row ok r new req).0
  lists :
      (ok : ℕ → Bool) (i : ℕ) (l : Option (List ℤ × List ℕ))
      → contains i r.queue.active ≡ true
      → (r.rows i).request.files ≡ []
      → Move r (list_run ok r i l)
  learns : (i : ℕ) (held : List ℤ) (hash : List ℕ) → Move r (learn r i held hash)
  ends :
      (ok : ℕ → Bool) (i : ℕ) (evs : List RunEvent) (new : ℕ)
      → contains i r.queue.active ≡ true
      → contains new r.queue.order ≡ false
      → Move r (pump_row ok r i evs new)
  ticks :
      (ok : ℕ → Bool) (i : Option ℕ) (files : List Spec) (count : ℤ)
      → Move r (decide_run ok r i files count).0
  unticks : (i : Option ℕ) (file : Spec) → Move r (untick_file r i file).0
  retries :
      (ok : ℕ → Bool) (i : Option ℕ) (new : ℕ)
      → contains new r.queue.order ≡ false
      → Move r (retry_run ok r i new).0
  tops_up :
      (ok : ℕ → Bool) (i : Option ℕ) (hash : List ℕ) (req : Request) (new : ℕ)
      → contains new r.queue.order ≡ false
      → Move r (again ok r i hash req new).0
  stops : (i : Option ℕ) → Move r (record r { queue = (cancel_run r.queue i).0 })
  ranks :
      (ok : ℕ → Bool) (i : Option ℕ) (p : ℤ)
      → Move r (record r { queue = (set_run_priority ok r.queue i p).0 })
  grows :
      (ok : ℕ → Bool) (n : ℤ)
      → Move r (record r { queue = (set_max_active_torrents ok r.queue n).0 })
  shuts : Move r (record r { queue = close r.queue })

pub data Moves (r : Registry) : Registry → Type 0 where
  here : Moves r r
  next : {t u : Registry} → Moves r t → Move t u → Moves r u

close-Sound : (r : Registry) → Sound r → Sound (record r { queue = close r.queue })
unfolding close
close-Sound r h =
    move_Sound r _ (Step-Inv closes h.queue)
      (λ j k. close-Goes r.queue j (close-known r.queue j k) h.queue) h

Move-Sound : {r t : Registry} → Move r t → Sound r → Sound t
Move-Sound {r} (starts ok new req fresh) h = start_row-Sound ok r new req fresh h
Move-Sound {r} (lists ok i l a e) h = list_run-Sound ok r i l a e h
Move-Sound {r} (learns i held hash) h = learn-Sound r i held hash h
Move-Sound {r} (ends ok i evs new a fresh) h = pump_row-Sound ok r i evs new a fresh h
Move-Sound {r} (ticks ok i files count) h = decide_run-Sound ok r i files count h
Move-Sound {r} (unticks i file) h = untick_file-Sound r i file h
Move-Sound {r} (retries ok i new fresh) h = retry_run-Sound ok r i new fresh h
Move-Sound {r} (tops_up ok i hash req new fresh) h = again-Sound ok r i hash req new fresh h
Move-Sound {r} (stops i) h =
    move_Sound r _ (Step-Inv (cancels i) h.queue) (λ j k. cancel_run-Goes r.queue i j) h
Move-Sound {r} (ranks ok i p) h =
    move_Sound r _ (Step-Inv (prioritises ok i p) h.queue)
      (λ j k. set_run_priority-Goes ok r.queue i p j h.queue) h
Move-Sound {r} (grows ok n) h =
    move_Sound r _ (Step-Inv (widens ok n) h.queue)
      (λ j k. set_max_active_torrents-Goes ok r.queue n j h.queue) h
Move-Sound {r} shuts h = close-Sound r h

Moves-Sound : {r t : Registry} → Sound r → Moves r t → Sound t
Moves-Sound h here = h
Moves-Sound h (next m st) = Move-Sound st (Moves-Sound h m)

-- A server as `newServer` makes it.
abbrev pub new_registry : ℕ → Bool → (ℕ → RunEntry) → (ℕ → Row) → Registry
new_registry width has_lister heap rows = record {
  queue = new_server width has_lister heap;
  rows = rows;
}

nobody_known :
    (width : ℕ) (l : Bool) (heap : ℕ → RunEntry) (j : ℕ)
    → contains j (new_server width l heap).order ≡ true
    → ⊥
unfolding new_server
nobody_known width l heap j k = cc

-- However the handlers follow one another, the queue is consistent, and in the row of every known run a
-- file that waits for the next pass waits once, behind a pass that is running and that names files, is
-- not one of that pass's files, and is counted as asked for.
pub reachable-Sound :
    (width : ℕ) (l : Bool) (heap : ℕ → RunEntry) (rows : ℕ → Row) {r : Registry}
    → Moves (new_registry width l heap rows) r
    → Sound r
reachable-Sound width l heap rows m =
    Moves-Sound
      (record {
        queue = new_server-Inv width l heap;
        rows = λ j k. elim (nobody_known width l heap j k) [ ];
      })
      m
