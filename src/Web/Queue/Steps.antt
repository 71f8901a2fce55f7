-- ===== src/Web/Queue/Steps.antt =====
-- Every handler of the queue as a step of the server, with what the caller or the run's own
-- goroutine brings to it, and the invariant along every sequence of steps.
use torpeek.Prelude.{
  ℕ, ◌≡◌, Bool, true, false, not, List, [], ◌∷◌, ltb, arith, if◌then◌else◌, Bool-cases, inl, inr,
  Option, none, some,
}
use torpeek.Prelude.Int.{ℤ, pos, negsuc, ltb_ℤ}
use torpeek.Prelude.Ids.{contains}
use torpeek.Web.Queue.{RunEntry, Server, Listing, queueable, valid}
use torpeek.Web.Queue.Handlers.{
  RunRequest, RunEvent, Error, start_run, list_then_run, pump, cancel_only, cancel_run,
  set_run_priority, set_max_active_torrents, close,
}
use torpeek.Web.Queue.Inv.{Inv}
use torpeek.Web.Queue.Dispatch.{dispatch-Inv}
use torpeek.Web.Queue.Preserve.{
  admit-Inv, list_then_run-Inv, pump-Inv, cancel_in-Inv, reprioritise-Inv, close-Inv,
}

-- A refusal or a result: the invariant on both sides of a test.
if_Inv : (b : Bool) (x y : Server × Option Error) → Inv x.0 → Inv y.0 → Inv (if b then x else y).0
if_Inv true x y p q = p
if_Inv false x y p q = q

start_run-Inv :
    (ok : ℕ → Bool) (s : Server) (i : ℕ) (req : RunRequest)
    → contains i s.order ≡ false
    → Inv s
    → Inv (start_run ok s i req).0
unfolding start_run
start_run-Inv ok s i req new v = if_Inv req.is_blank _ _ v (
    if_Inv (ltb_ℤ req.count (pos 0)) _ _ v
      (if_Inv s.stopped _ _ v (dispatch-Inv ok _ (admit-Inv s i req new v))))

cancel_run-Inv : (s : Server) (i : Option ℕ) → Inv s → Inv (cancel_run s i).0
unfolding cancel_run
cancel_run-Inv s (some i) v = elim (Bool-cases (contains i s.order)) [
  | inl k ↦ rw k (cancel_in-Inv s i k v)
  | inr u ↦ rw u v
]
cancel_run-Inv s none v = only s.active (λ i k. (v.at i).active_known k)
  where
    only :
        (is : List ℕ)
        → ((i : ℕ) → contains i is ≡ true → contains i s.order ≡ true)
        → Inv (cancel_only is s).0
    only [] k = v
    only (i ∷ []) k = cancel_in-Inv s i (k i (ground arith)) v
    only (i ∷ j ∷ is) k = v

set_run_priority-Inv :
    (ok : ℕ → Bool) (s : Server) (i : Option ℕ) (p : ℤ) → Inv s → Inv (set_run_priority ok s i p).0
unfolding set_run_priority
set_run_priority-Inv ok s none p v = v
set_run_priority-Inv ok s (some i) p v = if_Inv (not (valid p)) _ _ v (
    if_Inv s.stopped _ _ v (elim (Bool-cases (contains i s.order)) [
      | inr u ↦ rw u v
      | inl k ↦ rw k (elim (Bool-cases (queueable (s.heap i).state)) [
        | inr n ↦ rw n v
        | inl q ↦ rw q (dispatch-Inv ok _ (reprioritise-Inv s i p k q v))
      ])
    ]))

pub widen_Inv : (s : Server) (n : ℕ) → Inv s → Inv (record s { max_active = n })
widen_Inv s n v = record {
  at = λ j. ground (arith, v.at j);
  sorted = v.sorted;
  waiting_nodup = v.waiting_nodup;
  active_nodup = v.active_nodup;
}

set_max_active_torrents-Inv :
    (ok : ℕ → Bool) (s : Server) (n : ℤ) → Inv s → Inv (set_max_active_torrents ok s n).0
unfolding set_max_active_torrents
set_max_active_torrents-Inv ok s (negsuc n) v = v
set_max_active_torrents-Inv ok s (pos n) v =
    if_Inv (ltb n 1) _ _ v (dispatch-Inv ok _ (widen_Inv s n v))

-- One handler, run to its end. A listing and a run's end come from the goroutine of a run that
-- holds a slot, and a new run has an id that is not in use.
pub data Step (s : Server) : Server → Type 0 where
  starts :
      (ok : ℕ → Bool) (i : ℕ) (req : RunRequest)
      → contains i s.order ≡ false
      → Step s (start_run ok s i req).0
  lists :
      (ok : ℕ → Bool) (i : ℕ) (l : Listing)
      → contains i s.active ≡ true
      → Step s (list_then_run ok s i l)
  ends :
      (ok : ℕ → Bool) (i : ℕ) (evs : List RunEvent)
      → contains i s.active ≡ true
      → Step s (pump ok s i evs)
  cancels : (i : Option ℕ) → Step s (cancel_run s i).0
  prioritises : (ok : ℕ → Bool) (i : Option ℕ) (p : ℤ) → Step s (set_run_priority ok s i p).0
  widens : (ok : ℕ → Bool) (n : ℤ) → Step s (set_max_active_torrents ok s n).0
  closes : Step s (close s)

pub data Reach (s : Server) : Server → Type 0 where
  here : Reach s s
  next : {t u : Server} → Reach s t → Step t u → Reach s u

-- Every handler keeps the invariant.
pub Step-Inv : {s t : Server} → Step s t → Inv s → Inv t
Step-Inv {s} (starts ok i req new) v = start_run-Inv ok s i req new v
Step-Inv {s} (lists ok i l a) v = list_then_run-Inv ok s i l a v
Step-Inv {s} (ends ok i evs a) v = pump-Inv ok s i evs a v
Step-Inv {s} (cancels i) v = cancel_run-Inv s i v
Step-Inv {s} (prioritises ok i p) v = set_run_priority-Inv ok s i p v
Step-Inv {s} (widens ok n) v = set_max_active_torrents-Inv ok s n v
Step-Inv {s} closes v = close-Inv s v

Reach-Inv : {s t : Server} → Inv s → Reach s t → Inv t
Reach-Inv v here = v
Reach-Inv v (next r st) = Step-Inv st (Reach-Inv v r)

-- A server as `newServer` makes it.
unfoldable pub new_server : ℕ → Bool → (ℕ → RunEntry) → Server
new_server width has_lister heap = record {
  heap = heap;
  order = [];
  waiting = [];
  active = [];
  max_active = width;
  queue_seq = 0;
  arrival_seq = 0;
  stopped = false;
  has_lister = has_lister;
}

pub new_server-Inv : (width : ℕ) (l : Bool) (h : ℕ → RunEntry) → Inv (new_server width l h)
unfolding new_server
new_server-Inv width l h = record {
  at = λ j. ground arith;
  sorted = tt;
  waiting_nodup = tt;
  active_nodup = tt;
}

-- However the handlers follow one another, the server's state is consistent: the queue is sorted by
-- priority and order of entry and holds no run twice, it holds exactly the known runs that are
-- queued, and the slots hold exactly the known runs that are running.
pub reachable-Inv :
    (width : ℕ) (l : Bool) (h : ℕ → RunEntry) {s : Server} → Reach (new_server width l h) s → Inv s
reachable-Inv width l h r = Reach-Inv (new_server-Inv width l h) r
