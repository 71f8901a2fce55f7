-- ===== src/Web/Ticks/Keeps.antt =====
-- The handlers of the choice of files, internal/web/server.go, keep the queue and every row in order.
use torpeek.Prelude.{
  ℕ, ◌≡◌, refl, sym, ◌≢◌, subst, Bool, true, false, not, List, [], ◌==◌, arith, if◌then◌else◌,
  ==_iff, Bool-cases, inl, inr, Option, none, some,
}
use torpeek.Prelude.Int.{pos}
use torpeek.Prelude.Ids.{contains}
use torpeek.Web.Queue.{
  RunState, RunEntry, Server, queued, running, final, is_running, put, dispatch, enqueue_waiting,
}
use torpeek.Web.Queue.Handlers.{Error, start_run}
use torpeek.Web.Queue.Inv.{Inv}
use torpeek.Web.Queue.Dispatch.{dispatch-Inv}
use torpeek.Web.Queue.Going.{Goes, dispatch-Goes, start_run-Goes}
use torpeek.Web.Queue.Steps.{Step-Inv, starts}
use torpeek.Web.Ticks.{Row, Request, is_nil}
use torpeek.Web.Ticks.Handlers.{
  Registry, Verdict, no_such_run, staged_file, run_state, update_row, new_row, queue_request, enter,
  start_row, rearm, again, retry_run,
}
use torpeek.Web.Ticks.Inv.{IsApart, nothing_pending, still_running}
use torpeek.Web.Ticks.Entry.{enqueue_Inv}

-- The queue is in order, and so is the row of every run that the server knows.
pub record Sound (r : Registry) : Type 0 where
  pub queue : Inv r.queue
  pub rows : (j : ℕ) → contains j r.queue.order ≡ true → IsApart (run_state r j) (r.rows j)

-- A queue that moves on, with the rows as they are.
pub move_Sound :
    (r : Registry) (t : Server)
    → Inv t
    → ((j : ℕ) → contains j t.order ≡ true → Goes r.queue t j)
    → Sound r
    → Sound (record r { queue = t })
move_Sound r t v g h = record {
  queue = v;
  rows = λ j k.
      still_running (run_state r j) (t.heap j).state (r.rows j) (g j k).going
        (h.rows j ((g j k).known k));
}

-- A queue that moves on, and a new row for one run.
pub replace_Sound :
    (r : Registry) (t : Server) (i : ℕ) (row : Row)
    → Inv t
    → ((j : ℕ) → (i == j) ≡ false → contains j t.order ≡ true → Goes r.queue t j)
    → IsApart (t.heap i).state row
    → Sound r
    → Sound (record { queue = t; rows = update_row r.rows i row })
replace_Sound r t i row v g a h = record {
  queue = v;
  rows = λ j k. elim (Bool-cases (i == j)) [
    | inl here ↦ rw here (subst (λ m. IsApart (t.heap m).state row) ((==_iff i j).0 here) a)
    | inr other ↦ rw other (
        still_running (run_state r j) (t.heap j).state (r.rows j) (g j other k).going
          (h.rows j ((g j other k).known k)))
  ];
}

-- A queue that moves on, when nothing is pending for the one run that it may stop.
pub move_but_Sound :
    (r : Registry) (t : Server) (i : ℕ)
    → Inv t
    → ((j : ℕ) → (i == j) ≡ false → contains j t.order ≡ true → Goes r.queue t j)
    → (r.rows i).pending ≡ []
    → Sound r
    → Sound (record r { queue = t })
move_but_Sound r t i v g e h = record {
  queue = v;
  rows = λ j k. elim (Bool-cases (i == j)) [
    | inl here ↦ nothing_pending _ _ (subst (λ m. (r.rows m).pending ≡ []) ((==_iff i j).0 here) e)
    | inr other ↦
        still_running (run_state r j) (t.heap j).state (r.rows j) (g j other k).going
          (h.rows j ((g j other k).known k))
  ];
}

pub dispatch-Sound :
    (ok : ℕ → Bool) (r : Registry) → Sound r → Sound (record r { queue = dispatch ok r.queue })
dispatch-Sound ok r h =
    move_Sound r _ (dispatch-Inv ok r.queue h.queue) (λ j k. dispatch-Goes ok r.queue j h.queue) h

enter-Sound :
    (r : Registry) (new : ℕ) (req : Request) (p : Server × Option Error)
    → Inv p.0
    → ((j : ℕ) → (new == j) ≡ false → contains j p.0.order ≡ true → Goes r.queue p.0 j)
    → Sound r
    → Sound (enter r new req p).0
enter-Sound r new req (s, some e) v g h = h
enter-Sound r new req (s, none) v g h =
    replace_Sound r s new (new_row req) v g (nothing_pending _ _ refl) h

pub start_row-Sound :
    (ok : ℕ → Bool) (r : Registry) (new : ℕ) (req : Request)
    → contains new r.queue.order ≡ false
    → Sound r
    → Sound (start_row ok r new req).0
unfolding start_row
start_row-Sound ok r new req fresh h =
    enter-Sound r new req (start_run ok r.queue new (queue_request req))
      (Step-Inv (starts ok new (queue_request req) fresh) h.queue)
      (λ j other k. start_run-Goes ok r.queue new j (queue_request req) other fresh h.queue) h

pub not_going : (st : RunState) → final st ≡ true → is_running st ≡ false
unfolding final
not_going running f = sym f
not_going st f = refl

final_over : (st : RunState) → final st ≡ true → (st ≢ queued) × (st ≢ running)
unfolding final
final_over st f =
    ((λ q. let e : false ≡ true = rw q at f in cc), (λ q. let e : false ≡ true = rw q at f in cc))

enqueue-Goes :
    (s : Server) (i j : ℕ) (e : RunEntry)
    → (i == j) ≡ false
    → Goes s (enqueue_waiting (put s i e) i) j
unfolding enqueue_waiting
enqueue-Goes s i j e other = record { known = λ k. k; going = λ g. ground arith }

-- A refusal or a result.
pub if_Sound :
    (b : Bool) (x y : Registry × Verdict) → Sound x.0 → Sound y.0 → Sound (if b then x else y).0
if_Sound true x y p q = p
if_Sound false x y p q = q

pub rearm-Sound :
    (r : Registry) (i : ℕ) (req : Request)
    → contains i r.queue.order ≡ true
    → final (run_state r i) ≡ true
    → Sound r
    → Sound (rearm r i req)
unfolding rearm
rearm-Sound r i req k f h =
    replace_Sound r _ i _
      (enqueue_Inv r.queue i _ k (ground (arith, over.0, h.queue.at i))
        (ground (arith, over.1, h.queue.at i)) refl h.queue)
      (λ j other known. enqueue-Goes r.queue i j _ other)
      (nothing_pending _ _ ((h.rows i k).behind (not_going (run_state r i) f))) h
  where
    over : (run_state r i ≢ queued) × (run_state r i ≢ running)
    over = final_over (run_state r i) f

pub again-Sound :
    (ok : ℕ → Bool) (r : Registry) (i : Option ℕ) (hash : List ℕ) (req : Request) (new : ℕ)
    → contains new r.queue.order ≡ false
    → Sound r
    → Sound (again ok r i hash req new).0
unfolding again
again-Sound ok r none hash req new fresh h =
    if_Sound r.queue.stopped _ _ h (start_row-Sound ok r new req fresh h)
again-Sound ok r (some i) hash req new fresh h =
    if_Sound r.queue.stopped _ _ h (elim (Bool-cases (contains i r.queue.order)) [
      | inr u ↦ rw u (start_row-Sound ok r new req fresh h)
      | inl k ↦ rw k (elim (Bool-cases (final (run_state r i))) [
        | inr n ↦ rw n h
        | inl f ↦ rw f (
            if_Sound _ _ _ (start_row-Sound ok r new req fresh h)
              (dispatch-Sound ok (rearm r i req) (rearm-Sound r i req k f h)))
      ])
    ])

pub retry_run-Sound :
    (ok : ℕ → Bool) (r : Registry) (i : Option ℕ) (new : ℕ)
    → contains new r.queue.order ≡ false
    → Sound r
    → Sound (retry_run ok r i new).0
unfolding retry_run
retry_run-Sound ok r none new fresh h = h
retry_run-Sound ok r (some i) new fresh h =
    if_Sound (not (contains i r.queue.order)) (r, no_such_run) retried h
      (if_Sound (not (is_nil (r.rows i).request.label)) (r, staged_file) tried h
        (again-Sound ok r (some i) [] (ordinary (r.rows i).request) new fresh h))
  where
    ordinary : Request → Request
    ordinary req = record req { max_bytes = pos 0 }

    tried : Registry × Verdict
    tried = again ok r (some i) [] (ordinary (r.rows i).request) new

    retried : Registry × Verdict
    retried = if not (is_nil (r.rows i).request.label) then (r, staged_file) else tried
