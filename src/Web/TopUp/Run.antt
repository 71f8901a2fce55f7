-- ===== src/Web/TopUp/Run.antt =====
-- `TopUpRun` of internal/web/server.go: the run that finishes an earlier one. What `TopUp` and `LoadRun`
-- read from disk is an argument, `none` if there is no single run for the torrent.
use torpeek.Prelude.{ℕ, ◌≡◌, refl, ap, ◌∙◌, Bool, true, false, ◌||◌, ◌==◌, List, Option, none, some}
use torpeek.Prelude.Int.{ℤ}
use torpeek.Prelude.Ids.{contains}
use torpeek.Web.Queue.{final, dispatch}
use torpeek.Web.Queue.Inv.{Inv}
use torpeek.Web.Queue.Dispatch.{dispatch-Served}
use torpeek.Web.Ticks.Turn.{
  has_turn, dispatch-turn, rearm-turn, rearm-Inv, rearm-active, rearm-rows, ended_turn,
}
use torpeek.Web.Ticks.{Request, is_nil, asks_every_video}
use torpeek.Web.Ticks.Handlers.{Registry, Verdict, again, rearm, run_state}
use torpeek.Web.Ticks.Union.{nil_asks}
use torpeek.Web.Ticks.Pass.{again-rearm, rearm-request}
use torpeek.Web.TopUp.{Receipt, RecordedRun, TopUp, TopUpRefusal, top_up_for, top_up_request}
use torpeek.Web.TopUp.Laws.{top_up_for_lem}

pub data TopUpVerdict : Type 0 where
  nothing_on_disk : TopUpVerdict
  not_offered : TopUpRefusal → TopUpVerdict
  asked : Verdict → TopUpVerdict

abbrev answered : Registry × Verdict → Registry × TopUpVerdict
answered (r, v) = (r, asked v)

unfoldable pub top_up_run :
    (ℕ → Bool)
    → Registry
    → Option ℕ
    → List ℕ
    → Option (TopUp × RecordedRun)
    → ℕ
    → Registry × TopUpVerdict
unfolding again top_up_request
top_up_run ok r i hash none new = (r, nothing_on_disk)
top_up_run ok r i hash (some (t, run)) new = elim t.refused [
  | some why ↦ (r, not_offered why)
  | none ↦ answered (again ok r i hash (top_up_request t run) new)
]

top_up_run-offered :
    (ok : ℕ → Bool) (r : Registry) (i : ℕ) (hash : List ℕ) (t : TopUp) (run : RecordedRun) (new : ℕ)
    → t.refused ≡ none
    → (top_up_run ok r (some i) hash (some (t, run)) new).0
      ≡ (again ok r (some i) hash (top_up_request t run) new).0
unfolding top_up_run
top_up_run-offered ok r i hash t run new o = rw (o, top_up_run) refl

-- A top-up that is offered for a run that has ended, with the server open and a runner that does not refuse the run: the
-- run waits in the queue or holds a slot, its request is the one that asks for what is missing, and it does not
-- ask for every video, however it goes on. No other row changes, and no run that held a slot loses it.
pub top_up_run_lem :
    (ok : ℕ → Bool) (r : Registry) (i : ℕ) (manifest : ℕ → List ℕ → Option Receipt) (roof_bytes : ℤ)
    (run : RecordedRun) (new : ℕ)
    → let t = top_up_for manifest roof_bytes run in
      t.refused ≡ none
      → r.queue.stopped ≡ false
      → contains i r.queue.order ≡ true
      → final (run_state r i) ≡ true
      → ok i ≡ true
      → Inv r.queue
      → let r' = (top_up_run ok r (some i) (r.rows i).info_hash (some (t, run)) new).0 in
        ((contains i r'.queue.waiting || contains i r'.queue.active) ≡ true)
        × ((r'.rows i).request ≡ top_up_request t run)
        × (asks_every_video (run_state r' i) (r'.rows i) ≡ false)
        × ((j : ℕ) → (i == j) ≡ false → r'.rows j ≡ r.rows j)
        × ((j : ℕ) → contains j r.queue.active ≡ true → contains j r'.queue.active ≡ true)
top_up_run_lem ok r i manifest roof_bytes run new o s k f y v = (
  ap (λ q. has_turn q.queue i) goes ∙ dispatch-turn ok armed.queue i y ∙ rearm-turn r i req,
  asks,
  nil_asks (run_state r' i) (r'.rows i)
      (ap (λ q. is_nil q.files) asks ∙ (top_up_for_lem manifest roof_bytes run).2 o),
  (λ j d. ap (λ q. q.rows j) goes ∙ rearm-rows r i j req d),
  (λ j c.
      ap (λ q. contains j q.queue.active) goes
      ∙ (dispatch-Served ok armed.queue (rearm-Inv r i req k (ended_turn r.queue i v f) v)).kept j
          (ap (contains j) (rearm-active r i req) ∙ c)),
)
  where
    t : TopUp
    t = top_up_for manifest roof_bytes run

    req : Request
    req = top_up_request t run

    armed : Registry
    armed = rearm r i req

    r' : Registry
    r' = (top_up_run ok r (some i) (r.rows i).info_hash (some (t, run)) new).0

    goes : r' ≡ record armed { queue = dispatch ok armed.queue }
    goes =
        top_up_run-offered ok r i (r.rows i).info_hash t run new o
        ∙ again-rearm ok r i req new s k f

    asks : (r'.rows i).request ≡ top_up_request t run
    asks = ap (λ q. (q.rows i).request) goes ∙ rearm-request r i req
