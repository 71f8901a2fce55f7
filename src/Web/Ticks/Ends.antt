-- ===== src/Web/Ticks/Ends.antt =====
-- The end of a listing and of a run, internal/web/server.go, keep the queue and every row in order.
use torpeek.Prelude.{
  ℕ, ◌≡◌, refl, sym, ap, subst, Bool, true, false, List, [], ◌==◌, arith, ==_iff, length,
  Bool-cases, inl, inr, Option, none, some,
}
use torpeek.Prelude.Int.{ℤ}
use torpeek.Prelude.Ids.{contains}
use torpeek.Web.Queue.{Server, dispatch, trim, unlisted, videos}
use torpeek.Web.Queue.Handlers.{RunEvent}
use torpeek.Web.Queue.Inv.{Inv, trim-Inv}
use torpeek.Web.Queue.Dispatch.{dispatch-Inv}
use torpeek.Web.Queue.Preserve.{list_then_run-Inv}
use torpeek.Web.Queue.Going.{
  Goes, Goes-trans, trim-Goes, dispatch-Goes, release-Goes, list_then_run-Goes,
}
use torpeek.Web.Ticks.{Request, is_nil}
use torpeek.Web.Ticks.Turn.{settle_run-Inv}
use torpeek.Web.Ticks.Handlers.{
  Registry, run_state, clear_pending, pending_pass, settle_run, run_pending, pump_row, learn,
  list_run,
}
use torpeek.Web.Ticks.Inv.{IsApart, nothing_pending}
use torpeek.Web.Ticks.Keeps.{Sound, move_Sound, replace_Sound, move_but_Sound, again-Sound}

pub learn-Sound :
    (r : Registry) (i : ℕ) (held : List ℤ) (hash : List ℕ) → Sound r → Sound (learn r i held hash)
unfolding learn
learn-Sound r i held hash h = record {
  queue = h.queue;
  rows = λ j k. elim (Bool-cases (i == j)) [
    | inl here ↦ rw here (
        let v : IsApart (run_state r j) (r.rows i) =
          subst (λ m. IsApart (run_state r j) (r.rows m)) (sym ((==_iff i j).0 here))
            (h.rows j k) in
        (record {
          behind = v.behind;
          named = v.named;
          apart = v.apart;
          was_asked = v.was_asked;
          once = v.once;
        }))
    | inr other ↦ rw other (h.rows j k)
  ];
}

pub list_run-Sound :
    (ok : ℕ → Bool) (r : Registry) (i : ℕ) (l : Option (List ℤ × List ℕ))
    → contains i r.queue.active ≡ true
    → (r.rows i).request.files ≡ []
    → Sound r
    → Sound (list_run ok r i l)
unfolding list_run learn
list_run-Sound ok r i none a e h =
    move_but_Sound r _ i (list_then_run-Inv ok r.queue i unlisted a h.queue)
      (λ j other k. list_then_run-Goes ok r.queue i j unlisted other a h.queue)
      ((h.rows i ((h.queue.at i).active_known a)).named (ap is_nil e)) h
list_run-Sound ok r i (some (held, hash)) a e h =
    replace_Sound r _ i _ (list_then_run-Inv ok r.queue i (videos (length held)) a h.queue)
      (λ j other k. list_then_run-Goes ok r.queue i j (videos (length held)) other a h.queue)
      (nothing_pending _ _ ((h.rows i ((h.queue.at i).active_known a)).named (ap is_nil e))) h

settle_run-Goes :
    (ok : ℕ → Bool) (s : Server) (i j : ℕ) (evs : List RunEvent)
    → (i == j) ≡ false
    → Goes s (settle_run s i evs) j
unfolding settle_run
settle_run-Goes ok s i j evs other = release-Goes ok s i j other _

pub pending_pass-clear : (r : Registry) (i : ℕ) → (pending_pass r i).0 ≡ clear_pending r i
unfolding pending_pass
pending_pass-clear r i = ground arith

run_pending-Sound :
    (ok : ℕ → Bool) (r : Registry) (i : ℕ) (next : Option Request) (new : ℕ)
    → contains new r.queue.order ≡ false
    → Sound r
    → Sound (run_pending ok r i next new)
unfolding run_pending
run_pending-Sound ok r i none new fresh h = h
run_pending-Sound ok r i (some req) new fresh h =
    again-Sound ok r (some i) (r.rows i).info_hash req new fresh h

tidy_Sound :
    (ok : ℕ → Bool) (r : Registry)
    → Sound r
    → Sound (record r { queue = dispatch ok (trim r.queue) })
tidy_Sound ok r h =
    move_Sound r _ (dispatch-Inv ok _ trimmed)
      (λ j k.
        Goes-trans r.queue (trim r.queue) _ j (trim-Goes r.queue j)
          (dispatch-Goes ok (trim r.queue) j trimmed))
      h
  where
    trimmed : Inv (trim r.queue)
    trimmed = trim-Inv r.queue h.queue

pub pump_row-Sound :
    (ok : ℕ → Bool) (r : Registry) (i : ℕ) (evs : List RunEvent) (new : ℕ)
    → contains i r.queue.active ≡ true
    → contains new r.queue.order ≡ false
    → Sound r
    → Sound (pump_row ok r i evs new)
unfolding pump_row
pump_row-Sound ok r i evs new a fresh h = tidy_Sound ok (run_pending ok claimed.0 i claimed.1 new) (
    run_pending-Sound ok claimed.0 i claimed.1 new (rw (pending_pass-clear settled i) fresh)
      (rw (pending_pass-clear settled i) cleared))
  where
    settled : Registry
    settled = record r { queue = settle_run r.queue i evs }

    claimed : Registry × Option Request
    claimed = pending_pass settled i

    cleared : Sound (clear_pending settled i)
    cleared =
        replace_Sound r (settle_run r.queue i evs) i _ (settle_run-Inv r.queue i evs a h.queue)
          (λ j other k. settle_run-Goes ok r.queue i j evs other) (nothing_pending _ _ refl) h
