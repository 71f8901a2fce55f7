-- ===== src/Web/Ticks/Pass.antt =====
-- The pass that is pending when a run ends, internal/web/server.go: `pump` once its stream is over.
use torpeek.Prelude.{
  ℕ, ◌≡◌, refl, sym, ap, ◌∙◌, Bool, true, false, not, ◌&&◌, ◌||◌, List, [], ◌∷◌, ◌==◌, arith,
  if◌then◌else◌, Bool-cases, inl, inr, none, some,
}
use torpeek.Prelude.Int.{pos, ltb_ℤ}
use torpeek.Prelude.Ids.{contains}
use torpeek.Web.Queue.{
  RunState, Server, failed, done, cancelled, final, release_slot, dispatch, trim,
}
use torpeek.Web.Queue.Handlers.{
  RunEvent, progress, failure, finish, outcome, outcome_after, is_done, is_failed,
}
use torpeek.Web.Queue.Inv.{Inv, trim-Inv}
use torpeek.Web.Queue.Dispatch.{dispatch-Inv, dispatch-Served}
use torpeek.Web.Ticks.Turn.{
  has_turn, dispatch-turn, trim-turn, trim-active, settle_run-turn, settle_run-active,
  settle_run-Inv, rearm-turn, rearm-Inv, rearm-active,
}
use torpeek.Web.Queue
use torpeek.Web.Ticks.{Request, Row, is_nil}
use torpeek.Web.Ticks.Handlers.{
  Registry, rearm, again, clear_pending, pending_pass, settle_run, run_pending, pump_row, run_state,
}
use torpeek.Web.Ticks.Specs.{same_self}

-- The request of the pass: the row's, for the files that waited, with no raised ceiling.
abbrev pub pass_request : Row → Request
pass_request row = let req = row.request in record req { files = row.pending; max_bytes = pos 0 }

-- Whether nothing follows the run that ended.
abbrev pub is_last : Registry → ℕ → Bool
is_last r i = is_nil (r.rows i).pending || (r.queue.heap i).is_cancelled || r.queue.stopped

abbrev pub settled : Registry → ℕ → List RunEvent → Registry
settled r i evs = record r { queue = settle_run r.queue i evs }

same_id : (n : ℕ) → (n == n) ≡ true
same_id n = ground arith

settled_lem :
    (r : Registry) (i : ℕ) (evs : List RunEvent)
    → (is_last (settled r i evs) i ≡ is_last r i)
      × ((settle_run r.queue i evs).stopped ≡ r.queue.stopped)
      × ((settle_run r.queue i evs).order ≡ r.queue.order)
unfolding settle_run
settled_lem r i evs = ground arith

pending_pass-none :
    (r : Registry) (i : ℕ) → is_last r i ≡ true → pending_pass r i ≡ (clear_pending r i, none)
unfolding pending_pass
pending_pass-none r i l = simp l refl

pending_pass-some :
    (r : Registry) (i : ℕ)
    → is_last r i ≡ false
    → pending_pass r i ≡ (clear_pending r i, some (pass_request (r.rows i)))
unfolding pending_pass
pending_pass-some r i l = simp l refl

if_final :
    (b : Bool) (x y : RunState)
    → final x ≡ true
    → final y ≡ true
    → final (if b then x else y) ≡ true
if_final true x y p q = p
if_final false x y p q = q

after_final : (o : RunState) (ev : RunEvent) → final o ≡ true → final (outcome_after o ev) ≡ true
unfolding outcome_after final
after_final o progress f = f
after_final o (failure file) f = if_final (ltb_ℤ file (pos 0)) failed o refl f
after_final o (finish c) f = if_final (c && not (is_failed o)) cancelled o refl f

outcome-final : (o : RunState) (evs : List RunEvent) → final o ≡ true → final (outcome o evs) ≡ true
unfolding outcome
outcome-final o [] f = f
outcome-final o (ev ∷ evs) f = outcome-final (outcome_after o ev) evs (after_final o ev f)

settle_run-final :
    (s : Server) (i : ℕ) (evs : List RunEvent) → final ((settle_run s i evs).heap i).state ≡ true
unfolding settle_run release_slot final
settle_run-final s i evs = rw (same_id i) (
    if_final (is_done (outcome done evs) && (s.heap i).is_cancelled) cancelled (outcome done evs)
      refl (outcome-final done evs refl))

not_other : (a b : Bool) → (a && b && false) ≡ false
not_other a b = ground arith

pub again-rearm :
    (ok : ℕ → Bool) (r : Registry) (i : ℕ) (req : Request) (new : ℕ)
    → r.queue.stopped ≡ false
    → contains i r.queue.order ≡ true
    → final (run_state r i) ≡ true
    → (again ok r (some i) (r.rows i).info_hash req new).0
      ≡ record (rearm r i req) { queue = dispatch ok (rearm r i req).queue }
unfolding again
again-rearm ok r i req new s k f =
    simp
      (
        s,
        k,
        f,
        same_self (r.rows i).info_hash,
        not_other (not (is_nil (r.rows i).info_hash)) (not (is_nil (r.rows i).info_hash)),
      )
      refl

going_on : (r : Registry) (i : ℕ) → is_last r i ≡ false → r.queue.stopped ≡ false
going_on r i l = ground arith

pub rearm-request : (r : Registry) (i : ℕ) (req : Request) → ((rearm r i req).rows i).request ≡ req
unfolding rearm
rearm-request r i req = rw (same_id i) refl

rearm-pending :
    (r : Registry) (i : ℕ) (req : Request) → ((rearm (clear_pending r i) i req).rows i).pending ≡ []
unfolding rearm
rearm-pending r i req = rw (same_id i) refl

module _ (ok : ℕ → Bool) (r : Registry) (i : ℕ) (evs : List RunEvent) (new : ℕ) where
  pump_row-last :
      is_last r i ≡ true
      → pump_row ok r i evs new
        ≡ record (clear_pending r i) { queue = Queue.Handlers.pump ok r.queue i evs }
  unfolding pump_row run_pending settle_run Queue.Handlers.pump
  pump_row-last l = rw (pending_pass-none (settled r i evs) i ((settled_lem r i evs).0 ∙ l)) refl

  abbrev next_run : Registry
  next_run = rearm (clear_pending (settled r i evs) i) i (pass_request (r.rows i))

  pump_row-next :
      is_last r i ≡ false
      → r.queue.stopped ≡ false
      → contains i r.queue.order ≡ true
      → pump_row ok r i evs new
        ≡ record next_run { queue = dispatch ok (trim (dispatch ok next_run.queue)) }
  unfolding pump_row run_pending
  pump_row-next l s k = rw (pending_pass-some (settled r i evs) i ((settled_lem r i evs).0 ∙ l)) (
      rw
        (again-rearm ok (clear_pending (settled r i evs) i) i (pass_request (r.rows i)) new
          ((settled_lem r i evs).1 ∙ s) (ap (contains i) (settled_lem r i evs).2 ∙ k)
          (settle_run-final r.queue i evs))
        refl)

pump-settle_run :
    (ok : ℕ → Bool) (s : Server) (i : ℕ) (evs : List RunEvent)
    → Queue.Handlers.pump ok s i evs ≡ dispatch ok (trim (settle_run s i evs))
unfolding Queue.Handlers.pump settle_run
pump-settle_run ok s i evs = refl

-- A row of another run is left alone.
clear_pending-other :
    (r : Registry) (i j : ℕ) → (i == j) ≡ false → (clear_pending r i).rows j ≡ r.rows j
clear_pending-other r i j d = rw d refl

clear_pending-here :
    (r : Registry) (i : ℕ)
    → (((clear_pending r i).rows i).pending ≡ [])
      × (((clear_pending r i).rows i).request ≡ (r.rows i).request)
clear_pending-here r i = (rw (same_id i) refl, rw (same_id i) refl)

rearm-other :
    (r : Registry) (i j : ℕ) (req : Request)
    → (i == j) ≡ false
    → (rearm (clear_pending r i) i req).rows j ≡ r.rows j
unfolding rearm
rearm-other r i j req d = rw d refl

module _ (ok : ℕ → Bool) (r : Registry) (i : ℕ) (evs : List RunEvent) (new : ℕ) (v : Inv r.queue)
    (a : contains i r.queue.active ≡ true) (y : ok i ≡ true) where
  -- What is left alone, and the run's turn: whatever follows, no other run loses its slot.
  abbrev Frames : Registry → Bool → Type 0
  Frames r' again =
      (has_turn r'.queue i ≡ again)
      × ((r'.rows i).pending ≡ [])
      × ((j : ℕ) → (i == j) ≡ false → r'.rows j ≡ r.rows j)
      × ((j : ℕ)
          → (i == j) ≡ false
          → contains j r.queue.active ≡ true
          → contains j r'.queue.active ≡ true)

  settled_Inv : Inv (settle_run r.queue i evs)
  settled_Inv = settle_run-Inv r.queue i evs a v

  -- The queue after the second `dispatch`.
  pumped_active :
      (t : Server) (j : ℕ)
      → Inv t
      → contains j t.active ≡ true
      → contains j (dispatch ok (trim t)).active ≡ true
  pumped_active t j w c = (dispatch-Served ok (trim t) (trim-Inv t w)).kept j (trim-active t j c)

  last_lem :
      is_last r i ≡ true
      → Frames (record (clear_pending r i) { queue = Queue.Handlers.pump ok r.queue i evs }) false
  last_lem l = (
    pump-settled
        ∙ dispatch-turn ok (trim (settle_run r.queue i evs)) i y
        ∙ trim-turn (settle_run r.queue i evs) i
        ∙ settle_run-turn r.queue i evs v a,
    (clear_pending-here r i).0,
    (λ j d. clear_pending-other r i j d),
    (λ j d c. kept j (
        pumped_active (settle_run r.queue i evs) j settled_Inv
          (settle_run-active r.queue i j evs d ∙ c))),
  )
    where
      pump-settled :
          has_turn (Queue.Handlers.pump ok r.queue i evs) i
          ≡ has_turn (dispatch ok (trim (settle_run r.queue i evs))) i
      pump-settled = ap (λ q. has_turn q i) (pump-settle_run ok r.queue i evs)

      kept :
          (j : ℕ)
          → contains j (dispatch ok (trim (settle_run r.queue i evs))).active ≡ true
          → contains j (Queue.Handlers.pump ok r.queue i evs).active ≡ true
      kept j c = ap (λ q. contains j q.active) (pump-settle_run ok r.queue i evs) ∙ c

  next_lem :
      let next = next_run ok r i evs new in
      Frames (record next { queue = dispatch ok (trim (dispatch ok next.queue)) }) true
  next_lem =
      let next = next_run ok r i evs new in
      let req = pass_request (r.rows i) in
      let base = clear_pending (settled r i evs) i in
      let known : contains i base.queue.order ≡ true =
        ap (contains i) (settled_lem r i evs).2 ∙ (v.at i).active_known a in
      let inv : Inv next.queue =
        rearm-Inv base i req known (settle_run-turn r.queue i evs v a) settled_Inv in
      (
        dispatch-turn ok (trim (dispatch ok next.queue)) i y
            ∙ trim-turn (dispatch ok next.queue) i
            ∙ dispatch-turn ok next.queue i y
            ∙ rearm-turn base i req,
        rearm-pending (settled r i evs) i req,
        (λ j d. rearm-other (settled r i evs) i j req d),
        (λ j d c. pumped_active (dispatch ok next.queue) j (dispatch-Inv ok next.queue inv) (
            (dispatch-Served ok next.queue inv).kept j (
              ap (contains j) (rearm-active base i req)
              ∙ settle_run-active r.queue i j evs d
              ∙ c))),
      )

-- A run that held a slot has ended, and the runner does not refuse it. If files wait, it was not cancelled and the server
-- is open, it is captured again: it waits in the queue or holds a slot, and its request is the one from
-- before, for exactly the files that waited and at the ordinary ceiling. If not, it neither waits nor holds a
-- slot, and keeps its request. Either way no file waits for it any more, the rows of the other runs are as
-- they were, and none of them loses its slot.
pub pump_row_lem :
    (ok : ℕ → Bool) (r : Registry) (i : ℕ) (evs : List RunEvent) (new : ℕ)
    → Inv r.queue
    → contains i r.queue.active ≡ true
    → ok i ≡ true
    → let r' = pump_row ok r i evs new in
      let row = r.rows i in
      let again =
        not (is_nil row.pending) && not (r.queue.heap i).is_cancelled && not r.queue.stopped in
      ((contains i r'.queue.waiting || contains i r'.queue.active) ≡ again)
      × ((r'.rows i).request ≡ (
          let req = row.request in
          if again then (record req { files = row.pending; max_bytes = pos 0 }) else req))
      × ((r'.rows i).pending ≡ [])
      × ((j : ℕ) → (i == j) ≡ false → r'.rows j ≡ r.rows j)
      × ((j : ℕ)
          → (i == j) ≡ false
          → contains j r.queue.active ≡ true
          → contains j r'.queue.active ≡ true)
pump_row_lem ok r i evs new v a y = elim (Bool-cases (is_last r i)) [
  | inl l ↦
      let (turn, none_left, rows, slots) = last_lem ok r i evs new v a y l in
      rw (pump_row-last ok r i evs new l) (
        turn ∙ sym (flipped l),
        (clear_pending-here r i).1 ∙ sym (unmoved (flipped l)),
        none_left,
        rows,
        slots,
      )
  | inr l ↦
      let (turn, none_left, rows, slots) = next_lem ok r i evs new v a y in
      rw (pump_row-next ok r i evs new l (going_on r i l) ((v.at i).active_known a)) (
        turn ∙ sym (flipped l),
        rearm-request (clear_pending (settled r i evs) i) i (pass_request (r.rows i))
            ∙ sym (moved (flipped l)),
        none_left,
        rows,
        slots,
      )
]
  where
    goes_again : Bool
    goes_again =
        not (is_nil (r.rows i).pending) && not (r.queue.heap i).is_cancelled && not r.queue.stopped

    flipped : {b : Bool} → is_last r i ≡ b → goes_again ≡ not b
    flipped e = ground (arith, e)

    unmoved :
        goes_again ≡ false
        → (if goes_again then pass_request (r.rows i) else (r.rows i).request) ≡ (r.rows i).request
    unmoved e = rw e refl

    moved :
        goes_again ≡ true
        → (if goes_again then pass_request (r.rows i) else (r.rows i).request)
          ≡ pass_request (r.rows i)
    moved e = rw e refl
