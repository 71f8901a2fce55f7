-- ===== src/Web/Ticks/Turn.antt =====
-- The turn of a run in the queue of internal/web/server.go: it waits, or it holds a slot.
use torpeek.Prelude.{
  ℕ, ◌≡◌, refl, ◌∙◌, ap, ◌≢◌, Bool, true, false, ◌||◌, List, ◌∷◌, ◌==◌, arith, Bool-cases, inl, inr,
  length, ==_iff,
}
use torpeek.Prelude.Ids.{contains}
use torpeek.Web.Queue.{
  Server, queued, running, done, final, launch, begin_listing, begin_run, release_slot, trim,
  dispatch, enqueue_waiting,
}
use torpeek.Web.Queue.Handlers.{RunEvent, outcome}
use torpeek.Web.Queue.Preserve.{outcome_final}
use torpeek.Web.Queue.Inv.{Inv, settle_Inv}
use torpeek.Web.Queue.Keys.{contains-without, contains-add_key, contains-insert}
use torpeek.Web.Queue.Dispatch.{dispatch_loop_rule}
use torpeek.Web.Ticks.{Request}
use torpeek.Web.Ticks.Handlers.{Registry, rearm, settle_run}
use torpeek.Web.Ticks.Entry.{enqueue_Inv}

abbrev pub has_turn : Server → ℕ → Bool
has_turn s i = contains i s.waiting || contains i s.active

launch-turn :
    (ok : ℕ → Bool) (t : Server) (h i : ℕ) (rest : List ℕ)
    → ok i ≡ true
    → t.waiting ≡ h ∷ rest
    → has_turn (launch ok t h rest) i ≡ has_turn t i
unfolding launch begin_listing begin_run release_slot trim
launch-turn ok t h i rest y e = elim (Bool-cases (h == i)) [
  | inl here ↦
      let y' : ok h ≡ true = ap ok ((==_iff h i).0 here) ∙ y in
      ground (arith, y', here, contains-add_key h i t.active, e)
  | inr other ↦
      ground (arith, other, contains-add_key h i t.active, contains-without h i t.active, e)
]

-- A run that the runner does not refuse keeps its turn, and `dispatch` gives none to another.
pub dispatch-turn :
    (ok : ℕ → Bool) (s : Server) (i : ℕ) → ok i ≡ true → has_turn (dispatch ok s) i ≡ has_turn s i
unfolding dispatch
dispatch-turn ok s i y =
    dispatch_loop_rule (λ t. has_turn t i ≡ has_turn s i) ok
      (λ t h rest e m p. launch-turn ok t h i rest y e ∙ p) (length s.waiting) s refl

pub trim-turn : (s : Server) (i : ℕ) → has_turn (trim s) i ≡ has_turn s i
unfolding trim
trim-turn s i = refl

-- The run that has ended has no turn, and the others keep theirs.
pub settle_run-turn :
    (s : Server) (i : ℕ) (evs : List RunEvent)
    → Inv s
    → contains i s.active ≡ true
    → has_turn (settle_run s i evs) i ≡ false
unfolding settle_run release_slot
settle_run-turn s i evs v a = ground (arith, contains-without i i s.active, v.at i)

pub settle_run-active :
    (s : Server) (i j : ℕ) (evs : List RunEvent)
    → (i == j) ≡ false
    → contains j (settle_run s i evs).active ≡ contains j s.active
unfolding settle_run release_slot
settle_run-active s i j evs d = ground (arith, contains-without i j s.active)

module _ (r : Registry) (i : ℕ) (req : Request) where
  pub rearm-turn : has_turn (rearm r i req).queue i ≡ true
  unfolding rearm enqueue_waiting
  rearm-turn = ground (arith, contains-insert (rearm r i req).queue.heap i i r.queue.waiting)

  pub rearm-Inv :
      contains i r.queue.order ≡ true
      → has_turn r.queue i ≡ false
      → Inv r.queue
      → Inv (rearm r i req).queue
  unfolding rearm
  rearm-Inv k n v = enqueue_Inv r.queue i _ k (ground arith) (ground arith) refl v

  pub rearm-active : (rearm r i req).queue.active ≡ r.queue.active
  unfolding rearm enqueue_waiting
  rearm-active = refl

pub rearm-rows :
    (r : Registry) (i j : ℕ) (req : Request) → (i == j) ≡ false → (rearm r i req).rows j ≡ r.rows j
unfolding rearm
rearm-rows r i j req d = rw d refl

pub ended_turn : (s : Server) (i : ℕ) → Inv s → final (s.heap i).state ≡ true → has_turn s i ≡ false
unfolding final
ended_turn s i v f =
    ground (arith, v.at i, Bool-cases (contains i s.waiting), Bool-cases (contains i s.active))

pub trim-active :
    (s : Server) (j : ℕ) → contains j s.active ≡ true → contains j (trim s).active ≡ true
unfolding trim
trim-active s j c = c

pub settle_run-Inv :
    (s : Server) (i : ℕ) (evs : List RunEvent)
    → contains i s.active ≡ true
    → Inv s
    → Inv (settle_run s i evs)
unfolding settle_run
settle_run-Inv s i evs a v =
    settle_Inv s i _ (ground (arith, v.at i)) (λ e. ground (arith, over.0))
      (λ e. ground (arith, over.1)) v
  where
    over : (outcome done evs ≢ queued) × (outcome done evs ≢ running)
    over = outcome_final done evs ((λ e. cc), (λ e. cc))
