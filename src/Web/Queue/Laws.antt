-- ===== src/Web/Queue/Laws.antt =====
-- What single handlers of internal/web/server.go do: to the order of the queue, to the history
-- that is kept, to how a run ends, and at the close.
use torpeek.Prelude.{
  ℕ, suc, ◌+◌, ◌≡◌, refl, ◌≢◌, Bool, true, false, ◌&&◌, ◌||◌, List, [], ◌∷◌, ◌++◌, ◌==◌, arith,
  if◌then◌else◌, ◌≤◌, none, some, All, ◌∙◌, min, subst,
}
use torpeek.Prelude.Int.{ℤ, pos, ltb_ℤ}
use torpeek.Prelude.Ids.{contains, cut, contains-cut, contains-append}
use torpeek.Web.Queue.{
  RunEntry, Server, queued, done, failed, cancelled, needs_action, update, trim, trim_from, rev,
  final, dispatch, keep_finished_runs, is_needs_action, queue_before,
}
use torpeek.Web.Queue.Handlers.{
  RunEvent, progress, failure, finish, outcome, cancel_run, cancel_in, reprioritise, cancel_all,
  parked, strand, close, is_waiting,
}
use torpeek.Web.Queue.Order.{Sorted, cut-insert}
use torpeek.Web.Queue.Inv.{Inv, trim-keeps, trim-known}
use torpeek.Web.Queue.Dispatch.{Served, dispatch-Served}
use torpeek.Web.Queue.Preserve.{cancel_all_lem, contains-parked}

-- Under the invariant, setting the priority of a run that waits moves that run alone: with it cut
-- out, the queue is the one from before with it cut out. Its place in the order of entry stays.
pub reprioritise-cut :
    (s : Server) (i : ℕ) (p : ℤ)
    → Inv s
    → (s.heap i).state ≡ queued
    → (cut i (reprioritise s i p).waiting ≡ cut i s.waiting)
      × (((reprioritise s i p).heap i).queue_seq ≡ (s.heap i).queue_seq)
unfolding reprioritise
reprioritise-cut s i p v q =
    let w : is_waiting (s.heap i).state ≡ true = ground arith in
    let h : ℕ → RunEntry = let e = s.heap i in update s.heap i (record e { priority = p }) in
    rw w (
      cut-insert h i (cut i s.waiting) (ground (arith, contains-cut i i s.waiting v.waiting_nodup)),
      ground arith,
    )

All-right : (P : ℕ → Type 0) (xs ys : List ℕ) → All P (xs ++ ys) → All P ys
All-right P [] ys a = a
All-right P (x ∷ xs) ys a = All-right P xs ys a.1

Sorted-append :
    (h : ℕ → RunEntry) (xs ys : List ℕ)
    → Sorted h (xs ++ ys)
    → All (λ i. All (λ j. queue_before (h j) (h i) ≡ false) ys) xs
Sorted-append h [] ys s = tt
Sorted-append h (x ∷ xs) ys s = (All-right _ xs ys s.0, Sorted-append h xs ys s.1)

-- Under the invariant, whatever `dispatch` took from the queue, it took from the head, so a run
-- that still waits precedes none of those that were taken; and no run lost its slot.
pub dispatch_order :
    (ok : ℕ → Bool) (s : Server)
    → Inv s
    → (started : List ℕ) × (s.waiting ≡ started ++ (dispatch ok s).waiting)
      × All
          (λ i. All (λ j. queue_before (s.heap j) (s.heap i) ≡ false) (dispatch ok s).waiting)
          started
      × ((j : ℕ) → contains j s.active ≡ true → contains j (dispatch ok s).active ≡ true)
dispatch_order ok s v =
    let w : Served s (dispatch ok s) = dispatch-Served ok s v in
    (
      w.started,
      w.from_head,
      Sorted-append s.heap w.started (dispatch ok s).waiting
          (subst (Sorted s.heap) w.from_head v.sorted),
      w.kept,
    )

-- The ended runs among those of a list.
abbrev pub count_final : (ℕ → RunEntry) → List ℕ → ℕ
count_final h [] = 0
count_final h (i ∷ is) = if final (h i).state then suc (count_final h is) else count_final h is

count_final-trim_from :
    (h : ℕ → RunEntry) (n : ℕ) (is : List ℕ)
    → min n keep_finished_runs + count_final h (trim_from h n is) ≤ keep_finished_runs
unfolding trim_from
count_final-trim_from h n [] = omega arith
count_final-trim_from h n (i ∷ is) =
    ground (arith, count_final-trim_from h (if final (h i).state then n + 1 else n) is)

count_final-rev :
    (h : ℕ → RunEntry) (xs acc : List ℕ)
    → count_final h (rev xs acc) ≡ count_final h xs + count_final h acc
count_final-rev h [] acc = omega arith
count_final-rev h (x ∷ xs) acc = ground (arith, count_final-rev h xs (x ∷ acc))

trim-count : (s : Server) → count_final s.heap (trim s).order ≤ 10
unfolding trim
trim-count s = omega (
  arith,
  count_final-rev s.heap (trim_from s.heap 0 (rev s.order [])) [],
  count_final-trim_from s.heap 0 (rev s.order []),
)

-- Trimming keeps ten ended runs at most, every run that has not ended, and brings none back.
pub trim_bounds :
    (s : Server)
    → (count_final s.heap (trim s).order ≤ 10)
      × ((j : ℕ) → final (s.heap j).state ≡ false → contains j (trim s).order ≡ contains j s.order)
      × ((j : ℕ) → contains j (trim s).order ≡ true → contains j s.order ≡ true)
trim_bounds s = (trim-count s, trim-keeps s, trim-known s)

-- A whole-run failure, and a stop by cancelling, among the events.
abbrev pub any_failure : List RunEvent → Bool
any_failure [] = false
any_failure (failure file ∷ evs) = ltb_ℤ file (pos 0) || any_failure evs
any_failure (_ ∷ evs) = any_failure evs

abbrev pub any_cancel : List RunEvent → Bool
any_cancel [] = false
any_cancel (finish c ∷ evs) = c || any_cancel evs
any_cancel (_ ∷ evs) = any_cancel evs

outcome-failed : (evs : List RunEvent) → outcome failed evs ≡ failed
unfolding outcome
outcome-failed [] = refl
outcome-failed (progress ∷ evs) = outcome-failed evs
outcome-failed (failure file ∷ evs) = ground (arith, outcome-failed evs)
outcome-failed (finish c ∷ evs) = ground (arith, outcome-failed evs)

outcome-cancelled :
    (evs : List RunEvent) → outcome cancelled evs ≡ (if any_failure evs then failed else cancelled)
unfolding outcome
outcome-cancelled [] = refl
outcome-cancelled (progress ∷ evs) = outcome-cancelled evs
outcome-cancelled (failure file ∷ evs) = ground (arith, outcome-failed evs, outcome-cancelled evs)
outcome-cancelled (finish c ∷ evs) = ground (arith, outcome-cancelled evs)

-- A run failed if any of its events is a failure of the whole run; else it was cancelled if any
-- says so; else it is done. The order of the events does not matter.
pub outcome-done :
    (evs : List RunEvent)
    → outcome done evs
      ≡ (if any_failure evs then failed else if any_cancel evs then cancelled else done)
unfolding outcome
outcome-done [] = refl
outcome-done (progress ∷ evs) = outcome-done evs
outcome-done (failure file ∷ evs) = ground (arith, outcome-failed evs, outcome-done evs)
outcome-done (finish c ∷ evs) = ground (arith, outcome-cancelled evs, outcome-done evs)

-- Cancelling a known run that is queued takes it out of the queue and ends it at once, without an
-- error; under the invariant it waits no longer, and every other run waits as before.
pub cancel_run-queued :
    (s : Server) (i : ℕ)
    → Inv s
    → contains i s.order ≡ true
    → (s.heap i).state ≡ queued
    → let (t, err) = cancel_run s (some i) in
      (err ≡ none)
      × ((t.heap i).state ≡ cancelled)
      × ((j : ℕ) → contains j t.waiting ≡ (if i == j then false else contains j s.waiting))
unfolding cancel_run cancel_in trim
cancel_run-queued s i v k q =
    rw (k, q) (refl, ground arith, λ j. contains-cut i j s.waiting v.waiting_nodup)

close_heap :
    (s : Server) (j : ℕ)
    → cancel_all s.heap (s.waiting ++ parked s.heap s.order) j ≡ (
        if contains j s.waiting || (contains j s.order && is_needs_action (s.heap j).state)
        then strand s.heap j
        else s.heap j)
close_heap s j =
    cancel_all_lem s.heap (s.waiting ++ parked s.heap s.order) j
    ∙ (rw (contains-append j s.waiting (parked s.heap s.order), contains-parked s.heap j s.order))

-- Under the invariant, after `Close` the queue is empty and the server is stopped, no known run is
-- queued or waits for an answer, and the runs that hold a slot are left to end by themselves.
pub close_lem :
    (s : Server)
    → Inv s
    → s.stopped ≡ false
    → ((close s).stopped ≡ true)
      × ((close s).waiting ≡ [])
      × ((close s).active ≡ s.active)
      × ((j : ℕ)
          → contains j s.order ≡ true
          → (((close s).heap j).state ≢ queued) × (((close s).heap j).state ≢ needs_action))
      × ((j : ℕ) → contains j s.active ≡ true → (close s).heap j ≡ s.heap j)
unfolding close
close_lem s v n = rw n (refl, refl, refl, ended, left)
  where
    h : ℕ → RunEntry
    h = cancel_all s.heap (s.waiting ++ parked s.heap s.order)

    ended :
        (j : ℕ) → contains j s.order ≡ true → ((h j).state ≢ queued) × ((h j).state ≢ needs_action)
    ended j k = (
      (λ e. ground (arith, close_heap s j, v.at j)),
      (λ e. ground (arith, close_heap s j, v.at j)),
    )

    left : (j : ℕ) → contains j s.active ≡ true → h j ≡ s.heap j
    left j a = ground (arith, close_heap s j, v.at j)
