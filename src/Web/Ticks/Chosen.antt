-- ===== src/Web/Ticks/Chosen.antt =====
-- A tick and an un-tick, internal/web/server.go, keep the queue and every row in order.
use torpeek.Prelude.{
  ℕ, ◌≡◌, refl, ◌∙◌, Bool, true, false, List, ◌==◌, arith, if◌then◌else◌, Bool-cases, Option-cases,
  inl, inr, Option, none, some,
}
use torpeek.Prelude.Int.{ℤ, pos, ltb_ℤ}
use torpeek.Prelude.Ids.{contains}
use torpeek.Prelude.Text.{trim_space}
use torpeek.Web.Queue.{
  RunState, Server, queued, needs_action, is_needs_action, dispatch, enqueue_waiting, drop_waiting,
}
use torpeek.Web.Queue.Inv.{Inv}
use torpeek.Web.Queue.Dispatch.{dispatch-Inv}
use torpeek.Web.Queue.Going.{Goes, Goes-refl, Goes-trans, dispatch-Goes}
use torpeek.Web.Ticks.{
  Spec, Row, is_nil, choose, tick_row, untick_row, parks, asks_every_video, refuse_untick,
  refuse_tick, holds_file,
}
use torpeek.Web.Ticks.Handlers.{
  Registry, run_state, decide_entry, decide_run, untick_entry, untick_file, name_files, join_queue,
  requeue, park,
}
use torpeek.Web.Ticks.Inv.{still_running, tick_row-IsApart, untick_row-IsApart}
use torpeek.Web.Ticks.Entry.{name_files-Inv, join_queue-Inv, park-Inv}
use torpeek.Web.Ticks.Keeps.{Sound, replace_Sound, if_Sound}

pub parked_state : (st : RunState) → is_needs_action st ≡ true → st ≡ needs_action
parked_state needs_action n = refl
parked_state st n = cc

pub name_files-state :
    (s : Server) (i : ℕ) (files : List Spec) (j : ℕ)
    → ((name_files s i files).heap j).state ≡ (s.heap j).state
unfolding name_files
name_files-state s i files j = ground arith

name_files-known :
    (s : Server) (i : ℕ) (files : List Spec)
    → contains i s.order ≡ true
    → contains i (name_files s i files).order ≡ true
unfolding name_files
name_files-known s i files k = k

pub requeue-Inv :
    (s : Server) (i : ℕ) (files : List Spec)
    → contains i s.order ≡ true
    → Inv s
    → Inv (requeue (is_needs_action (s.heap i).state) s i files)
unfolding requeue
requeue-Inv s i files k v = elim (Bool-cases (is_needs_action (s.heap i).state)) [
  | inl n ↦
      rw (n, requeue)
        (join_queue-Inv named i (name_files-known s i files k) (waits n)
          (name_files-Inv s i files v))
  | inr n ↦ rw (n, requeue) (name_files-Inv s i files v)
]
  where
    named : Server
    named = name_files s i files

    waits : is_needs_action (s.heap i).state ≡ true → ((named.heap i).state ≡ needs_action)
    waits n = name_files-state s i files i ∙ parked_state (s.heap i).state n

requeue-Goes :
    (s : Server) (i j : ℕ) (files : List Spec)
    → Goes s (requeue (is_needs_action (s.heap i).state) s i files) j
unfolding requeue join_queue name_files enqueue_waiting
requeue-Goes s i j files = record { known = λ k. ground arith; going = λ g. ground arith }

pub decide_entry-Sound :
    (ok : ℕ → Bool) (r : Registry) (i : ℕ) (files : List Spec) (count : ℤ)
    → contains i r.queue.order ≡ true
    → Sound r
    → Sound (decide_entry ok r i files count).0
unfolding decide_entry
decide_entry-Sound ok r i files count k h = elim (Option-cases (choose (r.rows i) files)) [
  | inl e ↦ rw (e, decide_entry) h
  | inr (chosen, e) ↦ elim (Bool-cases (asks_every_video (run_state r i) (r.rows i))) [
    | inl y ↦ rw (e, y, decide_entry) h
    | inr n ↦ elim (Bool-cases (tick_row (run_state r i) (r.rows i) chosen count).1) [
      | inl grew ↦ rw (e, n, grew, decide_entry) (grown chosen n)
      | inr same ↦ rw (e, n, same, decide_entry) (kept chosen n)
    ]
  ]
]
  where
    row : List Spec → Row
    row chosen = (tick_row (run_state r i) (r.rows i) chosen count).0

    moved : List Spec → Server
    moved chosen = requeue (is_needs_action (run_state r i)) r.queue i (row chosen).request.files

    moved-Inv : (chosen : List Spec) → Inv (moved chosen)
    moved-Inv chosen = requeue-Inv r.queue i (row chosen).request.files k h.queue

    moved-Goes : (chosen : List Spec) (j : ℕ) → Goes r.queue (dispatch ok (moved chosen)) j
    moved-Goes chosen j =
        Goes-trans r.queue (moved chosen) _ j (requeue-Goes r.queue i j (row chosen).request.files)
          (dispatch-Goes ok (moved chosen) j (moved-Inv chosen))

    grown :
        (chosen : List Spec)
        → asks_every_video (run_state r i) (r.rows i) ≡ false
        → Sound (record {
          queue = dispatch ok (moved chosen);
          rows = λ j. if i == j then row chosen else r.rows j;
        })
    grown chosen n =
        replace_Sound r (dispatch ok (moved chosen)) i (row chosen)
          (dispatch-Inv ok _ (moved-Inv chosen)) (λ j other m. moved-Goes chosen j)
          (still_running (run_state r i) _ (row chosen) (moved-Goes chosen i).going
            (tick_row-IsApart (run_state r i) (r.rows i) chosen count n (h.rows i k)))
          h

    kept :
        (chosen : List Spec)
        → asks_every_video (run_state r i) (r.rows i) ≡ false
        → Sound (record r { rows = λ j. if i == j then row chosen else r.rows j })
    kept chosen n =
        replace_Sound r r.queue i (row chosen) h.queue (λ j other m. Goes-refl r.queue j)
          (tick_row-IsApart (run_state r i) (r.rows i) chosen count n (h.rows i k)) h

pub decide_run-Sound :
    (ok : ℕ → Bool) (r : Registry) (i : Option ℕ) (files : List Spec) (count : ℤ)
    → Sound r
    → Sound (decide_run ok r i files count).0
unfolding decide_run
decide_run-Sound ok r none files count h = h
decide_run-Sound ok r (some i) files count h = if_Sound (is_nil files) _ _ h (
    if_Sound (ltb_ℤ count (pos 0)) _ _ h (
      if_Sound r.queue.stopped _ _ h (elim (Bool-cases (contains i r.queue.order)) [
        | inr u ↦ rw u h
        | inl k ↦ rw k (elim (Option-cases (refuse_tick (run_state r i) (r.rows i))) [
          | inl e ↦ rw (e, decide_run) (decide_entry-Sound ok r i files count k h)
          | inr (why, e) ↦ rw (e, decide_run) h
        ])
      ])))

parks_queued : (st : RunState) (row : Row) (spec : Spec) → parks st row spec ≡ true → st ≡ queued
unfolding parks
parks_queued queued row spec p = refl
parks_queued st row spec p = cc

park-Goes : (s : Server) (i j : ℕ) → (s.heap i).state ≡ queued → Goes s (park s i) j
unfolding park drop_waiting
park-Goes s i j q = record { known = λ k. k; going = λ g. ground arith }

name_files-Goes : (s : Server) (i : ℕ) (files : List Spec) (j : ℕ) → Goes s (name_files s i files) j
unfolding name_files
name_files-Goes s i files j = record { known = λ k. k; going = λ g. ground arith }

untick_entry-Sound :
    (r : Registry) (i : ℕ) (spec : Spec)
    → contains i r.queue.order ≡ true
    → Sound r
    → Sound (untick_entry r i spec)
unfolding untick_entry
untick_entry-Sound r i spec k h = elim (Bool-cases (parks (run_state r i) (r.rows i) spec)) [
  | inl p ↦
      let q : (named.heap i).state ≡ queued =
        name_files-state r.queue i row.request.files i
        ∙ parks_queued (run_state r i) (r.rows i) spec p in
      rw (p, untick_entry)
        (chosen (park named i) (park-Inv named i q named-Inv)
          (λ j. Goes-trans r.queue named _ j (named-Goes j) (park-Goes named i j q)))
  | inr n ↦ rw (n, untick_entry) (chosen named named-Inv named-Goes)
]
  where
    row : Row
    row = untick_row (run_state r i) (r.rows i) spec

    named : Server
    named = name_files r.queue i row.request.files

    named-Inv : Inv named
    named-Inv = name_files-Inv r.queue i row.request.files h.queue

    named-Goes : (j : ℕ) → Goes r.queue named j
    named-Goes j = name_files-Goes r.queue i row.request.files j

    chosen :
        (t : Server)
        → Inv t
        → ((j : ℕ) → Goes r.queue t j)
        → Sound (record { queue = t; rows = λ j. if i == j then row else r.rows j })
    chosen t v g =
        replace_Sound r t i row v (λ j other m. g j)
          (still_running (run_state r i) _ row (g i).going
            (untick_row-IsApart (run_state r i) (r.rows i) spec (h.rows i k)))
          h

pub untick_file-Sound :
    (r : Registry) (i : Option ℕ) (file : Spec) → Sound r → Sound (untick_file r i file).0
unfolding untick_file
untick_file-Sound r none file h = h
untick_file-Sound r (some i) file h =
    if_Sound r.queue.stopped _ _ h (elim (Bool-cases (contains i r.queue.order)) [
      | inr u ↦ rw u h
      | inl k ↦ rw k (elim (Bool-cases (holds_file (r.rows i) (trim_space file))) [
        | inr u ↦ rw (u, untick_file) h
        | inl y ↦
            rw (y, untick_file)
              (elim (Option-cases (refuse_untick (run_state r i) (r.rows i) (trim_space file))) [
                | inl e ↦ rw (e, untick_file) (untick_entry-Sound r i (trim_space file) k h)
                | inr (why, e) ↦ rw (e, untick_file) h
              ])
      ])
    ])
