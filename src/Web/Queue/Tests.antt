-- ===== src/Web/Queue/Tests.antt =====
-- Runs of the queue of internal/web/server.go at concrete inputs.
use torpeek.Prelude.{
  ℕ, ◌≡◌, refl, ◌≢◌, Bool, true, false, List, [], ◌∷◌, ◌++◌, length, ◌≤◌, ◌⊎◌, All, arith,
}
use torpeek.Prelude.Ids.{contains, cut}
use torpeek.Prelude.Int.{pos}
use torpeek.Web.Queue.{
  RunEntry, Server, queued, running, done, needs_action, dispatch, dispatch_loop, queue_before,
  insert_waiting,
}
use torpeek.Web.Queue.Handlers.{RunRequest, admit, start_run, reprioritise, close}
use torpeek.Web.Queue.Inv.{Inv}
use torpeek.Web.Queue.Dispatch.{dispatch_loop-enough, dispatch-Settled}
use torpeek.Web.Queue.Steps.{Reach, here, next, starts, new_server, reachable-Inv}
use torpeek.Web.Queue.Laws.{dispatch_order, close_lem}

abbrev accept : ℕ → Bool
accept i = true

abbrev blank : ℕ → RunEntry
blank i = record {
  state = done;
  is_cancelled = false;
  listed = false;
  files = 0;
  priority = pos 0;
  queue_seq = 0;
  arrival = 0;
}

abbrev request : RunRequest
request = record { is_blank = false; count = pos 0; files = 0 }

-- A server of width one, on which the runs 7, 8 and 9 were started.
abbrev after_one : Server
after_one = (start_run accept (new_server 1 false blank) 7 request).0

abbrev after_two : Server
after_two = (start_run accept after_one 8 request).0

abbrev busy : Server
busy = (start_run accept after_two 9 request).0

busy_lists : (busy.waiting ≡ 8 ∷ 9 ∷ []) × (busy.active ≡ 7 ∷ []) × (busy.order ≡ 7 ∷ 8 ∷ 9 ∷ [])
unfolding start_run admit dispatch new_server insert_waiting queue_before
busy_lists = (refl, refl, refl)

busy-Reach : Reach (new_server 1 false blank) busy
unfolding start_run admit dispatch new_server insert_waiting queue_before
busy-Reach =
    next (next (next here (starts accept 7 request refl)) (starts accept 8 request refl))
      (starts accept 9 request refl)

reachable-Inv_example : Inv busy
reachable-Inv_example = reachable-Inv 1 false blank busy-Reach

busy_states :
    ((busy.heap 9).state ≡ queued)
    × ((busy.heap 7).state ≡ running)
    × (busy.stopped ≡ false)
    × (contains 9 busy.order ≡ true)
unfolding start_run admit dispatch new_server insert_waiting queue_before
busy_states = (refl, refl, refl, refl)

-- The run 9 overtakes the run 8.
reprioritise_overtakes : (reprioritise busy 9 (pos 1)).waiting ≡ 9 ∷ 8 ∷ []
unfolding start_run admit dispatch new_server insert_waiting queue_before reprioritise cut
reprioritise_overtakes = refl

-- With a width of two, the head of the queue gets the second slot.
abbrev wider : Server
wider = record busy { max_active = 2 }

wider_serves :
    ((dispatch accept wider).waiting ≡ 9 ∷ []) × (length (dispatch accept wider).active ≡ 2)
unfolding start_run admit dispatch new_server insert_waiting queue_before
wider_serves = (refl, refl)

dispatch-Settled_example :
    ((dispatch accept wider).stopped ≡ true)
    ⊎ ((dispatch accept wider).max_active ≤ length (dispatch accept wider).active)
    ⊎ ((dispatch accept wider).waiting ≡ [])
dispatch-Settled_example = dispatch-Settled accept wider

dispatch_loop-enough_example : dispatch_loop accept 5 busy ≡ dispatch accept busy
unfolding start_run admit dispatch new_server insert_waiting queue_before
dispatch_loop-enough_example = dispatch_loop-enough accept 5 busy (omega arith)

dispatch_order_example :
    (started : List ℕ) × (busy.waiting ≡ started ++ (dispatch accept busy).waiting)
    × All
        (λ i.
          All
            (λ j. queue_before (busy.heap j) (busy.heap i) ≡ false)
            (dispatch accept busy).waiting)
        started
    × ((j : ℕ) → contains j busy.active ≡ true → contains j (dispatch accept busy).active ≡ true)
dispatch_order_example = dispatch_order accept busy reachable-Inv_example

close_lem_example :
    ((close busy).stopped ≡ true)
    × ((close busy).waiting ≡ [])
    × ((close busy).active ≡ busy.active)
    × ((j : ℕ)
        → contains j busy.order ≡ true
        → (((close busy).heap j).state ≢ queued) × (((close busy).heap j).state ≢ needs_action))
    × ((j : ℕ) → contains j busy.active ≡ true → (close busy).heap j ≡ busy.heap j)
close_lem_example = close_lem busy reachable-Inv_example busy_states.2
