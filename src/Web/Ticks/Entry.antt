-- ===== src/Web/Ticks/Entry.antt =====
-- What the choice of files does to the queue of internal/web/server.go: the queue stays in order.
use torpeek.Prelude.{ℕ, ◌≡◌, refl, true, false, List, [], ◌∷◌, arith, All}
use torpeek.Prelude.Ids.{contains, cut, contains-cut, Nodup-cut}
use torpeek.Web.Queue.{RunEntry, Server, queued, needs_action, put, queue_before, enqueue_waiting}
use torpeek.Web.Queue.Order.{Sorted, insert-Sorted, cut-Sorted, update-Sorted}
use torpeek.Web.Queue.Keys.{contains-insert, Nodup-insert}
use torpeek.Web.Queue.Inv.{Inv}
use torpeek.Web.Ticks.{Spec}
use torpeek.Web.Ticks.Handlers.{name_files, join_queue, park}

All-same :
    (h k : ℕ → RunEntry) (j : ℕ) (js : List ℕ)
    → ((i : ℕ) → queue_before (k i) (k j) ≡ queue_before (h i) (h j))
    → All (λ i. queue_before (h i) (h j) ≡ false) js
    → All (λ i. queue_before (k i) (k j) ≡ false) js
All-same h k j [] e a = tt
All-same h k j (i ∷ js) e a = (ground (arith, e i, a.0), All-same h k j js e a.1)

-- The order reads priorities and places only.
Sorted-same :
    (h k : ℕ → RunEntry) (js : List ℕ)
    → ((i j : ℕ) → queue_before (k i) (k j) ≡ queue_before (h i) (h j))
    → Sorted h js
    → Sorted k js
Sorted-same h k [] e s = tt
Sorted-same h k (j ∷ js) e s = (All-same h k j js (λ i. e i j) s.0, Sorted-same h k js e s.1)

before-same :
    (s : Server) (i : ℕ) (files : List Spec) (j k : ℕ)
    → queue_before ((name_files s i files).heap j) ((name_files s i files).heap k)
      ≡ queue_before (s.heap j) (s.heap k)
unfolding name_files queue_before
before-same s i files j k = ground arith

pub name_files-Inv : (s : Server) (i : ℕ) (files : List Spec) → Inv s → Inv (name_files s i files)
unfolding name_files
name_files-Inv s i files v = record {
  at = λ j. ground (arith, v.at j);
  sorted =
      Sorted-same s.heap (name_files s i files).heap s.waiting (before-same s i files) v.sorted;
  waiting_nodup = v.waiting_nodup;
  active_nodup = v.active_nodup;
}

-- A known run that neither waits nor runs joins the queue.
pub enqueue_Inv :
    (s : Server) (i : ℕ) (e : RunEntry)
    → contains i s.order ≡ true
    → contains i s.waiting ≡ false
    → contains i s.active ≡ false
    → e.state ≡ queued
    → Inv s
    → Inv (enqueue_waiting (put s i e) i)
unfolding enqueue_waiting
enqueue_Inv s i e k w a q v = record {
  at = λ j. ground (arith, v.at j, contains-insert h i j s.waiting);
  sorted =
      insert-Sorted h i s.waiting
        (update-Sorted _ i _ s.waiting w (update-Sorted s.heap i _ s.waiting w v.sorted));
  waiting_nodup = Nodup-insert h i s.waiting w v.waiting_nodup;
  active_nodup = v.active_nodup;
}
  where
    h : ℕ → RunEntry
    h = (enqueue_waiting (put s i e) i).heap

pub join_queue-Inv :
    (s : Server) (i : ℕ)
    → contains i s.order ≡ true
    → (s.heap i).state ≡ needs_action
    → Inv s
    → Inv (join_queue s i)
unfolding join_queue
join_queue-Inv s i k n v =
    enqueue_Inv s i _ k (ground (arith, v.at i)) (ground (arith, v.at i)) refl v

pub park-Inv : (s : Server) (i : ℕ) → (s.heap i).state ≡ queued → Inv s → Inv (park s i)
unfolding park
park-Inv s i q v = record {
  at = λ j. ground (arith, v.at j, v.at i, contains-cut i j s.waiting v.waiting_nodup);
  sorted = update-Sorted s.heap i _ _ gone (cut-Sorted s.heap i s.waiting v.sorted);
  waiting_nodup = Nodup-cut i s.waiting v.waiting_nodup;
  active_nodup = v.active_nodup;
}
  where
    gone : contains i (cut i s.waiting) ≡ false
    gone = ground (arith, contains-cut i i s.waiting v.waiting_nodup)
