-- ===== src/Web/Queue/Preserve.antt =====
-- The parts of the handlers of internal/web/server.go keep the invariant.
use torpeek.Prelude.{
  ℕ, ◌≡◌, refl, ◌≢◌, Bool, true, false, ◌&&◌, List, [], ◌∷◌, ◌++◌, ◌==◌, arith, if◌then◌else◌,
  Bool-cases, inl, inr, some, Option-cases,
}
use torpeek.Prelude.Int.{ℤ}
use torpeek.Prelude.Ids.{contains, cut, contains-cut, Nodup-cut, contains-append}
use torpeek.Web.Queue.{
  RunState, RunEntry, Server, Listing, queued, running, replaying, done, failed, cancelled,
  needs_action, unlisted, videos, update, put, begin_run, queueable, is_needs_action,
}
use torpeek.Web.Queue.Handlers.{
  RunRequest, RunEvent, admit, listing_verdict, settle_listing, list_then_run, outcome, pump,
  cancel_in, reprioritise, cancel_all, parked, strand, close, is_waiting, outcome_after,
}
use torpeek.Web.Queue.Keys.{contains-insert, Nodup-insert}
use torpeek.Web.Queue.Order.{insert-Sorted, cut-Sorted, update-Sorted}
use torpeek.Web.Queue.Inv.{Inv, trim-Inv, settle_Inv, occupy_Inv, same_state_Inv}
use torpeek.Web.Queue.Dispatch.{dispatch-Inv}

-- A new id is known to nobody.
pub admit-Inv :
    (s : Server) (i : ℕ) (req : RunRequest)
    → contains i s.order ≡ false
    → Inv s
    → Inv (admit s i req)
unfolding admit
admit-Inv s i req new v = record {
  at = λ j.
      ground (
        arith,
        v.at j,
        v.at i,
        contains-append j s.order (i ∷ []),
        contains-insert h i j s.waiting,
      );
  sorted =
      insert-Sorted h i s.waiting
        (update-Sorted _ i _ s.waiting idle (update-Sorted s.heap i _ s.waiting idle v.sorted));
  waiting_nodup = Nodup-insert h i s.waiting idle v.waiting_nodup;
  active_nodup = v.active_nodup;
}
  where
    h : ℕ → RunEntry
    h = (admit s i req).heap

    idle : contains i s.waiting ≡ false
    idle = ground (arith, v.at i)

pub reprioritise-Inv :
    (s : Server) (i : ℕ) (p : ℤ)
    → contains i s.order ≡ true
    → queueable (s.heap i).state ≡ true
    → Inv s
    → Inv (reprioritise s i p)
unfolding reprioritise
reprioritise-Inv s i p known q v = elim (Bool-cases (is_waiting (s.heap i).state)) [
  | inl w ↦ rw w (record {
    at = λ j. ground (
      arith,
      v.at j,
      v.at i,
      contains-insert h i j (cut i s.waiting),
      contains-cut i j s.waiting v.waiting_nodup,
    );
    sorted =
        insert-Sorted h i (cut i s.waiting)
          (update-Sorted s.heap i _ _ gone (cut-Sorted s.heap i s.waiting v.sorted));
    waiting_nodup = Nodup-insert h i _ gone (Nodup-cut i s.waiting v.waiting_nodup);
    active_nodup = v.active_nodup;
  })
  | inr n ↦ rw n (same_state_Inv s i _ (ground (arith, v.at i)) refl v)
]
  where
    h : ℕ → RunEntry
    h = let e = s.heap i in update s.heap i (record e { priority = p })

    gone : contains i (cut i s.waiting) ≡ false
    gone = ground (arith, contains-cut i i s.waiting v.waiting_nodup)

pub settle_listing-Inv :
    (s : Server) (i : ℕ) (st : RunState)
    → contains i s.active ≡ true
    → st ≢ queued
    → st ≢ running
    → Inv s
    → Inv (settle_listing s i st)
unfolding settle_listing
settle_listing-Inv s i needs_action a q r v =
    settle_Inv s i _ (ground (arith, v.at i)) (λ e. cc) (λ e. cc) v
settle_listing-Inv s i _ a q r v = trim-Inv _ (settle_Inv s i _ (ground (arith, v.at i)) q r v)

pub verdict_over :
    (s : Server) (e : RunEntry) (l : Listing) (st : RunState)
    → listing_verdict s e l ≡ some st
    → (st ≢ queued) × (st ≢ running)
unfolding listing_verdict
verdict_over s e unlisted st h = ((λ q. ground arith), (λ r. ground arith))
verdict_over s e (videos n) st h = ((λ q. ground arith), (λ r. ground arith))

pub begin_run-Inv :
    (s : Server) (i : ℕ) (ok : Bool) → contains i s.active ≡ true → Inv s → Inv (begin_run s i ok)
unfolding begin_run
begin_run-Inv s i true a v =
    occupy_Inv s i _ (ground (arith, v.at i)) ((v.at i).active_known a) refl v
begin_run-Inv s i false a v =
    trim-Inv _ (settle_Inv s i _ (ground (arith, v.at i)) (λ e. cc) (λ e. cc) v)

pub list_then_run-Inv :
    (ok : ℕ → Bool) (s : Server) (i : ℕ) (l : Listing)
    → contains i s.active ≡ true
    → Inv s
    → Inv (list_then_run ok s i l)
unfolding list_then_run
list_then_run-Inv ok s i l a v = elim (Option-cases (listing_verdict s (s.heap i) l)) [
  | inr (st, e) ↦
      let over : (st ≢ queued) × (st ≢ running) = verdict_over s (s.heap i) l st e in
      rw (e, list_then_run) (dispatch-Inv ok _ (settle_listing-Inv s i st a over.0 over.1 v))
  | inl e ↦
      rw (e, list_then_run)
        (elim (Bool-cases (ok i)) [
          | inl y ↦ rw y (begin_run-Inv _ i true a listed)
          | inr f ↦ rw f (dispatch-Inv ok _ (begin_run-Inv _ i false a listed))
        ])
]
  where
    listed : Inv (put s i (let e = s.heap i in record e { listed = true }))
    listed = same_state_Inv s i _ (ground (arith, v.at i)) refl v

pub outcome_final :
    (o : RunState) (evs : List RunEvent)
    → (o ≢ queued) × (o ≢ running)
    → (outcome o evs ≢ queued) × (outcome o evs ≢ running)
unfolding outcome
outcome_final o [] h = h
outcome_final o (ev ∷ evs) h =
    outcome_final (outcome_after o ev) evs ((λ e. ground arith), (λ e. ground arith))

pub pump-Inv :
    (ok : ℕ → Bool) (s : Server) (i : ℕ) (evs : List RunEvent)
    → contains i s.active ≡ true
    → Inv s
    → Inv (pump ok s i evs)
unfolding pump
pump-Inv ok s i evs a v = dispatch-Inv ok _ (
    trim-Inv _ (
      settle_Inv s i _ (ground (arith, v.at i)) (λ e. ground (arith, over.0))
        (λ e. ground (arith, over.1)) v))
  where
    over : (outcome done evs ≢ queued) × (outcome done evs ≢ running)
    over = outcome_final done evs ((λ e. cc), (λ e. cc))

pub cancel_in-Inv :
    (s : Server) (i : ℕ)
    → contains i s.order ≡ true
    → Inv s
    → Inv (cancel_in (s.heap i).state s i).0
unfolding cancel_in
cancel_in-Inv s i k v = by_state (s.heap i).state refl
  where
    e : RunEntry
    e = let e' = s.heap i in record e' { is_cancelled = true; state = cancelled }

    gone : contains i (cut i s.waiting) ≡ false
    gone = ground (arith, contains-cut i i s.waiting v.waiting_nodup)

    by_state : (st : RunState) → (s.heap i).state ≡ st → Inv (cancel_in st s i).0
    by_state running q = same_state_Inv s i _ (ground (arith, v.at i)) refl v
    by_state queued q =
        trim-Inv (record (put s i e) { waiting = cut i s.waiting })
          (record {
            at = λ j. ground (arith, v.at j, v.at i, contains-cut i j s.waiting v.waiting_nodup);
            sorted = update-Sorted s.heap i e _ gone (cut-Sorted s.heap i s.waiting v.sorted);
            waiting_nodup = Nodup-cut i s.waiting v.waiting_nodup;
            active_nodup = v.active_nodup;
          })
    by_state needs_action q = trim-Inv (put s i e) (record {
      at = λ j. ground (arith, v.at j, v.at i);
      sorted = update-Sorted s.heap i e s.waiting (ground (arith, v.at i)) v.sorted;
      waiting_nodup = v.waiting_nodup;
      active_nodup = v.active_nodup;
    })
    by_state replaying q = v
    by_state done q = v
    by_state failed q = v
    by_state cancelled q = v

pub cancel_all_lem :
    (h : ℕ → RunEntry) (xs : List ℕ) (j : ℕ)
    → cancel_all h xs j ≡ (if contains j xs then strand h j else h j)
unfolding cancel_all
cancel_all_lem h [] j = refl
cancel_all_lem h (i ∷ xs) j =
    ground (arith, cancel_all_lem (λ k. if i == k then strand h i else h k) xs j)

pub contains-parked :
    (h : ℕ → RunEntry) (j : ℕ) (is : List ℕ)
    → contains j (parked h is) ≡ (contains j is && is_needs_action (h j).state)
contains-parked h j [] = refl
contains-parked h j (i ∷ is) = ground (arith, contains-parked h j is)

pub close-Inv : (s : Server) → Inv s → Inv (close s)
unfolding close
close-Inv s v = elim (Bool-cases s.stopped) [
  | inl y ↦ simp y v
  | inr n ↦ rw n (record {
    at = λ j. ground (
      arith,
      v.at j,
      cancel_all_lem s.heap (s.waiting ++ parked s.heap s.order) j,
      contains-append j s.waiting (parked s.heap s.order),
      contains-parked s.heap j s.order,
    );
    sorted = tt;
    waiting_nodup = tt;
    active_nodup = v.active_nodup;
  })
]
