-- ===== src/Web/Queue/Going.antt =====
-- No handler of the queue, internal/web/server.go, stops a run that is going, but for the run's own.
use torpeek.Prelude.{
  ℕ, ◌≡◌, refl, ◌≢◌, Bool, true, false, not, List, [], ◌∷◌, ◌++◌, ◌==◌, arith, if◌then◌else◌,
  length, ltb, Bool-cases, Option-cases, inl, inr, Option, some, none,
}
use torpeek.Prelude.Int.{ℤ, pos, negsuc, ltb_ℤ}
use torpeek.Prelude.Ids.{contains, contains-append}
use torpeek.Web.Queue.{
  RunState, RunEntry, Server, Listing, queued, running, replaying, done, failed, cancelled,
  needs_action, is_running, queueable, valid, enqueue_waiting, put, trim, release_slot, launch,
  begin_listing, begin_run, dispatch, drop_waiting,
}
use torpeek.Web.Queue.Handlers.{
  RunRequest, start_run, list_then_run, listing_verdict, settle_listing, cancel_in, cancel_run,
  cancel_only, reprioritise, set_run_priority, set_max_active_torrents, close, admit, parked,
}
use torpeek.Web.Queue.Inv.{Inv, trim-known, same_state_Inv}
use torpeek.Web.Queue.Preserve.{
  settle_listing-Inv, verdict_over, begin_run-Inv, admit-Inv, reprioritise-Inv, cancel_all_lem,
  contains-parked,
}
use torpeek.Web.Queue.Steps.{widen_Inv}
use torpeek.Web.Queue.Dispatch.{dispatch_loop_rule, launch-Inv}

-- A run that `t` knows was known to `s`, and is going if it was.
pub record Goes (s t : Server) (j : ℕ) : Type 0 where
  pub known : contains j t.order ≡ true → contains j s.order ≡ true
  pub going : is_running (s.heap j).state ≡ true → is_running (t.heap j).state ≡ true

pub Goes-refl : (s : Server) (j : ℕ) → Goes s s j
Goes-refl s j = record { known = λ k. k; going = λ g. g }

pub Goes-trans : (s t u : Server) (j : ℕ) → Goes s t j → Goes t u j → Goes s u j
Goes-trans s t u j g h = record {
  known = λ k. g.known (h.known k);
  going = λ r. h.going (g.going r);
}

pub trim-Goes : (s : Server) (j : ℕ) → Goes s (trim s) j
unfolding trim
trim-Goes s j = record { known = trim-known s j; going = λ g. g }

-- What changes an entry and the order keeps a run going if the entry does.
put-Goes :
    (s : Server) (i : ℕ) (e : RunEntry) (j : ℕ)
    → (i ≡ j → is_running (s.heap i).state ≡ true → is_running e.state ≡ true)
    → Goes s (put s i e) j
put-Goes s i e j keep = record { known = λ k. k; going = λ g. ground (arith, keep) }

launch-Goes :
    (ok : ℕ → Bool) (t : Server) (i : ℕ) (rest : List ℕ) (j : ℕ)
    → t.waiting ≡ i ∷ rest
    → Inv t
    → Goes t (launch ok t i rest) j
unfolding launch begin_listing begin_run release_slot
launch-Goes ok t i rest j e v = record {
  known = λ k. ground (
    arith,
    trim-known (release_slot (put (record t { waiting = rest }) i (failed_entry (t.heap i))) i) j,
  );
  going = λ g. ground (arith, v.at i, trim);
}
  where
    failed_entry : RunEntry → RunEntry
    failed_entry e = record e { state = failed }

pub dispatch-Goes : (ok : ℕ → Bool) (s : Server) (j : ℕ) → Inv s → Goes s (dispatch ok s) j
unfolding dispatch
dispatch-Goes ok s j v =
    (dispatch_loop_rule (λ t. Inv t × Goes s t j) ok
      (λ t i rest e m p. (
        launch-Inv ok t i rest e p.0,
        Goes-trans s t (launch ok t i rest) j p.1 (launch-Goes ok t i rest j e p.0),
      ))
      (length s.waiting) s (v, Goes-refl s j)).1

abbrev end_entry : Server → ℕ → Server
end_entry s i = let e = s.heap i in put s i (record e { is_cancelled = true; state = cancelled })

module _ (s : Server) (i j : ℕ) where
  cancel_running-Goes : Goes s (cancel_in running s i).0 j
  unfolding cancel_in
  cancel_running-Goes = record { known = λ k. k; going = λ g. ground arith }

  cancel_queued-Goes : (s.heap i).state ≡ queued → Goes s (cancel_in queued s i).0 j
  unfolding cancel_in drop_waiting trim
  cancel_queued-Goes q = record {
    known = λ k. trim-known (drop_waiting (end_entry s i) i) j k;
    going = λ g. ground arith;
  }

  cancel_parked-Goes : (s.heap i).state ≡ needs_action → Goes s (cancel_in needs_action s i).0 j
  unfolding cancel_in trim
  cancel_parked-Goes q = record {
    known = λ k. trim-known (end_entry s i) j k;
    going = λ g. ground arith;
  }

-- A refusal or a result.
if_Goes {ℓ} :
    {E : Type ℓ} (s : Server) (j : ℕ) (b : Bool) (x y : Server × E)
    → Goes s x.0 j
    → Goes s y.0 j
    → Goes s (if b then x else y).0 j
if_Goes s j true x y p q = p
if_Goes s j false x y p q = q

cancel_in-Goes : (s : Server) (i j : ℕ) → Goes s (cancel_in (s.heap i).state s i).0 j
unfolding cancel_in
cancel_in-Goes s i j = by_state (s.heap i).state refl
  where
    by_state : (st : RunState) → (s.heap i).state ≡ st → Goes s (cancel_in st s i).0 j
    by_state running q = cancel_running-Goes s i j
    by_state queued q = cancel_queued-Goes s i j q
    by_state needs_action q = cancel_parked-Goes s i j q
    by_state replaying q = Goes-refl s j
    by_state done q = Goes-refl s j
    by_state failed q = Goes-refl s j
    by_state cancelled q = Goes-refl s j

pub cancel_run-Goes : (s : Server) (i : Option ℕ) (j : ℕ) → Goes s (cancel_run s i).0 j
unfolding cancel_run
cancel_run-Goes s (some i) j =
    if_Goes s j (contains i s.order) _ _ (cancel_in-Goes s i j) (Goes-refl s j)
cancel_run-Goes s none j = only s.active
  where
    only : (is : List ℕ) → Goes s (cancel_only is s).0 j
    only [] = Goes-refl s j
    only (i ∷ []) = cancel_in-Goes s i j
    only (i ∷ k ∷ is) = Goes-refl s j

reprioritise-Goes : (s : Server) (i : ℕ) (p : ℤ) (j : ℕ) → Goes s (reprioritise s i p) j
unfolding reprioritise
reprioritise-Goes s i p j = record { known = λ k. ground arith; going = λ g. ground arith }

pub set_run_priority-Goes :
    (ok : ℕ → Bool) (s : Server) (i : Option ℕ) (p : ℤ) (j : ℕ)
    → Inv s
    → Goes s (set_run_priority ok s i p).0 j
unfolding set_run_priority
set_run_priority-Goes ok s none p j v = Goes-refl s j
set_run_priority-Goes ok s (some i) p j v = if_Goes s j (not (valid p)) _ _ (Goes-refl s j) (
    if_Goes s j s.stopped _ _ (Goes-refl s j) (elim (Bool-cases (contains i s.order)) [
      | inr u ↦ rw u (Goes-refl s j)
      | inl k ↦ rw k (elim (Bool-cases (queueable (s.heap i).state)) [
        | inr n ↦ rw n (Goes-refl s j)
        | inl q ↦ rw q (
            Goes-trans s (reprioritise s i p) _ j (reprioritise-Goes s i p j)
              (dispatch-Goes ok _ j (reprioritise-Inv s i p k q v)))
      ])
    ]))

pub set_max_active_torrents-Goes :
    (ok : ℕ → Bool) (s : Server) (n : ℤ) (j : ℕ)
    → Inv s
    → Goes s (set_max_active_torrents ok s n).0 j
unfolding set_max_active_torrents
set_max_active_torrents-Goes ok s (negsuc n) j v = Goes-refl s j
set_max_active_torrents-Goes ok s (pos n) j v = if_Goes s j (ltb n 1) _ _ (Goes-refl s j) (
    Goes-trans s (record s { max_active = n }) _ j (record { known = λ k. k; going = λ g. g })
      (dispatch-Goes ok _ j (widen_Inv s n v)))

pub close-known :
    (s : Server) (j : ℕ) → contains j (close s).order ≡ true → contains j s.order ≡ true
unfolding close
close-known s j k = ground arith

pub close-Goes : (s : Server) (j : ℕ) → contains j s.order ≡ true → Inv s → Goes s (close s) j
unfolding close
close-Goes s j k v = elim (Bool-cases s.stopped) [
  | inl y ↦ simp y (Goes-refl s j)
  | inr n ↦ rw n (record {
    known = λ k. k;
    going = λ g. ground (
      arith,
      v.at j,
      cancel_all_lem s.heap (s.waiting ++ parked s.heap s.order) j,
      contains-append j s.waiting (parked s.heap s.order),
      contains-parked s.heap j s.order,
    );
  })
]

-- The run's own goroutine and a new run change nobody else.
module _ (ok : ℕ → Bool) (s : Server) (i j : ℕ) (other : (i == j) ≡ false) where
  pub admit-Goes : (req : RunRequest) → Goes s (admit s i req) j
  unfolding admit enqueue_waiting
  admit-Goes req = record {
    known = λ k. ground (arith, contains-append j s.order (i ∷ []));
    going = λ g. ground arith;
  }

  pub release-Goes : (e : RunEntry) → Goes s (release_slot (put s i e) i) j
  unfolding release_slot
  release-Goes e = record { known = λ k. k; going = λ g. ground arith }

  begin_run-Goes : (b : Bool) → Goes s (begin_run s i b) j
  unfolding begin_run
  begin_run-Goes true = record { known = λ k. k; going = λ g. ground arith }
  begin_run-Goes false = Goes-trans s _ _ j (release-Goes _) (trim-Goes _ j)

  settle_listing-Goes : (st : RunState) → Goes s (settle_listing s i st) j
  unfolding settle_listing
  settle_listing-Goes needs_action = release-Goes _
  settle_listing-Goes st = Goes-trans s _ _ j (release-Goes _) (trim-Goes _ j)

-- The listing of one run, to its end.
pub list_then_run-Goes :
    (ok : ℕ → Bool) (s : Server) (i j : ℕ) (l : Listing)
    → (i == j) ≡ false
    → contains i s.active ≡ true
    → Inv s
    → Goes s (list_then_run ok s i l) j
unfolding list_then_run
list_then_run-Goes ok s i j l other a v = elim (Option-cases (listing_verdict s (s.heap i) l)) [
  | inr (st, e) ↦
      let over : (st ≢ queued) × (st ≢ running) = verdict_over s (s.heap i) l st e in
      rw (e, list_then_run)
        (Goes-trans s (settle_listing s i st) _ j (settle_listing-Goes ok s i j other st)
          (dispatch-Goes ok _ j (settle_listing-Inv s i st a over.0 over.1 v)))
  | inl e ↦
      rw (e, list_then_run)
        (elim (Bool-cases (ok i)) [
          | inl y ↦ rw y (begun true)
          | inr f ↦ rw f (
              Goes-trans s (begin_run listed i false) _ j (begun false)
                (dispatch-Goes ok _ j (begin_run-Inv listed i false a listed-Inv)))
        ])
]
  where
    listed : Server
    listed = put s i (let e = s.heap i in record e { listed = true })

    listed-Inv : Inv listed
    listed-Inv = same_state_Inv s i _ (ground (arith, v.at i)) refl v

    begun : (b : Bool) → Goes s (begin_run listed i b) j
    begun b =
        Goes-trans s listed _ j (put-Goes s i _ j (λ e g. ground arith))
          (begin_run-Goes ok listed i j other b)

pub start_run-Goes :
    (ok : ℕ → Bool) (s : Server) (i j : ℕ) (req : RunRequest)
    → (i == j) ≡ false
    → contains i s.order ≡ false
    → Inv s
    → Goes s (start_run ok s i req).0 j
unfolding start_run
start_run-Goes ok s i j req other new v = if_Goes s j req.is_blank _ _ (Goes-refl s j) (
    if_Goes s j (ltb_ℤ req.count (pos 0)) _ _ (Goes-refl s j) (
      if_Goes s j s.stopped _ _ (Goes-refl s j) (
        Goes-trans s (admit s i req) _ j (admit-Goes ok s i j other req)
          (dispatch-Goes ok _ j (admit-Inv s i req new v)))))
