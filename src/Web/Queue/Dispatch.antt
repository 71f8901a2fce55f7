-- ===== src/Web/Queue/Dispatch.antt =====
-- `dispatch` of internal/web/server.go: it keeps the invariant, fills the slots and no more.
use torpeek.Prelude.{
  ℕ, zero, suc, ◌≡◌, refl, ◌≢◌, Bool, true, List, [], ◌∷◌, ◌++◌, arith, Bool-cases, inl, inr,
  length, ◌≤◌, max, ◌⊎◌, subst, sym, ap, ◌∙◌, List-cases,
}
use torpeek.Prelude.Ids.{contains, Nodup}
use torpeek.Web.Queue.{
  RunEntry, Server, queued, running, put, trim, release_slot, begin_run, begin_listing,
  needs_listing, launch, may_dispatch, dispatch_loop, dispatch, without, add_key,
}
use mathlib.Core.List.{append_assoc}
use torpeek.Web.Queue.Keys.{contains-without, contains-add_key, Nodup-without}
use torpeek.Web.Queue.Order.{Sorted, update-Sorted}
use torpeek.Web.Queue.Inv.{Inv, trim-Inv, Nodup-add_key}

-- The head of the queue leaves it, either for a slot or for good.
module _ (s : Server) (i : ℕ) (rest : List ℕ) (e : RunEntry) (head : s.waiting ≡ i ∷ rest)
    (v : Inv s) where
  rest-Sorted : Sorted s.heap rest
  rest-Sorted = (subst (Sorted s.heap) head v.sorted).1

  head_once : Nodup (i ∷ rest)
  head_once = subst Nodup head v.waiting_nodup

  pub head_known : contains i s.order ≡ true
  head_known = ground (arith, v.at i)

  pub start_head_Inv :
      e.state ≡ running
      → Inv (record (put (record s { waiting = rest }) i e) { active = add_key i s.active })
  start_head_Inv r = record {
    at = λ j. ground (arith, v.at j, head_once, contains-add_key i j s.active);
    sorted = update-Sorted s.heap i e rest head_once.0 rest-Sorted;
    waiting_nodup = head_once.1;
    active_nodup = Nodup-add_key i s.active v.active_nodup;
  }

  pub end_head_Inv :
      e.state ≢ queued
      → e.state ≢ running
      → Inv (release_slot (put (record s { waiting = rest }) i e) i)
  unfolding release_slot
  end_head_Inv q r = record {
    at = λ j. ground (arith, v.at j, head_once, contains-without i j s.active);
    sorted = update-Sorted s.heap i e rest head_once.0 rest-Sorted;
    waiting_nodup = head_once.1;
    active_nodup = Nodup-without i s.active v.active_nodup;
  }

pub launch-Inv :
    (ok : ℕ → Bool) (s : Server) (i : ℕ) (rest : List ℕ)
    → s.waiting ≡ i ∷ rest
    → Inv s
    → Inv (launch ok s i rest)
unfolding launch begin_listing begin_run
launch-Inv ok s i rest head v = elim (Bool-cases (needs_listing s (s.heap i))) [
  | inl l ↦ rw l (start_head_Inv s i rest _ head v refl)
  | inr n ↦ rw n (elim (Bool-cases (ok i)) [
    | inl y ↦ rw y (start_head_Inv s i rest _ head v refl)
    | inr f ↦ rw f (trim-Inv _ (end_head_Inv s i rest _ head v (λ e. cc) (λ e. cc)))
  ])
]

-- What every round keeps holds after the loop.
pub dispatch_loop_rule {ℓ} :
    (P : Server → Type ℓ) (ok : ℕ → Bool)
    → ((t : Server) (i : ℕ) (rest : List ℕ)
        → t.waiting ≡ i ∷ rest
        → may_dispatch t ≡ true
        → P t
        → P (launch ok t i rest))
    → (n : ℕ) (s : Server) → P s
    → P (dispatch_loop ok n s)
unfolding dispatch_loop
dispatch_loop_rule P ok keep zero s p = p
dispatch_loop_rule P ok keep (suc n) s p = elim (List-cases s.waiting) [
  | inl e ↦ rw (e, dispatch_loop) p
  | inr (i, rest, e) ↦ elim (Bool-cases (may_dispatch s)) [
    | inl y ↦
        rw (e, y, dispatch_loop)
          (dispatch_loop_rule P ok keep n (launch ok s i rest) (keep s i rest e y p))
    | inr f ↦ rw (e, f, dispatch_loop) p
  ]
]

pub dispatch-Inv : (ok : ℕ → Bool) (s : Server) → Inv s → Inv (dispatch ok s)
unfolding dispatch
dispatch-Inv ok s =
    dispatch_loop_rule Inv ok (λ t i rest e m v. launch-Inv ok t i rest e v) (length s.waiting) s

launch-waiting :
    (ok : ℕ → Bool) (s : Server) (i : ℕ) (rest : List ℕ) → (launch ok s i rest).waiting ≡ rest
unfolding launch begin_listing begin_run release_slot trim
launch-waiting ok s i rest = ground arith

loop_empty : (ok : ℕ → Bool) (n : ℕ) (s : Server) → s.waiting ≡ [] → dispatch_loop ok n s ≡ s
unfolding dispatch_loop
loop_empty ok zero s e = refl
loop_empty ok (suc n) s e = simp (e, dispatch_loop) refl

rounds_agree :
    (ok : ℕ → Bool) (n m : ℕ) (s : Server)
    → length s.waiting ≤ n
    → length s.waiting ≤ m
    → dispatch_loop ok n s ≡ dispatch_loop ok m s
unfolding dispatch_loop
rounds_agree ok zero zero s hn hm = refl
rounds_agree ok zero (suc m) s hn hm = elim (List-cases s.waiting) [
  | inl e ↦ sym (loop_empty ok (suc m) s e)
  | inr (i, rest, e) ↦ let x : ⊥ = omega (arith, ap length e, hn) in elim x [ ]
]
rounds_agree ok (suc n) zero s hn hm = elim (List-cases s.waiting) [
  | inl e ↦ loop_empty ok (suc n) s e
  | inr (i, rest, e) ↦ let x : ⊥ = omega (arith, ap length e, hm) in elim x [ ]
]
rounds_agree ok (suc n) (suc m) s hn hm = elim (List-cases s.waiting) [
  | inl e ↦ loop_empty ok (suc n) s e ∙ sym (loop_empty ok (suc m) s e)
  | inr (i, rest, e) ↦ elim (Bool-cases (may_dispatch s)) [
    | inl y ↦
        rw (e, y, dispatch_loop)
          (rounds_agree ok n m (launch ok s i rest)
            (rw (launch-waiting ok s i rest) (omega (arith, ap length e)))
            (rw (launch-waiting ok s i rest) (omega (arith, ap length e))))
    | inr f ↦ rw (e, f, dispatch_loop) refl
  ]
]

-- The loop of `dispatch` stops by its own tests: a bound of one round for each run that waits is never what
-- stops it, since with any larger bound the result is the same.
pub dispatch_loop-enough :
    (ok : ℕ → Bool) (n : ℕ) (s : Server)
    → length s.waiting ≤ n
    → dispatch_loop ok n s ≡ dispatch ok s
unfolding dispatch
dispatch_loop-enough ok n s h = rounds_agree ok n (length s.waiting) s h (omega arith)

-- No run waits while a slot is free.
abbrev pub Settled : Server → Type 0
Settled s = may_dispatch s ≡ true → s.waiting ≡ []

-- With as many rounds as runs wait, the loop stops by its own test.
dispatch_loop-Settled :
    (ok : ℕ → Bool) (n : ℕ) (s : Server) → length s.waiting ≤ n → Settled (dispatch_loop ok n s)
unfolding dispatch_loop
dispatch_loop-Settled ok zero s h = ground arith
dispatch_loop-Settled ok (suc n) s h = elim (List-cases s.waiting) [
  | inl e ↦ rw (e, dispatch_loop) (λ _. e)
  | inr (i, rest, e) ↦ elim (Bool-cases (may_dispatch s)) [
    | inl y ↦
        rw (e, y, dispatch_loop)
          (dispatch_loop-Settled ok n (launch ok s i rest)
            (rw (launch-waiting ok s i rest) (omega (arith, ap length e))))
    | inr f ↦ rw (e, f, dispatch_loop) (λ m. cc)
  ]
]

-- After `dispatch`, the server is closed, or every slot is taken, or nobody waits.
pub dispatch-Settled :
    (ok : ℕ → Bool) (s : Server)
    → let t = dispatch ok s in
      (t.stopped ≡ true) ⊎ (t.max_active ≤ length t.active) ⊎ (t.waiting ≡ [])
unfolding dispatch may_dispatch
dispatch-Settled ok s = ground (arith, dispatch_loop-Settled ok (length s.waiting) s (omega arith))

length-without : (i : ℕ) (js : List ℕ) → length (without i js) ≤ length js
length-without i [] = omega arith
length-without i (j ∷ js) = ground (arith, length-without i js)

length-add_key : (i : ℕ) (js : List ℕ) → length (add_key i js) ≤ suc (length js)
length-add_key i js = ground arith

-- How far a round may fill the slots.
record Filled (bound : ℕ) (s t : Server) : Type 0 where
  width : t.max_active ≡ s.max_active
  within : length t.active ≤ bound

launch-Filled :
    (ok : ℕ → Bool) (s t : Server) (i : ℕ) (rest : List ℕ) (bound : ℕ)
    → s.max_active ≤ bound
    → may_dispatch t ≡ true
    → Filled bound s t
    → Filled bound s (launch ok t i rest)
unfolding launch begin_listing begin_run release_slot trim may_dispatch
launch-Filled ok s t i rest bound b m f =
    ground (arith, length-without i t.active, length-add_key i t.active)

-- `dispatch` never fills more slots than the width, and takes none away from a wider past.
dispatch-within :
    (ok : ℕ → Bool) (s : Server)
    → length (dispatch ok s).active ≤ max (length s.active) s.max_active
unfolding dispatch
dispatch-within ok s = (go (omega arith)).within
  where
    bound : ℕ
    bound = max (length s.active) s.max_active

    go : Filled bound s s → Filled bound s (dispatch_loop ok (length s.waiting) s)
    go =
        dispatch_loop_rule (Filled bound s) ok
          (λ t i rest e m f. launch-Filled ok s t i rest bound (omega arith) m f) (length s.waiting)
          s

-- The queue is served from its head, and a run that has a slot keeps it.
pub record Served (s t : Server) : Type 0 where
  pub started : List ℕ
  pub from_head : s.waiting ≡ started ++ t.waiting
  pub kept : (j : ℕ) → contains j s.active ≡ true → contains j t.active ≡ true

launch-kept :
    (ok : ℕ → Bool) (t : Server) (i : ℕ) (rest : List ℕ) (j : ℕ)
    → t.waiting ≡ i ∷ rest
    → Inv t
    → contains j t.active ≡ true
    → contains j (launch ok t i rest).active ≡ true
unfolding launch begin_listing begin_run release_slot trim
launch-kept ok t i rest j e v c =
    ground (arith, contains-add_key i j t.active, contains-without i j t.active, v.at i, v.at j)

launch-Served :
    (ok : ℕ → Bool) (s t : Server) (i : ℕ) (rest : List ℕ)
    → t.waiting ≡ i ∷ rest
    → Inv t
    → Served s t
    → Served s (launch ok t i rest)
launch-Served ok s t i rest e v w = record {
  started = w.started ++ (i ∷ []);
  from_head =
      rw (launch-waiting ok t i rest)
        (simp append_assoc (w.from_head ∙ ap (λ l. w.started ++ l) e));
  kept = λ j c. launch-kept ok t i rest j e v (w.kept j c);
}

pub dispatch-Served : (ok : ℕ → Bool) (s : Server) → Inv s → Served s (dispatch ok s)
unfolding dispatch
dispatch-Served ok s v =
    (dispatch_loop_rule (λ t. Inv t × Served s t) ok
      (λ t i rest e m p. (launch-Inv ok t i rest e p.0, launch-Served ok s t i rest e p.0 p.1))
      (length s.waiting) s (v, record { started = []; from_head = refl; kept = λ j c. c })).1
