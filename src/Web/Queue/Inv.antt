-- ===== src/Web/Queue/Inv.antt =====
-- What holds of the server between two handlers, and the steps from which every handler is made.
use torpeek.Prelude.{
  ℕ, ◌+◌, ◌≡◌, refl, ◌≢◌, true, false, ◌||◌, List, [], ◌∷◌, arith, if◌then◌else◌, Bool-cases, inl,
  inr,
}
use torpeek.Prelude.Ids.{contains, Nodup}
use torpeek.Web.Queue.{
  RunEntry, Server, queued, running, put, rev, trim_from, trim, final, release_slot, add_key,
}
use torpeek.Web.Queue.Keys.{contains-without, contains-add_key, Nodup-without}
use torpeek.Web.Queue.Order.{Sorted, update-Sorted}

-- At one id: the queue holds the queued runs, and `running` holds the running ones.
pub record At (s : Server) (j : ℕ) : Type 0 where
  pub waits_queued : contains j s.waiting ≡ true → (s.heap j).state ≡ queued
  pub waits_known : contains j s.waiting ≡ true → contains j s.order ≡ true
  pub queued_waits :
      contains j s.order ≡ true → (s.heap j).state ≡ queued → contains j s.waiting ≡ true
  pub active_running : contains j s.active ≡ true → (s.heap j).state ≡ running
  pub active_known : contains j s.active ≡ true → contains j s.order ≡ true
  pub running_active :
      contains j s.order ≡ true → (s.heap j).state ≡ running → contains j s.active ≡ true

pub record Inv (s : Server) : Type 0 where
  pub at : (j : ℕ) → At s j
  pub sorted : Sorted s.heap s.waiting
  pub waiting_nodup : Nodup s.waiting
  pub active_nodup : Nodup s.active

-- Trimming forgets no run that has not ended, and adds none.

contains-rev :
    (j : ℕ) (xs acc : List ℕ) → contains j (rev xs acc) ≡ (contains j xs || contains j acc)
contains-rev j [] acc = refl
contains-rev j (x ∷ xs) acc = ground (arith, contains-rev j xs (x ∷ acc))

trim_from-keeps :
    (h : ℕ → RunEntry) (n j : ℕ) (xs : List ℕ)
    → final (h j).state ≡ false
    → contains j (trim_from h n xs) ≡ contains j xs
unfolding trim_from
trim_from-keeps h n j [] f = refl
trim_from-keeps h n j (x ∷ xs) f =
    ground (arith, trim_from-keeps h (if final (h x).state then n + 1 else n) j xs f)

trim_from-known :
    (h : ℕ → RunEntry) (n j : ℕ) (xs : List ℕ)
    → contains j (trim_from h n xs) ≡ true
    → contains j xs ≡ true
unfolding trim_from
trim_from-known h n j [] f = f
trim_from-known h n j (x ∷ xs) f =
    ground (arith, trim_from-known h (if final (h x).state then n + 1 else n) j xs)

pub trim-keeps :
    (s : Server) (j : ℕ)
    → final (s.heap j).state ≡ false
    → contains j (trim s).order ≡ contains j s.order
unfolding trim
trim-keeps s j f = ground (
  arith,
  contains-rev j (trim_from s.heap 0 (rev s.order [])) [],
  contains-rev j s.order [],
  trim_from-keeps s.heap 0 j (rev s.order []) f,
)

pub trim-known : (s : Server) (j : ℕ) → contains j (trim s).order ≡ true → contains j s.order ≡ true
unfolding trim
trim-known s j f = ground (
  arith,
  contains-rev j (trim_from s.heap 0 (rev s.order [])) [],
  contains-rev j s.order [],
  trim_from-known s.heap 0 j (rev s.order []),
)

trim-At : (s : Server) (j : ℕ) → At s j → At (trim s) j
unfolding trim
trim-At s j a = ground (arith, trim-keeps s j, trim-known s j)

pub trim-Inv : (s : Server) → Inv s → Inv (trim s)
unfolding trim
trim-Inv s v = record {
  at = λ j. trim-At s j (v.at j);
  sorted = v.sorted;
  waiting_nodup = v.waiting_nodup;
  active_nodup = v.active_nodup;
}

-- A run that does not wait takes a new state, and its slot is given back.
pub settle_Inv :
    (s : Server) (i : ℕ) (e : RunEntry)
    → contains i s.waiting ≡ false
    → e.state ≢ queued
    → e.state ≢ running
    → Inv s
    → Inv (release_slot (put s i e) i)
unfolding release_slot
settle_Inv s i e w q r v = record {
  at = λ j. ground (arith, v.at j, contains-without i j s.active);
  sorted = update-Sorted s.heap i e s.waiting w v.sorted;
  waiting_nodup = v.waiting_nodup;
  active_nodup = Nodup-without i s.active v.active_nodup;
}

pub Nodup-add_key : (i : ℕ) (js : List ℕ) → Nodup js → Nodup (add_key i js)
Nodup-add_key i js d = elim (Bool-cases (contains i js)) [
  | inl old ↦ rw old d
  | inr new ↦ rw new (new, d)
]

-- A run that does not wait takes a slot.
pub occupy_Inv :
    (s : Server) (i : ℕ) (e : RunEntry)
    → contains i s.waiting ≡ false
    → contains i s.order ≡ true
    → e.state ≡ running
    → Inv s
    → Inv (record (put s i e) { active = add_key i s.active })
occupy_Inv s i e w k r v = record {
  at = λ j. ground (arith, v.at j, contains-add_key i j s.active);
  sorted = update-Sorted s.heap i e s.waiting w v.sorted;
  waiting_nodup = v.waiting_nodup;
  active_nodup = Nodup-add_key i s.active v.active_nodup;
}

-- What changes nothing but the other fields of a run keeps the invariant.
pub same_state_Inv :
    (s : Server) (i : ℕ) (e : RunEntry)
    → contains i s.waiting ≡ false
    → e.state ≡ (s.heap i).state
    → Inv s
    → Inv (put s i e)
same_state_Inv s i e w q v = record {
  at = λ j. ground (arith, v.at j, v.at i);
  sorted = update-Sorted s.heap i e s.waiting w v.sorted;
  waiting_nodup = v.waiting_nodup;
  active_nodup = v.active_nodup;
}
