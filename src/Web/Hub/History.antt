-- ===== src/Web/Hub/History.antt =====
-- What a run's history in internal/web/hub.go keeps of the records published to it.
use torpeek.Prelude.{
  ℕ, ◌≡◌, refl, ◌≢◌, Bool, true, false, List, [], ◌∷◌, ◌++◌, ◌==◌, if◌then◌else◌, length, set, none,
  some, arith, ==_iff, Bool-cases, Option-cases, inl, inr, ◌∙◌, ap, subst, sym,
}
use mathlib.Core.List.{append-nil as append_nil, append_assoc}
use torpeek.Web.Hub.Index.{
  is_progress, events, progress_of, last_or, Only, Placed, IsIndexed, progress_of-append,
  events-append, Only-append, set-Only, set-other, set-Placed-other, append-Placed-other,
}
use torpeek.Web.Hub.{Record, RunHistory, empty_history, append_record, put_at}

-- The history after a sequence of records.
unfoldable pub replay : RunHistory → List Record → RunHistory
replay h [] = h
replay h (r ∷ rs) = replay (append_record h r) rs

-- One record more: the index is kept, and what the history shows is what was published, but of the
-- progress of a file only the last.
pub record Appended (h : RunHistory) (r : Record) : Type 0 where
  pub indexed : IsIndexed (append_record h r)
  pub events_kept :
      events (append_record h r).records ≡ events h.records ++ (if r.progress then [] else r ∷ [])
  pub progress_last :
      (f : ℕ)
      → progress_of f (append_record h r).records
        ≡ (if is_progress f r then r ∷ [] else progress_of f h.records)

-- The fields of `Appended`, at a value that the new history is known to be.
appended :
    (h h' : RunHistory) (r : Record)
    → append_record h r ≡ h'
    → IsIndexed h'
    → events h'.records ≡ events h.records ++ (if r.progress then [] else r ∷ [])
    → ((f : ℕ)
        → progress_of f h'.records ≡ (if is_progress f r then r ∷ [] else progress_of f h.records))
    → Appended h r
appended h h' r e x k l = record {
  indexed = subst IsIndexed (sym e) x;
  events_kept = ap (λ (g : RunHistory). events g.records) e ∙ k;
  progress_last = λ f. ap (λ (g : RunHistory). progress_of f g.records) e ∙ l f;
}

append-event : (h : RunHistory) (r : Record) → r.progress ≡ false → IsIndexed h → Appended h r
unfolding append_record
append-event h r e x =
    appended h (record h { records = h.records ++ (r ∷ []) }) r (ground arith)
      (λ f. append-Placed-other f (h.progress_at f) r h.records (ground arith) (x f))
      (ground (arith, events-append h.records (r ∷ [])))
      (λ f.
        ground
          (arith, progress_of-append f h.records (r ∷ []), append_nil (progress_of f h.records)))

append-first :
    (h : RunHistory) (r : Record)
    → r.progress ≡ true
    → h.progress_at r.file ≡ none
    → IsIndexed h
    → Appended h r
unfolding append_record
append-first h r e n x =
    appended h h' r (ground arith) placed (ground (arith, events-append h.records (r ∷ []))) (λ f.
      ground (
        arith,
        fresh,
        progress_of-append f h.records (r ∷ []),
        append_nil (progress_of f h.records),
      ))
  where
    h' : RunHistory
    h' = record {
      records = h.records ++ (r ∷ []);
      progress_at = put_at h.progress_at r.file (length h.records);
    }

    fresh : progress_of r.file h.records ≡ []
    fresh = subst (λ at. Placed r.file at h.records) n (x r.file)

    placed : IsIndexed h'
    placed f = elim (Bool-cases (r.file == f)) [
      | inl same ↦
          let e' : r.file ≡ f = (==_iff r.file f).0 same in
          rw same (
            Only-append f r h.records (ground arith)
              (subst (λ g. progress_of g h.records ≡ []) e' fresh))
      | inr other ↦
          rw other (append-Placed-other f (h.progress_at f) r h.records (ground arith) (x f))
    ]

append-again :
    (h : RunHistory) (r : Record) (i : ℕ)
    → r.progress ≡ true
    → h.progress_at r.file ≡ some i
    → IsIndexed h
    → Appended h r
unfolding append_record
append-again h r i e n x =
    appended h (record h { records = set h.records i r }) r (ground arith) placed
      (ground (arith, there, append_nil (events h.records)))
      (λ f. ground (arith, there, set_other f))
  where
    only : Only r.file i h.records
    only = subst (λ at. Placed r.file at h.records) n (x r.file)

    there :
        Only r.file i (set h.records i r)
        × (events (set h.records i r) ≡ events h.records)
        × (progress_of r.file (set h.records i r) ≡ r ∷ [])
    there = set-Only r.file i r h.records (ground arith) only

    set_other : (f : ℕ) → r.file ≢ f → progress_of f (set h.records i r) ≡ progress_of f h.records
    set_other f q = set-other r.file f i r h.records (ground arith) q only

    placed : (f : ℕ) → Placed f (h.progress_at f) (set h.records i r)
    placed f = elim (Bool-cases (r.file == f)) [
      | inl same ↦
          subst (λ g. Placed g (h.progress_at g) (set h.records i r)) ((==_iff r.file f).0 same)
            (subst (λ at. Placed r.file at (set h.records i r)) (sym n) there.0)
      | inr other ↦
          set-Placed-other r.file f i (h.progress_at f) r h.records (ground arith)
            (λ q. ground arith) only (x f)
    ]

append_lem : (h : RunHistory) (r : Record) → IsIndexed h → Appended h r
append_lem h r x = elim (Bool-cases r.progress) [
  | inr event ↦ append-event h r event x
  | inl progress ↦ elim (Option-cases (h.progress_at r.file)) [
    | inl first ↦ append-first h r progress first x
    | inr (i, again) ↦ append-again h r i progress again x
  ]
]

replay-events :
    (h : RunHistory) (rs : List Record)
    → IsIndexed h
    → events (replay h rs).records ≡ events h.records ++ events rs
unfolding replay
replay-events h [] x = sym (append_nil (events h.records))
replay-events h (r ∷ rs) x =
    let a : Appended h r = append_lem h r x in
    replay-events (append_record h r) rs a.indexed
    ∙ ground (
      arith,
      a.events_kept,
      append_assoc (events h.records) (if r.progress then [] else r ∷ []) (events rs),
    )

replay-progress :
    (f : ℕ) (h : RunHistory) (rs : List Record)
    → IsIndexed h
    → progress_of f (replay h rs).records ≡ last_or (progress_of f h.records) (progress_of f rs)
unfolding replay
replay-progress f h [] x = refl
replay-progress f h (r ∷ rs) x =
    let a : Appended h r = append_lem h r x in
    replay-progress f (append_record h r) rs a.indexed
    ∙ (rw (a.progress_last f) (pick (is_progress f r)))
  where
    old : List Record
    old = progress_of f h.records

    pick :
        (b : Bool)
        → last_or (if b then r ∷ [] else old) (progress_of f rs)
          ≡ last_or old (if b then r ∷ progress_of f rs else progress_of f rs)
    pick true = refl
    pick false = refl

-- A new run's history, after any sequence of records, holds exactly the records that are not
-- progress, in their order, and of each file's progress exactly the last record.
pub replay_lem :
    (rs : List Record)
    → let shown = (replay empty_history rs).records in
      (events shown ≡ events rs) × ((f : ℕ) → progress_of f shown ≡ last_or [] (progress_of f rs))
unfolding empty_history
replay_lem rs = (
  replay-events empty_history rs (λ f. refl),
  λ f. replay-progress f empty_history rs (λ g. refl),
)
