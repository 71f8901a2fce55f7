-- ===== src/Web/Ticks/Inv.antt =====
-- What holds of a row of the choice in internal/web/server.go between two handlers.
use torpeek.Prelude.{
  ◌≡◌, refl, sym, ap, subst, ◌∙◌, Bool, true, false, List, [], ◌∷◌, ◌==◌, arith, length, Bool-cases,
  inl, inr,
}
use torpeek.Prelude.Int.{ℤ}
use torpeek.Web.Queue.{RunState, running, is_running, is_needs_action, queueable}
use torpeek.Web.Ticks.{
  Spec, Row, Request, contains_file, with_files, without_files, is_nil, asks_every_video,
  note_asked, lock_count, tick_in_flight, tick_waiting, tick_row, untick_row,
}
use torpeek.Web.Ticks.Specs.{
  contains_file-with_files, contains_file-without_files, Distinct, Distinct-with_files,
  Distinct-without_files, nil_absent,
}

-- A file waits for the next pass only behind a pass that names its files, is not in that pass, and has
-- been asked for; it waits once.
pub record IsApart (st : RunState) (row : Row) : Type 0 where
  pub behind : is_running st ≡ false → row.pending ≡ []
  pub named : is_nil row.request.files ≡ true → row.pending ≡ []
  pub apart :
      (f : Spec) → contains_file row.pending f ≡ true → contains_file row.request.files f ≡ false
  pub was_asked : (f : Spec) → contains_file row.pending f ≡ true → contains_file row.asked f ≡ true
  pub once : Distinct row.pending

-- With nothing pending there is nothing to keep.
pub nothing_pending : (st : RunState) (row : Row) → row.pending ≡ [] → IsApart st row
unfolding contains_file
nothing_pending st row e = record {
  behind = λ h. e;
  named = λ h. e;
  apart = λ f m. ground (arith, absent f);
  was_asked = λ f m. ground (arith, absent f);
  once = subst Distinct (sym e) tt;
}
  where
    absent : (f : Spec) → contains_file row.pending f ≡ false
    absent f = nil_absent row.pending f (ap is_nil e)

-- A run that keeps running keeps its row.
pub still_running :
    (st st' : RunState) (row : Row)
    → (is_running st ≡ true → is_running st' ≡ true)
    → IsApart st row
    → IsApart st' row
still_running st st' row keep v = record {
  behind = λ h. v.behind (ground (arith, keep));
  named = v.named;
  apart = v.apart;
  was_asked = v.was_asked;
  once = v.once;
}

pub lock_count-files :
    (count : ℤ) (opens : Bool) (req : Request) → (lock_count count opens req).files ≡ req.files
unfolding lock_count
lock_count-files count opens req = ground arith

-- A tick takes nothing away from the row's own record of what was asked.
pub note_asked-IsApart :
    (st : RunState) (row : Row) (chosen : List Spec)
    → IsApart st row
    → IsApart st (note_asked row chosen)
note_asked-IsApart st row chosen v = record {
  behind = v.behind;
  named = v.named;
  apart = v.apart;
  was_asked = λ f m. ground (arith, contains_file-with_files row.asked chosen f, v.was_asked f m);
  once = v.once;
}

tick_in_flight-IsApart :
    (row : Row) (chosen : List Spec) (count : ℤ)
    → is_nil row.request.files ≡ false
    → IsApart running row
    → IsApart running (tick_in_flight row chosen count).0
unfolding tick_in_flight
tick_in_flight-IsApart row chosen count n v =
    elim (Bool-cases (length grown == length row.pending)) [
      | inl same ↦ rw same (note_asked-IsApart running row chosen v)
      | inr more ↦ rw more (record {
        behind = λ h. cc;
        named = λ h. ground (arith, keeps);
        apart = λ f m. ground (
          arith,
          keeps,
          contains_file-with_files row.pending want f,
          contains_file-without_files chosen row.request.files f,
          v.apart f,
        );
        was_asked = λ f m. ground (
          arith,
          contains_file-with_files row.pending want f,
          contains_file-without_files chosen row.request.files f,
          contains_file-with_files row.asked chosen f,
          v.was_asked f,
        );
        once = Distinct-with_files row.pending want v.once;
      })
    ]
  where
    want : List Spec
    want = without_files chosen row.request.files

    grown : List Spec
    grown = with_files row.pending want

    keeps : (lock_count count (is_nil row.pending) row.request).files ≡ row.request.files
    keeps = lock_count-files count (is_nil row.pending) row.request

tick_waiting-pending :
    (parked : Bool) (row : Row) (chosen : List Spec) (count : ℤ)
    → (tick_waiting parked row chosen count).0.pending ≡ row.pending
unfolding tick_waiting
tick_waiting-pending parked row chosen count = ground arith

pub tick_row-IsApart :
    (st : RunState) (row : Row) (chosen : List Spec) (count : ℤ)
    → asks_every_video st row ≡ false
    → IsApart st row
    → IsApart st (tick_row st row chosen count).0
unfolding tick_row asks_every_video
tick_row-IsApart running row chosen count n v =
    tick_in_flight-IsApart row chosen count (ground arith) v
tick_row-IsApart st row chosen count n v =
    nothing_pending _ _ (tick_waiting-pending (is_needs_action st) row chosen count ∙ v.behind refl)

without-nil : (xs : List Spec) (spec : Spec) → xs ≡ [] → without_files xs (spec ∷ []) ≡ []
unfolding without_files
without-nil xs spec e = rw e refl

untick_row-pending :
    (st : RunState) (row : Row) (spec : Spec)
    → row.pending ≡ []
    → (untick_row st row spec).pending ≡ []
unfolding untick_row
untick_row-pending st row spec e = ground (arith, without-nil row.pending spec e)

pub queueable_idle : (st : RunState) → queueable st ≡ true → is_running st ≡ false
unfolding queueable
queueable_idle running q = sym q
queueable_idle st q = refl

pub untick_row-IsApart :
    (st : RunState) (row : Row) (spec : Spec) → IsApart st row → IsApart st (untick_row st row spec)
unfolding untick_row
untick_row-IsApart st row spec v = elim (Bool-cases (queueable st)) [
  | inl q ↦ nothing_pending st _ (untick_row-pending st row spec (v.behind (queueable_idle st q)))
  | inr w ↦ rw w (record {
    behind = λ h. drained (v.behind h);
    named = λ h. drained (v.named h);
    apart = λ f m. ground (arith, contains_file-without_files row.pending (spec ∷ []) f, v.apart f);
    was_asked = λ f m. ground (
      arith,
      contains_file-without_files row.pending (spec ∷ []) f,
      contains_file-without_files row.asked (spec ∷ []) f,
      v.was_asked f,
    );
    once = Distinct-without_files row.pending (spec ∷ []) v.once;
  })
]
  where
    drained : row.pending ≡ [] → without_files row.pending (spec ∷ []) ≡ []
    drained e = without-nil row.pending spec e
