-- ===== src/Web/Ticks/Union.antt =====
-- A tick, internal/web/server.go, adds its files to the set that the page is shown, whatever list they
-- go to: what the lists name, as sets of indices.
use torpeek.Prelude.{
  ℕ, ◌≡◌, refl, sym, Bool, true, false, ◌||◌, List, [], ◌∷◌, ◌++◌, ◌==◌, arith, if◌then◌else◌,
  Bool-cases, Option-cases, inl, inr, none, some, some_inj, subst,
}
use torpeek.Prelude.Int.{ℤ}
use torpeek.Prelude.Text.{same, trim_space}
use torpeek.Web.Queue.{RunState, needs_action, is_running, is_needs_action}
use torpeek.Web.Ticks.{
  Spec, Row, Request, with_files, without_files, is_nil, has_index, holds_file, choose,
  asks_every_video, tick_in_flight, tick_waiting, tick_row,
}
use torpeek.Web.Ticks.Handlers.{
  Registry, accepted, not_a_video, run_state, decide_run, decide_entry,
}
use torpeek.Web.Ticks.Specs.{with_files-nil}
use torpeek.Web.Ticks.Inv.{lock_count-files}
use torpeek.Web.Ticks.Names.{
  names-cons, names-with_files, names-without_files, names-trim, holds-names,
}
use torpeek.Web.Ticks.Report.{ticked}
use torpeek.Web.Ticks.Sets.{
  names, names_nothing, names-append, has_index-sort, has_index-file_indices,
}

abbrev all_specs : Row → List Spec
all_specs row = row.asked ++ row.request.files ++ row.pending

names-all :
    (row : Row) (k : ℤ)
    → names (all_specs row) k
      ≡ (names row.asked k || names row.request.files k || names row.pending k)
names-all row k = ground (
  arith,
  names-append (row.asked ++ row.request.files) row.pending k,
  names-append row.asked row.request.files k,
)

tick_in_flight-union :
    (row : Row) (chosen : List Spec) (count : ℤ) (k : ℤ)
    → names (all_specs (tick_in_flight row chosen count).0) k
      ≡ (names (all_specs row) k || names chosen k)
unfolding tick_in_flight
tick_in_flight-union row chosen count k = ground (
  arith,
  names-all row k,
  names-all (tick_in_flight row chosen count).0 k,
  names-with_files row.asked chosen k,
  names-with_files row.pending (without_files chosen row.request.files) k,
  names-without_files chosen row.request.files k,
  lock_count-files count (is_nil row.pending) row.request,
)

tick_waiting-union :
    (parked : Bool) (row : Row) (chosen : List Spec) (count : ℤ) (k : ℤ)
    → names (all_specs (tick_waiting parked row chosen count).0) k
      ≡ (names (all_specs row) k || names chosen k)
unfolding tick_waiting
tick_waiting-union parked row chosen count k = ground (
  arith,
  names-all row k,
  names-all (tick_waiting parked row chosen count).0 k,
  names-with_files row.asked chosen k,
  names-with_files row.request.files chosen k,
  lock_count-files count (is_nil row.request.files) (name_all row.request),
)
  where
    name_all : Request → Request
    name_all req = record req { files = with_files row.request.files chosen }

tick_row-union :
    (st : RunState) (row : Row) (chosen : List Spec) (count : ℤ) (k : ℤ)
    → names (all_specs (tick_row st row chosen count).0) k
      ≡ (names (all_specs row) k || names chosen k)
unfolding tick_row
tick_row-union st row chosen count k = ground (
  arith,
  tick_in_flight-union row chosen count k,
  tick_waiting-union (is_needs_action st) row chosen count k,
)

-- A row on which something has been ticked names its files.
tick_row-named :
    (st : RunState) (row : Row) (chosen : List Spec) (count : ℤ)
    → asks_every_video st row ≡ false
    → is_nil chosen ≡ false
    → is_nil (tick_row st row chosen count).0.request.files ≡ false
unfolding tick_row asks_every_video tick_in_flight tick_waiting
tick_row-named st row chosen count a n = ground (
  arith,
  with_files-nil row.request.files chosen n,
  lock_count-files count (is_nil row.pending) row.request,
  lock_count-files count (is_nil row.request.files) (name_all row.request),
  only_running st,
)
  where
    name_all : Request → Request
    name_all req = record req { files = with_files row.request.files chosen }

    only_running : (st : RunState) → is_running st ≡ true → is_needs_action st ≡ false
    only_running needs_action e = sym e
    only_running st e = refl

-- The files of a tick are the torrent's, and trimming does not change what they name.
choose_lem :
    (row : Row) (files chosen : List Spec) (k : ℤ)
    → choose row files ≡ some chosen
    → (names chosen k ≡ names files k)
      × (names chosen k ≡ true → has_index row.videos k ≡ true)
      × (is_nil chosen ≡ is_nil files)
unfolding choose
choose_lem row [] chosen k e =
    subst
      (λ c.
        (names c k ≡ names [] k)
        × (names c k ≡ true → has_index row.videos k ≡ true)
        × (is_nil c ≡ true))
      (some_inj [] chosen e) (refl, names_nothing k, refl)
choose_lem row (f ∷ fs) chosen k e = elim (Bool-cases (holds_file row (trim_space f))) [
  | inr n ↦ let x : none ≡ some chosen = rw (n, choose) at e in cc
  | inl y ↦ elim (Option-cases (choose row fs)) [
    | inl g ↦ let x : none ≡ some chosen = rw (y, g, choose) at e in cc
    | inr (rest, g) ↦
        let x : some (trim_space f ∷ rest) ≡ some chosen = rw (y, g, choose) at e in
        let ih = choose_lem row fs rest k g in
        subst
          (λ c.
            (names c k ≡ names (f ∷ fs) k)
            × (names c k ≡ true → has_index row.videos k ≡ true)
            × (is_nil c ≡ false))
          (some_inj (trim_space f ∷ rest) chosen x)
          (
            ground
                (arith, names-cons (trim_space f) rest k, names-cons f fs k, names-trim f k, ih.0),
            (λ m. ground (
              arith,
              m,
              names-cons (trim_space f) rest k,
              names-trim f k,
              ih.1,
              holds-names row f k y,
            )),
            refl,
          )
  ]
]

-- What the page is shown of a row that names its files.
ticked-named :
    (st : RunState) (row : Row) (k : ℤ)
    → asks_every_video st row ≡ false
    → has_index (ticked st row) k ≡ names (all_specs row) k
unfolding ticked
ticked-named st row k a = rw a (has_index-file_indices (all_specs row) k)

ticked-every :
    (st : RunState) (row : Row) (k : ℤ)
    → asks_every_video st row ≡ true
    → has_index (ticked st row) k ≡ has_index row.videos k
unfolding ticked
ticked-every st row k a = rw a (has_index-sort row.videos k)

pub nil_asks :
    (st : RunState) (row : Row) → is_nil row.request.files ≡ false → asks_every_video st row ≡ false
unfolding asks_every_video
nil_asks st row n = ground arith

-- An accepted tick went past every refusal.
pub decide_run-entry :
    (ok : ℕ → Bool) (r : Registry) (i : ℕ) (files : List Spec) (count : ℤ)
    → (decide_run ok r (some i) files count).1 ≡ accepted
    → (decide_run ok r (some i) files count ≡ decide_entry ok r i files count)
      × (is_nil files ≡ false)
unfolding decide_run
decide_run-entry ok r i files count a = ground arith

Grown : Registry → ℕ → List Spec → ℤ → Registry → Type 0
Grown r i files k r' =
    has_index (ticked (run_state r' i) (r'.rows i)) k
    ≡ (has_index (ticked (run_state r i) (r.rows i)) k || names files k)

pub same_id : (n : ℕ) → (n == n) ≡ true
same_id n = ground arith

decide_entry-ticked :
    (ok : ℕ → Bool) (r : Registry) (i : ℕ) (files : List Spec) (count : ℤ) (k : ℤ)
    → is_nil files ≡ false
    → (decide_entry ok r i files count).1 ≡ accepted
    → Grown r i files k (decide_entry ok r i files count).0
unfolding decide_entry Grown
decide_entry-ticked ok r i files count k f a = elim (Option-cases (choose (r.rows i) files)) [
  | inl e ↦ let x : not_a_video ≡ accepted = rw (e, decide_entry) at a in cc
  | inr (chosen, e) ↦
      let c = choose_lem (r.rows i) files chosen k e in
      elim (Bool-cases (asks_every_video (run_state r i) (r.rows i))) [
        | inl y ↦
            rw (e, y, decide_entry)
              (ground (arith, ticked-every (run_state r i) (r.rows i) k y, c.0, c.1))
        | inr n ↦ elim (Bool-cases (tick_row (run_state r i) (r.rows i) chosen count).1) [
          | inl grew ↦ rw (e, n, grew, decide_entry) (told chosen n (rw f at c.2) c.0 _)
          | inr same ↦ rw (e, n, same, decide_entry) (told chosen n (rw f at c.2) c.0 _)
        ]
      ]
]
  where
    told :
        (chosen : List Spec)
        → asks_every_video (run_state r i) (r.rows i) ≡ false
        → is_nil chosen ≡ false
        → names chosen k ≡ names files k
        → (st : RunState)
        → has_index
            (ticked st
              (if i == i then (tick_row (run_state r i) (r.rows i) chosen count).0 else r.rows i))
            k
          ≡ (has_index (ticked (run_state r i) (r.rows i)) k || names files k)
    told chosen n m e st = rw (same_id i) (
        ground (
          arith,
          ticked-named (run_state r i) (r.rows i) k n,
          ticked-named st (tick_row (run_state r i) (r.rows i) chosen count).0 k (
              nil_asks st (tick_row (run_state r i) (r.rows i) chosen count).0
                (tick_row-named (run_state r i) (r.rows i) chosen count n m)),
          tick_row-union (run_state r i) (r.rows i) chosen count k,
          e,
        ))

-- The page is shown a set of files, whatever lists they stand in: when a tick is accepted, that set becomes its
-- union with the files of the tick, also if the run asks for every video and nothing changes, and whatever
-- dispatching does to the run.
pub decide_run-ticked :
    (ok : ℕ → Bool) (r : Registry) (i : ℕ) (files : List Spec) (count : ℤ) (k : ℤ)
    → (decide_run ok r (some i) files count).1 ≡ accepted
    → let r' = (decide_run ok r (some i) files count).0 in
      has_index (ticked (run_state r' i) (r'.rows i)) k
      ≡ (has_index (ticked (run_state r i) (r.rows i)) k || names files k)
unfolding Grown
decide_run-ticked ok r i files count k a =
    let (e, f) = decide_run-entry ok r i files count a in
    rw e (decide_entry-ticked ok r i files count k f (rw e at a))
