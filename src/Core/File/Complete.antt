-- ===== src/Core/File/Complete.antt =====
-- When `processFile`, internal/core/engine.go, says that a file is complete.
use torpeek.Prelude.{
  ℕ, ◌+◌, ◌≤◌, ◌≡◌, refl, sym, subst, true, false, ◌&&◌, List, [], ◌∷◌, ◌==◌, length, All, none,
  some, arith, Bool-cases, Option-cases, inl, inr, ◌⊎◌, ◌∙◌, ap,
}
use torpeek.Prelude.Int.{ℤ}
use torpeek.Swarm.Torrent.{FileInfo, Torrent}
use torpeek.Core.Budget.{Floats, BudgetTracker}
use torpeek.Core.Stall.{ErrorCode}
use torpeek.Core.File.{Frame, is_failed}
use torpeek.Core.File.Point.{LoopState}
use torpeek.Core.File.Loop.{
  FileWorld, Planned, planned, unplanned, plan_file, Ended, all_worked, stopped, unstored,
  FileResult, finish_file, end_file, work_points, process_file,
}
use torpeek.Core.File.Points.{RecordsOf, count_failed, state_of}
use torpeek.Core.File.Filed.{work_points_lem}

RecordsOf-length :
    (i : ℕ) (ats : List ℤ) (rs : List Frame) → RecordsOf i ats rs → length rs ≤ length ats
RecordsOf-length i ats [] h = omega arith
RecordsOf-length i [] (r ∷ rs) h = elim h [ ]
RecordsOf-length i (at ∷ ats) (r ∷ rs) h = omega (arith, RecordsOf-length (i + 1) ats rs h.1)

abbrev pub HasFrame : Frame → Type 0
HasFrame r = is_failed r.shift ≡ false

count_failed-length : (rs : List Frame) → count_failed false rs ≤ length rs
count_failed-length [] = omega arith
count_failed-length (r ∷ rs) = elim (Bool-cases (is_failed r.shift)) [
  | inl e ↦ rw e (omega (arith, count_failed-length rs))
  | inr e ↦ rw e (omega (arith, count_failed-length rs))
]

count_failed-HasFrame : (rs : List Frame) → length rs ≤ count_failed false rs → All HasFrame rs
count_failed-HasFrame [] h = tt
count_failed-HasFrame (r ∷ rs) h = elim (Bool-cases (is_failed r.shift)) [
  | inl e ↦
      let few : count_failed false (r ∷ rs) ≡ count_failed false rs = rw e refl in
      let all : length (r ∷ rs) ≤ count_failed false rs = subst (λ n. length (r ∷ rs) ≤ n) few h in
      let never : ⊥ = omega (arith, all, count_failed-length rs) in elim never [ ]
  | inr e ↦
      let one : count_failed false (r ∷ rs) ≡ count_failed false rs + 1 = rw e refl in
      let all : length (r ∷ rs) ≤ count_failed false rs + 1 =
        subst (λ n. length (r ∷ rs) ≤ n) one h in
      (e, count_failed-HasFrame rs (omega (arith, all)))
]

Planned-cases :
    (pl : Planned)
    → ((points : List ℤ) × (duration : ℤ) × (pl ≡ planned points duration))
      ⊎ ((code : ErrorCode) × (pl ≡ unplanned code))
Planned-cases (planned points duration) = inl (points, duration, refl)
Planned-cases (unplanned code) = inr (code, refl)

true_not_false : true ≡ false → ⊥
true_not_false e = cc

module _ (f : Floats) where
  abbrev Wholly : ℕ → LoopState f → FileResult f → Type 0
  Wholly total s r = (s.produced ≡ total) × (r.produced ≡ total) × (r.error ≡ none)

  written-finish_file :
      (w : FileWorld) (total : ℕ) (s : LoopState f)
      → (w.manifest_written && w.sheet_written) ≡ true
      → finish_file f w total s
        ≡ record { produced = s.produced; complete = s.produced == total; error = none }
  unfolding finish_file
  written-finish_file w total s e = rw (e, finish_file) refl

  unwritten-finish_file :
      (w : FileWorld) (total : ℕ) (s : LoopState f)
      → (w.manifest_written && w.sheet_written) ≡ false
      → (finish_file f w total s).complete ≡ false
  unfolding finish_file
  unwritten-finish_file w total s e = rw (e, finish_file) refl

  equal_of : (a b : ℕ) → (a == b) ≡ true → a ≡ b
  equal_of a b h = ground arith

  finish_file-complete :
      (w : FileWorld) (total : ℕ) (s : LoopState f)
      → (finish_file f w total s).complete ≡ true
      → Wholly total s (finish_file f w total s)
  finish_file-complete w total s h = elim (Bool-cases (w.manifest_written && w.sheet_written)) [
    | inl e ↦
        let done = written-finish_file w total s e in
        let all = equal_of s.produced total (sym (ap (λ r. r.complete) done) ∙ h) in
        rw done (all, all, refl)
    | inr e ↦ elim (true_not_false (sym h ∙ unwritten-finish_file w total s e)) [ ]
  ]

  end_file-complete :
      (w : FileWorld) (total : ℕ) (e : Ended f)
      → (end_file f w total e).complete ≡ true
      → Wholly total (state_of f e) (end_file f w total e)
  unfolding end_file
  end_file-complete w total (all_worked s) h = finish_file-complete w total s h
  end_file-complete w total (stopped s) h = finish_file-complete w total s h
  end_file-complete w total (unstored s) h = cc

  module _ (w : FileWorld) (file : FileInfo) (tracker : BudgetTracker f) (torrent : Torrent) where
    refused-process_file :
        (code : ErrorCode)
        → w.publish_error ≡ some code
        → (process_file f w file tracker torrent).complete ≡ false
    unfolding process_file
    refused-process_file code e = rw (e, process_file) refl

    unplanned-process_file :
        (code : ErrorCode)
        → w.publish_error ≡ none
        → plan_file w ≡ unplanned code
        → (process_file f w file tracker torrent).complete ≡ false
    unfolding process_file
    unplanned-process_file code e n = rw (e, process_file) (rw n refl)

    planned-process_file :
        (points : List ℤ) (duration : ℤ)
        → w.publish_error ≡ none
        → plan_file w ≡ planned points duration
        → process_file f w file tracker torrent
          ≡ end_file f w (length points) (work_points f w file tracker torrent points duration)
    unfolding process_file
    planned-process_file points duration e n = rw (e, process_file) (rw n refl)

    -- The file was planned, each point has a record with a frame, and the result counts them all.
    abbrev pub IsWhole : FileResult f → Type 0
    IsWhole result =
        (points : List ℤ) × (duration : ℤ) × (plan_file w ≡ planned points duration)
        × (length (state_of f (work_points f w file tracker torrent points duration)).records
            ≡ length points)
        × All HasFrame (state_of f (work_points f w file tracker torrent points duration)).records
        × (result.produced ≡ length points)
        × (result.error ≡ none)

    planned-IsWhole :
        (points : List ℤ) (duration : ℤ)
        → plan_file w ≡ planned points duration
        → (result : FileResult f)
        → Wholly
            (length points)
            (state_of f (work_points f w file tracker torrent points duration))
            result
        → IsWhole result
    planned-IsWhole points duration n result (a, b, c) =
        let s = state_of f (work_points f w file tracker torrent points duration) in
        let (of_points, told, counts, lost, cause) =
          work_points_lem f w file tracker torrent points duration in
        let short = RecordsOf-length 0 points s.records of_points in
        let few = count_failed-length s.records in
        (
          points,
          duration,
          n,
          omega (arith, short, few, counts, a),
          count_failed-HasFrame s.records (omega (arith, short, counts, a)),
          b,
          c,
        )

  -- A file that is said to be complete was planned, every point of its plan has a record with a frame, all of
  -- them are counted, and nothing failed: a gap never passes as a whole result.
  pub process_file-IsWhole :
      (w : FileWorld) (file : FileInfo) (tracker : BudgetTracker f) (torrent : Torrent)
      → (process_file f w file tracker torrent).complete ≡ true
      → IsWhole w file tracker torrent (process_file f w file tracker torrent)
  process_file-IsWhole w file tracker torrent h = elim (Option-cases w.publish_error) [
    | inr (code, e) ↦
        elim (true_not_false (sym h ∙ refused-process_file w file tracker torrent code e)) [ ]
    | inl e ↦ elim (Planned-cases (plan_file w)) [
      | inr (code, n) ↦
          elim (true_not_false (sym h ∙ unplanned-process_file w file tracker torrent code e n)) [ ]
      | inl (points, duration, n) ↦
          let same = planned-process_file w file tracker torrent points duration e n in
          let ended = work_points f w file tracker torrent points duration in
          rw same (
            planned-IsWhole w file tracker torrent points duration n
              (end_file f w (length points) ended)
              (end_file-complete w (length points) ended (sym (ap (λ r. r.complete) same) ∙ h)))
    ]
  ]
