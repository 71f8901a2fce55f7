-- ===== src/Core/File/Points.antt =====
-- The loop over the points in `processFile`, internal/core/engine.go: the records that it adds, and why it
-- ends.
use mathlib.Core.List.{append-nil as append_nil, append_assoc}
use torpeek.Prelude.{
  ℕ, suc, ◌+◌, ◌≡◌, refl, sym, subst, Bool, true, false, List, [], ◌∷◌, ◌++◌, map, if◌then◌else◌,
  length, get_elem?, Option, none, some, arith, Option-cases, inl, inr, ◌∙◌, ap,
}
use torpeek.Prelude.Int.{ℤ}
use torpeek.Core.Budget.{Floats}
use torpeek.Core.File.{Frame, is_failed}
use torpeek.Core.File.Point.{
  FilePlan, PointWorld, LoopState, Flow, goes_on, halts, storage_fails, halt_reason, reuse,
  take_point,
}
use torpeek.Core.File.Loop.{Ended, all_worked, stopped, unstored, points_loop}
use torpeek.Core.File.Told.{told_of, announced, RecordOf, Counted, IsReused}
use torpeek.Core.File.Advance.{Alike, Advance, Answered, take_point-Answered, reuse-Advance}

-- The records, in order, are of the points from the `i`th on, as far as they go.
abbrev pub RecordsOf : ℕ → List ℤ → List Frame → Type 0
RecordsOf i ats [] = Unit
RecordsOf i [] (r ∷ rs) = ⊥
RecordsOf i (at ∷ ats) (r ∷ rs) = RecordOf i at r × RecordsOf (i + 1) ats rs

-- How many of the records are of failed points, or of points with a frame.
abbrev pub count_failed : Bool → List Frame → ℕ
count_failed b [] = 0
count_failed b (r ∷ rs) =
    let rest = count_failed b rs in
    if b
    then (if is_failed r.shift then rest + 1 else rest)
    else (if is_failed r.shift then rest else rest + 1)

count_next :
    (lost : Bool) (a b m n : ℕ)
    → Counted lost a b m n
    → (x y u v : ℕ) → u ≡ m + x
    → v ≡ n + y
    → (u ≡ a + (if lost then x else x + 1)) × (v ≡ b + (if lost then y + 1 else y))
count_next true a b m n (h, k) x y u v e g = (e ∙ ap (λ t. t + x) h, omega (arith, k, g))
count_next false a b m n (h, k) x y u v e g = (omega (arith, h, e), g ∙ ap (λ t. t + y) k)

-- The next place, counted from the point `i` or from the one after it.
next_place : (i k : ℕ) → i + 1 + k ≡ i + suc k
next_place i k = omega arith

same_place : (i : ℕ) → i + 0 ≡ i
same_place i = omega arith

module _ (f : Floats) where
  -- From `s` to `s'` the records were added for the points from the `i`th on, announced and counted.
  abbrev pub Added : ℕ → List ℤ → List Frame → LoopState f → LoopState f → Type 0
  Added i ats rs s s' =
      (s'.records ≡ s.records ++ rs)
      × RecordsOf i ats rs
      × (announced s'.events ≡ announced s.events ++ map told_of rs)
      × (s'.produced ≡ s.produced + count_failed false rs)
      × (s'.skipped ≡ s.skipped + count_failed true rs)

  Added-cons :
      (i : ℕ) (at : ℤ) (ats : List ℤ) (r : Frame) (rs : List Frame) (s t u : LoopState f)
      → t.records ≡ s.records ++ (r ∷ [])
      → RecordOf i at r
      → announced t.events ≡ announced s.events ++ (told_of r ∷ [])
      → Counted (is_failed r.shift) s.produced s.skipped t.produced t.skipped
      → Added (i + 1) ats rs t u
      → Added i (at ∷ ats) (r ∷ rs) s u
  Added-cons i at ats r rs s t u a b c d (e, g, h, k, l) =
      let (more, lost) =
        count_next (is_failed r.shift) s.produced s.skipped t.produced t.skipped d
          (count_failed false rs) (count_failed true rs) u.produced u.skipped k l in
      (
        e ∙ ap (λ xs. xs ++ rs) a ∙ append_assoc s.records (r ∷ []) rs,
        (b, g),
        h
            ∙ ap (λ xs. xs ++ map told_of rs) c
            ∙ append_assoc (announced s.events) (told_of r ∷ []) (map told_of rs),
        more,
        lost,
      )

  Added-none : (i : ℕ) (ats : List ℤ) (s s' : LoopState f) → Alike f s s' → Added i ats [] s s'
  Added-none i ats s s' (a, b, c, d) = (
    a ∙ sym (append_nil s.records),
    tt,
    b ∙ sym (append_nil (announced s.events)),
    c ∙ omega arith,
    d ∙ omega arith,
  )

  abbrev pub state_of : Ended f → LoopState f
  state_of (all_worked s) = s
  state_of (stopped s) = s
  state_of (unstored s) = s

  module _ (w : ℕ → PointWorld) (done : ℕ → Option Frame) where
    -- Why the loop over `total` points from the `i`th on ended after `n` of them.
    abbrev pub Cause : ℕ → ℕ → ℕ → Ended f → Type 0
    Cause i n total (all_worked s) = n ≡ total
    Cause i n total (stopped s) =
        (done (i + n) ≡ none)
        × ((halt_reason f (w (i + n)).ctx s.tracker (w (i + n)).at_halt).1 ≡ true)
    Cause i n total (unstored s) = (done (i + n) ≡ none) × ((w (i + n)).written ≡ none)

    Cause-next :
        (i n total : ℕ) (e : Ended f) → Cause (i + 1) n total e → Cause i (suc n) (suc total) e
    Cause-next i n total (all_worked s) h = ap suc h
    Cause-next i n total (stopped s) h =
        subst (λ k. (done k ≡ none) × ((halt_reason f (w k).ctx s.tracker (w k).at_halt).1 ≡ true))
          (next_place i n) h
    Cause-next i n total (unstored s) h =
        subst (λ k. (done k ≡ none) × ((w k).written ≡ none)) (next_place i n) h

    -- The records that the loop adds from the point `i` on, and why it ended.
    abbrev pub LoopEnds : ℕ → List ℤ → LoopState f → Ended f → Type 0
    LoopEnds i ats s e =
        (rs : List Frame) × Added i ats rs s (state_of e) × Cause i (length rs) (length ats) e

    LoopEnds-next :
        (i : ℕ) (at : ℤ) (ats : List ℤ) (s t : LoopState f) (e : Ended f)
        → Advance f i at s t
        → LoopEnds (i + 1) ats t e
        → LoopEnds i (at ∷ ats) s e
    LoopEnds-next i at ats s t e (r, a, b, c, d) (rs, added, cause) = (
      r ∷ rs,
      Added-cons i at ats r rs s t (state_of e) a b c d added,
      Cause-next i (length rs) (length ats) e cause,
    )

    abbrev pub Matches : ℕ → List ℤ → Type 0
    Matches i ats =
        (k : ℕ) (r : Frame) (at : ℤ)
        → done (i + k) ≡ some r
        → get_elem? ats k ≡ some at
        → IsReused (i + k) at r

    Matches-next : (i : ℕ) (at : ℤ) (ats : List ℤ) → Matches i (at ∷ ats) → Matches (i + 1) ats
    Matches-next i at ats m k r x d g =
        subst (λ n. IsReused n x r) (sym (next_place i k))
          (m (suc k) r x (ap done (sym (next_place i k)) ∙ d) g)

    Matches-here :
        (i : ℕ) (at : ℤ) (ats : List ℤ) (r : Frame)
        → Matches i (at ∷ ats)
        → done i ≡ some r
        → IsReused i at r
    Matches-here i at ats r m e =
        subst (λ n. IsReused n at r) (same_place i) (m 0 r at (ap done (same_place i) ∙ e) refl)

    -- The cause at the point `i` itself.
    abbrev Here : ℕ → ℕ → Ended f → Type 0
    Here i total (all_worked s) = 0 ≡ total
    Here i total (stopped s) =
        (done i ≡ none) × ((halt_reason f (w i).ctx s.tracker (w i).at_halt).1 ≡ true)
    Here i total (unstored s) = (done i ≡ none) × ((w i).written ≡ none)

    Cause-Here : (i total : ℕ) (e : Ended f) → Here i total e → Cause i 0 total e
    Cause-Here i total (all_worked s) h = h
    Cause-Here i total (stopped s) h =
        subst (λ k. (done k ≡ none) × ((halt_reason f (w k).ctx s.tracker (w k).at_halt).1 ≡ true))
          (sym (same_place i)) h
    Cause-Here i total (unstored s) h =
        subst (λ k. (done k ≡ none) × ((w k).written ≡ none)) (sym (same_place i)) h

    flow-LoopEnds :
        (p : FilePlan) (i : ℕ) (at : ℤ) (ats : List ℤ) (s : LoopState f) (fl : Flow f)
        → done i ≡ none
        → Answered f (w i) i at s fl
        → ((t : LoopState f) → LoopEnds (i + 1) ats t (points_loop f p w done (i + 1) ats t))
        → LoopEnds i (at ∷ ats) s (elim fl [
          | goes_on t ↦ points_loop f p w done (i + 1) ats t
          | halts t ↦ stopped t
          | storage_fails t ↦ unstored t
        ])
    flow-LoopEnds p i at ats s (goes_on t) d v ih =
        LoopEnds-next i at ats s t (points_loop f p w done (i + 1) ats t) v (ih t)
    flow-LoopEnds p i at ats s (halts t) d (same, h) ih =
        subst (λ x. LoopEnds i (at ∷ ats) s (stopped x)) (sym same)
          (
            [],
            Added-none i (at ∷ ats) s s (refl, refl, refl, refl),
            Cause-Here i (suc (length ats)) (stopped s) (d, h),
          )
    flow-LoopEnds p i at ats s (storage_fails t) d (alike, h) ih =
        ([], Added-none i (at ∷ ats) s t alike, Cause-Here i (suc (length ats)) (unstored t) (d, h))

    pub points_loop-LoopEnds :
        (p : FilePlan) (i : ℕ) (ats : List ℤ) (s : LoopState f)
        → Matches i ats
        → LoopEnds i ats s (points_loop f p w done i ats s)
    unfolding points_loop
    points_loop-LoopEnds p i [] s m = ([], Added-none i [] s s (refl, refl, refl, refl), refl)
    points_loop-LoopEnds p i (at ∷ ats) s m = elim (Option-cases (done i)) [
      | inl e ↦
          rw (e, points_loop)
            (flow-LoopEnds p i at ats s (take_point f p (w i) i at s) e
              (take_point-Answered f p (w i) i at s)
              (λ t. points_loop-LoopEnds p (i + 1) ats t (Matches-next i at ats m)))
      | inr (r, e) ↦
          rw (e, points_loop)
            (LoopEnds-next i at ats s (reuse f i at r s)
              (points_loop f p w done (i + 1) ats (reuse f i at r s))
              (reuse-Advance f i at r s (Matches-here i at ats r m e))
              (points_loop-LoopEnds p (i + 1) ats (reuse f i at r s) (Matches-next i at ats m)))
    ]
