-- ===== src/Core/File/Filed.antt =====
-- The records that `processFile`, internal/core/engine.go, has when its loop over the points ends.
use torpeek.Prelude.{
  ℕ, ◌+◌, ◌≡◌, sym, subst, true, false, List, map, length, get_elem?, some_inj, some, arith, ◌∙◌,
  ap,
}
use torpeek.Prelude.Int.{ℤ}
use torpeek.Swarm.Torrent.{FileInfo, Torrent}
use torpeek.Core.Budget.{Floats, BudgetTracker}
use torpeek.Core.File.{Frame, reusable_frames}
use torpeek.Core.File.Loop.{FileWorld, Ended, plan_of, loop_start, work_points}
use torpeek.Core.File.Told.{told_of, announced, IsReused}
use torpeek.Core.File.Reusable.{reusable_frames-IsReused}
use torpeek.Core.File.Points.{RecordsOf, count_failed, state_of, Cause, points_loop-LoopEnds}

zero_place : (k : ℕ) → 0 + k ≡ k
zero_place k = omega arith

module _ (f : Floats) where
  -- What holds when the loop over the points of a file has ended.
  abbrev pub Filed : FileWorld → List ℤ → Ended f → Type 0
  Filed w points e =
      let s = state_of f e in
      RecordsOf 0 points s.records
      × (announced s.events ≡ map told_of s.records)
      × (s.produced ≡ count_failed false s.records)
      × (s.skipped ≡ count_failed true s.records)
      × Cause f w.point (reusable_frames w.stored points w.prior) 0 (length s.records)
          (length points) e

  IsReused-Matches :
      (w : FileWorld) (points : List ℤ) (k : ℕ) (r : Frame) (at : ℤ)
      → reusable_frames w.stored points w.prior (0 + k) ≡ some r
      → get_elem? points k ≡ some at
      → IsReused (0 + k) at r
  IsReused-Matches w points k r at d g =
      let (at', here, fits) = reusable_frames-IsReused w.stored points w.prior (0 + k) r d in
      subst (λ x. IsReused (0 + k) x r)
        (some_inj at' at (sym here ∙ ap (λ n. get_elem? points n) (zero_place k) ∙ g)) fits

  -- When the loop over the points of a file ends, the records are of its points in order, from the first
  -- one on: each with a frame, taken or reused, or with the code of its failure. The events have told of
  -- the same, in the same order, and the counts of frames and of failures are those of the records. The
  -- loop ended because each point has its record, or because at the next one, of which no earlier run
  -- has a frame, the run was to halt or the frame could not be written.
  pub work_points_lem :
      (w : FileWorld) (file : FileInfo) (tracker : BudgetTracker f) (torrent : Torrent)
      (points : List ℤ) (duration : ℤ)
      → Filed w points (work_points f w file tracker torrent points duration)
  unfolding work_points
  work_points_lem w file tracker torrent points duration =
      let done = reusable_frames w.stored points w.prior in
      let (rs, (a, b, c, d, e), cause) =
        points_loop-LoopEnds f w.point done (plan_of f w file points duration) 0 points
          (loop_start f tracker torrent) (IsReused-Matches w points) in
      let ended = work_points f w file tracker torrent points duration in
      subst
        (λ rs'.
          RecordsOf 0 points rs'
          × (announced (state_of f ended).events ≡ map told_of rs')
          × ((state_of f ended).produced ≡ count_failed false rs')
          × ((state_of f ended).skipped ≡ count_failed true rs')
          × Cause f w.point done 0 (length rs') (length points) ended)
        (sym a)
        (b, c, d ∙ zero_place (count_failed false rs), e ∙ zero_place (count_failed true rs), cause)
