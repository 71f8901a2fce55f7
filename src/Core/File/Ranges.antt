-- ===== src/Core/File/Ranges.antt =====
-- The byte ranges of a frame that `processFile`, internal/core/engine.go, takes, and the claim log.
use torpeek.Prelude.{
  ℕ, ◌<◌, ◌≡◌, refl, subst, List, [], ◌∷◌, ◌++◌, if◌then◌else◌, get_elem?, none, some, arith,
  Bool-cases, Option-cases, inl, inr, ◌∙◌, ap,
}
use torpeek.Prelude.Int.{ℤ, quot_ℤ}
use torpeek.Swarm.Torrent.{FileInfo, PieceRange, Torrent}
use torpeek.Swarm.Torrent.Spans.{covered, Separated}
use torpeek.Swarm.Torrent.ClaimLog.{
  start_claim_log, end_claim_log, log_claim, log_claims, ordered, claim_log_lem,
}
use torpeek.Core.Budget.{Floats, warning}
use torpeek.Core.Stall.{ErrorCode}
use torpeek.Core.Capture.{Capture, Taken, taken, tool_failed, unavailable, capture_one}
use torpeek.Core.Capture.Blank.{reject_blank}
use torpeek.Core.File.{Frame, is_failed, landed_near}
use torpeek.Core.File.Point.{
  FilePlan, PointWorld, LoopState, Flow, goes_on, halts, storage_fails, halt_reason, warn, skip,
  report_failure, clear_stall, store, claim, point_code, after_capture, take_point,
}

log_claims-append :
    (t : Torrent) (cs ds : List (ℕ × PieceRange))
    → log_claims (log_claims t cs) ds ≡ log_claims t (cs ++ ds)
unfolding log_claims
log_claims-append t [] ds = refl
log_claims-append t ((j, r) ∷ cs) ds = log_claims-append (log_claim t j r) cs ds

end_claim_log-closed : (t : Torrent) (i : ℕ) → (end_claim_log t i).0.claim_log i ≡ none
unfolding end_claim_log
end_claim_log-closed t i = ground arith

-- The record's ranges are those bytes of the file that the claims ordered, and none if the point failed.
abbrev pub Footprint : Torrent → FileInfo → List (ℕ × PieceRange) → Frame → Type 0
Footprint t file cs r =
    if is_failed r.shift
    then r.byte_ranges ≡ []
    else (((x : ℕ) → covered x r.byte_ranges ≡ ordered t.piece_length file.index file cs x)
        × Separated r.byte_ranges)

module _ (f : Floats) where
  -- The point's record has its footprint, and the file's log is closed again.
  abbrev pub Traced : Torrent → FileInfo → List (ℕ × PieceRange) → List Frame → Flow f → Type 0
  Traced t file cs rs (goes_on s') =
      (r : Frame) × (s'.records ≡ rs ++ (r ∷ []))
      × Footprint t file cs r
      × (s'.torrent.claim_log file.index ≡ none)
  Traced t file cs rs (halts s') = Unit
  Traced t file cs rs (storage_fails s') = s'.torrent.claim_log file.index ≡ none

  module _ (p : FilePlan) (w : PointWorld) (i : ℕ) (at : ℤ) where
    skip-Traced :
        (t : Torrent) (cs : List (ℕ × PieceRange)) (code : ErrorCode) (s : LoopState f)
        → Traced t p.file cs s.records (goes_on (skip f p i at code s))
    unfolding skip
    skip-Traced t cs code s = (_, refl, refl, end_claim_log-closed s.torrent p.file.index)

    failed-Traced :
        (t : Torrent) (cs : List (ℕ × PieceRange)) (code : ErrorCode) (s : LoopState f)
        → Traced t p.file cs s.records (goes_on (report_failure f p w code (skip f p i at code s)))
    unfolding report_failure
    failed-Traced t cs code s = skip-Traced t cs code s

    clear-Traced :
        (t : Torrent) (cs : List (ℕ × PieceRange)) (rs : List Frame) (s : LoopState f)
        → Traced t p.file cs rs (goes_on s)
        → Traced t p.file cs rs (goes_on (clear_stall f w s))
    unfolding clear_stall
    clear-Traced t cs rs s h = h

    store-Traced :
        (t : Torrent) (cs : List (ℕ × PieceRange)) (shot : Capture) (s : LoopState f)
        → get_elem? t.files p.file.index ≡ some p.file
        → 0 < t.piece_length
        → s.torrent ≡ log_claims (start_claim_log t p.file.index) cs
        → Traced t p.file cs s.records (store f p w i at shot s)
    unfolding store
    store-Traced t cs shot s h k e = elim (Option-cases w.written) [
      | inl n ↦ rw (n, store) (end_claim_log-closed s.torrent p.file.index)
      | inr (path, n) ↦
          rw (n, store)
            (
              _,
              refl,
              rw e (claim_log_lem t p.file.index p.file cs h k),
              end_claim_log-closed s.torrent p.file.index,
            )
    ]

    after_capture-Traced :
        (t : Torrent) (shot : Taken) (s : LoopState f)
        → get_elem? t.files p.file.index ≡ some p.file
        → 0 < t.piece_length
        → s.torrent ≡ log_claims (start_claim_log t p.file.index) w.claims
        → Traced t p.file (w.claims ++ w.step_claims) s.records (after_capture f p w i at shot s)
    unfolding after_capture
    after_capture-Traced t tool_failed s h k e =
        failed-Traced t (w.claims ++ w.step_claims) (point_code w.stalled w.tool_code) s
    after_capture-Traced t unavailable s h k e =
        failed-Traced t (w.claims ++ w.step_claims) (point_code w.stalled ErrorCode.unavailable) s
    after_capture-Traced t (taken shot) s h k e =
        elim (Bool-cases (landed_near shot.asked shot.actual p.tolerance)) [
          | inl n ↦ rw n (
              store-Traced t (w.claims ++ w.step_claims)
                (reject_blank w.keyframe_at w.frame_at w.is_blank (quot_ℤ p.tolerance 4) shot)
                (claim f w.step_claims s) h k
                (ap (λ u. log_claims u w.step_claims) e
                  ∙ log_claims-append (start_claim_log t p.file.index) w.claims w.step_claims))
          | inr n ↦ rw n (
              clear-Traced t (w.claims ++ w.step_claims) s.records
                (skip f p i at ErrorCode.seek_failed s)
                (skip-Traced t (w.claims ++ w.step_claims) ErrorCode.seek_failed s))
        ]

    warn-torrent :
        (s : LoopState f) → ((warn f w s).torrent ≡ s.torrent) × ((warn f w s).records ≡ s.records)
    unfolding warn
    warn-torrent s = elim (Option-cases (warning f s.tracker w.at_warning).1) [
      | inl e ↦ rw (e, warn) (refl, refl)
      | inr (m, e) ↦ rw (e, warn) (refl, refl)
    ]

  -- Of a file that stands in the torrent: a point that is worked on gets a record whose byte ranges cover
  -- exactly the bytes of the file that were claimed for it, up to the capture and while it stepped past blank
  -- frames, in spans that are separated; a record without a frame has none. Either way, and when the frame
  -- cannot be written, the file's claim log is closed afterwards.
  pub take_point-Traced :
      (p : FilePlan) (w : PointWorld) (i : ℕ) (at : ℤ) (s : LoopState f)
      → get_elem? s.torrent.files p.file.index ≡ some p.file
      → 0 < s.torrent.piece_length
      → Traced s.torrent p.file (w.claims ++ w.step_claims) s.records (take_point f p w i at s)
  unfolding take_point
  take_point-Traced p w i at s h k = elim (Bool-cases (halt_reason f w.ctx s.tracker w.at_halt).1) [
    | inl e ↦ rw (e, take_point) tt
    | inr e ↦
        let shot =
          capture_one p.estimate p.window w.availability w.keyframe_at w.frame_at p.file p.duration
            at (quot_ℤ p.tolerance 4) in
        let warned = warn f w s in
        let open_log = record warned { torrent = start_claim_log warned.torrent p.file.index } in
        let (same, kept) = warn-torrent p w i at s in
        rw (e, take_point)
          (subst
            (λ rs.
              Traced s.torrent p.file (w.claims ++ w.step_claims) rs
                (after_capture f p w i at shot (claim f w.claims open_log)))
            kept
            (after_capture-Traced p w i at s.torrent shot (claim f w.claims open_log) h k
              (ap (λ t. log_claims (start_claim_log t p.file.index) w.claims) same)))
  ]
