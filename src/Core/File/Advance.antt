-- ===== src/Core/File/Advance.antt =====
-- What one capture point of `processFile`, internal/core/engine.go, adds to the records and the events.
use torpeek.Prelude.{
  ℕ, ◌+◌, ◌≡◌, refl, sym, Bool, true, false, List, [], ◌∷◌, ◌++◌, none, Bool-cases, Option-cases,
  inl, inr, ◌∙◌, ap,
}
use mathlib.Core.List.{append-nil as append_nil}
use torpeek.Prelude.Int.{ℤ, pos, quot_ℤ}
use torpeek.Swarm.Torrent.ClaimLog.{start_claim_log}
use torpeek.Core.Budget.{Floats, warning}
use torpeek.Core.Stall.{ErrorCode, observe}
use torpeek.Core.Capture.{Capture, Taken, taken, tool_failed, unavailable, capture_one}
use torpeek.Core.Capture.Blank.{reject_blank}
use torpeek.Core.File.{Frame, landed_near, is_failed}
use torpeek.Core.File.Told.{
  told_of, failure, announced, announced-append, RecordOf, Counted, IsReused, told-marked,
}
use torpeek.Core.File.Point.{
  Event, frame_ready, frame_skipped, budget_warning, progress, FilePlan, PointWorld, LoopState,
  Flow, goes_on, halts, storage_fails, point_code, halt_reason, reuse, warn, skip, report_failure,
  clear_stall, store, claim, ready_at, reused_at, after_capture, take_point,
}

module _ (f : Floats) where
  -- From `s` to `s'`, the point `i` was given its record, and it was announced and counted.
  abbrev pub Advance : ℕ → ℤ → LoopState f → LoopState f → Type 0
  Advance i at s s' =
      (r : Frame) × (s'.records ≡ s.records ++ (r ∷ []))
      × RecordOf i at r
      × (announced s'.events ≡ announced s.events ++ (told_of r ∷ []))
      × Counted (is_failed r.shift) s.produced s.skipped s'.produced s'.skipped

  -- Two states that differ neither in the records nor in what was announced and counted.
  abbrev pub Alike : LoopState f → LoopState f → Type 0
  Alike s t =
      (t.records ≡ s.records)
      × (announced t.events ≡ announced s.events)
      × (t.produced ≡ s.produced)
      × (t.skipped ≡ s.skipped)

  -- A point that was worked on goes on with its record, or its frame could not be written.
  abbrev pub Worked : PointWorld → ℕ → ℤ → LoopState f → Flow f → Type 0
  Worked w i at s (goes_on s') = Advance i at s s'
  Worked w i at s (halts s') = ⊥
  Worked w i at s (storage_fails s') = Alike s s' × (w.written ≡ none)

  Counted-Alike :
      (lost : Bool) (s t u : LoopState f)
      → Alike s t
      → Counted lost t.produced t.skipped u.produced u.skipped
      → Counted lost s.produced s.skipped u.produced u.skipped
  Counted-Alike true s t u (a, b, c, d) (h, k) = (h ∙ c, k ∙ ap (λ n. n + 1) d)
  Counted-Alike false s t u (a, b, c, d) (h, k) = (h ∙ ap (λ n. n + 1) c, k ∙ d)

  Advance-Alike :
      (i : ℕ) (at : ℤ) (s t u : LoopState f) → Alike s t → Advance i at t u → Advance i at s u
  Advance-Alike i at s t u (a, b, c, d) (r, e, g, h, k) = (
    r,
    e ∙ ap (λ rs. rs ++ (r ∷ [])) a,
    g,
    h ∙ ap (λ ts. ts ++ (told_of r ∷ [])) b,
    Counted-Alike (is_failed r.shift) s t u (a, b, c, d) k,
  )

  Worked-Alike :
      (w : PointWorld) (i : ℕ) (at : ℤ) (s t : LoopState f) (fl : Flow f)
      → Alike s t
      → Worked w i at t fl
      → Worked w i at s fl
  Worked-Alike w i at s t (goes_on u) l v = Advance-Alike i at s t u l v
  Worked-Alike w i at s t (halts u) l v = v
  Worked-Alike w i at s t (storage_fails u) (a, b, c, d) ((e, g, h, k), n) =
      ((e ∙ a, g ∙ b, h ∙ c, k ∙ d), n)

  Counted-then :
      (lost : Bool) (s t u : LoopState f)
      → Counted lost s.produced s.skipped t.produced t.skipped
      → Alike t u
      → Counted lost s.produced s.skipped u.produced u.skipped
  Counted-then true s t u (h, k) (a, b, c, d) = (c ∙ h, d ∙ k)
  Counted-then false s t u (h, k) (a, b, c, d) = (c ∙ h, d ∙ k)

  quiet :
      (es : List Event) (e : Event)
      → announced (e ∷ []) ≡ []
      → announced (es ++ (e ∷ [])) ≡ announced es
  quiet es e h =
      announced-append es (e ∷ []) ∙ ap (λ ts. announced es ++ ts) h ∙ append_nil (announced es)

  warn-Alike : (w : PointWorld) (s : LoopState f) → Alike s (warn f w s)
  unfolding warn
  warn-Alike w s = elim (Option-cases (warning f s.tracker w.at_warning).1) [
    | inl e ↦ rw (e, warn) (refl, refl, refl, refl)
    | inr (m, e) ↦ rw (e, warn) (refl, quiet s.events (budget_warning m) refl, refl, refl)
  ]

  skip-Advance :
      (p : FilePlan) (i : ℕ) (at : ℤ) (code : ErrorCode) (s : LoopState f)
      → Advance i at s (skip f p i at code s)
  unfolding skip
  skip-Advance p i at code s = (
    _,
    refl,
    (refl, refl, inr (refl, refl, refl, refl, (code, refl))),
    announced-append s.events (frame_skipped i at code ∷ []),
    (refl, refl),
  )

  -- What only the clock and a heartbeat add to.
  Advance-then :
      (i : ℕ) (at : ℤ) (s t u : LoopState f) → Advance i at s t → Alike t u → Advance i at s u
  Advance-then i at s t u (r, e, g, h, k) (a, b, c, d) =
      (r, a ∙ e, g, b ∙ h, Counted-then (is_failed r.shift) s t u k (a, b, c, d))

  report_failure-Alike :
      (p : FilePlan) (w : PointWorld) (code : ErrorCode) (s : LoopState f)
      → Alike s (report_failure f p w code s)
  unfolding report_failure
  report_failure-Alike p w code s = (refl, quiet s.events _ refl, refl, refl)

  clear_stall-Alike : (w : PointWorld) (s : LoopState f) → Alike s (clear_stall f w s)
  unfolding clear_stall
  clear_stall-Alike w s = (refl, refl, refl, refl)

  store-Worked :
      (p : FilePlan) (w : PointWorld) (i : ℕ) (at : ℤ) (shot : Capture) (s : LoopState f)
      → Worked w i at s (store f p w i at shot s)
  unfolding store
  store-Worked p w i at shot s = elim (Option-cases w.written) [
    | inl e ↦ rw (e, store) ((refl, refl, refl, refl), refl)
    | inr (path, e) ↦
        rw (e, store)
          (
            _,
            refl,
            (refl, refl, inl (refl, refl)),
            quiet (s.events ++ (frame_ready (ready_at p i at shot path) ∷ []))
                  (progress (s.produced + 1) p.total (observe s.clock w.now none).1) refl
                ∙ announced-append s.events (frame_ready (ready_at p i at shot path) ∷ []),
            (refl, refl),
          )
  ]

  failed-Worked :
      (p : FilePlan) (w : PointWorld) (i : ℕ) (at : ℤ) (code : ErrorCode) (s : LoopState f)
      → Worked w i at s (goes_on (report_failure f p w code (skip f p i at code s)))
  failed-Worked p w i at code s =
      Advance-then i at s (skip f p i at code s) (report_failure f p w code (skip f p i at code s))
        (skip-Advance p i at code s) (report_failure-Alike p w code (skip f p i at code s))

  after_capture-Worked :
      (p : FilePlan) (w : PointWorld) (i : ℕ) (at : ℤ) (t : Taken) (s : LoopState f)
      → Worked w i at s (after_capture f p w i at t s)
  unfolding after_capture
  after_capture-Worked p w i at tool_failed s =
      failed-Worked p w i at (point_code w.stalled w.tool_code) s
  after_capture-Worked p w i at unavailable s =
      failed-Worked p w i at (point_code w.stalled ErrorCode.unavailable) s
  after_capture-Worked p w i at (taken shot) s =
      elim (Bool-cases (landed_near shot.asked shot.actual p.tolerance)) [
        | inl e ↦ rw e (
            Worked-Alike w i at s (claim f w.step_claims s) _ (refl, refl, refl, refl)
              (store-Worked p w i at
                (reject_blank w.keyframe_at w.frame_at w.is_blank (quot_ℤ p.tolerance 4) shot)
                (claim f w.step_claims s)))
        | inr e ↦ rw e (
            Advance-then i at s (skip f p i at ErrorCode.seek_failed s)
              (clear_stall f w (skip f p i at ErrorCode.seek_failed s))
              (skip-Advance p i at ErrorCode.seek_failed s)
              (clear_stall-Alike w (skip f p i at ErrorCode.seek_failed s)))
      ]

  -- What becomes of a point: as `Worked` has it, or the loop is stopped before it.
  abbrev pub Answered : PointWorld → ℕ → ℤ → LoopState f → Flow f → Type 0
  Answered w i at s (goes_on s') = Advance i at s s'
  Answered w i at s (halts s') = (s' ≡ s) × ((halt_reason f w.ctx s.tracker w.at_halt).1 ≡ true)
  Answered w i at s (storage_fails s') = Alike s s' × (w.written ≡ none)

  Worked-Answered :
      (w : PointWorld) (i : ℕ) (at : ℤ) (s : LoopState f) (fl : Flow f)
      → Worked w i at s fl
      → Answered w i at s fl
  Worked-Answered w i at s (goes_on u) v = v
  Worked-Answered w i at s (halts u) v = elim v [ ]
  Worked-Answered w i at s (storage_fails u) v = v

  pub take_point-Answered :
      (p : FilePlan) (w : PointWorld) (i : ℕ) (at : ℤ) (s : LoopState f)
      → Answered w i at s (take_point f p w i at s)
  unfolding take_point
  take_point-Answered p w i at s = elim (Bool-cases (halt_reason f w.ctx s.tracker w.at_halt).1) [
    | inl e ↦ rw (e, take_point) (refl, e)
    | inr e ↦
        let shot =
          capture_one p.estimate p.window w.availability w.keyframe_at w.frame_at p.file p.duration
            at (quot_ℤ p.tolerance 4) in
        let warned = warn f w s in
        let open_log = record warned { torrent = start_claim_log warned.torrent p.file.index } in
        rw (e, take_point)
          (Worked-Answered w i at s (after_capture f p w i at shot (claim f w.claims open_log)) (
            Worked-Alike w i at s (claim f w.claims open_log)
              (after_capture f p w i at shot (claim f w.claims open_log)) (warn-Alike w s)
              (after_capture-Worked p w i at shot (claim f w.claims open_log))))
  ]

  pub reuse-Advance :
      (i : ℕ) (at : ℤ) (r : Frame) (s : LoopState f)
      → IsReused i at r
      → Advance i at s (reuse f i at r s)
  unfolding reuse
  reuse-Advance i at r s (a, b, c, d) = (
    r,
    refl,
    (a, b, inl (c, d)),
    announced-append s.events (frame_ready (reused_at i at r) ∷ [])
        ∙ ap (λ t. announced s.events ++ (t ∷ []))
            (ap
                (λ e. record {
                  index = pos i;
                  shift = r.shift;
                  path = r.path;
                  size = r.size;
                  error = e;
                })
                (sym (told-marked r.shift r.error c))
              ∙ ap
                  (λ j. record {
                    index = j;
                    shift = r.shift;
                    path = r.path;
                    size = r.size;
                    error = failure r.shift r.error;
                  })
                  (sym a)),
    rw c (refl, refl),
  )
