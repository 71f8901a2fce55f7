-- ===== src/Core/Capture/Blank.antt =====
-- `rejectBlank` of internal/core/engine.go: a blank frame gives way to one farther on.
use torpeek.Prelude.{
  ℕ, zero, suc, ◌≡◌, ◌≢◌, refl, Bool, true, false, if◌then◌else◌, Option, none, some, arith,
  Bool-cases, Option-cases, inl, inr, ◌⊎◌, subst, sym,
}
use torpeek.Prelude.Int.{ℤ, pos, leb_ℤ, ◌+ℤ◌, ◌*ℤ◌, ◌<ℤ◌}
use torpeek.Core.Capture.{Capture, shift_blank}

abbrev pub max_blank_steps : ℕ
max_blank_steps = 2

-- Ten seconds, in nanoseconds.
abbrev pub min_seek_tolerance : ℕ
min_seek_tolerance = 10000000000

abbrev pub stepped : Capture → ℕ → ℤ → Capture
stepped c frame pts = record c { frame = frame; actual = pts; shift = shift_blank }

-- The attempts that are left, from the best frame so far. A key frame that is no farther on doubles the
-- advance.
unfoldable pub step_past :
    (ℤ → Option ℤ) → (ℤ → Option ℕ) → (ℕ → Option Bool) → ℤ → ℕ → ℤ → Capture → Capture
step_past keyframe_at frame_at is_blank step zero advance best = best
step_past keyframe_at frame_at is_blank step (suc k) advance best =
    elim (keyframe_at (best.actual +ℤ advance)) [
      | none ↦ best
      | some pts ↦ elim (leb_ℤ pts best.actual) [
        | true ↦ step_past keyframe_at frame_at is_blank step k (advance *ℤ pos 2) best
        | false ↦ elim (frame_at pts) [
          | none ↦ best
          | some frame ↦ elim (is_blank frame) [
            | some true ↦
                step_past keyframe_at frame_at is_blank step k step (stepped best frame pts)
            | some false ↦ stepped best frame pts
            | none ↦ stepped best frame pts
          ]
        ]
      ]
    ]

unfoldable pub reject_blank :
    (ℤ → Option ℤ) → (ℤ → Option ℕ) → (ℕ → Option Bool) → ℤ → Capture → Capture
unfolding step_past
reject_blank keyframe_at frame_at is_blank step shot =
    let step' = if leb_ℤ step (pos 0) then pos 2500000000 else step in
    elim (is_blank shot.frame) [
      | none ↦ shot
      | some false ↦ shot
      | some true ↦ step_past keyframe_at frame_at is_blank step' max_blank_steps step' shot
    ]

-- The frame stays, or it is one farther on, decoded where its key frame is and marked as stepped. What
-- was asked for stays.
abbrev pub Advances : (ℤ → Option ℕ) → Capture → Capture → Type 0
Advances frame_at c d =
    (d.asked ≡ c.asked)
    × ((d ≡ c)
        ⊎ ((c.actual <ℤ d.actual) × (frame_at d.actual ≡ some d.frame) × (d.shift ≡ shift_blank)))

Advances-stepped :
    (frame_at : ℤ → Option ℕ) (c d : Capture) (frame : ℕ) (pts : ℤ)
    → leb_ℤ pts c.actual ≡ false
    → frame_at pts ≡ some frame
    → Advances frame_at (stepped c frame pts) d
    → Advances frame_at c d
Advances-stepped g c d frame pts h f (e, inl same) =
    subst (λ x. Advances g c x) (sym same) (refl, inr (ground arith, f, refl))
Advances-stepped g c d frame pts h f (e, inr (later, found, mark)) =
    (e, inr (ground arith, found, mark))

module _ (kf : ℤ → Option ℤ) (g : ℤ → Option ℕ) (blank : ℕ → Option Bool) (step : ℤ) (k : ℕ)
    (advance : ℤ) (best : Capture) where
  keyless-step_past :
      kf (best.actual +ℤ advance) ≡ none → step_past kf g blank step (suc k) advance best ≡ best
  unfolding step_past
  keyless-step_past e = rw (e, step_past) refl

  short-step_past :
      (pts : ℤ)
      → kf (best.actual +ℤ advance) ≡ some pts
      → leb_ℤ pts best.actual ≡ true
      → step_past kf g blank step (suc k) advance best
        ≡ step_past kf g blank step k (advance *ℤ pos 2) best
  unfolding step_past
  short-step_past pts e h = rw (e, step_past) (rw h refl)

  frameless-step_past :
      (pts : ℤ)
      → kf (best.actual +ℤ advance) ≡ some pts
      → leb_ℤ pts best.actual ≡ false
      → g pts ≡ none
      → step_past kf g blank step (suc k) advance best ≡ best
  unfolding step_past
  frameless-step_past pts e h f = rw (e, step_past) (rw h (rw f refl))

  blank-step_past :
      (pts : ℤ) (frame : ℕ)
      → kf (best.actual +ℤ advance) ≡ some pts
      → leb_ℤ pts best.actual ≡ false
      → g pts ≡ some frame
      → blank frame ≡ some true
      → step_past kf g blank step (suc k) advance best
        ≡ step_past kf g blank step k step (stepped best frame pts)
  unfolding step_past
  blank-step_past pts frame e h f b = rw (e, step_past) (rw h (rw f (rw b refl)))

  clear-step_past :
      (pts : ℤ) (frame : ℕ)
      → kf (best.actual +ℤ advance) ≡ some pts
      → leb_ℤ pts best.actual ≡ false
      → g pts ≡ some frame
      → blank frame ≢ some true
      → step_past kf g blank step (suc k) advance best ≡ stepped best frame pts
  unfolding step_past
  clear-step_past pts frame e h f b = elim (Option-cases (blank frame)) [
    | inl n ↦ rw (e, step_past) (rw h (rw f (rw n refl)))
    | inr (true, n) ↦ elim (b n) [ ]
    | inr (false, n) ↦ rw (e, step_past) (rw h (rw f (rw n refl)))
  ]

is_blank-cases : (o : Option Bool) → (o ≡ some true) ⊎ (o ≢ some true)
is_blank-cases none = inr (λ e. cc)
is_blank-cases (some true) = inl refl
is_blank-cases (some false) = inr (λ e. cc)

step_past-Advances :
    (kf : ℤ → Option ℤ) (g : ℤ → Option ℕ) (blank : ℕ → Option Bool) (step : ℤ) (k : ℕ)
    (advance : ℤ) (best : Capture)
    → Advances g best (step_past kf g blank step k advance best)
unfolding step_past
step_past-Advances kf g blank step zero advance best = (refl, inl refl)
step_past-Advances kf g blank step (suc k) advance best =
    elim (Option-cases (kf (best.actual +ℤ advance))) [
      | inl e ↦ rw (keyless-step_past kf g blank step k advance best e) (refl, inl refl)
      | inr (pts, e) ↦ elim (Bool-cases (leb_ℤ pts best.actual)) [
        | inl h ↦
            rw (short-step_past kf g blank step k advance best pts e h)
              (step_past-Advances kf g blank step k (advance *ℤ pos 2) best)
        | inr h ↦ elim (Option-cases (g pts)) [
          | inl f ↦
              rw (frameless-step_past kf g blank step k advance best pts e h f) (refl, inl refl)
          | inr (frame, f) ↦ elim (is_blank-cases (blank frame)) [
            | inl b ↦ rw (blank-step_past kf g blank step k advance best pts frame e h f b) (
                Advances-stepped g best (step_past kf g blank step k step (stepped best frame pts))
                  frame pts h f
                  (step_past-Advances kf g blank step k step (stepped best frame pts)))
            | inr b ↦
                rw (clear-step_past kf g blank step k advance best pts frame e h f b)
                  (Advances-stepped g best (stepped best frame pts) frame pts h f (refl, inl refl))
          ]
        ]
      ]
    ]

module _ (kf : ℤ → Option ℤ) (g : ℤ → Option ℕ) (blank : ℕ → Option Bool) (step : ℤ)
    (shot : Capture) where
  kept-reject_blank : blank shot.frame ≢ some true → reject_blank kf g blank step shot ≡ shot
  unfolding reject_blank
  kept-reject_blank b = elim (Option-cases (blank shot.frame)) [
    | inl n ↦ rw (n, reject_blank) refl
    | inr (true, n) ↦ elim (b n) [ ]
    | inr (false, n) ↦ rw (n, reject_blank) refl
  ]

  blank-reject_blank :
      blank shot.frame ≡ some true
      → (wide : ℤ) × (reject_blank kf g blank step shot
          ≡ step_past kf g blank wide max_blank_steps wide shot)
  unfolding reject_blank
  blank-reject_blank b =
      (if leb_ℤ step (pos 0) then pos 2500000000 else step, rw (b, reject_blank) refl)

-- A frame that is not blank, or that cannot be judged, is the capture that stays. One that is blank gives
-- way at most to a frame decoded farther on, at a key frame that ffprobe and ffmpeg answered for, which
-- then says that it was stepped to; what was asked for is kept.
pub reject_blank_lem :
    (kf : ℤ → Option ℤ) (g : ℤ → Option ℕ) (blank : ℕ → Option Bool) (step : ℤ) (shot : Capture)
    → Advances g shot (reject_blank kf g blank step shot)
      × (blank shot.frame ≢ some true → reject_blank kf g blank step shot ≡ shot)
reject_blank_lem kf g blank step shot = (
  elim (is_blank-cases (blank shot.frame)) [
    | inl b ↦
        (let (wide, e) = blank-reject_blank kf g blank step shot b in
          rw e (step_past-Advances kf g blank wide max_blank_steps wide shot))
    | inr b ↦ rw (kept-reject_blank kf g blank step shot b) (refl, inl refl)
  ],
  kept-reject_blank kf g blank step shot,
)
