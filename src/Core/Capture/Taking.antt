-- ===== src/Core/Capture/Taking.antt =====
-- `captureOne` of internal/core/engine.go takes the first candidate that can be reached.
use torpeek.Prelude.{
  ℕ, ◌≡◌, refl, Bool, true, false, List, [], ◌∷◌, ◌++◌, All, Option, none, some, Bool-cases,
  Option-cases, inl, inr, ap,
}
use torpeek.Prelude.Int.{ℤ}
use torpeek.Swarm.Torrent.{FileInfo}
use torpeek.Swarm.Availability.{Availability}
use torpeek.Core.Capture.{
  Taken, taken, tool_failed, unavailable, shift_of, take, capture_from, reachable, shift_candidates,
  capture_one,
}

-- The tools' answers at the candidate `c`, and what becomes of them.
abbrev pub AnsweredAt : (ℤ → Option ℤ) → (ℤ → Option ℕ) → ℤ → ℤ → Taken → Type 0
AnsweredAt keyframe_at frame_at at c (taken t) =
    (t.asked ≡ c)
    × (keyframe_at c ≡ some t.actual)
    × (frame_at t.actual ≡ some t.frame)
    × (t.shift ≡ shift_of c at)
AnsweredAt keyframe_at frame_at at c tool_failed =
    (pts : ℤ) → keyframe_at c ≡ some pts → frame_at pts ≡ none
AnsweredAt keyframe_at frame_at at c unavailable = ⊥

-- Where the point was taken: the candidates before it cannot be reached, it can, and the tools were
-- asked there. A point that is unavailable has no candidate in reach.
abbrev pub TakenFrom : (ℤ → Bool) → (ℤ → Option ℤ) → (ℤ → Option ℕ) → ℤ → List ℤ → Taken → Type 0
TakenFrom reach keyframe_at frame_at at cs unavailable = All (λ c. reach c ≡ false) cs
TakenFrom reach keyframe_at frame_at at cs t =
    (skipped : List ℤ) × (c : ℤ) × (rest : List ℤ) × (cs ≡ skipped ++ (c ∷ rest))
    × All (λ d. reach d ≡ false) skipped
    × (reach c ≡ true)
    × AnsweredAt keyframe_at frame_at at c t

take-failed :
    (k : ℤ → Option ℤ) (g : ℤ → Option ℕ) (at c : ℤ) → k c ≡ none → take k g at c ≡ tool_failed
unfolding take
take-failed k g at c e = rw (e, take) refl

take-frameless :
    (k : ℤ → Option ℤ) (g : ℤ → Option ℕ) (at c pts : ℤ)
    → k c ≡ some pts
    → g pts ≡ none
    → take k g at c ≡ tool_failed
unfolding take
take-frameless k g at c pts e f = rw (e, take) (rw f refl)

take-frame :
    (k : ℤ → Option ℤ) (g : ℤ → Option ℕ) (at c pts : ℤ) (n : ℕ)
    → k c ≡ some pts
    → g pts ≡ some n
    → take k g at c ≡ taken (record { frame = n; asked = c; actual = pts; shift = shift_of c at })
unfolding take
take-frame k g at c pts n e f = rw (e, take) (rw f refl)

frame_of :
    (k : ℤ → Option ℤ) (g : ℤ → Option ℕ) (c pts q : ℤ)
    → k c ≡ some pts
    → g pts ≡ none
    → k c ≡ some q
    → g q ≡ none
frame_of k g c pts q e f h = cc

take-AnsweredAt :
    (k : ℤ → Option ℤ) (g : ℤ → Option ℕ) (at c : ℤ) → AnsweredAt k g at c (take k g at c)
take-AnsweredAt k g at c = elim (Option-cases (k c)) [
  | inl e ↦ rw (take-failed k g at c e) (λ pts f. cc)
  | inr (pts, e) ↦ elim (Option-cases (g pts)) [
    | inl f ↦ rw (take-frameless k g at c pts e f) (λ q h. frame_of k g c pts q e f h)
    | inr (n, f) ↦ rw (take-frame k g at c pts n e f) (refl, e, f, refl)
  ]
]

at-TakenFrom :
    (reach : ℤ → Bool) (k : ℤ → Option ℤ) (g : ℤ → Option ℕ) (at c : ℤ) (cs : List ℤ) (t : Taken)
    → reach c ≡ true
    → AnsweredAt k g at c t
    → TakenFrom reach k g at (c ∷ cs) t
at-TakenFrom reach k g at c cs (taken t) h a = ([], c, cs, refl, tt, h, a)
at-TakenFrom reach k g at c cs tool_failed h a = ([], c, cs, refl, tt, h, a)
at-TakenFrom reach k g at c cs unavailable h a = elim a [ ]

skip-TakenFrom :
    (reach : ℤ → Bool) (k : ℤ → Option ℤ) (g : ℤ → Option ℕ) (at c : ℤ) (cs : List ℤ) (t : Taken)
    → reach c ≡ false
    → TakenFrom reach k g at cs t
    → TakenFrom reach k g at (c ∷ cs) t
skip-TakenFrom reach k g at c cs (taken t) h (skipped, d, rest, e, u, v, a) =
    (c ∷ skipped, d, rest, ap (λ xs. c ∷ xs) e, (h, u), v, a)
skip-TakenFrom reach k g at c cs tool_failed h (skipped, d, rest, e, u, v, a) =
    (c ∷ skipped, d, rest, ap (λ xs. c ∷ xs) e, (h, u), v, a)
skip-TakenFrom reach k g at c cs unavailable h a = (h, a)

capture_from-TakenFrom :
    (reach : ℤ → Bool) (k : ℤ → Option ℤ) (g : ℤ → Option ℕ) (at : ℤ) (cs : List ℤ)
    → TakenFrom reach k g at cs (capture_from reach k g at cs)
unfolding capture_from
capture_from-TakenFrom reach k g at [] = tt
capture_from-TakenFrom reach k g at (c ∷ cs) = elim (Bool-cases (reach c)) [
  | inl e ↦ rw e (at-TakenFrom reach k g at c cs (take k g at c) e (take-AnsweredAt k g at c))
  | inr e ↦ rw e (
      skip-TakenFrom reach k g at c cs (capture_from reach k g at cs) e
        (capture_from-TakenFrom reach k g at cs))
]

-- A capture point is taken at the first of its candidates that can be reached: a frame there says which
-- candidate it was, what ffprobe and ffmpeg answered, and whether the point moved; a failure is a
-- failure of the tools there; and the point is unavailable only when no candidate can be reached.
pub capture_one_lem :
    (estimate : ℕ → ℤ → ℤ → ℤ) (window : ℕ) (a : Availability) (k : ℤ → Option ℤ) (g : ℤ → Option ℕ)
    (f : FileInfo) (duration at step : ℤ)
    → TakenFrom
        (reachable estimate window a f duration)
        k
        g
        at
        (shift_candidates at step duration)
        (capture_one estimate window a k g f duration at step)
unfolding capture_one
capture_one_lem estimate window a k g f duration at step =
    capture_from-TakenFrom (reachable estimate window a f duration) k g at
      (shift_candidates at step duration)
