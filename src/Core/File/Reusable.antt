-- ===== src/Core/File/Reusable.antt =====
-- `reusableFrames` of internal/core/engine.go: which frames of an earlier run stand in for a point.
use torpeek.Prelude.{
  ℕ, ◌≡◌, refl, sym, subst, Bool, true, false, not, ◌&&◌, List, [], ◌∷◌, if◌then◌else◌, get_elem?,
  some_inj, some_not_none, none, some, arith, Bool-cases, Option-cases, inl, inr, ◌∙◌, ap,
}
use torpeek.Prelude.Int.{ℤ, pos, negsuc}
use torpeek.Core.Capture.{differs}
use torpeek.Core.File.{
  Frame, milliseconds, is_failed, is_some, is_empty, is_reusable, point_of, is_at, reusable_frames,
}
use torpeek.Core.File.Told.{IsReused}

differs-eq : (a b : ℤ) → differs a b ≡ false → a ≡ b
differs-eq (pos a) (pos b) h = ap pos (ground arith)
differs-eq (pos a) (negsuc b) h = ground arith
differs-eq (negsuc a) (pos b) h = ground arith
differs-eq (negsuc a) (negsuc b) h = ap negsuc (ground arith)

is_at-eq : (z : ℤ) (i : ℕ) → is_at z i ≡ true → z ≡ pos i
is_at-eq (pos j) i h = ap pos (ground arith)
is_at-eq (negsuc j) i h = cc

all_true :
    (a b c d e : Bool)
    → (not a && b && not c && not d && e) ≡ true
    → (a ≡ false) × (b ≡ true) × (d ≡ false)
all_true a b c d e h = ground arith

both_true : (a b : Bool) → (a && b) ≡ true → (a ≡ true) × (b ≡ true)
both_true a b h = ground arith

is_reusable-IsReused :
    (stored : List ℕ → Bool) (i : ℕ) (at : ℤ) (r : Frame)
    → (is_reusable stored at r && is_at r.index i) ≡ true
    → IsReused i at r
is_reusable-IsReused stored i at r h =
    let (fits, here) = both_true (is_reusable stored at r) (is_at r.index i) h in
    let (a, b, d) =
      all_true (is_failed r.shift) (is_some r.actual_ms) (is_empty r.path)
        (differs r.requested_ms (milliseconds at)) (stored r.path) fits in
    (is_at-eq r.index i here, differs-eq r.requested_ms (milliseconds at) d, a, b)

module _ (stored : List ℕ → Bool) (points : List ℤ) (g : Frame) (gs : List Frame) (i : ℕ) where
  later-reusable_frames :
      (q : Frame)
      → reusable_frames stored points gs i ≡ some q
      → reusable_frames stored points (g ∷ gs) i ≡ some q
  unfolding reusable_frames
  later-reusable_frames q n = rw (n, reusable_frames) refl

  outside-reusable_frames :
      reusable_frames stored points gs i ≡ none
      → point_of points g.index ≡ none
      → reusable_frames stored points (g ∷ gs) i ≡ none
  unfolding reusable_frames
  outside-reusable_frames n m = rw (n, reusable_frames) (rw m refl)

  head-reusable_frames :
      (at : ℤ)
      → reusable_frames stored points gs i ≡ none
      → point_of points g.index ≡ some at
      → reusable_frames stored points (g ∷ gs) i
        ≡ (if is_reusable stored at g && is_at g.index i then some g else none)
  unfolding reusable_frames
  head-reusable_frames at n m = rw (n, reusable_frames) (rw m refl)

-- A frame that is reused stands in the manifest, and is of the point.
pub reusable_frames-IsReused :
    (stored : List ℕ → Bool) (points : List ℤ) (prior : List Frame) (i : ℕ) (r : Frame)
    → reusable_frames stored points prior i ≡ some r
    → (at : ℤ) × (get_elem? points i ≡ some at) × IsReused i at r
unfolding reusable_frames
reusable_frames-IsReused stored points [] i r e = cc
reusable_frames-IsReused stored points (g ∷ gs) i r e =
    elim (Option-cases (reusable_frames stored points gs i)) [
      | inr (q, n) ↦
          reusable_frames-IsReused stored points gs i r
            (n ∙ sym (later-reusable_frames stored points g gs i q n) ∙ e)
      | inl n ↦ elim (Option-cases (point_of points g.index)) [
        | inl m ↦
            elim (some_not_none r (sym e ∙ outside-reusable_frames stored points g gs i n m)) [ ]
        | inr (at, m) ↦ elim (Bool-cases (is_reusable stored at g && is_at g.index i)) [
          | inl h ↦
              let here = head-reusable_frames stored points g gs i at n m in
              let same : g ≡ r = some_inj g r (sym (here ∙ rw h refl) ∙ e) in
              let fits = is_reusable-IsReused stored i at g h in
              (
                at,
                ap (λ z. point_of points z) (sym (fits.0)) ∙ m,
                subst (λ q. IsReused i at q) same fits,
              )
          | inr h ↦
              let here = head-reusable_frames stored points g gs i at n m in
              elim (some_not_none r (sym e ∙ here ∙ rw h refl)) [ ]
        ]
      ]
    ]
