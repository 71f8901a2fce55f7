-- ===== src/Web/Reach/Laws.antt =====
-- The pieces that `reachOf` of internal/web/listing.go reports are those that the frames' ranges meet.
use torpeek.Prelude.{
  ℕ, ◌+◌, ◌-◌, ◌*◌, ◌/◌, ◌≤◌, ◌<◌, ◌≡◌, refl, sym, ap, ◌∙◌, Bool, true, false, not, ◌&&◌, ◌||◌,
  List, [], ◌∷◌, ◌++◌, ltb, leb, none, some, arith, Bool-cases, inl, inr, subst, ◌↔◌,
}
use torpeek.Prelude.Int.{ℤ, pos_part}
use native.Mathlib.Nat.{div-lt_iff_lt-mul, le-div_iff_mul-le}
use torpeek.Swarm.Torrent.{coalesce_spans}
use torpeek.Swarm.Torrent.Spans.{covered, Separated, coalesce_spans_lem}
use torpeek.Swarm.Availability.Least.{div_mono}
use torpeek.Web.Reach.{
  ReachFrame, gap, RecordedFile, Reach, clip, piece_span_of, coalesce_piece_ranges, frame_ranges,
  all_ranges, first_of, last_of, reach_of,
}

-- Whether the bytes of the range, clipped to the file, meet piece number `x` of the torrent.
abbrev pub meets : RecordedFile → ℕ → ℕ → ℤ × ℤ → Bool
meets file pb x (b, e) =
    ltb (pos_part b) (clip e file.bytes)
    && ltb (file.offset + pos_part b) ((x + 1) * pb)
    && ltb (x * pb) (file.offset + clip e file.bytes)

abbrev pub any_meets : RecordedFile → ℕ → ℕ → List (ℤ × ℤ) → Bool
any_meets file pb x [] = false
any_meets file pb x (r ∷ rs) = meets file pb x r || any_meets file pb x rs

abbrev pub frames_meet : RecordedFile → ℕ → ℕ → List ReachFrame → Bool
frames_meet file pb x [] = false
frames_meet file pb x (f ∷ fs) =
    (not (gap f) && any_meets file pb x f.byte_ranges) || frames_meet file pb x fs

-- One range in bytes, and in pieces from the file's first one.
pieces_of_bytes :
    (pb offset begin end x : ℕ)
    → 0 < pb
    → begin < end
    → (leb ((offset + begin) / pb - offset / pb) x
        && ltb x ((offset + end - 1) / pb + 1 - offset / pb))
      ≡ (ltb (offset + begin) ((offset / pb + x + 1) * pb)
          && ltb ((offset / pb + x) * pb) (offset + end))
pieces_of_bytes pb offset begin end x h c =
    let m : offset / pb ≤ (offset + begin) / pb =
      div_mono offset (offset + begin) pb (omega arith) in
    let a : ((offset + begin) / pb < offset / pb + x + 1)
        ↔ (offset + begin < (offset / pb + x + 1) * pb) =
      div-lt_iff_lt-mul h in
    let b : (offset / pb + x ≤ (offset + end - 1) / pb)
        ↔ ((offset / pb + x) * pb ≤ offset + end - 1) =
      le-div_iff_mul-le h in
    ground (arith, m, a, b, c)

covered-one :
    (x a b : ℕ) (ss : List (ℕ × ℕ))
    → covered x ((a, b) ∷ ss) ≡ ((leb a x && ltb x b) || covered x ss)
covered-one x a b ss = refl

module _ (file : RecordedFile) (pb : ℕ) (b e : ℤ) where
  span_outside : leb (clip e file.bytes) (pos_part b) ≡ true → piece_span_of (b, e) file pb ≡ none
  unfolding piece_span_of
  span_outside y = rw y refl

  span_inside :
      leb (clip e file.bytes) (pos_part b) ≡ false
      → piece_span_of (b, e) file pb
        ≡ some ((file.offset + pos_part b) / pb, (file.offset + clip e file.bytes - 1) / pb + 1)
  unfolding piece_span_of
  span_inside n = rw n refl

frame_ranges-meets :
    (file : RecordedFile) (pb x : ℕ) (rs : List (ℤ × ℤ))
    → 0 < pb
    → covered x (frame_ranges file pb (first_of file pb) rs)
      ≡ any_meets file pb (first_of file pb + x) rs
unfolding frame_ranges
frame_ranges-meets file pb x [] h = refl
frame_ranges-meets file pb x ((b, e) ∷ rs) h =
    elim (Bool-cases (leb (clip e file.bytes) (pos_part b))) [
      | inl y ↦
          rw (span_outside file pb b e y, frame_ranges)
            (ground (arith, frame_ranges-meets file pb x rs h, y))
      | inr n ↦
          rw (span_inside file pb b e n, frame_ranges)
            (ground (
              arith,
              frame_ranges-meets file pb x rs h,
              pieces_of_bytes pb file.offset (pos_part b) (clip e file.bytes) x h (ground arith),
              n,
            ))
    ]

covered-append :
    (x : ℕ) (ss ts : List (ℕ × ℕ)) → covered x (ss ++ ts) ≡ (covered x ss || covered x ts)
covered-append x [] ts = refl
covered-append x ((a, b) ∷ ss) ts = ground (arith, covered-append x ss ts)

all_ranges-meets :
    (file : RecordedFile) (pb x : ℕ) (fs : List ReachFrame)
    → 0 < pb
    → covered x (all_ranges file pb (first_of file pb) fs)
      ≡ frames_meet file pb (first_of file pb + x) fs
unfolding all_ranges
all_ranges-meets file pb x [] h = refl
all_ranges-meets file pb x (f ∷ fs) h = ground (
  arith,
  all_ranges-meets file pb x fs h,
  frame_ranges-meets file pb x f.byte_ranges h,
  covered-append x (frame_ranges file pb (first_of file pb) f.byte_ranges)
      (all_ranges file pb (first_of file pb) fs),
)

-- A piece that a range meets is one of the file's.
meets-within :
    (file : RecordedFile) (pb x : ℕ) (r : ℤ × ℤ)
    → 0 < pb
    → meets file pb (first_of file pb + x) r ≡ true
    → x < last_of file pb - first_of file pb + 1
meets-within file pb x (b, e) h m =
    let c : (first_of file pb + x ≤ last_of file pb)
        ↔ ((first_of file pb + x) * pb ≤ file.offset + file.bytes - 1) =
      le-div_iff_mul-le h in
    ground (arith, c, m)

any_meets-within :
    (file : RecordedFile) (pb x : ℕ) (rs : List (ℤ × ℤ))
    → 0 < pb
    → any_meets file pb (first_of file pb + x) rs ≡ true
    → x < last_of file pb - first_of file pb + 1
any_meets-within file pb x [] h m = cc
any_meets-within file pb x (r ∷ rs) h m =
    elim (Bool-cases (meets file pb (first_of file pb + x) r)) [
      | inl y ↦ meets-within file pb x r h y
      | inr n ↦ any_meets-within file pb x rs h (ground (arith, m, n))
    ]

frames_meet-within :
    (file : RecordedFile) (pb x : ℕ) (fs : List ReachFrame)
    → 0 < pb
    → frames_meet file pb (first_of file pb + x) fs ≡ true
    → x < last_of file pb - first_of file pb + 1
frames_meet-within file pb x [] h m = cc
frames_meet-within file pb x (f ∷ fs) h m =
    elim (Bool-cases (any_meets file pb (first_of file pb + x) f.byte_ranges)) [
      | inl y ↦ any_meets-within file pb x f.byte_ranges h y
      | inr n ↦ frames_meet-within file pb x fs h (ground (arith, m, n))
    ]

coalesce_lem :
    (ss : List (ℕ × ℕ))
    → ((x : ℕ) → covered x (coalesce_piece_ranges ss) ≡ covered x ss)
      × Separated (coalesce_piece_ranges ss)
unfolding coalesce_piece_ranges coalesce_spans
coalesce_lem ss = coalesce_spans_lem ss

reach_value :
    (frames : List ReachFrame) (file : RecordedFile) (pb : ℕ) (r : Reach)
    → reach_of frames file pb ≡ some r
    → (0 < pb)
      × (r.claimed ≡ coalesce_piece_ranges (all_ranges file pb (first_of file pb) frames))
      × (r.first_piece ≡ first_of file pb)
      × (r.pieces ≡ last_of file pb - first_of file pb + 1)
unfolding reach_of
reach_value frames file pb r e = ground (arith, e)

-- The strip that is drawn of a file: a piece of it is marked exactly if the bytes of a frame that was taken,
-- clipped to the file, meet that piece; no marked piece lies outside the file's; and two marked ranges
-- never touch.
pub reach_of_lem :
    (frames : List ReachFrame) (file : RecordedFile) (piece_bytes : ℕ) (r : Reach)
    → reach_of frames file piece_bytes ≡ some r
    → ((x : ℕ) → covered x r.claimed ≡ frames_meet file piece_bytes (r.first_piece + x) frames)
      × ((x : ℕ) → covered x r.claimed ≡ true → x < r.pieces)
      × Separated r.claimed
reach_of_lem frames file pb r e =
    let (h, c, f, n) = reach_value frames file pb r e in
    let shown = coalesce_lem (all_ranges file pb (first_of file pb) frames) in
    let marked : (x : ℕ) → covered x r.claimed ≡ frames_meet file pb (first_of file pb + x) frames =
      λ x. ap (covered x) c ∙ shown.0 x ∙ all_ranges-meets file pb x frames h in
    (
      (λ x. marked x ∙ ap (λ q. frames_meet file pb (q + x) frames) (sym f)),
      (λ x m.
          subst (λ q. x < q) (sym n) (frames_meet-within file pb x frames h (sym (marked x) ∙ m))),
      subst Separated (sym c) shown.1,
    )
