-- ===== src/Web/Reach.antt =====
-- What of a file's pieces the frames on disk account for, internal/web/listing.go: reachOf with pieceSpanOf and
-- coalescePieceRanges. A range on disk may be any two integers; the offset and the length of the file are
-- those of a torrent.
pub mod Laws
mod Tests
use torpeek.Prelude.{
  ℕ, ◌+◌, ◌-◌, ◌/◌, Bool, true, false, ◌||◌, List, [], ◌∷◌, ◌++◌, ◌==◌, ltb, leb, if◌then◌else◌,
  Option, none, some,
}
use torpeek.Prelude.Int.{ℤ, pos_part}
use torpeek.Swarm.Torrent.{sort_spans, merge_all, merge_spans}
use torpeek.Web.Ticks.{is_nil}

-- What of `manifest.Frame` the reach reads: whether its shift is `ShiftFailed`, the file's name and the ranges.
pub record ReachFrame : Type 0 where
  pub failed : Bool
  pub path : List ℕ
  pub byte_ranges : List (ℤ × ℤ)

abbrev pub gap : ReachFrame → Bool
gap f = f.failed || is_nil f.path

pub record RecordedFile : Type 0 where
  pub offset : ℕ
  pub bytes : ℕ

pub record Reach : Type 0 where
  pub first_piece : ℕ
  pub pieces : ℕ
  pub piece_bytes : ℕ
  pub claimed_pieces : ℕ
  pub claimed : List (ℕ × ℕ)
  pub captured : ℕ
  pub located : ℕ

abbrev pub clip : ℤ → ℕ → ℕ
clip e n = if ltb n (pos_part e) then n else pos_part e

-- The range clipped to the file, as pieces of the torrent. A negative end clips to 0, and so to nothing.
unfoldable pub piece_span_of : ℤ × ℤ → RecordedFile → ℕ → Option (ℕ × ℕ)
piece_span_of (b, e) file piece_bytes =
    let begin = pos_part b in
    let end = clip e file.bytes in
    if leb end begin
    then none
    else some ((file.offset + begin) / piece_bytes, (file.offset + end - 1) / piece_bytes + 1)

unfoldable pub coalesce_piece_ranges : List (ℕ × ℕ) → List (ℕ × ℕ)
unfolding sort_spans merge_spans
coalesce_piece_ranges ranges = merge_all (sort_spans ranges)

-- The ranges of one frame, counted from the file's first piece.
unfoldable pub frame_ranges : RecordedFile → ℕ → ℕ → List (ℤ × ℤ) → List (ℕ × ℕ)
frame_ranges file piece_bytes first [] = []
frame_ranges file piece_bytes first (r ∷ rs) =
    let rest = frame_ranges file piece_bytes first rs in
    elim (piece_span_of r file piece_bytes) [
      | none ↦ rest
      | some (a, b) ↦ (a - first, b - first) ∷ rest
    ]

unfoldable pub all_ranges : RecordedFile → ℕ → ℕ → List ReachFrame → List (ℕ × ℕ)
unfolding frame_ranges
all_ranges file piece_bytes first [] = []
all_ranges file piece_bytes first (f ∷ fs) =
    let rest = all_ranges file piece_bytes first fs in
    if gap f then rest else frame_ranges file piece_bytes first f.byte_ranges ++ rest

unfoldable pub count_captured : List ReachFrame → ℕ
count_captured [] = 0
count_captured (f ∷ fs) = let n = count_captured fs in if gap f then n else n + 1

unfoldable pub count_located : List ReachFrame → ℕ
count_located [] = 0
count_located (f ∷ fs) =
    let n = count_located fs in if gap f || is_nil f.byte_ranges then n else n + 1

unfoldable pub total_pieces : List (ℕ × ℕ) → ℕ
total_pieces [] = 0
total_pieces ((a, b) ∷ rs) = (b - a) + total_pieces rs

abbrev pub first_of : RecordedFile → ℕ → ℕ
first_of file piece_bytes = file.offset / piece_bytes

abbrev pub last_of : RecordedFile → ℕ → ℕ
last_of file piece_bytes = (file.offset + file.bytes - 1) / piece_bytes

unfoldable pub reach_of : List ReachFrame → RecordedFile → ℕ → Option Reach
unfolding all_ranges coalesce_piece_ranges count_captured count_located total_pieces
reach_of frames file piece_bytes =
    let first = first_of file piece_bytes in
    let claimed = coalesce_piece_ranges (all_ranges file piece_bytes first frames) in
    if piece_bytes == 0 || file.bytes == 0
    then none
    else if count_captured frames == 0 || count_located frames == 0
    then none
    else some (record {
      first_piece = first;
      pieces = last_of file piece_bytes - first + 1;
      piece_bytes = piece_bytes;
      claimed_pieces = total_pieces claimed;
      claimed = claimed;
      captured = count_captured frames;
      located = count_located frames;
    })
