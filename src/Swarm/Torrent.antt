-- ===== src/Swarm/Torrent.antt =====
-- internal/swarm/fetch.go and the claim record of internal/swarm/torrent.go: which pieces a range of
-- a file needs, which were claimed, and the spans of a file that they cover. Lengths, offsets and
-- counts are never negative; the arguments that the code tests for a sign are integers.
mod Window
mod Claimed
pub mod ClaimLog
pub mod Spans
mod Tests
use torpeek.Prelude.{
  ℕ, zero, suc, ◌+◌, ◌-◌, ◌*◌, ◌/◌, Bool, true, false, not, ◌&&◌, ◌||◌, List, [], ◌∷◌, ◌==◌, leb,
  ltb, if◌then◌else◌, length, get_elem?, Option, none, some,
}
use torpeek.Prelude.Int.{ℤ, pos, negsuc, ltb_ℤ, leb_ℤ, pos_part, ◌+ℤ◌}

pub record FileInfo : Type 0 where
  pub index : ℕ
  pub length : ℕ
  pub offset : ℕ

pub record PieceRange : Type 0 where
  pub begin : ℕ
  pub end : ℕ

-- `claim_log` gives the files whose log is open, with the spans recorded there.
pub record Torrent : Type 0 where
  pub files : List FileInfo
  pub length : ℕ
  pub piece_length : ℕ
  pub num_pieces : ℕ
  pub claimed_seen : List ℕ
  pub claimed_byte : ℕ
  pub claim_log : ℕ → Option (List (ℕ × ℕ))

pub data RangeError : Type 0 where
  out_of_range no_piece_length : RangeError

pub data Ranged {ℓ} (A : Type ℓ) : Type ℓ where
  ok : A → Ranged A
  err : RangeError → Ranged A

unfoldable pub align_up : ℕ → ℕ → ℕ
align_up intent piece_length =
    if piece_length == 0
    then intent
    else if leb intent piece_length
    then piece_length
    else (intent + piece_length - 1) / piece_length * piece_length

-- The file of an index, if there is one.
abbrev pub file_at : Torrent → ℤ → Option FileInfo
file_at t (pos i) = get_elem? t.files i
file_at t (negsuc i) = none

-- `off` within the file, and the length that is left there of the one asked for.
abbrev pub clamp_off : FileInfo → ℤ → ℕ
clamp_off f off = if ltb f.length (pos_part off) then f.length else pos_part off

abbrev pub clamp_length : FileInfo → ℕ → ℤ → ℕ
clamp_length f off len =
    if leb_ℤ len (pos 0) || ltb f.length (off + pos_part len) then f.length - off else pos_part len

unfoldable pub pieces_of : Torrent → ℕ → ℕ → PieceRange
pieces_of t start len =
    let first = start / t.piece_length in
    let last = if len == 0 then first + 1 else (start + len - 1) / t.piece_length + 1 in
    record { begin = first; end = if ltb t.num_pieces last then t.num_pieces else last }

unfoldable pub piece_range_for : Torrent → ℤ → ℤ → ℤ → Ranged PieceRange
piece_range_for t file off len = elim (file_at t file) [
  | none ↦ err out_of_range
  | some f ↦
      let o = clamp_off f off in
      if t.piece_length == 0
      then err no_piece_length
      else ok (pieces_of t (f.offset + o) (clamp_length f o len))
]

-- The profile's window, aligned, is the least that is asked for.
unfoldable pub window_for : Torrent → ℤ → ℤ → ℤ → ℕ → Ranged PieceRange
window_for t file off len intent =
    let window = pos (align_up intent t.piece_length) in
    piece_range_for t file off (if ltb_ℤ len window then window else len)

-- The bytes of a piece: the last one may be shorter.
unfoldable pub piece_bytes : Torrent → ℕ → ℕ
piece_bytes t i =
    let tail = t.length - (t.num_pieces - 1) * t.piece_length in
    if t.piece_length == 0 || (ltb 0 t.num_pieces && leb t.num_pieces i)
    then 0
    else if ltb 0 t.num_pieces && i == t.num_pieces - 1 && ltb 0 tail && ltb tail t.piece_length
    then tail
    else t.piece_length

abbrev pub seen : ℕ → List ℕ → Bool
seen i [] = false
seen i (j ∷ js) = i == j || seen i js

abbrev pub note_piece : Torrent → ℕ → Torrent
note_piece t i = if seen i t.claimed_seen then t else record t {
  claimed_seen = i ∷ t.claimed_seen;
  claimed_byte = t.claimed_byte + piece_bytes t i;
}

-- The loop over a range, by the pieces left in it.
unfoldable pub note_from : Torrent → ℕ → ℕ → Torrent
note_from t i zero = t
note_from t i (suc n) = note_from (note_piece t i) (i + 1) n

unfoldable pub note_claimed : Torrent → PieceRange → Torrent
unfolding note_from
note_claimed t r = note_from t r.begin (r.end - r.begin)

-- The bytes of the file that a range of pieces covers, if any.
unfoldable pub file_bytes_of : Torrent → ℤ → PieceRange → Option (ℕ × ℕ)
file_bytes_of t file r = elim (file_at t file) [
  | none ↦ none
  | some f ↦
      let begin = r.begin * t.piece_length - f.offset in
      let stop = r.end * t.piece_length - f.offset in
      let end = if ltb f.length stop then f.length else stop in
      if t.piece_length == 0 || f.length == 0
      then none
      else if leb end begin
      then none
      else some (begin, end)
]

-- What `sort.Slice` makes of the spans: by their begin, and by their end where that is the same.
abbrev pub span_before : ℕ × ℕ → ℕ × ℕ → Bool
span_before (a, b) (c, d) = if a == c then ltb b d else ltb a c

unfoldable pub insert_span : ℕ × ℕ → List (ℕ × ℕ) → List (ℕ × ℕ)
insert_span s [] = s ∷ []
insert_span s (t ∷ ts) = if span_before t s then t ∷ insert_span s ts else s ∷ t ∷ ts

unfoldable pub sort_spans : List (ℕ × ℕ) → List (ℕ × ℕ)
unfolding insert_span
sort_spans [] = []
sort_spans (s ∷ ss) = insert_span s (sort_spans ss)

-- The loop of `coalesceSpans`, with the span in hand.
unfoldable pub merge_spans : ℕ × ℕ → List (ℕ × ℕ) → List (ℕ × ℕ)
merge_spans last [] = last ∷ []
merge_spans (a, b) ((c, d) ∷ ss) = elim (leb c b) [
  | true ↦ merge_spans (a, (if ltb b d then d else b)) ss
  | false ↦ (a, b) ∷ merge_spans (c, d) ss
]

abbrev pub merge_all : List (ℕ × ℕ) → List (ℕ × ℕ)
merge_all [] = []
merge_all (s ∷ ss) = merge_spans s ss

unfoldable pub coalesce_spans : List (ℕ × ℕ) → List (ℕ × ℕ)
unfolding sort_spans merge_spans
coalesce_spans spans = merge_all (sort_spans spans)
