-- ===== src/Swarm/Torrent/Tests.antt =====
-- The pieces of internal/swarm/fetch.go and torrent.go at a torrent of ten bytes in pieces of four.
use torpeek.Prelude.{
  ℕ, suc, ◌+◌, ◌-◌, ◌/◌, ◌≤◌, ◌<◌, ◌≡◌, refl, ◌&&◌, ◌||◌, List, [], ◌∷◌, leb, ltb, none, arith,
}
use torpeek.Prelude.Int.{pos}
use torpeek.Swarm.Torrent.{
  FileInfo, PieceRange, Torrent, ok, clamp_off, clamp_length, piece_range_for, piece_bytes, seen,
  note_claimed, coalesce_spans, file_bytes_of,
}
use torpeek.Swarm.Torrent.Window.{IsWellFormed, piece_range_for_lem}
use torpeek.Swarm.Torrent.Claimed.{IsCounted, sum_seen, note_claimed_lem}
use torpeek.Swarm.Torrent.ClaimLog.{
  log_claim, start_claim_log, end_claim_log, log_claims, ordered, claim_log_lem,
}
use torpeek.Swarm.Torrent.Spans.{covered, Separated, coalesce_spans_lem}

abbrev film : FileInfo
film = record { index = 0; length = 7; offset = 3 }

abbrev small : Torrent
small = record {
  files = film ∷ [];
  length = 10;
  piece_length = 4;
  num_pieces = 3;
  claimed_seen = [];
  claimed_byte = 0;
  claim_log = λ i. none;
}

small-IsWellFormed : IsWellFormed small
small-IsWellFormed = omega arith

abbrev tail_range : PieceRange
tail_range = record { begin = 1; end = 3 }

tail_claim : (note_claimed small tail_range).claimed_byte ≡ 6
unfolding note_claimed piece_bytes
tail_claim = refl

piece_range_for_lem_example :
    let start = film.offset + clamp_off film (pos 2) in
    let stop = start + clamp_length film (clamp_off film (pos 2)) (pos 3) in
    (r : PieceRange) × (piece_range_for small (pos 0) (pos 2) (pos 3) ≡ ok r)
    × (r.end ≤ small.num_pieces)
    × ((x : ℕ)
        → start ≤ x
        → x < stop
        → (r.begin ≤ x / small.piece_length) × (x / small.piece_length < r.end))
    × (r.begin ≡ start / small.piece_length)
    × (r.end ≡ suc ((stop - 1) / small.piece_length))
piece_range_for_lem_example =
    piece_range_for_lem small (pos 0) (pos 2) (pos 3) film small-IsWellFormed refl (omega arith)

small-IsCounted : IsCounted small
unfolding sum_seen
small-IsCounted = refl

note_claimed_lem_example :
    let u = note_claimed small tail_range in
    IsCounted u
    × ((j : ℕ) → seen j u.claimed_seen ≡ (seen j small.claimed_seen || (leb 1 j && ltb j 3)))
    × (note_claimed u tail_range ≡ u)
note_claimed_lem_example =
    note_claimed_lem small tail_range (omega arith) (omega arith) small-IsCounted

abbrev overlapping : List (ℕ × ℕ)
overlapping = (8, 12) ∷ (0, 4) ∷ (3, 6) ∷ (6, 7) ∷ []

coalesced : coalesce_spans overlapping ≡ (0, 7) ∷ (8, 12) ∷ []
unfolding coalesce_spans
coalesced = refl

coalesce_spans_lem_example :
    ((x : ℕ) → covered x (coalesce_spans overlapping) ≡ covered x overlapping)
    × Separated (coalesce_spans overlapping)
coalesce_spans_lem_example = coalesce_spans_lem overlapping

abbrev film_claims : List (ℕ × PieceRange)
film_claims =
    (0, record { begin = 2; end = 3 }) ∷ (1, tail_range) ∷ (0, record { begin = 0; end = 1 }) ∷ []

film_log :
    (end_claim_log (log_claims (start_claim_log small 0) film_claims) 0).1 ≡ (0, 1) ∷ (5, 7) ∷ []
unfolding start_claim_log end_claim_log log_claim log_claims coalesce_spans file_bytes_of
film_log = refl

claim_log_lem_example :
    let answer = (end_claim_log (log_claims (start_claim_log small 0) film_claims) 0).1 in
    ((x : ℕ) → covered x answer ≡ ordered 4 0 film film_claims x) × Separated answer
claim_log_lem_example = claim_log_lem small 0 film film_claims refl (omega arith)
