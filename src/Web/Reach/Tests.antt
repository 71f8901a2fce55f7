-- ===== src/Web/Reach/Tests.antt =====
-- The strip of internal/web/listing.go: a file of 40 bytes that starts 5 bytes into the torrent, in pieces of 10.
use torpeek.Prelude.{ℕ, ◌+◌, ◌≡◌, refl, ◌<◌, true, false, List, [], ◌∷◌, some}
use torpeek.Prelude.Int.{pos, negsuc}
use torpeek.Swarm.Torrent.Spans.{covered, Separated}
use torpeek.Web.Reach.{ReachFrame, RecordedFile, Reach, piece_span_of, reach_of}
use torpeek.Web.Reach.Laws.{frames_meet, reach_of_lem}

abbrev film : RecordedFile
film = record { offset = 5; bytes = 40 }

-- Two frames with ranges that overlap, one of them past the end of the file, and a point that failed.
abbrev frames_taken : List ReachFrame
frames_taken =
    record { failed = false; path = 49 ∷ []; byte_ranges = (pos 0, pos 3) ∷ (pos 33, pos 99) ∷ [] }
    ∷ record { failed = true; path = []; byte_ranges = (pos 15, pos 20) ∷ [] }
    ∷ record { failed = false; path = 50 ∷ []; byte_ranges = (negsuc 4, pos 9) ∷ [] }
    ∷ []

abbrev drawn : Reach
drawn = record {
  first_piece = 0;
  pieces = 5;
  piece_bytes = 10;
  claimed_pieces = 4;
  claimed = (0, 2) ∷ (3, 5) ∷ [];
  captured = 2;
  located = 2;
}

reach_drawn : reach_of frames_taken film 10 ≡ some drawn
unfolding reach_of piece_span_of
reach_drawn = refl

reach_of_lem_example :
    ((x : ℕ) → covered x drawn.claimed ≡ frames_meet film 10 (0 + x) frames_taken)
    × ((x : ℕ) → covered x drawn.claimed ≡ true → x < 5)
    × Separated drawn.claimed
reach_of_lem_example = reach_of_lem frames_taken film 10 drawn reach_drawn
