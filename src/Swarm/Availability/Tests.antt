-- ===== src/Swarm/Availability/Tests.antt =====
-- internal/swarm/availability.go on a torrent of ten bytes in pieces of four.
use torpeek.Prelude.{ℕ, ◌+◌, ◌≤◌, ◌<◌, ◌≡◌, refl, true, [], ◌∷◌, get_elem?, length, some, arith}
use torpeek.Prelude.Int.{pos, negsuc}
use torpeek.Swarm.Torrent.{FileInfo}
use torpeek.Swarm.Availability.{
  Availability, at_offset, over_range, over_file_range, known, unavailable, coarse,
}
use torpeek.Swarm.Availability.Buckets.{InPart, parts, coarse_lem}

abbrev sample : Availability
sample = record { counts = 2 ∷ 0 ∷ 5 ∷ []; peers = 5; piece_length = 4; length = 10 }

abbrev clip : FileInfo
clip = record { index = 0; length = 7; offset = 3 }

scarce : over_range sample (negsuc 4) (pos 8) ≡ 0
unfolding over_range
scarce = refl

last_piece : over_file_range sample clip (pos 5) (pos 100) ≡ 5
unfolding over_file_range
last_piece = refl

two_buckets : coarse sample clip (pos 2) ≡ 0 ∷ 0 ∷ []
unfolding coarse
two_buckets = refl

some_known : known sample ≡ true
unfolding known
some_known = refl

one_missing : unavailable sample ≡ 1
unfolding unavailable
one_missing = refl

coarse_lem_example :
    let n = parts sample clip 2 in
    (length (coarse sample clip (pos 2)) ≡ n)
    × ((x : ℕ)
        → clip.offset ≤ x
        → x < clip.offset + clip.length
        → (i : ℕ) × (i < n) × InPart clip n i x)
    × ((i : ℕ)
        → i < n
        → (v : ℕ) × (get_elem? (coarse sample clip (pos 2)) i ≡ some v)
          × ((x : ℕ) → InPart clip n i x → v ≤ at_offset sample x)
          × ((x : ℕ) × InPart clip n i x × (at_offset sample x ≡ v)))
coarse_lem_example =
    coarse_lem sample clip 2 (omega arith) (omega arith) (omega arith) (omega arith)
