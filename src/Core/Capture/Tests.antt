-- ===== src/Core/Capture/Tests.antt =====
-- A capture point of internal/core/engine.go in a film whose second piece no peer holds.
use torpeek.Prelude.{ℕ, ◌*◌, ◌/◌, ◌==◌, ◌≡◌, refl, Bool, [], ◌∷◌, Option, some}
use torpeek.Prelude.Int.{ℤ, pos, pos_part}
use torpeek.Swarm.Torrent.{FileInfo}
use torpeek.Swarm.Availability.{Availability}
use torpeek.Core.Capture.{
  Capture, shift_none, shift_blank, shift_unavailable, taken, reachable, shift_candidates,
  capture_one,
}
use torpeek.Core.Capture.Blank.{reject_blank}
use torpeek.Core.Capture.Taking.{TakenFrom, capture_one_lem}

abbrev holed : Availability
holed = record { counts = 3 ∷ 0 ∷ 0 ∷ 3 ∷ 3 ∷ []; peers = 3; piece_length = 10; length = 50 }

abbrev whole_film : FileInfo
whole_film = record { index = 0; length = 50; offset = 0 }

-- A byte for each unit of time.
abbrev same_scale : ℕ → ℤ → ℤ → ℤ
same_scale length at duration = at

abbrev key_at : ℤ → Option ℤ
key_at t = some t

abbrev frame_at : ℤ → Option ℕ
frame_at t = some (pos_part t)

moved :
    capture_one same_scale 20 holed key_at frame_at whole_film (pos 50) (pos 12) (pos 20)
    ≡ taken (record { frame = 32; asked = pos 32; actual = pos 32; shift = shift_unavailable })
unfolding capture_one reachable
moved = refl

around : shift_candidates (pos 12) (pos 5) (pos 20) ≡ pos 12 ∷ pos 17 ∷ pos 7 ∷ pos 2 ∷ []
unfolding shift_candidates
around = refl

capture_one_lem_example :
    TakenFrom
      (reachable same_scale 20 holed whole_film (pos 50))
      key_at
      frame_at
      (pos 12)
      (shift_candidates (pos 12) (pos 20) (pos 50))
      (capture_one same_scale 20 holed key_at frame_at whole_film (pos 50) (pos 12) (pos 20))
capture_one_lem_example =
    capture_one_lem same_scale 20 holed key_at frame_at whole_film (pos 50) (pos 12) (pos 20)

abbrev dark : Capture
dark = record { frame = 0; asked = pos 5; actual = pos 5; shift = shift_none }

-- Only the frame at 0 is blank, and key frames lie ten apart.
abbrev first_blank : ℕ → Option Bool
first_blank frame = some (frame == 0)

abbrev tenth : ℤ → Option ℤ
tenth t = some (pos (pos_part t / 10 * 10))

-- The first attempt lands before the frame in hand, and the doubled one past it.
stepped_on :
    reject_blank tenth frame_at first_blank (pos 4) dark
    ≡ record { frame = 10; asked = pos 5; actual = pos 10; shift = shift_blank }
unfolding reject_blank
stepped_on = refl
