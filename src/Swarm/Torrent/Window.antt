-- ===== src/Swarm/Torrent/Window.antt =====
-- `PieceRangeFor` and `alignUp` of internal/swarm/fetch.go: the pieces of a range hold its bytes.
use native.Mathlib.Nat.{mul-mod_left, mod_self, div-add-mod', mod-lt}
use torpeek.Prelude.{
  ℕ, suc, ◌+◌, ◌-◌, ◌*◌, ◌/◌, ◌%◌, ◌≤◌, ◌<◌, ◌≡◌, All, arith, some, All-get_elem?, max,
}
use torpeek.Prelude.Int.{ℤ, pos, negsuc, pos_part}
use torpeek.Swarm.Torrent.{
  FileInfo, PieceRange, Torrent, ok, align_up, file_at, clamp_off, clamp_length, pieces_of,
  piece_range_for,
}

-- The window is a whole number of pieces, not below what was meant, by less than one piece above it
-- or else one piece.
pub align_up_bounds :
    (intent piece_length : ℕ)
    → 0 < piece_length
    → (intent ≤ align_up intent piece_length)
      × (align_up intent piece_length % piece_length ≡ 0)
      × (align_up intent piece_length < max intent 1 + piece_length)
unfolding align_up
align_up_bounds intent p h = ground (
  arith,
  mul-mod_left ((intent + p - 1) / p) p,
  mod_self p,
  div-add-mod' (intent + p - 1) p,
  mod-lt (intent + p - 1) h,
)

-- A torrent whose files lie within it and whose pieces cover it.
pub record IsWellFormed (t : Torrent) : Type 0 where
  pub piece_length_pos : 0 < t.piece_length
  pub files_within : All (λ f. f.offset + f.length ≤ t.length) t.files
  pub cover : t.length ≤ t.num_pieces * t.piece_length
  pub exact : t.num_pieces * t.piece_length < t.length + t.piece_length

div_mono : (a b c : ℕ) → a ≤ b → a / c ≤ b / c
div_mono a b c h = grind arith

div-lt : (a n c : ℕ) → a < n * c → a / c < n
div-lt a n c h = grind arith

-- The pieces of a range that is not empty and lies within the torrent.
pieces_of_exact :
    (t : Torrent) (start len : ℕ)
    → IsWellFormed t
    → 0 < len
    → start + len ≤ t.length
    → ((pieces_of t start len).begin ≡ start / t.piece_length)
      × ((pieces_of t start len).end ≡ suc ((start + len - 1) / t.piece_length))
      × ((pieces_of t start len).end ≤ t.num_pieces)
unfolding pieces_of
pieces_of_exact t start len w h k =
    ground (arith, div-lt (start + len - 1) t.num_pieces t.piece_length)

within_torrent :
    (t : Torrent) (file : ℤ) (f : FileInfo)
    → IsWellFormed t
    → file_at t file ≡ some f
    → f.offset + f.length ≤ t.length
within_torrent t (pos i) f w e =
    All-get_elem? (λ (g : FileInfo). g.offset + g.length ≤ t.length) t.files i e w.files_within
within_torrent t (negsuc i) f w e = cc

-- In a well-formed torrent, for an offset inside a file of it, `PieceRangeFor` answers without an
-- error. Its pieces are pieces of the torrent; every byte of the range, cut to the file, lies in
-- one of them; and the first and the last of them hold the first and the last byte.
pub piece_range_for_lem :
    (t : Torrent) (file off len : ℤ) (f : FileInfo)
    → IsWellFormed t
    → file_at t file ≡ some f
    → pos_part off < f.length
    → let start = f.offset + clamp_off f off in
      let stop = start + clamp_length f (clamp_off f off) len in
      (r : PieceRange) × (piece_range_for t file off len ≡ ok r)
      × (r.end ≤ t.num_pieces)
      × ((x : ℕ)
          → start ≤ x
          → x < stop
          → (r.begin ≤ x / t.piece_length) × (x / t.piece_length < r.end))
      × (r.begin ≡ start / t.piece_length)
      × (r.end ≡ suc ((stop - 1) / t.piece_length))
unfolding piece_range_for
piece_range_for_lem t file off len f w e h = (
  r,
  rw (e, piece_range_for) (ground arith),
  exact.2,
  (λ x hx kx. (
    rw exact.0 (div_mono _ _ t.piece_length hx),
    rw exact.1 (omega (arith, div_mono x (f.offset + o + l - 1) t.piece_length (omega arith))),
  )),
  exact.0,
  exact.1,
)
  where
    o : ℕ
    o = clamp_off f off

    l : ℕ
    l = clamp_length f o len

    r : PieceRange
    r = pieces_of t (f.offset + o) l

    exact :
        (r.begin ≡ (f.offset + o) / t.piece_length)
        × (r.end ≡ suc ((f.offset + o + l - 1) / t.piece_length))
        × (r.end ≤ t.num_pieces)
    exact =
        pieces_of_exact t (f.offset + o) l w (ground arith)
          (ground (arith, within_torrent t file f w e))
