-- ===== src/Swarm/Availability.antt =====
-- internal/swarm/availability.go: how many peers hold each piece. Sampling the peers is the BitTorrent
-- library's; the counts that it gives are the map that these functions read.
pub mod Least
mod Buckets
mod Tests
use torpeek.Prelude.{
  ℕ, zero, suc, ◌+◌, ◌-◌, ◌*◌, ◌/◌, Bool, true, false, ◌&&◌, ◌||◌, List, [], ◌∷◌, ◌==◌, leb, ltb,
  if◌then◌else◌, get_elem?, Option, none, some,
}
use torpeek.Prelude.Int.{ℤ, pos, negsuc, pos_part, leb_ℤ, ltb_ℤ, ◌+ℤ◌}
use torpeek.Swarm.Torrent.{FileInfo}

pub record Availability : Type 0 where
  pub counts : List ℕ
  pub peers : ℕ
  pub piece_length : ℕ
  pub length : ℕ

-- The peers that hold a piece, 0 outside the torrent.
unfoldable pub at : Availability → ℕ → ℕ
at a piece = elim (get_elem? a.counts piece) [ none ↦ 0 | some n ↦ n ]

unfoldable pub at_offset : Availability → ℕ → ℕ
unfolding at
at_offset a off = if a.piece_length == 0 then 0 else at a (off / a.piece_length)

-- `least` of the source is -1 before the first piece, which is `none` here.
abbrev pub lesser : Option ℕ → ℕ → ℕ
lesser none n = n
lesser (some m) n = if ltb n m then n else m

-- The loop, with the pieces left.
unfoldable pub least_from : Availability → ℕ → ℕ → Option ℕ → Option ℕ
unfolding at
least_from a piece zero least = least
least_from a piece (suc n) least = least_from a (piece + 1) n (some (lesser least (at a piece)))

-- `end` when it lies within the torrent.
abbrev pub clamp_end : Availability → ℕ → ℕ
clamp_end a end = if ltb 0 a.length && ltb a.length end then a.length else end

unfoldable pub over_range : Availability → ℤ → ℤ → ℕ
unfolding least_from
over_range a start end =
    let s = pos_part start in
    let e = clamp_end a (pos_part end) in
    let first = s / a.piece_length in
    let last = (e - 1) / a.piece_length in
    if a.piece_length == 0 || leb_ℤ end start || leb e s
    then 0
    else (elim (least_from a first (last + 1 - first) none) [ none ↦ 0 | some n ↦ n ])

unfoldable pub over_file_range : Availability → FileInfo → ℤ → ℤ → ℕ
unfolding over_range
over_file_range a f off length =
    let o = pos_part off in
    let begin = pos (f.offset + o) in
    if ltb f.length o
    then 0
    else if ltb_ℤ (pos f.length) (pos o +ℤ length)
    then over_range a begin (pos (f.offset + o + (f.length - o)))
    else over_range a begin (begin +ℤ length)

unfoldable pub any_held : List ℕ → Bool
any_held [] = false
any_held (n ∷ ns) = ltb 0 n || any_held ns

unfoldable pub known : Availability → Bool
unfolding any_held
known a = if a.peers == 0 then false else any_held a.counts

unfoldable pub missing_of : List ℕ → ℕ
missing_of [] = 0
missing_of (n ∷ ns) = (if n == 0 then 1 else 0) + missing_of ns

unfoldable pub unavailable : Availability → ℕ
unfolding missing_of
unavailable a = missing_of a.counts

unfoldable pub spanned : Availability → FileInfo → ℕ
spanned a f = (f.offset + f.length - 1) / a.piece_length - f.offset / a.piece_length + 1

-- The byte at which the bucket `i` of `n` begins.
abbrev pub bucket_at : FileInfo → ℕ → ℕ → ℕ
bucket_at f n i = f.offset + f.length * i / n

-- The buckets from the `i`th on, with the number of those left.
unfoldable pub coarse_from : Availability → FileInfo → ℕ → ℕ → ℕ → List ℕ
unfolding over_range
coarse_from a f n i zero = []
coarse_from a f n i (suc k) =
    over_range a (pos (bucket_at f n i)) (pos (bucket_at f n (i + 1))) ∷ coarse_from a f n (i + 1) k

unfoldable pub coarse : Availability → FileInfo → ℤ → List ℕ
unfolding coarse_from spanned
coarse a f buckets =
    let cap = spanned a f in
    let n = if ltb cap (pos_part buckets) then cap else pos_part buckets in
    if leb_ℤ buckets (pos 0) || f.length == 0 || a.piece_length == 0
    then []
    else coarse_from a f n 0 n
