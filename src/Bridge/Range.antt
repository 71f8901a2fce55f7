-- ===== src/Bridge/Range.antt =====
-- internal/bridge/httprange.go: the Range header that ffmpeg sends.
mod Resolve
mod Tests
use torpeek.Prelude.{
  ℕ, zero, suc, ◌+◌, ◌-◌, ◌*◌, Bool, true, false, not, ◌&&◌, ◌||◌, List, [], ◌∷◌, ◌++◌, ◌==◌, leb,
  ltb, if◌then◌else◌, Option, none, some,
}
use torpeek.Prelude.Text.{trim_space, cut_prefix, has_rune, cut_at, parse_int}
use torpeek.Prelude.Int.{ℤ, pos, negsuc, ltb_ℤ, leb_ℤ, pos_part}

-- A resolved range: `length` bytes from `start` on.
pub record ByteRange : Type 0 where
  pub start : ℕ
  pub length : ℕ

-- A malformed header is a bad request; a range that the resource does not have is told apart.
pub data RangeAnswer : Type 0 where
  resolved : ByteRange → RangeAnswer
  malformed unsatisfiable : RangeAnswer

-- "-N": the last `N` bytes.
unfoldable pub suffix : ℕ → List ℕ → RangeAnswer
unfolding parse_int
suffix size last = elim (parse_int last) [
  | none ↦ malformed
  | some (negsuc n) ↦ malformed
  | some (pos n) ↦
      let m = if ltb size n then size else n in
      if n == 0 then unsatisfiable else resolved (record { start = size - m; length = m })
]

-- "N-M" with the start in hand.
unfoldable pub up_to : ℕ → ℕ → List ℕ → RangeAnswer
unfolding parse_int
up_to size start [] = resolved (record { start = start; length = size - start })
up_to size start (c ∷ cs) = elim (parse_int (c ∷ cs)) [
  | none ↦ malformed
  | some (negsuc n) ↦ malformed
  | some (pos n) ↦
      let end = if leb size n then size - 1 else n in
      if ltb n start
      then malformed
      else resolved (record { start = start; length = end - start + 1 })
]

unfoldable pub resolve : ℕ → List ℕ → List ℕ → RangeAnswer
unfolding suffix up_to parse_int
resolve size [] [] = malformed
resolve size [] (c ∷ cs) = suffix size (c ∷ cs)
resolve size (f ∷ fs) last = elim (parse_int (f ∷ fs)) [
  | none ↦ malformed
  | some (negsuc n) ↦ malformed
  | some (pos n) ↦ if leb size n then unsatisfiable else up_to size n last
]

-- "bytes=".
abbrev pub bytes_unit : List ℕ
bytes_unit = 98 ∷ 121 ∷ 116 ∷ 101 ∷ 115 ∷ 61 ∷ []

unfoldable pub parse_range : List ℕ → ℕ → RangeAnswer
unfolding trim_space cut_prefix has_rune cut_at resolve
parse_range header size = elim (cut_prefix (trim_space header) bytes_unit) [
  | none ↦ malformed
  | some spec ↦ if has_rune 44 spec then malformed else (elim (cut_at 45 (trim_space spec)) [
    | none ↦ malformed
    | some (first, last) ↦ resolve size (trim_space first) (trim_space last)
  ])
]
