-- ===== src/Swarm/Availability/Least.antt =====
-- `OverRange` of internal/swarm/availability.go is a minimum.
use native.Mathlib.Nat.{le-div_iff_mul-le, div-lt_iff_lt-mul, mul-div_cancel}
use torpeek.Prelude.{
  ℕ, zero, suc, ◌+◌, ◌-◌, ◌*◌, ◌/◌, ◌≤◌, ◌<◌, ◌≡◌, refl, leb, ltb, if◌then◌else◌, Option, none,
  some, arith, Bool-cases, inl, inr, ◌∙◌, ltb→lt, ap,
}
use torpeek.Prelude.Int.{pos}
use torpeek.Swarm.Availability.{Availability, at, at_offset, lesser, least_from, over_range}

-- The least value over `n` pieces from `piece` on, and one at least.
abbrev least_of : Availability → ℕ → ℕ → ℕ
least_of a piece zero = at a piece
least_of a piece (suc n) =
    let rest = least_of a (piece + 1) n in if ltb (at a piece) rest then at a piece else rest

least_from-some :
    (a : Availability) (piece n m : ℕ)
    → least_from a piece (suc n) (some m)
      ≡ some (let l = least_of a piece n in if ltb l m then l else m)
unfolding least_from
least_from-some a piece zero m = refl
least_from-some a piece (suc n) m =
    least_from-some a (piece + 1) n (lesser (some m) (at a piece))
    ∙ (ap (λ k. some k) (ground arith))

least_from-none :
    (a : Availability) (piece n : ℕ) → least_from a piece (suc n) none ≡ some (least_of a piece n)
unfolding least_from
least_from-none a piece zero = refl
least_from-none a piece (suc n) =
    least_from-some a (piece + 1) n (at a piece) ∙ (ap (λ k. some k) (ground arith))

least_of-le :
    (a : Availability) (piece n q : ℕ) → piece ≤ q → q ≤ piece + n → least_of a piece n ≤ at a q
least_of-le a piece zero q h k = let e : q ≡ piece = omega arith in rw e (omega arith)
least_of-le a piece (suc n) q h k = elim (Bool-cases (leb q piece)) [
  | inl e ↦ let e' : q ≡ piece = ground arith in rw e' (ground arith)
  | inr e ↦ let le = least_of-le a (piece + 1) n q (ground arith) (omega arith) in ground arith
]

least_of-at :
    (a : Availability) (piece n : ℕ)
    → (q : ℕ) × (piece ≤ q) × (q ≤ piece + n) × (at a q ≡ least_of a piece n)
least_of-at a piece zero = (piece, omega arith, omega arith, refl)
least_of-at a piece (suc n) =
    let (q, h, k, e) = least_of-at a (piece + 1) n in
    elim (Bool-cases (ltb (at a piece) (least_of a (piece + 1) n))) [
      | inl c ↦ (piece, omega arith, omega arith, rw c refl)
      | inr c ↦ (q, omega arith, omega arith, rw c e)
    ]

pub div_mono : (a b c : ℕ) → a ≤ b → a / c ≤ b / c
div_mono a b c h = grind arith

abbrev or_zero : Option ℕ → ℕ
or_zero none = 0
or_zero (some n) = n

over_range-inside :
    (a : Availability) (s e : ℕ)
    → 0 < a.piece_length
    → s < e
    → e ≤ a.length
    → over_range a (pos s) (pos e)
      ≡ or_zero (
          least_from a
            (s / a.piece_length)
            ((e - 1) / a.piece_length + 1 - s / a.piece_length)
            none)
unfolding over_range
over_range-inside a s e h k l = ground arith

over_range-least :
    (a : Availability) (s e : ℕ)
    → 0 < a.piece_length
    → s < e
    → e ≤ a.length
    → over_range a (pos s) (pos e)
      ≡ least_of a (s / a.piece_length) ((e - 1) / a.piece_length - s / a.piece_length)
over_range-least a s e h k l =
    let first = s / a.piece_length in
    let last = (e - 1) / a.piece_length in
    let m : first ≤ last = div_mono s (e - 1) a.piece_length (omega arith) in
    let n : last + 1 - first ≡ suc (last - first) = omega arith in
    let o = over_range-inside a s e h k l in
    o ∙ ap or_zero (ap (λ i. least_from a first i none) n ∙ least_from-none a first (last - first))

-- A byte of the range that lies in a given piece between its first and its last.
byte_of :
    (p s e q : ℕ)
    → 0 < p
    → s < e
    → s / p ≤ q
    → q ≤ (e - 1) / p
    → (x : ℕ) × (s ≤ x) × (x < e) × (x / p ≡ q)
byte_of p s e q h k l m = elim (Bool-cases (ltb (s / p) q)) [
  | inl c ↦ (
    q * p,
    (let a : s < q * p = (div-lt_iff_lt-mul h).0 (ltb→lt (s / p) q c) in omega arith),
    (let b : q * p ≤ e - 1 = (le-div_iff_mul-le h).0 m in omega arith),
    mul-div_cancel q h,
  )
  | inr c ↦ (s, omega arith, k, ground arith)
]

at_offset-at :
    (a : Availability) (x : ℕ) → 0 < a.piece_length → at_offset a x ≡ at a (x / a.piece_length)
unfolding at_offset
at_offset-at a x h = ground arith

-- For a range that is not empty and lies within the torrent: no byte of it is held by fewer peers than
-- `OverRange` says, and some byte of it by just so many.
pub over_range_lem :
    (a : Availability) (s e : ℕ)
    → 0 < a.piece_length
    → s < e
    → e ≤ a.length
    → ((x : ℕ) → s ≤ x → x < e → over_range a (pos s) (pos e) ≤ at_offset a x)
      × ((x : ℕ) × (s ≤ x) × (x < e) × (at_offset a x ≡ over_range a (pos s) (pos e)))
over_range_lem a s e h k l =
    let p = a.piece_length in
    let m : s / p ≤ (e - 1) / p = div_mono s (e - 1) p (omega arith) in
    let n = (e - 1) / p - s / p in
    rw (over_range-least a s e h k l) (
      (λ x i j.
          let u : x / p ≤ (e - 1) / p = div_mono x (e - 1) p (omega arith) in
          rw (at_offset-at a x h)
            (least_of-le a (s / p) n (x / p) (div_mono s x p i) (omega arith))),
      (let (q, b, c, v) = least_of-at a (s / p) n in
          let (x, i, j, d) = byte_of p s e q h k b (omega arith) in
          (x, i, j, at_offset-at a x h ∙ ap (at a) d ∙ v)),
    )
