-- ===== src/Bridge/Range/Resolve.antt =====
-- What `parseRange` of internal/bridge/httprange.go resolves lies in the resource.
use torpeek.Prelude.{
  ℕ, ◌+◌, ◌≤◌, ◌<◌, List, [], ◌∷◌, leb, arith, Bool-cases, Option-cases, inl, inr,
}
use torpeek.Prelude.Int.{pos, negsuc}
use torpeek.Prelude.Text.{trim_space, cut_prefix, has_rune, cut_at, parse_int}
use torpeek.Bridge.Range.{
  RangeAnswer, resolved, malformed, unsatisfiable, suffix, up_to, resolve, bytes_unit, parse_range,
}

-- A resolved range lies within `size` bytes, and holds a byte if there is one.
abbrev pub Served : ℕ → RangeAnswer → Type 0
Served size (resolved r) = (r.start + r.length ≤ size) × (0 < size → 0 < r.length)
Served size malformed = Unit
Served size unsatisfiable = Unit

suffix-Served : (size : ℕ) (last : List ℕ) → Served size (suffix size last)
unfolding suffix
suffix-Served size last = elim (Option-cases (parse_int last)) [
  | inl e ↦ rw (e, suffix) tt
  | inr (negsuc n, e) ↦ rw (e, suffix) tt
  | inr (pos n, e) ↦ rw (e, suffix) (ground arith)
]

up_to-Served : (size start : ℕ) (last : List ℕ) → start < size → Served size (up_to size start last)
unfolding up_to
up_to-Served size start [] h = ground arith
up_to-Served size start (c ∷ cs) h = elim (Option-cases (parse_int (c ∷ cs))) [
  | inl e ↦ rw (e, up_to) tt
  | inr (negsuc n, e) ↦ rw (e, up_to) tt
  | inr (pos n, e) ↦ rw (e, up_to) (ground arith)
]

resolve-Served : (size : ℕ) (first last : List ℕ) → Served size (resolve size first last)
unfolding resolve
resolve-Served size [] [] = tt
resolve-Served size [] (c ∷ cs) = suffix-Served size (c ∷ cs)
resolve-Served size (f ∷ fs) last = elim (Option-cases (parse_int (f ∷ fs))) [
  | inl e ↦ rw (e, resolve) tt
  | inr (negsuc n, e) ↦ rw (e, resolve) tt
  | inr (pos n, e) ↦ elim (Bool-cases (leb size n)) [
    | inl k ↦ rw (e, resolve) (rw k tt)
    | inr k ↦ rw (e, resolve) (rw k (up_to-Served size n last (ground arith)))
  ]
]

-- Whatever the header says: a range that `parseRange` resolves lies within the resource, and it is not
-- empty unless the resource is.
parse_range-Served : (header : List ℕ) (size : ℕ) → Served size (parse_range header size)
unfolding parse_range
parse_range-Served header size = elim (Option-cases (cut_prefix (trim_space header) bytes_unit)) [
  | inl e ↦ rw (e, parse_range) tt
  | inr (spec, e) ↦ elim (Bool-cases (has_rune 44 spec)) [
    | inl k ↦ rw (e, parse_range) (rw k tt)
    | inr k ↦ elim (Option-cases (cut_at 45 (trim_space spec))) [
      | inl c ↦ rw (e, parse_range) (rw k (rw c tt))
      | inr ((first, last), c) ↦
          rw (e, parse_range)
            (rw k (rw c (resolve-Served size (trim_space first) (trim_space last))))
    ]
  ]
]
