-- ===== src/Swarm/Availability/Buckets.antt =====
-- `Coarse` of internal/swarm/availability.go: the buckets of a file.
use native.Mathlib.Nat.{div-lt_iff_lt-mul, mul-div_cancel, add-div_left, mul-le-mul_left}
use torpeek.Prelude.{
  ℕ, zero, suc, ◌+◌, ◌-◌, ◌*◌, ◌/◌, ◌≤◌, ◌<◌, ◌≡◌, refl, ltb, if◌then◌else◌, get_elem?, length,
  some, arith, Bool-cases, inl, inr, ap, subst,
}
use torpeek.Prelude.Int.{pos}
use torpeek.Swarm.Torrent.{FileInfo}
use torpeek.Swarm.Availability.{
  Availability, at_offset, over_range, spanned, bucket_at, coarse_from, coarse,
}
use torpeek.Swarm.Availability.Least.{div_mono, over_range_lem}

-- The buckets that `coarse` makes.
abbrev bucket_count : Availability → FileInfo → ℕ → ℕ
bucket_count a f b = let cap = spanned a f in if ltb cap b then cap else b

abbrev bucket : Availability → FileInfo → ℕ → ℕ → ℕ
bucket a f n i = over_range a (pos (bucket_at f n i)) (pos (bucket_at f n (i + 1)))

get_elem?-coarse_from :
    (a : Availability) (f : FileInfo) (n i k j : ℕ)
    → j < k
    → get_elem? (coarse_from a f n i k) j
      ≡ some (over_range a (pos (bucket_at f n (i + j))) (pos (bucket_at f n (i + j + 1))))
unfolding coarse_from
get_elem?-coarse_from a f n i zero j h = ground arith
get_elem?-coarse_from a f n i (suc k) zero h = let e : i + 0 ≡ i = omega arith in rw e refl
get_elem?-coarse_from a f n i (suc k) (suc j) h =
    let e : i + 1 + j ≡ i + suc j = omega arith in
    subst
      (λ m.
        get_elem? (coarse_from a f n (i + 1) k) j
        ≡ some (over_range a (pos (bucket_at f n m)) (pos (bucket_at f n (m + 1)))))
      e (get_elem?-coarse_from a f n (i + 1) k j (omega arith))

coarse-from :
    (a : Availability) (f : FileInfo) (b : ℕ)
    → 0 < a.piece_length
    → 0 < f.length
    → 0 < b
    → coarse a f (pos b) ≡ coarse_from a f (bucket_count a f b) 0 (bucket_count a f b)
unfolding coarse
coarse-from a f b h k l = ground arith

-- A file spans no more pieces than it has bytes.
spanned-le :
    (a : Availability) (f : FileInfo)
    → 0 < a.piece_length
    → 0 < f.length
    → (0 < spanned a f) × (spanned a f ≤ f.length)
unfolding spanned
spanned-le a f h k =
    let p = a.piece_length in
    let q = f.offset / p in
    let below : f.offset < (q + 1) * p = (div-lt_iff_lt-mul h).0 (omega arith) in
    let whole : f.length - 1 ≤ (f.length - 1) * p = grind arith in
    let split : (q + 1 + (f.length - 1)) * p ≡ (q + 1) * p + (f.length - 1) * p = grind arith in
    let sum : q + 1 + (f.length - 1) ≡ q + f.length = omega arith in
    let under : f.offset + f.length - 1 < (q + 1 + (f.length - 1)) * p = omega arith in
    let least : (f.offset + f.length - 1) / p < q + 1 + (f.length - 1) =
      (div-lt_iff_lt-mul h).1 under in
    (omega arith, omega arith)

-- A bucket begins before it ends.
bucket_at-lt :
    (f : FileInfo) (n i : ℕ) → 0 < n → n ≤ f.length → bucket_at f n i < bucket_at f n (i + 1)
bucket_at-lt f n i h k =
    let step : (n + f.length * i) / n ≡ f.length * i / n + 1 = add-div_left (f.length * i) h in
    let more : (n + f.length * i) / n ≤ f.length * (i + 1) / n =
      div_mono (n + f.length * i) (f.length * (i + 1)) n (grind arith) in
    omega arith

-- The bucket of a byte, among the first `k`.
find_bucket :
    (f : FileInfo) (n x k : ℕ)
    → f.offset ≤ x
    → x < bucket_at f n k
    → (i : ℕ) × (i < k) × (bucket_at f n i ≤ x) × (x < bucket_at f n (i + 1))
find_bucket f n x zero h l = let z : f.length * 0 / n ≡ 0 = grind arith in ground arith
find_bucket f n x (suc k) h l = elim (Bool-cases (ltb x (bucket_at f n k))) [
  | inl e ↦ let (i, j, u, v) = find_bucket f n x k h (ground arith) in (i, omega arith, u, v)
  | inr e ↦ (k, omega arith, ground arith, subst (λ m. x < bucket_at f n m) (omega arith) l)
]

-- The last bucket ends where the file does.
bucket_at-end : (f : FileInfo) (n : ℕ) → 0 < n → bucket_at f n n ≡ f.offset + f.length
bucket_at-end f n h = ap (λ m. f.offset + m) (mul-div_cancel f.length h)

bucket_at-within : (f : FileInfo) (n i : ℕ) → i < n → bucket_at f n (i + 1) ≤ f.offset + f.length
bucket_at-within f n i h =
    let m : bucket_at f n (i + 1) ≤ bucket_at f n n =
      (let d =
          div_mono (f.length * (i + 1)) (f.length * n) n (mul-le-mul_left f.length (omega arith)) in
        omega arith) in
    omega (arith, m, bucket_at-end f n (omega arith))

get_elem?-coarse :
    (a : Availability) (f : FileInfo) (n i : ℕ)
    → i < n
    → get_elem? (coarse_from a f n 0 n) i ≡ some (bucket a f n i)
get_elem?-coarse a f n i h =
    subst (λ m. get_elem? (coarse_from a f n 0 n) i ≡ some (bucket a f n m)) (omega arith)
      (get_elem?-coarse_from a f n 0 n i h)

-- A bucket is the least over its bytes, which are bytes of the file.
bucket-least :
    (a : Availability) (f : FileInfo) (n i : ℕ)
    → 0 < a.piece_length
    → f.offset + f.length ≤ a.length
    → n ≤ f.length
    → i < n
    → ((x : ℕ) → bucket_at f n i ≤ x → x < bucket_at f n (i + 1) → bucket a f n i ≤ at_offset a x)
      × ((x : ℕ) × (bucket_at f n i ≤ x)
          × (x < bucket_at f n (i + 1))
          × (at_offset a x ≡ bucket a f n i))
bucket-least a f n i h w few c =
    over_range_lem a (bucket_at f n i) (bucket_at f n (i + 1)) h
      (bucket_at-lt f n i (omega arith) few) (omega (arith, bucket_at-within f n i c, w))

length-coarse_from :
    (a : Availability) (f : FileInfo) (n i k : ℕ) → length (coarse_from a f n i k) ≡ k
unfolding coarse_from
length-coarse_from a f n i zero = refl
length-coarse_from a f n i (suc k) = ap suc (length-coarse_from a f n (i + 1) k)

-- The byte is in the `i`th of `n` equal parts of the file.
abbrev pub InPart : FileInfo → ℕ → ℕ → ℕ → Type 0
InPart f n i x = (f.offset + f.length * i / n ≤ x) × (x < f.offset + f.length * (i + 1) / n)

-- As many parts as buckets are asked for, but no more than the file spans pieces.
abbrev pub parts : Availability → FileInfo → ℕ → ℕ
parts a f b =
    let pieces = (f.offset + f.length - 1) / a.piece_length - f.offset / a.piece_length + 1 in
    if ltb pieces b then pieces else b

-- For a file that is not empty and lies within the torrent, and at least one bucket: there are as many buckets as
-- are asked for, or as the file spans pieces if those are fewer. The file is cut into as many parts, each
-- byte of it is in one, and each bucket is the least availability of the bytes of its part: none of them is
-- held by fewer peers than the bucket says, and one of them by just so many.
pub coarse_lem :
    (a : Availability) (f : FileInfo) (b : ℕ)
    → 0 < a.piece_length
    → 0 < f.length
    → f.offset + f.length ≤ a.length
    → 0 < b
    → let n = parts a f b in
      (length (coarse a f (pos b)) ≡ n)
      × ((x : ℕ) → f.offset ≤ x → x < f.offset + f.length → (i : ℕ) × (i < n) × InPart f n i x)
      × ((i : ℕ)
          → i < n
          → (v : ℕ) × (get_elem? (coarse a f (pos b)) i ≡ some v)
            × ((x : ℕ) → InPart f n i x → v ≤ at_offset a x)
            × ((x : ℕ) × InPart f n i x × (at_offset a x ≡ v)))
unfolding spanned
coarse_lem a f b h k w l =
    let n = bucket_count a f b in
    let (some_piece, few) = spanned-le a f h k in
    let n_pos : 0 < n = ground arith in
    let n_few : n ≤ f.length = ground arith in
    rw (coarse-from a f b h k l) (
      length-coarse_from a f n 0 n,
      (λ x u v.
          let (i, c, d, e) = find_bucket f n x n u (omega (arith, bucket_at-end f n n_pos)) in
          (i, c, (d, e))),
      (λ i c.
          let (under, (x, d, e, y)) = bucket-least a f n i h w n_few c in
          (bucket a f n i, get_elem?-coarse a f n i c, (λ z q. under z q.0 q.1), (x, (d, e), y))),
    )
