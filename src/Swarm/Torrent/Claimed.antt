-- ===== src/Swarm/Torrent/Claimed.antt =====
-- The claim record of internal/swarm/torrent.go and fetch.go: each piece is paid for once.
use torpeek.Prelude.{
  ℕ, zero, suc, ◌+◌, ◌-◌, ◌*◌, ◌≤◌, ◌<◌, ◌≡◌, refl, true, false, ◌&&◌, ◌||◌, List, ◌∷◌, ◌==◌, leb,
  ltb, if◌then◌else◌, arith, Bool-cases, inl, inr, ◌∙◌, ap, subst,
}
use torpeek.Swarm.Torrent.{
  Torrent, PieceRange, piece_bytes, seen, note_piece, note_from, note_claimed,
}
use torpeek.Swarm.Torrent.Window.{IsWellFormed}

-- The bytes of those of the first `n` pieces that are in a set.
unfoldable pub sum_seen : Torrent → List ℕ → ℕ → ℕ
sum_seen t s zero = 0
sum_seen t s (suc n) = (if seen n s then piece_bytes t n else 0) + sum_seen t s n

-- The counter is the bytes of the pieces seen, each taken once.
abbrev pub IsCounted : Torrent → Type 0
IsCounted t = t.claimed_byte ≡ sum_seen t t.claimed_seen t.num_pieces

sum_seen-above :
    (t : Torrent) (s : List ℕ) (i n : ℕ) → n ≤ i → sum_seen t (i ∷ s) n ≡ sum_seen t s n
unfolding sum_seen
sum_seen-above t s i zero h = refl
sum_seen-above t s i (suc n) h = ground (arith, sum_seen-above t s i n)

sum_seen-new :
    (t : Torrent) (s : List ℕ) (i n : ℕ)
    → seen i s ≡ false
    → i < n
    → sum_seen t (i ∷ s) n ≡ sum_seen t s n + piece_bytes t i
unfolding sum_seen
sum_seen-new t s i zero new h = absurd (omega arith)
sum_seen-new t s i (suc n) new h = elim (Bool-cases (n == i)) [
  | inl e ↦ ground (arith, sum_seen-above t s i n)
  | inr e ↦ ground (arith, sum_seen-new t s i n)
]

-- The sizes of the pieces do not depend on the claims.
abbrev pub SameShape : Torrent → Torrent → Type 0
SameShape t u =
    (u.length ≡ t.length) × (u.piece_length ≡ t.piece_length) × (u.num_pieces ≡ t.num_pieces)

piece_bytes-shape : (t u : Torrent) (i : ℕ) → SameShape t u → piece_bytes u i ≡ piece_bytes t i
unfolding piece_bytes
piece_bytes-shape t u i h = rw (h.0, h.1, h.2)

sum_seen-shape :
    (t u : Torrent) (s : List ℕ) (n : ℕ) → SameShape t u → sum_seen u s n ≡ sum_seen t s n
unfolding sum_seen
sum_seen-shape t u s zero h = refl
sum_seen-shape t u s (suc n) h = ground (arith, sum_seen-shape t u s n, piece_bytes-shape t u n h)

note_from-shape : (t : Torrent) (i n : ℕ) → SameShape t (note_from t i n)
unfolding note_from
note_from-shape t i zero = (refl, refl, refl)
note_from-shape t i (suc n) = ground (arith, note_from-shape (note_piece t i) (i + 1) n)

note_piece-IsCounted :
    (t : Torrent) (i : ℕ) → i < t.num_pieces → IsCounted t → IsCounted (note_piece t i)
note_piece-IsCounted t i h c = elim (Bool-cases (seen i t.claimed_seen)) [
  | inl old ↦ simp old c
  | inr new ↦ rw new (
      omega (
        arith,
        sum_seen-shape t
            (record t {
              claimed_seen = i ∷ t.claimed_seen;
              claimed_byte = t.claimed_byte + piece_bytes t i;
            })
            (i ∷ t.claimed_seen) t.num_pieces (refl, refl, refl),
        sum_seen-new t t.claimed_seen i t.num_pieces new h,
      ))
]

note_from-IsCounted :
    (t : Torrent) (i n : ℕ) → i + n ≤ t.num_pieces → IsCounted t → IsCounted (note_from t i n)
unfolding note_from
note_from-IsCounted t i zero h c = c
note_from-IsCounted t i (suc n) h c =
    note_from-IsCounted (note_piece t i) (i + 1) n (rw (note_from-shape t i 1).2 (omega arith))
      (note_piece-IsCounted t i (omega arith) c)

note_from-seen :
    (t : Torrent) (i n j : ℕ)
    → seen j (note_from t i n).claimed_seen ≡ (seen j t.claimed_seen || (leb i j && ltb j (i + n)))
unfolding note_from
note_from-seen t i zero j = ground arith
note_from-seen t i (suc n) j = ground (arith, note_from-seen (note_piece t i) (i + 1) n j)

note_from-noop :
    (t : Torrent) (i n : ℕ)
    → ((j : ℕ) → i ≤ j → j < i + n → seen j t.claimed_seen ≡ true)
    → note_from t i n ≡ t
unfolding note_from
note_from-noop t i zero h = refl
note_from-noop t i (suc n) h =
    rw (h i (omega arith) (omega arith))
      (note_from-noop t (i + 1) n (λ j a b. h j (omega arith) (omega arith)))

-- For a range within the torrent: noting a claim adds its pieces to those seen and no others, the
-- counter stays the bytes of the pieces seen, and claiming the same range again changes nothing.
pub note_claimed_lem :
    (t : Torrent) (r : PieceRange)
    → r.begin ≤ r.end
    → r.end ≤ t.num_pieces
    → IsCounted t
    → let u = note_claimed t r in
      IsCounted u
      × ((j : ℕ)
          → seen j u.claimed_seen ≡ (seen j t.claimed_seen || (leb r.begin j && ltb j r.end)))
      × (note_claimed u r ≡ u)
unfolding note_claimed
note_claimed_lem t r h k c = (
  note_from-IsCounted t r.begin (r.end - r.begin) (omega arith) c,
  (λ j. ground (arith, note_from-seen t r.begin (r.end - r.begin) j)),
  note_from-noop (note_from t r.begin (r.end - r.begin)) r.begin (r.end - r.begin)
      (λ j a b. ground (arith, note_from-seen t r.begin (r.end - r.begin) j)),
)

-- The pieces before the last one are whole.
sum_seen-le :
    (t : Torrent) (s : List ℕ) (n : ℕ) → n < t.num_pieces → sum_seen t s n ≤ n * t.piece_length
unfolding sum_seen piece_bytes
sum_seen-le t s zero h = omega arith
sum_seen-le t s (suc n) h = ground (arith, sum_seen-le t s n (omega arith))

sum_seen-all :
    (t : Torrent) (s : List ℕ) (n : ℕ)
    → 0 < t.piece_length
    → ((j : ℕ) → j < n → seen j s ≡ true)
    → n < t.num_pieces
    → sum_seen t s n ≡ n * t.piece_length
unfolding sum_seen piece_bytes
sum_seen-all t s zero p a h = omega arith
sum_seen-all t s (suc n) p a h =
    ground (arith, a n, sum_seen-all t s n p (λ j k. a j (omega arith)) (omega arith))

last_piece :
    (t : Torrent) (m : ℕ)
    → IsWellFormed t
    → t.num_pieces ≡ suc m
    → (m * t.piece_length + piece_bytes t m ≡ t.length)
unfolding piece_bytes
last_piece t m w e =
    let upper : t.length ≤ suc m * t.piece_length =
      subst (λ n. t.length ≤ n * t.piece_length) e w.cover in
    let lower : suc m * t.piece_length < t.length + t.piece_length =
      subst (λ n. n * t.piece_length < t.length + t.piece_length) e w.exact in
    let p : 0 < t.piece_length = w.piece_length_pos in rw e (ground arith)

sum_seen_total :
    (t : Torrent) (m : ℕ)
    → IsWellFormed t
    → t.num_pieces ≡ suc m
    → IsCounted t
    → (t.claimed_byte ≤ t.length)
      × (((j : ℕ) → j < t.num_pieces → seen j t.claimed_seen ≡ true) → t.claimed_byte ≡ t.length)
unfolding sum_seen
sum_seen_total t m w e c =
    let c' : t.claimed_byte ≡ sum_seen t t.claimed_seen (suc m) =
      c ∙ ap (sum_seen t t.claimed_seen) e in
    (
      ground (arith, c', last_piece t m w e, sum_seen-le t t.claimed_seen m (omega arith)),
      λ all. ground (
        arith,
        c',
        all m,
        last_piece t m w e,
        sum_seen-all t t.claimed_seen m w.piece_length_pos (λ j k. all j (omega arith))
            (omega arith),
      ),
    )

nothing : (t : Torrent) (s : List ℕ) → t.num_pieces ≡ zero → sum_seen t s t.num_pieces ≡ zero
unfolding sum_seen
nothing t s e = ap (sum_seen t s) e

-- In a well-formed torrent the claimed bytes never pass its length, and once every piece of it has
-- been claimed they are its length, however the claims overlapped.
pub claimed_byte_bound :
    (t : Torrent)
    → IsWellFormed t
    → IsCounted t
    → (t.claimed_byte ≤ t.length)
      × (((j : ℕ) → j < t.num_pieces → seen j t.claimed_seen ≡ true) → t.claimed_byte ≡ t.length)
claimed_byte_bound t w c = by_pieces t.num_pieces refl
  where
    by_pieces :
        (n : ℕ)
        → t.num_pieces ≡ n
        → (t.claimed_byte ≤ t.length)
          × (((j : ℕ) → j < t.num_pieces → seen j t.claimed_seen ≡ true)
              → t.claimed_byte ≡ t.length)
    by_pieces zero e =
        let empty : t.length ≤ zero * t.piece_length =
          subst (λ n. t.length ≤ n * t.piece_length) e w.cover in
        let none_paid : t.claimed_byte ≡ zero = c ∙ nothing t t.claimed_seen e in
        (omega arith, λ all. omega arith)
    by_pieces (suc m) e = sum_seen_total t m w e c
