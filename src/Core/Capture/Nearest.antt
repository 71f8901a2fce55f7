-- ===== src/Core/Capture/Nearest.antt =====
-- `shiftCandidates` of internal/core/engine.go: inside the film, and the nearest first.
use torpeek.Prelude.{
  ℕ, zero, suc, ◌+◌, ◌-◌, ◌*◌, ◌≤◌, ◌≡◌, refl, false, List, [], ◌∷◌, ◌++◌, All, All-append, arith,
  ◌⊎◌,
}
use torpeek.Prelude.Int.{ℤ, pos, pos_part, neg_part, leb_ℤ, ◌+ℤ◌, ◌-ℤ◌, ◌*ℤ◌, ◌≤ℤ◌, ◌<ℤ◌}
use torpeek.Core.Capture.{max_shift, keep, candidates_from, shift_candidates}

-- How far two times are apart.
abbrev pub distance : ℤ → ℤ → ℕ
distance a b = let d = a -ℤ b in pos_part d + neg_part d

-- A time after the beginning, and before the end where that is known.
abbrev pub Inside : ℤ → ℤ → Type 0
Inside duration c = (pos 0 <ℤ c) × ((duration ≤ℤ pos 0) ⊎ (c <ℤ duration))

-- No time is farther from `at` than a later one.
abbrev pub NearestFirst : ℤ → List ℤ → Type 0
NearestFirst at [] = Unit
NearestFirst at (c ∷ cs) = All (λ d. distance at c ≤ distance at d) cs × NearestFirst at cs

-- The distances lie between two bounds.
abbrev Between : ℤ → ℕ → ℕ → List ℤ → Type 0
Between at m n cs = All (λ c. (m ≤ distance at c) × (distance at c ≤ n)) cs

keep-Inside : (duration c : ℤ) → All (Inside duration) (keep duration c)
keep-Inside duration c = ground arith

keep-Between : (at duration c : ℤ) (m : ℕ) → distance at c ≡ m → Between at m m (keep duration c)
keep-Between at duration c m h = ground arith

after-distance : (at : ℤ) (n s : ℕ) → distance at (at +ℤ (pos n *ℤ pos s)) ≡ n * s
after-distance at n s = ground arith

before-distance : (at : ℤ) (n s : ℕ) → distance at (at -ℤ (pos n *ℤ pos s)) ≡ n * s
before-distance at n s = ground arith

candidates_from-Inside :
    (at step duration : ℤ) (n k : ℕ) → All (Inside duration) (candidates_from at step duration n k)
unfolding candidates_from
candidates_from-Inside at step duration n zero = tt
candidates_from-Inside at step duration n (suc k) =
    All-append (Inside duration) (keep duration (at +ℤ (pos n *ℤ step)))
      (keep duration (at -ℤ (pos n *ℤ step)) ++ candidates_from at step duration (n + 1) k)
      (keep-Inside duration (at +ℤ (pos n *ℤ step)))
      (All-append (Inside duration) (keep duration (at -ℤ (pos n *ℤ step)))
        (candidates_from at step duration (n + 1) k) (keep-Inside duration (at -ℤ (pos n *ℤ step)))
        (candidates_from-Inside at step duration (n + 1) k))

widen :
    (at : ℤ) (m n m' n' : ℕ) (cs : List ℤ)
    → m' ≤ m
    → n ≤ n'
    → Between at m n cs
    → Between at m' n' cs
widen at m n m' n' [] h k b = tt
widen at m n m' n' (c ∷ cs) h k b =
    ((omega (arith, b.0.0), omega (arith, b.0.1)), widen at m n m' n' cs h k b.1)

candidates_from-Between :
    (at : ℤ) (s : ℕ) (duration : ℤ) (n k : ℕ)
    → Between at (n * s) ((n + k - 1) * s) (candidates_from at (pos s) duration n k)
unfolding candidates_from
candidates_from-Between at s duration n zero = tt
candidates_from-Between at s duration n (suc k) =
    let after = at +ℤ (pos n *ℤ pos s) in
    let before = at -ℤ (pos n *ℤ pos s) in
    let top = (n + suc k - 1) * s in
    let far : n * s ≤ top = grind arith in
    let next : n * s ≤ (n + 1) * s = grind arith in
    let last : (n + 1 + k - 1) * s ≤ top = grind arith in
    let P = λ (c : ℤ). (n * s ≤ distance at c) × (distance at c ≤ top) in
    All-append P (keep duration after)
      (keep duration before ++ candidates_from at (pos s) duration (n + 1) k)
      (widen at (n * s) (n * s) (n * s) top (keep duration after) (omega arith) far
        (keep-Between at duration after (n * s) (after-distance at n s)))
      (All-append P (keep duration before) (candidates_from at (pos s) duration (n + 1) k)
        (widen at (n * s) (n * s) (n * s) top (keep duration before) (omega arith) far
          (keep-Between at duration before (n * s) (before-distance at n s)))
        (widen at ((n + 1) * s) ((n + 1 + k - 1) * s) (n * s) top
          (candidates_from at (pos s) duration (n + 1) k) next last
          (candidates_from-Between at s duration (n + 1) k)))

nearer :
    (at : ℤ) (d b n : ℕ) (cs : List ℤ) → d ≤ b → Between at b n cs → All (λ c. d ≤ distance at c) cs
nearer at d b n [] h w = tt
nearer at d b n (c ∷ cs) h w = (omega (arith, w.0.0), nearer at d b n cs h w.1)

append-NearestFirst :
    (at : ℤ) (m b n : ℕ) (xs ys : List ℤ)
    → NearestFirst at xs
    → Between at m b xs
    → NearestFirst at ys
    → Between at b n ys
    → NearestFirst at (xs ++ ys)
append-NearestFirst at m b n [] ys nx bx ny by' = ny
append-NearestFirst at m b n (x ∷ xs) ys nx bx ny by' = (
  All-append (λ d. distance at x ≤ distance at d) xs ys nx.0
      (nearer at (distance at x) b n ys bx.0.1 by'),
  append-NearestFirst at m b n xs ys nx.1 bx.1 ny by',
)

keep-NearestFirst : (at duration c : ℤ) → NearestFirst at (keep duration c)
keep-NearestFirst at duration c = ground arith

candidates_from-NearestFirst :
    (at : ℤ) (s : ℕ) (duration : ℤ) (n k : ℕ)
    → NearestFirst at (candidates_from at (pos s) duration n k)
unfolding candidates_from
candidates_from-NearestFirst at s duration n zero = tt
candidates_from-NearestFirst at s duration n (suc k) =
    let after = at +ℤ (pos n *ℤ pos s) in
    let before = at -ℤ (pos n *ℤ pos s) in
    let rest = candidates_from at (pos s) duration (n + 1) k in
    let top = (n + 1 + k - 1) * s in
    let next : n * s ≤ (n + 1) * s = grind arith in
    let far : n * s ≤ top = grind arith in
    let rest_far =
      widen at ((n + 1) * s) top (n * s) top rest next (omega arith)
        (candidates_from-Between at s duration (n + 1) k) in
    let kept = keep-Between at duration before (n * s) (before-distance at n s) in
    append-NearestFirst at (n * s) (n * s) top (keep duration after) (keep duration before ++ rest)
      (keep-NearestFirst at duration after)
      (keep-Between at duration after (n * s) (after-distance at n s))
      (append-NearestFirst at (n * s) (n * s) top (keep duration before) rest
        (keep-NearestFirst at duration before) kept
        (candidates_from-NearestFirst at s duration (n + 1) k) rest_far)
      (All-append (λ (c : ℤ). (n * s ≤ distance at c) × (distance at c ≤ top))
        (keep duration before) rest
        (widen at (n * s) (n * s) (n * s) top (keep duration before) (omega arith) far kept)
        rest_far)

same-distance : (at : ℤ) → distance at at ≡ 0
same-distance at = ground arith

shift_candidates-still : (at duration : ℤ) → shift_candidates at (pos 0) duration ≡ at ∷ []
unfolding shift_candidates
shift_candidates-still at duration = refl

shift_candidates-moving :
    (at duration : ℤ) (s : ℕ)
    → leb_ℤ (pos s) (pos 0) ≡ false
    → shift_candidates at (pos s) duration ≡ at ∷ candidates_from at (pos s) duration 1 max_shift
unfolding shift_candidates
shift_candidates-moving at duration s h = rw (h, shift_candidates) refl

not_beyond : (at : ℤ) (m n : ℕ) (cs : List ℤ) → Between at m n cs → All (λ c. distance at c ≤ n) cs
not_beyond at m n [] b = tt
not_beyond at m n (c ∷ cs) b = (b.0.1, not_beyond at m n cs b.1)

-- For a step `s`: the first candidate is the point itself. The others lie after the beginning and, where
-- it is known, before the end, and none is farther off than two steps. No candidate is farther off
-- than a later one.
pub shift_candidates_lem :
    (at : ℤ) (s : ℕ) (duration : ℤ)
    → (others : List ℤ) × (shift_candidates at (pos s) duration ≡ at ∷ others)
      × All (Inside duration) others
      × All (λ c. distance at c ≤ 2 * s) others
      × NearestFirst at (at ∷ others)
shift_candidates_lem at zero duration = ([], shift_candidates-still at duration, tt, tt, (tt, tt))
shift_candidates_lem at (suc s) duration =
    let others = candidates_from at (pos (suc s)) duration 1 max_shift in
    let b = candidates_from-Between at (suc s) duration 1 max_shift in
    let z = same-distance at in
    (
      others,
      shift_candidates-moving at duration (suc s) (ground arith),
      candidates_from-Inside at (pos (suc s)) duration 1 max_shift,
      not_beyond at (1 * suc s) (2 * suc s) others b,
      (
        nearer at (distance at at) (1 * suc s) (2 * suc s) others (omega arith) b,
        candidates_from-NearestFirst at (suc s) duration 1 max_shift,
      ),
    )
