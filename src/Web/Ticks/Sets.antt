-- ===== src/Web/Ticks/Sets.antt =====
-- The files that internal/web/server.go reports, as a set of indices, and what a tick does to it.
use torpeek.Prelude.{
  ◌≡◌, refl, ap, ◌∙◌, Bool, true, false, ◌||◌, List, [], ◌∷◌, ◌++◌, arith, Bool-cases, Option-cases,
  inl, inr, none, some,
}
use torpeek.Prelude.Int.{ℤ, leb_ℤ, ◌<ℤ◌}
use torpeek.Prelude.Text.{trim_space, parse_int}
use torpeek.Web.Ticks.{Spec, has_index, same_int}
use torpeek.Web.Ticks.Report.{insert_int, sort_ints, indices_loop, file_indices}

pub has_index-insert :
    (n k : ℤ) (ks : List ℤ) → has_index (insert_int n ks) k ≡ (same_int n k || has_index ks k)
unfolding has_index insert_int
has_index-insert n k [] = refl
has_index-insert n k (m ∷ ms) = elim (Bool-cases (leb_ℤ n m)) [
  | inl le ↦ rw le refl
  | inr gt ↦ rw gt (ground (arith, has_index-insert n k ms))
]

pub has_index-sort : (ks : List ℤ) (k : ℤ) → has_index (sort_ints ks) k ≡ has_index ks k
unfolding has_index sort_ints
has_index-sort [] k = refl
has_index-sort (n ∷ ns) k =
    has_index-insert n k (sort_ints ns) ∙ ap (λ b. same_int n k || b) (has_index-sort ns k)

-- Whether one of the files is number `k` of the torrent: the reference for `fileIndices`.
unfoldable pub names : List Spec → ℤ → Bool
names [] k = false
names (spec ∷ specs) k =
    (elim (parse_int (trim_space spec)) [ none ↦ false | some n ↦ same_int n k ]) || names specs k

pub names-nil : (k : ℤ) (b : Bool) → b ≡ (b || names [] k)
unfolding names
names-nil k b = ground arith

pub names_nothing : (k : ℤ) {b : Bool} → names [] k ≡ true → b ≡ true
unfolding names
names_nothing k n = cc

pub names-append : (xs ys : List Spec) (k : ℤ) → names (xs ++ ys) k ≡ (names xs k || names ys k)
unfolding names
names-append [] ys k = refl
names-append (x ∷ xs) ys k = ground (arith, names-append xs ys k)

has_index-append :
    (xs ys : List ℤ) (k : ℤ) → has_index (xs ++ ys) k ≡ (has_index xs k || has_index ys k)
unfolding has_index
has_index-append [] ys k = refl
has_index-append (x ∷ xs) ys k = ground (arith, has_index-append xs ys k)

has_index-one : (n k : ℤ) → has_index (n ∷ []) k ≡ same_int n k
unfolding has_index
has_index-one n k = ground arith

has_index-none : (k : ℤ) (b : Bool) → (has_index [] k || b) ≡ b
unfolding has_index
has_index-none k b = refl

pub has_index-same : (ks : List ℤ) (n k : ℤ) → same_int n k ≡ true → has_index ks n ≡ has_index ks k
unfolding has_index
has_index-same [] n k e = refl
has_index-same (m ∷ ms) n k e = ground (arith, has_index-same ms n k e)

has_index-loop :
    (out : List ℤ) (specs : List Spec) (k : ℤ)
    → has_index (indices_loop out specs) k ≡ (has_index out k || names specs k)
unfolding indices_loop names
has_index-loop out [] k = or_false (has_index out k)
  where
    or_false : (b : Bool) → b ≡ (b || false)
    or_false b = ground arith
has_index-loop out (spec ∷ specs) k = elim (Option-cases (parse_int (trim_space spec))) [
  | inl e ↦ rw (e, indices_loop) (has_index-loop out specs k)
  | inr (n, e) ↦
      rw (e, indices_loop)
        (elim (Bool-cases (has_index out n)) [
          | inl old ↦ rw (old, has_index-loop out specs k) (ground (arith, has_index-same out n k))
          | inr new ↦
              rw (new, has_index-loop (out ++ (n ∷ [])) specs k)
                (ground (arith, has_index-append out (n ∷ []) k, has_index-one n k))
        ])
]

-- `fileIndices` reports the numbers that the files name.
pub has_index-file_indices :
    (specs : List Spec) (k : ℤ) → has_index (file_indices specs) k ≡ names specs k
unfolding file_indices
has_index-file_indices specs k =
    has_index-sort (indices_loop [] specs) k
    ∙ has_index-loop [] specs k
    ∙ has_index-none k (names specs k)

-- Each index stands once, and they ascend.
abbrev pub Ascends : List ℤ → Type 0
Ascends [] = Unit
Ascends (k ∷ []) = Unit
Ascends (k ∷ n ∷ ns) = (k <ℤ n) × Ascends (n ∷ ns)

abbrev Unrepeated : List ℤ → Type 0
Unrepeated [] = Unit
Unrepeated (k ∷ ks) = (has_index ks k ≡ false) × Unrepeated ks

Unrepeated-snoc :
    (n : ℤ) (ks : List ℤ) → has_index ks n ≡ false → Unrepeated ks → Unrepeated (ks ++ (n ∷ []))
unfolding has_index
Unrepeated-snoc n [] a u = (refl, tt)
Unrepeated-snoc n (k ∷ ks) a u = (
  ground (arith, has_index-append ks (n ∷ []) k, has_index-one n k),
  Unrepeated-snoc n ks (ground arith) u.1,
)

indices_loop-Unrepeated :
    (out : List ℤ) (specs : List Spec) → Unrepeated out → Unrepeated (indices_loop out specs)
unfolding indices_loop
indices_loop-Unrepeated out [] u = u
indices_loop-Unrepeated out (spec ∷ specs) u = elim (Option-cases (parse_int (trim_space spec))) [
  | inl e ↦ rw (e, indices_loop) (indices_loop-Unrepeated out specs u)
  | inr (n, e) ↦
      rw (e, indices_loop)
        (elim (Bool-cases (has_index out n)) [
          | inl old ↦ rw old (indices_loop-Unrepeated out specs u)
          | inr new ↦ rw new (indices_loop-Unrepeated _ specs (Unrepeated-snoc n out new u))
        ])
]

Ascends-insert :
    (k : ℤ) (ns : List ℤ) → has_index ns k ≡ false → Ascends ns → Ascends (insert_int k ns)
unfolding insert_int has_index
Ascends-insert k [] a s = tt
Ascends-insert k (n ∷ []) a s = ground arith
Ascends-insert k (n ∷ m ∷ ms) a s = ground (arith, Ascends-insert k (m ∷ ms))

Ascends-sort : (ks : List ℤ) → Unrepeated ks → Ascends (sort_ints ks)
unfolding sort_ints
Ascends-sort [] u = tt
Ascends-sort (k ∷ ks) u =
    Ascends-insert k (sort_ints ks) (has_index-sort ks k ∙ u.0) (Ascends-sort ks u.1)

-- The wire order of a report is settled: the indices ascend, and none stands twice.
pub file_indices-Ascends : (specs : List Spec) → Ascends (file_indices specs)
unfolding file_indices
file_indices-Ascends specs =
    Ascends-sort (indices_loop [] specs) (indices_loop-Unrepeated [] specs tt)
