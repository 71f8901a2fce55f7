-- ===== src/Web/Ticks/Names.antt =====
-- What lists of files name of a torrent, internal/web/server.go, as their lists grow and are filtered.
use torpeek.Prelude.{
  ◌≡◌, refl, sym, ap, true, false, ◌||◌, List, [], ◌∷◌, ◌++◌, arith, Bool-cases, Option-cases, inl,
  inr,
}
use torpeek.Prelude.Int.{ℤ}
use torpeek.Prelude.Text.{same, trim_space, parse_int}
use torpeek.Prelude.Text.Laws.{trim_space-trim_space}
use torpeek.Web.Ticks.{
  Spec, Row, contains_file, with_files, without_files, has_index, same_int, holds_file,
}
use torpeek.Web.Ticks.Specs.{same_eq}
use torpeek.Web.Ticks.Sets.{names, names-nil, names-append, has_index-same}

pub names-cons :
    (f : Spec) (fs : List Spec) (k : ℤ) → names (f ∷ fs) k ≡ (names (f ∷ []) k || names fs k)
unfolding names
names-cons f fs k = ground arith

names-same : (f g : Spec) (k : ℤ) → same g f ≡ true → names (f ∷ []) k ≡ names (g ∷ []) k
names-same f g k e = ap (λ h. names (h ∷ []) k) (sym (same_eq g f e))

-- A file of a list names no more than the list.
names-contains :
    (fs : List Spec) (f : Spec) (k : ℤ)
    → contains_file fs f ≡ true
    → names (f ∷ []) k ≡ true
    → names fs k ≡ true
unfolding contains_file
names-contains [] f k c n = cc
names-contains (g ∷ gs) f k c n =
    ground (arith, names-cons g gs k, names-contains gs f k, names-same f g k)

pub names-with_files :
    (have want : List Spec) (k : ℤ)
    → names (with_files have want) k ≡ (names have k || names want k)
unfolding with_files
names-with_files have [] k = names-nil k (names have k)
names-with_files have (w ∷ want) k = elim (Bool-cases (contains_file have w)) [
  | inl old ↦
      rw (old, names-with_files have want k)
        (ground (arith, names-cons w want k, names-contains have w k old))
  | inr new ↦
      rw (new, names-with_files (have ++ (w ∷ [])) want k)
        (ground (arith, names-cons w want k, names-append have (w ∷ []) k))
]

pub names-without_files :
    (want have : List Spec) (k : ℤ) → names (without_files want have) k ≡ true → names want k ≡ true
unfolding without_files
names-without_files [] have k n = n
names-without_files (w ∷ want) have k n = elim (Bool-cases (contains_file have w)) [
  | inl old ↦ ground (arith, names-cons w want k, names-without_files want have k (rw old at n))
  | inr new ↦ ground (
    arith,
    names-cons w want k,
    names-cons w (without_files want have) k,
    names-without_files want have k,
    rw new at n,
  )
]

pub names-trim : (f : Spec) (k : ℤ) → names (trim_space f ∷ []) k ≡ names (f ∷ []) k
unfolding names
names-trim f k = rw (trim_space-trim_space f) refl

-- A file that the torrent holds names one of its videos.
pub holds-names :
    (row : Row) (f : Spec) (k : ℤ)
    → holds_file row (trim_space f) ≡ true
    → names (f ∷ []) k ≡ true
    → has_index row.videos k ≡ true
unfolding holds_file names
holds-names row f k h n = elim (Option-cases (parse_int (trim_space f))) [
  | inl e ↦ let x : false ≡ true = rw (e, holds_file) at h in cc
  | inr (m, e) ↦
      let held : has_index row.videos m ≡ true = rw (e, holds_file) at h in
      let here : (same_int m k || false) ≡ true = rw (e, names) at n in
      ground (arith, has_index-same row.videos m k, held, here)
]
