-- ===== src/Swarm/Select.antt =====
-- Which files of a torrent a request names, internal/swarm/files.go. What `strings.ToLower`, `path.Base`
-- and `path.Match` answer are parameters; a pattern that `path.Match` cannot read is `none`.
pub mod Laws
mod Tests
use torpeek.Prelude.{
  ℕ, Bool, true, false, not, ◌&&◌, ◌||◌, List, [], ◌∷◌, ◌++◌, ◌==◌, if◌then◌else◌, Option, none,
  some,
}
use torpeek.Prelude.Ids.{contains}
use torpeek.Prelude.Int.{ℤ, pos, pos_part, neg_part}
use torpeek.Prelude.Text.{cut_prefix, has_rune, trim_space, parse_int}

pub record NamedFile : Type 0 where
  pub index : ℕ
  pub path : List ℕ

-- `path.Match`, `path.Base` and `strings.ToLower`.
pub record Paths : Type 0 where
  pub match : List ℕ → List ℕ → Option Bool
  pub base : List ℕ → List ℕ
  pub to_lower : List ℕ → List ℕ

abbrev pub is_blank : List ℕ → Bool
is_blank [] = true
is_blank (c ∷ cs) = false

abbrev is_some : Option (List ℕ) → Bool
is_some none = false
is_some (some x) = true

-- `strings.Contains`.
unfoldable pub has_part : List ℕ → List ℕ → Bool
has_part [] part = is_some (cut_prefix [] part)
has_part (c ∷ cs) part = is_some (cut_prefix (c ∷ cs) part) || has_part cs part

abbrev pub is_index : ℕ → ℤ → Bool
is_index i n = i == pos_part n && neg_part n == 0

abbrev is_glob : List ℕ → Bool
is_glob spec = has_rune 42 spec || has_rune 63 spec || has_rune 91 spec

abbrev agrees : Option Bool → Bool
agrees none = false
agrees (some b) = b

unfoldable pub matches_pattern : Paths → NamedFile → List ℕ → Bool
matches_pattern p f spec =
    let pattern = p.to_lower spec in
    let full = p.to_lower f.path in
    if is_glob pattern
    then agrees (p.match pattern full) || agrees (p.match pattern (p.to_lower (p.base f.path)))
    else has_part full pattern

unfoldable pub matches : Paths → NamedFile → List ℕ → Bool
unfolding matches_pattern
matches p f spec = elim (parse_int spec) [
  | some n ↦ is_index f.index n
  | none ↦ matches_pattern p f spec
]

-- The files that one spec names go into the set, and whether there was one.
unfoldable pub keep_matching : Paths → List NamedFile → List ℕ → List ℕ → List ℕ × Bool
keep_matching p [] spec keep = (keep, false)
keep_matching p (f ∷ fs) spec keep =
    let hit = keep_matching p fs spec (f.index ∷ keep) in
    let miss = keep_matching p fs spec keep in if matches p f spec then (hit.0, true) else miss

unfoldable pub keep_all : Paths → List NamedFile → List (List ℕ) → List ℕ → Option (List ℕ)
unfolding keep_matching
keep_all p files [] keep = some keep
keep_all p files (s ∷ specs) keep =
    let spec = trim_space s in
    let (kept, matched) = keep_matching p files spec keep in
    let past = keep_all p files specs keep in
    let more = keep_all p files specs kept in
    if is_blank spec then past else if matched then more else none

unfoldable pub filter_kept : List ℕ → List NamedFile → List NamedFile
filter_kept keep [] = []
filter_kept keep (f ∷ fs) =
    let rest = filter_kept keep fs in if contains f.index keep then f ∷ rest else rest

abbrev pub kept_files : List NamedFile → Option (List ℕ) → Option (List NamedFile)
kept_files files none = none
kept_files files (some keep) = some (filter_kept keep files)

-- `Select`; `none` is `ErrNoFileMatch`.
unfoldable pub select : Paths → List NamedFile → List (List ℕ) → Option (List NamedFile)
select p files [] = some files
select p files (s ∷ specs) = kept_files files (keep_all p files (s ∷ specs) [])
