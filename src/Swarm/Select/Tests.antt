-- ===== src/Swarm/Select/Tests.antt =====
-- `Select` of internal/swarm/files.go at concrete inputs.
use torpeek.Prelude.{ℕ, ◌≡◌, refl, List, [], ◌∷◌, none, some, if◌then◌else◌}
use torpeek.Prelude.Text.{parse_int, trim_space, has_rune, cut_prefix}
use torpeek.Swarm.Select.{NamedFile, Paths, matches, has_part, keep_all, filter_kept, select}
use torpeek.Swarm.Select.Laws.{each_matches, named_files, is_blank_list, select_lem}

-- Paths without capitals, and no globs.
abbrev plain : Paths
plain = record { match = λ pattern name. none; base = λ path. path; to_lower = λ s. s }

-- Three episodes, `a`, `ab` and `b`, under the numbers 1, 3 and 2.
abbrev episodes : List NamedFile
episodes =
    record { index = 1; path = 97 ∷ [] }
    ∷ record { index = 3; path = 97 ∷ 98 ∷ [] }
    ∷ record { index = 2; path = 98 ∷ [] }
    ∷ []

-- The pattern `b`, and the number 1.
abbrev specs : List (List ℕ)
specs = (98 ∷ []) ∷ (49 ∷ []) ∷ []

select_all : select plain episodes specs ≡ some episodes
unfolding select keep_all filter_kept matches has_part parse_int trim_space has_rune cut_prefix
select_all = refl

select_unknown : select plain episodes ((57 ∷ []) ∷ []) ≡ none
unfolding select keep_all filter_kept matches has_part parse_int trim_space has_rune cut_prefix
select_unknown = refl

-- A blank spec names nothing and is no error.
select_blank : select plain episodes ((32 ∷ []) ∷ []) ≡ some []
unfolding select keep_all filter_kept trim_space
select_blank = refl

select_lem_example : select plain episodes specs ≡ (
    if is_blank_list specs
    then some episodes
    else if each_matches plain episodes specs
    then some (named_files plain episodes episodes specs)
    else none)
unfolding trim_space
select_lem_example = select_lem plain episodes specs (refl, (refl, tt))
