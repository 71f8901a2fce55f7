-- ===== src/Swarm/Select/Laws.antt =====
-- `Select` of internal/swarm/files.go is the filter that its specs describe.
use torpeek.Prelude.{
  Option, ◌∙◌, sym, ℕ, ◌≡◌, refl, ap, Bool, true, false, not, ◌&&◌, ◌||◌, List, [], ◌∷◌, ◌==◌,
  arith, if◌then◌else◌, Bool-cases, inl, inr, none, some, All,
}
use torpeek.Prelude.Ids.{contains}
use torpeek.Prelude.Text.{trim_space}
use torpeek.Swarm.Select.{
  NamedFile, Paths, is_blank, matches, keep_matching, keep_all, filter_kept, kept_files, select,
}

abbrev pub is_blank_list : List (List ℕ) → Bool
is_blank_list [] = true
is_blank_list (s ∷ specs) = false

choice : {b : Bool} → b ≡ true → (x y : Option (List NamedFile)) → (if b then x else y) ≡ x
choice e x y = ground (arith, e)

otherwise : {b : Bool} → b ≡ false → (x y : Option (List NamedFile)) → (if b then x else y) ≡ y
otherwise e x y = ground (arith, e)

module _ (p : Paths) where
  -- Whether a spec, trimmed and not blank, matches the file.
  abbrev pub picks : NamedFile → List (List ℕ) → Bool
  picks f [] = false
  picks f (s ∷ specs) =
      (not (is_blank (trim_space s)) && matches p f (trim_space s)) || picks f specs

  abbrev pub any_match : List NamedFile → List ℕ → Bool
  any_match [] spec = false
  any_match (f ∷ fs) spec = matches p f spec || any_match fs spec

  -- Whether every spec that is not blank matches a file.
  abbrev pub all_match : List NamedFile → List (List ℕ) → Bool
  all_match files [] = true
  all_match files (s ∷ specs) =
      (is_blank (trim_space s) || any_match files (trim_space s)) && all_match files specs

  -- Whether a file of that number is picked.
  abbrev pub picked_index : List NamedFile → List (List ℕ) → ℕ → Bool
  picked_index [] specs k = false
  picked_index (f ∷ fs) specs k = (k == f.index && picks f specs) || picked_index fs specs k

  -- The number of a file that the one spec matches.
  abbrev hit_index : List NamedFile → List ℕ → ℕ → Bool
  hit_index [] spec k = false
  hit_index (f ∷ fs) spec k = (k == f.index && matches p f spec) || hit_index fs spec k

  keep_matching-matched :
      (fs : List NamedFile) (spec keep : List ℕ)
      → (keep_matching p fs spec keep).1 ≡ any_match fs spec
  unfolding keep_matching
  keep_matching-matched [] spec keep = refl
  keep_matching-matched (f ∷ fs) spec keep = ground (arith, keep_matching-matched fs spec keep)

  contains-keep_matching :
      (fs : List NamedFile) (spec keep : List ℕ) (k : ℕ)
      → contains k (keep_matching p fs spec keep).0 ≡ (hit_index fs spec k || contains k keep)
  unfolding keep_matching
  contains-keep_matching [] spec keep k = refl
  contains-keep_matching (f ∷ fs) spec keep k = ground (
    arith,
    contains-keep_matching fs spec (f.index ∷ keep) k,
    contains-keep_matching fs spec keep k,
  )

  picked-cons :
      (fs : List NamedFile) (s : List ℕ) (specs : List (List ℕ)) (k : ℕ)
      → picked_index fs (s ∷ specs) k ≡ (
          (not (is_blank (trim_space s)) && hit_index fs (trim_space s) k)
          || picked_index fs specs k)
  picked-cons [] s specs k = ground arith
  picked-cons (f ∷ fs) s specs k = ground (arith, picked-cons fs s specs k)

  picked_nothing : (fs : List NamedFile) (k : ℕ) → picked_index fs [] k ≡ false
  picked_nothing [] k = refl
  picked_nothing (f ∷ fs) k = ground (arith, picked_nothing fs k)

  keep_all-none :
      (fs : List NamedFile) (specs : List (List ℕ)) (keep : List ℕ)
      → all_match fs specs ≡ false
      → keep_all p fs specs keep ≡ none
  unfolding keep_all
  keep_all-none fs [] keep a = cc
  keep_all-none fs (s ∷ specs) keep a = ground (
    arith,
    keep_matching-matched fs (trim_space s) keep,
    keep_all-none fs specs keep,
    keep_all-none fs specs (keep_matching p fs (trim_space s) keep).0,
  )

  keep_all-some :
      (fs : List NamedFile) (specs : List (List ℕ)) (keep : List ℕ)
      → all_match fs specs ≡ true
      → (kept : List ℕ) × (keep_all p fs specs keep ≡ some kept)
        × ((k : ℕ) → contains k kept ≡ (picked_index fs specs k || contains k keep))
  unfolding keep_all
  keep_all-some fs [] keep a = (keep, refl, λ k. ground (arith, picked_nothing fs k))
  keep_all-some fs (s ∷ specs) keep a = elim (Bool-cases (is_blank (trim_space s))) [
    | inl y ↦
        let (kept, e, h) = keep_all-some fs specs keep (ground arith) in
        rw y (kept, e, λ k. ground (arith, h k, picked-cons fs s specs k, y))
    | inr n ↦
        let hit : any_match fs (trim_space s) ≡ true = ground arith in
        let more = keep_matching p fs (trim_space s) keep in
        let (kept, e, h) = keep_all-some fs specs more.0 (ground arith) in
        rw (n, keep_matching-matched fs (trim_space s) keep, hit)
          (
            kept,
            e,
            λ k. ground (
              arith,
              h k,
              picked-cons fs s specs k,
              contains-keep_matching fs (trim_space s) keep k,
              n,
            ),
          )
  ]

  -- The files whose number is picked, in the order of the torrent.
  abbrev pub picked : List NamedFile → List NamedFile → List (List ℕ) → List NamedFile
  picked all [] specs = []
  picked all (f ∷ fs) specs =
      let rest = picked all fs specs in if picked_index all specs f.index then f ∷ rest else rest

  filter_kept-picked :
      (all fs : List NamedFile) (specs : List (List ℕ)) (kept : List ℕ)
      → ((k : ℕ) → contains k kept ≡ (picked_index all specs k || contains k []))
      → filter_kept kept fs ≡ picked all fs specs
  unfolding filter_kept
  filter_kept-picked all [] specs kept h = refl
  filter_kept-picked all (f ∷ fs) specs kept h =
      ground (arith, h f.index, filter_kept-picked all fs specs kept h)

  -- Blank specs included: a selection is the files whose number one of the specs picks, each once for each place in the torrent and
  -- in its order, if every spec that is not blank matches a file; it is an error if one does not, and all
  -- the files if there is no spec.
  pub select-picked :
      (files : List NamedFile) (specs : List (List ℕ))
      → select p files specs ≡ (
          if is_blank_list specs
          then some files
          else if all_match files specs
          then some (picked files files specs)
          else none)
  unfolding select
  select-picked files [] = refl
  select-picked files (s ∷ specs) = elim (Bool-cases (all_match files (s ∷ specs))) [
    | inr n ↦
        ap (kept_files files) (keep_all-none files (s ∷ specs) [] n)
        ∙ sym (otherwise n (some (picked files files (s ∷ specs))) none)
    | inl y ↦
        let (kept, e, h) = keep_all-some files (s ∷ specs) [] y in
        ap (kept_files files) e
        ∙ ap some (filter_kept-picked files files (s ∷ specs) kept h)
        ∙ sym (choice y (some (picked files files (s ∷ specs))) none)
  ]

  -- The same readings without a word on blank specs.
  abbrev pub IsNamed : List ℕ → Type 0
  IsNamed s = is_blank (trim_space s) ≡ false

  abbrev pub each_matches : List NamedFile → List (List ℕ) → Bool
  each_matches files [] = true
  each_matches files (s ∷ specs) = any_match files (trim_space s) && each_matches files specs

  abbrev pub some_matches : NamedFile → List (List ℕ) → Bool
  some_matches f [] = false
  some_matches f (s ∷ specs) = matches p f (trim_space s) || some_matches f specs

  abbrev pub named_index : List NamedFile → List (List ℕ) → ℕ → Bool
  named_index [] specs k = false
  named_index (f ∷ fs) specs k = (k == f.index && some_matches f specs) || named_index fs specs k

  abbrev pub named_files : List NamedFile → List NamedFile → List (List ℕ) → List NamedFile
  named_files all [] specs = []
  named_files all (f ∷ fs) specs =
      let rest = named_files all fs specs in
      if named_index all specs f.index then f ∷ rest else rest

  all_match-each :
      (files : List NamedFile) (specs : List (List ℕ))
      → All IsNamed specs
      → all_match files specs ≡ each_matches files specs
  all_match-each files [] h = refl
  all_match-each files (s ∷ specs) h = ground (arith, h.0, all_match-each files specs h.1)

  picks-some :
      (f : NamedFile) (specs : List (List ℕ))
      → All IsNamed specs
      → picks f specs ≡ some_matches f specs
  picks-some f [] h = refl
  picks-some f (s ∷ specs) h = ground (arith, h.0, picks-some f specs h.1)

  picked_index-named :
      (fs : List NamedFile) (specs : List (List ℕ)) (k : ℕ)
      → All IsNamed specs
      → picked_index fs specs k ≡ named_index fs specs k
  picked_index-named [] specs k h = refl
  picked_index-named (f ∷ fs) specs k h =
      ground (arith, picks-some f specs h, picked_index-named fs specs k h)

  picked-named :
      (all fs : List NamedFile) (specs : List (List ℕ))
      → All IsNamed specs
      → picked all fs specs ≡ named_files all fs specs
  picked-named all [] specs h = refl
  picked-named all (f ∷ fs) specs h =
      ground (arith, picked_index-named all specs f.index h, picked-named all fs specs h)

  -- For specs none of which is blank: a selection is the files whose number one of the specs matches, each once for
  -- each place in the torrent and in its order; it is an error if one of the specs matches no file, and all the
  -- files if there is no spec.
  pub select_lem :
      (files : List NamedFile) (specs : List (List ℕ))
      → All IsNamed specs
      → select p files specs ≡ (
          if is_blank_list specs
          then some files
          else if each_matches files specs
          then some (named_files files files specs)
          else none)
  select_lem files specs h =
      select-picked files specs
      ∙ rw (all_match-each files specs h) (rw (picked-named files files specs h) refl)
