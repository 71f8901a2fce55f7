-- ===== src/Web/Ticks/Engine.antt =====
-- A row's files, internal/web/server.go, handed to the engine, internal/swarm/files.go: the selection that the
-- engine makes of them.
use torpeek.Prelude.{
  ℕ, ◌≡◌, refl, ap, ◌∙◌, Bool, true, false, ◌&&◌, List, [], ◌∷◌, arith, if◌then◌else◌, Bool-cases,
  Option-cases, inl, inr, none, some, All,
}
use torpeek.Prelude.Ids.{contains}
use torpeek.Prelude.Int.{ℤ, pos}
use torpeek.Prelude.Text.{trim_space, parse_int}
use torpeek.Swarm.Select.{NamedFile, Paths, is_blank, is_index, matches, select}
use torpeek.Swarm.Select.Laws.{
  picks, any_match, all_match, picked_index, picked, is_blank_list, select-picked,
}
use torpeek.Web.Ticks.{Spec, Row, is_nil, has_index, holds_file}
use torpeek.Web.Ticks.Sets.{names}
use torpeek.Web.Ticks.Names.{names-cons}

abbrev pub numbers : List NamedFile → List ℕ
numbers [] = []
numbers (f ∷ fs) = f.index ∷ numbers fs

-- The numbers that the row knows the torrent's files by.
abbrev pub video_numbers : List NamedFile → List ℤ
video_numbers [] = []
video_numbers (f ∷ fs) = pos f.index ∷ video_numbers fs

held_number :
    (row : Row) (s : Spec)
    → holds_file row s ≡ true
    → (n : ℤ) × (parse_int s ≡ some n) × (has_index row.videos n ≡ true)
unfolding holds_file
held_number row s h = elim (Option-cases (parse_int s)) [
  | inl e ↦ let x : false ≡ true = rw (e, holds_file) at h in cc
  | inr (n, e) ↦ (n, e, rw (e, holds_file) at h)
]

unread : (n : ℤ) → parse_int [] ≡ some n → ⊥
unfolding parse_int
unread n e = cc

not_blank : (s : Spec) (n : ℤ) → parse_int s ≡ some n → is_blank s ≡ false
not_blank [] n e = elim (unread n e) [ ]
not_blank (c ∷ cs) n e = refl

matches-number :
    (p : Paths) (f : NamedFile) (s : Spec) (n : ℤ)
    → parse_int s ≡ some n
    → matches p f s ≡ is_index f.index n
unfolding matches
matches-number p f s n e = rw (e, matches) refl

any_match-number :
    (p : Paths) (fs : List NamedFile) (s : Spec) (n : ℤ)
    → parse_int s ≡ some n
    → any_match p fs s ≡ has_index (video_numbers fs) n
unfolding has_index
any_match-number p [] s n e = refl
any_match-number p (f ∷ fs) s n e =
    ground (arith, matches-number p f s n e, any_match-number p fs s n e)

has_index-numbers :
    (fs : List NamedFile) (k : ℕ) (n : ℤ)
    → is_index k n ≡ true
    → has_index (video_numbers fs) n ≡ true
    → contains k (numbers fs) ≡ true
unfolding has_index
has_index-numbers [] k n e i = cc
has_index-numbers (f ∷ fs) k n e i = ground (arith, has_index-numbers fs k n e)

names-number :
    (s : Spec) (n : ℤ) (k : ℕ)
    → parse_int (trim_space s) ≡ some n
    → names (s ∷ []) (pos k) ≡ is_index k n
unfolding names
names-number s n k e = rw (e, names) (ground arith)

no_name : (k : ℤ) → false ≡ names [] k
unfolding names
no_name k = refl

module _ (p : Paths) (files : List NamedFile) (row : Row)
    (known : row.videos ≡ video_numbers files) where
  abbrev Held : List Spec → Type 0
  Held specs = All (λ s. holds_file row (trim_space s) ≡ true) specs

  picks-names :
      (f : NamedFile) (specs : List Spec) → Held specs → picks p f specs ≡ names specs (pos f.index)
  picks-names f [] h = no_name (pos f.index)
  picks-names f (s ∷ specs) h =
      let (n, e, i) = held_number row (trim_space s) h.0 in
      ground (
        arith,
        not_blank (trim_space s) n e,
        matches-number p f (trim_space s) n e,
        names-number s n f.index e,
        names-cons s specs (pos f.index),
        picks-names f specs h.1,
      )

  all_match-Held : (specs : List Spec) → Held specs → all_match p files specs ≡ true
  all_match-Held [] h = refl
  all_match-Held (s ∷ specs) h =
      let (n, e, i) = held_number row (trim_space s) h.0 in
      ground (
        arith,
        any_match-number p files (trim_space s) n e,
        ap (λ vs. has_index vs n) known,
        i,
        all_match-Held specs h.1,
      )

  -- Only the torrent's files are named.
  names-known :
      (specs : List Spec) (k : ℕ)
      → Held specs
      → names specs (pos k) ≡ true
      → contains k (numbers files) ≡ true
  names-known [] k h m = let x : false ≡ true = no_name (pos k) ∙ m in cc
  names-known (s ∷ specs) k h m =
      let (n, e, i) = held_number row (trim_space s) h.0 in
      ground (
        arith,
        names-number s n k e,
        names-cons s specs (pos k),
        names-known specs k h.1,
        has_index-numbers files k n,
        ap (λ vs. has_index vs n) known,
        i,
        m,
      )

  picked_index-names :
      (fs : List NamedFile) (specs : List Spec) (k : ℕ)
      → Held specs
      → picked_index p fs specs k ≡ (contains k (numbers fs) && names specs (pos k))
  picked_index-names [] specs k h = refl
  picked_index-names (f ∷ fs) specs k h =
      ground (arith, picks-names f specs h, picked_index-names fs specs k h)

  numbers-picked :
      (fs : List NamedFile) (specs : List Spec) (k : ℕ)
      → contains k (numbers (picked p files fs specs))
        ≡ (contains k (numbers fs) && picked_index p files specs k)
  numbers-picked [] specs k = refl
  numbers-picked (f ∷ fs) specs k = elim (Bool-cases (picked_index p files specs f.index)) [
    | inl y ↦ rw y (ground (arith, y, numbers-picked fs specs k))
    | inr n ↦ rw n (ground (arith, n, numbers-picked fs specs k))
  ]

  -- When every file that a row names passed the server's test, the engine's selection succeeds, and its files are
  -- those that the row's list names, number by number: what a tick asked for is what a pass captures.
  pub select-Held :
      (specs : List Spec)
      → Held specs
      → is_nil specs ≡ false
      → (out : List NamedFile) × (select p files specs ≡ some out)
        × ((k : ℕ) → contains k (numbers out) ≡ names specs (pos k))
  select-Held specs h n = (
    picked p files files specs,
    select-picked p files specs
        ∙ chosen (is_blank_list specs) (all_match p files specs) (blank-nil specs n)
            (all_match-Held specs h),
    (λ k. ground (
      arith,
      numbers-picked files specs k,
      picked_index-names files specs k h,
      names-known specs k h,
    )),
  )
    where
      chosen :
          (a b : Bool)
          → a ≡ false
          → b ≡ true
          → (if a then some files else if b then some (picked p files files specs) else none)
            ≡ some (picked p files files specs)
      chosen a b e f = ground (arith, e, f)

      blank-nil : (ss : List Spec) → is_nil ss ≡ false → is_blank_list ss ≡ false
      blank-nil [] m = m
      blank-nil (s ∷ ss) m = m
