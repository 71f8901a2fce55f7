-- ===== src/Web/TopUp/Asks.antt =====
-- The request of a top-up, internal/web/runs.go, in the words of a row: the files that it names.
use torpeek.Prelude.{
  ℕ, suc, ◌≤◌, ◌≡◌, refl, sym, ap, ◌∙◌, ◌⊎◌, subst, Bool, true, false, not, ◌&&◌, ◌||◌, List, [],
  ◌∷◌, ◌++◌, ◌==◌, ltb, if◌then◌else◌, arith, All, All-append, Option, none, some, Option-cases,
  Bool-cases, inl, inr, ==_iff,
}
use torpeek.Prelude.Int.{ℤ, pos, pos_part, leb_ℤ}
use torpeek.Prelude.Text.{itoa, trim_space}
use torpeek.Prelude.Text.Laws.{
  IsDigit, NoSpace, itoa-IsDigit, digit-not_space, parse_int-itoa, trim_space-NoSpace,
}
use torpeek.Web.Ticks.{is_nil}
use torpeek.Web.Ticks.Sets.{names}
use torpeek.Web.Ticks.Names.{names-cons}
use torpeek.Prelude.Ids.{contains}
use torpeek.Core.File.{Frame, is_failed, is_empty}
use torpeek.Web.TopUp.{
  Receipt, RecordedRun, TopUp, TopUpFile, short, short_specs, top_up_request, captured_frames,
  video_path, absorb, file_of, add_selected, add_all, settle_top_up, of_selection, top_up_for,
  price, no_top_up,
}
use torpeek.Web.TopUp.Laws.{absorb_cost-keeps}

-- Whether number `k` is a file that is short of its plan.
abbrev pub owes : ℕ → List TopUpFile → Bool
owes k [] = false
owes k (f ∷ fs) = (short f && f.index == k) || owes k fs

digits-NoSpace : (cs : List ℕ) → All IsDigit cs → NoSpace cs
digits-NoSpace [] h = tt
digits-NoSpace (c ∷ cs) h = (digit-not_space c h.0, digits-NoSpace cs h.1)

printed_names : (i k : ℕ) → i ≤ 9223372036854775807 → names (itoa i ∷ []) (pos k) ≡ (i == k)
unfolding names
printed_names i k h =
    let trimmed : trim_space (itoa i) ≡ itoa i =
      trim_space-NoSpace (itoa i) (digits-NoSpace (itoa i) (itoa-IsDigit i)) in
    rw (trimmed, parse_int-itoa i h) (ground arith)

no_names : (k : ℤ) → names [] k ≡ false
unfolding names
no_names k = refl

short_specs-names :
    (fs : List TopUpFile) (k : ℕ)
    → All (λ f. f.index ≤ 9223372036854775807) fs
    → names (short_specs fs) (pos k) ≡ owes k fs
unfolding short_specs
short_specs-names [] k h = no_names (pos k)
short_specs-names (f ∷ fs) k h = ground (
  arith,
  names-cons (itoa f.index) (short_specs fs) (pos k),
  printed_names f.index k h.0,
  short_specs-names fs k h.1,
)

-- What is on disk, in words of its own: the frames that were taken, the last path of a video, and whether the
-- video `k` has fewer frames than are planned.
abbrev pub frames_taken : List Frame → ℕ
frames_taken [] = 0
frames_taken (f ∷ fs) =
    if not (is_failed f.shift) && not (is_empty f.path)
    then suc (frames_taken fs)
    else frames_taken fs

abbrev pub path_from : Option (List ℕ) → ℕ → List (ℕ × List ℕ) → Option (List ℕ)
path_from found k [] = found
path_from found k ((j, path) ∷ vs) = path_from (if j == k then some path else found) k vs

abbrev lacks_at : (ℕ → List ℕ → Option Receipt) → ℕ → ℕ → Option (List ℕ) → Bool
lacks_at manifest count k none = false
lacks_at manifest count k (some path) = elim (manifest k path) [
  | none ↦ ltb 0 count
  | some m ↦ ltb (frames_taken m.frames) count
]

abbrev pub lacks : (ℕ → List ℕ → Option Receipt) → List (ℕ × List ℕ) → ℕ → ℕ → Bool
lacks manifest videos count k = lacks_at manifest count k (path_from none k videos)

abbrev pub selection : Option (List ℕ) → List ℕ
selection none = []
selection (some is) = is

captured_frames-taken : (fs : List Frame) → captured_frames fs ≡ frames_taken fs
unfolding captured_frames
captured_frames-taken [] = refl
captured_frames-taken (f ∷ fs) = ground (arith, captured_frames-taken fs)

path_from-video :
    (found : Option (List ℕ)) (k : ℕ) (vs : List (ℕ × List ℕ))
    → path_from found k vs ≡ (elim (video_path k vs) [ none ↦ found | some p ↦ some p ])
unfolding video_path
path_from-video found k [] = refl
path_from-video found k ((j, path) ∷ vs) = elim (Option-cases (video_path k vs)) [
  | inl e ↦
      path_from-video (if j == k then some path else found) k vs
      ∙ rw e (elim (Bool-cases (j == k)) [ inl y ↦ rw y refl | inr n ↦ rw n refl ])
  | inr (p, e) ↦ path_from-video (if j == k then some path else found) k vs ∙ rw e refl
]

owes-append : (k : ℕ) (fs gs : List TopUpFile) → owes k (fs ++ gs) ≡ (owes k fs || owes k gs)
owes-append k [] gs = refl
owes-append k (f ∷ fs) gs = ground (arith, owes-append k fs gs)

module _ (manifest : ℕ → List ℕ → Option Receipt) (videos : List (ℕ × List ℕ)) (count : ℕ) where
  absorb-files : (t : TopUp) (m : Option Receipt) → (absorb t m).files ≡ t.files
  absorb-files t none = refl
  absorb-files t (some m) = (absorb_cost-keeps t m.cost).0

  file_of-owes :
      (i k : ℕ) (path : List ℕ)
      → owes k (file_of count i (manifest i path) ∷ [])
        ≡ (k == i && lacks_at manifest count k (some path))
  unfolding file_of
  file_of-owes i k path = elim (Bool-cases (k == i)) [
    | inr n ↦ elim (Option-cases (manifest i path)) [
      | inl e ↦ rw e (ground (arith, n))
      | inr (m, e) ↦ rw e (ground (arith, n))
    ]
    | inl y ↦
        let same : k ≡ i = (==_iff k i).0 y in
        rw same (elim (Option-cases (manifest i path)) [
          | inl e ↦ rw e (ground arith)
          | inr (m, e) ↦ rw e (ground (arith, captured_frames-taken m.frames))
        ])
  ]

  abbrev or_nothing : Option (List ℕ) → Option (List ℕ)
  or_nothing o = elim o [ none ↦ none | some p ↦ some p ]

  path_here :
      (i k : ℕ) (o : Option (List ℕ))
      → (k == i) ≡ true
      → video_path i videos ≡ o
      → lacks manifest videos count k ≡ lacks_at manifest count k (or_nothing o)
  path_here i k o y e = ap (lacks_at manifest count k) (
      path_from-video none k videos
      ∙ ap (λ n. or_nothing (video_path n videos)) ((==_iff k i).0 y)
      ∙ ap or_nothing e)

  one_more :
      (t : TopUp) (i k : ℕ) (path : List ℕ)
      → owes k (t.files ++ (file_of count i (manifest i path) ∷ []))
        ≡ (owes k t.files || (k == i && lacks_at manifest count k (some path)))
  one_more t i k path =
      owes-append k t.files (file_of count i (manifest i path) ∷ [])
      ∙ ap (λ b. owes k t.files || b) (file_of-owes i k path)

  add_selected-owes :
      (t : TopUp) (i k : ℕ)
      → owes k (add_selected manifest videos count t i).files
        ≡ (owes k t.files || (k == i && lacks manifest videos count k))
  unfolding add_selected
  add_selected-owes t i k = elim (Option-cases (video_path i videos)) [
    | inl e ↦ rw (add_selected, e) (ground (arith, path_here i k none, e))
    | inr (path, e) ↦
        rw (add_selected, e)
          (ap (λ fs. owes k (fs ++ (file_of count i (manifest i path) ∷ [])))
              (absorb-files t (manifest i path))
            ∙ one_more t i k path
            ∙ ap (λ b. owes k t.files || b) (here (Bool-cases (k == i)) e))
  ]
    where
      here :
          {path : List ℕ}
          → ((k == i) ≡ true) ⊎ ((k == i) ≡ false)
          → video_path i videos ≡ some path
          → (k == i && lacks_at manifest count k (some path))
            ≡ (k == i && lacks manifest videos count k)
      here {path} (inl y) e = ap (λ b. k == i && b) (sym (path_here i k (some path) y e))
      here (inr n) e = rw n refl

  add_all-owes :
      (is : List ℕ) (t : TopUp) (k : ℕ)
      → owes k (add_all manifest videos count t is).files
        ≡ (owes k t.files || (contains k is && lacks manifest videos count k))
  unfolding add_all
  add_all-owes [] t k = ground arith
  add_all-owes (i ∷ is) t k =
      ground
        (arith, add_all-owes is (add_selected manifest videos count t i) k, add_selected-owes t i k)

  abbrev AreNumbers : List TopUpFile → Type 0
  AreNumbers fs = All (λ f. f.index ≤ 9223372036854775807) fs

  add_all-numbers :
      (is : List ℕ) (t : TopUp)
      → All (λ i. i ≤ 9223372036854775807) is
      → AreNumbers t.files
      → AreNumbers (add_all manifest videos count t is).files
  unfolding add_all add_selected file_of
  add_all-numbers [] t h n = n
  add_all-numbers (i ∷ is) t (h, hs) n =
      add_all-numbers is (add_selected manifest videos count t i) hs
        (elim (Option-cases (video_path i videos)) [
          | inl e ↦ rw (add_selected, e) n
          | inr (path, e) ↦
              rw (add_selected, e)
                (All-append (λ f. f.index ≤ 9223372036854775807) (absorb t (manifest i path)).files
                  (file_of count i (manifest i path) ∷ [])
                  (subst AreNumbers (sym (absorb-files t (manifest i path))) n)
                  (numbered i (manifest i path) h, tt))
        ])
    where
      numbered :
          (i : ℕ) (m : Option Receipt)
          → i ≤ 9223372036854775807
          → (file_of count i m).index ≤ 9223372036854775807
      numbered i none h = h
      numbered i (some m) h = h

settle-files : (roof_bytes : ℤ) (t : TopUp) → (settle_top_up roof_bytes t).files ≡ t.files
unfolding settle_top_up price
settle-files roof_bytes t = ground arith

-- Once an offer is made, the files are those of the selection.
offered_files :
    (manifest : ℕ → List ℕ → Option Receipt) (roof_bytes : ℤ) (run : RecordedRun)
    → (top_up_for manifest roof_bytes run).refused ≡ none
    → (top_up_for manifest roof_bytes run).files
      ≡ (add_all manifest run.videos (pos_part run.count) no_top_up (selection run.selected)).files
unfolding top_up_for
offered_files manifest roof_bytes run o = elim (Bool-cases (leb_ℤ run.count (pos 0))) [
  | inl y ↦ let never : ⊥ = ground (arith, o, y) in elim never [ ]
  | inr n ↦ elim (Bool-cases (is_nil run.source)) [
    | inl y ↦ let never : ⊥ = ground (arith, o, n, y) in elim never [ ]
    | inr m ↦ rw (n, m, top_up_for) (chosen run.selected)
  ]
]
  where
    chosen :
        (selected : Option (List ℕ))
        → (of_selection manifest roof_bytes run (pos_part run.count) selected).files
          ≡ (add_all manifest run.videos (pos_part run.count) no_top_up (selection selected)).files
    chosen none = refl
    chosen (some is) = settle-files roof_bytes _

-- An offered top-up asks for the selected files of which fewer frames are on disk than the run planned, and for no
-- others: those that were selected, whose path the record of the run knows, and that have no manifest or one with
-- too few frames. They are read back as a row reads the files of any request; the numbers of the selected files
-- are those of a machine word.
pub top_up_request-names :
    (manifest : ℕ → List ℕ → Option Receipt) (roof_bytes : ℤ) (run : RecordedRun) (k : ℕ)
    → All (λ i. i ≤ 9223372036854775807) (selection run.selected)
    → (top_up_for manifest roof_bytes run).refused ≡ none
    → names (top_up_request (top_up_for manifest roof_bytes run) run).files (pos k)
      ≡ (contains k (selection run.selected) && lacks manifest run.videos (pos_part run.count) k)
unfolding top_up_request
top_up_request-names manifest roof_bytes run k h o =
    ap (λ fs. names (short_specs fs) (pos k)) (offered_files manifest roof_bytes run o)
    ∙ short_specs-names _ k (
        add_all-numbers manifest run.videos (pos_part run.count) (selection run.selected) no_top_up
          h tt)
    ∙ add_all-owes manifest run.videos (pos_part run.count) (selection run.selected) no_top_up k
