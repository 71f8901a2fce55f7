-- ===== src/Web/TopUp/Laws.antt =====
-- The figures of a top-up, internal/web/runs.go, add up, and its request asks for what is missing.
use torpeek.Prelude.{
  ℕ, ◌+◌, ◌-◌, ◌*◌, ◌≤◌, ◌<◌, ◌≡◌, refl, sym, ◌∙◌, subst, true, false, List, [], ◌∷◌, ◌++◌, ◌==◌,
  arith, Bool-cases, Option-cases, inl, inr, Option, none, some, length, length-append, All,
  All-append,
}
use torpeek.Prelude.Int.{ℤ, pos, pos_part, ltb_ℤ, leb_ℤ, ◌≤ℤ◌}
use torpeek.Core.Budget.TopUp.{top_up_floor}
use torpeek.Web.Ticks.{is_nil}
use torpeek.Web.TopUp.{
  Cost, Receipt, RecordedRun, TopUp, TopUpFile, TopUpRefusal, no_plan, no_source_kept, no_selection,
  add_file, absorb, absorb_cost, absorb_spending, add_selected, add_all, file_of, video_path, price,
  no_top_up, refuse, settle_top_up, of_selection, top_up_for, short_specs, top_up_request,
  above_roof,
}

abbrev Fits : ℕ → TopUpFile → Type 0
Fits count f = (f.planned ≡ count) × (f.captured ≤ f.planned)

pub absorb_cost-keeps :
    (t : TopUp) (c : Cost)
    → ((absorb_cost t c).files ≡ t.files)
      × ((absorb_cost t c).captured ≡ t.captured)
      × ((absorb_cost t c).remaining ≡ t.remaining)
      × ((absorb_cost t c).offer_bytes ≡ t.offer_bytes)
      × ((absorb_cost t c).raise_helps ≡ t.raise_helps)
unfolding absorb_cost absorb_spending
absorb_cost-keeps t c = ground arith

file_of-Fits : (count i : ℕ) (m : Option Receipt) → Fits count (file_of count i m)
unfolding file_of
file_of-Fits count i none = (refl, omega arith)
file_of-Fits count i (some m) = (refl, ground arith)

-- How many frames the files are short of, and whether one is.
abbrev owed : List TopUpFile → ℕ
owed [] = 0
owed (f ∷ fs) = (f.planned - f.captured) + owed fs

owed-append : (fs gs : List TopUpFile) → owed (fs ++ gs) ≡ owed fs + owed gs
owed-append [] gs = omega arith
owed-append (f ∷ fs) gs = omega (arith, owed-append fs gs)

short_specs-owed : (fs : List TopUpFile) → 0 < owed fs → is_nil (short_specs fs) ≡ false
unfolding short_specs
short_specs-owed [] h = ground arith
short_specs-owed (f ∷ fs) h = ground (arith, short_specs-owed fs)

-- The figures of the files that have been looked at.
record Adds (count : ℕ) (t : TopUp) : Type 0 where
  fit : All (Fits count) t.files
  total : t.captured + t.remaining ≡ length t.files * count
  rest : t.remaining ≡ owed t.files
  unpriced : t.offer_bytes ≡ pos 0
  unasked : t.raise_helps ≡ false

add_file-Adds :
    (count : ℕ) (t : TopUp) (f : TopUpFile)
    → Fits count f
    → Adds count t
    → Adds count (add_file t f)
add_file-Adds count t f h v = record {
  fit = All-append (Fits count) t.files (f ∷ []) v.fit (h, tt);
  total =
      ground
        (arith, length-append t.files (f ∷ []), v.total, h.0, h.1, one_more (length t.files) count);
  rest = omega (arith, owed-append t.files (f ∷ []), v.rest);
  unpriced = v.unpriced;
  unasked = v.unasked;
}
  where
    one_more : (n c : ℕ) → (n + 1) * c ≡ n * c + c
    one_more n c = grind arith

absorb-Adds : (count : ℕ) (t : TopUp) (m : Option Receipt) → Adds count t → Adds count (absorb t m)
absorb-Adds count t none v = v
absorb-Adds count t (some m) v =
    let (a, b, c, d, e) = absorb_cost-keeps t m.cost in
    record {
      fit = subst (All (Fits count)) (sym a) v.fit;
      total = rw (a, b, c) v.total;
      rest = rw (a, c) v.rest;
      unpriced = d ∙ v.unpriced;
      unasked = e ∙ v.unasked;
    }

add_all-Adds :
    (manifest : ℕ → List ℕ → Option Receipt) (videos : List (ℕ × List ℕ)) (count : ℕ) (is : List ℕ)
    (t : TopUp)
    → Adds count t
    → Adds count (add_all manifest videos count t is)
unfolding add_all
add_all-Adds manifest videos count [] t v = v
add_all-Adds manifest videos count (i ∷ is) t v =
    add_all-Adds manifest videos count is (add_selected manifest videos count t i)
      (elim (Option-cases (video_path i videos)) [
        | inl e ↦ rw (add_selected, e) v
        | inr (path, e) ↦
            rw (add_selected, e)
              (add_file-Adds count _ _ (file_of-Fits count i (manifest i path))
                (absorb-Adds count t (manifest i path) v))
      ])

-- What pricing leaves alone, and what it offers.
price_lem :
    (roof_bytes : ℤ) (t : TopUp)
    → t.offer_bytes ≡ pos 0
    → t.raise_helps ≡ false
    → let p = price roof_bytes t in
      (p.files ≡ t.files)
      × (p.captured ≡ t.captured)
      × (p.remaining ≡ t.remaining)
      × (ltb_ℤ (pos 0) roof_bytes ≡ true → p.offer_bytes ≤ℤ roof_bytes)
      × (p.raise_helps ≡ false → p.offer_bytes ≡ pos 0)
unfolding price
price_lem roof_bytes t o h = ground (
  arith,
  o,
  h,
  Bool-cases
      (above_roof roof_bytes (top_up_floor (pos t.remaining) (pos t.captured) t.spent_bytes)),
)

-- What is told of a run with a plan of so many frames.
abbrev Told : ℤ → ℕ → TopUp → Type 0
Told roof_bytes count t =
    All (Fits count) t.files
    × (t.captured + t.remaining ≡ length t.files * count)
    × (t.refused ≡ none → is_nil (short_specs t.files) ≡ false)
    × (ltb_ℤ (pos 0) roof_bytes ≡ true → t.offer_bytes ≤ℤ roof_bytes)
    × (t.raise_helps ≡ false → t.offer_bytes ≡ pos 0)

nothing_within : (roof_bytes : ℤ) → ltb_ℤ (pos 0) roof_bytes ≡ true → pos 0 ≤ℤ roof_bytes
nothing_within roof_bytes h = ground arith

none_told :
    (roof_bytes : ℤ) (count : ℕ) (why : TopUpRefusal) → Told roof_bytes count (refuse why no_top_up)
none_told roof_bytes count why =
    (tt, omega arith, (λ e. cc), (λ h. nothing_within roof_bytes h), (λ h. refl))

settle-Told :
    (roof_bytes : ℤ) (count : ℕ) (t : TopUp)
    → Adds count t
    → Told roof_bytes count (settle_top_up roof_bytes t)
unfolding settle_top_up
settle-Told roof_bytes count t v = elim (Bool-cases (is_nil t.files)) [
  | inl y ↦ rw y (
    v.fit,
    v.total,
    (λ e. cc),
    (λ h. rw v.unpriced (nothing_within roof_bytes h)),
    (λ h. v.unpriced),
  )
  | inr n ↦ rw n (elim (Bool-cases (t.remaining == 0)) [
    | inl z ↦ simp z (
      v.fit,
      v.total,
      (λ e. cc),
      (λ h. rw v.unpriced (nothing_within roof_bytes h)),
      (λ h. v.unpriced),
    )
    | inr m ↦ simp m (
        let (f, c, r, within, free) = price_lem roof_bytes t v.unpriced v.unasked in
        (
          subst (All (Fits count)) (sym f) v.fit,
          rw (f, c, r) v.total,
          (λ e. rw f (short_specs-owed t.files (ground (arith, v.rest, m)))),
          within,
          free,
        ))
  ])
]

start-Adds : (count : ℕ) → Adds count no_top_up
start-Adds count = record {
  fit = tt;
  total = omega arith;
  rest = refl;
  unpriced = refl;
  unasked = refl;
}

-- However a run ended and whatever is left of it on disk, the figures of its top-up agree: each file
-- listed is planned for the frames of the run's plan and has at most as many; the frames there and
-- the frames owed make up the plans of all files listed; an offer that is not refused names a file to
-- capture, so the run that takes it never asks for every video of the torrent; it stays within the roof, if
-- there is one, and is nothing unless a raise would help.
pub top_up_for_lem :
    (manifest : ℕ → List ℕ → Option Receipt) (roof_bytes : ℤ) (run : RecordedRun)
    → let t = top_up_for manifest roof_bytes run in
      All (λ f. (f.planned ≡ pos_part run.count) × (f.captured ≤ f.planned)) t.files
      × (t.captured + t.remaining ≡ length t.files * pos_part run.count)
      × (t.refused ≡ none → is_nil (top_up_request t run).files ≡ false)
      × (ltb_ℤ (pos 0) roof_bytes ≡ true → t.offer_bytes ≤ℤ roof_bytes)
      × (t.raise_helps ≡ false → t.offer_bytes ≡ pos 0)
unfolding top_up_for top_up_request
top_up_for_lem manifest roof_bytes run = elim (Bool-cases (leb_ℤ run.count (pos 0))) [
  | inl y ↦ rw (y, top_up_for) (none_told roof_bytes (pos_part run.count) no_plan)
  | inr n ↦ elim (Bool-cases (is_nil run.source)) [
    | inl y ↦ rw (n, y, top_up_for) (none_told roof_bytes (pos_part run.count) no_source_kept)
    | inr m ↦ rw (n, m, top_up_for) (chosen run.selected)
  ]
]
  where
    chosen :
        (selected : Option (List ℕ))
        → Told roof_bytes
            (pos_part run.count)
            (of_selection manifest roof_bytes run (pos_part run.count) selected)
    chosen none = none_told roof_bytes (pos_part run.count) no_selection
    chosen (some is) = settle-Told roof_bytes (pos_part run.count) _ (
        add_all-Adds manifest run.videos (pos_part run.count) is no_top_up
          (start-Adds (pos_part run.count)))
