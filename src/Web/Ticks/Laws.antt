-- ===== src/Web/Ticks/Laws.antt =====
-- An un-tick, UntickFile of internal/web/server.go: what it takes out of a row and what it leaves.
use torpeek.Prelude.{
  ◌≡◌, refl, sym, ap, ◌∙◌, true, false, ◌&&◌, ◌||◌, [], ◌∷◌, arith, ◌⊎◌, if◌then◌else◌, Bool-cases,
  inl, inr, none,
}
use torpeek.Prelude.Text.{same}
use torpeek.Web.Queue.{
  RunState, running, queued, needs_action, is_running, is_needs_action, is_queued, queueable,
}
use torpeek.Web.Ticks.{
  Spec, Row, contains_file, without_files, is_nil, asks_every_video, refuse_untick, untick_row,
  parks,
}
use torpeek.Web.Ticks.Specs.{contains_file-one, contains_file-without_files, same_self, nil_absent}
use torpeek.Web.Ticks.Inv.{IsApart, queueable_idle}

-- A file that an un-tick is accepted for waits for the next pass, or is in a pass that has not started.
refuse_untick-none :
    (st : RunState) (row : Row) (spec : Spec)
    → refuse_untick st row spec ≡ none
    → (contains_file row.pending spec ≡ true)
      ⊎ ((queueable st ≡ true) × (contains_file row.request.files spec ≡ true))
unfolding refuse_untick
refuse_untick-none st row spec e = ground arith

parks_eq :
    (st : RunState) (row : Row) (spec : Spec)
    → parks st row spec ≡ (
        is_queued st
        && contains_file row.request.files spec
        && is_nil (without_files row.request.files (spec ∷ [])))
unfolding parks
parks_eq queued row spec = refl
parks_eq running row spec = refl
parks_eq st row spec = refl

queueable_or : (st : RunState) → queueable st ≡ true → (is_queued st || is_needs_action st) ≡ true
unfolding queueable
queueable_or queued q = refl
queueable_or needs_action q = refl
queueable_or st q = q

behind_named :
    {st : RunState} (row : Row) (spec : Spec)
    → IsApart st row
    → contains_file row.pending spec ≡ true
    → is_nil row.request.files ≡ false
behind_named row spec v m = elim (Bool-cases (is_nil row.request.files)) [
  | inr n ↦ n
  | inl y ↦
      let x : false ≡ true = sym (nil_absent row.pending spec (ap is_nil (v.named y))) ∙ m in cc
]

-- Out of every list, and nothing else out of any of them.
module _ (st : RunState) (row : Row) (spec : Spec) where
  untick_out :
      IsApart st row
      → refuse_untick st row spec ≡ none
      → let row' = untick_row st row spec in
        (contains_file row'.pending spec ≡ false)
        × (contains_file row'.asked spec ≡ false)
        × (contains_file row'.request.files spec ≡ false)
  unfolding untick_row
  untick_out v e = ground (
    arith,
    refuse_untick-none st row spec e,
    contains_file-without_files row.pending (spec ∷ []) spec,
    contains_file-without_files row.asked (spec ∷ []) spec,
    contains_file-without_files row.request.files (spec ∷ []) spec,
    contains_file-one spec spec,
    same_self spec,
    v.apart spec,
  )

  untick_rest :
      (f : Spec)
      → same spec f ≡ false
      → let row' = untick_row st row spec in
        (contains_file row'.pending f ≡ contains_file row.pending f)
        × (contains_file row'.asked f ≡ contains_file row.asked f)
        × (contains_file row'.request.files f ≡ contains_file row.request.files f)
  unfolding untick_row
  untick_rest f d = ground (
    arith,
    contains_file-without_files row.pending (spec ∷ []) f,
    contains_file-without_files row.asked (spec ∷ []) f,
    contains_file-without_files row.request.files (spec ∷ []) f,
    contains_file-one spec f,
  )

  -- The engine's own list is left alone, whatever the un-tick is for.
  untick_running : is_running st ≡ true → (untick_row st row spec).request ≡ row.request
  unfolding untick_row
  untick_running g = elim (Bool-cases (queueable st)) [
    | inl q ↦ let x : false ≡ true = sym (queueable_idle st q) ∙ g in cc
    | inr n ↦ rw n refl
  ]

  -- The state that the row is left in.
  abbrev state_after : RunState
  state_after = if parks st row spec then needs_action else st

  untick_narrow :
      IsApart st row
      → refuse_untick st row spec ≡ none
      → asks_every_video state_after (untick_row st row spec) ≡ false
  unfolding untick_row asks_every_video
  untick_narrow v e = ground (
    arith,
    refuse_untick-none st row spec e,
    parks_eq st row spec,
    queueable_or st,
    v.apart spec,
    behind_named row spec v,
  )

-- What an accepted un-tick does, whichever list the file waits in: the file is in no list of the row, every
-- other file stays where it is, a running pass keeps its request, and the row never comes to ask for every
-- video of the torrent.
pub untick_row_lem :
    (st : RunState) (row : Row) (spec : Spec)
    → IsApart st row
    → refuse_untick st row spec ≡ none
    → let row' = untick_row st row spec in
      ((contains_file row'.pending spec ≡ false)
        × (contains_file row'.asked spec ≡ false)
        × (contains_file row'.request.files spec ≡ false))
      × ((f : Spec)
          → same spec f ≡ false
          → (contains_file row'.pending f ≡ contains_file row.pending f)
            × (contains_file row'.asked f ≡ contains_file row.asked f)
            × (contains_file row'.request.files f ≡ contains_file row.request.files f))
      × (is_running st ≡ true → row'.request ≡ row.request)
      × (asks_every_video (if parks st row spec then needs_action else st) row' ≡ false)
untick_row_lem st row spec v e = (
  untick_out st row spec v e,
  untick_rest st row spec,
  untick_running st row spec,
  untick_narrow st row spec v e,
)
