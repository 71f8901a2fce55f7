-- ===== src/Web/Ticks/Report.antt =====
-- What internal/web/server.go tells the page of a row's files: which are ticked, which are being
-- fetched, and which can be taken back.
use torpeek.Prelude.{not, List, [], ◌∷◌, ◌++◌, if◌then◌else◌, none, some}
use torpeek.Prelude.Int.{ℤ, leb_ℤ}
use torpeek.Prelude.Text.{trim_space, parse_int}
use torpeek.Web.Queue.{RunState, queueable, is_running}
use torpeek.Web.Ticks.{Spec, Row, has_index, asks_every_video}

-- `sort.Ints`, as an insertion of each number.
unfoldable pub insert_int : ℤ → List ℤ → List ℤ
insert_int k [] = k ∷ []
insert_int k (n ∷ ns) = let rest = insert_int k ns in if leb_ℤ k n then k ∷ n ∷ ns else n ∷ rest

unfoldable pub sort_ints : List ℤ → List ℤ
unfolding insert_int
sort_ints [] = []
sort_ints (k ∷ ks) = insert_int k (sort_ints ks)

-- The loop of `fileIndices`: `out` is what has been seen, in order.
unfoldable pub indices_loop : List ℤ → List Spec → List ℤ
indices_loop out [] = out
indices_loop out (spec ∷ specs) = elim (parse_int (trim_space spec)) [
  | none ↦ indices_loop out specs
  | some k ↦ indices_loop (if has_index out k then out else out ++ (k ∷ [])) specs
]

unfoldable pub file_indices : List Spec → List ℤ
unfolding indices_loop sort_ints
file_indices specs = sort_ints (indices_loop [] specs)

unfoldable pub ticked : RunState → Row → List ℤ
unfolding file_indices sort_ints
ticked st row =
    if asks_every_video st row
    then sort_ints row.videos
    else file_indices (row.asked ++ row.request.files ++ row.pending)

unfoldable pub narrowable : RunState → Row → List ℤ
unfolding file_indices
narrowable st row = if queueable st then file_indices row.request.files else []

unfoldable pub fetching : RunState → Row → List ℤ
unfolding file_indices sort_ints
fetching st row =
    if not (is_running st)
    then []
    else if asks_every_video st row
    then sort_ints row.videos
    else file_indices row.request.files
