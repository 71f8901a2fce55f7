-- ===== src/Web/Ticks/Tests.antt =====
-- The choice of files of internal/web/server.go at concrete inputs.
use torpeek.Prelude.{
  ℕ, ◌≡◌, refl, Bool, true, false, not, ◌&&◌, ◌||◌, ◌==◌, if◌then◌else◌, [], ◌∷◌, none, some, subst,
  arith, List,
}
use torpeek.Prelude.Int.{pos}
use torpeek.Prelude.Ids.{contains}
use torpeek.Prelude.Text.{same, trim_space, parse_int}
use torpeek.Web.Queue.{RunEntry, running, done, queueable, is_running, dispatch, insert_waiting}
use torpeek.Web.Queue.Handlers.{admit}
use torpeek.Web.Queue.Steps.{new_server}
use torpeek.Web.Ticks.{
  Spec, Row, Request, holds_file, contains_file, has_index, asks_every_video, refuse_untick,
  untick_row, tick_row, parks, is_nil,
}
use torpeek.Web.Ticks.Handlers.{
  Registry, run_state, start_row, learn, decide_run, pump_row, new_row,
}
use torpeek.Web.Ticks.Report.{ticked}
use torpeek.Web.Ticks.Sets.{names}
use torpeek.Web.Ticks.Specs.{same_eq}
use torpeek.Web.Ticks.Inv.{IsApart}
use torpeek.Web.Ticks.Keeps.{Sound}
use torpeek.Web.Ticks.Steps.{
  Moves, here, next, starts, learns, ticks, new_registry, reachable-Sound,
}
use torpeek.Web.Ticks.Union.{decide_run-ticked}
use torpeek.Web.Ticks.Laws.{untick_row_lem}
use torpeek.Swarm.Select.{NamedFile, Paths, select}
use torpeek.Web.Ticks.Engine.{numbers, select-Held}
use torpeek.Web.Ticks.Pass.{pump_row_lem}

abbrev accept : ℕ → Bool
accept i = true

abbrev blank : ℕ → RunEntry
blank i = record {
  state = done;
  is_cancelled = false;
  listed = false;
  files = 0;
  priority = pos 0;
  queue_seq = 0;
  arrival = 0;
}

-- The file that a page calls `1`, and those that it calls `2` and `3`.
abbrev one : Spec
one = 49 ∷ []

abbrev two : Spec
two = 50 ∷ []

abbrev three : Spec
three = 51 ∷ []

abbrev request : Request
request = record {
  source = 109 ∷ [];
  label = [];
  files = one ∷ [];
  count = pos 5;
  max_bytes = pos 0;
}

abbrev no_rows : ℕ → Row
no_rows i = new_row request

-- Run 7 is started for the file 1 of a torrent with three videos; the file 2 is ticked while it is going.
abbrev empty : Registry
empty = new_registry 1 false blank no_rows

abbrev going : Registry
going = (start_row accept empty 7 request).0

abbrev informed : Registry
informed = learn going 7 (pos 1 ∷ pos 2 ∷ pos 3 ∷ []) (97 ∷ [])

abbrev ticked_two : Registry
ticked_two = (decide_run accept informed (some 7) (two ∷ []) (pos 0)).0

ticked_two-lists : ((ticked_two.rows 7).pending ≡ two ∷ []) × (run_state ticked_two 7 ≡ running)
unfolding decide_run learn start_row new_server trim_space dispatch admit insert_waiting holds_file
    parse_int has_index asks_every_video contains_file same
ticked_two-lists = (refl, refl)

ticked_two-Moves : Moves empty ticked_two
unfolding start_row new_server
ticked_two-Moves =
    next
      (next (next here (starts accept 7 request refl))
        (learns 7 (pos 1 ∷ pos 2 ∷ pos 3 ∷ []) (97 ∷ [])))
      (ticks accept (some 7) (two ∷ []) (pos 0))

reachable-Sound_example : Sound ticked_two
reachable-Sound_example = reachable-Sound 1 false blank no_rows ticked_two-Moves

known_two : contains 7 ticked_two.queue.order ≡ true
unfolding decide_run learn start_row new_server trim_space dispatch admit insert_waiting holds_file
    parse_int has_index asks_every_video contains_file same
known_two = refl

decide_run-ticked_example :
    has_index (ticked (run_state ticked_two 7) (ticked_two.rows 7)) (pos 2) ≡ (
      has_index (ticked (run_state informed 7) (informed.rows 7)) (pos 2)
      || names (two ∷ []) (pos 2))
unfolding decide_run learn start_row new_server trim_space dispatch admit insert_waiting holds_file
    parse_int has_index asks_every_video contains_file same
decide_run-ticked_example = decide_run-ticked accept informed 7 (two ∷ []) (pos 0) (pos 2) refl

-- The row of run 7 as it stands then.
abbrev row_two : Row
row_two = record {
  request = request;
  asked = two ∷ [];
  pending = two ∷ [];
  videos = pos 1 ∷ pos 2 ∷ pos 3 ∷ [];
  info_hash = 97 ∷ [];
}

row_two-IsApart : IsApart running row_two
unfolding contains_file same
row_two-IsApart = record {
  behind = λ h. cc;
  named = λ h. cc;
  apart =
      λ f m. subst (λ g. contains_file (one ∷ []) g ≡ false) (same_eq two f (ground arith)) refl;
  was_asked = λ f m. m;
  once = (refl, tt);
}

untick_row_lem_example :
    let row' = untick_row running row_two two in
    ((contains_file row'.pending two ≡ false)
      × (contains_file row'.asked two ≡ false)
      × (contains_file row'.request.files two ≡ false))
    × ((f : Spec)
        → same two f ≡ false
        → (contains_file row'.pending f ≡ contains_file row_two.pending f)
          × (contains_file row'.asked f ≡ contains_file row_two.asked f)
          × (contains_file row'.request.files f ≡ contains_file row_two.request.files f))
    × (is_running running ≡ true → row'.request ≡ row_two.request)
    × (asks_every_video running row' ≡ false)
unfolding refuse_untick parks contains_file same
untick_row_lem_example = untick_row_lem running row_two two row_two-IsApart refl

pump_row_lem_example :
    let r' = pump_row accept ticked_two 7 [] 8 in
    let row = ticked_two.rows 7 in
    let again =
      not (is_nil row.pending)
      && not (ticked_two.queue.heap 7).is_cancelled
      && not ticked_two.queue.stopped in
    ((contains 7 r'.queue.waiting || contains 7 r'.queue.active) ≡ again)
    × ((r'.rows 7).request ≡ (
        let req = row.request in
        if again then (record req { files = row.pending; max_bytes = pos 0 }) else req))
    × ((r'.rows 7).pending ≡ [])
    × ((j : ℕ) → (7 == j) ≡ false → r'.rows j ≡ ticked_two.rows j)
    × ((j : ℕ)
        → (7 == j) ≡ false
        → contains j ticked_two.queue.active ≡ true
        → contains j r'.queue.active ≡ true)
unfolding decide_run learn start_row new_server trim_space dispatch admit insert_waiting holds_file
    parse_int has_index asks_every_video contains_file same
pump_row_lem_example = pump_row_lem accept ticked_two 7 [] 8 reachable-Sound_example.queue refl refl

-- A second pass is going for the file 3, and the first had taken the file 2.
abbrev second_pass : Row
second_pass = record {
  request = let req = request in record req { files = three ∷ [] };
  asked = two ∷ three ∷ [];
  pending = [];
  videos = pos 1 ∷ pos 2 ∷ pos 3 ∷ [];
  info_hash = 97 ∷ [];
}

-- Ticked once more, the file 2 waits for a third pass; un-ticked, it is no longer counted as asked for.
ticked_once_more :
    ((tick_row running second_pass (two ∷ []) (pos 0)).0.pending ≡ two ∷ [])
    × ((untick_row running (tick_row running second_pass (two ∷ []) (pos 0)).0 two).asked
        ≡ three ∷ [])
unfolding tick_row untick_row contains_file same queueable
ticked_once_more = (refl, refl)

-- The torrent of run 7, as the engine sees it.
abbrev three_files : List NamedFile
three_files =
    record { index = 1; path = 97 ∷ [] }
    ∷ record { index = 2; path = 98 ∷ [] }
    ∷ record { index = 3; path = 99 ∷ [] }
    ∷ []

abbrev plain : Paths
plain = record { match = λ pattern name. none; base = λ path. path; to_lower = λ s. s }

select-Held_example :
    (out : List NamedFile) × (select plain three_files (three ∷ one ∷ []) ≡ some out)
    × ((k : ℕ) → contains k (numbers out) ≡ names (three ∷ one ∷ []) (pos k))
unfolding holds_file has_index trim_space parse_int
select-Held_example =
    select-Held plain three_files row_two refl (three ∷ one ∷ []) (refl, (refl, tt)) refl
