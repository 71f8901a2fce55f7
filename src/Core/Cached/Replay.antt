-- ===== src/Core/Cached/Replay.antt =====
-- What a replay, internal/core/cached.go, says of a run, against what the run itself said.
use torpeek.Prelude.{
  ℕ, ◌+◌, ◌≡◌, refl, sym, Bool, true, false, List, [], ◌∷◌, ◌++◌, map, if◌then◌else◌, All, none,
  inl, inr, ◌∙◌, ap, Bool-cases,
}
use mathlib.Core.List.{append-nil as append_nil}
use torpeek.Prelude.Int.{ℤ, pos, ◌*ℤ◌, wrap64}
use torpeek.Swarm.Torrent.{FileInfo, Torrent}
use torpeek.Core.Budget.{Floats, BudgetTracker}
use torpeek.Core.File.{Frame, Shift, marked, failed, milliseconds, is_failed, is_empty}
use torpeek.Core.File.Told.{Told, told_of, failure, announced, RecordOf, told-marked}
use torpeek.Core.File.Loop.{FileWorld, work_points}
use torpeek.Core.File.Points.{RecordsOf, count_failed, state_of}
use torpeek.Core.File.Filed.{work_points_lem}
use torpeek.Core.Cached.{
  CachedEvent, metadata_ready, file_started, frame_ready, frame_skipped, file_done, done,
  run_failed, is_gap, replay_frame, count_produced, replay_file,
}

-- What the events of a replay say of points, in order.
abbrev pub replayed : List CachedEvent → List Told
replayed [] = []
replayed (frame_ready e ∷ es) =
    record { index = e.index; shift = e.shift; path = e.path; size = e.size; error = none }
    ∷ replayed es
replayed (frame_skipped file index requested code ∷ es) =
    record { index = index; shift = failed; path = []; size = (0, 0); error = code } ∷ replayed es
replayed (metadata_ready videos selected ∷ es) = replayed es
replayed (file_started file plan ∷ es) = replayed es
replayed (file_done file frames skipped ∷ es) = replayed es
replayed (done files frames ∷ es) = replayed es
replayed (run_failed code ∷ es) = replayed es

replayed-append : (xs ys : List CachedEvent) → replayed (xs ++ ys) ≡ replayed xs ++ replayed ys
replayed-append [] ys = refl
replayed-append (frame_ready e ∷ xs) ys =
    ap
      (λ zs.
        record { index = e.index; shift = e.shift; path = e.path; size = e.size; error = none }
        ∷ zs)
      (replayed-append xs ys)
replayed-append (frame_skipped file index requested code ∷ xs) ys =
    ap (λ zs. record { index = index; shift = failed; path = []; size = (0, 0); error = code } ∷ zs)
      (replayed-append xs ys)
replayed-append (metadata_ready videos selected ∷ xs) ys = replayed-append xs ys
replayed-append (file_started file plan ∷ xs) ys = replayed-append xs ys
replayed-append (file_done file frames skipped ∷ xs) ys = replayed-append xs ys
replayed-append (done files frames ∷ xs) ys = replayed-append xs ys
replayed-append (run_failed code ∷ xs) ys = replayed-append xs ys

-- A frame that was taken has a path.
abbrev pub HasPath : Frame → Type 0
HasPath r = is_failed r.shift ≡ false → is_empty r.path ≡ false

-- Whether a record is a gap, and what a replay says of it.
abbrev Faithful : ℕ → Frame → Type 0
Faithful file r =
    (is_gap r ≡ is_failed r.shift) × (replayed (replay_frame file r ∷ []) ≡ told_of r ∷ [])

failed-eq : (sh : Shift) → is_failed sh ≡ true → sh ≡ failed
failed-eq (marked reason) h = cc
failed-eq failed h = refl

frame-Faithful :
    (file : ℕ) (r : Frame) → is_failed r.shift ≡ false → is_empty r.path ≡ false → Faithful file r
frame-Faithful file r h k = (
  rw h (rw k refl),
  rw h (
      rw k (
        ap
          (λ e.
            record { index = r.index; shift = r.shift; path = r.path; size = r.size; error = e }
            ∷ [])
          (sym (told-marked r.shift r.error h)))),
)

gap-Faithful :
    (file : ℕ) (r : Frame)
    → is_failed r.shift ≡ true
    → r.path ≡ []
    → r.size ≡ (0, 0)
    → Faithful file r
gap-Faithful file r h k l = (
  rw h refl,
  rw h (
      sym (
        ap
          (λ sh.
            record {
              index = r.index;
              shift = sh;
              path = r.path;
              size = r.size;
              error = failure sh r.error;
            }
            ∷ [])
          (failed-eq r.shift h)
        ∙ ap
            (λ p.
              record { index = r.index; shift = failed; path = p; size = r.size; error = r.error }
              ∷ [])
            k
        ∙ ap
            (λ z.
              record { index = r.index; shift = failed; path = []; size = z; error = r.error } ∷ [])
            l)),
)

record-Faithful : (file i : ℕ) (at : ℤ) (r : Frame) → RecordOf i at r → HasPath r → Faithful file r
record-Faithful file i at r (a, b, inl (c, d)) h = frame-Faithful file r c (h c)
record-Faithful file i at r (a, b, inr (c, d, e, g, k)) h = gap-Faithful file r c e g

count_cases :
    (a b : Bool) (m n : ℕ) → a ≡ b → m ≡ n → (if a then m else m + 1) ≡ (if b then n else n + 1)
count_cases a b m n e h = ap (λ c. if c then m else m + 1) e ∙ ap (λ k. if b then k else k + 1) h

frames-replayed :
    (file i : ℕ) (ats : List ℤ) (rs : List Frame)
    → RecordsOf i ats rs
    → All HasPath rs
    → (replayed (map (replay_frame file) rs) ≡ map told_of rs)
      × (count_produced rs ≡ count_failed false rs)
unfolding count_produced
frames-replayed file i ats [] h k = (refl, refl)
frames-replayed file i [] (r ∷ rs) h k = elim h [ ]
frames-replayed file i (at ∷ ats) (r ∷ rs) (h, hs) (k, ks) =
    let (gap, says) = record-Faithful file i at r h k in
    let (rest, count) = frames-replayed file (i + 1) ats rs hs ks in
    (
      replayed-append (replay_frame file r ∷ []) (map (replay_frame file) rs)
          ∙ ap (λ xs. xs ++ replayed (map (replay_frame file) rs)) says
          ∙ ap (λ xs. told_of r ∷ xs) rest,
      count_cases (is_gap r) (is_failed r.shift) (count_produced rs) (count_failed false rs) gap
          count,
    )

-- The times that the events of a replay give for the points, in order.
abbrev pub requests : List CachedEvent → List ℤ
requests [] = []
requests (frame_ready e ∷ es) = e.requested ∷ requests es
requests (frame_skipped file index requested code ∷ es) = requested ∷ requests es
requests (metadata_ready videos selected ∷ es) = requests es
requests (file_started file plan ∷ es) = requests es
requests (file_done file frames skipped ∷ es) = requests es
requests (done files frames ∷ es) = requests es
requests (run_failed code ∷ es) = requests es

requests-append : (xs ys : List CachedEvent) → requests (xs ++ ys) ≡ requests xs ++ requests ys
requests-append [] ys = refl
requests-append (frame_ready e ∷ xs) ys = ap (λ zs. e.requested ∷ zs) (requests-append xs ys)
requests-append (frame_skipped file index requested code ∷ xs) ys =
    ap (λ zs. requested ∷ zs) (requests-append xs ys)
requests-append (metadata_ready videos selected ∷ xs) ys = requests-append xs ys
requests-append (file_started file plan ∷ xs) ys = requests-append xs ys
requests-append (file_done file frames skipped ∷ xs) ys = requests-append xs ys
requests-append (done files frames ∷ xs) ys = requests-append xs ys
requests-append (run_failed code ∷ xs) ys = requests-append xs ys

-- The counts of the last `file_done`: frames, and skipped points.
abbrev pub file_counts : List CachedEvent → ℕ × ℕ → ℕ × ℕ
file_counts [] c = c
file_counts (file_done file frames skipped ∷ es) c = file_counts es (frames, skipped)
file_counts (frame_ready e ∷ es) c = file_counts es c
file_counts (frame_skipped file index requested code ∷ es) c = file_counts es c
file_counts (metadata_ready videos selected ∷ es) c = file_counts es c
file_counts (file_started file plan ∷ es) c = file_counts es c
file_counts (done files frames ∷ es) c = file_counts es c
file_counts (run_failed code ∷ es) c = file_counts es c

-- The time of a point, a nanosecond count, cut to whole milliseconds.
abbrev pub whole_milliseconds : ℤ → ℤ
whole_milliseconds at = wrap64 (milliseconds at *ℤ pos 1000000)

-- The first points, one for each record.
abbrev pub recorded_points : List Frame → List ℤ → List ℤ
recorded_points [] ats = []
recorded_points (r ∷ rs) [] = []
recorded_points (r ∷ rs) (at ∷ ats) = at ∷ recorded_points rs ats

request_of :
    (file : ℕ) (r : Frame)
    → requests (replay_frame file r ∷ []) ≡ wrap64 (r.requested_ms *ℤ pos 1000000) ∷ []
request_of file r = elim (Bool-cases (is_gap r)) [ inl y ↦ rw y refl | inr n ↦ rw n refl ]

frames-requests :
    (file i : ℕ) (ats : List ℤ) (rs : List Frame)
    → RecordsOf i ats rs
    → requests (map (replay_frame file) rs) ≡ map whole_milliseconds (recorded_points rs ats)
frames-requests file i ats [] h = refl
frames-requests file i [] (r ∷ rs) h = elim h [ ]
frames-requests file i (at ∷ ats) (r ∷ rs) ((a, ms, c), hs) =
    requests-append (replay_frame file r ∷ []) (map (replay_frame file) rs)
    ∙ ap (λ xs. xs ++ requests (map (replay_frame file) rs)) (request_of file r)
    ∙ ap (λ m. wrap64 (m *ℤ pos 1000000) ∷ requests (map (replay_frame file) rs)) ms
    ∙ ap (λ xs. whole_milliseconds at ∷ xs) (frames-requests file (i + 1) ats rs hs)

frame_counts :
    (file : ℕ) (r : Frame) (es : List CachedEvent) (c : ℕ × ℕ)
    → file_counts (replay_frame file r ∷ es) c ≡ file_counts es c
frame_counts file r es c = elim (Bool-cases (is_gap r)) [ inl y ↦ rw y refl | inr n ↦ rw n refl ]

frames-counts :
    (file : ℕ) (rs : List Frame) (n k : ℕ) (c : ℕ × ℕ)
    → file_counts (map (replay_frame file) rs ++ (file_done file n k ∷ [])) c ≡ (n, k)
frames-counts file [] n k c = refl
frames-counts file (r ∷ rs) n k c =
    frame_counts file r (map (replay_frame file) rs ++ (file_done file n k ∷ [])) c
    ∙ frames-counts file rs n k c

-- A file that is replayed from the records of a run, if each frame that was taken has a path: the index, the shift,
-- the path, the size and the error of each point are those that the run said, in the same order. The time that
-- was asked for is the plan's, cut to whole milliseconds, while the run said it in nanoseconds. The count of
-- frames at the end is the run's, and the count of skipped points is 0 whatever the run's was. When a frame was
-- taken, and what is said beside the points, is not compared.
pub replay_file-announced :
    (f : Floats) (w : FileWorld) (file : FileInfo) (tracker : BudgetTracker f) (torrent : Torrent)
    (points : List ℤ) (duration : ℤ)
    → let s = state_of f (work_points f w file tracker torrent points duration) in
      let replay = replay_file (record { file = file.index; frames = s.records }) in
      All HasPath s.records
      → (replayed replay ≡ announced s.events)
        × (requests replay ≡ map whole_milliseconds (recorded_points s.records points))
        × (file_counts replay (0, 0) ≡ (s.produced, 0))
unfolding replay_file
replay_file-announced f w file tracker torrent points duration paths =
    let s = state_of f (work_points f w file tracker torrent points duration) in
    let (of_points, told, counts, lost, cause) =
      work_points_lem f w file tracker torrent points duration in
    let (says, count) = frames-replayed file.index 0 points s.records of_points paths in
    let last = file_done file.index (count_produced s.records) 0 ∷ [] in
    (
      replayed-append (map (replay_frame file.index) s.records) last
          ∙ append_nil (replayed (map (replay_frame file.index) s.records))
          ∙ says
          ∙ sym told,
      requests-append (map (replay_frame file.index) s.records) last
          ∙ append_nil (requests (map (replay_frame file.index) s.records))
          ∙ frames-requests file.index 0 points s.records of_points,
      frames-counts file.index s.records (count_produced s.records) 0 (0, 0)
          ∙ ap (λ n. (n, 0)) (count ∙ sym counts),
    )
