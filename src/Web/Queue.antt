-- ===== src/Web/Queue.antt =====
-- The run queue of internal/web/server.go and internal/web/runs.go: who waits, who runs, and the
-- width of the queue. A `*runEntry` is an address of `heap`, and an address is also the run's id;
-- `runs` and `order` are the list of the ids that the server knows.
pub mod Keys
pub mod Order
pub mod Handlers
pub mod Inv
pub mod Dispatch
pub mod Preserve
pub mod Steps
pub mod Going
pub mod Laws
mod Tests
use torpeek.Prelude.{
  ℕ, zero, suc, ◌+◌, Bool, true, false, not, ◌&&◌, ◌||◌, List, [], ◌∷◌, ◌==◌, leb, ltb,
  if◌then◌else◌, length,
}
use torpeek.Prelude.Ids.{contains, cut}
use torpeek.Prelude.Int.{ℤ, pos, negsuc, ltb_ℤ, leb_ℤ}

pub data RunState : Type 0 where
  queued running replaying done failed cancelled needs_action : RunState

unfoldable pub final : RunState → Bool
final done = true
final failed = true
final cancelled = true
final _ = false

unfoldable pub queueable : RunState → Bool
queueable queued = true
queueable needs_action = true
queueable _ = false

abbrev pub is_running : RunState → Bool
is_running running = true
is_running _ = false

abbrev pub is_queued : RunState → Bool
is_queued queued = true
is_queued _ = false

abbrev pub is_needs_action : RunState → Bool
is_needs_action needs_action = true
is_needs_action _ = false

-- `Priority` runs from -1 (low) to 1 (high).
unfoldable pub valid : ℤ → Bool
valid p = leb_ℤ (negsuc 0) p && leb_ℤ p (pos 1)

pub record RunEntry : Type 0 where
  pub state : RunState
  pub is_cancelled : Bool
  pub listed : Bool
  pub files : ℕ  -- how many files the request names
  pub priority : ℤ
  pub queue_seq : ℕ
  pub arrival : ℕ

pub record Server : Type 0 where
  pub heap : ℕ → RunEntry
  pub order : List ℕ
  pub waiting : List ℕ
  pub active : List ℕ  -- the keys of the map `running`
  pub max_active : ℕ
  pub queue_seq : ℕ
  pub arrival_seq : ℕ
  pub stopped : Bool
  pub has_lister : Bool

abbrev pub keep_finished_runs : ℕ
keep_finished_runs = 10

-- What the server's collaborators answer: the runner to a start, the lister to a listing.
pub data Listing : Type 0 where
  unlisted : Listing
  videos : ℕ → Listing

abbrev pub update : (ℕ → RunEntry) → ℕ → RunEntry → ℕ → RunEntry
update h i e j = if i == j then e else h j

abbrev pub put : Server → ℕ → RunEntry → Server
put s i e = record s { heap = update s.heap i e }

-- `delete` on a map's keys.
abbrev pub without : ℕ → List ℕ → List ℕ
without i [] = []
without i (j ∷ js) = if i == j then without i js else j ∷ without i js

-- `m[k] = v` on a map's keys.
abbrev pub add_key : ℕ → List ℕ → List ℕ
add_key i js = if contains i js then js else i ∷ js

unfoldable pub queue_before : RunEntry → RunEntry → Bool
queue_before a b =
    if ltb_ℤ a.priority b.priority || ltb_ℤ b.priority a.priority
    then ltb_ℤ b.priority a.priority
    else ltb a.queue_seq b.queue_seq

-- The slice after `entry` went in before the first run that it precedes, or at the end.
unfoldable pub insert_waiting : (ℕ → RunEntry) → ℕ → List ℕ → List ℕ
insert_waiting h i [] = i ∷ []
insert_waiting h i (j ∷ js) =
    if queue_before (h i) (h j) then i ∷ j ∷ js else j ∷ insert_waiting h i js

-- The slice after the first occurrence of the run was cut out.
unfoldable pub drop_waiting : Server → ℕ → Server
drop_waiting s i = record s { waiting = cut i s.waiting }

-- 1 for the head of the queue, 0 for a run that does not wait.
unfoldable pub position_from : ℕ → ℕ → List ℕ → ℕ
position_from n i [] = 0
position_from n i (j ∷ js) = if j == i then n + 1 else position_from (n + 1) i js

unfoldable pub queue_position : Server → ℕ → ℕ
unfolding position_from
queue_position s i = position_from 0 i s.waiting

unfoldable pub enqueue_waiting : Server → ℕ → Server
enqueue_waiting s i =
    let seq = s.queue_seq + 1 in
    let e = s.heap i in
    let h = update s.heap i (record e { queue_seq = seq }) in
    record s { queue_seq = seq; heap = h; waiting = insert_waiting h i s.waiting }

unfoldable pub release_slot : Server → ℕ → Server
release_slot s i = record s { active = without i s.active }

-- `trim` walks the runs from the newest back, and drops the final ones past the first ten.
unfoldable pub trim_from : (ℕ → RunEntry) → ℕ → List ℕ → List ℕ
trim_from h n [] = []
trim_from h n (i ∷ is) =
    let seen = if final (h i).state then n + 1 else n in
    let rest = trim_from h seen is in
    if final (h i).state && ltb keep_finished_runs seen then rest else i ∷ rest

abbrev pub rev : List ℕ → List ℕ → List ℕ
rev [] acc = acc
rev (x ∷ xs) acc = rev xs (x ∷ acc)

unfoldable pub trim : Server → Server
unfolding trim_from final
trim s = record s { order = rev (trim_from s.heap 0 (rev s.order [])) [] }

unfoldable pub needs_listing : Server → RunEntry → Bool
needs_listing s e = s.has_lister && not e.listed && e.files == 0

-- `beginRun`, with the runner's answer: `ok` is false when it returned an error.
unfoldable pub begin_run : Server → ℕ → Bool → Server
unfolding release_slot trim
begin_run s i ok =
    let e = s.heap i in
    if ok
    then (record (put s i (record e { state = running })) { active = add_key i s.active })
    else trim (release_slot (put s i (record e { state = failed })) i)

unfoldable pub begin_listing : Server → ℕ → Server
begin_listing s i =
    let e = s.heap i in
    record (put s i (record e { state = running })) { active = add_key i s.active }

-- One round of the loop, after the tests: the head of the queue leaves it.
unfoldable pub launch : (ℕ → Bool) → Server → ℕ → List ℕ → Server
unfolding begin_listing begin_run needs_listing
launch ok s i rest =
    let s' = record s { waiting = rest } in
    if needs_listing s (s.heap i) then begin_listing s' i else begin_run s' i (ok i)

unfoldable pub may_dispatch : Server → Bool
may_dispatch s = not (s.stopped || leb s.max_active (length s.active))

-- The `for` of `dispatch`. A round shortens the queue by one, so its length is fuel enough.
unfoldable pub dispatch_loop : (ℕ → Bool) → ℕ → Server → Server
dispatch_loop ok zero s = s
dispatch_loop ok (suc n) s = elim s.waiting [
  | [] ↦ s
  | i ∷ rest ↦ elim (may_dispatch s) [ true ↦ dispatch_loop ok n (launch ok s i rest) | false ↦ s ]
]

unfoldable pub dispatch : (ℕ → Bool) → Server → Server
unfolding dispatch_loop launch may_dispatch
dispatch ok s = dispatch_loop ok (length s.waiting) s
