-- ===== src/Web/Hub.antt =====
-- internal/web/hub.go: the history of every run and the clients that follow it. A run's id, a
-- client and a record's bytes are numbers. A client's channel is what was sent on it and how much
-- of that was received; a closed channel is that of a client that is no longer listed.
mod Index
mod History
mod Consistent
mod Follow
mod Tests
use torpeek.Prelude.{
  ℕ, suc, ◌+◌, ◌-◌, Bool, true, false, ◌&&◌, List, [], ◌∷◌, ◌++◌, ◌==◌, ltb, if◌then◌else◌, length,
  set, Option, none, some, map,
}
use torpeek.Prelude.Ids.{cut}

-- `data` is a word of the language.
pub record Record : Type 0 where
  pub bytes : ℕ
  pub progress : Bool
  pub file : ℕ

pub record RunHistory : Type 0 where
  pub records : List Record
  pub progress_at : ℕ → Option ℕ

pub record Client : Type 0 where
  pub id : ℕ
  pub sent : List ℕ
  pub received : ℕ

pub record Hub : Type 0 where
  pub head : Record
  pub runs : ℕ → Option RunHistory
  pub order : List ℕ
  pub clients : List Client
  pub closed : Bool

abbrev pub client_buffer : ℕ
client_buffer = 512

unfoldable pub empty_history : RunHistory
empty_history = record { records = []; progress_at = λ f. none }

unfoldable pub new_hub : Record → Hub
new_hub head = record { head = head; runs = λ i. none; order = []; clients = []; closed = false }

abbrev pub put_run : (ℕ → Option RunHistory) → ℕ → Option RunHistory → ℕ → Option RunHistory
put_run m i h j = if i == j then h else m j

abbrev pub put_at : (ℕ → Option ℕ) → ℕ → ℕ → ℕ → Option ℕ
put_at m i v j = if i == j then some v else m j

-- A record goes to the end, but a progress record of a file takes the place of the last one.
unfoldable pub append_record : RunHistory → Record → RunHistory
append_record h rec =
    let last = length h.records in
    if rec.progress
    then (elim (h.progress_at rec.file) [
      | some at ↦ record h { records = set h.records at rec }
      | none ↦ record {
        records = h.records ++ (rec ∷ []);
        progress_at = put_at h.progress_at rec.file last;
      }
    ])
    else (record h { records = h.records ++ (rec ∷ []) })

unfoldable pub append_locked : Hub → ℕ → Record → Hub
append_locked h run rec = elim (h.runs run) [
  | none ↦ h
  | some history ↦ record h { runs = put_run h.runs run (some (append_record history rec)) }
]

-- What goes to a client; `none` is a client whose buffer is full, which is dropped.
unfoldable pub offer : ℕ → Client → Option Client
offer bytes c =
    if ltb (length c.sent - c.received) client_buffer
    then some (record c { sent = c.sent ++ (bytes ∷ []) })
    else none

unfoldable pub offer_all : ℕ → List Client → List Client
offer_all bytes [] = []
offer_all bytes (c ∷ cs) = elim (offer bytes c) [
  | some c' ↦ c' ∷ offer_all bytes cs
  | none ↦ offer_all bytes cs
]

unfoldable pub broadcast_locked : Hub → Record → Hub
broadcast_locked h rec = record h { clients = offer_all rec.bytes h.clients }

abbrev pub backlog_of : (ℕ → Option RunHistory) → List ℕ → List ℕ
backlog_of m [] = []
backlog_of m (i ∷ is) = elim (m i) [
  | none ↦ backlog_of m is
  | some h ↦ map (λ (r : Record). r.bytes) h.records ++ backlog_of m is
]

-- The new client, and what it is to be shown first.
unfoldable pub subscribe : Hub → ℕ → Hub × List ℕ
subscribe h id =
    let c : Client = record { id = id; sent = []; received = 0 } in
    if h.closed
    then (h, [])
    else (record h { clients = c ∷ h.clients }, h.head.bytes ∷ backlog_of h.runs h.order)

unfoldable pub drop_client : List Client → ℕ → List Client
drop_client [] id = []
drop_client (c ∷ cs) id = let rest = drop_client cs id in if c.id == id then rest else c ∷ rest

unfoldable pub remove : Hub → ℕ → Hub
unfolding drop_client
remove h id = record h { clients = drop_client h.clients id }

abbrev pub open_run : Hub → ℕ → Hub
open_run h run = elim (h.runs run) [
  | some history ↦ h
  | none ↦ record h {
    runs = put_run h.runs run (some empty_history);
    order = h.order ++ (run ∷ []);
  }
]

unfoldable pub begin : Hub → ℕ → Record → Hub
begin h run rec =
    if h.closed then h else broadcast_locked (append_locked (open_run h run) run rec) rec

unfoldable pub publish : Hub → ℕ → Record → Hub
publish h run rec = if h.closed then h else broadcast_locked (append_locked h run rec) rec

unfoldable pub drop : Hub → ℕ → Hub
drop h run = elim (h.runs run) [
  | none ↦ h
  | some history ↦ record h { runs = put_run h.runs run none; order = cut run h.order }
]

unfoldable pub close : Hub → Hub
close h = if h.closed then h else record h { closed = true; clients = [] }
