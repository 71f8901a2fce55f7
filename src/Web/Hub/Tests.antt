-- ===== src/Web/Hub/Tests.antt =====
-- The hub of internal/web/hub.go at a concrete sequence of calls.
use torpeek.Prelude.{ℕ, ◌≡◌, refl, true, false, List, [], ◌∷◌, map, inl, none}
use torpeek.Web.Hub.{
  Record, Client, Hub, empty_history, publish, append_locked, broadcast_locked, offer, offer_all,
}
use torpeek.Web.Hub.Index.{events, progress_of, last_or}
use torpeek.Web.Hub.History.{replay, replay_lem}
use torpeek.Web.Hub.Consistent.{Call, subscribes, begins, publishes, drops}
use torpeek.Web.Hub.Follow.{Follows, publish_all, publish_all-Follows}

abbrev start : Record
start = record { bytes = 1; progress = false; file = 0 }

abbrev tick : Record
tick = record { bytes = 2; progress = true; file = 0 }

abbrev tock : Record
tock = record { bytes = 3; progress = true; file = 0 }

abbrev frame : Record
frame = record { bytes = 4; progress = false; file = 0 }

abbrev shown : List Record
shown = start ∷ tick ∷ frame ∷ tock ∷ []

replay_lem_example :
    (events (replay empty_history shown).records ≡ events shown)
    × ((f : ℕ)
        → progress_of f (replay empty_history shown).records ≡ last_or [] (progress_of f shown))
replay_lem_example = replay_lem shown

abbrev calls : List Call
calls = subscribes 5 ∷ begins 1 start ∷ begins 2 start ∷ publishes 2 tick ∷ drops 1 ∷ []

abbrev watched : Hub
watched = record {
  head = start;
  runs = λ i. none;
  order = [];
  clients = record { id = 5; sent = []; received = 0 } ∷ [];
  closed = false;
}

abbrev told : Client
told = record { id = 5; sent = 2 ∷ 4 ∷ []; received = 0 }

publish_all-Follows_example :
    Follows (map (λ (r : Record). r.bytes) (tick ∷ frame ∷ [])) watched.clients told
unfolding publish_all publish append_locked broadcast_locked offer offer_all
publish_all-Follows_example = publish_all-Follows watched 2 (tick ∷ frame ∷ []) told refl (inl refl)
