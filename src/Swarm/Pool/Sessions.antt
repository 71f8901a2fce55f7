-- ===== src/Swarm/Pool/Sessions.antt =====
-- The sessions of internal/swarm/session.go, as far as the pool uses them: the port they bind, the
-- torrents they are given, and their end.
use torpeek.Prelude.{
  ℕ, Bool, true, false, not, ◌&&◌, List, [], ◌∷◌, ◌++◌, ◌==◌, if◌then◌else◌, length, get_elem?, set,
  Option, none, some,
}
use torpeek.Swarm.Ports.{PortPool, acquire, release, port_of}
use torpeek.Swarm.Pool.{
  Source, privacy_in_hand, Fetched, rejected, silent, metadata, World, Added, Session, Pool,
  no_port, port_twice, not_started, session_closed, private_on_dht, not_added, no_metadata, M, ok,
  err, Result,
}

-- A settled port, with the lease that it came from.
pub record PortClaim : Type 0 where
  pub lease : Option ℕ
  pub port : ℕ

unfoldable pub lease_port : M PortClaim
lease_port p = elim p.ports [
  | none ↦ (p, ok (record { lease = none; port = p.listen_port }))
  | some pool ↦ if not (p.listen_port == 0) then (p, err port_twice) else (elim (acquire pool).1 [
    | none ↦ (p, err no_port)
    | some id ↦ (
      record p { ports = some (acquire pool).0 },
      ok (record { lease = some id; port = port_of (acquire pool).0 id }),
    )
  ])
]

abbrev pub release_in : Option PortPool → Option ℕ → Option PortPool
release_in (some pool) (some id) = some (release pool id)
release_in (some pool) none = some pool
release_in none lease = none

unfoldable pub release_lease : Option ℕ → M (Unit {0})
release_lease lease p = (record p { ports = release_in p.ports lease }, ok tt)

-- The number of the new session.
unfoldable pub new_session : World → Bool → Bool → ℕ → M ℕ
new_session w dht blindly port p =
    let s : Session = record {
      dht_on = dht;
      blindly = blindly;
      port = port;
      lease = none;
      up = true;
      received = 0;
      torrents = [];
    } in
    if w.starts (length p.sessions)
    then (record p { sessions = p.sessions ++ (s ∷ []) }, ok (length p.sessions))
    else (p, err not_started)

abbrev pub put_session : Pool → ℕ → Session → Pool
put_session p id s = record p { sessions = set p.sessions id s }

abbrev pub add_torrent : Session → ℕ → Option Bool → Session
add_torrent s key flag = record s { torrents = record { key = key; flag = flag } ∷ s.torrents }

-- The library's answer for a torrent whose flag was known before, if it was. Without metadata in time
-- the torrent stays in the client; a private one that DHT was asked about is dropped at once.
unfoldable pub settle : Pool → ℕ → Session → ℕ → Option Bool → Fetched → Pool × Result Bool
settle p id s key known rejected = (p, err not_added)
settle p id s key known silent = (put_session p id (add_torrent s key known), err no_metadata)
settle p id s key (some private) (metadata flag) =
    (put_session p id (add_torrent s key (some private)), ok private)
settle p id s key none (metadata flag) =
    if flag && s.dht_on
    then (p, err private_on_dht)
    else (put_session p id (add_torrent s key (some flag)), ok flag)

unfoldable pub refused : Option Bool → Session → Bool
refused (some private) s = private && s.dht_on
refused none s = false

-- The private flag of the torrent that was added.
unfoldable pub add_to : World → ℕ → Source → ℕ → Option (Option Bool) → M Bool
unfolding settle refused privacy_in_hand
add_to w id src key mi p = elim (get_elem? p.sessions id) [
  | none ↦ (p, err session_closed)
  | some s ↦
      if not s.up
      then (p, err session_closed)
      else if refused (privacy_in_hand src mi) s
      then (p, err private_on_dht)
      else settle p id s key (privacy_in_hand src mi) (w.fetch id)
]

unfoldable pub set_lease : ℕ → Option ℕ → M (Unit {0})
set_lease id lease p = elim (get_elem? p.sessions id) [
  | none ↦ (p, ok tt)
  | some s ↦ (put_session p id (record s { lease = lease }), ok tt)
]

-- A session that is closed forgets its torrents and gives its lease back.
unfoldable pub close_session : ℕ → M (Unit {0})
close_session id p = elim (get_elem? p.sessions id) [
  | none ↦ (p, ok tt)
  | some s ↦
      if s.up
      then (
        record p {
          sessions = set p.sessions id (record s { up = false; lease = none; torrents = [] });
          ports = release_in p.ports s.lease;
        },
        ok tt,
      )
      else (p, ok tt)
]

unfoldable pub drop_torrent : ℕ → List Added → List Added
drop_torrent key [] = []
drop_torrent key (a ∷ as') =
    let rest = drop_torrent key as' in if a.key == key then rest else a ∷ rest

-- The bytes of a session that is up, 0 afterwards.
unfoldable pub received_by : Pool → ℕ → ℕ
received_by p id = elim (get_elem? p.sessions id) [
  | none ↦ 0
  | some s ↦ if s.up then s.received else 0
]
