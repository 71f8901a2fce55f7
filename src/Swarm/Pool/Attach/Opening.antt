-- ===== src/Swarm/Pool/Attach/Opening.antt =====
-- The route of internal/swarm/policy.go, and `Open` of session.go with the ways that it takes.
use torpeek.Prelude.{ℕ, Bool, true, false, not, ◌&&◌, ltb, if◌then◌else◌, Option, none, some}
use torpeek.Swarm.Pool.{
  Source, trackers, privacy, World, PoolError, privacy_unresolvable, M, return, fail, ◌>>=◌, ◌>>◌,
  on_error, attempt, err,
}
use torpeek.Swarm.Pool.Sessions.{
  lease_port, release_lease, new_session, add_to, set_lease, close_session,
}

pub record OnlineRoute : Type 0 where
  pub dht : Bool
  pub probe_trackers_first : Bool
  pub blind : Bool

-- `none` where the source cannot be served under the configuration.
unfoldable pub route_for : Bool → Source → Option OnlineRoute
unfolding privacy trackers
route_for dht src = elim (privacy src) [
  | some private ↦
      some (record { dht = dht && not private; probe_trackers_first = false; blind = false })
  | none ↦
      if ltb 0 (trackers src)
      then some (record { dht = false; probe_trackers_first = dht; blind = false })
      else if not dht
      then none
      else some (record { dht = true; probe_trackers_first = false; blind = true })
]

-- The metadata carried over from a probe: its flag, if it can be read.
abbrev pub carried : World → ℕ → Bool → Option Bool
carried w id private = if w.readable id then some private else none

abbrev pub close_and_fail {ℓ} : {A : Type ℓ} → ℕ → PoolError → M A
close_and_fail id e = close_session id >> fail e

-- A session with one torrent, and that torrent's flag.
unfoldable pub open_blind : World → Source → ℕ → ℕ → M (ℕ × Bool)
unfolding new_session add_to close_session
open_blind w src key port = do
  id ← new_session w true true port
  private ← on_error (add_to w id src key none) (close_and_fail id)
  return (id, private)

-- The restart with DHT of a probed torrent that is public.
unfoldable pub open_again : World → Source → ℕ → ℕ → ℕ → Bool → M (ℕ × Bool)
unfolding new_session add_to close_session
open_again w src key port probe private = do
  close_session probe
  id ← new_session w true false port
  private' ← on_error (add_to w id src key (some (carried w probe private))) (close_and_fail id)
  return (id, private')

unfoldable pub open_probed : World → Source → ℕ → ℕ → OnlineRoute → ℕ → Bool → M (ℕ × Bool)
unfolding open_again
open_probed w src key port route id private =
    if not route.probe_trackers_first
    then return (id, private)
    else if private
    then return (id, private)
    else open_again w src key port id private

unfoldable pub open_failed : World → Source → ℕ → ℕ → OnlineRoute → ℕ → PoolError → M (ℕ × Bool)
unfolding open_blind close_session
open_failed w src key port route id e =
    close_session id
    >> (if not route.probe_trackers_first then fail e else open_blind w src key port)

unfoldable pub open_on_port : World → Source → ℕ → ℕ → OnlineRoute → M (ℕ × Bool)
unfolding new_session add_to open_probed open_failed
open_on_port w src key port route = do
  id ← new_session w route.dht route.blind port
  attempt (add_to w id src key none) (open_probed w src key port route id)
      (open_failed w src key port route id)

abbrev pub give_back {ℓ} : {A : Type ℓ} → Option ℕ → PoolError → M A
give_back lease e = release_lease lease >> fail e

-- `Open`: a session of its own for the torrent, on a port of its own.
unfoldable pub open_on_route : World → Source → ℕ → OnlineRoute → M ℕ
unfolding lease_port open_on_port set_lease release_lease
open_on_route w src key route = do
  claim ← lease_port
  (id, private) ← on_error (open_on_port w src key claim.port route) (give_back claim.lease)
  set_lease id claim.lease
  return id

unfoldable pub open_session : World → Source → ℕ → M ℕ
unfolding route_for open_on_route
open_session w src key p = elim (route_for p.dht src) [
  | none ↦ (p, err privacy_unresolvable)
  | some route ↦ open_on_route w src key route p
]
