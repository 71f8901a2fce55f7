-- ===== src/Swarm/Pool/Tests.antt =====
-- internal/swarm/pool.go with two ports: a public torrent file, a private one, and magnets.
use torpeek.Prelude.{◌≡◌, refl, Bool, true, false, ◌||◌, List, [], ◌∷◌, map, Option, some}
use torpeek.Prelude.Ids.{contains}
use torpeek.Swarm.Ports.{PortPool, new_port_pool, acquire, release}
use torpeek.Swarm.Pool.{
  magnet, torrent_file, metadata, World, Session, Pool, PoolError, err, no_port, private_on_dht,
  info_hash,
}
use torpeek.Swarm.Pool.Attach.{
  PoolCall, attaches, detaches, receives, new_pool, attach, call_all, downloaded,
}
use torpeek.Swarm.Pool.Private.{Guarded, never_exposed}
use torpeek.Swarm.Pool.Held.{Settles, attach_held}

abbrev two_ports : Option PortPool
two_ports = some (new_port_pool (51000 ∷ 51001 ∷ []))

-- Every session starts and finds its torrent, which is private or not.
abbrev world : Bool → World
world private = record {
  starts = λ id. true;
  fetch = λ id. metadata private;
  readable = λ id. true;
}

abbrev fresh : Pool
fresh = new_pool true 0 two_ports

-- A public torrent file joins the shared client, with a probed magnet; a private one stays alone.
abbrev three : List PoolCall
three =
    attaches (world false) (torrent_file 7 false 1)
    ∷ attaches (world false) (magnet 8 2)
    ∷ attaches (world true) (torrent_file 9 true 1)
    ∷ []

where_they_are :
    map (λ (s : Session). s.dht_on) (call_all fresh three).sessions ≡ true ∷ false ∷ false ∷ []
unfolding new_pool call_all new_port_pool acquire release
where_they_are = refl

shared_two : (call_all fresh three).held ≡ 9 ∷ 8 ∷ 7 ∷ []
unfolding new_pool call_all new_port_pool acquire release
shared_two = refl

-- The two ports are taken, by the shared client and by the private torrent's.
third_refused :
    (attach (world true) (torrent_file 10 true 1) (call_all fresh three)).1 ≡ err no_port
unfolding new_pool call_all new_port_pool acquire release
third_refused = refl

-- A magnet without trackers whose metadata says private, after DHT was asked.
blind_refused : (attach (world true) (magnet 5 0) fresh).1 ≡ err private_on_dht
unfolding new_pool attach new_port_pool acquire release
blind_refused = refl

counted_once :
    downloaded (
      call_all fresh (
        attaches (world true) (torrent_file 9 true 1)
        ∷ receives 0 100
        ∷ detaches 0
        ∷ detaches 0
        ∷ []))
    ≡ 100
unfolding new_pool call_all new_port_pool downloaded acquire release
counted_once = refl

never_exposed_example : Guarded (call_all fresh three)
never_exposed_example = never_exposed true 0 two_ports three

attach_held_example :
    (fresh.closed || contains 5 fresh.held ≡ true
      → (e : PoolError) × (attach (world true) (magnet 5 0) fresh ≡ (fresh, err e)))
    × Settles 5 fresh.held (attach (world true) (magnet 5 0) fresh)
unfolding info_hash
attach_held_example = attach_held (world true) (magnet 5 0) 5 fresh refl
