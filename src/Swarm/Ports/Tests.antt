-- ===== src/Swarm/Ports/Tests.antt =====
-- internal/swarm/ports.go on a set of two ports.
use torpeek.Prelude.{ℕ, ◌≡◌, ◌≢◌, refl, List, [], ◌∷◌, get_elem?, none, some, arith}
use torpeek.Swarm.Ports.{
  PortPool, new_port_pool, acquire, lease_of, port_of, PortCall, acquired, released, call_ports,
}
use torpeek.Swarm.Ports.Leases.{count, held_apart}

abbrev two_ports : List ℕ
two_ports = 51000 ∷ 51001 ∷ []

abbrev busy : List PortCall
busy = acquired ∷ acquired ∷ released 0 ∷ released 0 ∷ acquired ∷ []

abbrev busy_pool : PortPool
busy_pool = call_ports (new_port_pool two_ports) busy

-- The released port goes out again, once.
reused : port_of busy_pool 2 ≡ 51000
unfolding new_port_pool call_ports port_of
reused = refl

refused : (acquire busy_pool).1 ≡ none
unfolding new_port_pool call_ports
refused = refl

unmanaged : (acquire (new_port_pool [])).1 ≡ some 0
unfolding new_port_pool acquire
unmanaged = refl

second_lease : get_elem? busy_pool.leases 1 ≡ some (lease_of 51001)
unfolding new_port_pool call_ports
second_lease = refl

third_lease : get_elem? busy_pool.leases 2 ≡ some (lease_of 51000)
unfolding new_port_pool call_ports
third_lease = refl

held_apart_example : (◌≢◌ {A = ℕ} 51001 51000) × (count 51001 busy_pool.free ≡ 0)
held_apart_example =
    held_apart two_ports busy 1 2 (lease_of 51001) (lease_of 51000) (refl, (refl, tt)) (omega arith)
      second_lease third_lease refl refl (omega arith)
