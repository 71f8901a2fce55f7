-- ===== src/Swarm/Ports.antt =====
-- The pool of internal/swarm/ports.go: the ports of a set, handed out one at a time. A lease is an
-- object that its holder releases, so the store keeps every lease ever made, by number.
mod Leases
mod Tests
use torpeek.Prelude.{
  ℕ, ◌+◌, Bool, true, false, not, List, [], ◌∷◌, ◌++◌, ◌==◌, if◌then◌else◌, length, get_elem?, set,
  Option, none, some,
}

-- `held` is false once the lease was released, when its pool is nil in the source.
pub record PortLease : Type 0 where
  pub port : ℕ
  pub held : Bool

-- A pool over a set of ports, and the leases made from it. The empty set is the unmanaged one.
pub record PortPool : Type 0 where
  pub ports : List ℕ
  pub free : List ℕ
  pub leases : List PortLease

unfoldable pub new_port_pool : List ℕ → PortPool
new_port_pool ports = record { ports = ports; free = ports; leases = [] }

unfoldable pub managed : List ℕ → Bool
managed [] = false
managed (p ∷ ps) = true

abbrev pub lease_of : ℕ → PortLease
lease_of p = record { port = p; held = true }

-- The pool afterwards, and the number of the new lease; `none` is the refusal of a spent set.
unfoldable pub acquire : PortPool → PortPool × Option ℕ
unfolding managed
acquire pool =
    if managed pool.ports
    then (elim pool.free [
      | [] ↦ (pool, none)
      | p ∷ ps ↦ (
        record pool { free = ps; leases = pool.leases ++ (lease_of p ∷ []) },
        some (length pool.leases),
      )
    ])
    else (record pool { leases = pool.leases ++ (lease_of 0 ∷ []) }, some (length pool.leases))

unfoldable pub put : List ℕ → ℕ → List ℕ
put free port = if port == 0 then free else free ++ (port ∷ [])

unfoldable pub release : PortPool → ℕ → PortPool
unfolding put
release pool id = elim (get_elem? pool.leases id) [
  | none ↦ pool
  | some l ↦
      if l.held
      then (record pool {
        free = put pool.free l.port;
        leases = set pool.leases id (record l { held = false });
      })
      else pool
]

-- The port to bind, 0 for one that the system chooses.
unfoldable pub port_of : PortPool → ℕ → ℕ
port_of pool id = elim (get_elem? pool.leases id) [ none ↦ 0 | some l ↦ l.port ]

-- What the clients do to a pool, in any order.
pub data PortCall : Type 0 where
  acquired : PortCall
  released : ℕ → PortCall

unfoldable pub call_port : PortPool → PortCall → PortPool
unfolding acquire release
call_port pool acquired = (acquire pool).0
call_port pool (released id) = release pool id

unfoldable pub call_ports : PortPool → List PortCall → PortPool
unfolding call_port
call_ports pool [] = pool
call_ports pool (c ∷ cs) = call_ports (call_port pool c) cs
