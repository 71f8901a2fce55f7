-- ===== src/Swarm/Ports/Leases.antt =====
-- The leases of internal/swarm/ports.go: no port is lost, doubled or held twice.
use torpeek.Prelude.{
  ℕ, zero, suc, ◌+◌, ◌≤◌, ◌<◌, ◌≡◌, ◌≢◌, refl, true, false, List, [], ◌∷◌, ◌++◌, ◌==◌,
  if◌then◌else◌, length, get_elem?, set, none, some, arith, Bool-cases, Option-cases, List-cases,
  inl, inr, ap, sym,
}
use torpeek.Prelude.Ids.{contains, Nodup}
use torpeek.Swarm.Ports.{
  PortLease, PortPool, new_port_pool, managed, lease_of, acquire, put, release, PortCall, acquired,
  released, call_port, call_ports,
}

abbrev pub count : ℕ → List ℕ → ℕ
count p [] = 0
count p (q ∷ qs) = (if q == p then 1 else 0) + count p qs

abbrev pub holds : ℕ → PortLease → ℕ
holds p l = if l.held then if l.port == p then 1 else 0 else 0

-- How many leases of the port are not released.
abbrev pub holders : ℕ → List PortLease → ℕ
holders p [] = 0
holders p (l ∷ ls) = holds p l + holders p ls

-- Each port is free or held as often as the set lists it.
abbrev pub Conserved : List ℕ → ℕ → PortPool → Type 0
Conserved ports p pool =
    (pool.ports ≡ ports) × (count p pool.free + holders p pool.leases ≡ count p ports)

count-snoc : (p q : ℕ) (qs : List ℕ) → count p (qs ++ (q ∷ [])) ≡ count p (q ∷ qs)
count-snoc p q [] = refl
count-snoc p q (x ∷ qs) = ground (arith, count-snoc p q qs)

holders-snoc :
    (p : ℕ) (l : PortLease) (ls : List PortLease)
    → holders p (ls ++ (l ∷ [])) ≡ holders p ls + holds p l
holders-snoc p l [] = omega arith
holders-snoc p l (x ∷ ls) = omega (arith, holders-snoc p l ls)

holders-set :
    (p id : ℕ) (l m : PortLease) (ls : List PortLease)
    → get_elem? ls id ≡ some l
    → holders p (set ls id m) + holds p l ≡ holders p ls + holds p m
holders-set p id l m [] e = cc
holders-set p zero l m (x ∷ ls) e =
    let h : holds p x ≡ holds p l = ap (holds p) (cc) in omega (arith, h)
holders-set p (suc id) l m (x ∷ ls) e = omega (arith, holders-set p id l m ls e)

acquire-spent :
    (pool : PortPool) → managed pool.ports ≡ true → pool.free ≡ [] → acquire pool ≡ (pool, none)
unfolding acquire
acquire-spent pool e k = rw (e, acquire) (simp k refl)

acquire-next :
    (pool : PortPool) (q : ℕ) (qs : List ℕ)
    → managed pool.ports ≡ true
    → pool.free ≡ q ∷ qs
    → (acquire pool).0 ≡ record pool { free = qs; leases = pool.leases ++ (lease_of q ∷ []) }
unfolding acquire
acquire-next pool q qs e k = rw (e, acquire) (simp k refl)

acquire-unmanaged :
    (pool : PortPool)
    → managed pool.ports ≡ false
    → (acquire pool).0 ≡ record pool { leases = pool.leases ++ (lease_of 0 ∷ []) }
unfolding acquire
acquire-unmanaged pool e = rw (e, acquire) refl

acquire-Conserved :
    (ports : List ℕ) (p : ℕ) (pool : PortPool)
    → 0 < p
    → Conserved ports p pool
    → Conserved ports p (acquire pool).0
acquire-Conserved ports p pool h c = elim (Bool-cases (managed pool.ports)) [
  | inl e ↦ elim (List-cases pool.free) [
    | inl k ↦ rw (acquire-spent pool e k) c
    | inr (q, qs, k) ↦
        rw (acquire-next pool q qs e k)
          (c.0, omega (arith, holders-snoc p (lease_of q) pool.leases, ap (count p) k))
  ]
  | inr e ↦
      rw (acquire-unmanaged pool e) (c.0, ground (arith, holders-snoc p (lease_of 0) pool.leases))
]

release-missing :
    (pool : PortPool) (id : ℕ) → get_elem? pool.leases id ≡ none → release pool id ≡ pool
unfolding release
release-missing pool id e = rw (e, release) refl

release-again :
    (pool : PortPool) (id : ℕ) (l : PortLease)
    → get_elem? pool.leases id ≡ some l
    → l.held ≡ false
    → release pool id ≡ pool
unfolding release
release-again pool id l e k = rw (e, release) (simp k refl)

release-held :
    (pool : PortPool) (id : ℕ) (l : PortLease)
    → get_elem? pool.leases id ≡ some l
    → l.held ≡ true
    → release pool id ≡ record pool {
      free = put pool.free l.port;
      leases = set pool.leases id (record l { held = false });
    }
unfolding release
release-held pool id l e k = rw (e, release) (simp k refl)

count-put : (p q : ℕ) (qs : List ℕ) → 0 < p → count p (put qs q) ≡ count p (q ∷ qs)
unfolding put
count-put p q qs h = ground (arith, count-snoc p q qs)

holds-held : (p : ℕ) (l : PortLease) → l.held ≡ true → holds p l ≡ (if l.port == p then 1 else 0)
holds-held p l k = rw k refl

release-Conserved :
    (ports : List ℕ) (p id : ℕ) (pool : PortPool)
    → 0 < p
    → Conserved ports p pool
    → Conserved ports p (release pool id)
release-Conserved ports p id pool h c = elim (Option-cases (get_elem? pool.leases id)) [
  | inl e ↦ rw (release-missing pool id e) c
  | inr (l, e) ↦ elim (Bool-cases l.held) [
    | inl k ↦
        let moved = holders-set p id l (record l { held = false }) pool.leases e in
        let back = count-put p l.port pool.free h in
        rw (release-held pool id l e k) (c.0, omega (arith, moved, back, holds-held p l k, c.1))
    | inr k ↦ rw (release-again pool id l e k) c
  ]
]

calls-Conserved :
    (ports : List ℕ) (p : ℕ) (cs : List PortCall) (pool : PortPool)
    → 0 < p
    → Conserved ports p pool
    → Conserved ports p (call_ports pool cs)
unfolding call_ports call_port
calls-Conserved ports p [] pool h c = c
calls-Conserved ports p (acquired ∷ cs) pool h c =
    calls-Conserved ports p cs (acquire pool).0 h (acquire-Conserved ports p pool h c)
calls-Conserved ports p (released id ∷ cs) pool h c =
    calls-Conserved ports p cs (release pool id) h (release-Conserved ports p id pool h c)

-- However leases are acquired and released, and released again: each port of the set is free or held,
-- as often as the set lists it, and no other port is.
pub ports-Conserved :
    (ports : List ℕ) (p : ℕ) (cs : List PortCall)
    → 0 < p
    → Conserved ports p (call_ports (new_port_pool ports) cs)
unfolding new_port_pool
ports-Conserved ports p cs h =
    calls-Conserved ports p cs (new_port_pool ports) h (refl, omega arith)

count-absent : (p : ℕ) (ps : List ℕ) → contains p ps ≡ false → count p ps ≡ 0
count-absent p [] e = refl
count-absent p (q ∷ ps) e = ground (arith, count-absent p ps)

count-Nodup : (p : ℕ) (ps : List ℕ) → Nodup ps → count p ps ≤ 1
count-Nodup p [] d = omega arith
count-Nodup p (q ∷ ps) d = ground (arith, count-Nodup p ps d.1, count-absent q ps d.0)

one_holder :
    (p i : ℕ) (l : PortLease) (ls : List PortLease)
    → get_elem? ls i ≡ some l
    → holds p l ≤ holders p ls
one_holder p i l [] e = cc
one_holder p zero l (x ∷ ls) e =
    let h : holds p x ≡ holds p l = ap (holds p) (cc) in omega (arith, h)
one_holder p (suc i) l (x ∷ ls) e = omega (arith, one_holder p i l ls e)

two_holders :
    (p i j : ℕ) (l m : PortLease) (ls : List PortLease)
    → i < j
    → get_elem? ls i ≡ some l
    → get_elem? ls j ≡ some m
    → holds p l + holds p m ≤ holders p ls
two_holders p i j l m [] h e f = cc
two_holders p zero zero l m (x ∷ ls) h e f = omega arith
two_holders p (suc i) zero l m (x ∷ ls) h e f = omega arith
two_holders p zero (suc j) l m (x ∷ ls) h e f =
    let k : holds p x ≡ holds p l = ap (holds p) (cc) in omega (arith, k, one_holder p j m ls f)
two_holders p (suc i) (suc j) l m (x ∷ ls) h e f =
    omega (arith, two_holders p i j l m ls (omega arith) e f)

holds-port : (p : ℕ) (l : PortLease) → l.held ≡ true → l.port ≡ p → holds p l ≡ 1
holds-port p l k e = ground (arith, holds-held p l k)

-- In a pool over a set without repetition, however it came to its state: two leases that are both
-- held have different ports, where the first has one of the set and not one that the system chooses;
-- and that port is not free.
pub held_apart :
    (ports : List ℕ) (cs : List PortCall) (i j : ℕ) (l m : PortLease)
    → Nodup ports
    → i < j
    → get_elem? (call_ports (new_port_pool ports) cs).leases i ≡ some l
    → get_elem? (call_ports (new_port_pool ports) cs).leases j ≡ some m
    → l.held ≡ true
    → m.held ≡ true
    → 0 < l.port
    → (l.port ≢ m.port) × (count l.port (call_ports (new_port_pool ports) cs).free ≡ 0)
held_apart ports cs i j l m d h e f k n z =
    let pool = call_ports (new_port_pool ports) cs in
    let c = ports-Conserved ports l.port cs z in
    let once = count-Nodup l.port ports d in
    (
      λ same. omega (
        arith,
        c.1,
        once,
        two_holders l.port i j l m pool.leases h e f,
        holds-port l.port l k refl,
        holds-port l.port m n (sym same),
      ),
      omega (arith, c.1, once, one_holder l.port i l pool.leases e, holds-port l.port l k refl),
    )

acquire-answers :
    (pool : PortPool) (q : ℕ) (qs : List ℕ)
    → pool.free ≡ q ∷ qs
    → (acquire pool).1 ≡ some (length pool.leases)
unfolding acquire
acquire-answers pool q qs k = elim (Bool-cases (managed pool.ports)) [
  | inl e ↦ rw (e, acquire) (simp k refl)
  | inr e ↦ rw (e, acquire) refl
]

-- When `Acquire` refuses, however the pool came to its state, every port of the set is held by as many
-- leases as the set lists it.
pub refused_spent :
    (ports : List ℕ) (cs : List PortCall) (p : ℕ)
    → 0 < p
    → (acquire (call_ports (new_port_pool ports) cs)).1 ≡ none
    → holders p (call_ports (new_port_pool ports) cs).leases ≡ count p ports
refused_spent ports cs p h r =
    let pool = call_ports (new_port_pool ports) cs in
    let c = ports-Conserved ports p cs h in
    elim (List-cases pool.free) [
      | inl k ↦ omega (arith, c.1, ap (count p) k)
      | inr (q, qs, k) ↦ let answer = acquire-answers pool q qs k in cc
    ]
