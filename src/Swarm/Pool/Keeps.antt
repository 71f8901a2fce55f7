-- ===== src/Swarm/Pool/Keeps.antt =====
-- A property of the pool that every step on a session keeps is kept by every operation of
-- internal/swarm/pool.go, also where it fails on the way.
use torpeek.Prelude.{
  ℕ, Bool, true, false, Option, none, some, if◌then◌else◌, Option-cases, inl, inr,
}
use torpeek.Swarm.Pool.{
  Source, World, Pool, PoolError, M, Result, ok, err, return, fail, attempt, resume, ◌>>=◌, ◌>>◌,
  on_error, public_only, pool_closed,
}
use torpeek.Swarm.Pool.Sessions.{
  PortClaim, lease_port, release_lease, new_session, add_to, set_lease, close_session,
}
use torpeek.Swarm.Pool.Attach

-- The step keeps the property, whether it succeeds or fails.
abbrev pub Keeps {ℓ} : (Pool → Type 0) → {A : Type ℓ} → M A → Type 0
Keeps P m = (p : Pool) → P p → P (m p).0

-- What follows a result keeps it too.
resume-Keeps {ℓ κ} :
    (P : Pool → Type 0) {A : Type ℓ} {B : Type κ} (f : A → M B) (g : PoolError → M B)
    → ((a : A) → Keeps P (f a))
    → ((e : PoolError) → Keeps P (g e))
    → (r : Pool × Result A) → P r.0
    → P (resume f g r).0
resume-Keeps P f g u v (p, ok a) h = u a p h
resume-Keeps P f g u v (p, err e) h = v e p h

pub attempt-Keeps {ℓ κ} :
    (P : Pool → Type 0) {A : Type ℓ} {B : Type κ} (m : M A) (f : A → M B) (g : PoolError → M B)
    → Keeps P m
    → ((a : A) → Keeps P (f a))
    → ((e : PoolError) → Keeps P (g e))
    → Keeps P (attempt m f g)
attempt-Keeps P m f g k u v p h = resume-Keeps P f g u v (m p) (k p h)

pub then-Keeps {ℓ κ} :
    (P : Pool → Type 0) {A : Type ℓ} {B : Type κ} (m : M A) (f : A → M B)
    → Keeps P m
    → ((a : A) → Keeps P (f a))
    → Keeps P (m >>= f)
then-Keeps P m f k u = attempt-Keeps P m f fail k u (λ e p h. h)

pub on_error-Keeps {ℓ} :
    (P : Pool → Type 0) {A : Type ℓ} (m : M A) (g : PoolError → M A)
    → Keeps P m
    → ((e : PoolError) → Keeps P (g e))
    → Keeps P (on_error m g)
on_error-Keeps P m g k v = attempt-Keeps P m return g k (λ a p h. h) v

pub return-Keeps {ℓ} : (P : Pool → Type 0) {A : Type ℓ} (a : A) → Keeps P (return a)
return-Keeps P a p h = h

pub fail-Keeps {ℓ} : (P : Pool → Type 0) (A : Type ℓ) (e : PoolError) → Keeps P (fail {A = A} e)
fail-Keeps P A e p h = h

pub if-Keeps {ℓ} :
    (P : Pool → Type 0) {A : Type ℓ} (b : Bool) (m n : M A)
    → Keeps P m
    → Keeps P n
    → Keeps P (if b then m else n)
if-Keeps P true m n h k = h
if-Keeps P false m n h k = k

-- A test that reads the pool.
if_holds {ℓ} :
    (P : Pool → Type 0) {A : Type ℓ} (b : Bool) (x y : Pool × Result A)
    → P x.0
    → P y.0
    → P (if b then x else y).0
if_holds P true x y h k = h
if_holds P false x y h k = k

-- The steps that the operations are made of.
pub record KeptBySteps (P : Pool → Type 0) : Type 0 where
  pub lease_port_kept : Keeps P lease_port
  pub release_lease_kept : (l : Option ℕ) → Keeps P (release_lease l)
  pub new_session_kept :
      (w : World) (dht blindly : Bool) (port : ℕ) → Keeps P (new_session w dht blindly port)
  pub add_to_kept :
      (w : World) (id : ℕ) (src : Source) (key : ℕ) (mi : Option (Option Bool))
      → Keeps P (add_to w id src key mi)
  pub set_lease_kept : (id : ℕ) (l : Option ℕ) → Keeps P (set_lease id l)
  pub close_session_kept : (id : ℕ) → Keeps P (close_session id)
  pub alone_on_kept : (key id : ℕ) → Keeps P (Attach.alone_on key id)
  pub pooled_kept : (key : ℕ) → Keeps P (Attach.pooled key)
  pub retire_client_kept : (id : ℕ) → Keeps P (Attach.retire_client id)
  pub set_shared_kept : (id : ℕ) → Keeps P (Attach.set_shared id)

module _ (P : Pool → Type 0) (k : KeptBySteps P) (w : World) where
  open k use {
    lease_port_kept, release_lease_kept, new_session_kept, add_to_kept, set_lease_kept,
    close_session_kept, alone_on_kept, pooled_kept, retire_client_kept, set_shared_kept,
  }

  close_and_fail-Keeps {ℓ} :
      (A : Type ℓ) (id : ℕ) (e : PoolError) → Keeps P (Attach.close_and_fail {A = A} id e)
  close_and_fail-Keeps A id e =
      then-Keeps P (close_session id) (λ _. fail e) (close_session_kept id) (λ _. fail-Keeps P A e)

  give_back-Keeps {ℓ} :
      (A : Type ℓ) (l : Option ℕ) (e : PoolError) → Keeps P (Attach.give_back {A = A} l e)
  give_back-Keeps A l e =
      then-Keeps P (release_lease l) (λ _. fail e) (release_lease_kept l) (λ _. fail-Keeps P A e)

  open_blind-Keeps : (src : Source) (key port : ℕ) → Keeps P (Attach.open_blind w src key port)
  unfolding Attach.open_blind
  open_blind-Keeps src key port = search (
    then-Keeps, on_error-Keeps, return-Keeps, new_session_kept, add_to_kept, close_and_fail-Keeps,
  )

  open_again-Keeps :
      (src : Source) (key port probe : ℕ) (private : Bool)
      → Keeps P (Attach.open_again w src key port probe private)
  unfolding Attach.open_again
  open_again-Keeps src key port probe private = search (
    then-Keeps, on_error-Keeps, return-Keeps, new_session_kept, add_to_kept, close_session_kept,
    close_and_fail-Keeps,
  )

  open_probed-Keeps :
      (src : Source) (key port : ℕ) (route : Attach.OnlineRoute) (id : ℕ) (private : Bool)
      → Keeps P (Attach.open_probed w src key port route id private)
  unfolding Attach.open_probed
  open_probed-Keeps src key port route id private =
      search (if-Keeps, return-Keeps, open_again-Keeps)

  open_failed-Keeps :
      (src : Source) (key port : ℕ) (route : Attach.OnlineRoute) (id : ℕ) (e : PoolError)
      → Keeps P (Attach.open_failed w src key port route id e)
  unfolding Attach.open_failed
  open_failed-Keeps src key port route id e =
      search (then-Keeps, if-Keeps, fail-Keeps, close_session_kept, open_blind-Keeps)

  open_on_port-Keeps :
      (src : Source) (key port : ℕ) (route : Attach.OnlineRoute)
      → Keeps P (Attach.open_on_port w src key port route)
  unfolding Attach.open_on_port
  open_on_port-Keeps src key port route = search (
    then-Keeps, attempt-Keeps, new_session_kept, add_to_kept, open_probed-Keeps, open_failed-Keeps,
  )

  open_on_route-Keeps :
      (src : Source) (key : ℕ) (route : Attach.OnlineRoute)
      → Keeps P (Attach.open_on_route w src key route)
  unfolding Attach.open_on_route
  open_on_route-Keeps src key route = search (
    then-Keeps, on_error-Keeps, return-Keeps, lease_port_kept, open_on_port-Keeps, give_back-Keeps,
    set_lease_kept,
  )

  open_session-Keeps : (src : Source) (key : ℕ) → Keeps P (Attach.open_session w src key)
  unfolding Attach.open_session
  open_session-Keeps src key p h = elim (Option-cases (Attach.route_for p.dht src)) [
    | inl e ↦ rw (e, Attach.open_session) h
    | inr (route, e) ↦ rw (e, Attach.open_session) (open_on_route-Keeps src key route p h)
  ]

  attach_alone-Keeps : (src : Source) (key : ℕ) → Keeps P (Attach.attach_alone w src key)
  unfolding Attach.attach_alone
  attach_alone-Keeps src key = search (then-Keeps, open_session-Keeps, alone_on_kept)

  start_on-Keeps : (claim : PortClaim) → Keeps P (Attach.start_on w claim)
  unfolding Attach.start_on
  start_on-Keeps claim p h = on_dht p.dht p h
    where
      on_dht :
          (dht : Bool)
          → Keeps P (
              on_error (new_session w dht false claim.port) (Attach.give_back {A = ℕ} claim.lease)
              >>= λ id. set_lease id claim.lease >> (Attach.set_shared id >> return id))
      on_dht dht = search (
        then-Keeps, on_error-Keeps, new_session_kept, give_back-Keeps, set_lease_kept,
        set_shared_kept,
      )

  start_locked-Keeps : (spare : Option PortClaim) → Keeps P (Attach.start_locked w spare)
  unfolding Attach.start_locked
  start_locked-Keeps (some claim) = start_on-Keeps claim
  start_locked-Keeps none =
      then-Keeps P lease_port (Attach.start_on w) lease_port_kept start_on-Keeps

  release_spare-Keeps : (spare : Option PortClaim) → Keeps P (Attach.release_spare spare)
  release_spare-Keeps none = λ p h. h
  release_spare-Keeps (some claim) = release_lease_kept claim.lease

  refuse_spare-Keeps :
      (spare : Option PortClaim) (e : PoolError) → Keeps P (Attach.refuse_spare {A = ℕ} spare e)
  refuse_spare-Keeps spare e = search (then-Keeps, fail-Keeps, release_spare-Keeps)

  shared_session-Keeps : (spare : Option PortClaim) → Keeps P (Attach.shared_session w spare)
  unfolding Attach.shared_session
  shared_session-Keeps spare p h = elim (Option-cases p.shared) [
    | inl e ↦ rw (e, Attach.shared_session) (start_locked-Keeps spare p h)
    | inr (id, e) ↦
        rw (e, Attach.shared_session)
          (then-Keeps P (Attach.release_spare spare) (λ _. return id) (release_spare-Keeps spare)
            (λ _. return-Keeps P id) p h)
  ]

  admit_shared-Keeps :
      (src : Source) (key : ℕ) (mi : Option (Option Bool)) (spare : Option PortClaim)
      → Keeps P (Attach.admit_shared w src key mi spare)
  unfolding Attach.admit_shared
  admit_shared-Keeps src key mi spare =
      search (then-Keeps, shared_session-Keeps, add_to_kept, pooled_kept)

  attach_shared-Keeps :
      (src : Source) (key : ℕ) (mi : Option (Option Bool)) (spare : Option PortClaim)
      → Keeps P (Attach.attach_shared w src key mi spare)
  unfolding Attach.attach_shared
  attach_shared-Keeps src key mi spare p h =
      if_holds P _ (Attach.refuse_spare spare public_only p) _
        (refuse_spare-Keeps spare public_only p h)
        (if_holds P p.closed (Attach.refuse_spare spare pool_closed p)
          (Attach.admit_shared w src key mi spare p) (refuse_spare-Keeps spare pool_closed p h)
          (admit_shared-Keeps src key mi spare p h))

  probe_failed-Keeps :
      (src : Source) (key : ℕ) (claim : PortClaim) (probe : ℕ) (e : PoolError)
      → Keeps P (Attach.probe_failed w src key claim probe e)
  unfolding Attach.probe_failed
  probe_failed-Keeps src key claim probe e = search (
    then-Keeps, on_error-Keeps, retire_client_kept, close_session_kept, open_blind-Keeps,
    give_back-Keeps, set_lease_kept, alone_on_kept,
  )

  probe_answered-Keeps :
      (src : Source) (key : ℕ) (claim : PortClaim) (probe : ℕ) (private : Bool)
      → Keeps P (Attach.probe_answered w src key claim probe private)
  unfolding Attach.probe_answered
  probe_answered-Keeps src key claim probe private = search (
    then-Keeps, if-Keeps, set_lease_kept, alone_on_kept, retire_client_kept, close_session_kept,
    attach_shared-Keeps,
  )

  probe_then_attach-Keeps : (src : Source) (key : ℕ) → Keeps P (Attach.probe_then_attach w src key)
  unfolding Attach.probe_then_attach
  probe_then_attach-Keeps src key = search (
    then-Keeps, on_error-Keeps, attempt-Keeps, lease_port_kept, new_session_kept, give_back-Keeps,
    add_to_kept, probe_answered-Keeps, probe_failed-Keeps,
  )

  attach_on-Keeps :
      (src : Source) (key : ℕ) (route : Attach.OnlineRoute)
      → Keeps P (Attach.attach_on w src key route)
  unfolding Attach.attach_on
  attach_on-Keeps src key route =
      search (if-Keeps, attach_shared-Keeps, attach_alone-Keeps, probe_then_attach-Keeps)

  -- The whole of an attachment but the reservation of its key.
  pub attach_routed-Keeps : (src : Source) (key : ℕ) → Keeps P (Attach.attach_routed w src key)
  unfolding Attach.attach_routed
  attach_routed-Keeps src key p h = elim (Option-cases (Attach.route_for p.dht src)) [
    | inl e ↦ rw (e, Attach.attach_routed) h
    | inr (route, e) ↦ rw (e, Attach.attach_routed) (attach_on-Keeps src key route p h)
  ]
