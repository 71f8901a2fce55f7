-- ===== src/Swarm/Pool/Attach.antt =====
-- The operations of internal/swarm/pool.go: attaching a torrent, detaching it, and closing the pool.
mod Opening
unfoldable pub use Opening.*
use torpeek.Prelude.{
  ℕ, ◌+◌, Bool, true, false, not, ◌&&◌, List, [], ◌∷◌, ◌++◌, ◌==◌, ltb, if◌then◌else◌, length,
  get_elem?, set, Option, none, some,
}
use torpeek.Prelude.Ids.{contains, cut}
use torpeek.Swarm.Ports.{PortPool}
use torpeek.Swarm.Pool.{
  Source, info_hash, trackers, privacy, privacy_in_hand, World, Attachment, Pool, PoolError,
  no_hash, pool_closed, torrent_busy, privacy_unresolvable, public_only, M, return, fail, read,
  ◌>>=◌, ◌>>◌, on_error, attempt, ok, err,
}
use torpeek.Swarm.Pool.Sessions.{
  PortClaim, lease_port, release_lease, new_session, put_session, add_to, set_lease, close_session,
  drop_torrent, received_by,
}

-- The number of the new attachment, of a torrent in a session of its own or in the shared one.
unfoldable pub alone_on : ℕ → ℕ → M ℕ
alone_on key id p =
    let a : Attachment = record { key = key; session = some id; detached = false } in
    (
      record p { alone = (key, id) ∷ p.alone; attachments = p.attachments ++ (a ∷ []) },
      ok (length p.attachments),
    )

unfoldable pub pooled : ℕ → M ℕ
pooled key p =
    let a : Attachment = record { key = key; session = none; detached = false } in
    (record p { attachments = p.attachments ++ (a ∷ []) }, ok (length p.attachments))

unfoldable pub retire_client : ℕ → M (Unit {0})
unfolding received_by
retire_client id p = (record p { retired = p.retired + received_by p id }, ok tt)

unfoldable pub attach_alone : World → Source → ℕ → M ℕ
unfolding open_session alone_on
attach_alone w src key = do id ← open_session w src key; alone_on key id

abbrev pub set_shared : ℕ → M (Unit {0})
set_shared id p = (record p { shared = some id }, ok tt)

-- The shared client, on a claim that is in hand or on one of its own.
unfoldable pub start_on : World → PortClaim → M ℕ
unfolding new_session set_lease release_lease
start_on w claim = do
  dht ← read (λ q. q.dht)
  id ← on_error (new_session w dht false claim.port) (give_back claim.lease)
  set_lease id claim.lease
  set_shared id
  return id

unfoldable pub start_locked : World → Option PortClaim → M ℕ
unfolding lease_port start_on
start_locked w (some claim) = start_on w claim
start_locked w none = lease_port >>= start_on w

abbrev pub release_spare : Option PortClaim → M (Unit {0})
release_spare none = return tt
release_spare (some claim) = release_lease claim.lease

-- The shared client's number: the running one, and the spare claim goes back, or a new one.
unfoldable pub shared_session : World → Option PortClaim → M ℕ
unfolding start_locked release_lease
shared_session w spare p = elim p.shared [
  | none ↦ start_locked w spare p
  | some id ↦ (release_spare spare >> return id) p
]

abbrev pub refuse_spare {ℓ} : {A : Type ℓ} → Option PortClaim → PoolError → M A
refuse_spare spare e = release_spare spare >> fail e

-- The door of the shared client: only a torrent that is known to be public.
unfoldable pub is_known_public : Option Bool → Bool
is_known_public (some private) = not private
is_known_public none = false

unfoldable pub admit_shared : World → Source → ℕ → Option (Option Bool) → Option PortClaim → M ℕ
unfolding shared_session add_to pooled
admit_shared w src key mi spare = do
  id ← shared_session w spare
  private ← add_to w id src key mi
  pooled key

unfoldable pub attach_shared : World → Source → ℕ → Option (Option Bool) → Option PortClaim → M ℕ
unfolding privacy_in_hand is_known_public admit_shared release_lease
attach_shared w src key mi spare p =
    if not (is_known_public (privacy_in_hand src mi))
    then refuse_spare spare public_only p
    else if p.closed
    then refuse_spare spare pool_closed p
    else admit_shared w src key mi spare p

-- The trackers stayed silent: a session of its own, blindly.
unfoldable pub probe_failed : World → Source → ℕ → PortClaim → ℕ → PoolError → M ℕ
unfolding retire_client close_session open_blind release_lease set_lease alone_on
probe_failed w src key claim probe e = do
  retire_client probe
  close_session probe
  (id, private) ← on_error (open_blind w src key claim.port) (give_back claim.lease)
  set_lease id claim.lease
  alone_on key id

unfoldable pub probe_answered : World → Source → ℕ → PortClaim → ℕ → Bool → M ℕ
unfolding retire_client close_session set_lease alone_on attach_shared
probe_answered w src key claim probe private =
    if private then set_lease probe claim.lease >> alone_on key probe else (do
      retire_client probe
      close_session probe
      attach_shared w src key (some (carried w probe private)) (some claim))

unfoldable pub probe_then_attach : World → Source → ℕ → M ℕ
unfolding lease_port new_session release_lease add_to probe_answered probe_failed
probe_then_attach w src key = do
  claim ← lease_port
  probe ← on_error (new_session w false false claim.port) (give_back claim.lease)
  attempt (add_to w probe src key none) (probe_answered w src key claim probe)
      (probe_failed w src key claim probe)

unfoldable pub attach_on : World → Source → ℕ → OnlineRoute → M ℕ
unfolding privacy is_known_public attach_shared attach_alone probe_then_attach
attach_on w src key route =
    if is_known_public (privacy src)
    then attach_shared w src key none none
    else if not route.probe_trackers_first
    then attach_alone w src key
    else probe_then_attach w src key

unfoldable pub attach_routed : World → Source → ℕ → M ℕ
unfolding route_for attach_on
attach_routed w src key p = elim (route_for p.dht src) [
  | none ↦ (p, err privacy_unresolvable)
  | some route ↦ attach_on w src key route p
]

unfoldable pub reserve : ℕ → M (Unit {0})
reserve key p =
    if p.closed
    then (p, err pool_closed)
    else if contains key p.held
    then (p, err torrent_busy)
    else (record p { held = key ∷ p.held }, ok tt)

unfoldable pub release_key : ℕ → M (Unit {0})
release_key key p = (record p { held = cut key p.held }, ok tt)

abbrev pub release_and_fail {ℓ} : {A : Type ℓ} → ℕ → PoolError → M A
release_and_fail key e = release_key key >> fail e

unfoldable pub attach_key : World → Source → ℕ → M ℕ
unfolding reserve attach_routed release_key
attach_key w src key = reserve key >> on_error (attach_routed w src key) (release_and_fail key)

-- `Attach`: the number of the attachment.
unfoldable pub attach : World → Source → M ℕ
unfolding info_hash attach_key
attach w src = elim (info_hash src) as (λ k. M ℕ) [
  | none ↦ fail no_hash
  | some key ↦ attach_key w src key
]

unfoldable pub without_key : ℕ → List (ℕ × ℕ) → List (ℕ × ℕ)
without_key key [] = []
without_key key ((k, id) ∷ ks) =
    let rest = without_key key ks in if k == key then rest else (k, id) ∷ rest

-- The bytes of a session of its own go over to the pool before it is closed.
unfoldable pub retire : ℕ → ℕ → M (Unit {0})
unfolding received_by without_key
retire key id p =
    (record p { retired = p.retired + received_by p id; alone = without_key key p.alone }, ok tt)

unfoldable pub drop_shared : ℕ → M (Unit {0})
unfolding drop_torrent
drop_shared key p = elim p.shared [
  | none ↦ (p, ok tt)
  | some id ↦ elim (get_elem? p.sessions id) [
    | none ↦ (p, ok tt)
    | some s ↦ (put_session p id (record s { torrents = drop_torrent key s.torrents }), ok tt)
  ]
]

unfoldable pub detach_from : Option ℕ → ℕ → M (Unit {0})
unfolding retire close_session drop_shared release_key
detach_from (some id) key = retire key id >> (close_session id >> release_key key)
detach_from none key = drop_shared key >> release_key key

-- The second `Detach` of an attachment does nothing.
unfoldable pub detach : ℕ → M (Unit {0})
unfolding detach_from
detach i p = elim (get_elem? p.attachments i) [
  | none ↦ (p, ok tt)
  | some a ↦
      if a.detached
      then (p, ok tt)
      else detach_from a.session a.key
          (record p { attachments = set p.attachments i (record a { detached = true }) })
]

unfoldable pub close_pool : M (Unit {0})
unfolding received_by close_session
close_pool p = if p.closed then (p, ok tt) else (elim p.shared [
  | none ↦ (record p { closed = true }, ok tt)
  | some id ↦
      close_session id
        (record p { closed = true; shared = none; retired = p.retired + received_by p id })
])

unfoldable pub sum_received : Pool → List (ℕ × ℕ) → ℕ
unfolding received_by
sum_received p [] = 0
sum_received p ((key, id) ∷ ks) = received_by p id + sum_received p ks

unfoldable pub downloaded : Pool → ℕ
unfolding received_by sum_received
downloaded p = elim p.shared [
  | none ↦ p.retired + sum_received p p.alone
  | some id ↦ p.retired + received_by p id + sum_received p p.alone
]

unfoldable pub new_pool : Bool → ℕ → Option PortPool → Pool
new_pool dht listen_port ports = record {
  dht = dht;
  listen_port = listen_port;
  ports = ports;
  sessions = [];
  shared = none;
  held = [];
  alone = [];
  retired = 0;
  closed = false;
  attachments = [];
}

-- What runs and the library do to a pool, in any order. `receives` is bytes that reach a session.
pub data PoolCall : Type 0 where
  attaches : World → Source → PoolCall
  detaches : ℕ → PoolCall
  closes : PoolCall
  receives : ℕ → ℕ → PoolCall

unfoldable pub receive : ℕ → ℕ → Pool → Pool
receive id n p = elim (get_elem? p.sessions id) [
  | none ↦ p
  | some s ↦ put_session p id (record s { received = s.received + n })
]

unfoldable pub call_pool : Pool → PoolCall → Pool
unfolding attach detach close_pool receive
call_pool p (attaches w src) = (attach w src p).0
call_pool p (detaches i) = (detach i p).0
call_pool p closes = (close_pool p).0
call_pool p (receives id n) = receive id n p

unfoldable pub call_all : Pool → List PoolCall → Pool
unfolding call_pool
call_all p [] = p
call_all p (c ∷ cs) = call_all (call_pool p c) cs
