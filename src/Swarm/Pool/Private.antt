-- ===== src/Swarm/Pool/Private.antt =====
-- No private torrent is ever in a session that has DHT on (internal/swarm/pool.go and session.go).
use torpeek.Prelude.{
  ℕ, zero, suc, ◌+◌, ◌≡◌, Bool, true, false, not, ◌&&◌, ◌==◌, List, [], ◌∷◌, length, get_elem?, set,
  Option, none, some, All, All-append, All-get_elem?, arith, Bool-cases, Option-cases, inl, inr,
}
use torpeek.Swarm.Ports.{PortPool}
use torpeek.Swarm.Pool.{
  Source, magnet, torrent_file, empty_source, privacy_in_hand, Fetched, rejected, silent, metadata,
  World, Added, Session, Pool, on_error,
}
use torpeek.Swarm.Pool.Sessions.{
  lease_port, release_lease, new_session, settle, refused, add_to, set_lease, close_session,
  drop_torrent, put_session, add_torrent,
}
use torpeek.Swarm.Pool.Attach
use torpeek.Swarm.Pool.Keeps.{Keeps, then-Keeps, on_error-Keeps, KeptBySteps, attach_routed-Keeps}

-- A torrent of the session that is known to be private while the session has DHT.
abbrev pub exposed : Session → Added → Bool
exposed s a = s.dht_on && (elim a.flag [ some private ↦ private | none ↦ false ])

abbrev pub Hidden : Session → Type 0
Hidden s = All (λ a. exposed s a ≡ false) s.torrents

abbrev pub Guarded : Pool → Type 0
Guarded p = All Hidden p.sessions

All-set :
    (P : Session → Type 0) (ss : List Session) (i : ℕ) (s : Session)
    → All P ss
    → P s
    → All P (set ss i s)
All-set P [] i s a h = tt
All-set P (t ∷ ss) zero s a h = (h, a.1)
All-set P (t ∷ ss) (suc i) s a h = (a.0, All-set P ss i s a.1 h)

put-Guarded :
    (p : Pool) (id : ℕ) (s : Session) → Guarded p → Hidden s → Guarded (put_session p id s)
put-Guarded p id s g h = All-set Hidden p.sessions id s g h

lease_port-Guarded : Keeps Guarded lease_port
unfolding lease_port
lease_port-Guarded p g = ground arith

release_lease-Guarded : (l : Option ℕ) → Keeps Guarded (release_lease l)
unfolding release_lease
release_lease-Guarded l p g = g

new_session-Guarded :
    (w : World) (dht blindly : Bool) (port : ℕ) → Keeps Guarded (new_session w dht blindly port)
unfolding new_session
new_session-Guarded w dht blindly port p g = elim (Bool-cases (w.starts (length p.sessions))) [
  | inl e ↦ rw e (All-append Hidden p.sessions (_ ∷ []) g (tt, tt))
  | inr e ↦ rw e g
]

settle-Guarded :
    (p : Pool) (id : ℕ) (s : Session) (key : ℕ) (known : Option Bool) (f : Fetched)
    → Guarded p
    → Hidden s
    → refused known s ≡ false
    → Guarded (settle p id s key known f).0
unfolding settle refused
settle-Guarded p id s key known rejected g h r = g
settle-Guarded p id s key (some private) silent g h r =
    put-Guarded p id (add_torrent s key (some private)) g (ground arith, h)
settle-Guarded p id s key none silent g h r =
    put-Guarded p id (add_torrent s key none) g (ground arith, h)
settle-Guarded p id s key (some private) (metadata flag) g h r =
    put-Guarded p id (add_torrent s key (some private)) g (ground arith, h)
settle-Guarded p id s key none (metadata flag) g h r = elim (Bool-cases (flag && s.dht_on)) [
  | inl e ↦ rw e g
  | inr e ↦ rw e (put-Guarded p id (add_torrent s key (some flag)) g (ground arith, h))
]

get-Hidden :
    (p : Pool) (id : ℕ) (s : Session) → get_elem? p.sessions id ≡ some s → Guarded p → Hidden s
get-Hidden p id s e g = All-get_elem? Hidden p.sessions id e g

add_to-Guarded :
    (w : World) (id : ℕ) (src : Source) (key : ℕ) (mi : Option (Option Bool))
    → Keeps Guarded (add_to w id src key mi)
unfolding add_to
add_to-Guarded w id src key mi p g = elim (Option-cases (get_elem? p.sessions id)) [
  | inl e ↦ rw (e, add_to) g
  | inr (s, e) ↦ elim (Bool-cases (not s.up)) [
    | inl u ↦ rw (e, add_to) (rw u g)
    | inr u ↦ elim (Bool-cases (refused (privacy_in_hand src mi) s)) [
      | inl r ↦ rw (e, add_to) (rw u (rw r g))
      | inr r ↦
          rw (e, add_to)
            (rw u (
              rw r (
                settle-Guarded p id s key (privacy_in_hand src mi) (w.fetch id) g
                  (get-Hidden p id s e g) r)))
    ]
  ]
]

set_lease-Guarded : (id : ℕ) (l : Option ℕ) → Keeps Guarded (set_lease id l)
unfolding set_lease
set_lease-Guarded id l p g = elim (Option-cases (get_elem? p.sessions id)) [
  | inl e ↦ rw (e, set_lease) g
  | inr (s, e) ↦
      rw (e, set_lease) (put-Guarded p id (record s { lease = l }) g (get-Hidden p id s e g))
]

close_session-Guarded : (id : ℕ) → Keeps Guarded (close_session id)
unfolding close_session
close_session-Guarded id p g = elim (Option-cases (get_elem? p.sessions id)) [
  | inl e ↦ rw (e, close_session) g
  | inr (s, e) ↦ elim (Bool-cases s.up) [
    | inl u ↦ rw (e, close_session) (rw u (All-set Hidden p.sessions id _ g tt))
    | inr u ↦ rw (e, close_session) (rw u g)
  ]
]

Guarded-KeptBySteps : KeptBySteps Guarded
unfolding Attach.alone_on Attach.pooled Attach.retire_client
Guarded-KeptBySteps = record {
  lease_port_kept = lease_port-Guarded;
  release_lease_kept = release_lease-Guarded;
  new_session_kept = new_session-Guarded;
  add_to_kept = add_to-Guarded;
  set_lease_kept = set_lease-Guarded;
  close_session_kept = close_session-Guarded;
  alone_on_kept = λ key id p g. g;
  pooled_kept = λ key p g. g;
  retire_client_kept = λ id p g. g;
  set_shared_kept = λ id p g. g;
}

drop-Hidden :
    (s : Session) (key : ℕ) (ts : List Added)
    → All (λ a. exposed s a ≡ false) ts
    → All (λ a. exposed s a ≡ false) (drop_torrent key ts)
unfolding drop_torrent
drop-Hidden s key [] h = tt
drop-Hidden s key (t ∷ ts) h = elim (Bool-cases (t.key == key)) [
  | inl e ↦ rw e (drop-Hidden s key ts h.1)
  | inr e ↦ rw e (h.0, drop-Hidden s key ts h.1)
]

drop_shared-Guarded : (key : ℕ) → Keeps Guarded (Attach.drop_shared key)
unfolding Attach.drop_shared
drop_shared-Guarded key p g = elim (Option-cases p.shared) [
  | inl e ↦ rw (e, Attach.drop_shared) g
  | inr (id, e) ↦ elim (Option-cases (get_elem? p.sessions id)) [
    | inl f ↦ rw (e, Attach.drop_shared) (rw f g)
    | inr (s, f) ↦
        rw (e, Attach.drop_shared)
          (rw f (
            put-Guarded p id (record s { torrents = drop_torrent key s.torrents }) g
              (drop-Hidden s key s.torrents (get-Hidden p id s f g))))
  ]
]

detach_from-Guarded :
    (session : Option ℕ) (key : ℕ) → Keeps Guarded (Attach.detach_from session key)
unfolding Attach.detach_from Attach.retire Attach.release_key
detach_from-Guarded (some id) key p g =
    then-Keeps Guarded (close_session id) (λ _. Attach.release_key key) (close_session-Guarded id)
      (λ _ q h. h) (Attach.retire key id p).0 g
detach_from-Guarded none key p g =
    then-Keeps Guarded (Attach.drop_shared key) (λ _. Attach.release_key key)
      (drop_shared-Guarded key) (λ _ q h. h) p g

detach-Guarded : (i : ℕ) → Keeps Guarded (Attach.detach i)
unfolding Attach.detach
detach-Guarded i p g = elim (Option-cases (get_elem? p.attachments i)) [
  | inl e ↦ rw (e, Attach.detach) g
  | inr (a, e) ↦ elim (Bool-cases a.detached) [
    | inl d ↦ rw (e, Attach.detach) (rw d g)
    | inr d ↦
        rw (e, Attach.detach)
          (rw d (
            detach_from-Guarded a.session a.key
              (record p { attachments = set p.attachments i (record a { detached = true }) }) g))
  ]
]

close_pool-Guarded : Keeps Guarded Attach.close_pool
unfolding Attach.close_pool
close_pool-Guarded p g = elim (Bool-cases p.closed) [
  | inl c ↦ rw c g
  | inr c ↦ elim (Option-cases p.shared) [
    | inl e ↦ rw (c, Attach.close_pool) (rw e g)
    | inr (id, e) ↦ rw (c, Attach.close_pool) (rw e (close_session-Guarded id _ g))
  ]
]

attach_key-Guarded :
    (w : World) (src : Source) (key : ℕ) → Keeps Guarded (Attach.attach_key w src key)
unfolding Attach.attach_key Attach.reserve Attach.release_key
attach_key-Guarded w src key =
    then-Keeps Guarded (Attach.reserve key)
      (λ _. on_error (Attach.attach_routed w src key) (Attach.release_and_fail key))
      (λ p g. ground arith)
      (λ _.
        on_error-Keeps Guarded (Attach.attach_routed w src key) (Attach.release_and_fail key)
          (attach_routed-Keeps Guarded Guarded-KeptBySteps w src key) (λ e p g. g))

attach-Guarded : (w : World) (src : Source) → Keeps Guarded (Attach.attach w src)
unfolding Attach.attach
attach-Guarded w (magnet key n) p g = attach_key-Guarded w (magnet key n) key p g
attach-Guarded w (torrent_file key private n) p g =
    attach_key-Guarded w (torrent_file key private n) key p g
attach-Guarded w empty_source p g = g

receive-Guarded : (id n : ℕ) (p : Pool) → Guarded p → Guarded (Attach.receive id n p)
unfolding Attach.receive
receive-Guarded id n p g = elim (Option-cases (get_elem? p.sessions id)) [
  | inl e ↦ rw (e, Attach.receive) g
  | inr (s, e) ↦
      rw (e, Attach.receive)
        (put-Guarded p id (record s { received = s.received + n }) g (get-Hidden p id s e g))
]

call_pool-Guarded : (p : Pool) (c : Attach.PoolCall) → Guarded p → Guarded (Attach.call_pool p c)
unfolding Attach.call_pool
call_pool-Guarded p (Attach.attaches w src) g = attach-Guarded w src p g
call_pool-Guarded p (Attach.detaches i) g = detach-Guarded i p g
call_pool-Guarded p Attach.closes g = close_pool-Guarded p g
call_pool-Guarded p (Attach.receives id n) g = receive-Guarded id n p g

call_all-Guarded :
    (cs : List Attach.PoolCall) (p : Pool) → Guarded p → Guarded (Attach.call_all p cs)
unfolding Attach.call_all
call_all-Guarded [] p g = g
call_all-Guarded (c ∷ cs) p g = call_all-Guarded cs (Attach.call_pool p c) (call_pool-Guarded p c g)

-- However torrents are attached and detached, by whatever route and with whatever failures on the way,
-- and whatever the library answers: no session that has DHT on holds a torrent that is known to be
-- private.
pub never_exposed :
    (dht : Bool) (port : ℕ) (ports : Option PortPool) (cs : List Attach.PoolCall)
    → Guarded (Attach.call_all (Attach.new_pool dht port ports) cs)
unfolding Attach.new_pool
never_exposed dht port ports cs = call_all-Guarded cs (Attach.new_pool dht port ports) tt
