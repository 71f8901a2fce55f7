-- ===== src/Swarm/Pool/Held.antt =====
-- The keys that are taken (internal/swarm/pool.go): a torrent is attached once, and a failed attachment
-- leaves nothing taken.
use torpeek.Prelude.{
  ℕ, ◌≡◌, refl, true, false, List, ◌∷◌, some, arith, Bool-cases, inl, inr, ◌∙◌, ap, ◌||◌,
}
use torpeek.Prelude.Ids.{contains, cut}
use torpeek.Swarm.Pool.{
  Source, World, Pool, PoolError, Result, ok, err, resume, return, fail, pool_closed, torrent_busy,
  on_error, info_hash,
}
use torpeek.Swarm.Pool.Sessions.{
  lease_port, release_lease, new_session, settle, refused, add_to, set_lease, close_session,
}
use torpeek.Swarm.Pool.Attach
use torpeek.Swarm.Pool.Keeps.{KeptBySteps, attach_routed-Keeps}

abbrev Taken : List ℕ → Pool → Type 0
Taken held p = p.held ≡ held

Taken-KeptBySteps : (held : List ℕ) → KeptBySteps (Taken held)
unfolding lease_port release_lease new_session settle refused add_to set_lease close_session
    Attach.alone_on Attach.pooled Attach.retire_client
Taken-KeptBySteps held = record {
  lease_port_kept = λ p h. ground arith;
  release_lease_kept = λ l p h. h;
  new_session_kept = λ w dht blindly port p h. ground arith;
  add_to_kept = λ w id src key mi p h. ground arith;
  set_lease_kept = λ id l p h. ground arith;
  close_session_kept = λ id p h. ground arith;
  alone_on_kept = λ key id p h. h;
  pooled_kept = λ key p h. h;
  retire_client_kept = λ id p h. h;
  set_shared_kept = λ id p h. h;
}

cut-head : (key : ℕ) (ks : List ℕ) → cut key (key ∷ ks) ≡ ks
unfolding cut
cut-head key ks = ground arith

-- What an attachment comes to: the key is taken by it, or nothing more is taken than before.
abbrev pub Settles : ℕ → List ℕ → Pool × Result ℕ → Type 0
Settles key held (q, ok i) = (contains key held ≡ false) × (q.held ≡ key ∷ held)
Settles key held (q, err e) = q.held ≡ held

release_key-Settles :
    (key : ℕ) (held : List ℕ) (r : Pool × Result ℕ)
    → contains key held ≡ false
    → r.0.held ≡ key ∷ held
    → Settles key held (resume return (Attach.release_and_fail key) r)
unfolding Attach.release_key
release_key-Settles key held (p, ok i) c h = (c, h)
release_key-Settles key held (p, err e) c h = ap (cut key) h ∙ cut-head key held

reserve-refuses :
    (key : ℕ) (p : Pool)
    → p.closed || contains key p.held ≡ true
    → (e : PoolError) × (Attach.reserve key p ≡ (p, err e))
unfolding Attach.reserve
reserve-refuses key p h = elim (Bool-cases p.closed) [
  | inl c ↦ (pool_closed, simp c refl)
  | inr c ↦ (torrent_busy, ground arith)
]

reserve-takes :
    (key : ℕ) (p : Pool)
    → p.closed || contains key p.held ≡ false
    → Attach.reserve key p ≡ (record p { held = key ∷ p.held }, ok tt)
unfolding Attach.reserve
reserve-takes key p h = ground arith

attach_key-reserved :
    (w : World) (src : Source) (key : ℕ) (p : Pool)
    → Attach.attach_key w src key p
      ≡ resume
          (λ _. on_error (Attach.attach_routed w src key) (Attach.release_and_fail key))
          fail
          (Attach.reserve key p)
unfolding Attach.attach_key
attach_key-reserved w src key p = refl

attach_key-Settles :
    (w : World) (src : Source) (key : ℕ) (p : Pool)
    → Settles key p.held (Attach.attach_key w src key p)
attach_key-Settles w src key p = elim (Bool-cases (p.closed || contains key p.held)) [
  | inl b ↦ let (e, r) = reserve-refuses key p b in rw (attach_key-reserved w src key p) (rw r refl)
  | inr b ↦
      let q = record p { held = key ∷ p.held } in
      rw (attach_key-reserved w src key p) (
        rw (reserve-takes key p b) (
          release_key-Settles key p.held (Attach.attach_routed w src key q) (ground arith) (
            attach_routed-Keeps (Taken (key ∷ p.held)) (Taken-KeptBySteps (key ∷ p.held)) w src key
              q refl)))
]

attach-key :
    (w : World) (src : Source) (key : ℕ) (p : Pool)
    → info_hash src ≡ some key
    → Attach.attach w src p ≡ Attach.attach_key w src key p
unfolding Attach.attach
attach-key w src key p e = rw (e, Attach.attach) refl

-- For a source with a hash: a pool that is closed, or has that torrent attached, refuses it and stays
-- as it is. Else, on whatever step `Attach` fails, the torrents attached stay those that were; and when
-- it succeeds, this one was not attached before, and it alone has come to them.
pub attach_held :
    (w : World) (src : Source) (key : ℕ) (p : Pool)
    → info_hash src ≡ some key
    → (p.closed || contains key p.held ≡ true
        → (e : PoolError) × (Attach.attach w src p ≡ (p, err e)))
      × Settles key p.held (Attach.attach w src p)
attach_held w src key p e = rw (attach-key w src key p e) (
  (λ b.
      let (why, r) = reserve-refuses key p b in
      (why, rw (attach_key-reserved w src key p) (rw r refl))),
  attach_key-Settles w src key p,
)
