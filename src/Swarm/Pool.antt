-- ===== src/Swarm/Pool.antt =====
-- internal/swarm/pool.go, with policy.go and the parts of session.go and source.go that it composes:
-- which client a torrent goes to. A client is a session, kept under its number; what the BitTorrent
-- library answers is the argument `World`. Peers, which are only handed on to it, are left out.
mod Sessions
mod Attach
mod Keeps
mod Private
mod Held
mod Tests
use torpeek.Prelude.{
  ℕ, ◌+◌, Bool, true, false, not, ◌&&◌, List, [], ◌∷◌, ◌==◌, if◌then◌else◌, length, get_elem?,
  Option, none, some,
}
use torpeek.Swarm.Ports.{PortPool}

-- A magnet, with how many trackers it names; or a torrent file, with its private flag. The key is the
-- hash of the info dictionary.
pub data Source : Type 0 where
  magnet : ℕ → ℕ → Source
  torrent_file : ℕ → Bool → ℕ → Source
  empty_source : Source

unfoldable pub info_hash : Source → Option ℕ
info_hash (magnet key n) = some key
info_hash (torrent_file key private n) = some key
info_hash empty_source = none

unfoldable pub trackers : Source → ℕ
trackers (magnet key n) = n
trackers (torrent_file key private n) = n
trackers empty_source = 0

-- The private flag where the source states it: `(private, known)` of the source as `none` when it is
-- not known.
unfoldable pub privacy : Source → Option Bool
privacy (torrent_file key private n) = some private
privacy (magnet key n) = none
privacy empty_source = none

-- Metadata in hand: its flag, or `none` where the info could not be read.
unfoldable pub privacy_in_hand : Source → Option (Option Bool) → Option Bool
unfolding privacy
privacy_in_hand src (some info) = info
privacy_in_hand src none = privacy src

-- What adding a torrent comes to: refused by the library, no metadata in time, or metadata with its
-- private flag.
pub data Fetched : Type 0 where
  rejected silent : Fetched
  metadata : Bool → Fetched

-- By the session's number: whether it starts, what it fetches, and whether the metadata of its torrent
-- can be read again when carried over.
pub record World : Type 0 where
  pub starts : ℕ → Bool
  pub fetch : ℕ → Fetched
  pub readable : ℕ → Bool

-- A torrent in a session, with its private flag if that is known there.
pub record Added : Type 0 where
  pub key : ℕ
  pub flag : Option Bool

pub record Session : Type 0 where
  pub dht_on : Bool
  pub blindly : Bool
  pub port : ℕ
  pub lease : Option ℕ
  pub up : Bool
  pub received : ℕ
  pub torrents : List Added

-- `session` is the client held for this attachment alone; `none` is the shared one.
pub record Attachment : Type 0 where
  pub key : ℕ
  pub session : Option ℕ
  pub detached : Bool

-- The pool and what hangs on it: every session and every attachment ever made, by number.
pub record Pool : Type 0 where
  pub dht : Bool
  pub listen_port : ℕ
  pub ports : Option PortPool
  pub sessions : List Session
  pub shared : Option ℕ
  pub held : List ℕ
  pub alone : List (ℕ × ℕ)
  pub retired : ℕ
  pub closed : Bool
  pub attachments : List Attachment

pub data PoolError : Type 0 where
  no_hash pool_closed torrent_busy privacy_unresolvable no_port port_twice not_started : PoolError
  session_closed private_on_dht not_added no_metadata public_only : PoolError

pub data Result {ℓ} (A : Type ℓ) : Type ℓ where
  ok : A → Result A
  err : PoolError → Result A

-- A step on the pool, which also changes it when it fails.
abbrev pub M {ℓ} : Type ℓ → Type ℓ
M A = Pool → Pool × Result A

abbrev pub return {ℓ} : {A : Type ℓ} → A → M A
return a p = (p, ok a)

abbrev pub fail {ℓ} : {A : Type ℓ} → PoolError → M A
fail e p = (p, err e)

abbrev pub modify : (Pool → Pool) → M (Unit {0})
modify f p = (f p, ok tt)

abbrev pub read {ℓ} : {A : Type ℓ} → (Pool → A) → M A
read f p = (p, ok (f p))

abbrev pub resume {ℓ κ} :
    {A : Type ℓ} {B : Type κ} → (A → M B) → (PoolError → M B) → Pool × Result A → Pool × Result B
resume f g (p, ok a) = f a p
resume f g (p, err e) = g e p

-- A step, then what follows it or what is done when it fails.
abbrev pub attempt {ℓ κ} : {A : Type ℓ} {B : Type κ} → M A → (A → M B) → (PoolError → M B) → M B
attempt m f g p = resume f g (m p)

infixl 5 ◌>>=◌ ◌>>◌
abbrev pub ◌>>=◌ {ℓ κ} : {A : Type ℓ} {B : Type κ} → M A → (A → M B) → M B
◌>>=◌ m f = attempt m f fail

abbrev pub ◌>>◌ {ℓ} : {B : Type ℓ} → M (Unit {0}) → M B → M B
m >> k = m >>= λ _. k

abbrev pub on_error {ℓ} : {A : Type ℓ} → M A → (PoolError → M A) → M A
on_error m g = attempt m return g

abbrev pub ensure : Bool → PoolError → M (Unit {0})
ensure true e = return tt
ensure false e = fail e
