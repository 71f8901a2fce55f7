-- ===== src/Web/Hub/Consistent.antt =====
-- The hub of internal/web/hub.go as a whole: its lists agree after any calls.
use torpeek.Prelude.{
  ℕ, ◌≡◌, refl, Bool, true, false, List, [], ◌∷◌, if◌then◌else◌, Option, none, some, arith,
  Option-cases, inl, inr, ◌∙◌, subst, sym,
}
use torpeek.Prelude.Ids.{contains, Nodup, contains-cut, Nodup-cut, contains-append, Nodup-snoc}
use torpeek.Web.Hub.{
  Record, RunHistory, Client, Hub, new_hub, append_locked, broadcast_locked, subscribe, drop_client,
  remove, open_run, begin, publish, drop, close,
}

abbrev pub is_some : Option RunHistory → Bool
is_some none = false
is_some (some h) = true

-- The order lists the runs that have a history, each once, and a closed hub has no client.
pub record IsConsistent (h : Hub) : Type 0 where
  pub listed : (i : ℕ) → contains i h.order ≡ is_some (h.runs i)
  pub once : Nodup h.order
  pub shut : h.closed ≡ true → h.clients ≡ []

-- The calls on a hub.
pub data Call : Type 0 where
  subscribes removes drops : ℕ → Call
  begins publishes : ℕ → Record → Call
  closes : Call

pub apply : Hub → Call → Hub
apply h (subscribes id) = (subscribe h id).0
apply h (removes id) = remove h id
apply h (begins run rec) = begin h run rec
apply h (publishes run rec) = publish h run rec
apply h (drops run) = drop h run
apply h closes = close h

pub apply_all : Hub → List Call → Hub
apply_all h [] = h
apply_all h (c ∷ cs) = apply_all (apply h c) cs

append_locked-IsConsistent :
    (h : Hub) (run : ℕ) (rec : Record) → IsConsistent h → IsConsistent (append_locked h run rec)
unfolding append_locked
append_locked-IsConsistent h run rec v = elim (Option-cases (h.runs run)) [
  | inl e ↦ rw (e, append_locked) v
  | inr (g, e) ↦
      rw (e, append_locked)
        (record { listed = λ i. ground (arith, v.listed i); once = v.once; shut = v.shut })
]

open_run-IsConsistent : (h : Hub) (run : ℕ) → IsConsistent h → IsConsistent (open_run h run)
open_run-IsConsistent h run v = elim (Option-cases (h.runs run)) [
  | inr (g, e) ↦ rw (e, open_run) v
  | inl e ↦
      rw (e, open_run)
        (record {
          listed = λ i. ground (arith, v.listed i, contains-append i h.order (run ∷ []));
          once = Nodup-snoc run h.order (ground (arith, v.listed run)) v.once;
          shut = v.shut;
        })
]

drop-IsConsistent : (h : Hub) (run : ℕ) → IsConsistent h → IsConsistent (drop h run)
unfolding drop
drop-IsConsistent h run v = elim (Option-cases (h.runs run)) [
  | inl e ↦ rw (e, drop) v
  | inr (g, e) ↦
      rw (e, drop)
        (record {
          listed = λ i. ground (arith, v.listed i, contains-cut run i h.order v.once);
          once = Nodup-cut run h.order v.once;
          shut = v.shut;
        })
]

-- What is done to the clients of a hub that is open, or to those of any hub if none come.
clients-IsConsistent :
    (h : Hub) (cs : List Client)
    → (h.closed ≡ true → cs ≡ [])
    → IsConsistent h
    → IsConsistent (record h { clients = cs })
clients-IsConsistent h cs e v = record { listed = v.listed; once = v.once; shut = e }

append_locked-closed :
    (h : Hub) (run : ℕ) (rec : Record) → (append_locked h run rec).closed ≡ h.closed
unfolding append_locked
append_locked-closed h run rec = ground arith

open_run-closed : (h : Hub) (run : ℕ) → (open_run h run).closed ≡ h.closed
open_run-closed h run = ground arith

-- A record sent to the clients of an open hub.
broadcast-IsConsistent :
    (h : Hub) (rec : Record)
    → h.closed ≡ false
    → IsConsistent h
    → IsConsistent (broadcast_locked h rec)
unfolding broadcast_locked
broadcast-IsConsistent h rec o v = clients-IsConsistent h _ (λ e. cc) v

-- Both sides of the test whether the hub is closed.
by_closed :
    (b : Bool) (x y : Hub)
    → IsConsistent x
    → (b ≡ false → IsConsistent y)
    → IsConsistent (if b then x else y)
by_closed true x y p q = p
by_closed false x y p q = q refl

subscribed :
    (b : Bool) (x y : Hub × List ℕ)
    → IsConsistent x.0
    → (b ≡ false → IsConsistent y.0)
    → IsConsistent (if b then x else y).0
subscribed true x y p q = p
subscribed false x y p q = q refl

apply-IsConsistent : (h : Hub) (c : Call) → IsConsistent h → IsConsistent (apply h c)
unfolding apply subscribe remove begin publish close
apply-IsConsistent h (subscribes id) v =
    subscribed h.closed _ _ v (λ o. clients-IsConsistent h _ (λ e. cc) v)
apply-IsConsistent h (removes id) v =
    clients-IsConsistent h _ (λ e. subst (λ cs. drop_client cs id ≡ []) (sym (v.shut e)) refl) v
apply-IsConsistent h (drops run) v = drop-IsConsistent h run v
apply-IsConsistent h (begins run rec) v = by_closed h.closed _ _ v λ o.
    (broadcast-IsConsistent (append_locked (open_run h run) run rec) rec
      (append_locked-closed (open_run h run) run rec ∙ open_run-closed h run ∙ o)
      (append_locked-IsConsistent (open_run h run) run rec (open_run-IsConsistent h run v)))
apply-IsConsistent h (publishes run rec) v = by_closed h.closed _ _ v λ o.
    (broadcast-IsConsistent (append_locked h run rec) rec (append_locked-closed h run rec ∙ o)
      (append_locked-IsConsistent h run rec v))
apply-IsConsistent h closes v =
    by_closed h.closed _ _ v λ o. record { listed = v.listed; once = v.once; shut = λ e. refl }

apply_all-IsConsistent : (h : Hub) (cs : List Call) → IsConsistent h → IsConsistent (apply_all h cs)
unfolding apply_all
apply_all-IsConsistent h [] v = v
apply_all-IsConsistent h (c ∷ cs) v =
    apply_all-IsConsistent (apply h c) cs (apply-IsConsistent h c v)

-- After any calls on a new hub, the order lists the runs that have a history, each once, and a
-- closed hub has no client.
pub hub-IsConsistent : (head : Record) (cs : List Call) → IsConsistent (apply_all (new_hub head) cs)
unfolding new_hub
hub-IsConsistent head cs =
    apply_all-IsConsistent (new_hub head) cs
      (record { listed = λ i. refl; once = tt; shut = λ e. refl })
