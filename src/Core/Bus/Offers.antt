-- ===== src/Core/Bus/Offers.antt =====
-- What all subscribers of internal/core/bus.go are sent, by the calls of the bus.
use torpeek.Prelude.{
  ℕ, zero, suc, ◌+◌, ◌≡◌, refl, Bool, true, false, List, [], ◌∷◌, ◌++◌, if◌then◌else◌, map,
  get_elem?, set, some_inj, some, arith, Option-cases, inl, inr, subst,
}
use torpeek.Prelude.Int.{ℤ}
use torpeek.Core.Bus.{
  BusEvent, Subscriber, Bus, new_bus, bus_subscribe, unsubscribe, take_one, publish_each,
  bus_publish, close_each, bus_close, bus_read, BusCall, subscribes, closes, unsubscribes,
  reads_one, publishes, call_bus, call_bus_all,
}
use torpeek.Core.Bus.Delivery.{nothing, Delivered, take_one-Delivered, publish_to-Delivered}

-- What each subscriber was offered: the events published since it came, until the bus was closed.
abbrev pub offered_from : Bool → List (List BusEvent) → List BusCall → List (List BusEvent)
offered_from shut os [] = os
offered_from shut os (subscribes ∷ cs) = offered_from shut (if shut then os else os ++ ([] ∷ [])) cs
offered_from shut os (closes ∷ cs) = offered_from true os cs
offered_from shut os (unsubscribes id ∷ cs) = offered_from shut os cs
offered_from shut os (reads_one id ∷ cs) = offered_from shut os cs
offered_from shut os (publishes e reads ∷ cs) =
    offered_from shut (if shut then os else map (λ o. o ++ (e ∷ [])) os) cs

-- Each subscriber was delivered what it was offered.
abbrev pub AllDelivered : ℕ → List (List BusEvent) → List Subscriber → Type 0
AllDelivered buffer [] [] = Unit
AllDelivered buffer [] (s ∷ ss) = ⊥
AllDelivered buffer (o ∷ os) [] = ⊥
AllDelivered buffer (o ∷ os) (s ∷ ss) = Delivered buffer o s × AllDelivered buffer os ss

append-AllDelivered :
    (buffer : ℕ) (os : List (List BusEvent)) (ss : List Subscriber) (s : Subscriber)
    → AllDelivered buffer os ss
    → Delivered buffer [] s
    → AllDelivered buffer (os ++ ([] ∷ [])) (ss ++ (s ∷ []))
append-AllDelivered buffer [] [] s d v = (v, tt)
append-AllDelivered buffer [] (x ∷ ss) s d v = elim d [ ]
append-AllDelivered buffer (o ∷ os) [] s d v = elim d [ ]
append-AllDelivered buffer (o ∷ os) (x ∷ ss) s (d, ds) v =
    (d, append-AllDelivered buffer os ss s ds v)

set-AllDelivered :
    (buffer : ℕ) (os : List (List BusEvent)) (ss : List Subscriber) (i : ℕ) (s v : Subscriber)
    → AllDelivered buffer os ss
    → get_elem? ss i ≡ some s
    → ((o : List BusEvent) → Delivered buffer o s → Delivered buffer o v)
    → AllDelivered buffer os (set ss i v)
set-AllDelivered buffer [] [] i s v d e k = d
set-AllDelivered buffer [] (x ∷ ss) i s v d e k = elim d [ ]
set-AllDelivered buffer (o ∷ os) [] i s v d e k = d
set-AllDelivered buffer (o ∷ os) (x ∷ ss) zero s v (d, ds) e k =
    (k o (subst (λ y. Delivered buffer o y) (some_inj x s e) d), ds)
set-AllDelivered buffer (o ∷ os) (x ∷ ss) (suc i) s v (d, ds) e k =
    (d, set-AllDelivered buffer os ss i s v ds e k)

publish_each-AllDelivered :
    (buffer : ℕ) (e : BusEvent) (reads : ℕ → Bool) (i : ℕ) (os : List (List BusEvent))
    (ss : List Subscriber)
    → AllDelivered buffer os ss
    → AllDelivered buffer (map (λ o. o ++ (e ∷ [])) os) (publish_each buffer e reads i ss)
unfolding publish_each
publish_each-AllDelivered buffer e reads i [] [] d = tt
publish_each-AllDelivered buffer e reads i [] (s ∷ ss) d = elim d [ ]
publish_each-AllDelivered buffer e reads i (o ∷ os) [] d = elim d [ ]
publish_each-AllDelivered buffer e reads i (o ∷ os) (s ∷ ss) (d, ds) = (
  publish_to-Delivered buffer o e (reads i) s d,
  publish_each-AllDelivered buffer e reads (i + 1) os ss ds,
)

close_each-AllDelivered :
    (buffer : ℕ) (os : List (List BusEvent)) (ss : List Subscriber)
    → AllDelivered buffer os ss
    → AllDelivered buffer os (close_each ss)
unfolding close_each
close_each-AllDelivered buffer [] [] d = tt
close_each-AllDelivered buffer [] (s ∷ ss) d = elim d [ ]
close_each-AllDelivered buffer (o ∷ os) [] d = elim d [ ]
close_each-AllDelivered buffer (o ∷ os) (s ∷ ss) ((t, n, m, q), ds) =
    ((t, n, m, λ l. cc), close_each-AllDelivered buffer os ss ds)

-- The bus is shut or not, and its subscribers were delivered what they were offered.
abbrev pub Delivers : Bool → List (List BusEvent) → Bus → Type 0
Delivers shut os b = (b.closed ≡ shut) × AllDelivered b.buffer os b.subs

either : (P : Bus → Type 0) (c : Bool) (x y : Bus) → P x → P y → P (if c then x else y)
either P true x y h k = h
either P false x y h k = k

subscribe-Delivers :
    (shut : Bool) (os : List (List BusEvent)) (b : Bus)
    → Delivers shut os b
    → Delivers shut (if shut then os else os ++ ([] ∷ [])) (bus_subscribe b).0
unfolding bus_subscribe
subscribe-Delivers true os b (h, d) = rw (h, bus_subscribe) (refl, d)
subscribe-Delivers false os b (h, d) =
    rw (h, bus_subscribe)
      (
        refl,
        append-AllDelivered b.buffer os b.subs _ d (nothing, omega arith, omega arith, λ l. refl),
      )

unsubscribe-Delivers :
    (shut : Bool) (os : List (List BusEvent)) (id : ℕ) (b : Bus)
    → Delivers shut os b
    → Delivers shut os (unsubscribe id b)
unfolding unsubscribe
unsubscribe-Delivers shut os id b (h, d) = elim (Option-cases (get_elem? b.subs id)) [
  | inl e ↦ rw (e, unsubscribe) (h, d)
  | inr (s, e) ↦
      let marked = record s { cancelled = true } in
      rw (e, unsubscribe)
        (either (Delivers shut os) s.live (record b { subs = set b.subs id marked }) b
          (h, set-AllDelivered b.buffer os b.subs id s marked d e (λ o v. v)) (h, d))
]

publish-Delivers :
    (shut : Bool) (os : List (List BusEvent)) (e : BusEvent) (reads : ℕ → Bool) (b : Bus)
    → Delivers shut os b
    → Delivers shut (if shut then os else map (λ o. o ++ (e ∷ [])) os) (bus_publish e reads b)
unfolding bus_publish
publish-Delivers true os e reads b (h, d) = rw (h, bus_publish) (refl, d)
publish-Delivers false os e reads b (h, d) =
    rw (h, bus_publish) (refl, publish_each-AllDelivered b.buffer e reads 0 os b.subs d)

close-Delivers :
    (shut : Bool) (os : List (List BusEvent)) (b : Bus)
    → Delivers shut os b
    → Delivers true os (bus_close b)
unfolding bus_close
close-Delivers true os b (h, d) = rw (h, bus_close) (refl, d)
close-Delivers false os b (h, d) =
    rw (h, bus_close) (refl, close_each-AllDelivered b.buffer os b.subs d)

read-Delivers :
    (shut : Bool) (os : List (List BusEvent)) (id : ℕ) (b : Bus)
    → Delivers shut os b
    → Delivers shut os (bus_read id b)
unfolding bus_read
read-Delivers shut os id b (h, d) = elim (Option-cases (get_elem? b.subs id)) [
  | inl e ↦ rw (e, bus_read) (h, d)
  | inr (s, e) ↦
      rw (e, bus_read)
        (
          h,
          set-AllDelivered b.buffer os b.subs id s (take_one s) d e
              (λ o v. take_one-Delivered b.buffer o s v),
        )
]

-- The bus after the calls was delivered what the calls offered.
abbrev pub Served : List (List BusEvent) → Bus → Type 0
Served os b = AllDelivered b.buffer os b.subs

call_bus_all-Served :
    (cs : List BusCall) (shut : Bool) (os : List (List BusEvent)) (b : Bus)
    → Delivers shut os b
    → Served (offered_from shut os cs) (call_bus_all b cs)
unfolding call_bus_all call_bus
call_bus_all-Served [] shut os b (h, d) = d
call_bus_all-Served (subscribes ∷ cs) shut os b d =
    call_bus_all-Served cs shut _ (bus_subscribe b).0 (subscribe-Delivers shut os b d)
call_bus_all-Served (closes ∷ cs) shut os b d =
    call_bus_all-Served cs true os (bus_close b) (close-Delivers shut os b d)
call_bus_all-Served (unsubscribes id ∷ cs) shut os b d =
    call_bus_all-Served cs shut os (unsubscribe id b) (unsubscribe-Delivers shut os id b d)
call_bus_all-Served (reads_one id ∷ cs) shut os b d =
    call_bus_all-Served cs shut os (bus_read id b) (read-Delivers shut os id b d)
call_bus_all-Served (publishes e reads ∷ cs) shut os b d =
    call_bus_all-Served cs shut _ (bus_publish e reads b) (publish-Delivers shut os e reads b d)

-- After any calls of a new bus, in any order and with any readers: what a subscriber has read, and then what
-- lies in its buffer, is what was published from its subscription until the bus was closed, in order, with
-- some events left out. With the events that it dropped these are no more than were published then, and for
-- a subscriber that is still in the bus exactly as many; and its buffer holds no more than it can.
pub bus_lem :
    (buffer : ℤ) (cs : List BusCall)
    → Served (offered_from false [] cs) (call_bus_all (new_bus buffer) cs)
unfolding new_bus
bus_lem buffer cs = call_bus_all-Served cs false [] (new_bus buffer) (refl, tt)
