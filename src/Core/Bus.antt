-- ===== src/Core/Bus.antt =====
-- internal/core/bus.go: events go to every subscriber. A subscriber is kept under its number, with what its
-- reader has taken from its channel and what still lies in the buffer; one that is not live is no longer
-- in the bus, and its channel is closed.
mod Delivery
mod Offers
mod Tests
use torpeek.Prelude.{
  ℕ, ◌+◌, Bool, true, false, not, ◌&&◌, List, [], ◌∷◌, ◌++◌, ltb, if◌then◌else◌, length, get_elem?,
  set, Option, none, some,
}
use torpeek.Prelude.Int.{ℤ, pos, leb_ℤ, pos_part}

-- `Done` and `Failed` are terminal, the others are not.
pub data BusEvent : Type 0 where
  ordinary terminal : ℕ → BusEvent

abbrev pub is_terminal : BusEvent → Bool
is_terminal (ordinary n) = false
is_terminal (terminal n) = true

pub record Subscriber : Type 0 where
  pub taken : List BusEvent
  pub pending : List BusEvent
  pub cancelled : Bool
  pub dropped : ℕ
  pub live : Bool

pub record Bus : Type 0 where
  pub subs : List Subscriber
  pub closed : Bool
  pub buffer : ℕ

abbrev pub default_buffer : ℕ
default_buffer = 64

unfoldable pub new_bus : ℤ → Bus
new_bus buffer = record {
  subs = [];
  closed = false;
  buffer = if leb_ℤ buffer (pos 0) then default_buffer else pos_part buffer;
}

-- The number of the new subscriber; a bus that is closed has none.
unfoldable pub bus_subscribe : Bus → Bus × Option ℕ
bus_subscribe b =
    let fresh : Subscriber = record {
      taken = [];
      pending = [];
      cancelled = false;
      dropped = 0;
      live = true;
    } in
    if b.closed
    then (b, none)
    else (record b { subs = b.subs ++ (fresh ∷ []) }, some (length b.subs))

unfoldable pub unsubscribe : ℕ → Bus → Bus
unsubscribe id b = elim (get_elem? b.subs id) [
  | none ↦ b
  | some s ↦ if s.live then record b { subs = set b.subs id (record s { cancelled = true }) } else b
]

-- The reader takes the first event of its buffer.
unfoldable pub take_one : Subscriber → Subscriber
take_one s = elim s.pending [
  | [] ↦ s
  | e ∷ es ↦ record s { taken = s.taken ++ (e ∷ []); pending = es }
]

-- An event for a subscriber that is in the bus. `reads` says that its reader takes one while a terminal event
-- waits for room.
unfoldable pub deliver : ℕ → BusEvent → Bool → Subscriber → Subscriber
unfolding take_one
deliver buffer e reads s =
    let s' =
      if is_terminal e && reads && not (ltb (length s.pending) buffer) then take_one s else s in
    if ltb (length s'.pending) buffer
    then record s' { pending = s'.pending ++ (e ∷ []) }
    else record s' { dropped = s'.dropped + 1 }

-- Whoever has cancelled is retired, the others are sent the event.
unfoldable pub publish_to : ℕ → BusEvent → Bool → Subscriber → Subscriber
unfolding deliver
publish_to buffer e reads s =
    if not s.live
    then s
    else if s.cancelled
    then record s { live = false }
    else deliver buffer e reads s

-- The subscribers from the `i`th on.
unfoldable pub publish_each : ℕ → BusEvent → (ℕ → Bool) → ℕ → List Subscriber → List Subscriber
unfolding publish_to
publish_each buffer e reads i [] = []
publish_each buffer e reads i (s ∷ ss) =
    publish_to buffer e (reads i) s ∷ publish_each buffer e reads (i + 1) ss

unfoldable pub bus_publish : BusEvent → (ℕ → Bool) → Bus → Bus
unfolding publish_each
bus_publish e reads b =
    if b.closed then b else record b { subs = publish_each b.buffer e reads 0 b.subs }

unfoldable pub count_dropped : List Subscriber → ℕ
count_dropped [] = 0
count_dropped (s ∷ ss) = let rest = count_dropped ss in if s.live then s.dropped + rest else rest

unfoldable pub close_each : List Subscriber → List Subscriber
close_each [] = []
close_each (s ∷ ss) = record s { live = false } ∷ close_each ss

unfoldable pub bus_close : Bus → Bus
unfolding close_each
bus_close b = if b.closed then b else record b { closed = true; subs = close_each b.subs }

-- A reader takes an event from its channel, whether it is closed or not.
unfoldable pub bus_read : ℕ → Bus → Bus
unfolding take_one
bus_read id b = elim (get_elem? b.subs id) [
  | none ↦ b
  | some s ↦ record b { subs = set b.subs id (take_one s) }
]

pub data BusCall : Type 0 where
  subscribes closes : BusCall
  unsubscribes reads_one : ℕ → BusCall
  publishes : BusEvent → (ℕ → Bool) → BusCall

unfoldable pub call_bus : Bus → BusCall → Bus
unfolding bus_subscribe unsubscribe bus_publish bus_close bus_read
call_bus b subscribes = (bus_subscribe b).0
call_bus b closes = bus_close b
call_bus b (unsubscribes id) = unsubscribe id b
call_bus b (reads_one id) = bus_read id b
call_bus b (publishes e reads) = bus_publish e reads b

unfoldable pub call_bus_all : Bus → List BusCall → Bus
unfolding call_bus
call_bus_all b [] = b
call_bus_all b (c ∷ cs) = call_bus_all (call_bus b c) cs
