-- ===== src/Core/Bus/Tests.antt =====
-- A bus of internal/core/bus.go whose buffers hold one event.
use torpeek.Prelude.{◌≡◌, refl, true, false, List, [], ◌∷◌}
use torpeek.Prelude.Int.{pos}
use torpeek.Core.Bus.{
  ordinary, terminal, new_bus, BusCall, subscribes, publishes, call_bus_all, count_dropped,
}
use torpeek.Core.Bus.Offers.{Served, offered_from, bus_lem}

abbrev run_calls : List BusCall
run_calls =
    subscribes
    ∷ publishes (ordinary 1) (λ i. false)
    ∷ publishes (ordinary 2) (λ i. false)
    ∷ publishes (terminal 3) (λ i. true)
    ∷ []

-- The second event is dropped, and the terminal one waits until the reader has made room.
dropped_one : count_dropped (call_bus_all (new_bus (pos 1)) run_calls).subs ≡ 1
unfolding call_bus_all new_bus count_dropped
dropped_one = refl

bus_lem_example :
    Served (offered_from false [] run_calls) (call_bus_all (new_bus (pos 1)) run_calls)
bus_lem_example = bus_lem (pos 1) run_calls
