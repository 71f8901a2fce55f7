-- ===== src/Swarm/PortSet/Tests.antt =====
-- Sets of ports as in the comments of internal/swarm/ports.go.
use torpeek.Prelude.{ℕ, ◌≡◌, refl, List, [], ◌∷◌, arith}
use torpeek.Swarm.PortSet.{
  ok, err, listed_twice, backwards, no_ports, outside, parse_port_set, print_port_set,
}
use torpeek.Swarm.PortSet.Parse.{parse_port_set-print_port_set}

-- "51000-51002,51010".
abbrev holed_spec : List ℕ
holed_spec = 53 ∷ 49 ∷ 48 ∷ 48 ∷ 48 ∷ 45 ∷ 53 ∷ 49 ∷ 48 ∷ 48 ∷ 50 ∷ 44 ∷ 53 ∷ 49 ∷ 48 ∷ 49 ∷ 48 ∷ []

abbrev holed : List ℕ
holed = 51000 ∷ 51001 ∷ 51002 ∷ 51010 ∷ []

read_holed : parse_port_set holed_spec ≡ ok holed
unfolding parse_port_set
read_holed = refl

-- " 9, 7 - 8": out of order and spaced.
read_spaced : parse_port_set (32 ∷ 57 ∷ 44 ∷ 32 ∷ 55 ∷ 32 ∷ 45 ∷ 32 ∷ 56 ∷ []) ≡ ok (7 ∷ 8 ∷ 9 ∷ [])
unfolding parse_port_set
read_spaced = refl

-- "7-9,8", "9-7", "" and "0".
read_repeated : parse_port_set (55 ∷ 45 ∷ 57 ∷ 44 ∷ 56 ∷ []) ≡ err listed_twice
unfolding parse_port_set
read_repeated = refl

read_backwards : parse_port_set (57 ∷ 45 ∷ 55 ∷ []) ≡ err backwards
unfolding parse_port_set
read_backwards = refl

read_nothing : parse_port_set [] ≡ err no_ports
unfolding parse_port_set
read_nothing = refl

read_zero : parse_port_set (48 ∷ []) ≡ err outside
unfolding parse_port_set
read_zero = refl

printed_holed : print_port_set holed ≡ holed_spec
unfolding print_port_set
printed_holed = refl

parse_port_set-print_port_set_example : parse_port_set (print_port_set holed) ≡ ok holed
parse_port_set-print_port_set_example =
    parse_port_set-print_port_set 51000 (51001 ∷ 51002 ∷ 51010 ∷ []) (omega arith) (omega arith)
