-- ===== src/Swarm/PortSet.antt =====
-- The sets of ports of internal/swarm/ports.go, as an operator writes them and as they are printed.
mod Print
mod Parse
mod Tests
use torpeek.Prelude.{
  ℕ, zero, suc, ◌+◌, ◌-◌, Bool, true, false, ◌||◌, List, [], ◌∷◌, ◌++◌, map, ◌==◌, ltb, leb,
  if◌then◌else◌, Option, none, some,
}
use torpeek.Prelude.Int.{pos, negsuc}
use torpeek.Prelude.Ids.{contains}
use torpeek.Prelude.Text.{trim_space, cut_at, parse_int, split, join, itoa}

pub data SpecError : Type 0 where
  no_ports listed_twice empty_entry not_a_number outside backwards : SpecError

pub data Parsed : Type 0 where
  ok : List ℕ → Parsed
  err : SpecError → Parsed

abbrev pub and_then : Parsed → (List ℕ → Parsed) → Parsed
and_then (ok ps) f = f ps
and_then (err e) f = err e

-- One port, as a list of one.
unfoldable pub parse_port : List ℕ → Parsed
unfolding parse_int
parse_port cs = elim (parse_int cs) [
  | none ↦ err not_a_number
  | some (negsuc n) ↦ err outside
  | some (pos n) ↦ if ltb n 1 || ltb 65535 n then err outside else ok (n ∷ [])
]

unfoldable pub add : List ℕ → ℕ → Parsed
add ports port = if contains port ports then err listed_twice else ok (ports ++ (port ∷ []))

-- The loop over a range, with the ports left in it.
unfoldable pub add_range : List ℕ → ℕ → ℕ → Parsed
unfolding add
add_range ports port zero = ok ports
add_range ports port (suc n) = and_then (add ports port) λ ps. add_range ps (port + 1) n

abbrev pub with_port : Parsed → (ℕ → Parsed) → Parsed
with_port (ok []) f = ok []
with_port (ok (p ∷ ps)) f = f p
with_port (err e) f = err e

unfoldable pub add_pair : List ℕ → ℕ → ℕ → Parsed
unfolding add_range
add_pair ports first last =
    if ltb last first then err backwards else add_range ports first (last + 1 - first)

unfoldable pub add_entry : List ℕ → List ℕ → Parsed
unfolding parse_port add add_pair cut_at trim_space
add_entry ports [] = err empty_entry
add_entry ports (c ∷ cs) = elim (cut_at 45 (c ∷ cs)) [
  | none ↦ with_port (parse_port (c ∷ cs)) (add ports)
  | some (lo, hi) ↦
      with_port (parse_port (trim_space lo))
        λ first. with_port (parse_port (trim_space hi)) (add_pair ports first)
]

unfoldable pub add_entries : List ℕ → List (List ℕ) → Parsed
unfolding add_entry trim_space
add_entries ports [] = ok ports
add_entries ports (item ∷ items) =
    and_then (add_entry ports (trim_space item)) λ ps. add_entries ps items

-- What `sort.Ints` makes of the ports.
unfoldable pub insert_port : ℕ → List ℕ → List ℕ
insert_port p [] = p ∷ []
insert_port p (q ∷ qs) = let rest = insert_port p qs in if ltb q p then q ∷ rest else p ∷ q ∷ qs

unfoldable pub sort_ports : List ℕ → List ℕ
unfolding insert_port
sort_ports [] = []
sort_ports (p ∷ ps) = insert_port p (sort_ports ps)

abbrev pub is_blank : List ℕ → Bool
is_blank [] = true
is_blank (c ∷ cs) = false

unfoldable pub parse_port_set : List ℕ → Parsed
unfolding trim_space add_entries split sort_ports
parse_port_set spec =
    if is_blank (trim_space spec)
    then err no_ports
    else and_then (add_entries [] (split 44 spec)) λ ps. ok (sort_ports ps)

-- The runs of consecutive ports, with the run from `lo` to `hi` in hand.
unfoldable pub runs_from : ℕ → ℕ → List ℕ → List (ℕ × ℕ)
runs_from lo hi [] = (lo, hi) ∷ []
runs_from lo hi (p ∷ ps) = elim (p == hi + 1) [
  | true ↦ runs_from lo p ps
  | false ↦ (lo, hi) ∷ runs_from p p ps
]

abbrev pub runs : List ℕ → List (ℕ × ℕ)
runs [] = []
runs (p ∷ ps) = runs_from p p ps

unfoldable pub print_run : ℕ × ℕ → List ℕ
unfolding itoa
print_run (lo, hi) = if lo == hi then itoa lo else itoa lo ++ (45 ∷ itoa hi)

unfoldable pub print_port_set : List ℕ → List ℕ
unfolding runs_from print_run join
print_port_set ports = join 44 (map print_run (runs ports))
