-- ===== src/Prelude/Text.antt =====
-- What the source uses of Go's packages `strings` and `strconv`. A string is the list of its runes.
pub mod Laws
use Prim.Native.Nat.{ℕ, zero, suc, ◌+◌, ◌-◌, ◌*◌, ◌/◌, ◌%◌}
use mathlib.Core.Bool.{Bool, true, false, not, ◌&&◌, ◌||◌}
use mathlib.Core.Option.{Option, none, some}
use mathlib.Core.List.{List, [], ◌∷◌, ◌++◌}
use torpeek.Prelude.Tests.{ltb, leb, ◌==◌, if◌then◌else◌}
use torpeek.Prelude.Int.{ℤ, pos, negsuc}

unfoldable pub is_space : ℕ → Bool
is_space c =
    (leb 9 c && leb c 13)
    || c == 32
    || c == 133
    || c == 160
    || c == 5760
    || (leb 8192 c && leb c 8202)
    || c == 8232
    || c == 8233
    || c == 8239
    || c == 8287
    || c == 12288

-- `==` on strings.
unfoldable pub same : List ℕ → List ℕ → Bool
same [] [] = true
same [] (d ∷ ds) = false
same (c ∷ cs) [] = false
same (c ∷ cs) (d ∷ ds) = c == d && same cs ds

unfoldable pub trim_left : List ℕ → List ℕ
unfolding is_space
trim_left [] = []
trim_left (c ∷ cs) = let rest = trim_left cs in if is_space c then rest else c ∷ cs

unfoldable pub trim_right : List ℕ → List ℕ
unfolding is_space
trim_right [] = []
trim_right (c ∷ cs) = elim (trim_right cs) [
  | [] ↦ if is_space c then [] else c ∷ []
  | d ∷ ds ↦ c ∷ d ∷ ds
]

unfoldable pub trim_space : List ℕ → List ℕ
unfolding trim_left trim_right
trim_space cs = trim_right (trim_left cs)

unfoldable pub cut_prefix : List ℕ → List ℕ → Option (List ℕ)
cut_prefix cs [] = some cs
cut_prefix [] (p ∷ ps) = none
cut_prefix (c ∷ cs) (p ∷ ps) = let rest = cut_prefix cs ps in if c == p then rest else none

unfoldable pub has_rune : ℕ → List ℕ → Bool
has_rune c [] = false
has_rune c (d ∷ ds) = c == d || has_rune c ds

-- What stands before the first `c` and after it.
unfoldable pub cut_at : ℕ → List ℕ → Option (List ℕ × List ℕ)
cut_at c [] = none
cut_at c (d ∷ ds) =
    let rest = cut_at c ds in
    if c == d
    then some ([], ds)
    else (elim rest [ none ↦ none | some (before, after) ↦ some (d ∷ before, after) ])

unfoldable pub digits_from : ℕ → List ℕ → Option ℕ
digits_from n [] = some n
digits_from n (c ∷ cs) =
    let rest = digits_from (n * 10 + (c - 48)) cs in if leb 48 c && leb c 57 then rest else none

unfoldable pub unsigned : List ℕ → Option ℕ
unfolding digits_from
unsigned [] = none
unsigned (c ∷ cs) = digits_from 0 (c ∷ cs)

abbrev pub positive : Option ℕ → Option ℤ
positive none = none
positive (some n) = if leb n 9223372036854775807 then some (pos n) else none

abbrev pub negative : Option ℕ → Option ℤ
negative none = none
negative (some zero) = some (pos 0)
negative (some (suc n)) = if leb n 9223372036854775807 then some (negsuc n) else none

-- A decimal `int64` with a sign or without.
unfoldable pub parse_int : List ℕ → Option ℤ
unfolding unsigned
parse_int [] = none
parse_int (c ∷ cs) =
    if c == 45
    then negative (unsigned cs)
    else if c == 43
    then positive (unsigned cs)
    else positive (unsigned (c ∷ cs))

-- `strings.Split`: the pieces between the runes `c`, one at least.
abbrev push_rune : ℕ → List (List ℕ) → List (List ℕ)
push_rune d [] = (d ∷ []) ∷ []
push_rune d (w ∷ ws) = (d ∷ w) ∷ ws

unfoldable pub split : ℕ → List ℕ → List (List ℕ)
split c [] = [] ∷ []
split c (d ∷ ds) = let rest = split c ds in if c == d then [] ∷ rest else push_rune d rest

-- `strings.Join`, with the rune `c` between the pieces.
unfoldable pub join : ℕ → List (List ℕ) → List ℕ
join c [] = []
join c (w ∷ []) = w
join c (w ∷ v ∷ ws) = w ++ (c ∷ join c (v ∷ ws))

-- The decimal digits of a number before those of `acc`; a number has no more digits than itself plus one.
unfoldable pub digits_of : ℕ → ℕ → List ℕ → List ℕ
digits_of zero n acc = acc
digits_of (suc fuel) n acc =
    let rest = digits_of fuel (n / 10) ((48 + n % 10) ∷ acc) in
    if leb n 9 then (48 + n) ∷ acc else rest

-- `strconv.Itoa` of a number that is not negative.
unfoldable pub itoa : ℕ → List ℕ
unfolding digits_of
itoa n = digits_of (suc n) n []
