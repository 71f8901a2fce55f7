-- ===== src/Web/Address.antt =====
-- The address of one arm of a comparison, internal/web/compare.go: setAddr with String and parseSetAddr, and the
-- gates validInfoHash and validParams of internal/web/listing.go. A string is the list of its runes. The index of
-- an address is a file's number, never negative.
pub mod Laws
mod Tests
use torpeek.Prelude.{
  ℕ, Bool, true, false, ◌&&◌, ◌||◌, not, List, [], ◌∷◌, ◌++◌, ◌==◌, leb, ltb, if◌then◌else◌, Option,
  none, some, length,
}
use torpeek.Prelude.Int.{ℤ, pos, negsuc}
use torpeek.Prelude.Text.{trim_space, split, itoa, parse_int}

pub record SetAddr : Type 0 where
  pub info_hash : List ℕ
  pub params : List ℕ
  pub index : ℕ

-- A digit or one of the letters from `a` to `f`.
abbrev pub is_hex : ℕ → Bool
is_hex c = not ((ltb c 48 || ltb 57 c) && (ltb c 97 || ltb 102 c))

unfoldable pub all_hex : List ℕ → Bool
all_hex [] = true
all_hex (c ∷ cs) = is_hex c && all_hex cs

unfoldable pub hex_of_length : List ℕ → ℕ → Bool
unfolding all_hex
hex_of_length s n = (length s == n) && all_hex s

unfoldable pub valid_info_hash : List ℕ → Bool
unfolding hex_of_length
valid_info_hash s = hex_of_length s 40

unfoldable pub valid_params : List ℕ → Bool
unfolding hex_of_length
valid_params s = hex_of_length s 16

unfoldable pub print_set_addr : SetAddr → List ℕ
unfolding itoa
print_set_addr a = a.info_hash ++ (58 ∷ (a.params ++ (58 ∷ itoa a.index)))

abbrev pub with_index : List ℕ → List ℕ → Option ℤ → Option SetAddr
with_index h p none = none
with_index h p (some (negsuc n)) = none
with_index h p (some (pos n)) = some (record { info_hash = h; params = p; index = n })

unfoldable pub read_parts : List (List ℕ) → Option SetAddr
unfolding valid_info_hash valid_params parse_int
read_parts [] = none
read_parts (h ∷ []) = none
read_parts (h ∷ p ∷ []) = none
read_parts (h ∷ p ∷ i ∷ []) =
    if not (valid_info_hash h) || not (valid_params p) then none else with_index h p (parse_int i)
read_parts (h ∷ p ∷ i ∷ j ∷ rest) = none

unfoldable pub parse_set_addr : List ℕ → Option SetAddr
unfolding trim_space split read_parts
parse_set_addr s = read_parts (split 58 (trim_space s))
