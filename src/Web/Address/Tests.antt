-- ===== src/Web/Address/Tests.antt =====
-- Addresses of internal/web/compare.go: a digest of forty digits, a key of sixteen letters and the index 12.
use torpeek.Prelude.{ℕ, ◌≡◌, refl, List, [], ◌∷◌, ◌++◌, none, some, arith}
use torpeek.Web.Address.{SetAddr, valid_info_hash, valid_params, print_set_addr, parse_set_addr}
use torpeek.Web.Address.Laws.{IsAddr, IsName, parse_set_addr-print_set_addr, parse_set_addr-IsAddr}

abbrev ten_of : ℕ → List ℕ
ten_of c = c ∷ c ∷ c ∷ c ∷ c ∷ c ∷ c ∷ c ∷ c ∷ c ∷ []

abbrev film : SetAddr
film = record {
  info_hash = ten_of 48 ++ (ten_of 57 ++ (ten_of 97 ++ ten_of 102));
  params = ten_of 99 ++ (49 ∷ 50 ∷ 51 ∷ 52 ∷ 53 ∷ 54 ∷ []);
  index = 12;
}

film-IsAddr : IsAddr film
unfolding valid_info_hash valid_params
film-IsAddr = (refl, refl, omega arith)

-- A capital letter in the digest.
capital_refused :
    parse_set_addr
      (print_set_addr (record { info_hash = ten_of 65; params = film.params; index = 1 }))
    ≡ none
unfolding parse_set_addr print_set_addr
capital_refused = refl

parse_set_addr-print_set_addr_example : parse_set_addr (print_set_addr film) ≡ some film
parse_set_addr-print_set_addr_example = parse_set_addr-print_set_addr film film-IsAddr

film_read : parse_set_addr (32 ∷ print_set_addr film) ≡ some film
unfolding parse_set_addr print_set_addr
film_read = refl

parse_set_addr-IsAddr_example : IsAddr film × IsName film.info_hash × IsName film.params
parse_set_addr-IsAddr_example = parse_set_addr-IsAddr (32 ∷ print_set_addr film) film film_read
