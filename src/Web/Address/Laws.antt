-- ===== src/Web/Address/Laws.antt =====
-- The addresses of internal/web/compare.go are read as they are printed, and nothing else is read.
use torpeek.Prelude.{
  ℕ, zero, suc, ◌≤◌, ◌≡◌, refl, sym, ap, ◌∙◌, true, false, ◌&&◌, List, [], ◌∷◌, ◌++◌, ◌==◌, Option,
  none, some, some_inj, arith, All, All-append,
}
use torpeek.Prelude.Int.{ℤ, pos, negsuc}
use torpeek.Prelude.Text.{
  is_space, trim_space, split, join, itoa, parse_int, unsigned, positive, negative,
}
use torpeek.Prelude.Text.Laws.{
  IsDigit, NoSpace, Lacks, itoa-IsDigit, parse_int-itoa, trim_space-NoSpace, split-join,
}
use torpeek.Web.Address.{
  SetAddr, all_hex, hex_of_length, valid_info_hash, valid_params, print_set_addr, with_index,
  read_parts, parse_set_addr,
}

-- An address of a digest, of a params key and of a number of a machine word.
abbrev pub IsAddr : SetAddr → Type 0
IsAddr a =
    (valid_info_hash a.info_hash ≡ true)
    × (valid_params a.params ≡ true)
    × (a.index ≤ 9223372036854775807)

-- The runes of an address.
abbrev IsPlain : ℕ → Type 0
IsPlain c = (48 ≤ c) × (c ≤ 102)

abbrev IsWord : ℕ → Type 0
IsWord c = IsPlain c × ((58 == c) ≡ false)

all_hex-IsWord : (cs : List ℕ) → all_hex cs ≡ true → All IsWord cs
unfolding all_hex
all_hex-IsWord [] h = tt
all_hex-IsWord (c ∷ cs) h =
    ((ground (arith, h), ground (arith, h)), all_hex-IsWord cs (ground (arith, h)))

hash-IsWord : (s : List ℕ) → valid_info_hash s ≡ true → All IsWord s
unfolding valid_info_hash hex_of_length
hash-IsWord s h = all_hex-IsWord s (ground (arith, h))

params-IsWord : (s : List ℕ) → valid_params s ≡ true → All IsWord s
unfolding valid_params hex_of_length
params-IsWord s h = all_hex-IsWord s (ground (arith, h))

digits-IsWord : (cs : List ℕ) → All IsDigit cs → All IsWord cs
digits-IsWord [] h = tt
digits-IsWord (c ∷ cs) h = (ground (arith, h.0), digits-IsWord cs h.1)

word-Lacks : (cs : List ℕ) → All IsWord cs → Lacks 58 cs
word-Lacks [] h = tt
word-Lacks (c ∷ cs) h = (h.0.1, word-Lacks cs h.1)

word-NoSpace : (cs : List ℕ) → All IsWord cs → NoSpace cs
unfolding is_space
word-NoSpace [] h = tt
word-NoSpace (c ∷ cs) h = (ground (arith, h.0), word-NoSpace cs h.1)

colon-NoSpace : is_space 58 ≡ false
unfolding is_space
colon-NoSpace = refl

print-join : (a : SetAddr) → print_set_addr a ≡ join 58 (a.info_hash ∷ a.params ∷ itoa a.index ∷ [])
unfolding print_set_addr join
print-join a = refl

print-NoSpace : (a : SetAddr) → IsAddr a → NoSpace (print_set_addr a)
unfolding print_set_addr
print-NoSpace a (h, p, n) =
    All-append (λ d. is_space d ≡ false) a.info_hash (58 ∷ (a.params ++ (58 ∷ itoa a.index)))
      (word-NoSpace a.info_hash (hash-IsWord a.info_hash h))
      (
        colon-NoSpace,
        All-append (λ d. is_space d ≡ false) a.params (58 ∷ itoa a.index)
            (word-NoSpace a.params (params-IsWord a.params p))
            (
              colon-NoSpace,
              word-NoSpace (itoa a.index) (digits-IsWord (itoa a.index) (itoa-IsDigit a.index)),
            ),
      )

read_parts-three :
    (a : SetAddr) → IsAddr a → read_parts (a.info_hash ∷ a.params ∷ itoa a.index ∷ []) ≡ some a
unfolding read_parts
read_parts-three a (h, p, n) = rw h (rw p (rw (parse_int-itoa a.index n) refl))

-- A valid address is read back from what is printed of it.
pub parse_set_addr-print_set_addr :
    (a : SetAddr) → IsAddr a → parse_set_addr (print_set_addr a) ≡ some a
unfolding parse_set_addr
parse_set_addr-print_set_addr a v =
    let words : split 58 (print_set_addr a) ≡ a.info_hash ∷ a.params ∷ itoa a.index ∷ [] =
      ap (split 58) (print-join a)
      ∙ split-join 58 a.info_hash (a.params ∷ itoa a.index ∷ []) (
        word-Lacks a.info_hash (hash-IsWord a.info_hash v.0),
        (
          word-Lacks a.params (params-IsWord a.params v.1),
          (word-Lacks (itoa a.index) (digits-IsWord (itoa a.index) (itoa-IsDigit a.index)), tt),
        ),
      ) in
    rw (trim_space-NoSpace (print_set_addr a) (print-NoSpace a v)) (rw words (read_parts-three a v))

positive-bound : (o : Option ℕ) (n : ℕ) → positive o ≡ some (pos n) → n ≤ 9223372036854775807
positive-bound none n e = cc
positive-bound (some m) n e = ground (arith, e)

negative-bound : (o : Option ℕ) (n : ℕ) → negative o ≡ some (pos n) → n ≤ 9223372036854775807
negative-bound none n e = cc
negative-bound (some zero) n e = ground (arith, e)
negative-bound (some (suc m)) n e = ground (arith, e)

parse_int-bound : (cs : List ℕ) (n : ℕ) → parse_int cs ≡ some (pos n) → n ≤ 9223372036854775807
unfolding parse_int
parse_int-bound [] n e = cc
parse_int-bound (c ∷ cs) n e =
    let p = positive-bound (unsigned cs) n in
    let q = positive-bound (unsigned (c ∷ cs)) n in
    let r = negative-bound (unsigned cs) n in ground (arith, p, q, r, e)

with_index-some :
    (h p : List ℕ) (o : Option ℤ) (a : SetAddr)
    → with_index h p o ≡ some a
    → (a.info_hash ≡ h) × (a.params ≡ p) × (o ≡ some (pos a.index))
with_index-some h p none a e = cc
with_index-some h p (some (negsuc n)) a e = cc
with_index-some h p (some (pos n)) a e = (
  ap SetAddr.info_hash (sym (some_inj _ _ e)),
  ap SetAddr.params (sym (some_inj _ _ e)),
  ap (λ b. some (pos (SetAddr.index b))) (some_inj _ _ e),
)

read_parts-IsAddr : (ws : List (List ℕ)) (a : SetAddr) → read_parts ws ≡ some a → IsAddr a
unfolding read_parts
read_parts-IsAddr [] a e = cc
read_parts-IsAddr (h ∷ []) a e = cc
read_parts-IsAddr (h ∷ p ∷ []) a e = cc
read_parts-IsAddr (h ∷ p ∷ i ∷ []) a e =
    let ok : (valid_info_hash h && valid_params p) ≡ true = ground (arith, e) in
    let (f, g, k) = with_index-some h p (parse_int i) a (ground (arith, e)) in
    (rw f (ground (arith, ok)), rw g (ground (arith, ok)), parse_int-bound i a.index k)
read_parts-IsAddr (h ∷ p ∷ i ∷ j ∷ rest) a e = cc

-- No dot and no slash.
abbrev pub IsName : List ℕ → Type 0
IsName cs = Lacks 46 cs × Lacks 47 cs

word-IsName : (cs : List ℕ) → All IsWord cs → IsName cs
word-IsName [] h = (tt, tt)
word-IsName (c ∷ cs) h =
    let (d, s) = word-IsName cs h.1 in ((ground (arith, h.0), d), (ground (arith, h.0), s))

-- Whatever the text is: an address that is read from it has a digest of 40 hexadecimal digits, a params key of 16 and
-- an index of a machine word, and neither of the two names that address a directory holds a dot or a slash.
pub parse_set_addr-IsAddr :
    (s : List ℕ) (a : SetAddr)
    → parse_set_addr s ≡ some a
    → IsAddr a × IsName a.info_hash × IsName a.params
unfolding parse_set_addr
parse_set_addr-IsAddr s a e =
    let v = read_parts-IsAddr (split 58 (trim_space s)) a e in
    (
      v,
      word-IsName a.info_hash (hash-IsWord a.info_hash v.0),
      word-IsName a.params (params-IsWord a.params v.1),
    )
