-- ===== src/Prelude/Text/Laws.antt =====
-- Numbers are read as they are printed, and lists are split as they are joined.
use Prim.Native.Nat.{ℕ, zero, suc, ◌+◌, ◌-◌, ◌*◌, ◌/◌, ◌%◌, ◌≤◌, ◌<◌}
use mathlib.Core.Path.{◌≡◌, refl, sym, ap, subst, ◌∙◌}
use mathlib.Core.Logic.{◌⊎◌, inl, inr}
use mathlib.Core.Bool.{false}
use mathlib.Core.Option.{none, some}
use mathlib.Core.List.{List, [], ◌∷◌, ◌++◌}
use native.Mathlib.Omega.{arith}
use torpeek.Prelude.Tests.{leb, ◌==◌, Bool-cases, List-cases}
use torpeek.Prelude.Lists.{All}
use torpeek.Prelude.Int.{pos}
use torpeek.Prelude.Text.{
  is_space, trim_left, trim_right, trim_space, cut_at, digits_from, unsigned, parse_int, split,
  join, digits_of, itoa,
}

abbrev pub IsDigit : ℕ → Type 0
IsDigit c = (48 ≤ c) × (c ≤ 57)

read_digit :
    (m d : ℕ) (acc : List ℕ) → d ≤ 9 → digits_from m ((48 + d) ∷ acc) ≡ digits_from (m * 10 + d) acc
unfolding digits_from
read_digit m d acc h = let e : 48 + d - 48 ≡ d = omega arith in rw e (ground arith)

digits_from-digits_of :
    (fuel n : ℕ) (acc : List ℕ)
    → n < fuel
    → digits_from 0 (digits_of fuel n acc) ≡ digits_from n acc
unfolding digits_of
digits_from-digits_of zero n acc h = elim h [ ]
digits_from-digits_of (suc fuel) n acc h = elim (Bool-cases (leb n 9)) [
  | inl e ↦ rw e (read_digit 0 n acc (ground arith) ∙ ap (λ m. digits_from m acc) (omega arith))
  | inr e ↦ rw e (
      digits_from-digits_of fuel (n / 10) ((48 + n % 10) ∷ acc) (ground arith)
      ∙ read_digit (n / 10) (n % 10) acc (omega arith)
      ∙ ap (λ m. digits_from m acc) (omega arith))
]

digits_of-IsDigit :
    (fuel n : ℕ) (acc : List ℕ) → All IsDigit acc → All IsDigit (digits_of fuel n acc)
unfolding digits_of
digits_of-IsDigit zero n acc a = a
digits_of-IsDigit (suc fuel) n acc a = elim (Bool-cases (leb n 9)) [
  | inl e ↦ rw e (ground arith, a)
  | inr e ↦ rw e (digits_of-IsDigit fuel (n / 10) ((48 + n % 10) ∷ acc) (omega arith, a))
]

digits_of-cons :
    (fuel n d : ℕ) (acc : List ℕ) → (c : ℕ) × (cs : List ℕ) × (digits_of fuel n (d ∷ acc) ≡ c ∷ cs)
unfolding digits_of
digits_of-cons zero n d acc = (d, acc, refl)
digits_of-cons (suc fuel) n d acc = elim (Bool-cases (leb n 9)) [
  | inl e ↦ (48 + n, d ∷ acc, rw e refl)
  | inr e ↦ let (c, cs, h) = digits_of-cons fuel (n / 10) (48 + n % 10) (d ∷ acc) in (c, cs, rw e h)
]

pub itoa-cons : (n : ℕ) → (c : ℕ) × (cs : List ℕ) × (itoa n ≡ c ∷ cs)
unfolding itoa
itoa-cons n = elim (Bool-cases (leb n 9)) [
  | inl e ↦ (48 + n, [], rw e refl)
  | inr e ↦ let (c, cs, h) = digits_of-cons n (n / 10) (48 + n % 10) [] in (c, cs, rw e h)
]

pub itoa-IsDigit : (n : ℕ) → All IsDigit (itoa n)
unfolding itoa
itoa-IsDigit n = digits_of-IsDigit (suc n) n [] tt

unsigned-cons : (c : ℕ) (cs : List ℕ) → unsigned (c ∷ cs) ≡ digits_from 0 (c ∷ cs)
unfolding unsigned
unsigned-cons c cs = refl

parse_int-unsigned :
    (c : ℕ) (cs : List ℕ) (n : ℕ)
    → IsDigit c
    → unsigned (c ∷ cs) ≡ some n
    → n ≤ 9223372036854775807
    → parse_int (c ∷ cs) ≡ some (pos n)
unfolding parse_int
parse_int-unsigned c cs n d e h = ground arith

-- A number is read back from its digits.
pub parse_int-itoa : (n : ℕ) → n ≤ 9223372036854775807 → parse_int (itoa n) ≡ some (pos n)
unfolding itoa digits_from
parse_int-itoa n h =
    let (c, cs, e) = itoa-cons n in
    let digits : All IsDigit (c ∷ cs) = subst (All IsDigit) e (itoa-IsDigit n) in
    let value : unsigned (c ∷ cs) ≡ some n =
      unsigned-cons c cs
      ∙ ap (digits_from 0) (sym e)
      ∙ digits_from-digits_of (suc n) n [] (omega arith) in
    rw e (parse_int-unsigned c cs n digits.0 value h)

pub digit-not_space : (d : ℕ) → IsDigit d → is_space d ≡ false
unfolding is_space
digit-not_space d h = ground arith

-- The list holds no space, or no rune `c`.
abbrev pub NoSpace : List ℕ → Type 0
NoSpace cs = All (λ d. is_space d ≡ false) cs

abbrev pub Lacks : ℕ → List ℕ → Type 0
Lacks c cs = All (λ d. (c == d) ≡ false) cs

trim_left-NoSpace : (cs : List ℕ) → NoSpace cs → trim_left cs ≡ cs
unfolding trim_left
trim_left-NoSpace [] h = refl
trim_left-NoSpace (c ∷ cs) h = rw h.0 refl

trim_right-NoSpace : (cs : List ℕ) → NoSpace cs → trim_right cs ≡ cs
unfolding trim_right
trim_right-NoSpace [] h = refl
trim_right-NoSpace (c ∷ []) h = rw h.0 refl
trim_right-NoSpace (c ∷ d ∷ ds) h = rw (trim_right-NoSpace (d ∷ ds) h.1, trim_right) refl

pub trim_space-NoSpace : (cs : List ℕ) → NoSpace cs → trim_space cs ≡ cs
unfolding trim_space
trim_space-NoSpace cs h = ap trim_right (trim_left-NoSpace cs h) ∙ trim_right-NoSpace cs h

trim_right-cons :
    (c : ℕ) (cs : List ℕ) → is_space c ≡ false → trim_right (c ∷ cs) ≡ c ∷ trim_right cs
unfolding trim_right
trim_right-cons c cs n = elim (List-cases (trim_right cs)) [
  | inl e ↦ rw (e, n, trim_right) refl
  | inr (d, ds, e) ↦ rw (e, trim_right) refl
]

trim_right_idem : (cs : List ℕ) → trim_right (trim_right cs) ≡ trim_right cs
unfolding trim_right
trim_right_idem [] = refl
trim_right_idem (c ∷ cs) = elim (List-cases (trim_right cs)) [
  | inl e ↦ elim (Bool-cases (is_space c)) [
    | inl y ↦ rw (e, y, trim_right) refl
    | inr n ↦ rw (e, n, trim_right) (rw n refl)
  ]
  | inr (d, ds, e) ↦
      let again : trim_right (d ∷ ds) ≡ d ∷ ds = rw e at (trim_right_idem cs) in
      rw (e, trim_right) (rw (again, trim_right) refl)
]

-- What is left after the leading spaces starts with no space.
trim_left-head :
    (cs : List ℕ)
    → (trim_left cs ≡ [])
      ⊎ ((c : ℕ) × (ds : List ℕ) × (trim_left cs ≡ c ∷ ds) × (is_space c ≡ false))
unfolding trim_left
trim_left-head [] = inl refl
trim_left-head (c ∷ cs) = elim (Bool-cases (is_space c)) [
  | inl y ↦ rw y (trim_left-head cs)
  | inr n ↦ rw n (inr (c, cs, refl, n))
]

trim_left-cons : (c : ℕ) (cs : List ℕ) → is_space c ≡ false → trim_left (c ∷ cs) ≡ c ∷ cs
unfolding trim_left
trim_left-cons c cs n = rw n refl

trim_none : trim_right (trim_left (trim_right [])) ≡ trim_right []
unfolding trim_right trim_left
trim_none = refl

-- A trimmed string has nothing more to trim.
pub trim_space-trim_space : (cs : List ℕ) → trim_space (trim_space cs) ≡ trim_space cs
unfolding trim_space
trim_space-trim_space cs = elim (trim_left-head cs) [
  | inl e ↦ rw e trim_none
  | inr (c, ds, e, n) ↦
      rw
        (
          e,
          trim_right-cons c ds n,
          trim_left-cons c (trim_right ds) n,
          trim_right-cons c (trim_right ds) n,
          trim_right_idem ds,
        )
        refl
]

pub cut_at-Lacks : (c : ℕ) (cs : List ℕ) → Lacks c cs → cut_at c cs ≡ none
unfolding cut_at
cut_at-Lacks c [] h = refl
cut_at-Lacks c (d ∷ ds) h = rw h.0 (rw (cut_at-Lacks c ds h.1, cut_at) refl)

pub cut_at-append :
    (c : ℕ) (xs ys : List ℕ) → Lacks c xs → cut_at c (xs ++ (c ∷ ys)) ≡ some (xs, ys)
unfolding cut_at
cut_at-append c [] ys h = ground arith
cut_at-append c (d ∷ ds) ys h = rw h.0 (rw (cut_at-append c ds ys h.1, cut_at) refl)

split-Lacks : (c : ℕ) (cs : List ℕ) → Lacks c cs → split c cs ≡ cs ∷ []
unfolding split
split-Lacks c [] h = refl
split-Lacks c (d ∷ ds) h = rw h.0 (rw (split-Lacks c ds h.1) refl)

split-append : (c : ℕ) (xs ys : List ℕ) → Lacks c xs → split c (xs ++ (c ∷ ys)) ≡ xs ∷ split c ys
unfolding split
split-append c [] ys h = ground arith
split-append c (d ∷ ds) ys h = rw h.0 (rw (split-append c ds ys h.1) refl)

-- What was joined is split again.
pub split-join :
    (c : ℕ) (w : List ℕ) (ws : List (List ℕ))
    → All (Lacks c) (w ∷ ws)
    → split c (join c (w ∷ ws)) ≡ w ∷ ws
unfolding join
split-join c w [] h = split-Lacks c w h.0
split-join c w (v ∷ ws) h =
    split-append c w (join c (v ∷ ws)) h.0 ∙ ap (λ r. w ∷ r) (split-join c v ws h.1)
