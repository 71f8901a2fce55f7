-- ===== src/Swarm/PortSet/Print.antt =====
-- A set of ports is read back from what `PortSet.String` of internal/swarm/ports.go prints.
use mathlib.Core.List.{append-nil as append_nil, append_assoc}
use torpeek.Prelude.{
  ℕ, zero, suc, ◌+◌, ◌-◌, ◌≤◌, ◌<◌, ◌≡◌, refl, Bool, true, false, ◌||◌, List, [], ◌∷◌, ◌++◌, map,
  ◌==◌, ltb, leb, if◌then◌else◌, Option, none, some, All, All-append, arith, Bool-cases, inl, inr,
  ◌∙◌, ap, subst, sym,
}
use torpeek.Prelude.Ids.{contains}
use torpeek.Prelude.Text.{trim_space, cut_at, parse_int, split, join, itoa}
use torpeek.Prelude.Text.Laws.{
  IsDigit, NoSpace, Lacks, itoa-cons, itoa-IsDigit, parse_int-itoa, trim_space-NoSpace,
  cut_at-Lacks, cut_at-append,
}
use torpeek.Swarm.PortSet.{
  ok, parse_port, add, add_range, add_pair, add_entry, add_entries, insert_port, sort_ports,
  runs_from, print_run,
}

-- A port that a client can bind.
abbrev pub IsPort : ℕ → Type 0
IsPort p = (1 ≤ p) × (p ≤ 65535)

abbrev pub Ascending : List ℕ → Type 0
Ascending [] = Unit
Ascending (p ∷ ps) = All (λ q. p < q) ps × Ascending ps

abbrev pub interval : ℕ → ℕ → List ℕ
interval n zero = []
interval n (suc k) = n ∷ interval (n + 1) k

interval-snoc : (n k : ℕ) → interval n (suc k) ≡ interval n k ++ ((n + k) ∷ [])
interval-snoc n zero = ap (λ m. m ∷ []) (omega arith)
interval-snoc n (suc k) =
    ap (λ r. n ∷ r)
      (interval-snoc (n + 1) k ∙ ap (λ m. interval (n + 1) k ++ (m ∷ [])) (omega arith))

parse_port-itoa : (p : ℕ) → IsPort p → parse_port (itoa p) ≡ ok (p ∷ [])
unfolding parse_port
parse_port-itoa p h = rw (parse_int-itoa p (omega arith), parse_port) (ground arith)

absent : (p : ℕ) (ps : List ℕ) → All (λ q. q < p) ps → contains p ps ≡ false
absent p [] a = refl
absent p (q ∷ ps) a = ground (arith, absent p ps a.1)

below-suc : (p : ℕ) (ps : List ℕ) → All (λ q. q < p) ps → All (λ q. q < p + 1) (ps ++ (p ∷ []))
below-suc p [] a = (omega arith, tt)
below-suc p (q ∷ ps) a = (omega (arith, a.0), below-suc p ps a.1)

add_range-interval :
    (acc : List ℕ) (p k : ℕ) → All (λ q. q < p) acc → add_range acc p k ≡ ok (acc ++ interval p k)
unfolding add_range
add_range-interval acc p zero a = ap (λ r. ok r) (sym (append_nil acc))
add_range-interval acc p (suc k) a = rw (absent p acc a) (
    add_range-interval (acc ++ (p ∷ [])) (p + 1) k (below-suc p acc a)
    ∙ ap (λ r. ok r) (append_assoc acc (p ∷ []) (interval (p + 1) k)))

-- The runes of a printed run: digits and dashes.
abbrev pub IsRune : ℕ → Type 0
IsRune c = (45 ≤ c) × (c ≤ 57)

digit-IsRune : (cs : List ℕ) → All IsDigit cs → All IsRune cs
digit-IsRune [] a = tt
digit-IsRune (c ∷ cs) a = (omega (arith, a.0), digit-IsRune cs a.1)

pub runes-NoSpace : (cs : List ℕ) → All IsRune cs → NoSpace cs
unfolding torpeek.Prelude.Text.is_space
runes-NoSpace [] a = tt
runes-NoSpace (c ∷ cs) a = (ground arith, runes-NoSpace cs a.1)

pub runes-Lacks : (cs : List ℕ) → All IsRune cs → Lacks 44 cs
runes-Lacks [] a = tt
runes-Lacks (c ∷ cs) a = (ground arith, runes-Lacks cs a.1)

digits-NoDash : (cs : List ℕ) → All IsDigit cs → Lacks 45 cs
digits-NoDash [] a = tt
digits-NoDash (c ∷ cs) a = (ground arith, digits-NoDash cs a.1)

itoa-IsRune : (n : ℕ) → All IsRune (itoa n)
itoa-IsRune n = digit-IsRune (itoa n) (itoa-IsDigit n)

pub print_run-IsRune : (lo hi : ℕ) → All IsRune (print_run (lo, hi))
unfolding print_run
print_run-IsRune lo hi = elim (Bool-cases (lo == hi)) [
  | inl e ↦ rw e (itoa-IsRune lo)
  | inr e ↦
      rw e
        (All-append IsRune (itoa lo) (45 ∷ itoa hi) (itoa-IsRune lo) (omega arith, itoa-IsRune hi))
]

-- An entry that is one port.
add_entry-itoa : (acc : List ℕ) (p : ℕ) → IsPort p → add_entry acc (itoa p) ≡ add acc p
unfolding add_entry
add_entry-itoa acc p h =
    let (c, cs, e) = itoa-cons p in
    let lacks : Lacks 45 (c ∷ cs) = subst (Lacks 45) e (digits-NoDash (itoa p) (itoa-IsDigit p)) in
    let port : parse_port (c ∷ cs) ≡ ok (p ∷ []) =
      subst (λ w. parse_port w ≡ ok (p ∷ [])) e (parse_port-itoa p h) in
    rw e (rw (cut_at-Lacks 45 (c ∷ cs) lacks, add_entry) (rw port refl))

add_entry-cut :
    (acc : List ℕ) (c : ℕ) (cs v w : List ℕ) (lo hi : ℕ)
    → cut_at 45 (c ∷ cs) ≡ some (v, w)
    → parse_port (trim_space v) ≡ ok (lo ∷ [])
    → parse_port (trim_space w) ≡ ok (hi ∷ [])
    → add_entry acc (c ∷ cs) ≡ add_pair acc lo hi
unfolding add_entry
add_entry-cut acc c cs v w lo hi d first last = rw (d, add_entry) (rw first (rw last refl))

trimmed_port : (p : ℕ) → IsPort p → parse_port (trim_space (itoa p)) ≡ ok (p ∷ [])
trimmed_port p h =
    ap parse_port (trim_space-NoSpace (itoa p) (runes-NoSpace (itoa p) (itoa-IsRune p)))
    ∙ parse_port-itoa p h

-- An entry that is a range.
add_entry-range :
    (acc : List ℕ) (lo hi : ℕ)
    → IsPort lo
    → IsPort hi
    → add_entry acc (itoa lo ++ (45 ∷ itoa hi)) ≡ add_pair acc lo hi
add_entry-range acc lo hi h k =
    let (c, cs, e) = itoa-cons lo in
    let cut : cut_at 45 (c ∷ cs ++ (45 ∷ itoa hi)) ≡ some (itoa lo, itoa hi) =
      subst (λ w. cut_at 45 (w ++ (45 ∷ itoa hi)) ≡ some (itoa lo, itoa hi)) e
        (cut_at-append 45 (itoa lo) (itoa hi) (digits-NoDash (itoa lo) (itoa-IsDigit lo))) in
    subst (λ w. add_entry acc (w ++ (45 ∷ itoa hi)) ≡ add_pair acc lo hi) (sym e)
      (add_entry-cut acc c (cs ++ (45 ∷ itoa hi)) (itoa lo) (itoa hi) lo hi cut (trimmed_port lo h)
        (trimmed_port hi k))

pub interval-one : (lo hi : ℕ) → (lo == hi) ≡ true → interval lo (hi + 1 - lo) ≡ lo ∷ []
interval-one lo hi e = let k : hi + 1 - lo ≡ suc zero = ground arith in ap (interval lo) k

pub print_run-one : (lo hi : ℕ) → (lo == hi) ≡ true → print_run (lo, hi) ≡ itoa lo
unfolding print_run
print_run-one lo hi e = rw e refl

pub print_run-two :
    (lo hi : ℕ) → (lo == hi) ≡ false → print_run (lo, hi) ≡ itoa lo ++ (45 ∷ itoa hi)
unfolding print_run
print_run-two lo hi e = rw e refl

add-interval : (acc : List ℕ) (p : ℕ) → All (λ q. q < p) acc → add acc p ≡ ok (acc ++ (p ∷ []))
unfolding add
add-interval acc p a = rw (absent p acc a) refl

add_pair-interval :
    (acc : List ℕ) (lo hi : ℕ)
    → lo ≤ hi
    → All (λ q. q < lo) acc
    → add_pair acc lo hi ≡ ok (acc ++ interval lo (hi + 1 - lo))
unfolding add_pair
add_pair-interval acc lo hi h a =
    let e : ltb hi lo ≡ false = ground arith in rw e (add_range-interval acc lo (hi + 1 - lo) a)

-- A printed run adds its ports.
add_entry-print_run :
    (acc : List ℕ) (lo hi : ℕ)
    → IsPort lo
    → IsPort hi
    → lo ≤ hi
    → All (λ q. q < lo) acc
    → add_entry acc (trim_space (print_run (lo, hi))) ≡ ok (acc ++ interval lo (hi + 1 - lo))
add_entry-print_run acc lo hi h k le below =
    ap (add_entry acc) (
      trim_space-NoSpace (print_run (lo, hi))
        (runes-NoSpace (print_run (lo, hi)) (print_run-IsRune lo hi)))
    ∙ elim (Bool-cases (lo == hi)) [
      | inl e ↦
          ap (add_entry acc) (print_run-one lo hi e)
          ∙ add_entry-itoa acc lo h
          ∙ add-interval acc lo below
          ∙ ap (λ r. ok (acc ++ r)) (sym (interval-one lo hi e))
      | inr e ↦
          ap (add_entry acc) (print_run-two lo hi e)
          ∙ add_entry-range acc lo hi h k
          ∙ add_pair-interval acc lo hi le below
    ]

below-interval :
    (acc : List ℕ) (lo k n : ℕ)
    → lo + k ≤ n
    → lo ≤ n
    → All (λ q. q < lo) acc
    → All (λ q. q < n) (acc ++ interval lo k)
below-interval [] lo zero n h l a = tt
below-interval [] lo (suc k) n h l a =
    (omega arith, below-interval [] (lo + 1) k n (omega arith) (omega arith) tt)
below-interval (q ∷ acc) lo k n h l a = (omega (arith, a.0), below-interval acc lo k n h l a.1)

interval-grow :
    (lo hi p : ℕ) (ps : List ℕ)
    → lo ≤ hi
    → (p == hi + 1) ≡ true
    → interval lo (p + 1 - lo) ++ ps ≡ interval lo (hi + 1 - lo) ++ (p ∷ ps)
interval-grow lo hi p ps h e =
    let k : p + 1 - lo ≡ suc (hi + 1 - lo) = ground arith in
    let last : lo + (hi + 1 - lo) ≡ p = ground arith in
    ap (λ n. interval lo n ++ ps) k
    ∙ ap (λ w. w ++ ps) (interval-snoc lo (hi + 1 - lo))
    ∙ append_assoc (interval lo (hi + 1 - lo)) ((lo + (hi + 1 - lo)) ∷ []) ps
    ∙ ap (λ q. interval lo (hi + 1 - lo) ++ (q ∷ ps)) last

pub same-eq : (p : ℕ) → (p == p) ≡ true
same-eq p = ground arith

-- The runs of an ascending list, printed and read, add its ports.
pub add_entries-runs :
    (acc : List ℕ) (lo hi : ℕ) (ps : List ℕ)
    → IsPort lo
    → IsPort hi
    → lo ≤ hi
    → All (λ q. q < lo) acc
    → All IsPort ps
    → All (λ q. hi < q) ps
    → Ascending ps
    → add_entries acc (map print_run (runs_from lo hi ps))
      ≡ ok (acc ++ (interval lo (hi + 1 - lo) ++ ps))
unfolding runs_from add_entries
add_entries-runs acc lo hi [] h k le below ports above asc =
    rw (add_entry-print_run acc lo hi h k le below)
      (ap (λ r. ok (acc ++ r)) (sym (append_nil (interval lo (hi + 1 - lo)))))
add_entries-runs acc lo hi (p ∷ ps) h k le below ports above asc = elim (Bool-cases (p == hi + 1)) [
  | inl e ↦
      rw (e, runs_from)
        (add_entries-runs acc lo p ps h ports.0 (omega (arith, above.0)) below ports.1 asc.0 asc.1
          ∙ ap (λ w. ok (acc ++ w)) (interval-grow lo hi p ps le e))
  | inr e ↦
      let acc' = acc ++ interval lo (hi + 1 - lo) in
      let below' : All (λ q. q < p) acc' =
        below-interval acc lo (hi + 1 - lo) p (omega (arith, above.0)) (omega (arith, above.0))
          below in
      rw (e, runs_from)
        (rw (add_entry-print_run acc lo hi h k le below) (
          add_entries-runs acc' p p ps ports.0 ports.0 (omega arith) below' ports.1 asc.0 asc.1
          ∙ ap (λ w. ok (acc' ++ (w ++ ps))) (interval-one p p (same-eq p))
          ∙ ap (λ w. ok w) (append_assoc acc (interval lo (hi + 1 - lo)) (p ∷ ps))))
]

insert-least : (p q : ℕ) (qs : List ℕ) → p < q → insert_port p (q ∷ qs) ≡ p ∷ q ∷ qs
unfolding insert_port
insert-least p q qs h = ground arith

pub sort_ports-Ascending : (ps : List ℕ) → Ascending ps → sort_ports ps ≡ ps
unfolding sort_ports
sort_ports-Ascending [] a = refl
sort_ports-Ascending (p ∷ []) a = refl
sort_ports-Ascending (p ∷ q ∷ ps) a =
    ap (insert_port p) (sort_ports-Ascending (q ∷ ps) a.1) ∙ insert-least p q ps a.0.0

pub join-All : (P : ℕ → Type 0) (ws : List (List ℕ)) → P 44 → All (All P) ws → All P (join 44 ws)
unfolding join
join-All P [] h a = tt
join-All P (w ∷ []) h a = a.0
join-All P (w ∷ v ∷ ws) h a =
    All-append P w (44 ∷ join 44 (v ∷ ws)) a.0 (h, join-All P (v ∷ ws) h a.1)

pub runs_from-All :
    (P : List ℕ → Type 0) (lo hi : ℕ) (ps : List ℕ)
    → ((lo hi : ℕ) → P (print_run (lo, hi)))
    → All P (map print_run (runs_from lo hi ps))
unfolding runs_from
runs_from-All P lo hi [] h = (h lo hi, tt)
runs_from-All P lo hi (p ∷ ps) h = elim (Bool-cases (p == hi + 1)) [
  | inl e ↦ rw (e, runs_from) (runs_from-All P lo p ps h)
  | inr e ↦ rw (e, runs_from) (h lo hi, runs_from-All P p p ps h)
]
