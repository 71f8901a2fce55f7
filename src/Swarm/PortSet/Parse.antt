-- ===== src/Swarm/PortSet/Parse.antt =====
-- The round trip of internal/swarm/ports.go: `ParsePortSet` of what `String` prints.
use torpeek.Prelude.{
  ℕ, ◌+◌, ◌≡◌, refl, false, List, [], ◌∷◌, ◌++◌, map, ◌==◌, All, arith, Bool-cases, inl, inr, ◌∙◌,
  ap, subst, sym,
}
use torpeek.Prelude.Text.{trim_space, split, join, itoa, is_space}
use torpeek.Prelude.Text.Laws.{NoSpace, Lacks, itoa-cons, trim_space-NoSpace, split-join}
use torpeek.Swarm.PortSet.{
  ok, add_entries, sort_ports, is_blank, parse_port_set, runs_from, print_run, print_port_set,
}
use torpeek.Swarm.PortSet.Print.{
  IsPort, Ascending, interval-one, same-eq, print_run-IsRune, print_run-one, print_run-two,
  runes-NoSpace, runes-Lacks, add_entries-runs, sort_ports-Ascending, join-All, runs_from-All,
}

print_run-cons : (lo hi : ℕ) → (c : ℕ) × (cs : List ℕ) × (print_run (lo, hi) ≡ c ∷ cs)
print_run-cons lo hi =
    let (c, cs, e) = itoa-cons lo in
    elim (Bool-cases (lo == hi)) [
      | inl k ↦ (c, cs, print_run-one lo hi k ∙ e)
      | inr k ↦ (c, cs ++ (45 ∷ itoa hi), print_run-two lo hi k ∙ ap (λ w. w ++ (45 ∷ itoa hi)) e)
    ]

-- The printed runs, of which there is a first that is not empty.
first_run :
    (lo hi : ℕ) (ps : List ℕ)
    → (c : ℕ) × (cs : List ℕ) × (ws : List (List ℕ)) × (map print_run (runs_from lo hi ps)
        ≡ (c ∷ cs) ∷ ws)
unfolding runs_from
first_run lo hi [] = let (c, cs, e) = print_run-cons lo hi in (c, cs, [], ap (λ w. w ∷ []) e)
first_run lo hi (p ∷ ps) = elim (Bool-cases (p == hi + 1)) [
  | inl e ↦ let (c, cs, ws, k) = first_run lo p ps in (c, cs, ws, rw (e, runs_from) k)
  | inr e ↦
      let (c, cs, k) = print_run-cons lo hi in
      (
        c,
        cs,
        map print_run (runs_from p p ps),
        rw (e, runs_from) (ap (λ w. w ∷ map print_run (runs_from p p ps)) k),
      )
]

is_blank-join :
    (c : ℕ) (cs : List ℕ) (ws : List (List ℕ)) → is_blank (join 44 ((c ∷ cs) ∷ ws)) ≡ false
unfolding join
is_blank-join c cs [] = refl
is_blank-join c cs (w ∷ ws) = refl

parse_port_set-entries :
    (spec : List ℕ) (ws : List (List ℕ)) (ps : List ℕ)
    → is_blank (trim_space spec) ≡ false
    → split 44 spec ≡ ws
    → add_entries [] ws ≡ ok ps
    → parse_port_set spec ≡ ok (sort_ports ps)
unfolding parse_port_set
parse_port_set-entries spec ws ps b s e = rw b (rw s (rw e refl))

comma-not_space : is_space 44 ≡ false
unfolding is_space
comma-not_space = refl

runs-NoSpace : (p : ℕ) (ps : List ℕ) → NoSpace (join 44 (map print_run (runs_from p p ps)))
runs-NoSpace p ps =
    join-All (λ d. is_space d ≡ false) (map print_run (runs_from p p ps)) comma-not_space
      (runs_from-All NoSpace p p ps
        λ lo hi. runes-NoSpace (print_run (lo, hi)) (print_run-IsRune lo hi))

runs-Lacks : (p : ℕ) (ps : List ℕ) → All (Lacks 44) (map print_run (runs_from p p ps))
runs-Lacks p ps =
    runs_from-All (Lacks 44) p p ps
      λ lo hi. runes-Lacks (print_run (lo, hi)) (print_run-IsRune lo hi)

split-print :
    (p : ℕ) (ps : List ℕ) → split 44 (print_port_set (p ∷ ps)) ≡ map print_run (runs_from p p ps)
unfolding print_port_set
split-print p ps =
    let (c, cs, ws, e) = first_run p p ps in
    let lacks = subst (All (Lacks 44)) e (runs-Lacks p ps) in
    ap (λ r. split 44 (join 44 r)) e ∙ split-join 44 (c ∷ cs) ws lacks ∙ sym e

not_blank-print : (p : ℕ) (ps : List ℕ) → is_blank (trim_space (print_port_set (p ∷ ps))) ≡ false
unfolding print_port_set
not_blank-print p ps =
    let (c, cs, ws, e) = first_run p p ps in
    ap is_blank
      (trim_space-NoSpace (join 44 (map print_run (runs_from p p ps))) (runs-NoSpace p ps))
    ∙ ap (λ r. is_blank (join 44 r)) e
    ∙ is_blank-join c cs ws

-- A set that is not empty, of ports from 1 to 65535 in ascending order without repetition, is read back
-- from what it prints as.
pub parse_port_set-print_port_set :
    (p : ℕ) (ps : List ℕ)
    → All IsPort (p ∷ ps)
    → Ascending (p ∷ ps)
    → parse_port_set (print_port_set (p ∷ ps)) ≡ ok (p ∷ ps)
parse_port_set-print_port_set p ps h a =
    let added : add_entries [] (map print_run (runs_from p p ps)) ≡ ok (p ∷ ps) =
      add_entries-runs [] p p ps h.0 h.0 (omega arith) tt h.1 a.0 a.1
      ∙ ap (λ w. ok (w ++ ps)) (interval-one p p (same-eq p)) in
    parse_port_set-entries (print_port_set (p ∷ ps)) (map print_run (runs_from p p ps)) (p ∷ ps)
      (not_blank-print p ps) (split-print p ps) added
    ∙ ap (λ r. ok r) (sort_ports-Ascending (p ∷ ps) a)
