-- ===== src/Web/Queue/Keys.antt =====
-- The lists of run ids as sets: what inserting, cutting out and trimming do to membership.
use torpeek.Prelude.{
  ℕ, ◌≡◌, refl, false, ◌||◌, List, [], ◌∷◌, ◌==◌, arith, if◌then◌else◌, Bool-cases, inl, inr,
}
use torpeek.Prelude.Ids.{contains, Nodup}
use torpeek.Web.Queue.{RunEntry, without, add_key, insert_waiting}

pub contains-without :
    (i j : ℕ) (js : List ℕ) → contains j (without i js) ≡ (if i == j then false else contains j js)
contains-without i j [] = ground arith
contains-without i j (k ∷ js) = ground (arith, contains-without i j js)

pub contains-add_key :
    (i j : ℕ) (js : List ℕ) → contains j (add_key i js) ≡ (j == i || contains j js)
contains-add_key i j js = elim (Bool-cases (contains i js)) [
  | inl old ↦ rw old (ground arith)
  | inr new ↦ rw new refl
]

pub contains-insert :
    (h : ℕ → RunEntry) (i j : ℕ) (js : List ℕ)
    → contains j (insert_waiting h i js) ≡ (j == i || contains j js)
unfolding insert_waiting
contains-insert h i j [] = refl
contains-insert h i j (k ∷ js) = ground (arith, contains-insert h i j js)

pub Nodup-without : (i : ℕ) (js : List ℕ) → Nodup js → Nodup (without i js)
Nodup-without i [] d = d
Nodup-without i (k ∷ js) d = ground (arith, Nodup-without i js d.1, contains-without i k js)

pub Nodup-insert :
    (h : ℕ → RunEntry) (i : ℕ) (js : List ℕ)
    → contains i js ≡ false
    → Nodup js
    → Nodup (insert_waiting h i js)
unfolding insert_waiting
Nodup-insert h i [] new d = (refl, tt)
Nodup-insert h i (k ∷ js) new d =
    ground (arith, Nodup-insert h i js (ground arith) d.1, contains-insert h i k js)
