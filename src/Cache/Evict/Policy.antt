-- ===== src/Cache/Evict/Policy.antt =====
-- What `Evict` and `ClearAll` of internal/cache/evict.go remove, and when they stop.
use mathlib.Core.List.{append-nil as append_nil, append_assoc}
use torpeek.Prelude.{
  ℕ, ◌+◌, ◌-◌, ◌≤◌, ◌<◌, ◌≡◌, refl, Bool, true, false, List, [], ◌∷◌, ◌++◌, leb, ltb, All, Option,
  none, some, arith, Bool-cases, inl, inr, ◌∙◌, ◌⊎◌, ap, subst, sym, ◌↔◌,
}
use torpeek.Prelude.Int.{ℤ, pos, negsuc, leb_ℤ}
use torpeek.Cache.Evict.{
  ResultSet, HashDir, EvictResult, Answer, scan, total_bytes, candidates, oldest_first,
  nothing_evicted, note_removed, evict_loop, evict, clear_loop, clear_all,
}
use torpeek.Cache.Evict.Sort.{
  Removable, candidates-Removable, All-oldest_first, OldestFirst, oldest_first-OldestFirst,
  All-oldest_candidates,
}

-- Each set of the list was removed while the tree, `total` bytes at first, was above the ceiling.
abbrev pub Needed : ℕ → ℕ → List ResultSet → Type 0
Needed ceiling total [] = Unit
Needed ceiling total (s ∷ ss) = (ceiling < total) × Needed ceiling (total - s.bytes) ss

-- Why the removal stopped, with `left` bytes in the tree and the sets `rest` not removed.
abbrev pub Stopped : (ℕ × ℕ → Bool) → ℕ → ℕ → List ResultSet → Option (ℕ × ℕ) → Type 0
Stopped remove ceiling left rest none = (rest ≡ []) ⊎ (left ≤ ceiling)
Stopped remove ceiling left rest (some d) =
    (remove d ≡ false) × ((s : ResultSet) × (ss : List ResultSet) × (rest ≡ s ∷ ss) × (s.dir ≡ d))

abbrev Evicts : (ℕ × ℕ → Bool) → ℕ → ℕ → EvictResult → List ResultSet → Answer → Type 0
Evicts remove ceiling total r ss a =
    (gone : List ResultSet) × (rest : List ResultSet) × (ss ≡ gone ++ rest)
    × (a.0.removed ≡ r.removed ++ gone)
    × (a.0.freed ≡ r.freed + total_bytes gone)
    × Needed ceiling total gone
    × Stopped remove ceiling (total - total_bytes gone) rest a.1

sub_sub : (a b c : ℕ) → a - b - c ≡ a - (b + c)
sub_sub a b c = omega arith

evict_loop_lem :
    (remove : ℕ × ℕ → Bool) (ceiling total : ℕ) (r : EvictResult) (ss : List ResultSet)
    → Evicts remove ceiling total r ss (evict_loop remove ceiling total r ss)
unfolding evict_loop total_bytes
evict_loop_lem remove c total r [] =
    ([], [], refl, sym (append_nil r.removed), omega arith, tt, inl refl)
evict_loop_lem remove c total r (s ∷ ss) = elim (Bool-cases (leb total c)) [
  | inl e ↦
      rw (e, evict_loop)
        ([], s ∷ ss, refl, sym (append_nil r.removed), omega arith, tt, inr (ground arith))
  | inr e ↦ elim (Bool-cases (remove s.dir)) [
    | inl k ↦
        let (gone, rest, split, removed, freed, needed, stop) =
          evict_loop_lem remove c (total - s.bytes) (note_removed r s) ss in
        rw (e, evict_loop)
          (rw (k) (
            s ∷ gone,
            rest,
            ap (λ xs. s ∷ xs) split,
            removed ∙ append_assoc r.removed (s ∷ []) gone,
            freed ∙ (omega arith),
            (ground arith, needed),
            subst
                (λ n.
                  Stopped remove c n rest
                    (evict_loop remove c (total - s.bytes) (note_removed r s) ss).1)
                (sub_sub total s.bytes (total_bytes gone)) stop,
          ))
    | inr k ↦
        rw (e, evict_loop)
          (rw (k) (
            [],
            s ∷ ss,
            refl,
            sym (append_nil r.removed),
            omega arith,
            tt,
            (k, (s, ss, refl, refl)),
          ))
  ]
]

-- The sets that went, `freed` bytes, for the sets found and the ceiling; `rest` are the candidates
-- that were kept.
abbrev pub Policy :
    (ℕ × ℕ → Bool)
    → ℕ
    → List (ℕ × ℕ)
    → List ResultSet
    → List ResultSet
    → ℕ
    → Option (ℕ × ℕ)
    → Type 1
Policy remove ceiling live sets removed freed error =
    (rest : List ResultSet) × (oldest_first (candidates live sets) ≡ removed ++ rest)
    × OldestFirst (removed ++ rest)
    × ((P : ResultSet → Type 0) → All P (removed ++ rest) ↔ All (λ s. Removable live s → P s) sets)
    × (freed ≡ total_bytes removed)
    × Needed ceiling (total_bytes sets) removed
    × Stopped remove ceiling (total_bytes sets - freed) rest error

evict-loop :
    (remove : ℕ × ℕ → Bool) (root : Option (List HashDir)) (c : ℕ) (live : List (ℕ × ℕ))
    → 0 < c
    → evict remove root (pos c) live
      ≡ evict_loop remove c
          (total_bytes (scan root))
          nothing_evicted
          (oldest_first (candidates live (scan root)))
unfolding evict
evict-loop remove root c live h = ground arith

-- With a ceiling: the sets removed and those kept beside them are just the sets whose age is known and that no run
-- is writing, no removed set is younger than one removed later or than one kept, and `freed` is the bytes
-- of those removed. Each was removed while
-- the tree was above the ceiling. Without an error, the tree is then at or below the ceiling or no
-- candidate is left; with one, the next candidate is the directory that could not be removed.
pub evict_lem :
    (remove : ℕ × ℕ → Bool) (root : Option (List HashDir)) (c : ℕ) (live : List (ℕ × ℕ))
    → 0 < c
    → let sets = scan root in
      let a = evict remove root (pos c) live in Policy remove c live sets a.0.removed a.0.freed a.1
evict_lem remove root c live h =
    let sets = scan root in
    let (gone, rest, split, removed, freed, needed, stop) =
      evict_loop_lem remove c (total_bytes sets) nothing_evicted
        (oldest_first (candidates live sets)) in
    let a =
      evict_loop remove c (total_bytes sets) nothing_evicted
        (oldest_first (candidates live sets)) in
    let freed' : a.0.freed ≡ total_bytes gone = omega (arith, freed) in
    rw (evict-loop remove root c live h) (
      subst (λ g. Policy remove c live sets g a.0.freed a.1) (sym removed)
        (
          rest,
          split,
          subst OldestFirst split (oldest_first-OldestFirst (candidates live sets)),
          (λ P.
              subst (λ xs. All P xs ↔ All (λ s. Removable live s → P s) sets) split
                (All-oldest_candidates P live sets)),
          freed',
          needed,
          subst (λ n. Stopped remove c (total_bytes sets - n) rest a.1) (sym freed') stop,
        ))

All-front : (P : ResultSet → Type 0) (xs ys : List ResultSet) → All P (xs ++ ys) → All P xs
All-front P [] ys a = tt
All-front P (x ∷ xs) ys a = (a.0, All-front P xs ys a.1)

evict-nothing :
    (remove : ℕ × ℕ → Bool) (root : Option (List HashDir)) (c : ℤ) (live : List (ℕ × ℕ))
    → leb_ℤ c (pos 0) ≡ true
    → evict remove root c live ≡ (nothing_evicted, none)
unfolding evict
evict-nothing remove root c live h = rw (h, evict) refl

-- Whatever the ceiling: a set that `Evict` removes has a known age and is none that a run is
-- writing.
pub evict-Removable :
    (remove : ℕ × ℕ → Bool) (root : Option (List HashDir)) (c : ℤ) (live : List (ℕ × ℕ))
    → All (Removable live) (evict remove root c live).0.removed
evict-Removable remove root (negsuc n) live =
    rw (evict-nothing remove root (negsuc n) live (ground arith)) tt
evict-Removable remove root (pos n) live = elim (Bool-cases (ltb 0 n)) [
  | inl e ↦
      let (rest, split, old, of_sets, freed, needed, stop) =
        evict_lem remove root n live (ground arith) in
      let sets = candidates live (scan root) in
      All-front (Removable live) (evict remove root (pos n) live).0.removed rest (
        subst (All (Removable live)) split
          (All-oldest_first (Removable live) sets (candidates-Removable live (scan root))))
  | inr e ↦ rw (evict-nothing remove root (pos n) live (ground arith)) tt
]

-- Why clearing stopped.
abbrev pub Cleared : (ℕ × ℕ → Bool) → List ResultSet → Option (ℕ × ℕ) → Type 0
Cleared remove rest none = rest ≡ []
Cleared remove rest (some d) =
    (remove d ≡ false) × ((s : ResultSet) × (ss : List ResultSet) × (rest ≡ s ∷ ss) × (s.dir ≡ d))

clear_loop_lem :
    (remove : ℕ × ℕ → Bool) (r : EvictResult) (ss : List ResultSet)
    → let a = clear_loop remove r ss in
      (gone : List ResultSet) × (rest : List ResultSet) × (ss ≡ gone ++ rest)
      × (a.0.removed ≡ r.removed ++ gone)
      × (a.0.freed ≡ r.freed + total_bytes gone)
      × Cleared remove rest a.1
unfolding clear_loop total_bytes
clear_loop_lem remove r [] = ([], [], refl, sym (append_nil r.removed), omega arith, refl)
clear_loop_lem remove r (s ∷ ss) = elim (Bool-cases (remove s.dir)) [
  | inl k ↦
      let (gone, rest, split, removed, freed, stop) = clear_loop_lem remove (note_removed r s) ss in
      rw (k, clear_loop)
        (
          s ∷ gone,
          rest,
          ap (λ xs. s ∷ xs) split,
          removed ∙ append_assoc r.removed (s ∷ []) gone,
          freed ∙ (omega arith),
          stop,
        )
  | inr k ↦
      rw (k, clear_loop)
        ([], s ∷ ss, refl, sym (append_nil r.removed), omega arith, (k, (s, ss, refl, refl)))
]

-- `ClearAll` removes the sets of the tree in the order they are found, and counts their bytes. Without
-- an error it removed all of them; with one, it stopped at the directory that could not be removed.
pub clear_all_lem :
    (remove : ℕ × ℕ → Bool) (root : Option (List HashDir))
    → let a = clear_all remove root in
      (rest : List ResultSet) × (scan root ≡ a.0.removed ++ rest)
      × (a.0.freed ≡ total_bytes a.0.removed)
      × Cleared remove rest a.1
unfolding clear_all
clear_all_lem remove root =
    let (gone, rest, split, removed, freed, stop) =
      clear_loop_lem remove nothing_evicted (scan root) in
    (
      rest,
      split ∙ ap (λ g. g ++ rest) (sym removed),
      freed ∙ (omega arith) ∙ ap total_bytes (sym removed),
      stop,
    )
