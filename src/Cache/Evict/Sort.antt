-- ===== src/Cache/Evict/Sort.antt =====
-- The order of internal/cache/evict.go: the oldest set first, and no set gained or lost.
use torpeek.Prelude.{
  ℕ, ◌+◌, ◌≤◌, ◌≡◌, refl, true, false, not, ◌||◌, List, [], ◌∷◌, ltb, All, arith, Bool-cases, inl,
  inr, ◌∙◌, ◌↔◌,
}
use torpeek.Cache.Evict.{
  ResultSet, is_protected, candidates, insert_aged, oldest_first, total_bytes,
}

-- No set is younger than a later one.
abbrev pub OldestFirst : List ResultSet → Type 0
OldestFirst [] = Unit
OldestFirst (s ∷ ss) = All (λ t. s.created_at ≤ t.created_at) ss × OldestFirst ss

pub All-insert_aged :
    (P : ResultSet → Type 0) (s : ResultSet) (ss : List ResultSet)
    → P s
    → All P ss
    → All P (insert_aged s ss)
unfolding insert_aged
All-insert_aged P s [] p a = (p, tt)
All-insert_aged P s (t ∷ ss) p a = elim (Bool-cases (ltb t.created_at s.created_at)) [
  | inl e ↦ rw e (a.0, All-insert_aged P s ss p a.1)
  | inr e ↦ rw e (p, a)
]

pub All-oldest_first :
    (P : ResultSet → Type 0) (ss : List ResultSet) → All P ss → All P (oldest_first ss)
unfolding oldest_first
All-oldest_first P [] a = tt
All-oldest_first P (s ∷ ss) a =
    All-insert_aged P s (oldest_first ss) a.0 (All-oldest_first P ss a.1)

older-All :
    (m n : ℕ) (ss : List ResultSet)
    → m ≤ n
    → All (λ t. n ≤ t.created_at) ss
    → All (λ t. m ≤ t.created_at) ss
older-All m n [] h a = tt
older-All m n (t ∷ ss) h a = (omega (arith, a.0), older-All m n ss h a.1)

insert_aged-OldestFirst :
    (s : ResultSet) (ss : List ResultSet) → OldestFirst ss → OldestFirst (insert_aged s ss)
unfolding insert_aged
insert_aged-OldestFirst s [] o = (tt, tt)
insert_aged-OldestFirst s (t ∷ ss) o = elim (Bool-cases (ltb t.created_at s.created_at)) [
  | inl e ↦ rw e (
    All-insert_aged (λ u. t.created_at ≤ u.created_at) s ss (ground arith) o.0,
    insert_aged-OldestFirst s ss o.1,
  )
  | inr e ↦
      let h : s.created_at ≤ t.created_at = ground arith in
      rw e ((h, older-All s.created_at t.created_at ss h o.0), o)
]

pub oldest_first-OldestFirst : (ss : List ResultSet) → OldestFirst (oldest_first ss)
unfolding oldest_first
oldest_first-OldestFirst [] = tt
oldest_first-OldestFirst (s ∷ ss) =
    insert_aged-OldestFirst s (oldest_first ss) (oldest_first-OldestFirst ss)

-- A set that may be removed: its age is known and no run is writing it.
abbrev pub Removable : List (ℕ × ℕ) → ResultSet → Type 0
Removable live s = (s.aged ≡ true) × (is_protected live s.dir ≡ false)

pub candidates-Removable :
    (live : List (ℕ × ℕ)) (ss : List ResultSet) → All (Removable live) (candidates live ss)
unfolding candidates
candidates-Removable live [] = tt
candidates-Removable live (s ∷ ss) = ground (arith, candidates-Removable live ss)

-- What holds of the candidates is what holds of every set that may be removed.
module _ (P : ResultSet → Type 0) (live : List (ℕ × ℕ)) where
  All-uncandidates :
      (ss : List ResultSet) → All P (candidates live ss) → All (λ s. Removable live s → P s) ss
  unfolding candidates
  All-uncandidates [] a = tt
  All-uncandidates (s ∷ ss) a = elim (Bool-cases (not s.aged || is_protected live s.dir)) [
    | inl y ↦
        let a' : All P (candidates live ss) = rw y at a in
        ((λ r. let never : ⊥ = ground (arith, r, y) in elim never [ ]), All-uncandidates ss a')
    | inr n ↦
        let a' : All P (s ∷ candidates live ss) = rw n at a in
        ((λ r. a'.0), All-uncandidates ss a'.1)
  ]

  All-candidates :
      (ss : List ResultSet) → All (λ s. Removable live s → P s) ss → All P (candidates live ss)
  unfolding candidates
  All-candidates [] a = tt
  All-candidates (s ∷ ss) a = elim (Bool-cases (not s.aged || is_protected live s.dir)) [
    | inl y ↦ rw y (All-candidates ss a.1)
    | inr n ↦ rw n (a.0 (ground (arith, n), ground (arith, n)), All-candidates ss a.1)
  ]

All-uninsert :
    (P : ResultSet → Type 0) (s : ResultSet) (ss : List ResultSet)
    → All P (insert_aged s ss)
    → P s × All P ss
unfolding insert_aged
All-uninsert P s [] a = a
All-uninsert P s (t ∷ ss) a = elim (Bool-cases (ltb t.created_at s.created_at)) [
  | inl e ↦
      let a' : All P (t ∷ insert_aged s ss) = rw (e, insert_aged) at a in
      let (p, q) = All-uninsert P s ss a'.1 in (p, (a'.0, q))
  | inr e ↦ rw (e, insert_aged) at a
]

All-unsort : (P : ResultSet → Type 0) (ss : List ResultSet) → All P (oldest_first ss) → All P ss
unfolding oldest_first
All-unsort P [] a = tt
All-unsort P (s ∷ ss) a =
    let (p, q) = All-uninsert P s (oldest_first ss) a in (p, All-unsort P ss q)

-- Sorted, the candidates are still the sets that may be removed.
pub All-oldest_candidates :
    (P : ResultSet → Type 0) (live : List (ℕ × ℕ)) (ss : List ResultSet)
    → All P (oldest_first (candidates live ss)) ↔ All (λ s. Removable live s → P s) ss
All-oldest_candidates P live ss = (
  (λ a. All-uncandidates P live ss (All-unsort P (candidates live ss) a)),
  (λ a. All-oldest_first P (candidates live ss) (All-candidates P live ss a)),
)

total_bytes-insert :
    (s : ResultSet) (ss : List ResultSet)
    → total_bytes (insert_aged s ss) ≡ s.bytes + total_bytes ss
unfolding insert_aged total_bytes
total_bytes-insert s [] = refl
total_bytes-insert s (t ∷ ss) = ground (arith, total_bytes-insert s ss)

total_bytes-sort : (ss : List ResultSet) → total_bytes (oldest_first ss) ≡ total_bytes ss
unfolding oldest_first total_bytes
total_bytes-sort [] = refl
total_bytes-sort (s ∷ ss) = total_bytes-insert s (oldest_first ss) ∙ (rw (total_bytes-sort ss) refl)

-- The candidates come out with no set before an older one, of the same bytes in all, and a property
-- holds of all of them just when it held of all before.
pub oldest_first_lem :
    (ss : List ResultSet)
    → OldestFirst (oldest_first ss)
      × (total_bytes (oldest_first ss) ≡ total_bytes ss)
      × ((P : ResultSet → Type 0) → All P ss ↔ All P (oldest_first ss))
oldest_first_lem ss = (
  oldest_first-OldestFirst ss,
  total_bytes-sort ss,
  λ P. (All-oldest_first P ss, All-unsort P ss),
)
