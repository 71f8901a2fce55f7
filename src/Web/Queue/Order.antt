-- ===== src/Web/Queue/Order.antt =====
-- The queue's order: priority first, then the order of arrival in the queue.
use torpeek.Prelude.{ℕ, ◌≡◌, true, false, List, [], ◌∷◌, ◌==◌, arith, Bool-cases, inl, inr, All}
use torpeek.Prelude.Ids.{contains, cut}
use torpeek.Web.Queue.{RunEntry, queue_before, insert_waiting, update}

-- Nobody stands behind a run that it precedes.
abbrev pub Sorted : (ℕ → RunEntry) → List ℕ → Type 0
Sorted h [] = Unit
Sorted h (j ∷ js) = All (λ k. queue_before (h k) (h j) ≡ false) js × Sorted h js

pub queue_before_asym : (a b : RunEntry) → queue_before a b ≡ true → queue_before b a ≡ false
unfolding queue_before
queue_before_asym a b h = ground arith

-- If `a` precedes `b`, it precedes what does not precede `b`.
pub queue_before_trans :
    (a b c : RunEntry)
    → queue_before a b ≡ true
    → queue_before c b ≡ false
    → queue_before c a ≡ false
unfolding queue_before
queue_before_trans a b c h k = ground arith

pub All-insert :
    (P : ℕ → Type 0) (h : ℕ → RunEntry) (i : ℕ) (js : List ℕ)
    → P i
    → All P js
    → All P (insert_waiting h i js)
unfolding insert_waiting
All-insert P h i [] p a = (p, tt)
All-insert P h i (k ∷ js) p a = elim (Bool-cases (queue_before (h i) (h k))) [
  | inl before ↦ rw before (p, a)
  | inr behind ↦ rw behind (a.0, All-insert P h i js p a.1)
]

All-cut : (P : ℕ → Type 0) (i : ℕ) (js : List ℕ) → All P js → All P (cut i js)
unfolding cut
All-cut P i [] a = a
All-cut P i (k ∷ js) a = elim (Bool-cases (k == i)) [
  | inl hit ↦ rw hit a.1
  | inr miss ↦ rw miss (a.0, All-cut P i js a.1)
]

All-before :
    (h : ℕ → RunEntry) (i k : ℕ) (js : List ℕ)
    → queue_before (h i) (h k) ≡ true
    → All (λ l. queue_before (h l) (h k) ≡ false) js
    → All (λ l. queue_before (h l) (h i) ≡ false) js
All-before h i k [] b a = tt
All-before h i k (l ∷ js) b a =
    (queue_before_trans (h i) (h k) (h l) b a.0, All-before h i k js b a.1)

pub insert-Sorted :
    (h : ℕ → RunEntry) (i : ℕ) (js : List ℕ) → Sorted h js → Sorted h (insert_waiting h i js)
unfolding insert_waiting
insert-Sorted h i [] s = (tt, tt)
insert-Sorted h i (k ∷ js) s = elim (Bool-cases (queue_before (h i) (h k))) [
  | inl before ↦
      rw before ((queue_before_asym (h i) (h k) before, All-before h i k js before s.0), s)
  | inr behind ↦ rw behind (
    All-insert (λ l. queue_before (h l) (h k) ≡ false) h i js behind s.0,
    insert-Sorted h i js s.1,
  )
]

pub cut-Sorted : (h : ℕ → RunEntry) (i : ℕ) (js : List ℕ) → Sorted h js → Sorted h (cut i js)
unfolding cut
cut-Sorted h i [] s = s
cut-Sorted h i (k ∷ js) s = elim (Bool-cases (k == i)) [
  | inl hit ↦ rw hit s.1
  | inr miss ↦ rw miss (All-cut _ i js s.0, cut-Sorted h i js s.1)
]

All-update :
    (h : ℕ → RunEntry) (i j : ℕ) (e : RunEntry) (js : List ℕ)
    → contains i js ≡ false
    → (i == j) ≡ false
    → All (λ k. queue_before (h k) (h j) ≡ false) js
    → All (λ k. queue_before (update h i e k) (update h i e j) ≡ false) js
All-update h i j e [] c d a = tt
All-update h i j e (k ∷ js) c d a =
    (rw d (ground arith), All-update h i j e js (ground arith) d a.1)

-- The order speaks only of the runs in the queue.
pub update-Sorted :
    (h : ℕ → RunEntry) (i : ℕ) (e : RunEntry) (js : List ℕ)
    → contains i js ≡ false
    → Sorted h js
    → Sorted (update h i e) js
update-Sorted h i e [] c s = tt
update-Sorted h i e (j ∷ js) c s = (
  All-update h i j e js (ground arith) (ground arith) s.0,
  update-Sorted h i e js (ground arith) s.1,
)

-- Cutting a run out of the queue that it was put in gives the queue back.
pub cut-insert :
    (h : ℕ → RunEntry) (i : ℕ) (js : List ℕ)
    → contains i js ≡ false
    → cut i (insert_waiting h i js) ≡ js
unfolding insert_waiting cut
cut-insert h i [] c = ground arith
cut-insert h i (k ∷ js) c = ground (arith, cut-insert h i js (ground arith))
