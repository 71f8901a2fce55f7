-- ===== src/Swarm/Torrent/Spans.antt =====
-- `coalesceSpans` of internal/swarm/torrent.go: the same bytes, in separated spans.
use torpeek.Prelude.{
  ℕ, ◌≤◌, ◌<◌, ◌≡◌, refl, Bool, false, ◌&&◌, ◌||◌, List, [], ◌∷◌, leb, ltb, if◌then◌else◌, All,
  arith, Bool-cases, inl, inr, ◌∙◌,
}
use torpeek.Swarm.Torrent.{
  span_before, insert_span, sort_spans, merge_spans, merge_all, coalesce_spans,
}

-- The byte `x` lies in a span.
abbrev pub covered : ℕ → List (ℕ × ℕ) → Bool
covered x [] = false
covered x ((a, b) ∷ ss) = (leb a x && ltb x b) || covered x ss

-- Each span ends before the next one begins, with a gap.
abbrev pub Separated : List (ℕ × ℕ) → Type 0
Separated [] = Unit
Separated ((a, b) ∷ ss) = All (λ s. b < s.0) ss × Separated ss

abbrev Ordered : List (ℕ × ℕ) → Type 0
Ordered [] = Unit
Ordered (s ∷ ss) = All (λ t. s.0 ≤ t.0) ss × Ordered ss

covered-insert :
    (x : ℕ) (s : ℕ × ℕ) (ss : List (ℕ × ℕ)) → covered x (insert_span s ss) ≡ covered x (s ∷ ss)
unfolding insert_span
covered-insert x (a, b) [] = refl
covered-insert x (a, b) ((c, d) ∷ ss) = ground (arith, covered-insert x (a, b) ss)

covered-sort : (x : ℕ) (ss : List (ℕ × ℕ)) → covered x (sort_spans ss) ≡ covered x ss
unfolding sort_spans
covered-sort x [] = refl
covered-sort x ((a, b) ∷ ss) = covered-insert x (a, b) (sort_spans ss) ∙ (rw (covered-sort x ss))

All-insert :
    (P : ℕ × ℕ → Type 0) (s : ℕ × ℕ) (ss : List (ℕ × ℕ)) → P s → All P ss → All P (insert_span s ss)
unfolding insert_span
All-insert P s [] p a = (p, tt)
All-insert P s (t ∷ ss) p a = elim (Bool-cases (span_before t s)) [
  | inl e ↦ rw e (a.0, All-insert P s ss p a.1)
  | inr e ↦ rw e (p, a)
]

below-All : (m n : ℕ) (ss : List (ℕ × ℕ)) → m ≤ n → All (λ t. n ≤ t.0) ss → All (λ t. m ≤ t.0) ss
below-All m n [] h a = tt
below-All m n (t ∷ ss) h a = (omega arith, below-All m n ss h a.1)

insert-Ordered : (s : ℕ × ℕ) (ss : List (ℕ × ℕ)) → Ordered ss → Ordered (insert_span s ss)
unfolding insert_span
insert-Ordered s [] o = (tt, tt)
insert-Ordered (a, b) ((c, d) ∷ ss) o = elim (Bool-cases (span_before (c, d) (a, b))) [
  | inl e ↦
      rw e (All-insert (λ t. c ≤ t.0) (a, b) ss (ground arith) o.0, insert-Ordered (a, b) ss o.1)
  | inr e ↦ let h : a ≤ c = ground arith in rw e ((h, below-All a c ss h o.0), o)
]

sort-Ordered : (ss : List (ℕ × ℕ)) → Ordered (sort_spans ss)
unfolding sort_spans
sort-Ordered [] = tt
sort-Ordered (s ∷ ss) = insert-Ordered s (sort_spans ss) (sort-Ordered ss)

covered-merge :
    (x : ℕ) (a b : ℕ) (ss : List (ℕ × ℕ))
    → Ordered ((a, b) ∷ ss)
    → covered x (merge_spans (a, b) ss) ≡ covered x ((a, b) ∷ ss)
unfolding merge_spans
covered-merge x a b [] o = refl
covered-merge x a b ((c, d) ∷ ss) o = elim (Bool-cases (leb c b)) [
  | inl e ↦
      rw (e, merge_spans)
        (covered-merge x a (if ltb b d then d else b) ss (o.0.1, o.1.1) ∙ (ground arith))
  | inr e ↦ rw (e, merge_spans) (rw (covered-merge x c d ss o.1))
]

-- The spans of the result begin at or after the span in hand.
merge-begins :
    (n a b : ℕ) (ss : List (ℕ × ℕ))
    → n < a
    → Ordered ((a, b) ∷ ss)
    → All (λ s. n < s.0) (merge_spans (a, b) ss)
unfolding merge_spans
merge-begins n a b [] h o = (h, tt)
merge-begins n a b ((c, d) ∷ ss) h o = elim (Bool-cases (leb c b)) [
  | inl e ↦ rw (e, merge_spans) (merge-begins n a (if ltb b d then d else b) ss h (o.0.1, o.1.1))
  | inr e ↦ rw (e, merge_spans) (h, merge-begins n c d ss (omega (arith, o.0.0)) o.1)
]

merge-Separated :
    (a b : ℕ) (ss : List (ℕ × ℕ)) → Ordered ((a, b) ∷ ss) → Separated (merge_spans (a, b) ss)
unfolding merge_spans
merge-Separated a b [] o = (tt, tt)
merge-Separated a b ((c, d) ∷ ss) o = elim (Bool-cases (leb c b)) [
  | inl e ↦ rw (e, merge_spans) (merge-Separated a (if ltb b d then d else b) ss (o.0.1, o.1.1))
  | inr e ↦
      rw (e, merge_spans) (merge-begins b c d ss (ground arith) o.1, merge-Separated c d ss o.1)
]

covered-merge_all :
    (x : ℕ) (ss : List (ℕ × ℕ)) → Ordered ss → covered x (merge_all ss) ≡ covered x ss
covered-merge_all x [] o = refl
covered-merge_all x ((a, b) ∷ ss) o = covered-merge x a b ss o

merge_all-Separated : (ss : List (ℕ × ℕ)) → Ordered ss → Separated (merge_all ss)
merge_all-Separated [] o = tt
merge_all-Separated ((a, b) ∷ ss) o = merge-Separated a b ss o

-- Coalescing keeps the bytes that the spans cover, and leaves a gap between any two spans.
pub coalesce_spans_lem :
    (ss : List (ℕ × ℕ))
    → ((x : ℕ) → covered x (coalesce_spans ss) ≡ covered x ss) × Separated (coalesce_spans ss)
unfolding coalesce_spans
coalesce_spans_lem ss = (
  (λ x. covered-merge_all x (sort_spans ss) (sort-Ordered ss) ∙ covered-sort x ss),
  merge_all-Separated (sort_spans ss) (sort-Ordered ss),
)
