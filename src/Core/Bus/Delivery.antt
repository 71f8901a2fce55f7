-- ===== src/Core/Bus/Delivery.antt =====
-- What one subscriber of internal/core/bus.go is sent.
use mathlib.Core.List.{append_assoc}
use torpeek.Prelude.{
  ℕ, ◌+◌, ◌≤◌, ◌≡◌, refl, sym, subst, Bool, true, false, not, ◌&&◌, List, [], ◌∷◌, ◌++◌, ltb,
  if◌then◌else◌, length, length-append, arith, Bool-cases, List-cases, inl, inr, ◌∙◌, ap,
}
use torpeek.Core.Bus.{BusEvent, is_terminal, Subscriber, take_one, deliver, publish_to}

true_not_false : true ≡ false → ⊥
true_not_false e = cc

-- The first list is the second with some events left out.
pub data Thinned : List BusEvent → List BusEvent → Type 0 where
  nothing : Thinned [] []
  kept : {xs ys : List BusEvent} (e : BusEvent) → Thinned xs ys → Thinned (e ∷ xs) (e ∷ ys)
  left_out : {xs ys : List BusEvent} (e : BusEvent) → Thinned xs ys → Thinned xs (e ∷ ys)

keep_last :
    {xs ys : List BusEvent} (e : BusEvent)
    → Thinned xs ys
    → Thinned (xs ++ (e ∷ [])) (ys ++ (e ∷ []))
keep_last e nothing = kept e nothing
keep_last e (kept d t) = kept d (keep_last e t)
keep_last e (left_out d t) = left_out d (keep_last e t)

leave_last : {xs ys : List BusEvent} (e : BusEvent) → Thinned xs ys → Thinned xs (ys ++ (e ∷ []))
leave_last e nothing = left_out e nothing
leave_last e (kept d t) = kept d (leave_last e t)
leave_last e (left_out d t) = left_out d (leave_last e t)

-- What went into the subscriber's channel is what it was offered, in order, with some events left out; no
-- more were dropped than that, and for one that is in the bus just as many; the buffer holds what it can.
abbrev pub Delivered : ℕ → List BusEvent → Subscriber → Type 0
Delivered buffer es s =
    Thinned (s.taken ++ s.pending) es
    × (length s.taken + length s.pending + s.dropped ≤ length es)
    × (length s.pending ≤ buffer)
    × (s.live ≡ true → length s.taken + length s.pending + s.dropped ≡ length es)

pub take_one-Delivered :
    (buffer : ℕ) (es : List BusEvent) (s : Subscriber)
    → Delivered buffer es s
    → Delivered buffer es (take_one s)
unfolding take_one
take_one-Delivered buffer es s (t, n, m, q) = elim (List-cases s.pending) [
  | inl e ↦ rw (e, take_one) (t, n, m, q)
  | inr (x, rest, e) ↦
      rw (e, take_one)
        (
          subst (λ xs. Thinned xs es)
              (ap (λ p. s.taken ++ p) e ∙ sym (append_assoc s.taken (x ∷ []) rest)) t,
          omega (arith, n, ap length e, length-append s.taken (x ∷ [])),
          omega (arith, m, ap length e),
          λ l. omega (arith, q l, ap length e, length-append s.taken (x ∷ [])),
        )
]

room : (n b m : ℕ) → ltb n b ≡ true → m ≡ n + 1 → m ≤ b
room n b m h e = ground arith

-- An event is sent, or dropped where the buffer is full.
send-Delivered :
    (buffer : ℕ) (es : List BusEvent) (e : BusEvent) (s : Subscriber)
    → Delivered buffer es s
    → Delivered buffer (es ++ (e ∷ [])) (
        if ltb (length s.pending) buffer
        then record s { pending = s.pending ++ (e ∷ []) }
        else record s { dropped = s.dropped + 1 })
send-Delivered buffer es e s (t, n, m, q) = elim (Bool-cases (ltb (length s.pending) buffer)) [
  | inl h ↦ rw h (
    subst (λ xs. Thinned xs (es ++ (e ∷ []))) (append_assoc s.taken s.pending (e ∷ []))
        (keep_last e t),
    omega (arith, n, length-append s.pending (e ∷ []), length-append es (e ∷ [])),
    room (length s.pending) buffer (length (s.pending ++ (e ∷ []))) h
        (length-append s.pending (e ∷ [])),
    λ l. omega (arith, q l, length-append s.pending (e ∷ []), length-append es (e ∷ [])),
  )
  | inr h ↦ rw h (
    leave_last e t,
    omega (arith, n, length-append es (e ∷ [])),
    m,
    λ l. omega (arith, q l, length-append es (e ∷ [])),
  )
]

-- A subscriber that is not in the bus, or no longer.
gone-Delivered :
    (buffer : ℕ) (es : List BusEvent) (e : BusEvent) (s s' : Subscriber)
    → Delivered buffer es s
    → (s'.taken ≡ s.taken) × (s'.pending ≡ s.pending) × (s'.dropped ≡ s.dropped) × (s'.live ≡ false)
    → Delivered buffer (es ++ (e ∷ [])) s'
gone-Delivered buffer es e s s' (t, n, m, q) (a, b, c, d) = (
  subst (λ xs. Thinned xs (es ++ (e ∷ [])))
      (ap (λ x. x ++ s.pending) (sym a) ∙ ap (λ x. s'.taken ++ x) (sym b)) (leave_last e t),
  omega (arith, n, length-append es (e ∷ []), ap length a, ap length b, c),
  omega (arith, m, ap length b),
  λ l. elim (true_not_false (sym l ∙ d)) [ ],
)

deliver-Delivered :
    (buffer : ℕ) (es : List BusEvent) (e : BusEvent) (reads : Bool) (s : Subscriber)
    → Delivered buffer es s
    → Delivered buffer (es ++ (e ∷ [])) (deliver buffer e reads s)
unfolding deliver
deliver-Delivered buffer es e reads s d =
    elim (Bool-cases (is_terminal e && reads && not (ltb (length s.pending) buffer))) [
      | inl h ↦ rw h (send-Delivered buffer es e (take_one s) (take_one-Delivered buffer es s d))
      | inr h ↦ rw h (send-Delivered buffer es e s d)
    ]

pick :
    (P : Subscriber → Type 0) (a b : Bool) (x y z : Subscriber)
    → (a ≡ false → P x)
    → P y
    → P z
    → P (if not a then x else if b then y else z)
pick P false b x y z h k l = h refl
pick P true true x y z h k l = k
pick P true false x y z h k l = l

pub publish_to-Delivered :
    (buffer : ℕ) (es : List BusEvent) (e : BusEvent) (reads : Bool) (s : Subscriber)
    → Delivered buffer es s
    → Delivered buffer (es ++ (e ∷ [])) (publish_to buffer e reads s)
unfolding publish_to
publish_to-Delivered buffer es e reads s d =
    pick (Delivered buffer (es ++ (e ∷ []))) s.live s.cancelled s (record s { live = false })
      (deliver buffer e reads s) (λ h. gone-Delivered buffer es e s s d (refl, refl, refl, h))
      (gone-Delivered buffer es e s (record s { live = false }) d (refl, refl, refl, refl))
      (deliver-Delivered buffer es e reads s d)
