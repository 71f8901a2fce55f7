-- ===== src/Core/Budget/Offer.antt =====
-- What `TopUpBytes` of internal/core/budget.go promises for every receipt that does not overflow.
use torpeek.Prelude.{
  ℕ, ◌+◌, ◌*◌, ◌/◌, ◌%◌, ◌≤◌, ◌<◌, ◌≡◌, ◌&&◌, arith, if◌then◌else◌, min, ltb, ◌⊎◌, ◌∙◌, ap,
}
use torpeek.Prelude.Int.{
  pos, ◌≤ℤ◌, wrap64, wrap64-pos, quot_ℤ, int64_of, ◌+ℤ◌, ◌*ℤ◌, add_pos, mul_pos,
}
use torpeek.Core.Budget.{default_bytes, max_run_bytes, bytes_per_file}
use torpeek.Core.Budget.TopUp.{mib, measured, whole_mib, raised, capped, top_up_bytes, top_up_floor}

-- The ordinary ceiling of a run of `n` files, without the machine's arithmetic.
abbrev pub share : ℕ → ℕ
share n = min (n * bytes_per_file) max_run_bytes

default_bytes-pos : (n : ℕ) → 0 < n → n < 4294967296 → default_bytes (pos n) ≡ pos (share n)
unfolding default_bytes wrap64 int64_of
default_bytes-pos n h k = ground arith

whole_mib-pos :
    (w : ℕ) → w < 4611686018427387904 → whole_mib (pos w) ≡ pos ((w + 1048575) / mib * mib)
unfolding whole_mib quot_ℤ wrap64 int64_of
whole_mib-pos w h = ground arith

measured-pos :
    (r c b : ℕ)
    → r < 4611686018427387904
    → b * (r + 1) < 4611686018427387904
    → measured (pos r) (pos c) (pos b) ≡ pos (b * (r + 1) / c)
unfolding measured quot_ℤ
measured-pos r c b h k =
    ap (λ x. quot_ℤ (wrap64 (pos b *ℤ x)) c) next
    ∙ ap (λ x. quot_ℤ x c) (ap wrap64 (mul_pos b (r + 1)) ∙ wrap64-pos (b * (r + 1)) (omega arith))
  where
    next : wrap64 (pos r +ℤ pos 1) ≡ pos (r + 1)
    next = ap wrap64 (add_pos r 1) ∙ wrap64-pos (r + 1) (omega arith)

floor-pos :
    (r c b : ℕ)
    → 0 < r
    → 0 < c
    → 0 < b
    → b * r < 4611686018427387904
    → top_up_floor (pos r) (pos c) (pos b) ≡ pos (b * r / c)
unfolding top_up_floor quot_ℤ
floor-pos r c b hr hc hb k =
    let e : wrap64 (pos b *ℤ pos r) ≡ pos (b * r) =
      ap wrap64 (mul_pos b r) ∙ wrap64-pos (b * r) (omega arith) in
    ground (arith, ap (λ x. quot_ℤ x c) e)

-- The receipt's figure, or the share where the receipt says less or nothing.
abbrev pub wanted : ℕ → ℕ → ℕ → ℕ → ℕ
wanted r n c b =
    if ltb 0 c && ltb 0 b && ltb (share n) (b * (r + 1) / c) then b * (r + 1) / c else share n

raised-pos :
    (r n c b : ℕ)
    → r < 4611686018427387904
    → b * (r + 1) < 4611686018427387904
    → raised (pos (share n)) (pos r) (pos c) (pos b) ≡ pos (wanted r n c b)
unfolding raised
raised-pos r n c b h k = rw (measured-pos r c b h k) (ground arith)

capped-pos : (w : ℕ) → capped (pos w) ≡ pos (min w max_run_bytes)
unfolding capped
capped-pos w = ground arith

div-small : (a c : ℕ) → a / c ≤ a
div-small a c = omega arith

div_mono : (a b c : ℕ) → a ≤ b → a / c ≤ b / c
div_mono a b c h = grind arith

top_up_bytes-pos :
    (r n c b : ℕ)
    → 0 < r
    → 0 < n
    → r < 4611686018427387904
    → n < 4294967296
    → b * (r + 1) < 4611686018427387904
    → top_up_bytes (pos r) (pos n) (pos c) (pos b)
      ≡ pos (min ((wanted r n c b + 1048575) / mib * mib) max_run_bytes)
unfolding top_up_bytes
top_up_bytes-pos r n c b hr hn br bn k = ground (arith, chain)
  where
    small : wanted r n c b < 4611686018427387904
    small = ground (arith, div-small (b * (r + 1)) c)

    chain :
        capped (whole_mib (raised (default_bytes (pos n)) (pos r) (pos c) (pos b)))
        ≡ pos (min ((wanted r n c b + 1048575) / mib * mib) max_run_bytes)
    chain =
        rw (default_bytes-pos n hn bn)
          (rw (raised-pos r n c b br k) (rw (whole_mib-pos (wanted r n c b) small) (capped-pos _)))

covered :
    (f w : ℕ)
    → f ≤ w
    → (f + 0 ≤ min ((w + 1048575) / mib * mib) max_run_bytes + 0)
      ⊎ (min ((w + 1048575) / mib * mib) max_run_bytes ≡ max_run_bytes)
covered f w h = grind arith

floor-le-wanted : (r n c b : ℕ) → 0 < c → 0 < b → b * r / c ≤ wanted r n c b
floor-le-wanted r n c b hc hb = ground (arith, div_mono (b * r) (b * (r + 1)) c (grind arith))

-- For counts and a receipt that do not overflow, the offer is at least the ceiling that a plain run
-- of the same files would have, at most the ceiling of any run, and a whole number of MiB; and it
-- covers what the points still owed will cost at the least, unless it is the ceiling of any run.
pub top_up_bytes_bounds :
    (r n c b : ℕ)
    → 0 < r
    → 0 < n
    → 0 < c
    → 0 < b
    → r < 4611686018427387904
    → n < 4294967296
    → b * (r + 1) < 4611686018427387904
    → (offer : ℕ) × (top_up_bytes (pos r) (pos n) (pos c) (pos b) ≡ pos offer)
      × (default_bytes (pos n) ≤ℤ pos offer)
      × (offer ≤ max_run_bytes)
      × (offer % mib ≡ 0)
      × ((top_up_floor (pos r) (pos c) (pos b) ≤ℤ pos offer) ⊎ (offer ≡ max_run_bytes))
top_up_bytes_bounds r n c b hr hn hc hb br bn k = (
  min ((wanted r n c b + 1048575) / mib * mib) max_run_bytes,
  top_up_bytes-pos r n c b hr hn br bn k,
  rw (default_bytes-pos n hn bn) (ground arith),
  omega arith,
  omega arith,
  rw (floor-pos r c b hr hc hb (grind arith)) (covered _ _ (floor-le-wanted r n c b hc hb)),
)
