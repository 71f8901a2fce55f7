-- ===== src/Core/Budget/Limits.antt =====
-- When the tracker of internal/core/budget.go stops a run, against what it says is left.
use torpeek.Prelude.{◌≡◌, true, false, ◌&&◌, ◌||◌, arith}
use torpeek.Prelude.Int.{ℤ, pos, ltb_ℤ, leb_ℤ, ◌≤ℤ◌, ◌-ℤ◌}
use torpeek.Core.Budget.{
  Floats, BudgetTracker, Reading, reached, met, spent_bytes, elapsed, exhausted, remaining, left,
}

-- A later look: no counter and no clock goes back.
pub record Later (r r' : Reading) : Type 0 where
  pub downloaded : r.downloaded ≤ℤ r'.downloaded
  pub received : r.received ≤ℤ r'.received
  pub now : r.now ≤ℤ r'.now

left-met :
    (limit spent : ℤ) → met limit spent ≡ (ltb_ℤ (pos 0) limit && leb_ℤ (left limit spent) (pos 0))
unfolding met left
left-met limit spent = ground arith

met_mono : (limit a b : ℤ) → a ≤ℤ b → met limit a ≡ true → met limit b ≡ true
unfolding met
met_mono limit a b h k = ground arith

-ℤ_mono : (a b c : ℤ) → a ≤ℤ b → a -ℤ c ≤ℤ b -ℤ c
-ℤ_mono a b c h = ground arith

module _ (f : Floats) (t : BudgetTracker f) (r : Reading) where
  -- Where the roof is not met, the run is stopped exactly when it has a ceiling, on its time or on
  -- its bytes, of which `Remaining` has nothing left.
  pub exhausted-remaining :
      (t.has_client && reached f t.roof r.received) ≡ false
      → (exhausted f t r).0 ≡ (
          ltb_ℤ (pos 0) t.budget.max_time && leb_ℤ (remaining f t r).1 (pos 0)
          || ltb_ℤ (pos 0) t.budget.max_bytes && leb_ℤ (remaining f t r).0 (pos 0))
  unfolding exhausted remaining
  exhausted-remaining h = rw h (
      rw
        (
          ← left-met t.budget.max_time (elapsed f t r),
          ← left-met t.budget.max_bytes (spent_bytes f t r),
        )
        (ground arith))

  elapsed-later : (r' : Reading) → Later r r' → elapsed f t r ≤ℤ elapsed f t r'
  unfolding elapsed
  elapsed-later r' l = -ℤ_mono r.now r'.now t.start l.now

  spent-later : (r' : Reading) → Later r r' → spent_bytes f t r ≤ℤ spent_bytes f t r'
  unfolding spent_bytes
  spent-later r' l = ground arith

  -- A run that is stopped, for whatever reason, stays stopped as the counters and the clock go on.
  pub exhausted-Later :
      (r' : Reading) → Later r r' → (exhausted f t r).0 ≡ true → (exhausted f t r').0 ≡ true
  unfolding exhausted reached
  exhausted-Later r' l h = ground (
    arith,
    met_mono t.roof.max_bytes r.received r'.received l.received,
    met_mono t.budget.max_time (elapsed f t r) (elapsed f t r') (elapsed-later r' l),
    met_mono t.budget.max_bytes (spent_bytes f t r) (spent_bytes f t r') (spent-later r' l),
  )
