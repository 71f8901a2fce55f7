-- ===== src/Core/Budget/Tests.antt =====
-- The budget of internal/core/budget.go at concrete inputs. The floating-point numbers are here the
-- integers, with a product that divides by ten, so that a fraction of 8 stands for 0.8.
use torpeek.Prelude.{ℕ, ◌%◌, ◌≡◌, refl, true, ◌≤◌, ◌⊎◌, arith}
use torpeek.Prelude.Int.{ℤ, pos, ltb_ℤ, leb_ℤ, ◌≤ℤ◌, ◌*ℤ◌, quot_ℤ}
use torpeek.Core.Budget.{
  Floats, BudgetTracker, Reading, default_bytes, max_run_bytes, new_budget_tracker, exhausted, met,
  reached, elapsed, spent_bytes,
}
use torpeek.Core.Budget.TopUp.{mib, top_up_bytes, top_up_floor}
use torpeek.Core.Budget.Offer.{top_up_bytes_bounds}

abbrev tenths : Floats
tenths = record {
  Float = ℤ;
  of_int = λ n. n;
  mul = λ a b. quot_ℤ (a *ℤ b) 10;
  lt = ltb_ℤ;
  le = leb_ℤ;
}

-- A run of 1000 bytes and 600 ticks under a roof of 5000 bytes, started at 100.
abbrev tracker : BudgetTracker tenths
tracker =
    new_budget_tracker tenths (record { max_bytes = pos 1000; max_time = pos 600; warn_at = pos 8 })
      true (record { max_bytes = pos 5000; warn_at = pos 8 }) true (pos 100)

abbrev full : Reading
full = record { downloaded = pos 1000; received = pos 4100; now = pos 200 }

abbrev fuller : Reading
fuller = record { downloaded = pos 1200; received = pos 5100; now = pos 300 }

top_up_bytes_bounds_example :
    (offer : ℕ) × (top_up_bytes (pos 4) (pos 1) (pos 16) (pos 400000000) ≡ pos offer)
    × (default_bytes (pos 1) ≤ℤ pos offer)
    × (offer ≤ max_run_bytes)
    × (offer % mib ≡ 0)
    × ((top_up_floor (pos 4) (pos 16) (pos 400000000) ≤ℤ pos offer) ⊎ (offer ≡ max_run_bytes))
top_up_bytes_bounds_example =
    top_up_bytes_bounds 4 1 16 400000000 (omega arith) (omega arith) (omega arith) (omega arith)
      (omega arith) (omega arith) (omega arith)

full_is_exhausted : (exhausted tenths tracker full).0 ≡ true
unfolding exhausted new_budget_tracker reached met elapsed spent_bytes
full_is_exhausted = refl
