-- ===== src/Core/Budget/Warnings.antt =====
-- The warnings of the tracker of internal/core/budget.go over the life of a run.
use torpeek.Prelude.{
  ℕ, ◌+◌, ◌≤◌, ◌≡◌, Bool, true, false, not, ◌&&◌, ◌||◌, arith, if◌then◌else◌, Option, none, some,
  List, [], ◌∷◌,
}
use torpeek.Prelude.Int.{ℤ, pos}
use torpeek.Core.Budget.{
  Floats, Budget, Roof, BudgetTracker, Reading, Warning, LimitScope, limit_run, limit_client,
  new_budget_tracker, spent_bytes, elapsed, warning, roof_warning_due, crossed,
}

abbrev pub in_scope : LimitScope → Option Warning → ℕ
in_scope sc none = 0
in_scope limit_run (some w) = elim w.scope [ limit_run ↦ 1 | limit_client ↦ 0 ]
in_scope limit_client (some w) = elim w.scope [ limit_run ↦ 0 | limit_client ↦ 1 ]

module _ (f : Floats) where
  -- How many warnings of a scope the polls at these readings bring.
  pub count_warnings : LimitScope → BudgetTracker f → List Reading → ℕ
  count_warnings sc t [] = 0
  count_warnings sc t (r ∷ rs) =
      in_scope sc (warning f t r).1 + count_warnings sc (warning f t r).0 rs

  warning-run :
      (t : BudgetTracker f) (r : Reading)
      → in_scope limit_run (warning f t r).1 + (if (warning f t r).0.warned then 0 else 1)
        ≤ (if t.warned then 0 else 1)
  unfolding warning
  warning-run t r = ground arith

  warning-client :
      (t : BudgetTracker f) (r : Reading)
      → in_scope limit_client (warning f t r).1 + (if (warning f t r).0.warned_above then 0 else 1)
        ≤ (if t.warned_above then 0 else 1)
  unfolding warning
  warning-client t r = ground arith

  run_once :
      (t : BudgetTracker f) (rs : List Reading)
      → count_warnings limit_run t rs ≤ (if t.warned then 0 else 1)
  unfolding count_warnings
  run_once t [] = ground arith
  run_once t (r ∷ rs) = omega (arith, warning-run t r, run_once (warning f t r).0 rs)

  client_once :
      (t : BudgetTracker f) (rs : List Reading)
      → count_warnings limit_client t rs ≤ (if t.warned_above then 0 else 1)
  unfolding count_warnings
  client_once t [] = ground arith
  client_once t (r ∷ rs) = omega (arith, warning-client t r, client_once (warning f t r).0 rs)

  -- However often it is polled, a tracker warns of the run once at most, and of the client once.
  warned_once :
      (budget : Budget f) (has_meter : Bool) (roof : Roof f) (has_client : Bool) (now : ℤ)
      (rs : List Reading)
      → let t = new_budget_tracker f budget has_meter roof has_client now in
        (count_warnings limit_run t rs ≤ 1) × (count_warnings limit_client t rs ≤ 1)
  unfolding new_budget_tracker
  warned_once budget has_meter roof has_client now rs =
      let t = new_budget_tracker f budget has_meter roof has_client now in
      (run_once t rs, client_once t rs)

  -- The run's warning is due, whether or not it was given.
  abbrev pub run_warning_due : BudgetTracker f → Reading → Bool
  run_warning_due t r =
      not (f.le t.budget.warn_at (f.of_int (pos 0)))
      && (crossed f t t.budget.max_bytes (spent_bytes f t r)
          || crossed f t t.budget.max_time (elapsed f t r))

  -- Where both warnings are due and neither was given, the first poll gives the client's, and the
  -- second, at readings where the run's is still due, gives the run's: it was put off, not lost.
  pub warning_deferred :
      (t : BudgetTracker f) (r r' : Reading)
      → t.warned ≡ false
      → t.warned_above ≡ false
      → roof_warning_due f t r ≡ true
      → run_warning_due t r' ≡ true
      → (in_scope limit_client (warning f t r).1 ≡ 1)
        × (in_scope limit_run (warning f (warning f t r).0 r').1 ≡ 1)
  unfolding warning spent_bytes elapsed
  warning_deferred t r r' w a d e = ground arith
