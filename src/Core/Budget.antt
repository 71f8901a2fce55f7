-- ===== src/Core/Budget.antt =====
-- internal/core/budget.go: the ceilings of a run and of a client, the tracker that holds a run to
-- them, and the figures that a top-up is offered. `float64` is a parameter; what the meters and the
-- clock show at a call is a `Reading`.
pub mod TopUp
mod Offer
mod Limits
mod Warnings
mod Tests
use torpeek.Prelude.{ℕ, ◌*◌, Bool, true, false, not, ◌&&◌, ◌||◌, Option, none, some, if◌then◌else◌}
use torpeek.Prelude.Int.{ℤ, pos, ltb_ℤ, leb_ℤ, ◌-ℤ◌, ◌*ℤ◌, wrap64, pos_part}

-- The floating-point operations that the source uses on a ceiling and its warning fraction.
pub record Floats : Type 1 where
  pub Float : Type 0
  pub of_int : ℤ → Float
  pub mul : Float → Float → Float
  pub lt : Float → Float → Bool
  pub le : Float → Float → Bool

abbrev pub bytes_per_file : ℕ
bytes_per_file = 157286400

abbrev pub max_run_bytes : ℕ
max_run_bytes = 2147483648

-- Ten minutes, in nanoseconds.
abbrev pub default_run_time : ℕ
default_run_time = 600000000000

-- The traffic ceiling of `DefaultBudget`.
unfoldable pub default_bytes : ℤ → ℤ
default_bytes files =
    let n = if ltb_ℤ files (pos 1) then pos 1 else files in
    let bytes = wrap64 (n *ℤ pos bytes_per_file) in
    if ltb_ℤ (pos max_run_bytes) bytes then pos max_run_bytes else bytes

pub data StopReason : Type 0 where
  completed stop_time stop_budget stop_roof stop_cancelled : StopReason

pub data LimitScope : Type 0 where
  limit_run limit_client : LimitScope

pub record Reading : Type 0 where
  pub downloaded : ℤ  -- the run's meter
  pub received : ℤ  -- the client's meter
  pub now : ℤ

pub record Warning : Type 0 where
  pub scope : LimitScope
  pub spent_bytes : ℤ
  pub limit_bytes : ℤ
  pub elapsed : ℤ
  pub limit_time : ℤ

-- A ceiling that is set, and met.
unfoldable pub met : ℤ → ℤ → Bool
met limit spent = ltb_ℤ (pos 0) limit && leb_ℤ limit spent

-- What a ceiling leaves; no ceiling leaves 0 as well.
unfoldable pub left : ℤ → ℤ → ℤ
left limit spent =
    if ltb_ℤ (pos 0) limit
    then (let rest = limit -ℤ spent in if ltb_ℤ rest (pos 0) then pos 0 else rest)
    else pos 0

module _ (f : Floats) where
  open f use {Float, of_int, mul, lt, le}

  pub record Budget : Type 0 where
    pub max_bytes : ℤ
    pub max_time : ℤ
    pub warn_at : Float

  pub record Roof : Type 0 where
    pub max_bytes : ℤ
    pub warn_at : Float

  -- A nil meter or client is one that is absent.
  pub record BudgetTracker : Type 0 where
    pub budget : Budget
    pub has_meter : Bool
    pub roof : Roof
    pub has_client : Bool
    pub start : ℤ
    pub warned : Bool
    pub warned_above : Bool

  pub default_budget : Float → ℤ → Budget
  default_budget default_warn_at files = record {
    max_bytes = default_bytes files;
    max_time = pos default_run_time;
    warn_at = default_warn_at;
  }

  unfoldable pub reached : Roof → ℤ → Bool
  reached r received = met r.max_bytes received

  unfoldable pub new_budget_tracker : Budget → Bool → Roof → Bool → ℤ → BudgetTracker
  new_budget_tracker budget has_meter roof has_client now = record {
    budget = budget;
    has_meter = has_meter;
    roof = roof;
    has_client = has_client;
    start = now;
    warned = false;
    warned_above = false;
  }

  unfoldable pub spent_bytes : BudgetTracker → Reading → ℤ
  spent_bytes t r = if t.has_meter then r.downloaded else pos 0

  unfoldable pub elapsed : BudgetTracker → Reading → ℤ
  elapsed t r = r.now -ℤ t.start

  unfoldable pub exhausted : BudgetTracker → Reading → Bool × StopReason
  exhausted t r =
      if t.has_client && reached t.roof r.received
      then (true, stop_roof)
      else if met t.budget.max_time (elapsed t r)
      then (true, stop_time)
      else if met t.budget.max_bytes (spent_bytes t r)
      then (true, stop_budget)
      else (false, completed)

  unfoldable pub remaining : BudgetTracker → Reading → ℤ × ℤ
  remaining t r = (left t.budget.max_bytes (spent_bytes t r), left t.budget.max_time (elapsed t r))

  abbrev pub roof_warning_due : BudgetTracker → Reading → Bool
  roof_warning_due t r =
      not (not t.has_client || leb_ℤ t.roof.max_bytes (pos 0) || le t.roof.warn_at (of_int (pos 0)))
      && not (lt (of_int r.received) (mul (of_int t.roof.max_bytes) t.roof.warn_at))

  unfoldable pub roof_warning : BudgetTracker → Reading → BudgetTracker × Option Warning
  unfolding elapsed
  roof_warning t r =
      if not (roof_warning_due t r) then (t, none) else if t.warned_above then (t, none) else (
        record t { warned_above = true },
        some (record {
          scope = limit_client;
          spent_bytes = r.received;
          limit_bytes = t.roof.max_bytes;
          elapsed = elapsed t r;
          limit_time = pos 0;
        }),
      )

  abbrev pub crossed : BudgetTracker → ℤ → ℤ → Bool
  crossed t limit spent =
      ltb_ℤ (pos 0) limit && le (mul (of_int limit) t.budget.warn_at) (of_int spent)

  unfoldable pub run_warning : BudgetTracker → Reading → BudgetTracker × Option Warning
  unfolding spent_bytes elapsed
  run_warning t r =
      if le t.budget.warn_at (of_int (pos 0))
      then (t, none)
      else if not (
          crossed t t.budget.max_bytes (spent_bytes t r)
          || crossed t t.budget.max_time (elapsed t r))
      then (t, none)
      else if t.warned
      then (t, none)
      else (
        record t { warned = true },
        some (record {
          scope = limit_run;
          spent_bytes = spent_bytes t r;
          limit_bytes = t.budget.max_bytes;
          elapsed = elapsed t r;
          limit_time = t.budget.max_time;
        }),
      )

  -- The roof is asked first; the run's own warning is asked only if the roof has none.
  unfoldable pub warning : BudgetTracker → Reading → BudgetTracker × Option Warning
  unfolding roof_warning run_warning
  warning t r =
      let (t', w) = roof_warning t r in elim w [ some w' ↦ (t', some w') | none ↦ run_warning t' r ]
