-- ===== src/Core/Budget/TopUp.antt =====
-- `TopUpBytes` and `TopUpFloor` of internal/core/budget.go: what a run that finishes an earlier one
-- is offered, and the least that finishing it can cost.
use torpeek.Prelude.{ℕ, ◌&&◌, ◌||◌, if◌then◌else◌}
use torpeek.Prelude.Int.{ℤ, pos, ltb_ℤ, leb_ℤ, ◌+ℤ◌, ◌-ℤ◌, ◌*ℤ◌, wrap64, pos_part, quot_ℤ}
use torpeek.Core.Budget.{default_bytes, max_run_bytes}

abbrev pub mib : ℕ
mib = 1048576

-- What the receipt says that the points still owed and one more will cost.
unfoldable pub measured : ℤ → ℤ → ℤ → ℤ
measured remaining captured spent =
    quot_ℤ (wrap64 (spent *ℤ wrap64 (remaining +ℤ pos 1))) (pos_part captured)

unfoldable pub whole_mib : ℤ → ℤ
whole_mib want = wrap64 (quot_ℤ (wrap64 (want +ℤ pos mib -ℤ pos 1)) mib *ℤ pos mib)

-- The share, raised to what the receipt says.
unfoldable pub raised : ℤ → ℤ → ℤ → ℤ → ℤ
raised share remaining captured spent =
    let receipt = measured remaining captured spent in
    if ltb_ℤ (pos 0) captured && ltb_ℤ (pos 0) spent && ltb_ℤ share receipt then receipt else share

unfoldable pub capped : ℤ → ℤ
capped want = if ltb_ℤ (pos max_run_bytes) want then pos max_run_bytes else want

unfoldable pub top_up_bytes : ℤ → ℤ → ℤ → ℤ → ℤ
top_up_bytes remaining short captured spent =
    let want = raised (default_bytes short) remaining captured spent in
    if leb_ℤ remaining (pos 0) || leb_ℤ short (pos 0) then pos 0 else capped (whole_mib want)

unfoldable pub top_up_floor : ℤ → ℤ → ℤ → ℤ
top_up_floor remaining captured spent =
    if leb_ℤ remaining (pos 0) || leb_ℤ captured (pos 0) || leb_ℤ spent (pos 0)
    then pos 0
    else quot_ℤ (wrap64 (spent *ℤ remaining)) (pos_part captured)
