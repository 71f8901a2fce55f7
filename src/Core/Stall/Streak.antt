-- ===== src/Core/Stall/Streak.antt =====
-- What the stall clock of internal/core/events.go shows, by the verdicts it was given.
use torpeek.Prelude.{
  ℕ, ◌≡◌, refl, sym, true, false, ◌==◌, List, [], ◌∷◌, if◌then◌else◌, Option, none, some, arith,
  Bool-cases, Option-cases, inl, inr, ◌∙◌, ap, ==_iff, get_elem?, some_inj, some_not_none,
}
use torpeek.Prelude.Int.{ℤ, ◌-ℤ◌}
use torpeek.Core.Stall.{
  ErrorCode, code_number, same_code, StallClock, runs_for, observe, peek, observe_all,
}

-- The first of the latest verdicts that all name the code, if the latest one does.
abbrev pub streak_start : ErrorCode → List (ℤ × Option ErrorCode) → Option ℤ
streak_start code [] = none
streak_start code ((now, none) ∷ earlier) = none
streak_start code ((now, some d) ∷ earlier) =
    let before = streak_start code earlier in
    if same_code code d then (elim before [ some start ↦ some start | none ↦ some now ]) else none

observe-running :
    (c : StallClock) (now start : ℤ) (d : ErrorCode)
    → runs_for c d ≡ some start
    → (observe c now (some d)).0 ≡ c
unfolding observe
observe-running c now start d e = rw (e, observe) refl

observe-started :
    (c : StallClock) (now : ℤ) (d : ErrorCode)
    → runs_for c d ≡ none
    → (observe c now (some d)).0 ≡ record { code = some d; start_at = some now }
unfolding observe
observe-started c now d e = rw (e, observe) refl

-- The codes, each at the place that its number names.
abbrev codes : List ErrorCode
codes =
    ErrorCode.no_metadata ∷ ErrorCode.no_peers ∷ ErrorCode.privacy_unresolvable
    ∷ ErrorCode.no_port_available ∷ ErrorCode.torrent_busy ∷ ErrorCode.no_video
    ∷ ErrorCode.no_file_match ∷ ErrorCode.unprobeable ∷ ErrorCode.read_stalled
    ∷ ErrorCode.unavailable ∷ ErrorCode.decode_failed ∷ ErrorCode.seek_failed
    ∷ ErrorCode.tool_missing ∷ ErrorCode.budget_exhausted ∷ ErrorCode.traffic_roof
    ∷ ErrorCode.cancelled ∷ ErrorCode.storage ∷ ErrorCode.internal ∷ []

code_at-number : (c : ErrorCode) → get_elem? codes (code_number c) ≡ some c
code_at-number ErrorCode.no_metadata = refl
code_at-number ErrorCode.no_peers = refl
code_at-number ErrorCode.privacy_unresolvable = refl
code_at-number ErrorCode.no_port_available = refl
code_at-number ErrorCode.torrent_busy = refl
code_at-number ErrorCode.no_video = refl
code_at-number ErrorCode.no_file_match = refl
code_at-number ErrorCode.unprobeable = refl
code_at-number ErrorCode.read_stalled = refl
code_at-number ErrorCode.unavailable = refl
code_at-number ErrorCode.decode_failed = refl
code_at-number ErrorCode.seek_failed = refl
code_at-number ErrorCode.tool_missing = refl
code_at-number ErrorCode.budget_exhausted = refl
code_at-number ErrorCode.traffic_roof = refl
code_at-number ErrorCode.cancelled = refl
code_at-number ErrorCode.storage = refl
code_at-number ErrorCode.internal = refl

same_code-number : (a b : ErrorCode) → same_code a b ≡ true → code_number a ≡ code_number b
same_code-number a b h = (==_iff (code_number a) (code_number b)).0 h

same_code-eq : (a b : ErrorCode) → same_code a b ≡ true → a ≡ b
same_code-eq a b h = some_inj a b (
    sym (code_at-number a)
    ∙ ap (λ n. get_elem? codes n) (same_code-number a b h)
    ∙ code_at-number b)

other_code : (m n k : ℕ) → (m == n) ≡ false → (n == k) ≡ true → (m == k) ≡ false
other_code m n k h e = ground arith

runs_for-same :
    (c : StallClock) (a b : ErrorCode) → same_code a b ≡ true → runs_for c a ≡ runs_for c b
runs_for-same c a b h = ap (λ d. runs_for c d) (same_code-eq a b h)

runs_for-other :
    (c : StallClock) (start : ℤ) (a b : ErrorCode)
    → same_code a b ≡ false
    → runs_for c b ≡ some start
    → runs_for c a ≡ none
runs_for-other c start a b h e = elim (Option-cases c.code) [
  | inl n ↦ rw n refl
  | inr (d, n) ↦ elim (Bool-cases (same_code b d)) [
    | inl m ↦ rw n (rw (other_code (code_number a) (code_number b) (code_number d) h m) refl)
    | inr m ↦ elim (some_not_none start (sym e ∙ rw n (rw m refl))) [ ]
  ]
]

observe_all-streak :
    (vs : List (ℤ × Option ErrorCode)) (code : ErrorCode)
    → runs_for (observe_all vs) code ≡ streak_start code vs
unfolding observe_all
observe_all-streak [] code = refl
observe_all-streak ((now, none) ∷ earlier) code = refl
observe_all-streak ((now, some d) ∷ earlier) code =
    elim (Option-cases (runs_for (observe_all earlier) d)) [
      | inl e ↦
          rw (observe-started (observe_all earlier) now d e) (elim (Bool-cases (same_code code d)) [
            | inl h ↦ rw h (
                rw (sym (observe_all-streak earlier code))
                  (rw (runs_for-same (observe_all earlier) code d h) (rw e refl)))
            | inr h ↦ rw h refl
          ])
      | inr (start, e) ↦
          rw (observe-running (observe_all earlier) now start d e)
            (elim (Bool-cases (same_code code d)) [
              | inl h ↦ rw h (
                  rw (sym (observe_all-streak earlier code))
                    (rw (runs_for-same (observe_all earlier) code d h) (rw e refl)))
              | inr h ↦ rw h (runs_for-other (observe_all earlier) start code d h e)
            ])
    ]

-- A clock that runs for a code names it.
running-code :
    (c : StallClock) (start : ℤ) (d : ErrorCode)
    → runs_for c d ≡ some start
    → (c.code ≡ some d) × (c.start_at ≡ some start)
running-code c start d e = elim (Option-cases c.code) [
  | inl n ↦ elim (some_not_none start (sym e ∙ rw n refl)) [ ]
  | inr (b, n) ↦ elim (Bool-cases (same_code d b)) [
    | inl m ↦ (n ∙ ap (λ x. some x) (sym (same_code-eq d b m)), sym (rw n (rw m refl)) ∙ e)
    | inr m ↦ elim (some_not_none start (sym e ∙ rw n (rw m refl))) [ ]
  ]
]

peek-running :
    (c : StallClock) (now start : ℤ) (d : ErrorCode)
    → c.code ≡ some d
    → c.start_at ≡ some start
    → peek c now ≡ some (record { code = d; since = now -ℤ start })
unfolding peek
peek-running c now start d e f = rw (e, peek) (rw f refl)

-- What the clock shows `now`, after the verdicts of a file with the latest at `t`: nothing if that one
-- named no code; else its code, and the time since the first of the latest verdicts that all name it.
pub observe_all_lem :
    (now t : ℤ) (v : Option ErrorCode) (earlier : List (ℤ × Option ErrorCode))
    → peek (observe_all ((t, v) ∷ earlier)) now ≡ elim v [
      | none ↦ none
      | some code ↦ some (record {
        code = code;
        since = now -ℤ (elim (streak_start code earlier) [ some start ↦ start | none ↦ t ]);
      })
    ]
unfolding observe_all peek
observe_all_lem now t none earlier = refl
observe_all_lem now t (some d) earlier = elim (Option-cases (runs_for (observe_all earlier) d)) [
  | inl e ↦
      rw (sym (observe_all-streak earlier d))
        (rw (observe-started (observe_all earlier) t d e) (rw e refl))
  | inr (start, e) ↦
      let (named, since) = running-code (observe_all earlier) start d e in
      rw (sym (observe_all-streak earlier d)) (
        rw (observe-running (observe_all earlier) t start d e)
          (rw e (peek-running (observe_all earlier) now start d named since)))
]
