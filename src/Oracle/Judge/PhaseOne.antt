-- ===== src/Oracle/Judge/PhaseOne.antt =====
-- What phase one decides.
use tf_mut.Prelude.{◌≡◌, ◌↔◌, Bool, true, false, not, ◌&&◌, ◌||◌, arith}
use tf_mut.Oracle.Outcome.{
  State, invalid, killed, killed_by_error, timeout, survived, structurally_unassertable,
  unobservable,
}
use tf_mut.Oracle.Constructors.{
  survived_indeterminate_unknowns, survived_indeterminate_volatility, new_structurally_unassertable,
  new_unobservable, new_killed, new_killed_by_error, new_timed_out, new_invalid,
  new_survived_phase_one,
}
use tf_mut.Oracle.Observation.{needs_validate, no_verdict_possible, Measurement}
use tf_mut.Oracle.Judge.Diagnosing.{diagnose_delta_lem}
use tf_mut.Oracle.Judge.{judge_phase_two, judge_survivor, judge}

-- The states that only phase two, or its absence, gives.
abbrev pub phase_two_state : State → Bool
phase_two_state survived = true
phase_two_state structurally_unassertable = true
phase_two_state unobservable = true
phase_two_state _ = false

pub judge_phase_two-state : (m : Measurement) → phase_two_state (judge_phase_two m).state ≡ true
unfolding judge_phase_two new_structurally_unassertable survived_indeterminate_unknowns
    survived_indeterminate_volatility new_unobservable
judge_phase_two-state m = ground (arith, diagnose_delta_lem m)

judge_survivor-state :
    (m : Measurement)
    → (m.timed_out ≡ true → (judge_survivor m).state ≡ timeout)
      × (m.timed_out ≡ false → phase_two_state (judge_survivor m).state ≡ true)
unfolding judge_survivor new_timed_out new_survived_phase_one
judge_survivor-state m = ground (arith, judge_phase_two-state m)

-- A run that failed, an error, or a result without a run: what phase one can decide by.
abbrev pub passes_phase_one : Measurement → Bool
passes_phase_one m =
    not m.failed_runs && (not m.errored_runs && (not (no_verdict_possible m) || m.validate_valid))

-- Phase one: a mutant is killed exactly where a run failed; invalid exactly where the validate
-- verdict was asked for and is negative; killed by error exactly where a run had an error, none
-- failed, and the configuration is valid; timed out exactly where none of these and the budget ran
-- out; and everything else is left to phase two.
pub judge_phase_one :
    (m : Measurement)
    → (((judge m).state ≡ killed) ↔ (m.failed_runs ≡ true))
      × (((judge m).state ≡ invalid) ↔ ((needs_validate m ≡ true) × (m.validate_valid ≡ false)))
      × (((judge m).state ≡ killed_by_error)
          ↔ ((m.failed_runs ≡ false) × (m.errored_runs ≡ true) × (m.validate_valid ≡ true)))
      × (((judge m).state ≡ timeout) ↔ ((passes_phase_one m ≡ true) × (m.timed_out ≡ true)))
      × ((phase_two_state (judge m).state ≡ true)
          ↔ ((passes_phase_one m ≡ true) × (m.timed_out ≡ false)))
unfolding judge needs_validate no_verdict_possible new_killed new_invalid new_killed_by_error
judge_phase_one m = ground (arith, judge_survivor-state m)
