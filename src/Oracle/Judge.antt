-- ===== src/Oracle/Judge.antt =====
-- internal/oracle/judge.go: the verdict of a mutant, by precedence.
pub mod Diagnosing
pub mod PhaseOne
pub mod PhaseTwo
pub mod Demand
pub mod Stored
pub mod Evidence
use tf_mut.Prelude.{
  Bool, not, ◌||◌, Option, none, some, List, [], ◌∷◌, ◌==◌, if◌then◌else◌, select, is_nil, ◌>>=◌,
  elements,
}
use tf_mut.Text.{Text}
use tf_mut.Mutation.Catalogue.{projects}
use tf_mut.Discovery.Reach.{Reach}
use tf_mut.Fingerprint.Delta.{addresses, Delta}
use tf_mut.Oracle.Outcome.{invalid, timeout, Outcome}
use tf_mut.Oracle.Constructors.{
  survived_indeterminate_unknowns, survived_indeterminate_volatility, survived_weak_assertion,
  survived_no_assertion, survived_unasserted, new_structurally_unassertable, new_unobservable,
  new_killed, new_killed_by_error, new_timed_out, new_invalid, new_survived_phase_one,
}
use tf_mut.Oracle.Observation.{Measurement}

-- `blockingUnknowns`.
abbrev pub blocking_unknowns : Measurement → List Text
blocking_unknowns m = select m.in_cone m.unknowns

-- `proven`.
abbrev pub proven : Delta → Bool
proven d = not (is_nil (elements d.changes))

-- The first address that passes a test, as the two loops of `diagnoseDelta` find it.
unfoldable pub first_passing : (Text → Bool) → List Text → Option Text
first_passing p [] = none
first_passing p (a ∷ rest) = let later = first_passing p rest in if p a then some a else later

-- `diagnoseDelta`.
unfoldable pub diagnose_delta : Measurement → Outcome
diagnose_delta m = elim (first_passing (λ a. (m.reads a).read) (addresses m.delta)) [
  | some address ↦ survived_weak_assertion m.delta m.mask address (m.reads address)
  | none ↦ elim (first_passing (λ a. (m.reads a).defeated) (addresses m.delta)) [
    | some address ↦ survived_unasserted m.delta m.mask address (m.reads address)
    | none ↦ survived_no_assertion m.delta m.mask
  ]
]

-- `Judge` after phase one.
unfoldable pub judge_phase_two : Measurement → Outcome
judge_phase_two m =
    if proven m.delta
    then diagnose_delta m
    else if not (projects m.operator)
    then new_structurally_unassertable m.operator
    else if not (is_nil (blocking_unknowns m))
    then survived_indeterminate_unknowns (some (blocking_unknowns m)) m.mask
    else if m.delta.indeterminate
    then survived_indeterminate_volatility m.delta m.mask m.unstable
    else new_unobservable m.mask

-- `Judge` from the timeout on.
unfoldable pub judge_survivor : Measurement → Outcome
judge_survivor m =
    if m.timed_out
    then new_timed_out m.budget
    else if not m.phase_two_decided
    then new_survived_phase_one
    else judge_phase_two m

-- `Judge`: a caught mutant first, then an invalid one, then one that Terraform's evaluation caught.
unfoldable pub judge : Measurement → Outcome
judge m =
    if m.failed_runs
    then new_killed
    else if m.errored_runs || m.executed_runs == 0
    then (if not m.validate_valid
        then new_invalid m.invalid_diagnostics
        else if m.errored_runs
        then new_killed_by_error m.diagnostics
        else judge_survivor m)
    else judge_survivor m
