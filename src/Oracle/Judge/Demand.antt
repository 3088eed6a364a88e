-- ===== src/Oracle/Judge/Demand.antt =====
-- What the engine measures on demand: a verdict does not depend on what the oracle did not ask for.
use tf_mut.Prelude.{◌≡◌, refl, ◌⊎◌, Bool, true, false, List, arith, Slice}
use tf_mut.Text.{Text}
use tf_mut.Fingerprint.Delta.{Delta}
use tf_mut.Fingerprint.Mask.{Mask}
use tf_mut.Oracle.Outcome.{Diagnostic}
use tf_mut.Oracle.Constructors.{
  new_killed, new_killed_by_error, new_timed_out, new_invalid, new_survived_phase_one,
}
use tf_mut.Oracle.Observation.{needs_validate, needs_phase_two, Measurement}
use tf_mut.Oracle.Judge.PhaseOne.{phase_two_state, judge_phase_two-state}
use tf_mut.Oracle.Judge.{diagnose_delta, judge_phase_two, judge_survivor, judge}

-- The measurement with another validate verdict.
abbrev pub with_validate : Measurement → Bool → Slice Diagnostic → Measurement
with_validate m valid diagnostics = record m {
  validate_valid = valid;
  invalid_diagnostics = diagnostics;
}

-- The measurement with another comparison.
abbrev pub with_comparison : Measurement → Delta → Mask → List Text → List Text → Measurement
with_comparison m delta mask unknowns unstable = record m {
  delta = delta;
  mask = mask;
  unknowns = unknowns;
  unstable = unstable;
}

survivor_without_validate :
    (m : Measurement) (valid : Bool) (diagnostics : Slice Diagnostic)
    → judge_survivor (with_validate m valid diagnostics) ≡ judge_survivor m
unfolding judge_survivor judge_phase_two diagnose_delta
survivor_without_validate m valid diagnostics = refl

without_validate :
    (m : Measurement) (valid : Bool) (diagnostics : Slice Diagnostic)
    → needs_validate m ≡ false
    → judge (with_validate m valid diagnostics) ≡ judge m
unfolding judge needs_validate
without_validate m valid diagnostics h =
    ground (arith, survivor_without_validate m valid diagnostics, h)

without_comparison :
    (m : Measurement) (delta : Delta) (mask : Mask) (unknowns unstable : List Text)
    → (m.phase_two_decided ≡ false) ⊎ (phase_two_state (judge m).state ≡ false)
    → judge (with_comparison m delta mask unknowns unstable) ≡ judge m
unfolding judge judge_survivor new_survived_phase_one
without_comparison m delta mask unknowns unstable h = ground (arith, h, judge_phase_two-state m)

asks_for_comparison :
    (m : Measurement) → needs_phase_two m (judge m) ≡ true → judge m ≡ new_survived_phase_one
unfolding judge judge_survivor needs_phase_two new_killed new_invalid new_killed_by_error
    new_timed_out
asks_for_comparison m h = ground (arith, h)

-- Where `NeedsValidate` is false the verdict is the same whatever validate would have said. Where the
-- comparison was not made, or the verdict is one of phase one's, it is the same whatever the
-- comparison would hold. Where `NeedsPhaseTwo` asks for it, the verdict so far is the provisional
-- survivor.
pub judge_on_demand :
    (m : Measurement)
    → ((valid : Bool) (diagnostics : Slice Diagnostic)
        → needs_validate m ≡ false
        → judge (with_validate m valid diagnostics) ≡ judge m)
      × ((delta : Delta) (mask : Mask) (unknowns unstable : List Text)
          → (m.phase_two_decided ≡ false) ⊎ (phase_two_state (judge m).state ≡ false)
          → judge (with_comparison m delta mask unknowns unstable) ≡ judge m)
      × (needs_phase_two m (judge m) ≡ true → judge m ≡ new_survived_phase_one)
judge_on_demand m = (without_validate m, without_comparison m, asks_for_comparison m)
