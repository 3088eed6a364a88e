-- ===== src/Oracle/Record/Legality.antt =====
-- What the parser admits: the outcomes that a reader may see from a store.
pub mod Diagnosed
pub mod Undiagnosed
pub mod Parsing
use mathlib.Core.Path.{subst}
use tf_mut.Prelude.{◌≡◌, Bool, true, false, not, ◌>>=◌, present}
use tf_mut.Text.{Text, is_empty}
use tf_mut.Dict.{Dict, is_some}
use tf_mut.Fingerprint.Delta.{Delta}
use tf_mut.Oracle.Outcome.{
  State, invalid, killed_by_error, survived, ignored, unowned, Diagnosis,
  indeterminate_unknown_values, indeterminate_volatility, weak_assertion, no_assertion, unasserted,
  unemitted, Outcome,
}
use tf_mut.Oracle.Record.{evidence, is_absent, Record}

abbrev pub owned : State → Bool
owned (unowned s) = false
owned _ = true

abbrev pub emitted : Diagnosis → Bool
emitted (unemitted d) = false
emitted _ = true

-- The states that are decided from Terraform's diagnostics.
abbrev pub decided_by_diagnostics : State → Bool
decided_by_diagnostics killed_by_error = true
decided_by_diagnostics invalid = true
decided_by_diagnostics _ = false

abbrev pub is_ignored : State → Bool
is_ignored ignored = true
is_ignored _ = false

-- The diagnoses of a proven difference, and of one that could not be decided.
abbrev pub carries_delta : Diagnosis → Bool
carries_delta indeterminate_volatility = true
carries_delta weak_assertion = true
carries_delta no_assertion = true
carries_delta unasserted = true
carries_delta _ = false

abbrev pub of_unknown_values : Diagnosis → Bool
of_unknown_values indeterminate_unknown_values = true
of_unknown_values _ = false

pub record IsLegal (o : Outcome) : Type 0 where
  pub state_owned : owned o.state ≡ true
  pub diagnosis_emitted : emitted o.diagnosis ≡ true
  pub only_survivors : is_absent o.diagnosis ≡ false → o.state ≡ survived
  pub finding :
      is_absent o.diagnosis ≡ false → (is_empty o.message ≡ false) × (is_empty o.fix ≡ false)
  pub delta_diagnosed : present o.evidence.delta ≡ true → carries_delta o.diagnosis ≡ true
  pub unknowns_diagnosed :
      present o.evidence.unknown_paths ≡ true → of_unknown_values o.diagnosis ≡ true
  pub diagnostics_decide : present o.diagnostics ≡ true → decided_by_diagnostics o.state ≡ true
  pub suppression_decides : is_some o.suppression ≡ is_ignored o.state
