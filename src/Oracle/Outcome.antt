-- ===== src/Oracle/Outcome.antt =====
-- internal/oracle: outcome.go, evidence.go, suppression.go and diagnostics.go.
use tf_mut.Prelude.{ℕ, Bool, true, false, Option, none, [], Slice}
use tf_mut.Prelude.Int.{ℤ}
use tf_mut.Text.{Text}
use tf_mut.Fingerprint.Delta.{Change}

-- A state is a Go string; `unowned` stands for every string that is none of the ten constants.
pub data State : Type 0 where
  invalid killed killed_by_error timeout survived structurally_unassertable : State
  unobservable no_coverage ignored pending : State
  unowned : Text → State

-- A diagnosis is a Go string: `absent` is the empty one, `unemitted` every other string that is none
-- of the five constants.
pub data Diagnosis : Type 0 where
  absent indeterminate_unknown_values indeterminate_volatility : Diagnosis
  weak_assertion no_assertion unasserted : Diagnosis
  unemitted : Text → Diagnosis

-- `Diagnosis.Actionable`.
unfoldable pub actionable : Diagnosis → Bool
actionable indeterminate_unknown_values = false
actionable indeterminate_volatility = false
actionable _ = true

pub record Position : Type 0 where
  pub line : ℕ
  pub column : ℕ

pub record Range : Type 0 where
  pub file : Text
  pub start : Position
  pub end : Position

pub record Diagnostic : Type 0 where
  pub severity : Text
  pub summary : Text
  pub detail : Text
  pub range : Option Range
  pub test_file : Text
  pub test_run : Text

pub record Suppression : Type 0 where
  pub kind : Text
  pub operators : Slice Text
  pub reason : Text
  pub accepted : Bool
  pub range : Option Range
  pub mutants : Slice Text
  pub rejection : Text

pub record Evidence : Type 0 where
  pub delta : Slice Change
  pub unknown_paths : Slice Text
  pub volatile_components : Slice Text
  pub unstable_attributes : Slice Text
  pub assertion : Text
  pub closure_verdict : Text
  pub defeated_by : Text
  pub budget : ℤ  -- nanoseconds

pub record Outcome : Type 0 where
  pub state : State
  pub diagnosis : Diagnosis
  pub message : Text
  pub fix : Text
  pub evidence : Evidence
  pub diagnostics : Slice Diagnostic
  pub suppression : Option Suppression

-- Go's zero values.
abbrev pub no_evidence : Evidence
no_evidence = record {
  delta = none;
  unknown_paths = none;
  volatile_components = none;
  unstable_attributes = none;
  assertion = [];
  closure_verdict = [];
  defeated_by = [];
  budget = ℤ.pos 0;
}

-- `Outcome{state: s}`.
abbrev pub bare : State → Outcome
bare s = record {
  state = s;
  diagnosis = absent;
  message = [];
  fix = [];
  evidence = no_evidence;
  diagnostics = none;
  suppression = none;
}
