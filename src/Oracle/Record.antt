-- ===== src/Oracle/Record.antt =====
-- internal/oracle/record.go: the stored record of an outcome, and the parser that refuses a record
-- that no constructor wrote.
pub mod Admission
pub mod RoundTrip
pub mod Legality
use tf_mut.Prelude.{
  zero, Bool, true, false, not, ◌&&◌, ◌||◌, Option, none, some, List, [], ◌∷◌, ◌++◌, if◌then◌else◌,
  is_nil, ◌>>=◌, Result, ok, err, Slice, present,
}
use tf_mut.Prelude.Int.{ℤ, pos}
use tf_mut.Text.{Text, text, is_empty}
use tf_mut.Fingerprint.Delta.{Change, Delta}
use tf_mut.Oracle.Outcome.{
  bare, State, invalid, killed, killed_by_error, timeout, survived, structurally_unassertable,
  unobservable, no_coverage, ignored, pending, unowned, Diagnosis, absent,
  indeterminate_unknown_values, indeterminate_volatility, weak_assertion, no_assertion, unasserted,
  unemitted, Diagnostic, Suppression, Evidence, Outcome,
}
use tf_mut.Oracle.Constructors.{
  new_killed, new_killed_by_error, new_timed_out, new_invalid, new_no_coverage, new_ignored,
  new_pending, new_survived_phase_one,
}

pub record Record : Type 0 where
  pub state : State
  pub diagnosis : Diagnosis
  pub message : Text
  pub fix : Text
  pub delta : Slice Change
  pub unknown_paths : Slice Text
  pub volatile_components : Slice Text
  pub unstable_attributes : Slice Text
  pub assertion : Text
  pub closure_verdict : Text
  pub defeated_by : Text
  pub diagnostics : Slice Diagnostic
  pub suppression : Option Suppression
  pub budget : ℤ

-- `Outcome.Record`.
unfoldable pub record_of : Outcome → Record
record_of o = record {
  state = o.state;
  diagnosis = o.diagnosis;
  message = o.message;
  fix = o.fix;
  delta = o.evidence.delta;
  unknown_paths = o.evidence.unknown_paths;
  volatile_components = o.evidence.volatile_components;
  unstable_attributes = o.evidence.unstable_attributes;
  assertion = o.evidence.assertion;
  closure_verdict = o.evidence.closure_verdict;
  defeated_by = o.evidence.defeated_by;
  diagnostics = o.diagnostics;
  suppression = o.suppression;
  budget = o.evidence.budget;
}

-- The refusals, each with what its message names.
pub data Refusal : Type 0 where
  diagnosed_unsurvived : State → Diagnosis → Refusal
  unowned_state : State → Refusal
  unemitted_diagnosis : Diagnosis → Refusal
  mask_and_verdict : Refusal
  outside_evidence : State → List Text → Refusal
  recorded_finding : State → Refusal
  empty_finding : State → Refusal
  no_suppression : Refusal

abbrev pub Parsed {ℓ} : Type ℓ → Type ℓ
Parsed A = Result Refusal A

-- `Record.evidence`, which leaves the budget at zero.
pub evidence : Record → Evidence
evidence r = record {
  delta = r.delta;
  unknown_paths = r.unknown_paths;
  volatile_components = r.volatile_components;
  unstable_attributes = r.unstable_attributes;
  assertion = r.assertion;
  closure_verdict = r.closure_verdict;
  defeated_by = r.defeated_by;
  budget = ℤ.pos 0;
}

pub has_evidence : Record → Bool
has_evidence r =
    present r.delta
    || (present r.unknown_paths
        || (present r.volatile_components
            || (present r.unstable_attributes
                || (not (is_empty r.assertion)
                    || (not (is_empty r.closure_verdict) || not (is_empty r.defeated_by))))))

pub has_finding : Record → Bool
unfolding has_evidence
has_finding r = not (is_empty r.message) || (not (is_empty r.fix) || has_evidence r)

pub record EvidenceSubset : Type 0 where
  pub verdictless : Bool
  pub delta : Bool
  pub unknown_paths : Bool
  pub volatile_components : Bool
  pub unstable_attributes : Bool
  pub assertion : Bool
  pub closure_verdict : Bool
  pub defeated_by : Bool

-- `evidenceSubset{}`.
abbrev pub nothing : EvidenceSubset
nothing = record {
  verdictless = false;
  delta = false;
  unknown_paths = false;
  volatile_components = false;
  unstable_attributes = false;
  assertion = false;
  closure_verdict = false;
  defeated_by = false;
}

abbrev pub without_verdict : EvidenceSubset
without_verdict = record nothing { verdictless = true }

abbrev pub verdict_only : EvidenceSubset
verdict_only = record nothing { closure_verdict = true }

pub survived_subset : Diagnosis → Parsed (EvidenceSubset × Bool)
survived_subset absent = ok (without_verdict, true)
survived_subset indeterminate_unknown_values =
    ok (record nothing { unknown_paths = true; volatile_components = true }, false)
survived_subset indeterminate_volatility =
    ok (
      record nothing { delta = true; volatile_components = true; unstable_attributes = true },
      false,
    )
survived_subset weak_assertion = ok (
  record nothing {
    delta = true;
    volatile_components = true;
    assertion = true;
    closure_verdict = true;
  },
  false,
)
survived_subset no_assertion =
    ok (record nothing { delta = true; volatile_components = true; closure_verdict = true }, false)
survived_subset unasserted = ok (
  record nothing {
    delta = true;
    volatile_components = true;
    assertion = true;
    closure_verdict = true;
    defeated_by = true;
  },
  false,
)
survived_subset (unemitted d) = err (unemitted_diagnosis (unemitted d))

-- The switch of `recordedSubset`, on the record's state.
pub subset_of : State → Record → Parsed (EvidenceSubset × Bool)
unfolding survived_subset
subset_of survived r = survived_subset r.diagnosis
subset_of killed r = ok (without_verdict, true)
subset_of pending r = ok (without_verdict, true)
subset_of killed_by_error r = ok (without_verdict, true)
subset_of invalid r = ok (without_verdict, true)
subset_of timeout r = ok (without_verdict, true)
subset_of ignored r = ok (without_verdict, true)
subset_of no_coverage r =
    if is_empty r.message then ok (without_verdict, true) else ok (verdict_only, false)
subset_of structurally_unassertable r = ok (verdict_only, false)
subset_of unobservable r =
    if not (is_empty r.closure_verdict) && present r.volatile_components
    then err mask_and_verdict
    else if not (is_empty r.closure_verdict)
    then ok (verdict_only, false)
    else ok (record nothing { volatile_components = true }, false)
subset_of (unowned s) r = err (unowned_state (unowned s))

pub recorded_subset : Record → Parsed (EvidenceSubset × Bool)
unfolding subset_of
recorded_subset r = subset_of r.state r

pub refuse_recorded_finding : Record → Parsed (Unit {0})
unfolding has_finding
refuse_recorded_finding r = if has_finding r then err (recorded_finding r.state) else ok tt

pub refuse_empty_finding : Record → Parsed (Unit {0})
refuse_empty_finding r =
    if is_empty r.message || is_empty r.fix then err (empty_finding r.state) else ok tt

-- One `if` of `refuseUnrecordedEvidence`: a field that is carried and not allowed is named.
pub unrecorded : Bool → Bool → Text → List Text
unrecorded carried allowed name = if carried && not allowed then name ∷ [] else []

pub outside : Record → EvidenceSubset → List Text
unfolding unrecorded
outside r s =
    unrecorded (present r.delta) s.delta (text "delta")
    ++ (unrecorded (present r.unknown_paths) s.unknown_paths (text "unknown_paths")
        ++ (unrecorded (present r.volatile_components) s.volatile_components
              (text "volatile_components")
            ++ (unrecorded (present r.unstable_attributes) s.unstable_attributes
                  (text "unstable_attributes")
                ++ (unrecorded (not (is_empty r.assertion)) s.assertion (text "assertion")
                    ++ (unrecorded (not (is_empty r.closure_verdict)) s.closure_verdict
                          (text "closure_verdict")
                        ++ unrecorded (not (is_empty r.defeated_by)) s.defeated_by
                            (text "defeated_by"))))))

pub refuse_unrecorded_evidence : Record → EvidenceSubset → Bool → Parsed (Unit {0})
unfolding refuse_recorded_finding
refuse_unrecorded_evidence r s verdictless =
    if verdictless
    then refuse_recorded_finding r
    else if is_nil (outside r s)
    then ok tt
    else err (outside_evidence r.state (outside r s))

pub diagnosed_survivor : Record → Outcome
unfolding evidence
diagnosed_survivor r = record (bare survived) {
  diagnosis = r.diagnosis;
  message = r.message;
  fix = r.fix;
  evidence = evidence r;
}

-- The switch of `parseSurvivedRecord`, on the diagnosis.
pub parse_diagnosed : Diagnosis → Record → Parsed Outcome
unfolding diagnosed_survivor
parse_diagnosed absent r = err (unemitted_diagnosis absent)
parse_diagnosed indeterminate_unknown_values r = ok (diagnosed_survivor r)
parse_diagnosed indeterminate_volatility r = ok (diagnosed_survivor r)
parse_diagnosed weak_assertion r = ok (diagnosed_survivor r)
parse_diagnosed no_assertion r = ok (diagnosed_survivor r)
parse_diagnosed unasserted r = ok (diagnosed_survivor r)
parse_diagnosed (unemitted d) r = err (unemitted_diagnosis (unemitted d))

abbrev pub is_absent : Diagnosis → Bool
is_absent absent = true
is_absent _ = false

pub parse_survived_record : Record → Parsed Outcome
parse_survived_record r =
    if is_absent r.diagnosis
    then (do _ ← refuse_recorded_finding r; ok new_survived_phase_one)
    else (do _ ← refuse_empty_finding r; parse_diagnosed r.diagnosis r)

pub parse_ignored_record : Record → Parsed Outcome
parse_ignored_record r = elim r.suppression [
  | none ↦ err no_suppression
  | some s ↦ ok (new_ignored s)
]

pub parse_terminal_record : Record → Parsed Outcome
unfolding refuse_empty_finding evidence
parse_terminal_record r = do
  _ ← refuse_empty_finding r
  ok (record (bare r.state) { message = r.message; fix = r.fix; evidence = evidence r })

-- The switch of `ParseRecord`, on the state.
pub parse_state : State → Record → Parsed Outcome
unfolding parse_survived_record parse_ignored_record parse_terminal_record
parse_state survived r = parse_survived_record r
parse_state killed r = ok new_killed
parse_state pending r = ok new_pending
parse_state killed_by_error r = ok (new_killed_by_error r.diagnostics)
parse_state invalid r = ok (new_invalid r.diagnostics)
parse_state timeout r = ok (new_timed_out r.budget)
parse_state no_coverage r = ok (new_no_coverage r.message)
parse_state ignored r = parse_ignored_record r
parse_state structurally_unassertable r = parse_terminal_record r
parse_state unobservable r = parse_terminal_record r
parse_state (unowned s) r = err (unowned_state (unowned s))

abbrev pub is_survived : State → Bool
is_survived survived = true
is_survived _ = false

unfoldable pub parse_record : Record → Parsed Outcome
parse_record r =
    if not (is_survived r.state) && not (is_absent r.diagnosis)
    then err (diagnosed_unsurvived r.state r.diagnosis)
    else do
      subset ← recorded_subset r
      _ ← refuse_unrecorded_evidence r subset.0 subset.1
      parse_state r.state r
