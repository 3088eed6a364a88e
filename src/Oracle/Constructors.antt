-- ===== src/Oracle/Constructors.antt =====
-- internal/oracle/constructors.go: the only ways an outcome comes to exist.
pub mod Wording
pub mod Constructed
use tf_mut.Prelude.{
  zero, not, none, some, List, [], if◌then◌else◌, length, is_nil, ◌>>=◌, Slice, elements,
}
use tf_mut.Prelude.Int.{ℤ}
use tf_mut.Text.{Text, is_empty}
use tf_mut.Mutation.Catalogue.{describe}
use tf_mut.Discovery.Reach.{location, Reach}
use tf_mut.Fingerprint.Delta.{addresses, Delta}
use tf_mut.Fingerprint.Mask.{paths, undecidables, Mask}
use tf_mut.Oracle.Outcome.{
  no_evidence, bare, invalid, killed, killed_by_error, timeout, survived, structurally_unassertable,
  unobservable, no_coverage, ignored, pending, absent, indeterminate_unknown_values,
  indeterminate_volatility, weak_assertion, no_assertion, unasserted, Diagnostic, Suppression,
  Outcome,
}
use tf_mut.Oracle.Constructors.Wording.{
  unknowns_message, unknowns_fix, volatility_message, volatility_fix, weak_message, weak_fix,
  no_assertion_message, no_assertion_fix, unasserted_message, unasserted_fix, unassertable_message,
  unobservable_message, unobservable_fix, empty_cone_message, empty_cone_fix, default_message,
  default_fix, no_coverage_fix, read_verdict, unread_verdict, defeated_verdict,
  no_projection_verdict, empty_cone_verdict, default_verdict, statically_zero_verdict,
}

unfoldable pub survived_indeterminate_unknowns : Slice Text → Mask → Outcome
survived_indeterminate_unknowns unknowns mask = record {
  state = survived;
  diagnosis = indeterminate_unknown_values;
  message = unknowns_message (length (elements unknowns));
  fix = unknowns_fix;
  evidence = record no_evidence {
    unknown_paths = unknowns;
    volatile_components = some (paths mask);
  };
  diagnostics = none;
  suppression = none;
}

-- Where the mutant was not run again, the undecidable paths are the evidence.
unfoldable pub survived_indeterminate_volatility : Delta → Mask → List Text → Outcome
survived_indeterminate_volatility delta mask unstable = record {
  state = survived;
  diagnosis = indeterminate_volatility;
  message = volatility_message;
  fix = volatility_fix;
  evidence = record no_evidence {
    delta = delta.changes;
    volatile_components = some (paths mask);
    unstable_attributes = some (if is_nil unstable then undecidables mask else unstable);
  };
  diagnostics = none;
  suppression = none;
}

unfoldable pub survived_weak_assertion : Delta → Mask → Text → Reach → Outcome
survived_weak_assertion delta mask address closure = record {
  state = survived;
  diagnosis = weak_assertion;
  message = weak_message address;
  fix = weak_fix (location closure.assertion);
  evidence = record no_evidence {
    delta = delta.changes;
    volatile_components = some (paths mask);
    assertion = location closure.assertion;
    closure_verdict = read_verdict;
  };
  diagnostics = none;
  suppression = none;
}

unfoldable pub survived_no_assertion : Delta → Mask → Outcome
survived_no_assertion delta mask = record {
  state = survived;
  diagnosis = no_assertion;
  message = no_assertion_message;
  fix = no_assertion_fix (addresses delta);
  evidence = record no_evidence {
    delta = delta.changes;
    volatile_components = some (paths mask);
    closure_verdict = unread_verdict;
  };
  diagnostics = none;
  suppression = none;
}

unfoldable pub survived_unasserted : Delta → Mask → Text → Reach → Outcome
survived_unasserted delta mask address closure = record {
  state = survived;
  diagnosis = unasserted;
  message = unasserted_message address closure.construct;
  fix = unasserted_fix address;
  evidence = record no_evidence {
    delta = delta.changes;
    volatile_components = some (paths mask);
    assertion = location closure.assertion;
    closure_verdict = defeated_verdict;
    defeated_by = closure.construct;
  };
  diagnostics = none;
  suppression = none;
}

-- `entry.Fix` of the entry that `Describe` returns; of its zero value for an unknown operator.
unfoldable pub fix_of : Text → Text
fix_of operator = elim (describe operator) [ none ↦ [] | some entry ↦ entry.fix ]

unfoldable pub new_structurally_unassertable : Text → Outcome
new_structurally_unassertable operator = record {
  state = structurally_unassertable;
  diagnosis = absent;
  message = unassertable_message;
  fix = fix_of operator;
  evidence = record no_evidence { closure_verdict = no_projection_verdict };
  diagnostics = none;
  suppression = none;
}

unfoldable pub new_unobservable : Mask → Outcome
new_unobservable mask = record {
  state = unobservable;
  diagnosis = absent;
  message = unobservable_message;
  fix = unobservable_fix;
  evidence = record no_evidence { volatile_components = some (paths mask) };
  diagnostics = none;
  suppression = none;
}

unfoldable pub statically_unobservable : Outcome
statically_unobservable = record {
  state = unobservable;
  diagnosis = absent;
  message = empty_cone_message;
  fix = empty_cone_fix;
  evidence = record no_evidence { closure_verdict = empty_cone_verdict };
  diagnostics = none;
  suppression = none;
}

unfoldable pub statically_unobservable_default : Text → Outcome
statically_unobservable_default variable = record {
  state = unobservable;
  diagnosis = absent;
  message = default_message variable;
  fix = default_fix;
  evidence = record no_evidence { closure_verdict = default_verdict variable };
  diagnostics = none;
  suppression = none;
}

unfoldable pub new_killed : Outcome
new_killed = bare killed

unfoldable pub new_killed_by_error : Slice Diagnostic → Outcome
new_killed_by_error diagnostics = record (bare killed_by_error) { diagnostics = diagnostics }

unfoldable pub new_timed_out : ℤ → Outcome
new_timed_out budget = record (bare timeout) { evidence = record no_evidence { budget = budget } }

unfoldable pub new_invalid : Slice Diagnostic → Outcome
new_invalid diagnostics = record (bare invalid) { diagnostics = diagnostics }

-- An empty reason is the claim about a whole module.
unfoldable pub new_no_coverage : Text → Outcome
new_no_coverage reason =
    let outcome = record (bare no_coverage) { message = reason } in
    if is_empty reason then outcome else record outcome {
      fix = no_coverage_fix;
      evidence = record no_evidence { closure_verdict = statically_zero_verdict };
    }

unfoldable pub new_ignored : Suppression → Outcome
new_ignored s = record (bare ignored) { suppression = some s }

unfoldable pub new_pending : Outcome
new_pending = bare pending

unfoldable pub new_survived_phase_one : Outcome
new_survived_phase_one = bare survived
