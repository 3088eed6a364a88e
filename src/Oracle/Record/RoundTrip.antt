-- ===== src/Oracle/Record/RoundTrip.antt =====
-- What a constructor wrote, stored and parsed, is what it was.
use tf_mut.Mutation.Catalogue.{projects}
use tf_mut.Mutation.Catalogue.Lookup.{unprojecting_has_fix}
use tf_mut.Oracle.Outcome.{Outcome}
use tf_mut.Oracle.Constructors.Constructed.{
  Constructed, of_unknowns, of_volatility, of_weak, of_no_assertion, of_unasserted, of_unassertable,
  of_unobservable, of_empty_cone, of_default, of_killed, of_killed_by_error, of_timed_out,
  of_invalid, of_no_coverage, of_ignored, of_pending, of_phase_one,
}
use tf_mut.Prelude.{◌≡◌, refl, false, [], ◌∷◌, arith, ok}
use tf_mut.Text.{Text, is_empty}
use tf_mut.Oracle.Constructors.Wording.{
  unknowns_message, unknowns_fix, volatility_message, volatility_fix, weak_message, weak_fix,
  no_assertion_message, no_assertion_fix, unasserted_message, unasserted_fix, unassertable_message,
  unobservable_message, unobservable_fix, empty_cone_message, empty_cone_fix, default_message,
  default_fix, no_coverage_fix, read_verdict, unread_verdict, defeated_verdict,
  no_projection_verdict, empty_cone_verdict, default_verdict, statically_zero_verdict,
}
use tf_mut.Oracle.Constructors.{
  survived_indeterminate_unknowns, survived_indeterminate_volatility, survived_weak_assertion,
  survived_no_assertion, survived_unasserted, fix_of, new_structurally_unassertable,
  new_unobservable, statically_unobservable, statically_unobservable_default, new_killed,
  new_killed_by_error, new_timed_out, new_invalid, new_no_coverage, new_ignored, new_pending,
  new_survived_phase_one,
}
use tf_mut.Oracle.Record.{
  record_of, recorded_subset, refuse_recorded_finding, refuse_empty_finding, outside,
  refuse_unrecorded_evidence, parse_diagnosed, parse_state, parse_record,
}

fix_of_unprojecting :
    (operator : Text) → projects operator ≡ false → is_empty (fix_of operator) ≡ false
unfolding fix_of
fix_of_unprojecting operator h =
    let (e, found, _, _, has) = unprojecting_has_fix operator h in ground (arith, found, has)

parse_unassertable :
    (operator : Text)
    → projects operator ≡ false
    → parse_record (record_of (new_structurally_unassertable operator))
      ≡ ok (new_structurally_unassertable operator)
unfolding parse_record recorded_subset refuse_unrecorded_evidence outside parse_state
    parse_diagnosed refuse_recorded_finding refuse_empty_finding record_of
    new_structurally_unassertable unassertable_message no_projection_verdict
parse_unassertable operator h = ground (arith, fix_of_unprojecting operator h)

parse_no_coverage :
    (reason : Text)
    → parse_record (record_of (new_no_coverage reason)) ≡ ok (new_no_coverage reason)
unfolding parse_record recorded_subset refuse_unrecorded_evidence outside parse_state
    parse_diagnosed refuse_recorded_finding refuse_empty_finding record_of new_no_coverage
    no_coverage_fix statically_zero_verdict
parse_no_coverage [] = refl
parse_no_coverage (c ∷ reason) = refl

-- What a constructor made, stored as a record and parsed, is the outcome that it made: the state, the
-- diagnosis, the finding, every field of the evidence, the diagnostics, the suppression and the
-- budget.
pub parse_record-record_of : (o : Outcome) → Constructed o → parse_record (record_of o) ≡ ok o
unfolding parse_record recorded_subset refuse_unrecorded_evidence outside parse_state
    parse_diagnosed refuse_recorded_finding refuse_empty_finding record_of
    survived_indeterminate_unknowns unknowns_message unknowns_fix survived_indeterminate_volatility
    volatility_message volatility_fix survived_weak_assertion weak_message weak_fix read_verdict
    survived_no_assertion no_assertion_message no_assertion_fix unread_verdict survived_unasserted
    unasserted_message unasserted_fix defeated_verdict new_unobservable unobservable_message
    unobservable_fix statically_unobservable empty_cone_message empty_cone_fix empty_cone_verdict
    statically_unobservable_default default_message default_fix default_verdict new_killed
    new_killed_by_error new_timed_out new_invalid new_ignored new_pending new_survived_phase_one
parse_record-record_of _ (of_unknowns u m) = ground arith
parse_record-record_of _ (of_volatility d m u) = ground arith
parse_record-record_of _ (of_weak d m a c) = ground arith
parse_record-record_of _ (of_no_assertion d m) = ground arith
parse_record-record_of _ (of_unasserted d m a c) = ground arith
parse_record-record_of _ (of_unassertable operator h) = parse_unassertable operator h
parse_record-record_of _ (of_unobservable m) = refl
parse_record-record_of _ of_empty_cone = refl
parse_record-record_of _ (of_default v) = refl
parse_record-record_of _ of_killed = refl
parse_record-record_of _ (of_killed_by_error d) = refl
parse_record-record_of _ (of_timed_out b) = refl
parse_record-record_of _ (of_invalid d) = refl
parse_record-record_of _ (of_no_coverage r) = parse_no_coverage r
parse_record-record_of _ (of_ignored s) = refl
parse_record-record_of _ of_pending = refl
parse_record-record_of _ of_phase_one = refl
