-- ===== src/Examples/Verdicts.antt =====
-- Verdicts of concrete measurements.
use tf_mut.Prelude.{◌≡◌, refl, true, false, none, some, [], ◌∷◌, ok}
use tf_mut.Prelude.Int.{pos}
use tf_mut.Text.{Text, text, text_eq, is_empty, contains}
use tf_mut.Mutation.Catalogue.{catalogue, lookup, describe, projects}
use tf_mut.Mutation.Catalogue.Lookup.{unprojecting_has_fix}
use tf_mut.Mutation.Catalogue.Types.{Entry}
use tf_mut.Prelude.Sorting
use tf_mut.Discovery.Reach.{location, Assertion, Reach}
use tf_mut.Fingerprint.Delta.{addresses, Delta}
use tf_mut.Oracle.Outcome.{killed, unobservable, weak_assertion}
use tf_mut.Oracle.Constructors.{survived_weak_assertion, new_killed, new_no_coverage}
use tf_mut.Oracle.Constructors.Constructed.{of_killed, of_no_coverage}
use tf_mut.Oracle.Observation.{needs_validate, no_verdict_possible, Measurement}
use tf_mut.Oracle.Record.{record_of, parse_record}
use tf_mut.Oracle.Record.RoundTrip.{parse_record-record_of}
use tf_mut.Oracle.Record.Legality.{IsLegal}
use tf_mut.Oracle.Record.Legality.Parsing.{parse_record-IsLegal}
use tf_mut.Oracle.Judge.{first_passing, diagnose_delta, judge_phase_two, judge_survivor, judge}
use tf_mut.Text.Order.{text_le}
use tf_mut.Oracle.Judge.Evidence.{weak_assertion_lem}
use tf_mut.Oracle.Judge.PhaseOne.{judge_phase_one}
use tf_mut.Oracle.Judge.PhaseTwo.{unobservable_iff, diagnosis_lem}
use tf_mut.Oracle.Judge.Demand.{with_validate, judge_on_demand}
use tf_mut.Oracle.Judge.Stored.{parse_record-judge}

abbrev instance_type : Text
instance_type = text "aws_instance.web.instance_type"

abbrev assertion : Assertion
assertion = record {
  ref = record { address = instance_type; precise = true; construct = [] };
  file = text "main.tftest.hcl";
  run = text "sizes";
  line = 7;
}

abbrev unread : Text → Reach
unread address = record { read = false; defeated = false; assertion = assertion; construct = [] }

abbrev read_here : Text → Reach
read_here address = record { read = true; defeated = false; assertion = assertion; construct = [] }

abbrev no_delta : Delta
no_delta = record { changes = none; indeterminate = false; missing_runs = [] }

abbrev resized : Delta
resized = record {
  changes = some (
      record {
        run = text "sizes";
        path = instance_type;
        address = instance_type;
        baseline = text "\"t3.micro\"";
        mutant = text "\"t3.small\"";
        baseline_volatile = false;
        sensitive = false;
      }
      ∷ []);
  indeterminate = false;
  missing_runs = [];
}

-- Both phases ran, and the payloads agree.
abbrev quiet : Measurement
quiet = record {
  failed_runs = false;
  errored_runs = false;
  executed_runs = 2;
  timed_out = false;
  budget = pos 0;
  diagnostics = none;
  validate_valid = true;
  invalid_diagnostics = none;
  phase_two_decided = true;
  operator = text "an operator of no table";
  delta = no_delta;
  mask = record { spans = []; undecidable = [] };
  unknowns = [];
  unstable = [];
  in_cone = λ a. true;
  reads = unread;
  computed_attributes = λ kind resource attribute. (false, false);
  suspicious = λ a. false;
}

-- The payloads differ at an attribute that an assertion reads.
abbrev weak : Measurement
weak = record quiet { delta = resized; reads = read_here }

unobservable_iff_example : (judge quiet).state ≡ unobservable
unfolding projects describe catalogue lookup text_eq no_verdict_possible
unobservable_iff_example = (unobservable_iff quiet).0.1 (refl, refl, refl, refl, refl)

diagnosis_lem_example : (judge weak).diagnosis ≡ weak_assertion
unfolding judge judge_survivor judge_phase_two diagnose_delta survived_weak_assertion addresses
    Sorting.sort Sorting.insert first_passing contains text_eq no_verdict_possible
diagnosis_lem_example = (diagnosis_lem weak).2.1 (refl, refl)

judge_phase_one_example : (judge (record quiet { failed_runs = true })).state ≡ killed
judge_phase_one_example = (judge_phase_one (record quiet { failed_runs = true })).0.1 refl

judge_on_demand_example : judge (with_validate quiet false (some [])) ≡ judge quiet
unfolding needs_validate
judge_on_demand_example = (judge_on_demand quiet).0 false (some []) refl

parse_record-judge_example : parse_record (record_of (judge weak)) ≡ ok (judge weak)
parse_record-judge_example = parse_record-judge weak

parse_record-record_of_example :
    parse_record (record_of (new_no_coverage (text "no run reads it")))
    ≡ ok (new_no_coverage (text "no run reads it"))
parse_record-record_of_example =
    parse_record-record_of (new_no_coverage (text "no run reads it"))
      (of_no_coverage (text "no run reads it"))

parse_record-IsLegal_example : IsLegal new_killed
parse_record-IsLegal_example =
    parse_record-IsLegal (record_of new_killed) new_killed
      (parse_record-record_of new_killed of_killed)

unprojecting_has_fix_example :
    (e : Entry) × (describe (text "VAR-VALIDATION-REMOVE") ≡ some e)
    × (e.operator ≡ text "VAR-VALIDATION-REMOVE")
    × (e.projects ≡ false)
    × (is_empty e.fix ≡ false)
unfolding projects describe catalogue lookup text_eq
unprojecting_has_fix_example = unprojecting_has_fix (text "VAR-VALIDATION-REMOVE") refl

weak_assertion_lem_example :
    (a : Text) × (contains a (addresses resized) ≡ true)
    × ((read_here a).read ≡ true)
    × ((judge weak).evidence.assertion ≡ location (read_here a).assertion)
    × ((b : Text)
        → contains b (addresses resized) ≡ true
        → (read_here b).read ≡ true
        → text_le a b ≡ true)
unfolding judge judge_survivor judge_phase_two diagnose_delta survived_weak_assertion addresses
    Sorting.sort Sorting.insert first_passing contains text_eq
weak_assertion_lem_example = weak_assertion_lem weak refl
