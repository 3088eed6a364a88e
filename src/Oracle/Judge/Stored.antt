-- ===== src/Oracle/Judge/Stored.antt =====
-- Every verdict was made by a constructor, so it survives the store.
use tf_mut.Prelude.{
  ◌≡◌, refl, Bool, true, false, not, ◌||◌, Option, none, some, arith, ◌==◌, if◌then◌else◌, is_nil,
  ok,
}
use tf_mut.Text.{Text}
use tf_mut.Mutation.Catalogue.{projects}
use tf_mut.Fingerprint.Delta.{addresses}
use tf_mut.Oracle.Constructors.{survived_weak_assertion, survived_no_assertion, survived_unasserted}
use tf_mut.Oracle.Constructors.Constructed.{
  Constructed, of_unknowns, of_volatility, of_weak, of_no_assertion, of_unasserted, of_unassertable,
  of_unobservable, of_killed, of_killed_by_error, of_timed_out, of_invalid, of_phase_one,
}
use tf_mut.Oracle.Observation.{Measurement}
use tf_mut.Oracle.Record.{record_of, parse_record}
use tf_mut.Oracle.Record.RoundTrip.{parse_record-record_of}
use tf_mut.Oracle.Judge.{
  blocking_unknowns, proven, first_passing, diagnose_delta, judge_phase_two, judge_survivor, judge,
}

if_both {ℓ} :
    {A : Type ℓ} (P : A → Type 0) (b : Bool) {x y : A}
    → (b ≡ true → P x)
    → (b ≡ false → P y)
    → P (if b then x else y)
if_both P true hx hy = hx refl
if_both P false hx hy = hy refl

diagnose_delta-Constructed : (m : Measurement) → Constructed (diagnose_delta m)
unfolding diagnose_delta
diagnose_delta-Constructed m = by_read (first_passing (λ a. (m.reads a).read) (addresses m.delta))
  where
    by_defeat :
        (o : Option Text)
        → Constructed (elim o [
          | some address ↦ survived_unasserted m.delta m.mask address (m.reads address)
          | none ↦ survived_no_assertion m.delta m.mask
        ])
    by_defeat none = of_no_assertion m.delta m.mask
    by_defeat (some a) = of_unasserted m.delta m.mask a (m.reads a)

    by_read :
        (o : Option Text)
        → Constructed (elim o [
          | some address ↦ survived_weak_assertion m.delta m.mask address (m.reads address)
          | none ↦ elim (first_passing (λ a. (m.reads a).defeated) (addresses m.delta)) [
            | some address ↦ survived_unasserted m.delta m.mask address (m.reads address)
            | none ↦ survived_no_assertion m.delta m.mask
          ]
        ])
    by_read none = by_defeat (first_passing (λ a. (m.reads a).defeated) (addresses m.delta))
    by_read (some a) = of_weak m.delta m.mask a (m.reads a)

judge_phase_two-Constructed : (m : Measurement) → Constructed (judge_phase_two m)
unfolding judge_phase_two
judge_phase_two-Constructed m =
    if_both Constructed (proven m.delta) (λ _. diagnose_delta-Constructed m)
      λ _.
        if_both Constructed (not (projects m.operator))
          (λ e. of_unassertable m.operator (ground (arith, e)))
          λ _.
            if_both Constructed (not (is_nil (blocking_unknowns m)))
              (λ _. of_unknowns (some (blocking_unknowns m)) m.mask)
              λ _.
                if_both Constructed m.delta.indeterminate
                  (λ _. of_volatility m.delta m.mask m.unstable) λ _. of_unobservable m.mask

judge_survivor-Constructed : (m : Measurement) → Constructed (judge_survivor m)
unfolding judge_survivor
judge_survivor-Constructed m =
    if_both Constructed m.timed_out (λ _. of_timed_out m.budget)
      λ _.
        if_both Constructed (not m.phase_two_decided) (λ _. of_phase_one)
          λ _. judge_phase_two-Constructed m

pub judge-Constructed : (m : Measurement) → Constructed (judge m)
unfolding judge
judge-Constructed m =
    if_both Constructed m.failed_runs (λ _. of_killed)
      λ _.
        if_both Constructed (m.errored_runs || m.executed_runs == 0)
          (λ _.
            if_both Constructed (not m.validate_valid) (λ _. of_invalid m.invalid_diagnostics)
              λ _.
                if_both Constructed m.errored_runs (λ _. of_killed_by_error m.diagnostics)
                  λ _. judge_survivor-Constructed m)
          λ _. judge_survivor-Constructed m

-- A verdict that is stored and parsed again is the verdict: replay from the cache and a fresh
-- judgement of the same measurement agree in every field.
pub parse_record-judge : (m : Measurement) → parse_record (record_of (judge m)) ≡ ok (judge m)
parse_record-judge m = parse_record-record_of (judge m) (judge-Constructed m)
