-- ===== src/Oracle/Judge/PhaseTwo.antt =====
-- What phase two decides, and the evidence that it names.
use tf_mut.Prelude.{
  ◌≡◌, refl, ◌≢◌, ◌↔◌, Bool, true, false, not, ◌&&◌, List, [], ◌∷◌, arith, select, all_pass, is_nil,
}
use tf_mut.Text.{Text}
use tf_mut.Mutation.Catalogue.{projects}
use tf_mut.Oracle.Outcome.{
  structurally_unassertable, unobservable, absent, indeterminate_unknown_values,
  indeterminate_volatility, weak_assertion, no_assertion, unasserted,
}
use tf_mut.Oracle.Constructors.{
  survived_indeterminate_unknowns, survived_indeterminate_volatility, new_structurally_unassertable,
  new_unobservable, new_killed, new_killed_by_error, new_timed_out, new_invalid,
  new_survived_phase_one,
}
use tf_mut.Oracle.Observation.{survives, no_verdict_possible, Measurement}
use tf_mut.Oracle.Judge.{proven, judge_phase_two, judge_survivor, judge}
use tf_mut.Oracle.Judge.Diagnosing.{read_somewhere, defeated_somewhere, diagnose_delta_lem}
use tf_mut.Oracle.Judge.PhaseOne.{passes_phase_one}

-- No unknown value of the payload lies in the mutation's forward cone.
abbrev pub unknowns_outside : Measurement → Bool
unknowns_outside m = all_pass (λ u. not (m.in_cone u)) m.unknowns

select-nil :
    (p : Text → Bool) (xs : List Text) → is_nil (select p xs) ≡ all_pass (λ x. not (p x)) xs
select-nil p [] = refl
select-nil p (x ∷ xs) = ground (arith, select-nil p xs)

-- Where the comparison reached phase two.
abbrev pub compared : Measurement → Bool
compared m = passes_phase_one m && (not m.timed_out && m.phase_two_decided)

-- A mutant is called unobservable exactly where the comparison was made and found no change, is not
-- indeterminate, met no unknown value in the mutation's forward cone, and the operator projects. It
-- is called structurally unassertable exactly where the comparison found no change and the operator
-- does not project, whatever the payload holds.
pub unobservable_iff :
    (m : Measurement)
    → (((judge m).state ≡ unobservable) ↔ (
        (compared m ≡ true)
        × (proven m.delta ≡ false)
        × (projects m.operator ≡ true)
        × (unknowns_outside m ≡ true)
        × (m.delta.indeterminate ≡ false)))
      × (((judge m).state ≡ structurally_unassertable)
          ↔ ((compared m ≡ true) × (proven m.delta ≡ false) × (projects m.operator ≡ false)))
unfolding judge judge_survivor judge_phase_two no_verdict_possible new_killed new_invalid
    new_killed_by_error new_timed_out new_survived_phase_one new_structurally_unassertable
    survived_indeterminate_unknowns survived_indeterminate_volatility new_unobservable
unobservable_iff m = ground (arith, diagnose_delta_lem m, select-nil m.in_cone m.unknowns)

-- Which diagnosis an outcome carries. One for unknown values or for volatility goes with a comparison
-- that found no change, with a projecting operator, and with a delta that is not proven: unknown
-- values exactly where one of them lies in the mutation's forward cone, volatility exactly where none
-- does and the delta is indeterminate. The other three go with a comparison that found a change, be
-- the rest of the delta decided or not: a weak assertion exactly where some address of the delta is
-- read, unasserted exactly where none is and some closure is defeated, no assertion exactly where
-- there is neither. An outcome that carries a diagnosis is a survivor that was compared, and each of
-- these carries one.
pub diagnosis_lem :
    (m : Measurement)
    → let quiet = compared m && not (proven m.delta) in
      let changed = compared m && proven m.delta in
      let d = (judge m).diagnosis in
      ((d ≡ indeterminate_unknown_values)
        ↔ ((quiet ≡ true) × (projects m.operator ≡ true) × (unknowns_outside m ≡ false)))
      × ((d ≡ indeterminate_volatility) ↔ (
          (quiet ≡ true)
          × (projects m.operator ≡ true)
          × (unknowns_outside m ≡ true)
          × (m.delta.indeterminate ≡ true)))
      × ((d ≡ weak_assertion) ↔ ((changed ≡ true) × (read_somewhere m ≡ true)))
      × ((d ≡ unasserted)
          ↔ ((changed ≡ true) × (read_somewhere m ≡ false) × (defeated_somewhere m ≡ true)))
      × ((d ≡ no_assertion)
          ↔ ((changed ≡ true) × (read_somewhere m ≡ false) × (defeated_somewhere m ≡ false)))
      × ((d ≢ absent) ↔ (survives (judge m).state && m.phase_two_decided ≡ true))
unfolding judge judge_survivor judge_phase_two no_verdict_possible new_killed new_invalid
    new_killed_by_error new_timed_out new_survived_phase_one new_structurally_unassertable
    survived_indeterminate_unknowns survived_indeterminate_volatility new_unobservable
diagnosis_lem m = ground (arith, diagnose_delta_lem m, select-nil m.in_cone m.unknowns)
