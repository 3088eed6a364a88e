-- ===== src/Examples/Findings.antt =====
-- A concrete baseline.
use tf_mut.Prelude.{◌≡◌, refl, true, false, ◌&&◌, some, List, [], ◌∷◌, count_if}
use tf_mut.Text.{Text, text}
use tf_mut.Oracle.Outcome.{actionable, bare, State, killed, survived, structurally_unassertable}
use tf_mut.Oracle.Population.{Classified, Fresh}
use tf_mut.Engine.Acceptance.{
  Row, aligned, is_finding, finding_actionable, by_id, accepts, judge_aligned, is_finding_row,
  judge_findings, acceptance_entries, Mutant, AcceptanceEntry, BaselineGate,
}
use tf_mut.Engine.Acceptance.Gate.{judge_aligned_lem}
use tf_mut.Engine.Acceptance.Written.{acceptance_entries-judge_findings}

abbrev mutant_of : Text → Mutant
mutant_of id = record {
  id = id;
  published_state = text "Survived";
  site = text "main.tf:3";
  operator = text "COND-NEGATE";
}

abbrev classified_as : State → Classified
classified_as s = record { operator = text "COND-NEGATE"; outcome = bare s }

abbrev executed : List Mutant
executed = mutant_of (text "b") ∷ mutant_of (text "a") ∷ mutant_of (text "c") ∷ []

-- A survivor, a kill and a construct that nothing can assert on.
abbrev proof : Fresh
proof = record {
  authoritative = record {
    population = record {
      classified =
          classified_as survived
          ∷ classified_as killed
          ∷ classified_as structurally_unassertable
          ∷ [];
      provenance = record {
        cached = 0;
        timed_out = 0;
        errored = 0;
        unexecuted = 0;
        tripped = false;
      };
    };
  };
}

abbrev rows : List Row
rows =
    (mutant_of (text "b"), classified_as survived)
    ∷ (mutant_of (text "a"), classified_as killed)
    ∷ (mutant_of (text "c"), classified_as structurally_unassertable)
    ∷ []

judge_aligned_lem_example :
    (judge_aligned [] rows true).matched_count
    ≡ count_if (λ row. is_finding_row row && accepts (by_id [] []) row) rows
judge_aligned_lem_example = (judge_aligned_lem [] rows true).1

acceptance_entries-judge_findings_example :
    (entries : List AcceptanceEntry) × (gate : BaselineGate) × (acceptance_entries proof executed
      ≡ some entries)
    × (judge_findings entries executed proof.authoritative.population false ≡ some gate)
    × (gate.new_ids ≡ [])
    × (gate.stale ≡ [])
    × (gate.unobserved_entries ≡ [])
    × (gate.matched_count ≡ 2)
unfolding aligned is_finding finding_actionable actionable
acceptance_entries-judge_findings_example =
    acceptance_entries-judge_findings (λ i. true) proof executed false rows refl refl
