-- ===== src/Engine/Curate.antt =====
-- internal/engine/curate.go: what the kill sets show of the suite's assertions. The kill sets and the
-- classes are given, a missing key reading as empty; the identifier of a finding, a digest, is left
-- out.
pub mod Scope
use tf_mut.Prelude.{
  ℕ, Bool, true, false, not, ◌&&◌, ◌||◌, Option, none, some, List, [], ◌∷◌, ◌++◌, map, ltb,
  if◌then◌else◌, length, all_pass, is_nil, ◌>>=◌,
}
use tf_mut.Text.{Text, text, text_eq, contains}
use tf_mut.Dict.{Dict, get}

-- `assertion`.
pub record Assertion : Type 0 where
  pub id : Text
  pub file : Text
  pub run : Text
  pub source : Text
  pub line : ℕ

-- `report.AssertionProvenance`, a string; `unclassed` is every other string.
pub data Provenance : Type 0 where
  generated_unmodified generated_edited pre_existing : Provenance
  unclassed : Text → Provenance

-- `eligible`.
abbrev pub eligible : Provenance → Bool
eligible generated_edited = true
eligible pre_existing = true
eligible _ = false

-- `killSets[id]`.
abbrev pub kill_set : Text → Dict (List Text) → List Text
kill_set id sets = elim (get id sets) [ none ↦ [] | some mutants ↦ mutants ]

-- `provenance[id]`.
abbrev pub class_of : Text → Dict Provenance → Provenance
class_of id classes = elim (get id classes) [ none ↦ unclassed [] | some c ↦ c ]

-- `covers`.
unfoldable pub covers : List Text → List Text → Bool
covers wider narrower = all_pass (λ member. contains member wider) narrower

-- The test in the loop of `subsumedBy`.
pub subsumes : Dict (List Text) → Assertion → Assertion → Bool
subsumes sets declared other =
    let mine = kill_set declared.id sets in
    let theirs = kill_set other.id sets in
    not (text_eq other.id declared.id) && (ltb (length mine) (length theirs) && covers theirs mine)

-- `subsumedBy`.
unfoldable pub subsumed_by : Assertion → List Assertion → Dict (List Text) → Option Assertion
unfolding subsumes
subsumed_by declared [] sets = none
subsumed_by declared (other ∷ rest) sets =
    let later = subsumed_by declared rest sets in
    if subsumes sets declared other then some other else later

pub data Kind : Type 0 where
  empty_kill_set subsumed cross_scenario_redundant : Kind

pub record CurateFinding : Type 0 where
  pub kind : Kind
  pub members : List Text
  pub provenance : List Provenance
  pub mutants : List Text
  pub message : Text

-- `finding`.
pub finding : Kind → List Assertion → Dict Provenance → List Text → Text → CurateFinding
finding kind members classes mutants message = record {
  kind = kind;
  members = map (λ member. member.id) members;
  provenance = map (λ member. class_of member.id classes) members;
  mutants = mutants;
  message = message;
}

-- The loop of `curateFindings`, over the assertions that are left.
pub assertion_findings :
    List Assertion → Dict Provenance → Dict (List Text) → List Assertion → List CurateFinding
unfolding finding
assertion_findings assertions classes sets [] = []
assertion_findings assertions classes sets (declared ∷ rest) =
    let later = assertion_findings assertions classes sets rest in
    if not (eligible (class_of declared.id classes))
    then later
    else if is_nil (kill_set declared.id sets)
    then finding empty_kill_set (declared ∷ []) classes [] (
        text
          "no mutant's death depended on this assertion: it senses nothing the current operator catalogue models")
      ∷ later
    else elim (subsumed_by declared assertions sets) [
      | none ↦ later
      | some container ↦
          finding subsumed (declared ∷ container ∷ []) classes (kill_set declared.id sets)
            (text "every mutant this assertion catches is also caught by " ++ container.id)
          ∷ later
    ]

-- `slices.Equal`.
pub same_set : List Text → List Text → Bool
same_set [] [] = true
same_set [] (b ∷ bs) = false
same_set (a ∷ tail_a) [] = false
same_set (a ∷ tail_a) (b ∷ bs) = text_eq a b && same_set tail_a bs

-- The inner loop of `crossScenarioFindings`.
pub cross_with :
    Assertion → Dict (List Text) → Dict Provenance → List Assertion → List CurateFinding
unfolding same_set finding
cross_with left sets classes [] = []
cross_with left sets classes (right ∷ rest) =
    let later = cross_with left sets classes rest in
    if text_eq left.run right.run || is_nil (kill_set left.id sets)
    then later
    else if not (eligible (class_of left.id classes)) || not (eligible (class_of right.id classes))
    then later
    else if not (same_set (kill_set left.id sets) (kill_set right.id sets))
    then later
    else finding cross_scenario_redundant (left ∷ right ∷ []) classes (kill_set left.id sets) (
        text "runs "
        ++ (left.run
            ++ (text " and "
                ++ (right.run
                    ++ text
                        " catch exactly the same mutants: their inputs do not discriminate this behaviour"))))
      ∷ later

-- `crossScenarioFindings`.
pub cross_scenario_findings :
    List Assertion → Dict (List Text) → Dict Provenance → List CurateFinding
unfolding cross_with
cross_scenario_findings [] sets classes = []
cross_scenario_findings (left ∷ rest) sets classes =
    cross_with left sets classes rest ++ cross_scenario_findings rest sets classes

-- `curateFindings` after the kill sets were attributed.
unfoldable pub curate_findings :
    List Assertion → Dict (List Text) → Dict Provenance → List CurateFinding
unfolding assertion_findings cross_scenario_findings
curate_findings assertions sets classes =
    assertion_findings assertions classes sets assertions
    ++ cross_scenario_findings assertions sets classes
