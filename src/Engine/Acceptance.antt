-- ===== src/Engine/Acceptance.antt =====
-- internal/engine/acceptance.go: the baseline of accepted findings, and the gate that holds a run
-- against it. The published rows and the classified rows are aligned: the source reads `rows[index]`
-- at the index of the mutant, and a row here is the pair of the two; where a mutant has no
-- classified row the source panics, and the model gives none. The labels, a map from indexes
-- in the source, are what that map answers at each index, in the order of the rows: `none` where it
-- has no entry.
pub mod Loop
pub mod Gate
pub mod Written
use tf_mut.Prelude.{
  ℕ, suc, Bool, true, false, not, ◌&&◌, ◌||◌, Option, none, some, List, [], ◌∷◌, ◌++◌, map, ◌==◌,
  if◌then◌else◌, length, select, ◌>>=◌,
}
use tf_mut.Prelude.Sorting
use tf_mut.Prelude.Sorting.{Sortable}
use tf_mut.Text.{Text}
use tf_mut.Text.Order
use tf_mut.Text.Order.{text_le, text_le_total, text_le_trans}
use tf_mut.Dict.{Dict, get, put, has}
use tf_mut.Dict.Keys.{TextSet, member, add}
use tf_mut.Oracle.Outcome.{
  actionable, timeout, survived, structurally_unassertable, pending, Outcome,
}
use tf_mut.Oracle.Population.{fresh, fresh_classified, Classified, Population, Fresh}

-- The fields of `report.Mutant` that the baseline reads.
pub record Mutant : Type 0 where
  pub id : Text
  pub published_state : Text
  pub site : Text
  pub operator : Text

abbrev pub Row : Type 0
Row = Mutant × Classified

-- Each mutant with `rows[index]`.
unfoldable pub aligned : List Mutant → List Classified → Option (List Row)
aligned [] rows = some []
aligned (mutant ∷ rest) [] = none
aligned (mutant ∷ rest) (row ∷ rows) = elim (aligned rest rows) [
  | none ↦ none
  | some pairs ↦ some ((mutant, row) ∷ pairs)
]

-- `store.AcceptanceEntry`.
pub record AcceptanceEntry : Type 0 where
  pub id : Text
  pub actionable : Bool
  pub state : Text
  pub site : Text
  pub operator : Text

-- `isFinding`.
unfoldable pub is_finding : Classified → Bool
is_finding row = elim row.outcome.state [
  | survived ↦ true
  | structurally_unassertable ↦ true
  | _ ↦ false
]

-- `findingActionable`.
unfoldable pub finding_actionable : Classified → Bool
finding_actionable row = elim row.outcome.state [
  | structurally_unassertable ↦ true
  | _ ↦ actionable row.outcome.diagnosis
]

-- `state == oracle.StatePending || state == oracle.StateTimeout`.
unfoldable pub not_observed : Classified → Bool
not_observed row = elim row.outcome.state [ pending ↦ true | timeout ↦ true | _ ↦ false ]

pub data Label : Type 0 where
  unobserved accepted new : Label

-- `acceptedByID`: a later entry replaces an earlier one of the same ID.
unfoldable pub by_id : List AcceptanceEntry → Dict AcceptanceEntry → Dict AcceptanceEntry
by_id [] m = m
by_id (entry ∷ rest) m = by_id rest (put entry.id entry m)

-- The variables of the loop over the rows.
pub record Progress : Type 0 where
  pub observed : TextSet
  pub matched : TextSet
  pub matched_count : ℕ
  pub fresh_findings : List Text
  pub labels : List (Option Label)

abbrev pub same_class : Bool → Bool → Bool
same_class true b = b
same_class false b = not b

-- `found && entry.Actionable == findingActionable(rows[index])`.
abbrev pub accepts : Dict AcceptanceEntry → Row → Bool
accepts index (mutant, row) = elim (get mutant.id index) [
  | none ↦ false
  | some entry ↦ same_class entry.actionable (finding_actionable row)
]

-- `labels[index] = l`, or no entry at the index.
abbrev label : Progress → Option Label → Progress
label p l = record p { labels = p.labels ++ l ∷ [] }

-- The body of the loop.
pub judge_row : Dict AcceptanceEntry → Row → Progress → Progress
unfolding not_observed is_finding finding_actionable
judge_row index (mutant, row) p =
    let seen = record p { observed = add mutant.id p.observed } in
    if not_observed row
    then label p (if has mutant.id index then some unobserved else none)
    else if not (is_finding row)
    then label seen none
    else if accepts index (mutant, row)
    then label
        (record seen { matched = add mutant.id p.matched; matched_count = suc p.matched_count })
        (some accepted)
    else label (record seen { fresh_findings = p.fresh_findings ++ mutant.id ∷ [] }) (some new)

pub judge_rows : Dict AcceptanceEntry → List Row → Progress → Progress
unfolding judge_row
judge_rows index [] p = p
judge_rows index (row ∷ rest) p = judge_rows index rest (judge_row index row p)

-- `gate.Stale` after the loop over the accepted entries.
pub stale_ids : Bool → TextSet → List AcceptanceEntry → List Text
stale_ids full matched [] = []
stale_ids full matched (entry ∷ rest) =
    let later = stale_ids full matched rest in
    if not (member entry.id matched) && full then entry.id ∷ later else later

-- `gate.Unobserved` after the loop over the accepted entries.
pub unobserved_ids : Bool → TextSet → TextSet → List AcceptanceEntry → List Text
unobserved_ids full matched observed [] = []
unobserved_ids full matched observed (entry ∷ rest) =
    let later = unobserved_ids full matched observed rest in
    if not (member entry.id matched) && (not full && not (member entry.id observed))
    then entry.id ∷ later
    else later

-- `report.BaselineGate` as `judgeFindings` fills it, and the labels.
pub record BaselineGate : Type 0 where
  pub accepted_count : ℕ
  pub matched_count : ℕ
  pub new_ids : List Text
  pub stale : List Text
  pub unobserved_entries : List Text
  pub staleness_reported : Bool
  pub row_labels : List (Option Label)

abbrev pub no_progress : Progress
no_progress = record {
  observed = [];
  matched = [];
  matched_count = 0;
  fresh_findings = [];
  labels = [];
}

-- `judgeFindings` over the aligned rows.
unfoldable pub judge_aligned : List AcceptanceEntry → List Row → Bool → BaselineGate
unfolding judge_rows stale_ids unobserved_ids by_id
judge_aligned accepted_entries rows full =
    let p = judge_rows (by_id accepted_entries []) rows no_progress in
    record {
      accepted_count = length accepted_entries;
      matched_count = p.matched_count;
      new_ids = Order.sort p.fresh_findings;
      stale = Order.sort (stale_ids full p.matched accepted_entries);
      unobserved_entries = Order.sort (unobserved_ids full p.matched p.observed accepted_entries);
      staleness_reported = full;
      row_labels = p.labels;
    }

-- One entry of `acceptanceEntries`.
abbrev pub entry_of_row : Row → AcceptanceEntry
entry_of_row (mutant, row) = record {
  id = mutant.id;
  actionable = finding_actionable row;
  state = mutant.published_state;
  site = mutant.site;
  operator = mutant.operator;
}

-- The comparison of IDs in `acceptanceEntries`.
abbrev pub by_entry_id : Sortable AcceptanceEntry
by_entry_id = record {
  le = λ a b. text_le a.id b.id;
  le_total = λ a b. text_le_total a.id b.id;
  le_trans = λ a b c. text_le_trans a.id b.id c.id;
}

abbrev pub is_finding_row : Row → Bool
is_finding_row row = is_finding row.1

-- `acceptanceEntries` over the aligned rows.
unfoldable pub entries_of_rows : List Row → List AcceptanceEntry
unfolding is_finding finding_actionable
entries_of_rows rows = Sorting.sort by_entry_id (map entry_of_row (select is_finding_row rows))

-- `judgeFindings`.
unfoldable pub judge_findings :
    List AcceptanceEntry → List Mutant → Population → Bool → Option BaselineGate
judge_findings accepted_entries executed population full =
    elim (aligned executed population.classified) [
      | none ↦ none
      | some rows ↦ some (judge_aligned accepted_entries rows full)
    ]

-- `acceptanceEntries`.
unfoldable pub acceptance_entries : Fresh → List Mutant → Option (List AcceptanceEntry)
acceptance_entries fresh executed = elim (aligned executed (fresh_classified fresh)) [
  | none ↦ none
  | some rows ↦ some (entries_of_rows rows)
]
