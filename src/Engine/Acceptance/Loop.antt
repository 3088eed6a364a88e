-- ===== src/Engine/Acceptance/Loop.antt =====
-- What the loop over the rows records.
use mathlib.Core.List.{append-nil, append_assoc, map-append}
use tf_mut.Prelude.{
  ◌+◌, ◌≡◌, refl, Bool, true, false, not, ◌&&◌, ◌||◌, none, some, List, [], ◌∷◌, ◌++◌, map, arith,
  if◌then◌else◌, some_pass, count_if,
}
use tf_mut.Text.{Text, text_eq, contains, text_eq_iff, contains-append}
use tf_mut.Dict.{Dict, is_some, has, get-put}
use tf_mut.Dict.Keys.{member}
use tf_mut.Oracle.Outcome.{State, timeout, survived, structurally_unassertable, pending}
use tf_mut.Oracle.Population.{Classified}
use tf_mut.Engine.Acceptance.{
  Row, is_finding, not_observed, accepts, judge_row, judge_rows, is_finding_row, AcceptanceEntry,
  unobserved, accepted, new, Progress,
}

pub finding_observed : (row : Classified) → is_finding row ≡ true → not_observed row ≡ false
unfolding is_finding not_observed
finding_observed row h = by_state row.outcome.state h
  where
    by_state :
        (s : State)
        → (elim s [ survived ↦ true | structurally_unassertable ↦ true | _ ↦ false ]) ≡ true
        → (elim s [ pending ↦ true | timeout ↦ true | _ ↦ false ]) ≡ false
    by_state pending h = cc
    by_state timeout h = cc
    by_state _ h = refl

-- A finding that the accepted entries do not cover.
abbrev pub is_new : Dict AcceptanceEntry → Text → Row → Bool
is_new index i row = text_eq i row.0.id && (is_finding_row row && not (accepts index row))

-- A finding that the accepted entries cover.
abbrev pub is_matched : Dict AcceptanceEntry → Text → Row → Bool
is_matched index i row = text_eq i row.0.id && (is_finding_row row && accepts index row)

-- A row that was observed.
abbrev pub is_observed : Text → Row → Bool
is_observed i row = text_eq i row.0.id && not (not_observed row.1)

module _ (index : Dict AcceptanceEntry) (i : Text) where
  judge_row-new :
      (row : Row) (p : Progress)
      → contains i (judge_row index row p).fresh_findings
        ≡ (contains i p.fresh_findings || is_new index i row)
  unfolding judge_row contains
  judge_row-new (mutant, row) p =
      ground (arith, contains-append i p.fresh_findings (mutant.id ∷ []), finding_observed row)

  judge_row-matched :
      (row : Row) (p : Progress)
      → member i (judge_row index row p).matched ≡ (member i p.matched || is_matched index i row)
  unfolding judge_row
  judge_row-matched (mutant, row) p = ground (
    arith,
    get-put mutant.id i tt p.matched,
    text_eq_iff mutant.id i,
    text_eq_iff i mutant.id,
    finding_observed row,
  )

  judge_row-observed :
      (row : Row) (p : Progress)
      → member i (judge_row index row p).observed ≡ (member i p.observed || is_observed i row)
  unfolding judge_row
  judge_row-observed (mutant, row) p =
      ground
        (arith, get-put mutant.id i tt p.observed, text_eq_iff mutant.id i, text_eq_iff i mutant.id)

  pub judge_rows_lem :
      (rows : List Row) (p : Progress)
      → (contains i (judge_rows index rows p).fresh_findings
          ≡ (contains i p.fresh_findings || some_pass (is_new index i) rows))
        × (member i (judge_rows index rows p).matched
            ≡ (member i p.matched || some_pass (is_matched index i) rows))
        × (member i (judge_rows index rows p).observed
            ≡ (member i p.observed || some_pass (is_observed i) rows))
  unfolding judge_rows
  judge_rows_lem [] p = ground arith
  judge_rows_lem (row ∷ rest) p = ground (
    arith,
    judge_rows_lem rest (judge_row index row p),
    judge_row-new row p,
    judge_row-matched row p,
    judge_row-observed row p,
  )

-- A finding, or a row that was not observed and whose ID is accepted.
abbrev pub is_labelled : Dict AcceptanceEntry → Row → Bool
is_labelled index row = is_finding_row row || (not_observed row.1 && has row.0.id index)

judge_row-count :
    (index : Dict AcceptanceEntry) (row : Row) (p : Progress)
    → ((judge_row index row p).matched_count
        ≡ p.matched_count + (if is_finding_row row && accepts index row then 1 else 0))
      × (map is_some (judge_row index row p).labels
          ≡ map is_some p.labels ++ is_labelled index row ∷ [])
unfolding judge_row
judge_row-count index (mutant, row) p = ground (
  arith,
  map-append is_some p.labels ((if has mutant.id index then some unobserved else none) ∷ []),
  map-append is_some p.labels (none ∷ []),
  map-append is_some p.labels (some accepted ∷ []),
  map-append is_some p.labels (some new ∷ []),
  finding_observed row,
)

-- The count of the matched findings, and the rows with a label.
pub judge_rows-count :
    (index : Dict AcceptanceEntry) (rows : List Row) (p : Progress)
    → ((judge_rows index rows p).matched_count
        ≡ p.matched_count + count_if (λ row. is_finding_row row && accepts index row) rows)
      × (map is_some (judge_rows index rows p).labels
          ≡ map is_some p.labels ++ map (is_labelled index) rows)
unfolding judge_rows
judge_rows-count index [] p = ground (arith, append-nil (map is_some p.labels))
judge_rows-count index (row ∷ rest) p = ground (
  arith,
  judge_rows-count index rest (judge_row index row p),
  judge_row-count index row p,
  append_assoc (map is_some p.labels) (is_labelled index row ∷ []) (map (is_labelled index) rest),
)
