-- ===== src/Engine/Acceptance/Gate.antt =====
-- What the gate reports of a run.
use tf_mut.Prelude.{◌≡◌, Bool, not, ◌&&◌, List, [], ◌∷◌, map, arith, some_pass, count_if}
use tf_mut.Text.{Text, text_eq, contains, text_eq_iff}
use tf_mut.Text.Order.{contains-sort}
use tf_mut.Dict.{Dict, is_some, get}
use tf_mut.Dict.Keys.{TextSet, member}
use tf_mut.Engine.Acceptance.{
  Row, by_id, accepts, judge_rows, stale_ids, unobserved_ids, no_progress, judge_aligned,
  is_finding_row, AcceptanceEntry, Progress,
}
use tf_mut.Engine.Acceptance.Loop.{
  is_new, is_matched, is_observed, judge_rows_lem, is_labelled, judge_rows-count,
}

-- An accepted entry of this ID is there.
abbrev pub names : Text → AcceptanceEntry → Bool
names i entry = text_eq i entry.id

contains-stale_ids :
    (i : Text) (full : Bool) (matched : TextSet) (entries : List AcceptanceEntry)
    → contains i (stale_ids full matched entries)
      ≡ (full && (some_pass (names i) entries && not (member i matched)))
unfolding stale_ids contains
contains-stale_ids i full matched [] = ground arith
contains-stale_ids i full matched (entry ∷ rest) =
    ground (arith, contains-stale_ids i full matched rest, text_eq_iff i entry.id)

contains-unobserved_ids :
    (i : Text) (full : Bool) (matched observed : TextSet) (entries : List AcceptanceEntry)
    → contains i (unobserved_ids full matched observed entries) ≡ (
        not full
        && (some_pass (names i) entries && (not (member i matched) && not (member i observed))))
unfolding unobserved_ids contains
contains-unobserved_ids i full matched observed [] = ground arith
contains-unobserved_ids i full matched observed (entry ∷ rest) =
    ground (arith, contains-unobserved_ids i full matched observed rest, text_eq_iff i entry.id)

-- The truth table of the gate. An ID is new exactly where some finding of that ID is not of
-- the actionability class of the last accepted entry of that ID, or no entry of it is accepted. It is stale exactly where the run is full, the ID is accepted
-- and no finding matches it; it is unobserved exactly where the run is not full, the ID is accepted,
-- no finding matches it, and no row of that ID was observed. A finding matches where it is of the
-- class of the last accepted entry of its ID; the matched count is their number. A row has a label
-- exactly where it is a finding, or was not observed while its ID is accepted.
pub judge_aligned_lem :
    (entries : List AcceptanceEntry) (rows : List Row) (full : Bool)
    → let gate = judge_aligned entries rows full in
      let index = by_id entries [] in
      ((i : Text)
        → (contains i gate.new_ids ≡ some_pass (is_new index i) rows)
          × (contains i gate.stale ≡ (
              full && (some_pass (names i) entries && not (some_pass (is_matched index i) rows))))
          × (contains i gate.unobserved_entries ≡ (
              not full
              && (some_pass (names i) entries
                  && (not (some_pass (is_matched index i) rows)
                      && not (some_pass (is_observed i) rows))))))
      × (gate.matched_count ≡ count_if (λ row. is_finding_row row && accepts index row) rows)
      × (map is_some gate.row_labels ≡ map (is_labelled index) rows)
unfolding judge_aligned contains get
judge_aligned_lem entries rows full =
    let index : Dict AcceptanceEntry = by_id entries [] in
    let p : Progress = judge_rows index rows no_progress in
    (
      λ i. ground (
        arith,
        contains-sort i p.fresh_findings,
        contains-sort i (stale_ids full p.matched entries),
        contains-sort i (unobserved_ids full p.matched p.observed entries),
        contains-stale_ids i full p.matched entries,
        contains-unobserved_ids i full p.matched p.observed entries,
        judge_rows_lem index i rows no_progress,
      ),
      ground (arith, judge_rows-count index rows no_progress),
      ground (arith, judge_rows-count index rows no_progress),
    )
