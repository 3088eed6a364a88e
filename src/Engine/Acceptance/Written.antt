-- ===== src/Engine/Acceptance/Written.antt =====
-- A baseline accepts the run that it was written from.
use tf_mut.Oracle.Population.{fresh_classified, Fresh}
use tf_mut.Engine.Acceptance.Loop.{is_new, is_matched}
use tf_mut.Prelude.{
  ◌≡◌, refl, ◌∙◌, Bool, true, false, not, ◌&&◌, ◌||◌, Option, none, some, List, [], ◌∷◌, map, arith,
  select, some_pass, all_pass, count_if,
}
use tf_mut.Prelude.Sorting
use tf_mut.Text.{Text, text_eq, contains, text_eq_iff, text_eq_refl}
use tf_mut.Dict.{Dict, get, put, get-put}
use tf_mut.Engine.Acceptance.{
  Row, aligned, finding_actionable, by_id, same_class, accepts, judge_aligned, entry_of_row,
  by_entry_id, is_finding_row, entries_of_rows, judge_findings, acceptance_entries, Mutant,
  AcceptanceEntry, BaselineGate,
}
use tf_mut.Engine.Acceptance.Gate.{names, judge_aligned_lem}

module _ (class_of : Text → Bool) where
  -- The actionability class of a finding is that of its ID.
  abbrev pub is_classed : Row → Bool
  is_classed row =
      not (is_finding_row row) || same_class (class_of row.0.id) (finding_actionable row.1)

  abbrev fits : AcceptanceEntry → Bool
  fits entry = same_class (class_of entry.id) entry.actionable

  abbrev good : Text → Option AcceptanceEntry → Bool
  good i none = false
  good i (some entry) = same_class entry.actionable (class_of i)

  good-by_id :
      (i : Text) (entries : List AcceptanceEntry) (m : Dict AcceptanceEntry)
      → all_pass fits entries ≡ true
      → good i (get i (by_id entries m)) ≡ (some_pass (names i) entries || good i (get i m))
  unfolding by_id
  good-by_id i [] m h = refl
  good-by_id i (entry ∷ rest) m h = ground (
    arith,
    good-by_id i rest (put entry.id entry m),
    get-put entry.id i entry m,
    text_eq_iff i entry.id,
    text_eq_iff entry.id i,
    h,
  )

  all_pass-fits :
      (rows : List Row)
      → all_pass is_classed rows ≡ true
      → all_pass fits (map entry_of_row (select is_finding_row rows)) ≡ true
  all_pass-fits [] h = refl
  all_pass-fits (row ∷ rest) h = ground (arith, all_pass-fits rest, h)

  -- A finding whose ID is in the index is accepted.
  abbrev covered : Dict AcceptanceEntry → Row → Bool
  covered index row = not (is_finding_row row) || accepts index row

  good-covered :
      (index : Dict AcceptanceEntry) (row : Row)
      → is_classed row ≡ true
      → (is_finding_row row ≡ true → good row.0.id (get row.0.id index) ≡ true)
      → covered index row ≡ true
  good-covered index row h k = ground (arith, h, k)

abbrev finding_named : Text → Row → Bool
finding_named i row = is_finding_row row && text_eq i row.0.id

some_pass-all_pass {ℓ} :
    {A : Type ℓ} (p : A → Bool) (xs : List A) → some_pass p xs ≡ not (all_pass (λ x. not (p x)) xs)
some_pass-all_pass p [] = refl
some_pass-all_pass p (x ∷ xs) = ground (arith, some_pass-all_pass p xs)

names-select :
    (i : Text) (rows : List Row)
    → some_pass (names i) (map entry_of_row (select is_finding_row rows))
      ≡ some_pass (finding_named i) rows
names-select i [] = refl
names-select i (row ∷ rest) = ground (arith, names-select i rest)

names-entries_of_rows :
    (i : Text) (rows : List Row)
    → some_pass (names i) (entries_of_rows rows) ≡ some_pass (finding_named i) rows
unfolding entries_of_rows
names-entries_of_rows i rows =
    let entries : List AcceptanceEntry = map entry_of_row (select is_finding_row rows) in
    ground (
      arith,
      some_pass-all_pass (names i) (Sorting.sort by_entry_id entries),
      some_pass-all_pass (names i) entries,
      Sorting.all_pass-sort by_entry_id (λ e. not (names i e)) entries,
      names-select i rows,
    )

all_covered :
    (class_of : Text → Bool) (index : Dict AcceptanceEntry) (rows : List Row)
    → all_pass (is_classed class_of) rows ≡ true
    → ((i : Text) → some_pass (finding_named i) rows ≡ true → good class_of i (get i index) ≡ true)
    → all_pass (covered class_of index) rows ≡ true
all_covered class_of index [] h k = refl
all_covered class_of index (row ∷ rest) h k =
    let later =
      all_covered class_of index rest (ground (arith, h)) (λ i e. k i (ground (arith, e))) in
    ground (arith, h, later, good-covered class_of index row, k row.0.id, text_eq_refl row.0.id)

covered_lem :
    (class_of : Text → Bool) (index : Dict AcceptanceEntry) (i : Text) (rows : List Row)
    → all_pass (covered class_of index) rows ≡ true
    → (some_pass (is_new index i) rows ≡ false)
      × (some_pass (is_matched index i) rows ≡ some_pass (finding_named i) rows)
      × (count_if (λ row. is_finding_row row && accepts index row) rows
          ≡ count_if is_finding_row rows)
covered_lem class_of index i [] h = (refl, refl, refl)
covered_lem class_of index i (row ∷ rest) h = ground (arith, covered_lem class_of index i rest, h)

without_members : (xs : List Text) → ((i : Text) → contains i xs ≡ false) → xs ≡ []
unfolding contains
without_members [] h = refl
without_members (x ∷ xs) h = absurd (ground (arith, h x, text_eq_refl x))

entries_of_rows-fits :
    (class_of : Text → Bool) (rows : List Row)
    → all_pass (is_classed class_of) rows ≡ true
    → all_pass (fits class_of) (entries_of_rows rows) ≡ true
unfolding entries_of_rows
entries_of_rows-fits class_of rows h =
    Sorting.all_pass-sort by_entry_id (fits class_of)
      (map entry_of_row (select is_finding_row rows))
    ∙ all_pass-fits class_of rows h

-- The gate over the aligned rows that its baseline was written from.
written_aligned :
    (class_of : Text → Bool) (rows : List Row) (full : Bool)
    → all_pass (is_classed class_of) rows ≡ true
    → let gate = judge_aligned (entries_of_rows rows) rows full in
      (gate.new_ids ≡ [])
      × (gate.stale ≡ [])
      × (gate.unobserved_entries ≡ [])
      × (gate.matched_count ≡ count_if is_finding_row rows)
written_aligned class_of rows full h =
    let entries : List AcceptanceEntry = entries_of_rows rows in
    let index : Dict AcceptanceEntry = by_id entries [] in
    let gate : BaselineGate = judge_aligned entries rows full in
    let table = judge_aligned_lem entries rows full in
    let fitting = entries_of_rows-fits class_of rows h in
    let accepted_all = all_covered class_of index rows h λ i e.
      ground (arith, good-by_id class_of i entries [] fitting, names-entries_of_rows i rows, e) in
    let at = λ (i : Text). covered_lem class_of index i rows accepted_all in
    (
      without_members gate.new_ids λ i. ground (arith, table.0 i, at i),
      without_members gate.stale λ i. ground (arith, table.0 i, at i, names-entries_of_rows i rows),
      without_members gate.unobserved_entries
          λ i. ground (arith, table.0 i, at i, names-entries_of_rows i rows),
      ground (arith, table.1, at []),
    )

-- A baseline accepts the run that it was written from. Where every mutant has its classified row, and
-- the actionability class of a finding is a function of its ID, the entries are written, and the
-- gate that holds the same mutants and population against them, whatever the shape of the run,
-- reports nothing new, nothing stale and nothing unobserved, and matches every finding.
pub acceptance_entries-judge_findings :
    (class_of : Text → Bool) (proof : Fresh) (executed : List Mutant) (full : Bool)
    (rows : List Row)
    → aligned executed (fresh_classified proof) ≡ some rows
    → all_pass (is_classed class_of) rows ≡ true
    → (entries : List AcceptanceEntry) × (gate : BaselineGate) × (acceptance_entries proof executed
        ≡ some entries)
      × (judge_findings entries executed proof.authoritative.population full ≡ some gate)
      × (gate.new_ids ≡ [])
      × (gate.stale ≡ [])
      × (gate.unobserved_entries ≡ [])
      × (gate.matched_count ≡ count_if is_finding_row rows)
unfolding acceptance_entries judge_findings
acceptance_entries-judge_findings class_of proof executed full rows e h =
    let (nothing_new, nothing_stale, nothing_unobserved, all_matched) =
      written_aligned class_of rows full h in
    (
      entries_of_rows rows,
      judge_aligned (entries_of_rows rows) rows full,
      ground (arith, e),
      ground (arith, e),
      nothing_new,
      nothing_stale,
      nothing_unobserved,
      all_matched,
    )
