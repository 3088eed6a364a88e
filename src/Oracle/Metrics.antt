-- ===== src/Oracle/Metrics.antt =====
-- internal/oracle/metrics.go: the scored set and the headline numbers of a run.
-- A Go map from states or diagnoses to counts is a function that is 0 on a missing key. A `float64`
-- quotient of two counts is the fraction itself: for counts below 2 ^ 53, which the program's
-- slices cannot exceed, the test `>= 0.25` of the rounded quotient is that of the fraction.
pub mod Counting
pub mod Scores
pub mod Operators
use tf_mut.Prelude.{
  ℕ, suc, ◌+◌, ◌-◌, ◌*◌, Bool, not, ◌&&◌, ◌||◌, none, some, List, [], ◌∷◌, map, ltb, leb, ◌==◌,
  if◌then◌else◌, length, ◌>>=◌,
}
use tf_mut.Prelude.Sorting
use tf_mut.Prelude.Sorting.{Sortable}
use tf_mut.Text.{Text, text_eq}
use tf_mut.Text.Order.{text_le, text_le_total, text_le_trans}
use tf_mut.Dict.{Dict, get, put}
use tf_mut.Oracle.Outcome.{
  State, invalid, killed, killed_by_error, timeout, survived, structurally_unassertable,
  unobservable, no_coverage, ignored, pending, unowned, Diagnosis, absent,
  indeterminate_unknown_values, indeterminate_volatility, weak_assertion, no_assertion, unasserted,
  unemitted, Outcome,
}
use tf_mut.Oracle.Population.{Classified, Population}

-- A state and a diagnosis are strings in the program; `==` on them tells the constants apart.
state_code : State → ℕ
state_code invalid = 0
state_code killed = 1
state_code killed_by_error = 2
state_code timeout = 3
state_code survived = 4
state_code structurally_unassertable = 5
state_code unobservable = 6
state_code no_coverage = 7
state_code ignored = 8
state_code pending = 9
state_code (unowned s) = 10

state_text : State → Text
state_text (unowned s) = s
state_text _ = []

unfoldable pub state_eq : State → State → Bool
unfolding state_code state_text
state_eq s t = state_code s == state_code t && text_eq (state_text s) (state_text t)

diagnosis_code : Diagnosis → ℕ
diagnosis_code absent = 0
diagnosis_code indeterminate_unknown_values = 1
diagnosis_code indeterminate_volatility = 2
diagnosis_code weak_assertion = 3
diagnosis_code no_assertion = 4
diagnosis_code unasserted = 5
diagnosis_code (unemitted s) = 6

diagnosis_text : Diagnosis → Text
diagnosis_text (unemitted s) = s
diagnosis_text _ = []

unfoldable pub diagnosis_eq : Diagnosis → Diagnosis → Bool
unfolding diagnosis_code diagnosis_text
diagnosis_eq s t =
    diagnosis_code s == diagnosis_code t && text_eq (diagnosis_text s) (diagnosis_text t)

-- `ratio`.
pub record Ratio : Type 0 where
  pub numerator : ℕ
  pub denominator : ℕ

unfoldable pub ratio : ℕ → ℕ → Ratio
ratio numerator denominator =
    if denominator == 0
    then record { numerator = 0; denominator = 1 }
    else record { numerator = numerator; denominator = denominator }

-- `>= InvalidShareWarningThreshold`, which is a quarter.
unfoldable pub reaches_threshold : Ratio → Bool
reaches_threshold r = leb r.denominator (4 * r.numerator)

pub record Metrics : Type 0 where
  pub mutation_score : Ratio
  pub assertion_score : Ratio
  pub reachability : Ratio
  pub incomplete : Bool
  pub counts : State → ℕ
  pub diagnoses : Diagnosis → ℕ
  pub scored : ℕ

-- `scoredStates`.
abbrev pub scored_states : List State
scored_states =
    killed ∷ killed_by_error ∷ survived ∷ structurally_unassertable ∷ no_coverage ∷ timeout ∷ []

-- `counts[row.Outcome.State()]++` for each row.
unfoldable pub count_states : List Classified → (State → ℕ) → State → ℕ
count_states [] counts = counts
count_states (row ∷ rest) counts =
    count_states rest (λ s. if state_eq row.outcome.state s then suc (counts s) else counts s)

-- `diagnoses[row.Outcome.Diagnosis()]++` for each diagnosed survivor.
unfoldable pub count_diagnoses : List Classified → (Diagnosis → ℕ) → Diagnosis → ℕ
count_diagnoses [] diagnoses = diagnoses
count_diagnoses (row ∷ rest) diagnoses =
    let diagnosed =
      state_eq row.outcome.state survived && not (diagnosis_eq row.outcome.diagnosis absent) in
    count_diagnoses rest (λ d.
      if diagnosed && diagnosis_eq row.outcome.diagnosis d then suc (diagnoses d) else diagnoses d)

-- The loop over `scoredStates`.
unfoldable pub total : (State → ℕ) → List State → ℕ
total counts [] = 0
total counts (s ∷ rest) = counts s + total counts rest

-- `ComputeMetrics`; the two subtractions of the source stay in range, since a count is part of the
-- rows.
unfoldable pub compute_metrics : Population → Metrics
compute_metrics p =
    let counts = count_states p.classified (λ s. 0) in
    let scored = total counts scored_states in
    let judged = length p.classified - counts ignored in
    record {
      mutation_score = ratio (counts killed + counts killed_by_error) scored;
      assertion_score =
          ratio (counts killed)
            (counts killed + counts survived + counts structurally_unassertable + counts timeout);
      reachability =
          ratio (counts killed + counts killed_by_error + counts survived + counts timeout) scored;
      incomplete =
          p.provenance.tripped
          || (ltb 0 p.provenance.unexecuted
              || (ltb 0 (counts timeout)
                  || (ltb 0 p.provenance.errored
                      || ((scored == 0 && ltb 0 (length p.classified))
                          || (ltb 0 judged
                              && reaches_threshold (ratio (counts invalid) judged))))));
      counts = counts;
      diagnoses = count_diagnoses p.classified (λ d. 0);
      scored = scored;
    }

pub record OperatorErrors : Type 0 where
  pub operator : Text
  pub generated : ℕ
  pub invalid_count : ℕ
  pub killed_by_error_count : ℕ
  pub error_rate : Ratio

-- The entry that is made for an operator when its first row comes.
unfoldable pub no_errors : Text → OperatorErrors
no_errors operator = record {
  operator = operator;
  generated = 0;
  invalid_count = 0;
  killed_by_error_count = 0;
  error_rate = record { numerator = 0; denominator = 1 };
}

-- What one row adds to its operator's entry.
unfoldable pub bump : State → OperatorErrors → OperatorErrors
bump invalid e = record e { generated = suc e.generated; invalid_count = suc e.invalid_count }
bump killed_by_error e = record e {
  generated = suc e.generated;
  killed_by_error_count = suc e.killed_by_error_count;
}
bump _ e = record e { generated = suc e.generated }

-- `byOperator[row.Operator]`, or the entry that is made where it is missing.
unfoldable pub entry_of : Text → Dict OperatorErrors → OperatorErrors
entry_of operator m = elim (get operator m) [ none ↦ no_errors operator | some e ↦ e ]

-- The loop over the rows.
unfoldable pub tally : List Classified → Dict OperatorErrors → Dict OperatorErrors
tally [] m = m
tally (row ∷ rest) m =
    tally rest (put row.operator (bump row.outcome.state (entry_of row.operator m)) m)

-- `entry.ErrorRate = ratio(entry.Invalid, entry.Generated)`.
unfoldable pub rated : OperatorErrors → OperatorErrors
rated e = record e { error_rate = ratio e.invalid_count e.generated }

-- `cmp.Compare(left.Operator, right.Operator) <= 0`.
abbrev pub by_operator : Sortable OperatorErrors
by_operator = record {
  le = λ a b. text_le a.operator b.operator;
  le_total = λ a b. text_le_total a.operator b.operator;
  le_trans = λ a b c. text_le_trans a.operator b.operator c.operator;
}

-- `ComputeOperatorErrors`.
unfoldable pub compute_operator_errors : Population → List OperatorErrors
compute_operator_errors p =
    Sorting.sort by_operator (map (λ entry. rated entry.1) (tally p.classified []))
