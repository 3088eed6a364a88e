-- ===== src/Oracle/Metrics/Scores.antt =====
-- The headline numbers of `ComputeMetrics` against the rows they summarise.
use tf_mut.Prelude.{
  ℕ, ◌+◌, ◌-◌, ◌*◌, ◌≤◌, ◌<◌, ◌≡◌, refl, ◌↔◌, ◌⊎◌, Bool, false, not, List, [], ◌∷◌, arith, length,
  select, count_if,
}
use tf_mut.Oracle.Outcome.{
  State, invalid, killed, killed_by_error, timeout, survived, structurally_unassertable,
  no_coverage, ignored,
}
use tf_mut.Oracle.Population.{new_population, Provenance, Classified, Population}
use tf_mut.Oracle.Metrics.{ratio, reaches_threshold, count_states, total, compute_metrics, Ratio}
use tf_mut.Oracle.Metrics.Counting.{
  in_state, count_states_lem, graded, graded_lem, select-graded_lem,
}

-- The six counts that the scores are made of are those of the graded rows alone.
scored_lem : (p : Population) → (compute_metrics p).scored ≡ count_if graded p.classified
unfolding compute_metrics total
scored_lem p = omega (
  arith,
  graded_lem p.classified,
  count_states_lem p.classified (λ s. 0) killed,
  count_states_lem p.classified (λ s. 0) killed_by_error,
  count_states_lem p.classified (λ s. 0) survived,
  count_states_lem p.classified (λ s. 0) structurally_unassertable,
  count_states_lem p.classified (λ s. 0) no_coverage,
  count_states_lem p.classified (λ s. 0) timeout,
)

-- A count is how many rows are in the state, and the size of the scored set is how many rows are
-- graded: killed, killed by an error, survived, structurally unassertable, uncovered or timed out.
pub counts_lem :
    (p : Population)
    → ((s : State) → (compute_metrics p).counts s ≡ count_if (in_state s) p.classified)
      × ((compute_metrics p).scored ≡ count_if graded p.classified)
unfolding compute_metrics
counts_lem p = (λ s. omega (arith, count_states_lem p.classified (λ s. 0) s), scored_lem p)

-- A quotient that is a proper share.
abbrev pub IsShare : Ratio → Type 0
IsShare r = (r.numerator ≤ r.denominator) × (1 ≤ r.denominator)

ratio-IsShare : (n d : ℕ) → n ≤ d → IsShare (ratio n d)
unfolding ratio
ratio-IsShare n d h = ground arith

-- The mutation score, the assertion score and the reachability of any population are at most 1,
-- and no division is by 0.
pub compute_metrics-IsShare :
    (p : Population)
    → IsShare (compute_metrics p).mutation_score
      × IsShare (compute_metrics p).assertion_score
      × IsShare (compute_metrics p).reachability
unfolding compute_metrics total
compute_metrics-IsShare p = (
  ratio-IsShare _ _ (omega arith),
  ratio-IsShare _ _ (omega arith),
  ratio-IsShare _ _ (omega arith),
)

-- Rows that are not graded never move a headline number: without its invalid, unobservable, ignored
-- and pending mutants a population has the same mutation score, assertion score and reachability.
pub compute_metrics-select :
    (rows : List Classified) (provenance : Provenance)
    → let all = compute_metrics (new_population rows provenance) in
      let kept = compute_metrics (new_population (select graded rows) provenance) in
      (kept.mutation_score ≡ all.mutation_score)
      × (kept.assertion_score ≡ all.assertion_score)
      × (kept.reachability ≡ all.reachability)
unfolding compute_metrics total new_population
compute_metrics-select rows provenance =
    rw
      (
        select-graded_lem killed rows refl,
        select-graded_lem killed_by_error rows refl,
        select-graded_lem survived rows refl,
        select-graded_lem structurally_unassertable rows refl,
        select-graded_lem no_coverage rows refl,
        select-graded_lem timeout rows refl,
      )
      (refl, refl, refl)

abbrev judged_row : Classified → Bool
judged_row row = not (in_state ignored row)

judged_lem :
    (rows : List Classified)
    → length rows - count_states rows (λ s. 0) ignored ≡ count_if judged_row rows
judged_lem rows = omega (arith, count_states_lem rows (λ s. 0) ignored, both rows)
  where
    both :
        (rows : List Classified)
        → count_if (in_state ignored) rows + count_if judged_row rows ≡ length rows
    both [] = refl
    both (row ∷ rest) = ground (arith, both rest)

-- A score is complete exactly where the run was not tripped, left no mutant unexecuted or in error,
-- no row is a timeout, some row is graded if there is any, and of the rows that are not ignored
-- fewer than a quarter are invalid, if there is any.
pub complete_iff :
    (p : Population)
    → ((compute_metrics p).incomplete ≡ false) ↔ (
        (p.provenance.tripped ≡ false)
        × (p.provenance.unexecuted ≡ 0)
        × (p.provenance.errored ≡ 0)
        × (count_if (in_state timeout) p.classified ≡ 0)
        × ((length p.classified ≡ 0) ⊎ (1 ≤ count_if graded p.classified))
        × ((count_if judged_row p.classified ≡ 0)
            ⊎ (4 * count_if (in_state invalid) p.classified < count_if judged_row p.classified)))
unfolding compute_metrics reaches_threshold ratio
complete_iff p = ground (
  arith,
  judged_lem p.classified,
  scored_lem p,
  count_states_lem p.classified (λ s. 0) timeout,
  count_states_lem p.classified (λ s. 0) invalid,
)
