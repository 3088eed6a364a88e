-- ===== src/Examples/Populations.antt =====
-- Concrete populations.
use tf_mut.Prelude.{◌≡◌, refl, inr, false, List, [], ◌∷◌, arith, select, ◌>>=◌, ok}
use tf_mut.Text.{Text, text, text_eq}
use tf_mut.Oracle.Outcome.{bare, State, invalid, killed, survived, unobservable, ignored}
use tf_mut.Oracle.Population.{
  new_population, authoritative, fresh, Provenance, Classified, Population, Authoritative,
}
use tf_mut.Oracle.Population.Earned.{authoritative_iff, fresh_iff}
use tf_mut.Oracle.Metrics.{state_eq, compute_metrics, compute_operator_errors}
use tf_mut.Oracle.Metrics.Counting.{graded}
use tf_mut.Oracle.Metrics.Operators.{compute_operator_errors_lem}
use tf_mut.Oracle.Metrics.Scores.{compute_metrics-select, complete_iff}

abbrev observed : Provenance
observed = record { cached = 0; timed_out = 0; errored = 0; unexecuted = 0; tripped = false }

abbrev row : State → Classified
row s = record { operator = text "COND-NEGATE"; outcome = bare s }

abbrev rows : List Classified
rows = row killed ∷ row survived ∷ row killed ∷ row invalid ∷ row ignored ∷ row unobservable ∷ []

abbrev population : Population
population = record { classified = rows; provenance = observed }

abbrev authority : Authoritative
authority = record { population = population }

abbrev spelled : Text → Text
spelled sentinel = sentinel

authoritative_iff_example :
    authoritative spelled population (text "curate refused") (text "rerun") ≡ ok authority
authoritative_iff_example =
    ((authoritative_iff spelled population (text "curate refused") (text "rerun")).0 authority).1
      (refl, (refl, refl, refl))

fresh_iff_example :
    (authoritative spelled population (text "curate refused") (text "rerun") >>= λ a.
    fresh spelled a (text "curate refused"))
    ≡ ok (record { authoritative = authority })
fresh_iff_example =
    (fresh_iff spelled population (text "curate refused") (text "rerun")
        (record { authoritative = authority })).1
      (refl, (refl, refl, refl), refl)

compute_metrics-select_example :
    (compute_metrics (new_population (select graded rows) observed)).mutation_score
    ≡ (compute_metrics (new_population rows observed)).mutation_score
compute_metrics-select_example = (compute_metrics-select rows observed).0

complete_iff_example : (compute_metrics population).incomplete ≡ false
unfolding state_eq text_eq
complete_iff_example =
    (complete_iff population).1 (refl, refl, refl, refl, inr (omega arith), inr (omega arith))

compute_operator_errors_lem_example :
    select (λ e. text_eq e.operator (text "MISSING")) (compute_operator_errors population) ≡ []
unfolding text_eq
compute_operator_errors_lem_example =
    ((compute_operator_errors_lem population).1 (text "MISSING")).0 refl
