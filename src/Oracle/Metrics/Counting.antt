-- ===== src/Oracle/Metrics/Counting.antt =====
-- What the maps of `ComputeMetrics` hold: how many rows are in each state.
use tf_mut.Prelude.{
  ℕ, suc, ◌+◌, ◌≡◌, refl, sym, ap, ◌∙◌, Bool, true, false, ◌&&◌, ◌||◌, List, [], ◌∷◌, arith, leb,
  ◌==◌, if◌then◌else◌, select, count_if,
}
use tf_mut.Text.{text_eq}
use tf_mut.Oracle.Outcome.{
  State, invalid, killed, killed_by_error, timeout, survived, structurally_unassertable,
  unobservable, no_coverage, ignored, pending, unowned,
}
use tf_mut.Oracle.Population.{Classified}
use tf_mut.Oracle.Metrics.{state_code, state_text, state_eq, count_states}

abbrev pub in_state : State → Classified → Bool
in_state s row = state_eq row.outcome.state s

pub count_states_lem :
    (rows : List Classified) (counts : State → ℕ) (s : State)
    → count_states rows counts s ≡ counts s + count_if (in_state s) rows
unfolding count_states
count_states_lem [] counts s = omega arith
count_states_lem (row ∷ rest) counts s = ground (
  arith,
  count_states_lem rest (λ s. if state_eq row.outcome.state s then suc (counts s) else counts s) s,
)

-- Whether a mutant in this state is graded.
abbrev pub is_scored : State → Bool
is_scored killed = true
is_scored killed_by_error = true
is_scored survived = true
is_scored structurally_unassertable = true
is_scored no_coverage = true
is_scored timeout = true
is_scored _ = false

abbrev pub one_if : Bool → ℕ
one_if b = if b then 1 else 0

is_scored_lem :
    (s : State)
    → one_if (is_scored s)
      ≡ one_if (state_eq s killed)
        + (one_if (state_eq s killed_by_error)
            + (one_if (state_eq s survived)
                + (one_if (state_eq s structurally_unassertable)
                    + (one_if (state_eq s no_coverage) + one_if (state_eq s timeout)))))
unfolding state_eq state_code state_text text_eq
is_scored_lem killed = refl
is_scored_lem killed_by_error = refl
is_scored_lem survived = refl
is_scored_lem structurally_unassertable = refl
is_scored_lem no_coverage = refl
is_scored_lem timeout = refl
is_scored_lem invalid = refl
is_scored_lem unobservable = refl
is_scored_lem ignored = refl
is_scored_lem pending = refl
is_scored_lem (unowned s) = refl

abbrev pub graded : Classified → Bool
graded row = is_scored row.outcome.state

-- The graded rows are those in the six scored states, each once.
pub graded_lem :
    (rows : List Classified)
    → count_if graded rows
      ≡ count_if (in_state killed) rows
        + (count_if (in_state killed_by_error) rows
            + (count_if (in_state survived) rows
                + (count_if (in_state structurally_unassertable) rows
                    + (count_if (in_state no_coverage) rows + count_if (in_state timeout) rows))))
graded_lem [] = refl
graded_lem (row ∷ rest) = omega (arith, is_scored_lem row.outcome.state, graded_lem rest)

-- The states that are graded, by their codes.
abbrev scored_code : ℕ → Bool
scored_code n = leb 1 n && (leb n 5 || n == 7)

scored_code_lem : (s : State) → is_scored s ≡ scored_code (state_code s)
unfolding state_code
scored_code_lem killed = refl
scored_code_lem killed_by_error = refl
scored_code_lem survived = refl
scored_code_lem structurally_unassertable = refl
scored_code_lem no_coverage = refl
scored_code_lem timeout = refl
scored_code_lem invalid = refl
scored_code_lem unobservable = refl
scored_code_lem ignored = refl
scored_code_lem pending = refl
scored_code_lem (unowned s) = refl

same_code : (s t : State) → state_eq s t ≡ true → state_code s ≡ state_code t
unfolding state_eq
same_code s t h = ground arith

in_state-graded :
    (s : State) (row : Classified) → is_scored s ≡ true → in_state s row ≡ true → graded row ≡ true
in_state-graded s row h k =
    scored_code_lem row.outcome.state
    ∙ ap scored_code (same_code row.outcome.state s k)
    ∙ sym (scored_code_lem s)
    ∙ h

select-count :
    (p q : Classified → Bool) (rows : List Classified)
    → ((row : Classified) → q row ≡ true → p row ≡ true)
    → count_if q (select p rows) ≡ count_if q rows
select-count p q [] h = refl
select-count p q (row ∷ rest) h = ground (arith, select-count p q rest h, h row)

-- The rows that are not graded do not count for a graded state.
pub select-graded_lem :
    (s : State) (rows : List Classified)
    → is_scored s ≡ true
    → count_states (select graded rows) (λ s. 0) s ≡ count_states rows (λ s. 0) s
select-graded_lem s rows h = omega (
  arith,
  count_states_lem (select graded rows) (λ s. 0) s,
  count_states_lem rows (λ s. 0) s,
  select-count graded (in_state s) rows (λ row. in_state-graded s row h),
)
