-- ===== src/Oracle/Metrics/Operators.antt =====
-- The summary of each operator against the rows.
use tf_mut.Prelude.Sorting.Selecting.{select-sort}
use tf_mut.Dict.Keys.{IsDict, put-IsDict}
use tf_mut.Prelude.{
  suc, ◌+◌, ◌≤◌, ◌≡◌, refl, ap, ◌∙◌, Bool, true, ◌&&◌, ◌||◌, Option, none, some, List, [], ◌∷◌, map,
  arith, ltb, select, all_pass, count_if,
}
use tf_mut.Prelude.Sorting
use tf_mut.Text.{Text, text_eq, text_eq_iff}
use tf_mut.Dict.{Dict, get, put, has, get-put}
use tf_mut.Oracle.Outcome.{
  State, invalid, killed, killed_by_error, timeout, survived, structurally_unassertable,
  unobservable, no_coverage, ignored, pending, unowned,
}
use tf_mut.Oracle.Population.{Classified, Population}
use tf_mut.Oracle.Metrics.{
  state_code, state_text, state_eq, ratio, no_errors, bump, entry_of, tally, rated, by_operator,
  compute_operator_errors, OperatorErrors,
}
use tf_mut.Oracle.Metrics.Counting.{in_state, one_if}

abbrev pub made_by : Text → Classified → Bool
made_by o row = text_eq row.operator o

abbrev pub made_by_in : Text → State → Classified → Bool
made_by_in o s row = made_by o row && in_state s row

-- What one row adds to its entry.
bump_lem :
    (s : State) (e : OperatorErrors)
    → ((bump s e).operator ≡ e.operator)
      × ((bump s e).generated ≡ suc e.generated)
      × ((bump s e).invalid_count ≡ e.invalid_count + one_if (state_eq s invalid))
      × ((bump s e).killed_by_error_count
          ≡ e.killed_by_error_count + one_if (state_eq s killed_by_error))
unfolding bump state_eq state_code state_text text_eq
bump_lem invalid e = ground arith
bump_lem killed e = ground arith
bump_lem killed_by_error e = ground arith
bump_lem timeout e = ground arith
bump_lem survived e = ground arith
bump_lem structurally_unassertable e = ground arith
bump_lem unobservable e = ground arith
bump_lem no_coverage e = ground arith
bump_lem ignored e = ground arith
bump_lem pending e = ground arith
bump_lem (unowned t) e = ground arith

-- Each entry stands under its own operator.
abbrev IsKeyed : Dict OperatorErrors → Type 0
IsKeyed m = all_pass (λ kv. text_eq kv.0 kv.1.operator) m ≡ true

put-IsKeyed :
    (k : Text) (e : OperatorErrors) (m : Dict OperatorErrors)
    → e.operator ≡ k
    → IsKeyed m
    → IsKeyed (put k e m)
unfolding put
put-IsKeyed k e [] h i = ground (arith, h, text_eq_iff k e.operator)
put-IsKeyed k e ((j, x) ∷ m) h i = ground (arith, put-IsKeyed k e m h, i, text_eq_iff k e.operator)

get-IsKeyed : (k : Text) (m : Dict OperatorErrors) → IsKeyed m → (entry_of k m).operator ≡ k
unfolding entry_of get no_errors
get-IsKeyed k [] i = refl
get-IsKeyed k ((j, x) ∷ m) i =
    ground (arith, get-IsKeyed k m, i, text_eq_iff j k, text_eq_iff j x.operator)

-- The map that the loop leaves is keyed by operator and holds each once.
tally-IsDict :
    (rows : List Classified) (m : Dict OperatorErrors)
    → IsDict m × IsKeyed m
    → IsDict (tally rows m) × IsKeyed (tally rows m)
unfolding tally
tally-IsDict [] m h = h
tally-IsDict (row ∷ rest) m h =
    let entry : OperatorErrors = bump row.outcome.state (entry_of row.operator m) in
    let under : entry.operator ≡ row.operator =
      (bump_lem row.outcome.state (entry_of row.operator m)).0 ∙ get-IsKeyed row.operator m h.1 in
    tally-IsDict rest (put row.operator entry m)
      (put-IsDict row.operator entry m h.0, put-IsKeyed row.operator entry m under h.1)

-- What the loop adds to the entry of one operator.
tally_lem :
    (o : Text) (rows : List Classified) (m : Dict OperatorErrors)
    → (has o (tally rows m) ≡ (has o m || ltb 0 (count_if (made_by o) rows)))
      × ((entry_of o (tally rows m)).generated
          ≡ (entry_of o m).generated + count_if (made_by o) rows)
      × ((entry_of o (tally rows m)).invalid_count
          ≡ (entry_of o m).invalid_count + count_if (made_by_in o invalid) rows)
      × ((entry_of o (tally rows m)).killed_by_error_count
          ≡ (entry_of o m).killed_by_error_count + count_if (made_by_in o killed_by_error) rows)
unfolding tally entry_of
tally_lem o [] m = ground arith
tally_lem o (row ∷ rest) m =
    let entry : OperatorErrors = bump row.outcome.state (entry_of row.operator m) in
    ground (
      arith,
      tally_lem o rest (put row.operator entry m),
      get-put row.operator o entry m,
      text_eq_iff row.operator o,
      bump_lem row.outcome.state (entry_of row.operator m),
    )

-- Reading the values of one operator off the map.
select-values :
    (o : Text) (m : Dict OperatorErrors)
    → IsDict m
    → IsKeyed m
    → select (λ e. text_eq e.operator o) (map (λ entry. rated entry.1) m)
      ≡ elim (get o m) [ none ↦ [] | some e ↦ rated e ∷ [] ]
unfolding get rated
select-values o [] h i = refl
select-values o ((j, x) ∷ m) h i = ground (
  arith,
  select-values o m h.1,
  i,
  text_eq_iff j o,
  text_eq_iff j x.operator,
  h.0,
  text_eq_iff x.operator o,
)

abbrev tallied : Population → Dict OperatorErrors
tallied p = tally p.classified []

-- The entries of one operator.
found_lem :
    (p : Population) (o : Text)
    → select (λ e. text_eq e.operator o) (compute_operator_errors p)
      ≡ elim (get o (tallied p)) [ none ↦ [] | some e ↦ rated e ∷ [] ]
unfolding compute_operator_errors
found_lem p o =
    let (once, keyed) = tally-IsDict p.classified [] (tt, refl) in
    select-sort by_operator (λ e. text_eq e.operator o) (map (λ entry. rated entry.1) (tallied p))
    ∙ ap (Sorting.sort by_operator) (select-values o (tallied p) once keyed)
    ∙ sort_one (get o (tallied p))
  where
    sort_one :
        (found : Option OperatorErrors)
        → Sorting.sort by_operator (elim found [ none ↦ [] | some e ↦ rated e ∷ [] ])
          ≡ elim found [ none ↦ [] | some e ↦ rated e ∷ [] ]
    sort_one none = unfold Sorting.sort in refl
    sort_one (some e) = unfold Sorting.sort Sorting.insert in refl

-- The list is sorted by operator. An operator that made no row has no entry in it; one that made
-- some has exactly one, with the number of its rows, of its invalid ones and of those killed by an
-- error, and the share of the invalid ones as its error rate.
pub compute_operator_errors_lem :
    (p : Population)
    → Sorting.IsSorted by_operator (compute_operator_errors p)
      × ((o : Text)
          → let found = select (λ e. text_eq e.operator o) (compute_operator_errors p) in
            (count_if (made_by o) p.classified ≡ 0 → found ≡ [])
            × (1 ≤ count_if (made_by o) p.classified
                → (e : OperatorErrors) × (found ≡ e ∷ [])
                  × (e.generated ≡ count_if (made_by o) p.classified)
                  × (e.invalid_count ≡ count_if (made_by_in o invalid) p.classified)
                  × (e.killed_by_error_count ≡ count_if (made_by_in o killed_by_error) p.classified)
                  × (e.error_rate ≡ ratio e.invalid_count e.generated)))
unfolding compute_operator_errors entry_of rated get no_errors
compute_operator_errors_lem p = (
  Sorting.sort-IsSorted by_operator (map (λ entry. rated entry.1) (tallied p)),
  λ o. (
    λ h. ground (arith, h, found_lem p o, tally_lem o p.classified []),
    λ h. (
      rated (entry_of o (tallied p)),
      ground (arith, h, found_lem p o, tally_lem o p.classified []),
      ground (arith, tally_lem o p.classified []),
      ground (arith, tally_lem o p.classified []),
      ground (arith, tally_lem o p.classified []),
      refl,
    ),
  ),
)
