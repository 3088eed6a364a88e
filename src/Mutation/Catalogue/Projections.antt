-- ===== src/Mutation/Catalogue/Projections.antt =====
-- The operator tables of internal/mutation/catalogue.go, tiers 1 and 2: projections, templates, functions and meta-arguments.
use tf_mut.Prelude.{List, [], ◌∷◌}
use tf_mut.Mutation.Catalogue.Types.{Entry, standard, projecting, unprojecting}
use tf_mut.Text.{Text, text}

abbrev pub fix_ordering : Text
fix_ordering =
    text
      "ordering is not observable in a plan or state; assert the effect the dependency exists to guarantee, or accept the mutant"

unfoldable pub projection_entries : List Entry
projection_entries =
    projecting "FOR-DROP-IF" standard "Drops the filter of a for expression"
      (text "an assertion exercises input the filter excludes")
    ∷ projecting "FOR-NEGATE-IF" standard "Negates the filter of a for expression"
        (text "an assertion exercises input the filter selects")
    ∷ projecting "FOR-SWAP-KV" standard "Transposes the key and value of an object for expression"
        (text "an assertion reads the resulting keys")
    ∷ projecting "FOR-DROP-GROUPING" standard "Drops the grouping mode of an object for expression"
        (text "an assertion reads a grouped value")
    ∷ projecting "IDX-SHIFT" standard "Shifts a literal index by one"
        (text "an assertion reads the indexed element")
    ∷ projecting "SPLAT-FIRST" standard "Collapses a splat to its first element"
        (text "an assertion reads the whole projection")
    ∷ projecting "TPL-DROP-INTERP" standard "Drops one interpolation from a template"
        (text "an assertion reads the rendered string")
    ∷ projecting "TPL-STRIP-FLIP" standard "Flips a template strip marker"
        (text "an assertion compares the rendered whitespace")
    ∷ projecting "TPL-IF-COLLAPSE" standard "Collapses a template conditional to one branch"
        (text "an assertion exercises the other branch")
    ∷ projecting "HEREDOC-INDENT-FLIP" standard "Removes the indentation marker from a heredoc"
        (text "an assertion compares the rendered indentation")
    ∷ projecting "FN-SWAP" standard "Substitutes a function for its curated counterpart"
        (text "an assertion reads a value where the two functions differ")
    ∷ projecting "FN-ARG-REORDER" standard "Swaps the first two arguments of a merge or fallback"
        (text "an assertion reads a value where precedence matters")
    ∷ projecting "FN-DROP-DEFAULT" standard "Removes the fallback argument of lookup or try"
        (text "an assertion exercises the fallback path")
    ∷ projecting "FN-TRY-FIRST" standard "Makes a try fall through to its last argument"
        (text "an assertion exercises the primary path")
    ∷ projecting "FN-CAN-TRUE" standard "Neuters a can guard"
        (text "an assertion exercises input the guard rejects")
    ∷ projecting "FN-DROP-WRAPPER" standard "Removes a normalisation wrapper"
        (text "an assertion reads the normalised value")
    ∷ projecting "FN-JOIN-SEP" standard "Empties a join separator"
        (text "an assertion reads the joined string")
    ∷ projecting "FN-DROP-EXPANSION" standard "Removes an argument expansion"
        (text "an assertion reads the call's result")
    ∷ projecting "FN-FAMILY-SWAP" standard
        "Substitutes a function for another member of its semantic family (opt-in, M3e)"
        (text "an assertion reads a value the family members disagree on")
    ∷ []

unfoldable pub meta_entries : List Entry
meta_entries =
    projecting "COUNT-ZERO" standard "Empties a counted resource's instance set"
      (text "an assertion counts or indexes instances")
    ∷ projecting "COUNT-ONE" standard "Reduces a count to one"
        (text "an assertion checks the instance count")
    ∷ projecting "COUNT-OFF-BY-ONE" standard "Shifts a literal count by one"
        (text "an assertion checks the exact instance count")
    ∷ projecting "FOREACH-EMPTY" standard "Empties a for_each collection"
        (text "an assertion counts instances")
    ∷ projecting "FOREACH-TO-COUNT" standard "Rewrites a for_each over a set as an equivalent count"
        (text "an assertion depends on instance keys rather than ordinals")
    ∷ projecting "DYNAMIC-ZERO" standard "Empties a dynamic block's for_each"
        (text "an assertion reads the generated nested block")
    ∷ unprojecting "DEPENDS-DROP" standard "Removes a depends_on meta-argument"
        (text "nothing in a plan or state: ordering has no projection") fix_ordering
    ∷ projecting "PROVIDER-ALIAS-SWAP" standard
        "Swaps a provider alias for another of identical mock status"
        (text "an assertion checks region or account placement")
    ∷ []
