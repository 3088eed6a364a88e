-- ===== src/Mutation/Catalogue/Expressions.antt =====
-- The operator tables of internal/mutation/catalogue.go, tiers 0 and 1: extreme operators, expressions and collections.
use tf_mut.Prelude.{List, [], ◌∷◌}
use tf_mut.Mutation.Catalogue.Types.{Entry, smoke, standard, projecting}
use tf_mut.Text.{text}

unfoldable pub extreme_entries : List Entry
extreme_entries =
    projecting "EXT-ATTR-DELETE" smoke
      "Deletes one schema-optional argument assignment so the provider default applies"
      (text "any assertion reads that attribute")
    ∷ projecting "EXT-RESOURCE-DELETE" smoke "Empties a resource's instance set"
        (text "any assertion counts, indexes or reads the resource")
    ∷ projecting "EXT-BODY-BLANK" smoke "Deletes every optional argument of a resource at once"
        (text "any assertion reads any configured attribute of the resource")
    ∷ projecting "EXT-OUTPUT-NULL" smoke "Replaces an output value with null"
        (text "any assertion reads the output")
    ∷ projecting "EXT-LOCAL-NULL" smoke "Replaces a local value with null"
        (text "any assertion reads anything downstream of the local")
    ∷ projecting "EXT-MODULE-INPUT-DELETE" smoke "Deletes an input argument on a module call"
        (text "any assertion observes the child's behaviour under that input")
    ∷ []

unfoldable pub expression_entries : List Entry
expression_entries =
    projecting "COND-SWAP" standard "Swaps the arms of a conditional"
      (text "an assertion distinguishes the two arms")
    ∷ projecting "COND-NEGATE" standard "Negates a conditional's predicate"
        (text "an assertion distinguishes the two arms")
    ∷ projecting "COND-TRUE" standard "Collapses a conditional to its true arm"
        (text "an assertion exercises the false arm")
    ∷ projecting "COND-FALSE" standard "Collapses a conditional to its false arm"
        (text "an assertion exercises the true arm")
    ∷ projecting "BOOL-AND-OR" standard "Replaces a logical and with a logical or"
        (text "an assertion exercises an input where the combinators differ")
    ∷ projecting "BOOL-OR-AND" standard "Replaces a logical or with a logical and"
        (text "an assertion exercises an input where the combinators differ")
    ∷ projecting "BOOL-NEGATE-REMOVE" standard "Removes a logical negation"
        (text "an assertion exercises the negated condition")
    ∷ projecting "BOOL-NEGATE-INSERT" standard "Inserts a logical negation around a comparison"
        (text "an assertion exercises the condition")
    ∷ projecting "CMP-EQ-NE" standard "Inverts an equality comparison"
        (text "an assertion exercises a value where equality matters")
    ∷ projecting "CMP-BOUNDARY" standard
        "Shifts a comparison to its inclusive or exclusive neighbour"
        (text "an assertion exercises the boundary value")
    ∷ projecting "CMP-INVERT" standard "Reverses the direction of a comparison"
        (text "an assertion exercises a value on either side")
    ∷ projecting "ARITH-SWAP" standard "Swaps an arithmetic operator for its inverse"
        (text "an assertion reads the computed value")
    ∷ projecting "NUM-OFF-BY-ONE" standard "Shifts a numeric literal by one"
        (text "an assertion checks the exact value")
    ∷ projecting "NUM-ZERO" standard "Replaces a numeric literal with zero"
        (text "an assertion checks the value")
    ∷ projecting "NUM-NEGATE" standard "Negates a numeric literal"
        (text "an assertion checks the sign")
    ∷ projecting "BOOL-LITERAL-FLIP" standard "Flips a boolean literal"
        (text "an assertion reads the flag")
    ∷ projecting "STR-EMPTY" standard "Replaces a string literal with the empty string"
        (text "an assertion reads the string")
    ∷ projecting "STR-CASE" standard "Flips the case of a string literal"
        (text "an assertion compares the string exactly")
    ∷ projecting "NULL-INJECT" standard "Replaces a schema-optional argument value with null"
        (text "an assertion reads the attribute")
    ∷ []

unfoldable pub collection_entries : List Entry
collection_entries =
    projecting "COLL-DROP-FIRST" standard "Drops the first element of a tuple"
      (text "an assertion reads the collection's length or contents")
    ∷ projecting "COLL-DROP-LAST" standard "Drops the last element of a tuple"
        (text "an assertion reads the collection's length or contents")
    ∷ projecting "COLL-EMPTY" standard "Empties a tuple or object"
        (text "an assertion reads the collection")
    ∷ projecting "COLL-DROP-ENTRY" standard "Drops one entry of an object"
        (text "an assertion reads that entry")
    ∷ projecting "COLL-REVERSE" standard "Reverses the order of a tuple"
        (text "an assertion reads the collection in order")
    ∷ []
