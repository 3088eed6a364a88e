-- ===== src/Oracle/Constructors/Wording.antt =====
-- The findings that constructors.go words: messages and fixes that depend on a measurement, and
-- that none of them is empty.
use tf_mut.Prelude.{ℕ, List, ◌++◌}
use tf_mut.Text.{Text, text, join}
use tf_mut.Text.Decimal.{itoa}

unfoldable pub unknowns_message : ℕ → Text
unknowns_message count =
    text "every selected run produced the same plan or state, but "
    ++ (itoa count
        ++ text
            " value(s) are still unknown, so the tool cannot prove no assertion could tell the mutant apart")

unfoldable pub unknowns_fix : Text
unknowns_fix =
    text
      "run this module in apply mode, or supply inputs that make the unknown values known, and re-run: the oracle reaches full power only over a fully-known payload"

unfoldable pub volatility_message : Text
volatility_message =
    text
      "the comparison could not be made soundly: values moved between runs in a way the mask could not decompose, so the fingerprint is indeterminate and is never treated as identical"

unfoldable pub volatility_fix : Text
volatility_fix =
    text
      "pin the volatile values — a mock default, a fixed input, or a deterministic function such as uuidv5 — and re-run"

unfoldable pub weak_message : Text → Text
weak_message address =
    text "an assertion reads "
    ++ (address
        ++ text
            ", directly or through an output or local, and still passed: the assertion is too loose to catch this change")

unfoldable pub weak_fix : Text → Text
weak_fix location =
    text "tighten the assertion at "
    ++ (location ++ text " so that it compares the value the mutation changed")

unfoldable pub no_assertion_message : Text
no_assertion_message =
    text
      "the mutant changed the plan or state and the output and local closure shows no assertion reads any of the changed addresses"

unfoldable pub no_assertion_fix : List Text → Text
no_assertion_fix addresses = text "add an assertion over " ++ join (text ", ") addresses

unfoldable pub unasserted_message : Text → Text → Text
unasserted_message address construct =
    text "the mutant changed "
    ++ (address
        ++ (text ", and an assertion reads it only through a "
            ++ (construct
                ++ text ": whether that assertion is weak or absent cannot be decided honestly")))

unfoldable pub unasserted_fix : Text → Text
unasserted_fix address =
    text "assert on "
    ++ (address ++ text " directly, so that the answer stops depending on a projection")

unfoldable pub unassertable_message : Text
unassertable_message =
    text
      "the mutated construct has no projection into a plan or a state, so no assertion over either could ever catch it"

unfoldable pub unobservable_message : Text
unobservable_message =
    text
      "every selected run produced an identical plan or state over a fully-known payload, so no assertion could distinguish this mutant under the current inputs"

unfoldable pub unobservable_fix : Text
unobservable_fix =
    text
      "either the construct is genuinely redundant, or no run block supplies input where it matters: add a run block with different variables, or accept the mutant"

unfoldable pub empty_cone_message : Text
empty_cone_message =
    text
      "the mutated node's forward cone reaches no resource, data source, output, check or contract construct, so no plan or state could reflect the change and no assertion could ever read it"

unfoldable pub empty_cone_fix : Text
empty_cone_fix =
    text
      "either the construct is genuinely dead — delete it — or nothing consumes it yet: wire it into a resource or an output and re-run"

unfoldable pub default_message : Text → Text
default_message variable =
    text "every selected run assigns var."
    ++ (variable
        ++ text
            " explicitly, so its declared default is never read and no plan or state could reflect a change to it")

unfoldable pub default_fix : Text
default_fix =
    text
      "either the default is redundant under this suite — drop it, or the variable — or no run omits the variable yet: a run without an assignment is the only reader a default can have"

unfoldable pub no_coverage_fix : Text
no_coverage_fix =
    text
      "add a run block whose variables make the multiplicity nonzero, or accept that the block is untested under the current suite"

-- The closure verdicts.
unfoldable pub read_verdict : Text
read_verdict = text "read through the output and local closure"

unfoldable pub unread_verdict : Text
unread_verdict = text "no assertion reads any delta address"

unfoldable pub defeated_verdict : Text
defeated_verdict = text "defeated"

unfoldable pub no_projection_verdict : Text
no_projection_verdict = text "no plan or state projection"

unfoldable pub empty_cone_verdict : Text
empty_cone_verdict = text "statically unobservable: empty observable cone"

unfoldable pub default_verdict : Text → Text
default_verdict variable = text "statically unobservable: every selected run sets var." ++ variable

unfoldable pub statically_zero_verdict : Text
statically_zero_verdict = text "conditional instantiation: statically zero"
