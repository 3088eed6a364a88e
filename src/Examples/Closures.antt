-- ===== src/Examples/Closures.antt =====
-- A closure in which an output reads a local through a splat and directly.
use tf_mut.Prelude.{suc, ◌+◌, ◌≡◌, refl, true, false, [], ◌∷◌}
use tf_mut.Prelude.Sorting
use tf_mut.Text.{Text, text, text_eq, contains, join}
use tf_mut.Text.Cutting.{has_prefix}
use tf_mut.Text.Order.{text_le}
use tf_mut.Dict.{get, put}
use tf_mut.Discovery.Expressions.{
  traversal_ref, collect_refs, references_of, root, attribute, Expr, scope_traversal, splat,
  tuple_cons, nil, cons,
}
use tf_mut.Discovery.Reach.{Assertion}
use tf_mut.Discovery.Closure.{
  record_attributes, normalise_address, reach, count_refs, reads, Closure,
}
use tf_mut.Discovery.Closure.Enough.{reach-enough}
use tf_mut.Discovery.Closure.Proven.{reads-ProvenRead, ProvenRead}

abbrev path_to : Text → Text → Expr
path_to base name = scope_traversal (root base ∷ attribute name ∷ [])

abbrev asserted : Text → Assertion
asserted address = record {
  ref = record { address = address; precise = true; construct = [] };
  file = text "main.tftest.hcl";
  run = text "r";
  line = 3;
}

-- The value of `output.o` is given, that of `local.x` reads `disk.main`.
abbrev closure_over : Expr → Closure
closure_over value = record {
  expansions = record_attributes (text "output.o") (text "value") ((text "value", value) ∷ []) (
      record_attributes (text "local.x") (text "x")
        ((text "x", path_to (text "disk") (text "main")) ∷ []) []);
  assertions = asserted (text "output.o") ∷ [];
}

abbrev direct : Closure
direct = closure_over (path_to (text "local") (text "x"))

reads-ProvenRead_example :
    ProvenRead direct
      (normalise_address (text "disk.main[0].id"))
      (reads direct (text "disk.main[0].id")).assertion
unfolding record_attributes references_of collect_refs traversal_ref put get text_eq join
    Sorting.sort reads reach contains has_prefix normalise_address
reads-ProvenRead_example = reads-ProvenRead direct (text "disk.main[0].id") refl

abbrev both : Closure
both = closure_over (
    tuple_cons (
      cons (splat (path_to (text "local") (text "x")))
        (cons (path_to (text "local") (text "x")) nil)))

-- The walk through the splat comes first and marks the local as seen, so the direct read of it is
-- passed over and the conclusion is defeated.
hidden_read :
    ((reads both (text "disk.main")).read ≡ false)
    × ((reads both (text "disk.main")).defeated ≡ true)
unfolding record_attributes references_of collect_refs traversal_ref put get text_eq join
    Sorting.sort reads reach contains has_prefix normalise_address text_le
hidden_read = (refl, refl)

reach-enough_example :
    reach
      (3 + suc (suc (count_refs direct.expansions)))
      direct.expansions
      (text "disk.main")
      (asserted (text "output.o")).ref
      []
    ≡ reach
        (suc (suc (count_refs direct.expansions)))
        direct.expansions
        (text "disk.main")
        (asserted (text "output.o")).ref
        []
reach-enough_example =
    reach-enough direct.expansions (text "disk.main") 3 (asserted (text "output.o")).ref
