-- ===== src/Examples/Suites.antt =====
-- A concrete suite.
use tf_mut.Prelude.{◌≡◌, true, List, [], ◌∷◌, all_pass}
use tf_mut.Text.{Text, text}
use tf_mut.Dict.{Dict}
use tf_mut.Engine.Curate.{
  curate_findings, Assertion, Provenance, generated_unmodified, pre_existing,
}
use tf_mut.Engine.Curate.Scope.{in_scope, curate_findings-scope}

abbrev assertion_in : Text → Text → Assertion
assertion_in id run = record {
  id = id;
  file = text "main.tftest.hcl";
  run = run;
  source = text "true";
  line = 4;
}

abbrev narrow : Assertion
narrow = assertion_in (text "asrt-1") (text "small")

abbrev wide : Assertion
wide = assertion_in (text "asrt-2") (text "large")

abbrev suite : List Assertion
suite = narrow ∷ wide ∷ []

abbrev kill_sets : Dict (List Text)
kill_sets = (text "asrt-1", text "m1" ∷ []) ∷ (text "asrt-2", text "m1" ∷ text "m2" ∷ []) ∷ []

abbrev classes : Dict Provenance
classes = (text "asrt-1", pre_existing) ∷ (text "asrt-2", generated_unmodified) ∷ []

curate_findings-scope_example : all_pass in_scope (curate_findings suite kill_sets classes) ≡ true
curate_findings-scope_example = curate_findings-scope suite kill_sets classes
