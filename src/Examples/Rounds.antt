-- ===== src/Examples/Rounds.antt =====
-- The until-dry loop over a suite whose first round yields an assertion and whose second yields none.
use tf_mut.Prelude.{
  ◌+◌, ◌≡◌, refl, true, false, some, List, [], ◌∷◌, ◌==◌, if◌then◌else◌, length, ok,
}
use tf_mut.Prelude.Sorting
use tf_mut.Text.Cutting.{has_prefix}
use tf_mut.Text.{Text, text, text_eq, contains}
use tf_mut.Dict.{get, put}
use tf_mut.Oracle.Population.{authoritative, Population}
use tf_mut.Engine.UntilDry.{
  rung_includes, asserted_address, rung_of, scenario_for_run, absorb_in, absorb_one, absorb_all,
  absorb_suggestions_as_pins, outputs, Suggestion,
}
use tf_mut.Engine.UntilDry.Rounds.{
  record_scaffold, record_scaffolds, settle, after_grading, one_round, rounds_from, until_dry,
  round_limit, Graded, dry, Ended, Setting,
}
use tf_mut.Engine.UntilDry.Converge.{total, until_dry-Ends, Ends}
use tf_mut.Engine.UntilDry.Kept.{all_within, until_dry-pins}

abbrev observed_all : Population
observed_all = record {
  classified = [];
  provenance = record { cached = 0; timed_out = 0; errored = 0; unexecuted = 0; tripped = false };
}

abbrev suggestion : Suggestion
suggestion = record {
  target_run = text "characterise_base";
  is_verified = true;
  expression = text "output.n == 1";
}

abbrev graded : List Suggestion → Graded
graded suggestions = record {
  unassertable_sites = text "check.c" ∷ [];
  suggestions = suggestions;
  population = observed_all;
}

abbrev setting : Setting Text
setting = record {
  spelled = λ expression. some (text "output.n" ∷ []);
  block = record { rung = outputs; scenarios = record { id = text "s1"; name = text "base" } ∷ [] };
  artefact = text "tests/scaffolds.tfmut-todo.hcl";
  grade = λ round pins. ok (graded (if round == 0 then suggestion ∷ [] else []));
}

abbrev result : Ended Text
unfolding until_dry rounds_from one_round after_grading settle record_scaffolds record_scaffold
    authoritative absorb_suggestions_as_pins absorb_all absorb_one absorb_in scenario_for_run
    rung_of asserted_address rung_includes contains text_eq has_prefix get put round_limit
    Sorting.sort
result = until_dry setting (round_limit 0) [] []

-- The second round is the dry one, and the pin of the first is kept.
dry_after_two : (result.convergence.stop_reason ≡ dry) × (length result.pins ≡ 1)
unfolding result
dry_after_two = (refl, refl)

until_dry-Ends_example : Ends 5 (until_dry setting 5 [] [])
until_dry-Ends_example = until_dry-Ends setting 5 [] []

until_dry-pins_example :
    let r = until_dry setting 5 [] [] in
    (length r.pins ≡ 0 + total r.convergence.new_pins_per_round)
    × (all_within outputs r.pins ≡ true)
until_dry-pins_example = until_dry-pins setting 5 [] [] refl
