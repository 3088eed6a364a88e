-- ===== src/Mutation/Catalogue/Contracts.antt =====
-- The operator tables of internal/mutation/catalogue.go, tiers 3 to 5: contracts, lifecycle and domain packs.
use tf_mut.Prelude.{List, [], ◌∷◌}
use tf_mut.Mutation.Catalogue.Types.{Entry, standard, deep, pack, projecting, unprojecting}
use tf_mut.Text.{Text, text}

abbrev pub fix_expect_failures : Text
fix_expect_failures =
    text
      "add a run block with expect_failures naming the construct, or accept the mutant: nothing in a plan or state can distinguish it"

abbrev pub fix_ignore_drop : Text
fix_ignore_drop =
    text
      "add a day-two run pair: an apply-mode run, then a second run sharing its state_key that passes a changed value and asserts the ignored attribute held, such as `terraform_data.subject.input == \"old\"` (kill-witnessed under run-block shapes (b) and (e)); an apply-mode run stays subject to the safety gates"

abbrev pub fix_ignore_all : Text
fix_ignore_all =
    text
      "add a day-two run pair: an apply-mode run, then a second run sharing its state_key that passes a changed value and asserts the attribute move the over-broad ignore must prevent, such as `terraform_data.subject.input == \"new\"` (kill-witnessed under run-block shapes (b) and (e)); an apply-mode run stays subject to the safety gates"

abbrev pub fix_replace_trigger_drop : Text
fix_replace_trigger_drop =
    text
      "add a day-two apply/apply pair over one state_key whose second apply changes the trigger, and assert the resource was replaced, such as `terraform_data.subject.id != run.first.subject_id` (kill-witnessed under run-block shape (e)); an apply-mode run stays subject to the safety gates"

abbrev pub killer_reads_attribute : Text
killer_reads_attribute = text "an assertion reads the attribute"

unfoldable pub contract_entries : List Entry
contract_entries =
    projecting "VAR-DEFAULT-CHANGE" standard
      "Changes a variable's default to a type-appropriate alternative"
      (text "a run block relies on the default")
    ∷ projecting "VAR-DEFAULT-REMOVE" standard "Removes a variable's default, making it required"
        (text "a run block omits the variable")
    ∷ projecting "VAR-DEFAULT-NULL" standard "Replaces a variable's default with null"
        (text "a run block relies on the default")
    ∷ projecting "VAR-NULLABLE-FLIP" standard "Flips a variable's nullable flag"
        (text "a test passes null explicitly")
    ∷ projecting "VAR-OPTIONAL-DEFAULT-DROP" standard
        "Drops the default from an optional object attribute"
        (text "a test exercises the object without that attribute")
    ∷ unprojecting "VAR-VALIDATION-REMOVE" standard "Removes a variable validation block"
        (text "a run block uses expect_failures on the variable") fix_expect_failures
    ∷ unprojecting "VAR-VALIDATION-WEAKEN" standard
        "Weakens a validation condition to can(var.<name>)"
        (text "a run block uses expect_failures on the variable") fix_expect_failures
    ∷ unprojecting "VAR-VALIDATION-NEGATE" standard "Negates a validation condition"
        (text "a run block asserts a valid value is accepted") fix_expect_failures
    ∷ projecting "VAR-SENSITIVE-FLIP" standard "Clears a variable's sensitive flag"
        (text "rarely: a sensitivity pseudo-test detector")
    ∷ unprojecting "PRE-POST-REMOVE" standard "Removes a precondition or postcondition"
        (text "a run block uses expect_failures on it") fix_expect_failures
    ∷ unprojecting "PRE-POST-NEGATE" standard "Negates a precondition or postcondition"
        (text "a run block asserts the happy path") fix_expect_failures
    ∷ unprojecting "CHECK-REMOVE" standard "Removes a check block's assertion"
        (text "a run block exercises the check") fix_expect_failures
    ∷ unprojecting "CHECK-NEGATE" standard "Negates a check block's assertion"
        (text "a run block exercises the check") fix_expect_failures
    ∷ projecting "OUT-SENSITIVE-FLIP" standard "Clears an output's sensitive flag"
        (text "rarely: a sensitivity pseudo-test detector")
    ∷ []

unfoldable pub lifecycle_entries : List Entry
lifecycle_entries =
    unprojecting "LC-IGNORE-DROP" deep
      "Drops an ignore_changes entry so the frozen attribute updates again"
      (text "a day-two run pair asserts the attribute held at its old value") fix_ignore_drop
    ∷ unprojecting "LC-IGNORE-ALL" deep "Widens ignore_changes to the all keyword"
        (text "a day-two run pair asserts the attribute moved to its new value") fix_ignore_all
    ∷ unprojecting "LC-REPLACE-TRIGGER-DROP" deep
        "Drops replace_triggered_by so a trigger change no longer replaces the resource"
        (text
          "a second apply over one state_key changes the trigger and an assertion compares the instance ids")
        fix_replace_trigger_drop
    ∷ []

unfoldable pub pack_entries : List Entry
pack_entries =
    projecting "PACK-FLIP" pack
      "Inverts a boolean literal a pack entry names on its resource type and attribute"
      killer_reads_attribute
    ∷ projecting "PACK-REPLACE" pack
        "Replaces a literal a pack entry names with the fault the entry models"
        killer_reads_attribute
    ∷ projecting "PACK-WIDEN-CIDR" pack
        "Widens any IPv4 CIDR literal a pack entry names to the IPv4 any-prefix"
        killer_reads_attribute
    ∷ []
