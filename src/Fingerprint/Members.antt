-- ===== src/Fingerprint/Members.antt =====
-- internal/fingerprint/payload.go: the names of the members of a payload.
use tf_mut.Prelude.{◌++◌}
use tf_mut.Text.{Text, text}

abbrev pub resource_changes : Text
resource_changes = text "resource_changes"

abbrev pub output_changes : Text
output_changes = text "output_changes"

abbrev pub root_module : Text
root_module = text "root_module"

abbrev pub state_outputs : Text
state_outputs = text "outputs"

abbrev pub output_root : Text
output_root = text "output"

abbrev pub after_unknown : Text
after_unknown = text "after_unknown"

abbrev pub before_unknown : Text
before_unknown = text "before_unknown"

abbrev pub after_sensitive : Text
after_sensitive = text "after_sensitive"

abbrev pub before_sensitive : Text
before_sensitive = text "before_sensitive"

abbrev pub sensitive_values : Text
sensitive_values = text "sensitive_values"

abbrev pub output_sensitive : Text
output_sensitive = text "sensitive"

abbrev pub output_type : Text
output_type = text "type"

abbrev pub plan_values : Text
plan_values = text "values"

abbrev pub change_after : Text
change_after = text "change.after"

abbrev pub change_before : Text
change_before = text "change.before"

abbrev pub change_after_unknown : Text
change_after_unknown = text "change." ++ after_unknown

abbrev pub output_after_field : Text
output_after_field = text "after"

abbrev pub output_value_field : Text
output_value_field = text "value"
